-- ===== src/Commands/Modes.antt =====
-- srcs/modes/modes.cpp: the `MODE` command, which tries the five kinds of mode in turn.
pub mod Notify
pub mod Flags
pub mod Limit
pub mod Operators
use Flags.{invite_only, let_s_change_the_topic, secret_key}
use Limit.{limited_usage}
use Notify.{after_mode}
use Operators.{operators}
use ft_irc_server.Channel.{is_operator}
use ft_irc_server.Commands.Common.{reply, first_channel}
use ft_irc_server.Parser.{Message, param}
use ft_irc_server.Prelude.{ℕ, not, text, length, ltb, if◌then◌else◌, on_found}
use ft_irc_server.Server.{Server, client_at, channel_at}

-- The five attempts, and the reply to an unknown mode.
unfoldable pub try_modes : ℕ → Message → ℕ → Server → Server
try_modes k m i s = after_mode (invite_only k m i s) λ s1.
    after_mode (let_s_change_the_topic k m i s1) λ s2. after_mode (secret_key k m i s2) λ s3.
      after_mode (limited_usage k m i s3)
        λ s4. after_mode (operators k m i s4) λ s5. reply k 472 (param m 1) s5

unfoldable pub modes : ℕ → Message → Server → Server
modes k m s =
    if not (client_at s k).registered
    then reply k 451 (text "MODE") s
    else if ltb (length m.params) 2
    then reply k 461 (text "MODE") s
    else on_found (first_channel (param m 0) s) (reply k 403 (param m 0) s) (λ i.
      if not (is_operator (client_at s k).fd (channel_at s i))
      then reply k 482 (param m 0) s
      else try_modes k m i s)
