-- ===== src/Commands/Modes/Flags.antt =====
-- srcs/modes/invite_only.cpp, change_topic.cpp and secret_key.cpp: the modes `i`, `t` and `k`.
use ft_irc_server.Channel.{set_invite_only, set_change_topic, set_key, remove_key}
use ft_irc_server.Commands.Common.{reply}
use ft_irc_server.Commands.Modes.Notify.{notification, mode_message}
use ft_irc_server.Parser.{Message, param}
use ft_irc_server.Prelude.{
  ℕ, Bool, true, false, not, ◌&&◌, ◌++◌, Str, text, same, length, ltb, if◌then◌else◌,
}
use ft_irc_server.Server.{Server, update_channel}

-- The announcement that ends each of these functions; `change` is what follows the channel's name.
abbrev pub announce : ℕ → ℕ → Str → Server → Server
announce k i change s = notification i (mode_message k i change s) s

unfoldable pub invite_only : ℕ → Message → ℕ → Server → Bool × Server
invite_only k m i s =
    let mode = param m 1 in
    if not (same mode (text "+i")) && not (same mode (text "-i"))
    then (false, s)
    else if same mode (text "+i")
    then (true, announce k i mode (update_channel i (set_invite_only true) s))
    else (true, announce k i mode (update_channel i (set_invite_only false) s))

unfoldable pub let_s_change_the_topic : ℕ → Message → ℕ → Server → Bool × Server
let_s_change_the_topic k m i s =
    let mode = param m 1 in
    if not (same mode (text "+t")) && not (same mode (text "-t"))
    then (false, s)
    else if same mode (text "+t")
    then (true, announce k i mode (update_channel i (set_change_topic true) s))
    else (true, announce k i mode (update_channel i (set_change_topic false) s))

unfoldable pub secret_key : ℕ → Message → ℕ → Server → Bool × Server
secret_key k m i s =
    let mode = param m 1 in
    if not (same mode (text "+k")) && not (same mode (text "-k"))
    then (false, s)
    else if ltb (length m.params) 3
    then (true, reply k 461 (text "MODE") s)
    else if same mode (text "+k")
    then (true, announce k i (text "+k " ++ param m 2) (update_channel i (set_key (param m 2)) s))
    else (true, announce k i (text "-k") (update_channel i remove_key s))
