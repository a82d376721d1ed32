-- ===== src/Commands/Privmsg.antt =====
-- srcs/commands/privmsg.cpp
use ft_irc_server.Channel.{has_member}
use ft_irc_server.Commands.Common.{reply, last_channel, last_client}
use ft_irc_server.Parser.{Message, param}
use ft_irc_server.Prelude.{
  ℕ, Bool, false, [], ◌∷◌, ◌++◌, not, ◌||◌, Str, text, is_empty, length, ltb, ◌==◌, if◌then◌else◌,
  on_found,
}
use ft_irc_server.Server.{Server, client_at, channel_at, sending_queue, broadcast}

-- `target[0] == '#'`; the byte behind the end of a string is 0.
abbrev pub is_channel_target : Str → Bool
is_channel_target [] = false
is_channel_target (c ∷ cs) = c == b'#'

abbrev pub privmsg_wire : ℕ → Str → Str → Server → Str
privmsg_wire k target body s =
    text ":"
    ++ (client_at s k).nickname
    ++ text " PRIVMSG "
    ++ target
    ++ text " :"
    ++ body
    ++ text "\r\n"

unfoldable pub privmsg_channel : ℕ → Str → Str → ℕ → Server → Server
privmsg_channel k target body i s =
    let ch = channel_at s i in
    let me = (client_at s k).fd in
    if not (has_member me ch)
    then reply k 404 target s
    else broadcast ch.member_fds (λ fd. not (fd == me)) (privmsg_wire k target body s) s

unfoldable pub privmsg_handler : ℕ → Message → Server → Server
unfolding privmsg_channel
privmsg_handler k m s =
    if not (client_at s k).registered
    then reply k 451 (text "PRIVMSG") s
    else if is_empty m.params
    then reply k 411 [] s
    else if ltb (length m.params) 2 || is_empty (param m 1)
    then reply k 412 [] s
    else if is_channel_target (param m 0)
    then on_found (last_channel (param m 0) s) (reply k 403 (param m 0) s)
        (λ i. privmsg_channel k (param m 0) (param m 1) i s)
    else on_found (last_client (param m 0) s) (reply k 401 (param m 0) s)
        (λ j. sending_queue j (privmsg_wire k (param m 0) (param m 1) s) s)
