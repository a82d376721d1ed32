-- ===== src/Commands/Kick.antt =====
-- srcs/commands/kick.cpp
use ft_irc_server.Channel.{Channel, has_member, is_operator, remove_member, is_channel_empty}
use ft_irc_server.Commands.Common.{reply, last_channel, last_client}
use ft_irc_server.Parser.{Message, param}
use ft_irc_server.Prelude.{
  ℕ, Bool, true, not, ◌&&◌, ◌++◌, text, length, ltb, ◌==◌, if◌then◌else◌, on_found, erase_at,
}
use ft_irc_server.Server.{Server, client_at, channel_at, update_channel, sending_queue, broadcast}

-- The test that keeps the last operator in a channel that has other members.
abbrev pub is_last_operator : ℕ → Channel → Bool
is_last_operator fd ch =
    is_operator fd ch && length ch.operator_fds == 1 && ltb 1 (length ch.member_fds)

-- `channel->removeMember(...)`, and `channels.erase(...)` if nobody is left.
unfoldable pub drop_member : ℕ → ℕ → Server → Server
drop_member fd i s =
    let removed = update_channel i (remove_member fd) s in
    if is_channel_empty (channel_at removed i)
    then record removed { channels = erase_at i removed.channels }
    else removed

unfoldable pub kick_out : ℕ → Message → ℕ → ℕ → Server → Server
kick_out k m i j s =
    let reason = if ltb 2 (length m.params) then param m 2 else (client_at s k).nickname in
    let wire_message =
      text ":"
      ++ (client_at s k).nickname
      ++ text " KICK "
      ++ param m 0
      ++ text " "
      ++ param m 1
      ++ text " :"
      ++ reason
      ++ text "\r\n" in
    let told = broadcast (channel_at s i).member_fds (λ _. true) wire_message s in
    drop_member (client_at told j).fd i told

-- The checks on the target, the client at `j`.
unfoldable pub kick_target : ℕ → Message → ℕ → ℕ → Server → Server
kick_target k m i j s =
    let ch = channel_at s i in
    let target = (client_at s j).fd in
    if not (has_member target ch)
    then reply k 441 (param m 1 ++ text " " ++ param m 0) s
    else if is_last_operator target ch
    then sending_queue k
        (text ":ircserv NOTICE "
          ++ (client_at s k).nickname
          ++ text " :You cannot kick the last channel operator\r\n")
        s
    else kick_out k m i j s

unfoldable pub kick_channel : ℕ → Message → ℕ → Server → Server
unfolding kick_target
kick_channel k m i s =
    if not (is_operator (client_at s k).fd (channel_at s i))
    then reply k 482 (param m 0) s
    else on_found (last_client (param m 1) s) (reply k 401 (param m 1) s)
        (λ j. kick_target k m i j s)

unfoldable pub kick_handler : ℕ → Message → Server → Server
unfolding kick_channel
kick_handler k m s =
    if not (client_at s k).registered
    then reply k 451 (text "KICK") s
    else if ltb (length m.params) 2
    then reply k 461 (text "KICK") s
    else on_found (last_channel (param m 0) s) (reply k 403 (param m 0) s)
        (λ i. kick_channel k m i s)
