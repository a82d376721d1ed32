-- ===== src/Commands/Topic.antt =====
-- srcs/commands/topic.cpp
use ft_irc_server.Channel.{has_member, is_operator, set_topic}
use ft_irc_server.Commands.Common.{reply, last_channel}
use ft_irc_server.Parser.{Message, param}
use ft_irc_server.Prelude.{
  ℕ, not, ◌&&◌, ◌++◌, Str, text, is_empty, length, ◌==◌, if◌then◌else◌, on_found,
}
use ft_irc_server.Server.{Server, client_at, channel_at, update_channel, sending_queue, broadcast}

-- `TOPIC` with one parameter.
unfoldable pub show_topic : ℕ → Str → ℕ → Server → Server
show_topic k channel_name i s =
    let ch = channel_at s i in
    if is_empty ch.topic
    then reply k 331 channel_name s
    else sending_queue k
        (text ":ircserv 332 "
          ++ (client_at s k).nickname
          ++ text " "
          ++ channel_name
          ++ text " :"
          ++ ch.topic
          ++ text "\r\n")
        s

-- What the members and the client itself are told.
unfoldable pub announce_topic : ℕ → Str → Str → ℕ → Server → Server
announce_topic k channel_name new_topic i changed =
    let wire_message =
      text ":"
      ++ (client_at changed k).nickname
      ++ text " TOPIC "
      ++ channel_name
      ++ text " :"
      ++ new_topic
      ++ text "\r\n" in
    let me = (client_at changed k).fd in
    sending_queue k wire_message
      (broadcast (channel_at changed i).member_fds (λ fd. not (fd == me)) wire_message changed)

-- The rest of the handler, once the client may set the topic.
unfoldable pub change_topic_to : ℕ → Str → Str → ℕ → Server → Server
unfolding announce_topic
change_topic_to k channel_name new_topic i s =
    announce_topic k channel_name new_topic i (update_channel i (set_topic new_topic) s)

unfoldable pub topic_channel : ℕ → Message → ℕ → Server → Server
unfolding show_topic
topic_channel k m i s =
    let ch = channel_at s i in
    let me = (client_at s k).fd in
    if length m.params == 1
    then show_topic k (param m 0) i s
    else if not (has_member me ch)
    then reply k 442 (param m 0) s
    else if ch.change_topic && not (is_operator me ch)
    then reply k 482 (param m 0) s
    else change_topic_to k (param m 0) (param m 1) i s

unfoldable pub topic_handler : ℕ → Message → Server → Server
unfolding topic_channel
topic_handler k m s =
    if not (client_at s k).registered
    then reply k 451 (text "TOPIC") s
    else if is_empty m.params
    then reply k 461 (text "TOPIC") s
    else on_found (last_channel (param m 0) s) (reply k 403 (param m 0) s)
        (λ i. topic_channel k m i s)
