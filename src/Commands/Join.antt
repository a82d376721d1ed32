-- ===== src/Commands/Join.antt =====
-- srcs/commands/join.cpp
use ft_irc_server.Int.{geb_ℤ, to_int}
use ft_irc_server.Channel.{
  Channel, new_channel, has_member, add_member, is_channel_empty, is_operator, add_operator,
  is_invited, has_key, has_limit,
}
use ft_irc_server.Client.{Client}
use ft_irc_server.Commands.Common.{reply, last_channel}
use ft_irc_server.Parser.{Message, param}
use ft_irc_server.Prelude.{
  ℕ, Bool, true, false, List, [], ◌∷◌, ◌++◌, not, ◌&&◌, ◌||◌, Str, text, same, is_empty, length,
  ltb, ◌==◌, if◌then◌else◌, on_found,
}
use ft_irc_server.Server.{Server, client_at, channel_at, update_channel, sending_queue, broadcast}

-- The loop of `validChannelName`, from the second byte on.
unfoldable pub valid_channel_rest : Str → Bool
valid_channel_rest [] = true
valid_channel_rest (c ∷ cs) =
    if c == b' ' || c == b',' || c == b':' || c == b'\r' || c == b'\n'
    then false
    else valid_channel_rest cs

unfoldable pub valid_channel_name : Str → Bool
unfolding valid_channel_rest
valid_channel_name [] = false
valid_channel_name (c ∷ cs) =
    if ltb (length (c ∷ cs)) 2 || not (c == b'#') then false else valid_channel_rest cs

-- The names list: the loop over the clients for one member, and the loop over the members.
unfoldable pub names_of_member : Channel → ℕ → List Client → Str → Str
names_of_member ch m [] names = names
names_of_member ch m (c ∷ cs) names = names_of_member ch m cs (
    if c.fd == m
    then (names ++ (if is_empty names then [] else text " "))
      ++ (if is_operator m ch then text "@" else [])
      ++ c.nickname
    else names)

unfoldable pub names_list : Channel → List Client → List ℕ → Str → Str
unfolding names_of_member
names_list ch clients [] names = names
names_list ch clients (m ∷ members) names =
    names_list ch clients members (names_of_member ch m clients names)

-- The new member of the channel at `i`, who is an operator if it is the first.
unfoldable pub add_joiner : ℕ → ℕ → Server → Server
add_joiner fd i s =
    let added = update_channel i (add_member fd) s in
    if is_channel_empty (channel_at s i) then update_channel i (add_operator fd) added else added

-- What the members and the new member are told.
unfoldable pub announce_join : ℕ → Str → ℕ → Server → Server
unfolding names_list
announce_join k channel_name i joined =
    let join_message =
      text ":" ++ (client_at joined k).nickname ++ text " JOIN :" ++ channel_name ++ text "\r\n" in
    let told = broadcast (channel_at joined i).member_fds (λ _. true) join_message joined in
    let ch = channel_at told i in
    let names = names_list ch told.clients ch.member_fds [] in
    let named =
      sending_queue k
        (text ":ircserv 353 "
          ++ (client_at told k).nickname
          ++ text " = "
          ++ channel_name
          ++ text " :"
          ++ names
          ++ text "\r\n")
        told in
    sending_queue k
      (text ":ircserv 366 "
        ++ (client_at named k).nickname
        ++ text " "
        ++ channel_name
        ++ text " :End of /NAMES list\r\n")
      named

-- The rest of the handler, once the client is let in.
unfoldable pub enter_channel : ℕ → Str → ℕ → Server → Server
enter_channel k channel_name i s =
    announce_join k channel_name i (add_joiner (client_at s k).fd i s)

-- The checks on the channel at `i`.
unfoldable pub join_channel : ℕ → Message → ℕ → Server → Server
join_channel k m i s =
    let ch = channel_at s i in
    let channel_name = param m 0 in
    if has_member (client_at s k).fd ch
    then reply k 443 channel_name s
    else if ch.invite_only && not (is_invited (client_at s k).fd ch)
    then reply k 473 channel_name s
    else if has_key ch && (ltb (length m.params) 2 || not (same (param m 1) ch.key))
    then reply k 475 channel_name s
    else if has_limit ch && geb_ℤ (to_int (length ch.member_fds)) ch.limit
    then reply k 471 channel_name s
    else enter_channel k channel_name i s

-- `channels.push_back(Channel(channelName))`.
abbrev pub add_channel : Str → Server → Server
add_channel channel_name s = record s { channels = s.channels ++ new_channel channel_name ∷ [] }

-- The channel that is not there yet, and its first member.
unfoldable pub join_new : ℕ → Message → Server → Server
join_new k m s = join_channel k m (length s.channels) (add_channel (param m 0) s)

unfoldable pub join_handler : ℕ → Message → Server → Server
unfolding valid_channel_name
join_handler k m s =
    if not (client_at s k).registered
    then reply k 451 (text "JOIN") s
    else if is_empty m.params
    then reply k 461 (text "JOIN") s
    else if not (valid_channel_name (param m 0))
    then reply k 403 (param m 0) s
    else on_found (last_channel (param m 0) s) (join_new k m s) (λ i. join_channel k m i s)
