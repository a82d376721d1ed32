-- ===== src/Commands/Invite.antt =====
-- srcs/commands/invite.cpp
use ft_irc_server.Channel.{has_member, is_operator, add_invite}
use ft_irc_server.Commands.Common.{reply, last_channel, last_client}
use ft_irc_server.Parser.{Message, param}
use ft_irc_server.Prelude.{ℕ, not, ◌++◌, text, length, ltb, if◌then◌else◌, on_found}
use ft_irc_server.Server.{Server, client_at, channel_at, update_channel, sending_queue}

-- What the guest and the client itself are told.
unfoldable pub announce_invite : ℕ → Message → ℕ → Server → Server
announce_invite k m j invited =
    let told =
      sending_queue j
        (text ":"
          ++ (client_at invited k).nickname
          ++ text " INVITE "
          ++ param m 0
          ++ text " :"
          ++ param m 1
          ++ text "\r\n")
        invited in
    reply k 341 (param m 0 ++ text " " ++ param m 1) told

-- The rest of the handler, once the invitation is allowed.
unfoldable pub send_invite : ℕ → Message → ℕ → ℕ → Server → Server
unfolding announce_invite
send_invite k m j i s = announce_invite k m j (update_channel i (add_invite (client_at s j).fd) s)

unfoldable pub invite_channel : ℕ → Message → ℕ → ℕ → Server → Server
invite_channel k m j i s =
    let ch = channel_at s i in
    if not (is_operator (client_at s k).fd ch)
    then reply k 482 (param m 1) s
    else if has_member (client_at s j).fd ch
    then reply k 443 (param m 0 ++ text " " ++ param m 1) s
    else send_invite k m j i s

unfoldable pub invite_handler : ℕ → Message → Server → Server
unfolding invite_channel
invite_handler k m s =
    if not (client_at s k).registered
    then reply k 451 (text "INVITE") s
    else if ltb (length m.params) 2
    then reply k 461 (text "INVITE") s
    else on_found (last_client (param m 0) s) (reply k 401 (param m 0) s) (λ j.
      on_found (last_channel (param m 1) s) (reply k 403 (param m 1) s)
        (λ i. invite_channel k m j i s))
