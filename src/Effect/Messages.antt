-- ===== src/Effect/Messages.antt =====
-- From the line of a `PRIVMSG` to the send buffers of the members.
use ft_irc_server.Channel.Members.{Distinct}
use ft_irc_server.Channel.{has_member}
use ft_irc_server.Commands.Common.{last_channel, is_named}
use ft_irc_server.Commands.Dispatch.{dispatch_command, dispatch_message, toupper}
use ft_irc_server.Commands.Privmsg.{
  privmsg_handler, privmsg_channel, privmsg_wire, is_channel_target,
}
use ft_irc_server.Invariant.{WellFormed, ChannelOk}
use ft_irc_server.Parser.RoundTrip.{is_middle, no_blanks, print_line, parse-print_line}
use ft_irc_server.Parser.{Message}
use ft_irc_server.Prelude.{
  ℕ, ◌<◌, ◌≡◌, refl, ap, ◌∙◌, true, false, not, ◌&&◌, [], ◌∷◌, ◌++◌, some, Str, text, same, map,
  ◌==◌, if◌then◌else◌, is_empty, length, find_last-some, All-get_elem?, get_or_of_get_elem?,
}
use ft_irc_server.Server.Delivery.{send_buffer_at, broadcast-buffer}
use ft_irc_server.Server.{Server, client_at, channel_at}

-- The members of a channel that a search finds stand there once.
found-Distinct :
    (name : Str) (i : ℕ) (s : Server)
    → WellFormed s
    → last_channel name s ≡ some i
    → Distinct (channel_at s i).member_fds
found-Distinct name i s w found =
    let (ch, at, named) = find_last-some (is_named name) s.channels i found in
    rw (get_or_of_get_elem? i s.channels ch _ at)
      (All-get_elem? ChannelOk i s.channels ch w.channels_ok at).members_once

privmsg_channel-buffer :
    (k i j : ℕ) (name body : Str) (s : Server)
    → Distinct (channel_at s i).member_fds
    → j < length s.clients
    → has_member (client_at s k).fd (channel_at s i) ≡ true
    → send_buffer_at (privmsg_channel k name body i s) j
      ≡ send_buffer_at s j
        ++ (if has_member (client_at s j).fd (channel_at s i)
              && not ((client_at s j).fd == (client_at s k).fd)
            then privmsg_wire k name body s
            else [])
unfolding privmsg_channel
privmsg_channel-buffer k i j name body s once here member = rw member (
    broadcast-buffer (channel_at s i).member_fds j (λ fd. not (fd == (client_at s k).fd))
      (privmsg_wire k name body s) s once here (unfold text in refl))

command-is_middle : is_middle (text "PRIVMSG") ≡ true
unfolding text no_blanks
command-is_middle = refl

privmsg-upper : map toupper (text "PRIVMSG") ≡ text "PRIVMSG"
unfolding text
privmsg-upper = refl

-- The checks of the handler, one after the other.
privmsg_handler-channel :
    (k i : ℕ) (prefix cmd name body : Str) (s : Server)
    → (client_at s k).registered ≡ true
    → is_channel_target name ≡ true
    → is_empty body ≡ false
    → last_channel name s ≡ some i
    → privmsg_handler k (record { prefix = prefix; cmd = cmd; params = name ∷ body ∷ [] }) s
      ≡ privmsg_channel k name body i s
unfolding privmsg_handler
privmsg_handler-channel k i prefix cmd name body s registered channel full found =
    rw (registered, full, channel, found) refl

privmsg-dispatch :
    (k : ℕ) (m : Message) (s : Server)
    → dispatch_message (text "PRIVMSG") k m s ≡ privmsg_handler k m s
unfolding dispatch_message text same
privmsg-dispatch k m s = refl

-- The line `PRIVMSG name :body` of a registered client of a well-formed server, for a channel of
-- which it is a member and a body that is not empty, appends the message once to the send buffer of
-- every other member, and nothing to that of anybody else.
pub privmsg-delivers :
    (k i j : ℕ) (name body : Str) (s : Server)
    → WellFormed s
    → (client_at s k).registered ≡ true
    → is_middle name ≡ true
    → is_channel_target name ≡ true
    → is_empty body ≡ false
    → last_channel name s ≡ some i
    → has_member (client_at s k).fd (channel_at s i) ≡ true
    → j < length s.clients
    → send_buffer_at (dispatch_command k (print_line (text "PRIVMSG") (name ∷ []) body) s) j
      ≡ send_buffer_at s j
        ++ (if has_member (client_at s j).fd (channel_at s i)
              && not ((client_at s j).fd == (client_at s k).fd)
            then privmsg_wire k name body s
            else [])
unfolding dispatch_command
privmsg-delivers k i j name body s w registered middle channel full found member here =
    ap (λ (m : Message). send_buffer_at (dispatch_message (map toupper m.cmd) k m s) j)
      (parse-print_line (text "PRIVMSG") (name ∷ []) body command-is_middle (middle, tt))
    ∙ ap (λ t. send_buffer_at t j) (handled)
    ∙ privmsg_channel-buffer k i j name body s (found-Distinct name i s w found) here member
  where
    sent : Message
    sent = record { prefix = []; cmd = text "PRIVMSG"; params = name ∷ body ∷ [] }

    handled : dispatch_message (map toupper sent.cmd) k sent s ≡ privmsg_channel k name body i s
    handled =
        ap (λ c. dispatch_message c k sent s) privmsg-upper
        ∙ privmsg-dispatch k sent s
        ∙ privmsg_handler-channel k i [] (text "PRIVMSG") name body s registered channel full found
