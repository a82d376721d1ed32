-- ===== src/Effect/Honours/Changes.antt =====
-- The changes of a channel by `TOPIC`, `INVITE` and `MODE` that a message is granted.
use ft_irc_server.Channel.{Channel, is_operator}
use ft_irc_server.Commands.Dispatch.{dispatch_message, toupper}
use ft_irc_server.Commands.Common.{first_channel}
use ft_irc_server.Commands.Invite.{invite_handler, invite_channel}
use ft_irc_server.Commands.Modes.{modes, try_modes}
use ft_irc_server.Commands.Topic.{topic_handler, topic_channel}
use ft_irc_server.Effect.Honours.Dispatch.{
  dispatch_called, dispatch_topic, dispatch_invite, dispatch_mode,
}
use ft_irc_server.Effect.Honours.Modes.{try_modes-honoured}
use ft_irc_server.Effect.Settings.{change_topic_to-OnlySends, send_invite-OnlySends}
use ft_irc_server.Effect.{ChannelChange, Asks, sets_topic, invites, sets_mode}
use ft_irc_server.Parser.{Message, param}
use ft_irc_server.Prelude.{
  ℕ, ◌≡◌, refl, true, false, some, List, [], ◌∷◌, text, map, is_empty, length, ltb, ◌==◌, arith,
}
use ft_irc_server.Server.Quiet.{OnlySends}
use ft_irc_server.Server.{Server, client_at, channel_at, update_channel}

two_given : {A : Type 0} (xs : List A) → ltb (length xs) 2 ≡ false → is_empty xs ≡ false
two_given [] h = ground arith
two_given (x ∷ xs) h = refl

not_one : {A : Type 0} (xs : List A) → ltb (length xs) 2 ≡ false → (length xs == 1) ≡ false
not_one xs h = ground arith

modes-granted :
    (k : ℕ) (m : Message) (i : ℕ) (s : Server)
    → (client_at s k).registered ≡ true
    → Asks (text "MODE") 2 m
    → first_channel (param m 0) s ≡ some i
    → is_operator (client_at s k).fd (channel_at s i) ≡ true
    → modes k m s ≡ try_modes k m i s
unfolding modes
modes-granted k m i s registered asks found operator = rw (registered, asks.1, found, operator) refl

pub changes-honoured :
    (k : ℕ) (m : Message) (i : ℕ) (s : Server) {f : Channel → Channel}
    → (client_at s k).registered ≡ true
    → ChannelChange k m s i (channel_at s i) f
    → OnlySends (update_channel i f s) (dispatch_message (map toupper m.cmd) k m s)
unfolding topic_handler topic_channel invite_handler invite_channel
changes-honoured k m i s registered (sets_topic asks found member allowed) =
    rw
      (
        dispatch_called (text "TOPIC") k m s asks.0,
        dispatch_topic k m s,
        registered,
        two_given m.params asks.1,
        found,
        not_one m.params asks.1,
        member,
        allowed,
      )
      (change_topic_to-OnlySends k (param m 0) (param m 1) i s)
changes-honoured k m i s registered (invites j asks guest found operator absent) =
    rw
      (
        dispatch_called (text "INVITE") k m s asks.0,
        dispatch_invite k m s,
        registered,
        asks.1,
        guest,
        found,
        operator,
        absent,
      )
      (send_invite-OnlySends k m j i s)
changes-honoured k m i s registered (sets_mode asks found operator change) =
    rw
      (
        dispatch_called (text "MODE") k m s asks.0,
        dispatch_mode k m s,
        modes-granted k m i s registered asks found operator,
      )
      (try_modes-honoured k m i s change)
