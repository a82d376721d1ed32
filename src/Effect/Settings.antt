-- ===== src/Effect/Settings.antt =====
-- The effects of `TOPIC` and `INVITE` (srcs/commands/topic.cpp, invite.cpp).
use ft_irc_server.Channel.{has_member, is_operator, set_topic, add_invite}
use ft_irc_server.Commands.Common.{last_channel, last_client}
use ft_irc_server.Commands.Invite.{invite_handler, invite_channel, send_invite}
use ft_irc_server.Commands.Topic.{topic_handler, topic_channel, show_topic, change_topic_to}
use ft_irc_server.Effect.{Effect, Calls, two_params, replies, does, changes, sets_topic, invites}
use ft_irc_server.Parser.{Message, param}
use ft_irc_server.Prelude.{
  ℕ, ◌∙◌, not, ◌&&◌, Str, text, is_empty, length, ltb, ◌==◌, if_cases, on_found_cases, arith,
}
use ft_irc_server.Server.Quiet.{OnlySends, sending_queue-OnlySends, broadcast-OnlySends}
use ft_irc_server.Server.{Server, client_at, channel_at, update_channel}

pub change_topic_to-OnlySends :
    (k : ℕ) (name topic : Str) (i : ℕ) (s : Server)
    → OnlySends (update_channel i (set_topic topic) s) (change_topic_to k name topic i s)
unfolding change_topic_to
change_topic_to-OnlySends k name topic i s =
    sending_queue-OnlySends k _ _ ∙ broadcast-OnlySends _ _ _ (update_channel i (set_topic topic) s)

pub topic_handler-Effect :
    (k : ℕ) (m : Message) (s : Server) → Calls (text "TOPIC") m → Effect k m s (topic_handler k m s)
unfolding topic_handler topic_channel show_topic
topic_handler-Effect k m s called =
    if_cases (Effect k m s) (not (client_at s k).registered) (λ _. replies k m _ s)
      λ registered.
        if_cases (Effect k m s) (is_empty m.params) (λ _. replies k m _ s)
          λ given.
            on_found_cases (Effect k m s) (last_channel (param m 0) s) (λ _. replies k m _ s)
              λ i found.
                if_cases (Effect k m s) (length m.params == 1)
                  (λ _.
                    if_cases (Effect k m s) (is_empty (channel_at s i).topic) (λ _. replies k m _ s)
                      λ _. replies k m _ s)
                  λ more.
                    if_cases (Effect k m s) (not (has_member (client_at s k).fd (channel_at s i)))
                      (λ _. replies k m _ s)
                      λ member.
                        if_cases (Effect k m s)
                          ((channel_at s i).change_topic
                            && not (is_operator (client_at s k).fd (channel_at s i)))
                          (λ _. replies k m _ s)
                          λ allowed.
                            does
                              (changes i (ground arith) (
                                sets_topic (called, two_params m.params given more) found
                                  (ground arith) allowed))
                              (change_topic_to-OnlySends k (param m 0) (param m 1) i s)

pub send_invite-OnlySends :
    (k : ℕ) (m : Message) (j i : ℕ) (s : Server)
    → OnlySends (update_channel i (add_invite (client_at s j).fd) s) (send_invite k m j i s)
unfolding send_invite
send_invite-OnlySends k m j i s = sending_queue-OnlySends k _ _ ∙ sending_queue-OnlySends j _ _

pub invite_handler-Effect :
    (k : ℕ) (m : Message) (s : Server)
    → Calls (text "INVITE") m
    → Effect k m s (invite_handler k m s)
unfolding invite_handler invite_channel
invite_handler-Effect k m s called =
    if_cases (Effect k m s) (not (client_at s k).registered) (λ _. replies k m _ s)
      λ registered.
        if_cases (Effect k m s) (ltb (length m.params) 2) (λ _. replies k m _ s)
          λ given.
            on_found_cases (Effect k m s) (last_client (param m 0) s) (λ _. replies k m _ s)
              λ j guest.
                on_found_cases (Effect k m s) (last_channel (param m 1) s) (λ _. replies k m _ s)
                  λ i found.
                    if_cases (Effect k m s) (not (is_operator (client_at s k).fd (channel_at s i)))
                      (λ _. replies k m _ s)
                      λ operator.
                        if_cases (Effect k m s) (has_member (client_at s j).fd (channel_at s i))
                          (λ _. replies k m _ s)
                          λ absent.
                            does
                              (changes i (ground arith)
                                (invites j (called, given) guest found (ground arith) absent))
                              (send_invite-OnlySends k m j i s)
