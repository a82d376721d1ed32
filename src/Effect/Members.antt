-- ===== src/Effect/Members.antt =====
-- The effects of `JOIN`, `KICK` and `PRIVMSG` (srcs/commands/join.cpp, kick.cpp, privmsg.cpp).
use ft_irc_server.Int.{geb_ℤ, to_int}
use ft_irc_server.Channel.Members.{has_fd}
use ft_irc_server.Channel.{
  has_member, is_operator, is_invited, has_key, has_limit, is_channel_empty, new_channel,
  remove_member,
}
use ft_irc_server.Commands.Common.{last_channel, last_client}
use ft_irc_server.Commands.Join.{
  join_handler, join_new, join_channel, enter_channel, announce_join, add_joiner, add_channel,
  valid_channel_name,
}
use ft_irc_server.Commands.Kick.{
  kick_handler, kick_channel, kick_target, kick_out, drop_member, is_last_operator,
}
use ft_irc_server.Commands.Privmsg.{privmsg_handler, privmsg_channel, is_channel_target}
use ft_irc_server.Effect.{
  Effect, Calls, MayJoin, one_param, Admits, replies, sends, does, joins, creates, kicks,
}
use ft_irc_server.Parser.{Message, param}
use ft_irc_server.Prelude.{
  ℕ, false, text, ◌≡◌, sym, ap, ◌∙◌, not, ◌&&◌, ◌||◌, Str, same, is_empty, length,
  get_or-append_one, ltb, if_cases, Bool-cases, inl, inr, on_found_cases, arith,
}
use ft_irc_server.Server.Quiet.{
  OnlySends, quiet, sending_queue-OnlySends, broadcast-OnlySends, OnlySends-fd,
}
use ft_irc_server.Server.{Server, client_at, channel_at, update_channel, sending_queue}

pub enter_channel-OnlySends :
    (k : ℕ) (name : Str) (i : ℕ) (s : Server)
    → OnlySends (add_joiner (client_at s k).fd i s) (enter_channel k name i s)
unfolding enter_channel announce_join
enter_channel-OnlySends k name i s =
    sending_queue-OnlySends k _ _
    ∙ sending_queue-OnlySends k _ _
    ∙ broadcast-OnlySends _ _ _ (add_joiner (client_at s k).fd i s)

-- The channel lets in whoever passes the checks.
join_channel-Effect :
    (k : ℕ) (m : Message) (i : ℕ) (s0 s : Server)
    → ((message : Str) → Effect k m s0 (sending_queue k message s))
    → (Admits (client_at s k).fd m (channel_at s i)
        → Effect k m s0 (enter_channel k (param m 0) i s))
    → Effect k m s0 (join_channel k m i s)
unfolding join_channel
join_channel-Effect k m i s0 s refused entered =
    if_cases (Effect k m s0) (has_member (client_at s k).fd (channel_at s i)) (λ _. refused _)
      λ new.
        if_cases (Effect k m s0)
          ((channel_at s i).invite_only && not (is_invited (client_at s k).fd (channel_at s i)))
          (λ _. refused _)
          λ invited.
            if_cases (Effect k m s0)
              (has_key (channel_at s i)
                && (ltb (length m.params) 2 || not (same (param m 1) (channel_at s i).key)))
              (λ _. refused _)
              λ key.
                if_cases (Effect k m s0)
                  (has_limit (channel_at s i)
                    && geb_ℤ (to_int (length (channel_at s i).member_fds)) (channel_at s i).limit)
                  (λ _. refused _)
                  λ room.
                    entered
                      (record { is_new = new; invited = invited; knows_key = key; has_room = room })

-- A new channel lets in anyone.
pub join_channel-new :
    (k : ℕ) (m : Message) (i : ℕ) (s : Server) (name : Str)
    → channel_at s i ≡ new_channel name
    → join_channel k m i s ≡ enter_channel k (param m 0) i s
unfolding join_channel has_fd
join_channel-new k m i s name e = rw (e, join_channel)

pub join_handler-Effect :
    (k : ℕ) (m : Message) (s : Server) → Calls (text "JOIN") m → Effect k m s (join_handler k m s)
unfolding join_handler join_new
join_handler-Effect k m s called =
    if_cases (Effect k m s) (not (client_at s k).registered) (λ _. replies k m _ s)
      λ registered.
        if_cases (Effect k m s) (is_empty m.params) (λ _. replies k m _ s)
          λ given.
            if_cases (Effect k m s) (not (valid_channel_name (param m 0))) (λ _. replies k m _ s)
              λ valid.
                on_found_cases (Effect k m s) (last_channel (param m 0) s)
                  (λ absent.
                    rw
                      (join_channel-new k m (length s.channels) (add_channel (param m 0) s)
                        (param m 0) (get_or-append_one s.channels _ _))
                      (does (creates (allowed registered given valid) absent) (
                        enter_channel-OnlySends k (param m 0) (length s.channels)
                          (add_channel (param m 0) s))))
                  (λ i found.
                    join_channel-Effect k m i s s (λ message. replies k m message s)
                      λ admits.
                        does (joins i (allowed registered given valid) found admits)
                          (enter_channel-OnlySends k (param m 0) i s))
  where
    allowed :
        not (client_at s k).registered ≡ false
        → is_empty m.params ≡ false
        → not (valid_channel_name (param m 0)) ≡ false
        → MayJoin k m s
    allowed joins_as given valid = record {
      asks = (called, one_param m.params given);
      registered = ground arith;
      valid = ground arith;
    }

quiet-drop_member :
    (fd i : ℕ) (s : Server) → quiet (drop_member fd i s) ≡ drop_member fd i (quiet s)
unfolding drop_member
quiet-drop_member fd i s =
    elim (Bool-cases (is_channel_empty (channel_at (update_channel i (remove_member fd) s) i))) [
      | inl e ↦ rw (e, drop_member)
      | inr e ↦ rw (e, drop_member)
    ]

drop_member-OnlySends :
    (fd i : ℕ) (s t : Server) → OnlySends s t → OnlySends (drop_member fd i s) (drop_member fd i t)
drop_member-OnlySends fd i s t h =
    quiet-drop_member fd i t ∙ ap (drop_member fd i) h ∙ sym (quiet-drop_member fd i s)

drop_target-OnlySends :
    (i j : ℕ) (s t : Server)
    → OnlySends s t
    → OnlySends (drop_member (client_at s j).fd i s) (drop_member (client_at t j).fd i t)
drop_target-OnlySends i j s t h =
    rw (OnlySends-fd s t j h) (drop_member-OnlySends (client_at s j).fd i s t h)

pub kick_out-OnlySends :
    (k : ℕ) (m : Message) (i j : ℕ) (s : Server)
    → OnlySends (drop_member (client_at s j).fd i s) (kick_out k m i j s)
unfolding kick_out
kick_out-OnlySends k m i j s = drop_target-OnlySends i j s _ (broadcast-OnlySends _ _ _ s)

pub kick_handler-Effect :
    (k : ℕ) (m : Message) (s : Server) → Calls (text "KICK") m → Effect k m s (kick_handler k m s)
unfolding kick_handler kick_channel kick_target
kick_handler-Effect k m s called =
    if_cases (Effect k m s) (not (client_at s k).registered) (λ _. replies k m _ s)
      λ registered.
        if_cases (Effect k m s) (ltb (length m.params) 2) (λ _. replies k m _ s)
          λ given.
            on_found_cases (Effect k m s) (last_channel (param m 0) s) (λ _. replies k m _ s)
              λ i channel.
                if_cases (Effect k m s) (not (is_operator (client_at s k).fd (channel_at s i)))
                  (λ _. replies k m _ s)
                  λ operator.
                    on_found_cases (Effect k m s) (last_client (param m 1) s) (λ _. replies k m _ s)
                      λ j target.
                        if_cases (Effect k m s)
                          (not (has_member (client_at s j).fd (channel_at s i)))
                          (λ _. replies k m _ s)
                          λ member.
                            if_cases (Effect k m s)
                              (is_last_operator (client_at s j).fd (channel_at s i))
                              (λ _. replies k m _ s)
                              λ spare.
                                does
                                  (kicks i j (record {
                                    asks = (called, given);
                                    registered = ground arith;
                                    channel = channel;
                                    target = target;
                                    operator = ground arith;
                                    member = ground arith;
                                    spare = spare;
                                  }))
                                  (kick_out-OnlySends k m i j s)

pub privmsg_handler-Effect :
    (k : ℕ) (m : Message) (s : Server) → Effect k m s (privmsg_handler k m s)
unfolding privmsg_handler privmsg_channel
privmsg_handler-Effect k m s =
    if_cases (Effect k m s) (not (client_at s k).registered) (λ _. replies k m _ s)
      λ _.
        if_cases (Effect k m s) (is_empty m.params) (λ _. replies k m _ s)
          λ _.
            if_cases (Effect k m s) (ltb (length m.params) 2 || is_empty (param m 1))
              (λ _. replies k m _ s)
              λ _.
                if_cases (Effect k m s) (is_channel_target (param m 0))
                  (λ _.
                    on_found_cases (Effect k m s) (last_channel (param m 0) s)
                      (λ _. replies k m _ s)
                      λ i _.
                        if_cases (Effect k m s)
                          (not (has_member (client_at s k).fd (channel_at s i)))
                          (λ _. replies k m _ s) λ _. sends (broadcast-OnlySends _ _ _ s))
                  (λ _.
                    on_found_cases (Effect k m s) (last_client (param m 0) s) (λ _. replies k m _ s)
                      λ j _. sends (sending_queue-OnlySends j _ s))
