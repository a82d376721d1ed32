-- ===== src/Effect/Session.antt =====
-- The effects of `PASS`, `NICK` and `USER` (srcs/commands/pass.cpp, nick.cpp, user.cpp).
use ft_irc_server.Client.{
  Client, new_client, set_nickname, set_nickname_is_received, set_registered, set_username,
  set_user_is_recived,
}
use ft_irc_server.Commands.Common.{complete_registration}
use ft_irc_server.Commands.Nick.{
  nick_hundler, tell_nick, welcome_nick, take_nick, check_nick_valid, nick_in_use,
}
use ft_irc_server.Commands.Pass.{pass_hundler}
use ft_irc_server.Commands.User.{user_handler, take_user, welcome_user}
use ft_irc_server.Effect.{
  Effect, Calls, one_param, replies, does, passes, names, users, with_nick, with_user,
}
use ft_irc_server.Parser.{Message, param}
use ft_irc_server.Prelude.{
  ℕ, zero, suc, ◌≡◌, refl, ap, ◌∙◌, Bool, true, false, not, ◌&&◌, List, [], ◌∷◌, Str, text, same,
  is_empty, length, modify, get_or, if_cases, arith, modify-modify, modify_congr, ltb,
}
use ft_irc_server.Server.Quiet.{
  OnlySends, quiet, OnlySends-client_at, sending_queue-OnlySends, OnlySends-update_client,
}
use ft_irc_server.Server.{Server, client_at, update_client}

pub pass_hundler-Effect :
    (k : ℕ) (m : Message) (s : Server) → Calls (text "PASS") m → Effect k m s (pass_hundler k m s)
unfolding pass_hundler
pass_hundler-Effect k m s called =
    if_cases (Effect k m s) (client_at s k).registered (λ _. replies k m _ s)
      λ new.
        if_cases (Effect k m s) (is_empty m.params) (λ _. replies k m _ s)
          λ given.
            if_cases (Effect k m s) (same s.passwd (param m 0))
              (λ right.
                does
                  (passes (record {
                    asks = (called, one_param m.params given);
                    unregistered = new;
                    right_password = right;
                  }))
                  refl)
              (λ _. replies k m _ s)

field-modify :
    {B : Type 0} (k : ℕ) (f : Client → Client) (g : Client → B) (cs : List Client) (d : Client)
    → ((c : Client) → g (f c) ≡ g c)
    → g (get_or (modify k f cs) k d) ≡ g (get_or cs k d)
field-modify k f g [] d h = refl
field-modify zero f g (c ∷ cs) d h = h c
field-modify (suc k) f g (c ∷ cs) d h = field-modify k f g cs d h

-- The client between the new nickname and the test for its registration.
abbrev nick_kept : Str → Client → Client
nick_kept nick c = set_nickname_is_received true (set_nickname nick c)

module _ (k : ℕ) (nick : Str) (s t : Server)
    (told : OnlySends (update_client k (set_nickname nick) s) t) where
  received-OnlySends :
      OnlySends
        (update_client k (nick_kept nick) s)
        (update_client k (set_nickname_is_received true) t)
  received-OnlySends =
      OnlySends-update_client _ t k (set_nickname_is_received true) (λ c. refl) told
      ∙ ap (λ cs. quiet (record s { clients = cs })) (modify-modify k _ _ s.clients)

  received-user_recived :
      (client_at (update_client k (set_nickname_is_received true) t) k).user_recived
      ≡ (client_at s k).user_recived
  received-user_recived =
      ap (λ (c : Client). c.user_recived) (OnlySends-client_at _ _ k received-OnlySends)
      ∙ field-modify k (nick_kept nick) (λ c. c.user_recived) s.clients _ (λ c. refl)

  received-registered :
      (client_at (update_client k (set_nickname_is_received true) t) k).registered
      ≡ (client_at s k).registered
  received-registered =
      ap (λ (c : Client). c.registered) (OnlySends-client_at _ _ k received-OnlySends)
      ∙ field-modify k (nick_kept nick) (λ c. c.registered) s.clients _ (λ c. refl)

  registers :
      ((client_at s k).user_recived && not (client_at s k).registered) ≡ true
      → OnlySends (update_client k (with_nick nick) s) (
          update_client k (set_registered true) (update_client k (set_nickname_is_received true) t))
  registers h =
      OnlySends-update_client _ _ k (set_registered true) (λ c. refl) received-OnlySends
      ∙ ap (λ cs. quiet (record s { clients = cs }))
          (modify-modify k _ _ s.clients
            ∙ modify_congr k _ (with_nick nick) s.clients _ (
                ap (λ b. record (nick_kept nick (client_at s k)) { registered = b })
                  (ground arith)))

  not_registers :
      ((client_at s k).user_recived && not (client_at s k).registered) ≡ false
      → OnlySends
          (update_client k (with_nick nick) s)
          (update_client k (set_nickname_is_received true) t)
  not_registers h =
      received-OnlySends
      ∙ ap (λ cs. quiet (record s { clients = cs }))
          (modify_congr k (nick_kept nick) (with_nick nick) s.clients _
            (ap (λ b. record (nick_kept nick (client_at s k)) { registered = b }) (ground arith)))

  received_flags :
      {b : Bool}
      → ((client_at (update_client k (set_nickname_is_received true) t) k).user_recived
          && not (client_at (update_client k (set_nickname_is_received true) t) k).registered)
        ≡ b
      → ((client_at s k).user_recived && not (client_at s k).registered) ≡ b
  received_flags h = ground (arith, h, received-user_recived, received-registered)

tell_nick-OnlySends : (k : ℕ) (nick : Str) (s : Server) → OnlySends s (tell_nick k nick s)
unfolding tell_nick
tell_nick-OnlySends k nick s =
    if_cases (OnlySends s) (client_at s k).registered (λ _. sending_queue-OnlySends k _ s)
      (λ _. refl)

pub take_nick-OnlySends :
    (k : ℕ) (nick : Str) (s : Server)
    → OnlySends (update_client k (with_nick nick) s) (take_nick k nick s)
unfolding take_nick welcome_nick complete_registration
take_nick-OnlySends k nick s =
    let told = tell_nick-OnlySends k nick (update_client k (set_nickname nick) s) in
    if_cases (OnlySends (update_client k (with_nick nick) s)) _
      (λ h.
        sending_queue-OnlySends k _ _
        ∙ registers k nick s _ told (received_flags k nick s _ told h))
      (λ h. not_registers k nick s _ told (received_flags k nick s _ told h))

pub nick_hundler-Effect :
    (k : ℕ) (m : Message) (s : Server) → Calls (text "NICK") m → Effect k m s (nick_hundler k m s)
unfolding nick_hundler
nick_hundler-Effect k m s called =
    if_cases (Effect k m s) (not (client_at s k).pass_recived) (λ _. replies k m _ s)
      λ passed.
        if_cases (Effect k m s) (is_empty m.params) (λ _. replies k m _ s)
          λ given.
            if_cases (Effect k m s) (not (check_nick_valid (param m 0))) (λ _. replies k m _ s)
              λ valid.
                if_cases (Effect k m s) (nick_in_use (param m 0) (client_at s k).fd s.clients)
                  (λ _. replies k m _ s)
                  λ free.
                    does
                      (names (record {
                        asks = (called, one_param m.params given);
                        passed = ground arith;
                        valid = ground arith;
                        free = free;
                      }))
                      (take_nick-OnlySends k (param m 0) s)

module _ (k : ℕ) (username : Str) (s : Server) where
  abbrev user_kept : Client → Client
  user_kept c = set_user_is_recived true (set_username username c)

  abbrev user_received : Server
  user_received =
      update_client k (set_user_is_recived true) (update_client k (set_username username) s)

  received-nickname_received :
      (client_at user_received k).nickname_received ≡ (client_at s k).nickname_received
  received-nickname_received =
      ap (λ cs. (get_or cs k (new_client 0)).nickname_received) (modify-modify k _ _ s.clients)
      ∙ field-modify k user_kept (λ c. c.nickname_received) s.clients _ (λ c. refl)

  pub take_user-OnlySends :
      (client_at s k).registered ≡ false
      → OnlySends (update_client k (with_user username) s) (take_user k username s)
  unfolding take_user welcome_user complete_registration
  take_user-OnlySends new =
      if_cases (OnlySends (update_client k (with_user username) s))
        (client_at user_received k).nickname_received
        (λ h.
          sending_queue-OnlySends k _ _
          ∙ ap (λ cs. quiet (record s { clients = cs }))
              (ap (modify k (set_registered true)) (modify-modify k _ _ s.clients)
                ∙ modify-modify k _ _ s.clients
                ∙ modify_congr k _ (with_user username) s.clients _ (
                    ap (λ b. record (user_kept (client_at s k)) { registered = b })
                      (ground (arith, received-nickname_received)))))
        (λ h.
          ap (λ cs. quiet (record s { clients = cs }))
            (modify-modify k _ _ s.clients
              ∙ modify_congr k user_kept (with_user username) s.clients _ (
                  ap (λ b. record (user_kept (client_at s k)) { registered = b })
                    (ground (arith, received-nickname_received)))))

pub user_handler-Effect :
    (k : ℕ) (m : Message) (s : Server) → Calls (text "USER") m → Effect k m s (user_handler k m s)
unfolding user_handler
user_handler-Effect k m s called =
    if_cases (Effect k m s) (client_at s k).registered (λ _. replies k m _ s)
      λ new.
        if_cases (Effect k m s) (not (client_at s k).pass_recived) (λ _. replies k m _ s)
          λ passed.
            if_cases (Effect k m s) (ltb (length m.params) 4) (λ _. replies k m _ s)
              λ given.
                does
                  (users
                    (record { asks = (called, given); unregistered = new; passed = ground arith }))
                  (take_user-OnlySends k (param m 0) s new)
