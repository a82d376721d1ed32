-- ===== src/Effect/Modes.antt =====
-- The effects of `MODE` (srcs/modes).
use ft_irc_server.Int.{is_positive}
use ft_irc_server.Channel.{Channel, has_member, is_operator}
use ft_irc_server.Commands.Common.{first_channel, first_client}
use ft_irc_server.Commands.Modes.Flags.{invite_only, let_s_change_the_topic, secret_key}
use ft_irc_server.Commands.Modes.Limit.{limited_usage, change_limit, atoi, all_digits}
use ft_irc_server.Commands.Modes.Notify.{notification, notify_members, notify_member, after_mode}
use ft_irc_server.Commands.Modes.Operators.{operators, change_operator}
use ft_irc_server.Commands.Modes.{modes, try_modes}
use ft_irc_server.Effect.{
  Effect, ModeChange, Calls, Asks, Mode, replies, sends, does, changes, sets_mode, invitations,
  topics, keyed, unkeyed, limited, unlimited, promotes, demotes,
}
use ft_irc_server.Parser.{Message, param}
use ft_irc_server.Prelude.{
  ℕ, some, ◌≡◌, refl, ◌∙◌, Bool, true, false, not, ◌&&◌, List, [], ◌∷◌, Str, text, same, is_empty,
  length, ltb, ◌==◌, find_first, if_cases, on_found_cases, arith,
}
use ft_irc_server.Server.Quiet.{OnlySends, sending_queue-OnlySends}
use ft_irc_server.Server.{Server, client_at, channel_at, update_channel}

notify_members-OnlySends :
    (members : List ℕ) (msg : Str) (s : Server) → OnlySends s (notify_members members msg s)
unfolding notify_members
notify_members-OnlySends [] msg s = refl
notify_members-OnlySends (m ∷ members) msg s =
    notify_members-OnlySends members msg (notify_member m msg s)
    ∙ on_found_cases (OnlySends s) (find_first (λ c. c.fd == m) 0 s.clients) (λ _. refl)
        (λ j _. sending_queue-OnlySends j msg s)

pub notification-OnlySends : (i : ℕ) (msg : Str) (s : Server) → OnlySends s (notification i msg s)
unfolding notification
notification-OnlySends i msg s = notify_members-OnlySends (channel_at s i).member_fds msg s

-- The mode is neither of the two.
abbrev pub other_than : Str → Str → Message → Bool
other_than on off m = not (same (param m 1) on) && not (same (param m 1) off)

-- If it is one of the two, and not this, it is that.
switched_off :
    (m : Message) (on off : Str)
    → other_than on off m ≡ false
    → same (param m 1) on ≡ false
    → Mode off m
switched_off m on off known not_on = ground arith

switched_on :
    (m : Message) (on off : Str)
    → other_than on off m ≡ false
    → same (param m 1) off ≡ false
    → Mode on m
switched_on m on off known not_off = ground arith

-- How one of the five functions of `MODE` ends: it passes the server on, or has dealt with it.
data Outcome (k : ℕ) (m : Message) (s : Server) : Bool × Server → Type 0 where
  passed_on : Outcome k m s (false, s)
  dealt_with : {t : Server} → Effect k m s t → Outcome k m s (true, t)

after_mode-Effect :
    (k : ℕ) (m : Message) (s : Server) {r : Bool × Server} (rest : Server → Server)
    → Outcome k m s r
    → Effect k m s (rest s)
    → Effect k m s (after_mode r rest)
after_mode-Effect k m s rest passed_on e = e
after_mode-Effect k m s rest (dealt_with done) e = done

-- The client at `k` is an operator of the channel at `i`.
module _ (k : ℕ) (m : Message) (i : ℕ) (s : Server) (registered : (client_at s k).registered ≡ true)
    (asked : Asks (text "MODE") 2 m) (found : first_channel (param m 0) s ≡ some i)
    (operator : is_operator (client_at s k).fd (channel_at s i) ≡ true) where
  announces :
      {f : Channel → Channel} (msg : Str)
      → ModeChange m s (channel_at s i) f
      → Effect k m s (notification i msg (update_channel i f s))
  announces msg change =
      does (changes i registered (sets_mode asked found operator change))
        (notification-OnlySends i msg _)

  invite_only-Outcome : Outcome k m s (invite_only k m i s)
  unfolding invite_only
  invite_only-Outcome =
      if_cases (Outcome k m s) (other_than (text "+i") (text "-i") m) (λ _. passed_on)
        λ known.
          if_cases (Outcome k m s) (same (param m 1) (text "+i"))
            (λ on. dealt_with (announces _ (invitations true on)))
            (λ not_on. dealt_with (
              announces _
                (invitations false (switched_off m (text "+i") (text "-i") known not_on))))

  topic-Outcome : Outcome k m s (let_s_change_the_topic k m i s)
  unfolding let_s_change_the_topic
  topic-Outcome =
      if_cases (Outcome k m s) (other_than (text "+t") (text "-t") m) (λ _. passed_on)
        λ known.
          if_cases (Outcome k m s) (same (param m 1) (text "+t"))
            (λ on. dealt_with (announces _ (topics true on)))
            (λ not_on.
              dealt_with
                (announces _ (topics false (switched_off m (text "+t") (text "-t") known not_on))))

  secret_key-Outcome : Outcome k m s (secret_key k m i s)
  unfolding secret_key
  secret_key-Outcome =
      if_cases (Outcome k m s) (other_than (text "+k") (text "-k") m) (λ _. passed_on)
        λ known.
          if_cases (Outcome k m s) (ltb (length m.params) 3) (λ _. dealt_with (replies k m _ s))
            λ given.
              if_cases (Outcome k m s) (same (param m 1) (text "+k"))
                (λ on. dealt_with (announces _ (keyed on (asked.0, given))))
                (λ not_on. dealt_with (
                  announces _ (
                    unkeyed (switched_off m (text "+k") (text "-k") known not_on)
                      (asked.0, given))))

  change_limit-Effect :
      Mode (text "+l") m → Asks (text "MODE") 3 m → Effect k m s (change_limit k m i s)
  unfolding change_limit
  change_limit-Effect on given =
      if_cases (Effect k m s) (not (not (is_empty (param m 2)) && all_digits (param m 2)))
        (λ _. replies k m _ s)
        λ digits.
          if_cases (Effect k m s) (not (is_positive (atoi (param m 2)))) (λ _. replies k m _ s)
            λ positive. announces _ (limited on given (ground arith) (ground arith))

  limited_usage-Outcome : Outcome k m s (limited_usage k m i s)
  unfolding limited_usage
  limited_usage-Outcome =
      if_cases (Outcome k m s) (other_than (text "+l") (text "-l") m) (λ _. passed_on)
        λ known.
          if_cases (Outcome k m s) (same (param m 1) (text "-l"))
            (λ off. dealt_with (announces _ (unlimited off)))
            λ not_off.
              if_cases (Outcome k m s) (ltb (length m.params) 3) (λ _. dealt_with (replies k m _ s))
                λ given. dealt_with (
                  change_limit-Effect (switched_on m (text "+l") (text "-l") known not_off)
                    (asked.0, given))

  change_operator-Effect :
      (j : ℕ)
      → other_than (text "+o") (text "-o") m ≡ false
      → Asks (text "MODE") 3 m
      → first_client (param m 2) s ≡ some j
      → has_member (client_at s j).fd (channel_at s i) ≡ true
      → Effect k m s (change_operator k m i (client_at s j).fd s)
  unfolding change_operator
  change_operator-Effect j known given target member =
      if_cases (Effect k m s) (same (param m 1) (text "+o"))
        (λ on.
          if_cases (Effect k m s) (is_operator (client_at s j).fd (channel_at s i))
            (λ _. sends refl) λ new. announces _ (promotes j on given target member new))
        λ not_on.
          if_cases (Effect k m s) (not (is_operator (client_at s j).fd (channel_at s i)))
            (λ _. sends refl)
            λ operates.
              if_cases (Effect k m s) (length (channel_at s i).operator_fds == 1)
                (λ _. replies k m _ s)
                λ spare. announces _ (
                  demotes j (switched_off m (text "+o") (text "-o") known not_on) given target
                    member (ground arith) spare)

  operators-Outcome : Outcome k m s (operators k m i s)
  unfolding operators
  operators-Outcome =
      if_cases (Outcome k m s) (other_than (text "+o") (text "-o") m) (λ _. passed_on)
        λ known.
          if_cases (Outcome k m s) (ltb (length m.params) 3) (λ _. dealt_with (replies k m _ s))
            λ given. dealt_with (
              on_found_cases (Effect k m s) (first_client (param m 2) s) (λ _. replies k m _ s)
                λ j target.
                  if_cases (Effect k m s) (not (has_member (client_at s j).fd (channel_at s i)))
                    (λ _. replies k m _ s)
                    λ member. change_operator-Effect j known (asked.0, given) target (ground arith))

  try_modes-Effect : Effect k m s (try_modes k m i s)
  unfolding try_modes
  try_modes-Effect = after_mode-Effect k m s _ invite_only-Outcome (
      after_mode-Effect k m s _ topic-Outcome (
        after_mode-Effect k m s _ secret_key-Outcome (
          after_mode-Effect k m s _ limited_usage-Outcome
            (after_mode-Effect k m s _ operators-Outcome (replies k m _ s)))))

pub modes-Effect :
    (k : ℕ) (m : Message) (s : Server) → Calls (text "MODE") m → Effect k m s (modes k m s)
unfolding modes
modes-Effect k m s called =
    if_cases (Effect k m s) (not (client_at s k).registered) (λ _. replies k m _ s)
      λ registered.
        if_cases (Effect k m s) (ltb (length m.params) 2) (λ _. replies k m _ s)
          λ given.
            on_found_cases (Effect k m s) (first_channel (param m 0) s) (λ _. replies k m _ s)
              λ i found.
                if_cases (Effect k m s) (not (is_operator (client_at s k).fd (channel_at s i)))
                  (λ _. replies k m _ s)
                  λ operator.
                    try_modes-Effect k m i s (ground arith) (called, given) found (ground arith)
