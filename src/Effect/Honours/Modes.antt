-- ===== src/Effect/Honours/Modes.antt =====
-- The changes of a channel by the five kinds of `MODE` that a message is granted (srcs/modes).
use ft_irc_server.Channel.{
  Channel, is_operator, has_member, set_invite_only, set_change_topic, set_key, remove_key,
  set_limit, remove_limit, add_operator, remove_operator,
}
use ft_irc_server.Int.{is_positive, to_int}
use ft_irc_server.Commands.Common.{first_client}
use ft_irc_server.Commands.Modes.Flags.{invite_only, let_s_change_the_topic, secret_key}
use ft_irc_server.Commands.Modes.Limit.{limited_usage, change_limit, all_digits, atoi, digits_value}
use ft_irc_server.Commands.Modes.Operators.{operators, change_operator}
use ft_irc_server.Commands.Modes.Notify.{after_mode}
use ft_irc_server.Commands.Modes.{try_modes}
use ft_irc_server.Effect.Modes.{other_than, notification-OnlySends}
use ft_irc_server.Effect.{
  ModeChange, Asks, Mode, invitations, topics, keyed, unkeyed, limited, unlimited, promotes,
  demotes,
}
use ft_irc_server.Parser.{Message, param}
use ft_irc_server.Prelude.{
  ℕ, ◌≡◌, refl, ap, ◌∙◌, Bool, not, ◌&&◌, if◌then◌else◌, true, false, some, [], ◌∷◌, Str, text,
  same, same_iff, is_empty, length, ◌==◌,
}
use ft_irc_server.Server.Quiet.{OnlySends}
use ft_irc_server.Server.{Server, client_at, channel_at, update_channel}

parameter_text : (mode : Str) (m : Message) → Mode mode m → param m 1 ≡ mode
parameter_text mode m h = (same_iff (param m 1) mode).0 h

all_digits-given : (s : Str) → is_positive (atoi s) ≡ true → is_empty s ≡ false
unfolding atoi digits_value to_int
all_digits-given [] h = cc h
all_digits-given (c ∷ cs) h = refl

-- The function has dealt with the mode, and leads to `u`.
abbrev Deals : Server → Bool × Server → Type 0
Deals u (b, t) = (b ≡ true) × OnlySends u t

after_mode-Deals :
    (u : Server) (r : Bool × Server) (rest : Server → Server)
    → Deals u r
    → OnlySends u (after_mode r rest)
after_mode-Deals u (true, t) rest (_, h) = h
after_mode-Deals u (false, t) rest (e, h) = cc e

after_mode-skips :
    (u s : Server) (r : Bool × Server) (rest : Server → Server)
    → r ≡ (false, s)
    → OnlySends u (rest s)
    → OnlySends u (after_mode r rest)
after_mode-skips u s r rest e h = rw e h

-- The mode of the message is none of the two.
none_of_the_two :
    (mode on off : Str) (m : Message)
    → Mode mode m
    → (not (same mode on) && not (same mode off)) ≡ true
    → other_than on off m ≡ true
none_of_the_two mode on off m h other =
    ap (λ x. not (same x on) && not (same x off)) (parameter_text mode m h) ∙ other

module _ (k : ℕ) (m : Message) (i : ℕ) (s : Server) where
  invite_only-skips : other_than (text "+i") (text "-i") m ≡ true → invite_only k m i s ≡ (false, s)
  unfolding invite_only
  invite_only-skips h = rw h refl

  topic-skips :
      other_than (text "+t") (text "-t") m ≡ true → let_s_change_the_topic k m i s ≡ (false, s)
  unfolding let_s_change_the_topic
  topic-skips h = rw h refl

  key-skips : other_than (text "+k") (text "-k") m ≡ true → secret_key k m i s ≡ (false, s)
  unfolding secret_key
  key-skips h = rw h refl

  limit-skips : other_than (text "+l") (text "-l") m ≡ true → limited_usage k m i s ≡ (false, s)
  unfolding limited_usage
  limit-skips h = rw h refl

  invite_only-Deals :
      (b : Bool)
      → Mode (if b then text "+i" else text "-i") m
      → Deals (update_channel i (set_invite_only b) s) (invite_only k m i s)
  unfolding invite_only text same
  invite_only-Deals true mode =
      rw (parameter_text (text "+i") m mode) (refl, notification-OnlySends i _ _)
  invite_only-Deals false mode =
      rw (parameter_text (text "-i") m mode) (refl, notification-OnlySends i _ _)

  topic-Deals :
      (b : Bool)
      → Mode (if b then text "+t" else text "-t") m
      → Deals (update_channel i (set_change_topic b) s) (let_s_change_the_topic k m i s)
  unfolding let_s_change_the_topic text same
  topic-Deals true mode =
      rw (parameter_text (text "+t") m mode) (refl, notification-OnlySends i _ _)
  topic-Deals false mode =
      rw (parameter_text (text "-t") m mode) (refl, notification-OnlySends i _ _)

  keyed-Deals :
      Mode (text "+k") m
      → Asks (text "MODE") 3 m
      → Deals (update_channel i (set_key (param m 2)) s) (secret_key k m i s)
  unfolding secret_key text same
  keyed-Deals mode asks =
      rw (parameter_text (text "+k") m mode, asks.1) (refl, notification-OnlySends i _ _)

  unkeyed-Deals :
      Mode (text "-k") m
      → Asks (text "MODE") 3 m
      → Deals (update_channel i remove_key s) (secret_key k m i s)
  unfolding secret_key text same
  unkeyed-Deals mode asks =
      rw (parameter_text (text "-k") m mode, asks.1) (refl, notification-OnlySends i _ _)

  change_limit-honoured :
      all_digits (param m 2) ≡ true
      → is_positive (atoi (param m 2)) ≡ true
      → OnlySends (update_channel i (set_limit (atoi (param m 2))) s) (change_limit k m i s)
  unfolding change_limit
  change_limit-honoured digits positive =
      rw (all_digits-given (param m 2) positive, digits, positive) (notification-OnlySends i _ _)

  limited-Deals :
      Mode (text "+l") m
      → Asks (text "MODE") 3 m
      → all_digits (param m 2) ≡ true
      → is_positive (atoi (param m 2)) ≡ true
      → Deals (update_channel i (set_limit (atoi (param m 2))) s) (limited_usage k m i s)
  unfolding limited_usage text same
  limited-Deals mode asks digits positive =
      rw (parameter_text (text "+l") m mode, asks.1) (refl, change_limit-honoured digits positive)

  unlimited-Deals :
      Mode (text "-l") m → Deals (update_channel i remove_limit s) (limited_usage k m i s)
  unfolding limited_usage text same
  unlimited-Deals mode = rw (parameter_text (text "-l") m mode) (refl, notification-OnlySends i _ _)

  module _ (j : ℕ) (asks : Asks (text "MODE") 3 m) (target : first_client (param m 2) s ≡ some j)
      (member : has_member (client_at s j).fd (channel_at s i) ≡ true) where
    promotes-Deals :
        Mode (text "+o") m
        → is_operator (client_at s j).fd (channel_at s i) ≡ false
        → Deals (update_channel i (add_operator (client_at s j).fd) s) (operators k m i s)
    unfolding operators change_operator text same
    promotes-Deals mode new =
        rw (parameter_text (text "+o") m mode, asks.1, target, member, new)
          (refl, notification-OnlySends i _ _)

    demotes-Deals :
        Mode (text "-o") m
        → is_operator (client_at s j).fd (channel_at s i) ≡ true
        → (length (channel_at s i).operator_fds == 1) ≡ false
        → Deals (update_channel i (remove_operator (client_at s j).fd) s) (operators k m i s)
    unfolding operators change_operator text same
    demotes-Deals mode operates spare =
        rw (parameter_text (text "-o") m mode, asks.1, target, member, operates, spare)
          (refl, notification-OnlySends i _ _)

  pub try_modes-honoured :
      {f : Channel → Channel}
      → ModeChange m s (channel_at s i) f
      → OnlySends (update_channel i f s) (try_modes k m i s)
  unfolding try_modes text same
  try_modes-honoured (invitations b mode) = after_mode-Deals _ _ _ (invite_only-Deals b mode)
  try_modes-honoured (topics true mode) =
      after_mode-skips _ s _ _
        (invite_only-skips (none_of_the_two (text "+t") (text "+i") (text "-i") m mode refl))
        (after_mode-Deals _ _ _ (topic-Deals true mode))
  try_modes-honoured (topics false mode) =
      after_mode-skips _ s _ _
        (invite_only-skips (none_of_the_two (text "-t") (text "+i") (text "-i") m mode refl))
        (after_mode-Deals _ _ _ (topic-Deals false mode))
  try_modes-honoured (keyed mode asks) =
      after_mode-skips _ s _ _
        (invite_only-skips (none_of_the_two (text "+k") (text "+i") (text "-i") m mode refl))
        (after_mode-skips _ s _ _
          (topic-skips (none_of_the_two (text "+k") (text "+t") (text "-t") m mode refl))
          (after_mode-Deals _ _ _ (keyed-Deals mode asks)))
  try_modes-honoured (unkeyed mode asks) =
      after_mode-skips _ s _ _
        (invite_only-skips (none_of_the_two (text "-k") (text "+i") (text "-i") m mode refl))
        (after_mode-skips _ s _ _
          (topic-skips (none_of_the_two (text "-k") (text "+t") (text "-t") m mode refl))
          (after_mode-Deals _ _ _ (unkeyed-Deals mode asks)))
  try_modes-honoured (limited mode asks digits positive) =
      after_mode-skips _ s _ _
        (invite_only-skips (none_of_the_two (text "+l") (text "+i") (text "-i") m mode refl))
        (after_mode-skips _ s _ _
          (topic-skips (none_of_the_two (text "+l") (text "+t") (text "-t") m mode refl))
          (after_mode-skips _ s _ _
            (key-skips (none_of_the_two (text "+l") (text "+k") (text "-k") m mode refl))
            (after_mode-Deals _ _ _ (limited-Deals mode asks digits positive))))
  try_modes-honoured (unlimited mode) =
      after_mode-skips _ s _ _
        (invite_only-skips (none_of_the_two (text "-l") (text "+i") (text "-i") m mode refl))
        (after_mode-skips _ s _ _
          (topic-skips (none_of_the_two (text "-l") (text "+t") (text "-t") m mode refl))
          (after_mode-skips _ s _ _
            (key-skips (none_of_the_two (text "-l") (text "+k") (text "-k") m mode refl))
            (after_mode-Deals _ _ _ (unlimited-Deals mode))))
  try_modes-honoured (promotes j mode asks target member new) =
      after_mode-skips _ s _ _
        (invite_only-skips (none_of_the_two (text "+o") (text "+i") (text "-i") m mode refl))
        (after_mode-skips _ s _ _
          (topic-skips (none_of_the_two (text "+o") (text "+t") (text "-t") m mode refl))
          (after_mode-skips _ s _ _
            (key-skips (none_of_the_two (text "+o") (text "+k") (text "-k") m mode refl))
            (after_mode-skips _ s _ _
              (limit-skips (none_of_the_two (text "+o") (text "+l") (text "-l") m mode refl))
              (after_mode-Deals _ _ _ (promotes-Deals j asks target member mode new)))))
  try_modes-honoured (demotes j mode asks target member operates spare) =
      after_mode-skips _ s _ _
        (invite_only-skips (none_of_the_two (text "-o") (text "+i") (text "-i") m mode refl))
        (after_mode-skips _ s _ _
          (topic-skips (none_of_the_two (text "-o") (text "+t") (text "-t") m mode refl))
          (after_mode-skips _ s _ _
            (key-skips (none_of_the_two (text "-o") (text "+k") (text "-k") m mode refl))
            (after_mode-skips _ s _ _
              (limit-skips (none_of_the_two (text "-o") (text "+l") (text "-l") m mode refl))
              (after_mode-Deals _ _ _ (demotes-Deals j asks target member mode operates spare)))))
