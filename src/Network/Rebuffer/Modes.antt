-- ===== src/Network/Rebuffer/Modes.antt =====
-- `MODE`, and with it every command.
use ft_irc_server.Channel.{
  Channel, is_operator, has_member, set_invite_only, set_change_topic, set_key, remove_key,
  set_limit, remove_limit, add_operator, remove_operator,
}
use ft_irc_server.Commands.Common.{reply, first_client}
use ft_irc_server.Commands.Dispatch.{dispatch_message, dispatch_command}
use ft_irc_server.Commands.Modes.Flags.{invite_only, let_s_change_the_topic, secret_key, announce}
use ft_irc_server.Commands.Modes.Limit.{limited_usage, change_limit, atoi, all_digits}
use ft_irc_server.Commands.Modes.Notify.{notification, notify_members, notify_member, after_mode}
use ft_irc_server.Commands.Modes.Operators.{operators, change_operator}
use ft_irc_server.Commands.Modes.{modes, try_modes}
use ft_irc_server.Int.{is_positive}
use ft_irc_server.Network.Rebuffer.Handlers.{
  pass-rebuffer, nick-rebuffer, user-rebuffer, join-rebuffer, privmsg-rebuffer, topic-rebuffer,
  kick-rebuffer, invite-rebuffer,
}
use ft_irc_server.Network.Rebuffer.{
  rebuffer, rebuffer_laws, rebuffer-first_fd, rebuffer-first_client,
}
use ft_irc_server.Parser.{Message, param, parse}
use ft_irc_server.Prelude.{
  ℕ, ◌≡◌, refl, ap, ◌∙◌, Bool, true, false, not, List, [], ◌∷◌, ◌++◌, Str, text, same, Option, none,
  some, on_found, if◌then◌else◌, ◌&&◌, is_empty, length, ltb, ◌==◌,
}
use ft_irc_server.Server.{Server, client_at, channel_at, update_channel}

-- A conditional past a function.
if_past {ℓ κ} :
    {A : Type ℓ} {B : Type κ} (f : A → B) (c : Bool) {x y : A} {x' y' : B}
    → x' ≡ f x
    → y' ≡ f y
    → (if c then x' else y') ≡ f (if c then x else y)
if_past f true p q = p
if_past f false p q = q

told : {t t' : Server} → t' ≡ t → ◌≡◌ {A = Bool × Server} (true, t') (true, t)
told p = ap (λ t. (true, t)) p

on_found_past {ℓ} :
    {A : Type ℓ} (f : A → A) (o : Option ℕ) {x x' : A} {g g' : ℕ → A}
    → x' ≡ f x
    → ((i : ℕ) → g' i ≡ f (g i))
    → on_found o x' g' ≡ f (on_found o x g)
on_found_past f none p q = p
on_found_past f (some i) p q = q i

module _ (j : ℕ) (b : Str) (k : ℕ) where
  abbrev past : Bool × Server → Bool × Server
  past r = (r.0, rebuffer j b r.1)

  notify_member-rebuffer :
      (m : ℕ) (msg : Str) (s : Server)
      → notify_member m msg (rebuffer j b s) ≡ rebuffer j b (notify_member m msg s)
  notify_member-rebuffer m msg s = simp (rebuffer_laws, rebuffer-first_fd)

  notify_members-rebuffer :
      (members : List ℕ) (msg : Str) (s : Server)
      → notify_members members msg (rebuffer j b s) ≡ rebuffer j b (notify_members members msg s)
  unfolding notify_members
  notify_members-rebuffer [] msg s = refl
  notify_members-rebuffer (m ∷ members) msg s =
      ap (notify_members members msg) (notify_member-rebuffer m msg s)
      ∙ notify_members-rebuffer members msg _

  notification-rebuffer :
      (i : ℕ) (msg : Str) (s : Server)
      → notification i msg (rebuffer j b s) ≡ rebuffer j b (notification i msg s)
  unfolding notification rebuffer
  notification-rebuffer i msg s = notify_members-rebuffer (channel_at s i).member_fds msg s

  announce-rebuffer :
      (i : ℕ) (change : Str) (s : Server)
      → announce k i change (rebuffer j b s) ≡ rebuffer j b (announce k i change s)
  announce-rebuffer i change s = simp (rebuffer_laws, notification-rebuffer)

  announced :
      (i : ℕ) (change : Str) (f : Channel → Channel) (s : Server)
      → announce k i change (update_channel i f (rebuffer j b s))
        ≡ rebuffer j b (announce k i change (update_channel i f s))
  unfolding rebuffer
  announced i change f s = announce-rebuffer i change (update_channel i f s)

  reply-rebuffer :
      (code : ℕ) (cmd : Str) (s : Server)
      → reply k code cmd (rebuffer j b s) ≡ rebuffer j b (reply k code cmd s)
  reply-rebuffer code cmd s = simp rebuffer_laws

module _ (j : ℕ) (b : Str) (k : ℕ) (m : Message) (i : ℕ) (s : Server) where
  invite_only-past : invite_only k m i (rebuffer j b s) ≡ past j b k (invite_only k m i s)
  unfolding invite_only
  invite_only-past =
      if_past (past j b k)
        (not (same (param m 1) (text "+i")) && not (same (param m 1) (text "-i"))) refl
        (if_past (past j b k) (same (param m 1) (text "+i"))
          (told (announced j b k i (param m 1) (set_invite_only true) s))
          (told (announced j b k i (param m 1) (set_invite_only false) s)))

  topic-past :
      let_s_change_the_topic k m i (rebuffer j b s) ≡ past j b k (let_s_change_the_topic k m i s)
  unfolding let_s_change_the_topic
  topic-past =
      if_past (past j b k)
        (not (same (param m 1) (text "+t")) && not (same (param m 1) (text "-t"))) refl
        (if_past (past j b k) (same (param m 1) (text "+t"))
          (told (announced j b k i (param m 1) (set_change_topic true) s))
          (told (announced j b k i (param m 1) (set_change_topic false) s)))

  secret_key-past : secret_key k m i (rebuffer j b s) ≡ past j b k (secret_key k m i s)
  unfolding secret_key
  secret_key-past =
      if_past (past j b k)
        (not (same (param m 1) (text "+k")) && not (same (param m 1) (text "-k"))) refl
        (if_past (past j b k) (ltb (length m.params) 3)
          (told (reply-rebuffer j b k 461 (text "MODE") s))
          (if_past (past j b k) (same (param m 1) (text "+k"))
            (told (announced j b k i (text "+k " ++ param m 2) (set_key (param m 2)) s))
            (told (announced j b k i (text "-k") remove_key s))))

  change_limit-rebuffer : change_limit k m i (rebuffer j b s) ≡ rebuffer j b (change_limit k m i s)
  unfolding change_limit
  change_limit-rebuffer =
      if_past (rebuffer j b) (not (not (is_empty (param m 2)) && all_digits (param m 2)))
        (reply-rebuffer j b k 461 (text "MODE") s)
        (if_past (rebuffer j b) (not (is_positive (atoi (param m 2))))
          (reply-rebuffer j b k 461 (text "MODE") s)
          (announced j b k i (text "+l " ++ param m 2) (set_limit (atoi (param m 2))) s))

  limited_usage-past : limited_usage k m i (rebuffer j b s) ≡ past j b k (limited_usage k m i s)
  unfolding limited_usage
  limited_usage-past =
      if_past (past j b k)
        (not (same (param m 1) (text "+l")) && not (same (param m 1) (text "-l"))) refl
        (if_past (past j b k) (same (param m 1) (text "-l"))
          (told (announced j b k i (text "-l") remove_limit s))
          (if_past (past j b k) (ltb (length m.params) 3)
            (told (reply-rebuffer j b k 461 (text "MODE") s)) (told change_limit-rebuffer)))

  change_operator-rebuffer :
      (target : ℕ)
      → change_operator k m i target (rebuffer j b s)
        ≡ rebuffer j b (change_operator k m i target s)
  unfolding change_operator
  change_operator-rebuffer target =
      unfold rebuffer in
      (if_past (rebuffer j b) (same (param m 1) (text "+o"))
        (if_past (rebuffer j b) (is_operator target (channel_at s i)) refl
          (announced j b k i _ (add_operator target) s))
        (if_past (rebuffer j b) (not (is_operator target (channel_at s i))) refl (
          if_past (rebuffer j b) (length (channel_at s i).operator_fds == 1) (simp rebuffer_laws)
            (announced j b k i _ (remove_operator target) s))))

  operate-rebuffer :
      (t : ℕ)
      → (if not (has_member (client_at (rebuffer j b s) t).fd (channel_at s i))
          then reply k 441 (param m 2 ++ text " " ++ (channel_at s i).name) (rebuffer j b s)
          else change_operator k m i (client_at (rebuffer j b s) t).fd (rebuffer j b s))
        ≡ rebuffer j b (
            if not (has_member (client_at s t).fd (channel_at s i))
            then reply k 441 (param m 2 ++ text " " ++ (channel_at s i).name) s
            else change_operator k m i (client_at s t).fd s)
  operate-rebuffer t = simp (rebuffer_laws, change_operator-rebuffer)

  operators-past : operators k m i (rebuffer j b s) ≡ past j b k (operators k m i s)
  unfolding operators
  operators-past =
      if_past (past j b k)
        (not (same (param m 1) (text "+o")) && not (same (param m 1) (text "-o"))) refl
        (if_past (past j b k) (ltb (length m.params) 3)
          (told (reply-rebuffer j b k 461 (text "MODE") s))
          (told (
            ap
              (λ o. on_found o (reply k 401 (param m 2) (rebuffer j b s)) (λ t.
                if not
                  (has_member (client_at (rebuffer j b s) t).fd (channel_at (rebuffer j b s) i))
                then reply k 441 (param m 2 ++ text " " ++ (channel_at (rebuffer j b s) i).name)
                    (rebuffer j b s)
                else change_operator k m i (client_at (rebuffer j b s) t).fd (rebuffer j b s)))
              (rebuffer-first_client j b (param m 2) s)
            ∙ on_found_past (rebuffer j b) (first_client (param m 2) s)
                (reply-rebuffer j b k 401 (param m 2) s) (unfold rebuffer in operate-rebuffer))))

after_mode-past :
    (j : ℕ) (b : Str) (k : ℕ) (r : Bool × Server) {r' : Bool × Server} (rest : Server → Server)
    → r' ≡ past j b k r
    → ((s : Server) → rest (rebuffer j b s) ≡ rebuffer j b (rest s))
    → after_mode r' rest ≡ rebuffer j b (after_mode r rest)
after_mode-past j b k (true, s) rest p q = ap (λ r. after_mode r rest) p
after_mode-past j b k (false, s) rest p q = ap (λ r. after_mode r rest) p ∙ q s

try_modes-rebuffer :
    (j : ℕ) (b : Str) (k : ℕ) (m : Message) (i : ℕ) (s : Server)
    → try_modes k m i (rebuffer j b s) ≡ rebuffer j b (try_modes k m i s)
unfolding try_modes
try_modes-rebuffer j b k m i s = after_mode-past j b k _ _ (invite_only-past j b k m i s) λ s1.
    after_mode-past j b k _ _ (topic-past j b k m i s1) λ s2.
      after_mode-past j b k _ _ (secret_key-past j b k m i s2) λ s3.
        after_mode-past j b k _ _ (limited_usage-past j b k m i s3) λ s4.
          after_mode-past j b k _ _ (operators-past j b k m i s4)
            λ s5. reply-rebuffer j b k 472 (param m 1) s5

modes-rebuffer :
    (j : ℕ) (b : Str) (k : ℕ) (m : Message) (s : Server)
    → modes k m (rebuffer j b s) ≡ rebuffer j b (modes k m s)
unfolding modes rebuffer
modes-rebuffer j b k m s = simp (rebuffer_laws, try_modes-rebuffer)

dispatch_message-rebuffer :
    (j : ℕ) (b : Str) (command : Str) (k : ℕ) (m : Message) (s : Server)
    → dispatch_message command k m (rebuffer j b s) ≡ rebuffer j b (dispatch_message command k m s)
unfolding dispatch_message
dispatch_message-rebuffer j b command k m s = simp (
  rebuffer_laws, pass-rebuffer, nick-rebuffer, user-rebuffer, join-rebuffer, privmsg-rebuffer,
  topic-rebuffer, kick-rebuffer, invite-rebuffer, modes-rebuffer,
)

-- A command commutes with a change of any client's receive buffer.
pub dispatch_command-rebuffer :
    (j : ℕ) (b : Str) (k : ℕ) (line : Str) (s : Server)
    → dispatch_command k line (rebuffer j b s) ≡ rebuffer j b (dispatch_command k line s)
unfolding dispatch_command
dispatch_command-rebuffer j b k line s = dispatch_message-rebuffer j b _ k (parse line) s
