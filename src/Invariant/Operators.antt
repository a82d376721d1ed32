-- ===== src/Invariant/Operators.antt =====
-- The guards of `KICK` and `MODE -o` on the last operator.
use ft_irc_server.Channel.Members.{has_fd, remove_fd, remove_fd-absent}
use ft_irc_server.Channel.{Channel, new_channel, remove_member, is_channel_empty}
use ft_irc_server.Commands.Dispatch.{dispatch_command}
use ft_irc_server.Commands.Join.{add_channel}
use ft_irc_server.Commands.Kick.{is_last_operator}
use ft_irc_server.Effect.Refines.{dispatch_command-Effect}
use ft_irc_server.Effect.{
  Effect, ModeChange, ChannelChange, sends, does, passes, names, users, joins, creates, kicks,
  changes, sets_topic, invites, sets_mode, invitations, topics, keyed, unkeyed, limited, unlimited,
  promotes, demotes,
}
use ft_irc_server.Invariant.Channels.{joined, add_joiner-joined, is_empty-add_fd}
use ft_irc_server.Invariant.Names.{drop_member-channels}
use ft_irc_server.Invariant.{WellFormed, ChannelOk}
use ft_irc_server.Parser.{Message, param, parse}
use ft_irc_server.Prelude.{
  ℕ, ◌≡◌, sym, ap, ◌∙◌, subst, true, false, List, [], ◌∷◌, Str, is_empty, arith, ◌==◌, ltb, length,
  inl, inr, Bool-cases, get_or_of_get_elem?, get_or-modify, modify-append_one, All, All-modify,
  All-append_one, All-erase_at, All-get_elem?,
}
use ft_irc_server.Server.{Server, client_at}

-- Somebody operates the channel.
abbrev pub HasOperator : Channel → Type 0
HasOperator ch = is_empty ch.operator_fds ≡ false

-- One of several stays.
is_empty-remove_fd :
    (fd : ℕ) (xs : List ℕ)
    → is_empty xs ≡ false
    → (length xs == 1) ≡ false
    → is_empty (remove_fd fd xs) ≡ false
unfolding remove_fd
is_empty-remove_fd fd [] some_one several = some_one
is_empty-remove_fd fd (x ∷ []) some_one several = ground arith
is_empty-remove_fd fd (x ∷ y ∷ xs) some_one several = ground arith

-- The only one goes.
remove_fd-only :
    (fd : ℕ) (xs : List ℕ)
    → has_fd fd xs ≡ true
    → ltb 1 (length xs) ≡ false
    → is_empty (remove_fd fd xs) ≡ true
unfolding remove_fd has_fd
remove_fd-only fd [] there one = ground arith
remove_fd-only fd (x ∷ []) there one = ground arith
remove_fd-only fd (x ∷ y ∷ xs) there one = ground arith

mode-HasOperator :
    (m : Message) (s : Server) (ch : Channel) {f : Channel → Channel}
    → ModeChange m s ch f
    → HasOperator ch
    → HasOperator (f ch)
mode-HasOperator m s ch (invitations b mode) h = h
mode-HasOperator m s ch (topics b mode) h = h
mode-HasOperator m s ch (keyed mode asks) h = h
mode-HasOperator m s ch (unkeyed mode asks) h = h
mode-HasOperator m s ch (limited mode asks digits p) h = h
mode-HasOperator m s ch (unlimited mode) h = h
mode-HasOperator m s ch (promotes j mode asks target member new) h =
    is_empty-add_fd (client_at s j).fd ch.operator_fds
mode-HasOperator m s ch (demotes j mode asks target member operates spare) h =
    is_empty-remove_fd (client_at s j).fd ch.operator_fds h spare

change-HasOperator :
    (k : ℕ) (m : Message) (s : Server) (i : ℕ) (ch : Channel) {f : Channel → Channel}
    → ChannelChange k m s i ch f
    → HasOperator ch
    → HasOperator (f ch)
change-HasOperator k m s i ch (sets_topic asks found member allowed) h = h
change-HasOperator k m s i ch (invites j asks guest found operator absent) h = h
change-HasOperator k m s i ch (sets_mode asks found operator change) h =
    mode-HasOperator m s ch change h

-- A channel that somebody is left in after a kick has an operator.
kicked-HasOperator :
    (fd : ℕ) (ch : Channel)
    → ChannelOk ch
    → is_last_operator fd ch ≡ false
    → is_channel_empty (remove_member fd ch) ≡ false
    → HasOperator ch
    → HasOperator (remove_member fd ch)
kicked-HasOperator fd ch ok spare left h = elim (Bool-cases (has_fd fd ch.operator_fds)) [
  | inr absent ↦ ap is_empty (remove_fd-absent fd ch.operator_fds absent) ∙ h
  | inl there ↦ elim (Bool-cases (length ch.operator_fds == 1)) [
    | inr several ↦ is_empty-remove_fd fd ch.operator_fds h several
    | inl one ↦
        let alone : ltb 1 (length ch.member_fds) ≡ false = ground arith in
        ground (arith, remove_fd-only fd ch.member_fds (ok.operators_in fd there) alone)
  ]
]

joined-HasOperator :
    (fd : ℕ) (ch : Channel) → ChannelOk ch → HasOperator ch → HasOperator (joined fd ch)
joined-HasOperator fd ch ok h = rw ok.inhabited h

Effect-HasOperator :
    (k : ℕ) (m : Message) (s t : Server)
    → Effect k m s t
    → WellFormed s
    → All HasOperator s.channels
    → All HasOperator t.channels
Effect-HasOperator k m s t (sends h) w all = rw (ap (λ (q : Server). q.channels) h) all
Effect-HasOperator k m s t (does (passes may) h) w all = rw (ap (λ (q : Server). q.channels) h) all
Effect-HasOperator k m s t (does (names may) h) w all = rw (ap (λ (q : Server). q.channels) h) all
Effect-HasOperator k m s t (does (users may) h) w all = rw (ap (λ (q : Server). q.channels) h) all
Effect-HasOperator k m s t (does (joins i may found admits) h) w all =
    let fd = (client_at s k).fd in
    rw (ap (λ (q : Server). q.channels) h, add_joiner-joined fd i s)
      (All-modify HasOperator i (joined fd) s.channels
        (λ ch at.
          joined-HasOperator fd ch (All-get_elem? ChannelOk i s.channels ch w.channels_ok at))
        all)
Effect-HasOperator k m s t (does (creates may absent) h) w all =
    let fd = (client_at s k).fd in
    rw
      (
        ap (λ (q : Server). q.channels) h,
        add_joiner-joined fd (length s.channels) (add_channel (param m 0) s),
        modify-append_one (joined fd) s.channels (new_channel (param m 0)),
      )
      (All-append_one HasOperator s.channels _ all (is_empty-add_fd fd []))
Effect-HasOperator k m s t (does (kicks i j may) h) w all =
    let fd = (client_at s j).fd in
    rw (ap (λ (q : Server). q.channels) h) (
      drop_member-channels fd i s (All HasOperator) (All-erase_at HasOperator i s.channels all)
        λ left.
          All-modify HasOperator i (remove_member fd) s.channels
            (λ ch at.
              kicked-HasOperator fd ch (All-get_elem? ChannelOk i s.channels ch w.channels_ok at)
                (ap (is_last_operator fd) (sym (get_or_of_get_elem? i s.channels ch _ at))
                  ∙ may.spare)
                (ap is_channel_empty (sym (get_or-modify i _ s.channels ch _ at)) ∙ left))
            all)
Effect-HasOperator k m s t (does (changes i {f} registered change) h) w all =
    rw (ap (λ (q : Server). q.channels) h) (
      All-modify HasOperator i f s.channels
        (λ ch at. change-HasOperator k m s i ch (
          subst (λ (c : Channel). ChannelChange k m s i c f)
            (get_or_of_get_elem? i s.channels ch _ at) change))
        all)

-- No command leaves a channel of a well-formed server without an operator, if each has one before.
pub dispatch_command-HasOperator :
    (k : ℕ) (line : Str) (s : Server)
    → WellFormed s
    → All HasOperator s.channels
    → All HasOperator (dispatch_command k line s).channels
dispatch_command-HasOperator k line s =
    Effect-HasOperator k (parse line) s _ (dispatch_command-Effect k line s)
