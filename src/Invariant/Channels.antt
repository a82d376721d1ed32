-- ===== src/Invariant/Channels.antt =====
-- The shape of a channel and the names of the channels, along what the commands do to them.
use ft_irc_server.Channel.Members.{
  has_fd, add_fd, remove_fd, has_fd-add, has_fd-remove, has_fd-remove_self, has_fd-remove_ne,
  add-Distinct, remove-Distinct,
}
use ft_irc_server.Channel.{
  Channel, new_channel, add_member, add_operator, remove_member, is_channel_empty,
}
use ft_irc_server.Commands.Join.{add_joiner, valid_channel_name}
use ft_irc_server.Effect.{
  ModeChange, ChannelChange, invitations, topics, keyed, unkeyed, limited, unlimited, promotes,
  demotes, sets_topic, invites, sets_mode,
}
use ft_irc_server.Invariant.{ChannelOk}
use ft_irc_server.Parser.{Message}
use ft_irc_server.Prelude.{
  ℕ, ◌≡◌, refl, ap, ◌∙◌, true, false, List, [], ◌∷◌, ◌++◌, Str, is_empty, arith, ◌==◌,
  if◌then◌else◌, Bool-cases, inl, inr, modify-modify, modify_congr,
}
use ft_irc_server.Server.{Server, client_at, channel_at, update_channel}

-- The channel once this client has joined it.
abbrev pub joined : ℕ → Channel → Channel
joined fd ch = if is_channel_empty ch then add_operator fd (add_member fd ch) else add_member fd ch

pub add_joiner-joined : (fd i : ℕ) (s : Server) → add_joiner fd i s ≡ update_channel i (joined fd) s
unfolding add_joiner
add_joiner-joined fd i s = elim (Bool-cases (is_channel_empty (channel_at s i))) [
  | inl e ↦
      rw (e, add_joiner)
        (ap (λ chs. record s { channels = chs })
          (modify-modify i _ _ s.channels
            ∙ modify_congr i _ (joined fd) s.channels (new_channel []) (rw e refl)))
  | inr e ↦
      rw (e, add_joiner)
        (ap (λ chs. record s { channels = chs })
          (modify_congr i (add_member fd) (joined fd) s.channels (new_channel []) (rw e refl)))
]

is_empty-append : (xs : List ℕ) (y : ℕ) → is_empty (xs ++ y ∷ []) ≡ false
is_empty-append [] y = refl
is_empty-append (x ∷ xs) y = refl

pub is_empty-add_fd : (fd : ℕ) (xs : List ℕ) → is_empty (add_fd fd xs) ≡ false
unfolding add_fd has_fd
is_empty-add_fd fd [] = refl
is_empty-add_fd fd (x ∷ xs) = ground arith

pub joined-ChannelOk : (fd : ℕ) (ch : Channel) → ChannelOk ch → ChannelOk (joined fd ch)
joined-ChannelOk fd ch h = rw h.inhabited (record {
  members_once = add-Distinct fd ch.member_fds h.members_once;
  operators_once = h.operators_once;
  invited_once = h.invited_once;
  operators_in = λ g op. rw (has_fd-add fd g ch.member_fds) (ground (arith, h.operators_in g op));
  inhabited = is_empty-add_fd fd ch.member_fds;
  name_valid = h.name_valid;
})

pub created-ChannelOk :
    (fd : ℕ) (name : Str)
    → valid_channel_name name ≡ true
    → ChannelOk (joined fd (new_channel name))
unfolding add_fd has_fd
created-ChannelOk fd name valid = record {
  members_once = (refl, tt);
  operators_once = (refl, tt);
  invited_once = tt;
  operators_in = λ g op. op;
  inhabited = refl;
  name_valid = valid;
}

-- `removeMember` keeps the shape of a channel in which somebody is left.
pub remove_member-ChannelOk :
    (fd : ℕ) (ch : Channel)
    → is_channel_empty (remove_member fd ch) ≡ false
    → ChannelOk ch
    → ChannelOk (remove_member fd ch)
remove_member-ChannelOk fd ch left h = record {
  members_once = remove-Distinct fd ch.member_fds h.members_once;
  operators_once = remove-Distinct fd ch.operator_fds h.operators_once;
  invited_once = h.invited_once;
  operators_in = operators_left;
  inhabited = left;
  name_valid = h.name_valid;
}
  where
    operators_left :
        (g : ℕ)
        → has_fd g (remove_fd fd ch.operator_fds) ≡ true
        → has_fd g (remove_fd fd ch.member_fds) ≡ true
    operators_left g op = elim (Bool-cases (fd == g)) [
      | inl here ↦ ground (
        arith,
        has_fd-remove_self fd ch.operator_fds h.operators_once,
        here,
        ap (λ (x : ℕ). has_fd x (remove_fd fd ch.operator_fds)) (fd-eq here),
      )
      | inr there ↦
          has_fd-remove_ne fd g ch.member_fds there
          ∙ h.operators_in g (has_fd-remove fd g ch.operator_fds op)
    ]
      where
        fd-eq : (fd == g) ≡ true → fd ≡ g
        fd-eq e = ground arith

pub mode-ChannelOk :
    (m : Message) (s : Server) (ch : Channel) {f : Channel → Channel}
    → ModeChange m s ch f
    → ChannelOk ch
    → ChannelOk (f ch)
mode-ChannelOk m s ch (invitations b mode) h = h
mode-ChannelOk m s ch (topics b mode) h = h
mode-ChannelOk m s ch (keyed mode asks) h = h
mode-ChannelOk m s ch (unkeyed mode asks) h = h
mode-ChannelOk m s ch (limited mode asks digits p) h = h
mode-ChannelOk m s ch (unlimited mode) h = h
mode-ChannelOk m s ch (promotes j mode asks target member new) h = record {
  members_once = h.members_once;
  operators_once = add-Distinct (client_at s j).fd ch.operator_fds h.operators_once;
  invited_once = h.invited_once;
  operators_in = λ g op.
      ground
        (arith, has_fd-add (client_at s j).fd g ch.operator_fds, h.operators_in g, member_eq g);
  inhabited = h.inhabited;
  name_valid = h.name_valid;
}
  where
    member_eq : (g : ℕ) → ((client_at s j).fd == g) ≡ true → has_fd g ch.member_fds ≡ true
    member_eq g e = ground (arith, member)
mode-ChannelOk m s ch (demotes j mode asks target member operates spare) h = record {
  members_once = h.members_once;
  operators_once = remove-Distinct (client_at s j).fd ch.operator_fds h.operators_once;
  invited_once = h.invited_once;
  operators_in = λ g op. h.operators_in g (has_fd-remove (client_at s j).fd g ch.operator_fds op);
  inhabited = h.inhabited;
  name_valid = h.name_valid;
}

pub change-ChannelOk :
    (k : ℕ) (m : Message) (s : Server) (i : ℕ) (ch : Channel) {f : Channel → Channel}
    → ChannelChange k m s i ch f
    → ChannelOk ch
    → ChannelOk (f ch)
change-ChannelOk k m s i ch (sets_topic asks found member allowed) h = h
change-ChannelOk k m s i ch (invites j asks guest found operator absent) h = record {
  members_once = h.members_once;
  operators_once = h.operators_once;
  invited_once = add-Distinct (client_at s j).fd ch.invited_fds h.invited_once;
  operators_in = h.operators_in;
  inhabited = h.inhabited;
  name_valid = h.name_valid;
}
change-ChannelOk k m s i ch (sets_mode asks found operator change) h =
    mode-ChannelOk m s ch change h
