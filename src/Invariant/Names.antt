-- ===== src/Invariant/Names.antt =====
-- The names and the shapes of the channels as channels come and go.
use ft_irc_server.Channel.Members.{
  remove_fd, remove-Distinct, remove_fd-absent, has_fd-remove_self, Distinct,
}
use ft_irc_server.Channel.{Channel, remove_member, is_channel_empty, remove_invite, remove_operator}
use ft_irc_server.Commands.Kick.{drop_member}
use ft_irc_server.Invariant.Channels.{remove_member-ChannelOk}
use ft_irc_server.Invariant.{ChannelOk, UniqueNames, name_taken}
use ft_irc_server.Prelude.{
  ℕ, zero, suc, ◌≡◌, refl, sym, ap, ◌∙◌, true, false, List, [], ◌∷◌, ◌++◌, Str, same, same_iff,
  arith, if◌then◌else◌, modify, erase_at, All, if_cases, erase_at-modify, All-modify, All-erase_at,
  get_or-modify,
}
use ft_irc_server.Server.{Server, channel_at, update_channel, leave_from}

pub name_taken-modify :
    (name : Str) (i : ℕ) (f : Channel → Channel) (chs : List Channel)
    → ((ch : Channel) → (f ch).name ≡ ch.name)
    → name_taken name (modify i f chs) ≡ name_taken name chs
unfolding name_taken
name_taken-modify name i f [] h = refl
name_taken-modify name zero f (ch ∷ chs) h = rw (h ch)
name_taken-modify name (suc i) f (ch ∷ chs) h =
    ap (λ b. if same ch.name name then true else b) (name_taken-modify name i f chs h)

pub modify-UniqueNames :
    (i : ℕ) (f : Channel → Channel) (chs : List Channel)
    → ((ch : Channel) → (f ch).name ≡ ch.name)
    → UniqueNames chs
    → UniqueNames (modify i f chs)
modify-UniqueNames i f [] h unique = tt
modify-UniqueNames zero f (ch ∷ chs) h unique = (rw (h ch) unique.0, unique.1)
modify-UniqueNames (suc i) f (ch ∷ chs) h unique =
    (name_taken-modify ch.name i f chs h ∙ unique.0, modify-UniqueNames i f chs h unique.1)

name_taken-erase_at :
    (name : Str) (i : ℕ) (chs : List Channel)
    → name_taken name chs ≡ false
    → name_taken name (erase_at i chs) ≡ false
unfolding name_taken
name_taken-erase_at name i [] h = h
name_taken-erase_at name zero (ch ∷ chs) h = ground arith
name_taken-erase_at name (suc i) (ch ∷ chs) h = ground (arith, name_taken-erase_at name i chs)

pub erase_at-UniqueNames :
    (i : ℕ) (chs : List Channel) → UniqueNames chs → UniqueNames (erase_at i chs)
erase_at-UniqueNames i [] unique = tt
erase_at-UniqueNames zero (ch ∷ chs) unique = unique.1
erase_at-UniqueNames (suc i) (ch ∷ chs) unique =
    (name_taken-erase_at ch.name i chs unique.0, erase_at-UniqueNames i chs unique.1)

name_taken-append_one :
    (name : Str) (chs : List Channel) (ch : Channel)
    → name_taken name chs ≡ false
    → same ch.name name ≡ false
    → name_taken name (chs ++ ch ∷ []) ≡ false
unfolding name_taken
name_taken-append_one name [] ch h new = ground arith
name_taken-append_one name (x ∷ chs) ch h new = ground (arith, name_taken-append_one name chs ch)

-- A channel is added only under a name that no channel has.
pub append_one-UniqueNames :
    (chs : List Channel) (ch : Channel)
    → All (λ x. same x.name ch.name ≡ false) chs
    → UniqueNames chs
    → UniqueNames (chs ++ ch ∷ [])
unfolding name_taken
append_one-UniqueNames [] ch absent unique = (refl, tt)
append_one-UniqueNames (x ∷ chs) ch absent unique = (
  name_taken-append_one x.name chs ch unique.0
      (ground (arith, absent.0, same_iff x.name ch.name, same_iff ch.name x.name)),
  append_one-UniqueNames chs ch absent.1 unique.1,
)

-- `drop_member` on the channels alone.
pub drop_member-channels :
    (fd i : ℕ) (s : Server) (P : List Channel → Type 0)
    → P (erase_at i s.channels)
    → (is_channel_empty (channel_at (update_channel i (remove_member fd) s) i) ≡ false
        → P (modify i (remove_member fd) s.channels))
    → P (drop_member fd i s).channels
unfolding drop_member
drop_member-channels fd i s P erased kept =
    if_cases (λ (t : Server). P t.channels)
      (is_channel_empty (channel_at (update_channel i (remove_member fd) s) i))
      (λ _. rw (erase_at-modify i (remove_member fd) s.channels) erased) kept

pub drop_member-ChannelOk :
    (fd i : ℕ) (s : Server) → All ChannelOk s.channels → All ChannelOk (drop_member fd i s).channels
drop_member-ChannelOk fd i s all =
    drop_member-channels fd i s (All ChannelOk) (All-erase_at ChannelOk i s.channels all) λ left.
      All-modify ChannelOk i (remove_member fd) s.channels
        (λ ch at ok.
          remove_member-ChannelOk fd ch
            (ap is_channel_empty (sym (get_or-modify i _ s.channels ch _ at)) ∙ left) ok)
        all

-- A channel that this client has left.
abbrev pub left_by : ℕ → Channel → Channel
left_by fd ch = remove_operator fd (remove_invite fd (remove_member fd ch))

-- `removeMember` takes the operator already, so that `remove_operator` finds nothing.
left_by-operators :
    (fd : ℕ) (ch : Channel)
    → Distinct ch.operator_fds
    → (left_by fd ch).operator_fds ≡ remove_fd fd ch.operator_fds
left_by-operators fd ch once =
    remove_fd-absent fd (remove_fd fd ch.operator_fds) (has_fd-remove_self fd ch.operator_fds once)

left_by-ChannelOk :
    (fd : ℕ) (ch : Channel)
    → is_channel_empty (left_by fd ch) ≡ false
    → ChannelOk ch
    → ChannelOk (left_by fd ch)
left_by-ChannelOk fd ch left h =
    let ok = remove_member-ChannelOk fd ch left h in
    rw (left_by-operators fd ch h.operators_once) (record {
      members_once = ok.members_once;
      operators_once = ok.operators_once;
      invited_once = remove-Distinct fd ch.invited_fds h.invited_once;
      operators_in = ok.operators_in;
      inhabited = ok.inhabited;
      name_valid = ok.name_valid;
    })

-- Whatever holds of each channel that somebody is left in holds of all after `leave_chanels`.
pub All-leave_from :
    (P Q : Channel → Type 0) (fd : ℕ) (chs : List Channel)
    → ((ch : Channel) → is_channel_empty (left_by fd ch) ≡ false → P ch → Q (left_by fd ch))
    → All P chs
    → All Q (leave_from fd chs)
unfolding leave_from
All-leave_from P Q fd [] keep all = tt
All-leave_from P Q fd (ch ∷ chs) keep all =
    if_cases (All Q) (is_channel_empty (left_by fd ch)) (λ _. All-leave_from P Q fd chs keep all.1)
      (λ left. (keep ch left all.0, All-leave_from P Q fd chs keep all.1))

pub leave_from-ChannelOk :
    (fd : ℕ) (chs : List Channel) → All ChannelOk chs → All ChannelOk (leave_from fd chs)
leave_from-ChannelOk fd chs = All-leave_from ChannelOk ChannelOk fd chs (left_by-ChannelOk fd)

name_taken-leave_from :
    (name : Str) (fd : ℕ) (chs : List Channel)
    → name_taken name chs ≡ false
    → name_taken name (leave_from fd chs) ≡ false
unfolding name_taken leave_from
name_taken-leave_from name fd [] h = h
name_taken-leave_from name fd (ch ∷ chs) h = ground (arith, name_taken-leave_from name fd chs)

pub leave_from-UniqueNames :
    (fd : ℕ) (chs : List Channel) → UniqueNames chs → UniqueNames (leave_from fd chs)
unfolding leave_from
leave_from-UniqueNames fd [] unique = tt
leave_from-UniqueNames fd (ch ∷ chs) unique =
    if_cases UniqueNames (is_channel_empty (left_by fd ch))
      (λ _. leave_from-UniqueNames fd chs unique.1)
      (λ _. (name_taken-leave_from ch.name fd chs unique.0, leave_from-UniqueNames fd chs unique.1))
