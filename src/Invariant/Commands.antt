-- ===== src/Invariant/Commands.antt =====
-- The invariant along the parts of the commands.
use ft_irc_server.Channel.Members.{has_fd, add_fd, Distinct, has_fd-add, has_fd-remove}
use ft_irc_server.Channel.{Channel, new_channel, remove_member, is_channel_empty, add_member}
use ft_irc_server.Client.{Client, new_client}
use ft_irc_server.Commands.Common.{last_client, has_nickname, is_named, last_channel}
use ft_irc_server.Commands.Join.{add_joiner, add_channel, valid_channel_name}
use ft_irc_server.Commands.Kick.{drop_member}
use ft_irc_server.Commands.Nick.{nick_in_use}
use ft_irc_server.Effect.{
  ModeChange, ChannelChange, with_nick, sets_topic, invites, sets_mode, invitations, topics, keyed,
  unkeyed, limited, unlimited, promotes, demotes,
}
use ft_irc_server.Invariant.Channels.{
  joined, add_joiner-joined, joined-ChannelOk, created-ChannelOk, remove_member-ChannelOk,
}
use ft_irc_server.Invariant.Names.{erase_at-UniqueNames, append_one-UniqueNames}
use ft_irc_server.Invariant.Rosters.{registered_self}
use ft_irc_server.Invariant.Sessions.{UniqueNicks-rename, has_fd-get_elem?}
use ft_irc_server.Invariant.Updates.{with_channels-WellFormed, update_channel-WellFormed}
use ft_irc_server.Invariant.{WellFormed, UniqueNicks, ChannelOk, MembersOk, client_fds}
use ft_irc_server.Parser.{Message, param}
use ft_irc_server.Prelude.{
  ℕ, ◌≡◌, refl, sym, ap, ◌∙◌, subst, true, false, List, none, some, inl, inr, Str, arith, length,
  get_elem?, modify, if_cases, Option-cases, modify-absent, All-append_one, All-erase_at,
  get_or_of_get_elem?, get_or-modify, modify-append_one, erase_at-modify, find_last-some,
  find_last-none,
}
use ft_irc_server.Server.{Server, client_at, channel_at, update_channel}

-- `NICK` keeps the nicknames apart.
pub names-UniqueNicks :
    (k : ℕ) (nick : Str) (s : Server)
    → WellFormed s
    → nick_in_use nick (client_at s k).fd s.clients ≡ false
    → UniqueNicks (modify k (with_nick nick) s.clients)
names-UniqueNicks k nick s w free = elim (Option-cases (get_elem? s.clients k)) [
  | inl absent ↦ rw (modify-absent k (with_nick nick) s.clients absent) w.nicks
  | inr (c, at) ↦
      UniqueNicks-rename nick k s.clients c at (subst Distinct w.entries w.entries_once).1
        (rw (get_or_of_get_elem? k s.clients c _ at) at free) w.nicks
]

-- The client at this index, if it is registered, may stand among the members.
joined-MembersOk :
    (k : ℕ) (s : Server) (ch : Channel)
    → (client_at s k).registered ≡ true
    → MembersOk s.clients ch
    → MembersOk s.clients (joined (client_at s k).fd ch)
joined-MembersOk k s ch registered h =
    if_cases (MembersOk s.clients) (is_channel_empty ch) (λ _. added) (λ _. added)
  where
    added : MembersOk s.clients (add_member (client_at s k).fd ch)
    added = record {
      members_registered = λ fd m. ground (
        arith,
        has_fd-add (client_at s k).fd fd ch.member_fds,
        h.members_registered fd,
        registered_self k s.clients registered,
      );
      invited_connected = h.invited_connected;
    }

guest-MembersOk :
    (nick : Str) (j : ℕ) (s : Server) (ch : Channel)
    → last_client nick s ≡ some j
    → MembersOk s.clients ch
    → MembersOk s.clients (record ch { invited_fds = add_fd (client_at s j).fd ch.invited_fds })
guest-MembersOk nick j s ch found h = record {
  members_registered = h.members_registered;
  invited_connected = λ fd m.
      ground
        (arith, has_fd-add (client_at s j).fd fd ch.invited_fds, h.invited_connected fd, connected);
}
  where
    connected : has_fd (client_at s j).fd (client_fds s) ≡ true
    connected =
        let (c, at, _) = find_last-some (has_nickname nick) s.clients j found in
        rw (get_or_of_get_elem? j s.clients c (new_client 0) at) (has_fd-get_elem? j s.clients c at)

mode-MembersOk :
    (m : Message) (s : Server) (clients : List Client) (ch : Channel) {f : Channel → Channel}
    → ModeChange m s ch f
    → MembersOk clients ch
    → MembersOk clients (f ch)
mode-MembersOk m s clients ch (invitations b mode) h = h
mode-MembersOk m s clients ch (topics b mode) h = h
mode-MembersOk m s clients ch (keyed mode asks) h = h
mode-MembersOk m s clients ch (unkeyed mode asks) h = h
mode-MembersOk m s clients ch (limited mode asks digits p) h = h
mode-MembersOk m s clients ch (unlimited mode) h = h
mode-MembersOk m s clients ch (promotes j mode asks target member new) h = h
mode-MembersOk m s clients ch (demotes j mode asks target member operates spare) h = h

pub change-MembersOk :
    (k : ℕ) (m : Message) (s : Server) (i : ℕ) (ch : Channel) {f : Channel → Channel}
    → ChannelChange k m s i ch f
    → MembersOk s.clients ch
    → MembersOk s.clients (f ch)
change-MembersOk k m s i ch (sets_topic asks found member allowed) h = h
change-MembersOk k m s i ch (invites j asks guest found operator absent) h =
    guest-MembersOk (param m 0) j s ch guest h
change-MembersOk k m s i ch (sets_mode asks found operator change) h =
    mode-MembersOk m s s.clients ch change h

mode-name :
    (m : Message) (s : Server) (ch : Channel) {f : Channel → Channel}
    → ModeChange m s ch f
    → (c : Channel) → (f c).name ≡ c.name
mode-name m s ch (invitations b mode) c = refl
mode-name m s ch (topics b mode) c = refl
mode-name m s ch (keyed mode asks) c = refl
mode-name m s ch (unkeyed mode asks) c = refl
mode-name m s ch (limited mode asks digits p) c = refl
mode-name m s ch (unlimited mode) c = refl
mode-name m s ch (promotes j mode asks target member new) c = refl
mode-name m s ch (demotes j mode asks target member operates spare) c = refl

pub change-name :
    (k : ℕ) (m : Message) (s : Server) (i : ℕ) (ch : Channel) {f : Channel → Channel}
    → ChannelChange k m s i ch f
    → (c : Channel) → (f c).name ≡ c.name
change-name k m s i ch (sets_topic asks found member allowed) c = refl
change-name k m s i ch (invites j asks guest found operator absent) c = refl
change-name k m s i ch (sets_mode asks found operator change) c = mode-name m s ch change c

removed-MembersOk :
    (fd : ℕ) (clients : List Client) (ch : Channel)
    → MembersOk clients ch
    → MembersOk clients (remove_member fd ch)
removed-MembersOk fd clients ch h = record {
  members_registered = λ g m. h.members_registered g (has_fd-remove fd g ch.member_fds m);
  invited_connected = h.invited_connected;
}

pub drop_member-WellFormed :
    (fd i : ℕ) (s : Server) → WellFormed s → WellFormed (drop_member fd i s)
unfolding drop_member
drop_member-WellFormed fd i s w =
    if_cases WellFormed (is_channel_empty (channel_at (update_channel i (remove_member fd) s) i))
      (λ _. rw (erase_at-modify i (remove_member fd) s.channels) (
        with_channels-WellFormed s _ (All-erase_at ChannelOk i s.channels w.channels_ok)
          (erase_at-UniqueNames i s.channels w.names)
          (All-erase_at (MembersOk s.clients) i s.channels w.members) w))
      λ left.
        update_channel-WellFormed i (remove_member fd) s (λ ch. refl)
          (λ ch at.
            remove_member-ChannelOk fd ch
              (ap is_channel_empty (sym (get_or-modify i _ s.channels ch _ at)) ∙ left))
          (λ ch at. removed-MembersOk fd s.clients ch) w

pub joiner-WellFormed :
    (k i : ℕ) (s : Server)
    → (client_at s k).registered ≡ true
    → WellFormed s
    → WellFormed (add_joiner (client_at s k).fd i s)
joiner-WellFormed k i s registered w = rw (add_joiner-joined (client_at s k).fd i s) (
    update_channel-WellFormed i (joined (client_at s k).fd) s
      (λ ch.
        if_cases (λ (c : Channel). c.name ≡ ch.name) (is_channel_empty ch) (λ _. refl) (λ _. refl))
      (λ ch at. joined-ChannelOk (client_at s k).fd ch)
      (λ ch at. joined-MembersOk k s ch registered) w)

pub creator-WellFormed :
    (k : ℕ) (name : Str) (s : Server)
    → (client_at s k).registered ≡ true
    → valid_channel_name name ≡ true
    → last_channel name s ≡ none
    → WellFormed s
    → WellFormed (add_joiner (client_at s k).fd (length s.channels) (add_channel name s))
creator-WellFormed k name s registered valid absent w =
    rw
      (
        add_joiner-joined (client_at s k).fd (length s.channels) (add_channel name s),
        modify-append_one (joined (client_at s k).fd) s.channels (new_channel name),
      )
      (with_channels-WellFormed s _
        (All-append_one ChannelOk s.channels _ w.channels_ok
          (created-ChannelOk (client_at s k).fd name valid))
        (append_one-UniqueNames s.channels _
          (find_last-none (is_named name) 0 s.channels none absent).1 w.names)
        (All-append_one (MembersOk s.clients) s.channels _ w.members
          (joined-MembersOk k s (new_channel name) registered nobody))
        w)
  where
    nobody : MembersOk s.clients (new_channel name)
    nobody =
        unfold has_fd in record { members_registered = λ fd m. cc; invited_connected = λ fd m. cc }
