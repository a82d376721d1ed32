-- ===== src/Network/Leaving.antt =====
-- The invariant along `disconnect` of srcs/Server.cpp.
use ft_irc_server.Channel.Members.{has_fd, remove_fd, Distinct, has_fd-remove, has_fd-remove_self}
use ft_irc_server.Channel.{Channel}
use ft_irc_server.Client.{Client, new_client}
use ft_irc_server.Invariant.Names.{
  left_by, All-leave_from, leave_from-ChannelOk, leave_from-UniqueNames,
}
use ft_irc_server.Invariant.{
  WellFormed, SessionOk, UniqueNicks, nick_taken, ChannelOk, MembersOk, is_registered_fd,
  client_fds, poll_fds,
}
use ft_irc_server.Network.{disconnect, fd_at}
use ft_irc_server.Prelude.{
  ℕ, zero, suc, ◌-◌, ◌≡◌, refl, sym, ap, ◌∙◌, subst, true, false, List, [], ◌∷◌, map, Str, arith,
  ◌==◌, get_or, erase_at, All, Bool-cases, inl, inr, All-erase_at, map-erase_at,
}
use ft_irc_server.Server.{Server, client_at, leave_chanels}

get_or-map {ℓ κ} :
    {A : Type ℓ} {B : Type κ} (g : A → B) (k : ℕ) (xs : List A) (d : A)
    → get_or (map g xs) k (g d) ≡ g (get_or xs k d)
get_or-map g k [] d = refl
get_or-map g zero (x ∷ xs) d = refl
get_or-map g (suc k) (x ∷ xs) d = get_or-map g k xs d

-- The entry behind the listener's is that of the client with the same number.
pub fd_at-client_at :
    (j : ℕ) (s : Server) → WellFormed s → (fd_at s (suc j)).fd ≡ (client_at s j).fd
fd_at-client_at j s w =
    sym (get_or-map (λ p. p.fd) (suc j) s.fds _)
    ∙ ap (λ xs. get_or xs (suc j) 0) w.entries
    ∙ get_or-map (λ c. c.fd) j s.clients (new_client 0)

pub fd_at-entry :
    (j : ℕ) (s : Server) → WellFormed s → (fd_at s (suc j)).fd ≡ get_or (client_fds s) j 0
fd_at-entry j s w =
    sym (get_or-map (λ p. p.fd) (suc j) s.fds _) ∙ ap (λ xs. get_or xs (suc j) 0) w.entries

pub fd_at-listen : (s : Server) (w : WellFormed s) → (fd_at s 0).fd ≡ w.listen_fd
fd_at-listen s w = sym (get_or-map (λ p. p.fd) 0 s.fds _) ∙ ap (λ xs. get_or xs 0 0) w.entries

has_fd-erase_at : (g j : ℕ) (xs : List ℕ) → has_fd g xs ≡ false → has_fd g (erase_at j xs) ≡ false
unfolding has_fd
has_fd-erase_at g j [] h = h
has_fd-erase_at g zero (x ∷ xs) h = ground arith
has_fd-erase_at g (suc j) (x ∷ xs) h = ground (arith, has_fd-erase_at g j xs)

erase_at-Distinct : (j : ℕ) (xs : List ℕ) → Distinct xs → Distinct (erase_at j xs)
erase_at-Distinct j [] once = tt
erase_at-Distinct zero (x ∷ xs) once = once.1
erase_at-Distinct (suc j) (x ∷ xs) once =
    (has_fd-erase_at x j xs once.0, erase_at-Distinct j xs once.1)

nick_taken-erase_at :
    (nick : Str) (j : ℕ) (cs : List Client)
    → nick_taken nick cs ≡ false
    → nick_taken nick (erase_at j cs) ≡ false
unfolding nick_taken
nick_taken-erase_at nick j [] h = h
nick_taken-erase_at nick zero (c ∷ cs) h = ground arith
nick_taken-erase_at nick (suc j) (c ∷ cs) h = ground (arith, nick_taken-erase_at nick j cs)

erase_at-UniqueNicks : (j : ℕ) (cs : List Client) → UniqueNicks cs → UniqueNicks (erase_at j cs)
erase_at-UniqueNicks j [] unique = tt
erase_at-UniqueNicks zero (c ∷ cs) unique = unique.1
erase_at-UniqueNicks (suc j) (c ∷ cs) unique = (
  λ named. nick_taken-erase_at c.nickname j cs (unique.0 named),
  erase_at-UniqueNicks j cs unique.1,
)

-- The registered clients that stay.
is_registered_fd-erase_at :
    (g j : ℕ) (cs : List Client)
    → ((get_or cs j (new_client 0)).fd == g) ≡ false
    → is_registered_fd g cs ≡ true
    → is_registered_fd g (erase_at j cs) ≡ true
unfolding is_registered_fd
is_registered_fd-erase_at g j [] other h = h
is_registered_fd-erase_at g zero (c ∷ cs) other h = ground arith
is_registered_fd-erase_at g (suc j) (c ∷ cs) other h =
    ground (arith, is_registered_fd-erase_at g j cs other)

has_fd-erase_other :
    (g j : ℕ) (cs : List Client)
    → ((get_or cs j (new_client 0)).fd == g) ≡ false
    → has_fd g (map (λ c. c.fd) cs) ≡ true
    → has_fd g (map (λ c. c.fd) (erase_at j cs)) ≡ true
unfolding has_fd
has_fd-erase_other g j [] other h = h
has_fd-erase_other g zero (c ∷ cs) other h = ground arith
has_fd-erase_other g (suc j) (c ∷ cs) other h = ground (arith, has_fd-erase_other g j cs other)

-- Whoever is left in a list from which a descriptor was removed has another one.
other_fd :
    (fd g : ℕ) (xs : List ℕ) → Distinct xs → has_fd g (remove_fd fd xs) ≡ true → (fd == g) ≡ false
other_fd fd g xs once h = elim (Bool-cases (fd == g)) [
  | inl e ↦
      ground
        (arith, has_fd-remove_self fd xs once, ap (λ (x : ℕ). has_fd x (remove_fd fd xs)) (eq e))
  | inr e ↦ e
]
  where
    eq : (fd == g) ≡ true → fd ≡ g
    eq e = ground arith

All-both {ℓ κ μ} :
    {A : Type ℓ} (P : A → Type κ) (Q : A → Type μ) (xs : List A)
    → All P xs
    → All Q xs
    → All (λ x. P x × Q x) xs
All-both P Q [] p q = tt
All-both P Q (x ∷ xs) p q = ((p.0, q.0), All-both P Q xs p.1 q.1)

left_by-MembersOk :
    (fd j : ℕ) (cs : List Client) (ch : Channel)
    → (get_or cs j (new_client 0)).fd ≡ fd
    → ChannelOk ch × MembersOk cs ch
    → MembersOk (erase_at j cs) (left_by fd ch)
left_by-MembersOk fd j cs ch here (shape, roster) = record {
  members_registered = λ g m.
      is_registered_fd-erase_at g j cs (rw here (other_fd fd g ch.member_fds shape.members_once m))
        (roster.members_registered g (has_fd-remove fd g ch.member_fds m));
  invited_connected = λ g m.
      has_fd-erase_other g j cs (rw here (other_fd fd g ch.invited_fds shape.invited_once m))
        (roster.invited_connected g (has_fd-remove fd g ch.invited_fds m));
}

-- When a client of a well-formed server disconnects, the server stays well formed.
pub disconnect-WellFormed : (j : ℕ) (s : Server) → WellFormed s → WellFormed (disconnect (suc j) s)
unfolding disconnect leave_chanels
disconnect-WellFormed j s w =
    let fd = (fd_at s (suc j)).fd in
    let index : suc j - 1 ≡ j = omega arith in
    rw index (record {
      listen_fd = w.listen_fd;
      listens = w.listens;
      entries =
          map-erase_at (λ p. p.fd) (suc j) s.fds
          ∙ ap (erase_at (suc j)) w.entries
          ∙ ap (◌∷◌ w.listen_fd) (sym (map-erase_at (λ c. c.fd) j s.clients));
      entries_once =
          subst Distinct (sym (map-erase_at (λ p. p.fd) (suc j) s.fds))
            (erase_at-Distinct (suc j) (poll_fds s) w.entries_once);
      sessions = All-erase_at SessionOk j s.clients w.sessions;
      nicks = erase_at-UniqueNicks j s.clients w.nicks;
      channels_ok = leave_from-ChannelOk fd s.channels w.channels_ok;
      names = leave_from-UniqueNames fd s.channels w.names;
      members =
          All-leave_from _ (MembersOk (erase_at j s.clients)) fd s.channels
            (λ ch left. left_by-MembersOk fd j s.clients ch (sym (fd_at-client_at j s w)))
            (All-both ChannelOk (MembersOk s.clients) s.channels w.channels_ok w.members);
    })
