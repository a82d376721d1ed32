-- ===== src/Network/Serving.antt =====
-- The invariant along `connect` and `handle_user` of srcs/Server.cpp.
use ft_irc_server.Channel.Members.{has_fd, Distinct, has_fd-append}
use ft_irc_server.Channel.{Channel}
use ft_irc_server.Client.{Client, new_client, append_buff}
use ft_irc_server.Invariant.Preserved.{dispatch_command-WellFormed}
use ft_irc_server.Invariant.Sessions.{new_client-SessionOk}
use ft_irc_server.Invariant.Updates.{UniqueNicks-modify_same, update_client-WellFormed}
use ft_irc_server.Invariant.{
  WellFormed, SessionOk, UniqueNicks, nick_taken, MembersOk, is_registered_fd, poll_fds,
}
use ft_irc_server.Network.Leaving.{disconnect-WellFormed}
use ft_irc_server.Network.Lines.{cut_line, chop_return}
use ft_irc_server.Network.{
  Accepted, refused, accepted, poll_entry, connect, Received, received, recv_again, recv_failed,
  handle_user, extract_msg, extract_loop, set_buffer,
}
use ft_irc_server.Prelude.{
  ℕ, zero, suc, ◌-◌, ◌≡◌, refl, sym, ap, ◌∙◌, subst, true, false, List, [], ◌∷◌, ◌++◌, map, Str,
  same, is_empty, arith, length, on_found_cases, All-append_one, All-weaken, map-append_one,
}
use ft_irc_server.Server.{Server, client_at, update_client}

Distinct-append_one :
    (xs : List ℕ) (fd : ℕ) → has_fd fd xs ≡ false → Distinct xs → Distinct (xs ++ fd ∷ [])
unfolding has_fd
Distinct-append_one [] fd new once = (refl, tt)
Distinct-append_one (x ∷ xs) fd new once = (
  ground (arith, has_fd-append x xs (fd ∷ []), once.0),
  Distinct-append_one xs fd (ground arith) once.1,
)

nick_taken-append_one :
    (nick : Str) (cs : List Client) (c : Client)
    → same c.nickname nick ≡ false
    → nick_taken nick cs ≡ false
    → nick_taken nick (cs ++ c ∷ []) ≡ false
unfolding nick_taken
nick_taken-append_one nick [] c other h = ground arith
nick_taken-append_one nick (x ∷ cs) c other h =
    ground (arith, nick_taken-append_one nick cs c other)

same-nil : (nick : Str) → is_empty nick ≡ false → same [] nick ≡ false
unfolding same
same-nil [] h = cc
same-nil (c ∷ cs) h = refl

UniqueNicks-append_one :
    (cs : List Client) (fd : ℕ) → UniqueNicks cs → UniqueNicks (cs ++ new_client fd ∷ [])
unfolding nick_taken
UniqueNicks-append_one [] fd unique = ((λ named. refl), tt)
UniqueNicks-append_one (c ∷ cs) fd unique = (
  λ named.
      nick_taken-append_one c.nickname cs (new_client fd) (same-nil c.nickname named)
        (unique.0 named),
  UniqueNicks-append_one cs fd unique.1,
)

is_registered_fd-append_one :
    (g : ℕ) (cs : List Client) (c : Client)
    → is_registered_fd g cs ≡ true
    → is_registered_fd g (cs ++ c ∷ []) ≡ true
unfolding is_registered_fd
is_registered_fd-append_one g [] c h = cc
is_registered_fd-append_one g (x ∷ cs) c h = ground (arith, is_registered_fd-append_one g cs c)

-- A descriptor that the system hands out is not in use.
abbrev pub Fresh : Accepted → Server → Type 0
Fresh refused s = Unit
Fresh (accepted fd nonblocking) s = has_fd fd (poll_fds s) ≡ false

pub connect-WellFormed :
    (a : Accepted) (s : Server) → Fresh a s → WellFormed s → WellFormed (connect a s)
unfolding connect
connect-WellFormed refused s fresh w = w
connect-WellFormed (accepted fd false) s fresh w = w
connect-WellFormed (accepted fd true) s fresh w = record {
  listen_fd = w.listen_fd;
  listens = w.listens;
  entries =
      map-append_one (λ p. p.fd) s.fds (poll_entry fd)
      ∙ ap (λ xs. xs ++ fd ∷ []) w.entries
      ∙ ap (◌∷◌ w.listen_fd) (sym same_fds);
  entries_once =
      subst Distinct (sym (map-append_one (λ p. p.fd) s.fds (poll_entry fd)))
        (Distinct-append_one (poll_fds s) fd fresh w.entries_once);
  sessions =
      All-append_one SessionOk s.clients (new_client fd) w.sessions (new_client-SessionOk fd);
  nicks = UniqueNicks-append_one s.clients fd w.nicks;
  channels_ok = w.channels_ok;
  names = w.names;
  members = All-weaken (MembersOk s.clients) _ s.channels roster w.members;
}
  where
    same_fds :
        map (λ c. c.fd) (s.clients ++ new_client fd ∷ []) ≡ map (λ c. c.fd) s.clients ++ fd ∷ []
    same_fds = map-append_one (λ c. c.fd) s.clients (new_client fd)

    roster :
        (ch : Channel) → MembersOk s.clients ch → MembersOk (s.clients ++ new_client fd ∷ []) ch
    roster ch h = record {
      members_registered =
          λ g m. is_registered_fd-append_one g s.clients (new_client fd) (h.members_registered g m);
      invited_connected = λ g m.
          ap (has_fd g) same_fds
          ∙ ground (
            arith,
            has_fd-append g (map (λ c. c.fd) s.clients) (fd ∷ []),
            h.invited_connected g m,
          );
    }

-- A change of a receive buffer does not matter to the invariant.
buffer-WellFormed :
    (k : ℕ) (f : Client → Client) (s : Server)
    → ((c : Client) → f c ≡ record c { buffer = (f c).buffer })
    → WellFormed s
    → WellFormed (update_client k f s)
buffer-WellFormed k f s only w =
    update_client-WellFormed k f s (λ c. ap (λ (d : Client). d.fd) (only c))
      (λ c r. ap (λ (d : Client). d.registered) (only c) ∙ r) (λ c at ok. rw (only c) ok)
      (UniqueNicks-modify_same k f s.clients (λ c. ap (λ (d : Client). d.nickname) (only c))
        w.nicks)
      w

extract_loop-WellFormed :
    (fuel k : ℕ) (s : Server) → WellFormed s → WellFormed (extract_loop fuel k s)
unfolding extract_loop
extract_loop-WellFormed zero k s w = w
extract_loop-WellFormed (suc fuel) k s w =
    on_found_cases WellFormed (cut_line (client_at s k).buffer) (λ _. w)
      λ cut _. extract_loop-WellFormed fuel k _ (
        dispatch_command-WellFormed k (chop_return cut.0) _
          (buffer-WellFormed k (set_buffer cut.1) s (λ c. refl) w))

pub handle_user-WellFormed :
    (j : ℕ) (r : Received) (s : Server) → WellFormed s → WellFormed (handle_user (suc j) r s).0
unfolding handle_user extract_msg
handle_user-WellFormed j (received []) s w = disconnect-WellFormed j s w
handle_user-WellFormed j (received (c ∷ cs)) s w =
    let fed = update_client (suc j - 1) (append_buff (c ∷ cs)) s in
    extract_loop-WellFormed (suc (length (client_at fed (suc j - 1)).buffer)) (suc j - 1) fed
      (buffer-WellFormed (suc j - 1) (append_buff (c ∷ cs)) s (λ c. refl) w)
handle_user-WellFormed j recv_again s w = w
handle_user-WellFormed j recv_failed s w = disconnect-WellFormed j s w
