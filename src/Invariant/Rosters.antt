-- ===== src/Invariant/Rosters.antt =====
-- Which descriptors belong to registered clients, and what of the invariant sees the queues.
use ft_irc_server.Channel.Members.{has_fd, Distinct}
use ft_irc_server.Channel.{Channel}
use ft_irc_server.Client.{Client, new_client}
use ft_irc_server.Invariant.{
  WellFormed, SessionOk, UniqueNicks, nick_taken, MembersOk, is_registered_fd, client_fds, poll_fds,
}
use ft_irc_server.Prelude.{
  ℕ, zero, suc, ◌≡◌, refl, sym, ap, ◌∙◌, subst, true, false, ◌&&◌, List, [], ◌∷◌, map, Str, same,
  arith, ◌==◌, if◌then◌else◌, get_or, modify, map-map_same, All-map_of, All-of_map, All-weaken,
}
use ft_irc_server.Server.Quiet.{quiet, quiet_client, OnlySends}
use ft_irc_server.Server.{Server, set_pollout}

-- A registered client is found by its descriptor.
pub registered_self :
    (k : ℕ) (cs : List Client)
    → (get_or cs k (new_client 0)).registered ≡ true
    → is_registered_fd (get_or cs k (new_client 0)).fd cs ≡ true
unfolding is_registered_fd
registered_self k [] h = cc
registered_self zero (c ∷ cs) h = ground arith
registered_self (suc k) (c ∷ cs) h = ground (arith, registered_self k cs h)

pub is_registered_fd-modify :
    (fd k : ℕ) (f : Client → Client) (cs : List Client)
    → ((c : Client) → (f c).fd ≡ c.fd)
    → ((c : Client) → c.registered ≡ true → (f c).registered ≡ true)
    → is_registered_fd fd cs ≡ true
    → is_registered_fd fd (modify k f cs) ≡ true
unfolding is_registered_fd
is_registered_fd-modify fd k f [] same_fd stays h = h
is_registered_fd-modify fd zero f (c ∷ cs) same_fd stays h = ground (arith, same_fd c, stays c)
is_registered_fd-modify fd (suc k) f (c ∷ cs) same_fd stays h =
    ground (arith, is_registered_fd-modify fd k f cs same_fd stays)

is_registered_fd-quiet :
    (fd : ℕ) (cs : List Client) → is_registered_fd fd (map quiet_client cs) ≡ is_registered_fd fd cs
unfolding is_registered_fd
is_registered_fd-quiet fd [] = refl
is_registered_fd-quiet fd (c ∷ cs) =
    ap (λ b. if c.fd == fd && c.registered then true else b) (is_registered_fd-quiet fd cs)

nick_taken-quiet :
    (nick : Str) (cs : List Client) → nick_taken nick (map quiet_client cs) ≡ nick_taken nick cs
unfolding nick_taken
nick_taken-quiet nick [] = refl
nick_taken-quiet nick (c ∷ cs) =
    ap (λ b. if same c.nickname nick then true else b) (nick_taken-quiet nick cs)

UniqueNicks-to_quiet : (cs : List Client) → UniqueNicks cs → UniqueNicks (map quiet_client cs)
UniqueNicks-to_quiet [] unique = tt
UniqueNicks-to_quiet (c ∷ cs) unique =
    (λ named. nick_taken-quiet c.nickname cs ∙ unique.0 named, UniqueNicks-to_quiet cs unique.1)

UniqueNicks-of_quiet : (cs : List Client) → UniqueNicks (map quiet_client cs) → UniqueNicks cs
UniqueNicks-of_quiet [] unique = tt
UniqueNicks-of_quiet (c ∷ cs) unique = (
  λ named. sym (nick_taken-quiet c.nickname cs) ∙ unique.0 named,
  UniqueNicks-of_quiet cs unique.1,
)

-- The members of a channel, over another list with the same clients in it.
pub MembersOk-transfer :
    (cs ds : List Client) (ch : Channel)
    → ((fd : ℕ) → is_registered_fd fd cs ≡ true → is_registered_fd fd ds ≡ true)
    → map (λ c. c.fd) ds ≡ map (λ c. c.fd) cs
    → MembersOk cs ch
    → MembersOk ds ch
MembersOk-transfer cs ds ch stays same_fds h = record {
  members_registered = λ fd m. stays fd (h.members_registered fd m);
  invited_connected = λ fd m. ap (has_fd fd) same_fds ∙ h.invited_connected fd m;
}

client_fds-quiet : (s : Server) → client_fds (quiet s) ≡ client_fds s
client_fds-quiet s = map-map_same _ quiet_client s.clients (λ c. refl)

poll_fds-quiet : (s : Server) → poll_fds (quiet s) ≡ poll_fds s
poll_fds-quiet s = map-map_same _ (set_pollout false) s.fds (λ p. refl)

WellFormed-to_quiet : (s : Server) → WellFormed s → WellFormed (quiet s)
WellFormed-to_quiet s w = record {
  listen_fd = w.listen_fd;
  listens = w.listens;
  entries = poll_fds-quiet s ∙ w.entries ∙ ap (◌∷◌ w.listen_fd) (sym (client_fds-quiet s));
  entries_once = subst Distinct (sym (poll_fds-quiet s)) w.entries_once;
  sessions = All-map_of SessionOk quiet_client s.clients w.sessions;
  nicks = UniqueNicks-to_quiet s.clients w.nicks;
  channels_ok = w.channels_ok;
  names = w.names;
  members =
      All-weaken (MembersOk s.clients) _ s.channels
        (λ ch.
          MembersOk-transfer s.clients _ ch (λ fd h. is_registered_fd-quiet fd s.clients ∙ h)
            (client_fds-quiet s))
        w.members;
}

WellFormed-of_quiet : (s : Server) → WellFormed (quiet s) → WellFormed s
WellFormed-of_quiet s w = record {
  listen_fd = w.listen_fd;
  listens = w.listens;
  entries = sym (poll_fds-quiet s) ∙ w.entries ∙ ap (◌∷◌ w.listen_fd) (client_fds-quiet s);
  entries_once = subst Distinct (poll_fds-quiet s) w.entries_once;
  sessions = All-of_map SessionOk quiet_client s.clients w.sessions;
  nicks = UniqueNicks-of_quiet s.clients w.nicks;
  channels_ok = w.channels_ok;
  names = w.names;
  members =
      All-weaken (MembersOk (map quiet_client s.clients)) _ s.channels
        (λ ch.
          MembersOk-transfer _ s.clients ch (λ fd h. sym (is_registered_fd-quiet fd s.clients) ∙ h)
            (sym (client_fds-quiet s)))
        w.members;
}

-- The invariant does not see what is queued.
pub WellFormed-OnlySends : (s t : Server) → OnlySends s t → WellFormed s → WellFormed t
WellFormed-OnlySends s t h w =
    WellFormed-of_quiet t (subst WellFormed (sym h) (WellFormed-to_quiet s w))
