-- ===== src/Network/Rounds.antt =====
-- The invariant along a round of the loop of `launch` of srcs/Server.cpp.
use ft_irc_server.Channel.Members.{has_fd, Distinct}
use ft_irc_server.Client.{Client, send_data}
use ft_irc_server.Invariant.Rosters.{WellFormed-OnlySends}
use ft_irc_server.Invariant.{WellFormed, poll_fds, client_fds}
use ft_irc_server.Network.Leaving.{disconnect-WellFormed, fd_at-entry, fd_at-listen}
use ft_irc_server.Network.Serving.{Fresh, connect-WellFormed, handle_user-WellFormed}
use ft_irc_server.Network.{
  Accepted, refused, accepted, fd_at, Sent, sent, send_again, send_failed, handle_user, handle_send,
  after_send, erase_sent, clear_pollout, Io, is_idle, is_broken, is_listener, serve_output,
  serve_fd, serve_from, poll, set_revents, launch_round,
}
use ft_irc_server.Prelude.{
  ℕ, zero, suc, ◌+◌, ◌-◌, ◌<◌, ◌≡◌, refl, sym, ap, ◌∙◌, subst, Bool, true, false, not, List, [],
  ◌∷◌, map, Str, arith, ltb, ltb→lt, ==_refl, length, get_or, if_cases, modify, map-map_same,
  map-modify_same,
}
use ft_irc_server.Server.Quiet.{OnlySends, quiet, quiet_client}
use ft_irc_server.Server.{Server, PollFd, client_at, update_client, set_pollout}

map-quiet-erase_sent :
    (k n : ℕ) (cs : List Client)
    → map quiet_client (modify k (erase_sent n) cs) ≡ map quiet_client cs
map-quiet-erase_sent k n cs = map-modify_same quiet_client k (erase_sent n) cs (λ c. refl)

erase_sent-OnlySends : (k n : ℕ) (s : Server) → OnlySends s (update_client k (erase_sent n) s)
erase_sent-OnlySends k n s =
    ap (λ cs. record (quiet s) { clients = cs }) (map-quiet-erase_sent k n s.clients)

clear_pollout-OnlySends : (i : ℕ) (s : Server) → OnlySends s (clear_pollout i s)
clear_pollout-OnlySends i s =
    ap (λ ps. record (quiet s) { fds = ps })
      (map-modify_same (set_pollout false) i (set_pollout false) s.fds (λ p. refl))

after_send-WellFormed :
    (j : ℕ) (r : Sent) (s : Server) → WellFormed s → WellFormed (after_send (suc j) r s).0
unfolding after_send
after_send-WellFormed j (sent zero) s w = disconnect-WellFormed j s w
after_send-WellFormed j (sent (suc n)) s w =
    WellFormed-OnlySends s _
      (if_cases (OnlySends s)
        (send_data (client_at (update_client (suc j - 1) (erase_sent (suc n)) s) (suc j - 1)))
        (λ _. erase_sent-OnlySends (suc j - 1) (suc n) s)
        (λ _. clear_pollout-OnlySends (suc j) _ ∙ erase_sent-OnlySends (suc j - 1) (suc n) s))
      w
after_send-WellFormed j send_again s w = w
after_send-WellFormed j send_failed s w = disconnect-WellFormed j s w

pub handle_send-WellFormed :
    (j : ℕ) (answer : Str → Sent) (s : Server)
    → WellFormed s
    → WellFormed (handle_send (suc j) answer s).0
unfolding handle_send
handle_send-WellFormed j answer s w =
    if_cases (λ (r : Server × Bool). WellFormed r.0) (not (send_data (client_at s (suc j - 1))))
      (λ _. WellFormed-OnlySends s _ (clear_pollout-OnlySends (suc j) s) w)
      (λ _. after_send-WellFormed j _ s w)

serve_output-WellFormed :
    (io : Io) (j : ℕ) (s : Server) → WellFormed s → WellFormed (serve_output io (suc j) s).0
unfolding serve_output
serve_output-WellFormed io j s w =
    if_cases (λ (r : Server × Bool). WellFormed r.0) (is_broken (fd_at s (suc j)).revents)
      (λ _. disconnect-WellFormed j s w)
      λ _.
        if_cases (λ (r : Server × Bool). WellFormed r.0) (fd_at s (suc j)).revents.pollout
          (λ _. handle_send-WellFormed j (io.send (fd_at s (suc j)).fd) s w) (λ _. w)

pub is_listener-first : (s : Server) → WellFormed s → is_listener s.fd (fd_at s 0).fd ≡ true
is_listener-first s w = rw (w.listens, fd_at-listen s w) (==_refl w.listen_fd)

-- The listener's entry, which stands first: the loop goes on behind it.
pub serve_fd-listener :
    (io : Io) (s : Server)
    → Fresh io.accept s
    → WellFormed s
    → WellFormed (serve_fd io 0 s).0 × ((serve_fd io 0 s).1 ≡ true)
unfolding serve_fd
serve_fd-listener io s fresh w =
    if_cases (λ (r : Server × Bool). WellFormed r.0 × (r.1 ≡ true)) (is_idle (fd_at s 0).revents)
      (λ _. (w, refl))
      λ _. rw (is_listener-first s w) (
        if_cases WellFormed (fd_at s 0).revents.pollin (λ _. connect-WellFormed io.accept s fresh w)
            (λ _. w),
        refl,
      )

has_fd-get_or : (j : ℕ) (xs : List ℕ) → j < length xs → has_fd (get_or xs j 0) xs ≡ true
unfolding has_fd
has_fd-get_or j [] h = elim h [ ]
has_fd-get_or zero (x ∷ xs) h = ground arith
has_fd-get_or (suc j) (x ∷ xs) h = ground (arith, has_fd-get_or j xs)

pub length-map {ℓ κ} :
    {A : Type ℓ} {B : Type κ} (f : A → B) (xs : List A) → length (map f xs) ≡ length xs
length-map f [] = refl
length-map f (x ∷ xs) = ap suc (length-map f xs)

-- An entry behind the first is no listener's.
pub is_listener-later :
    (j : ℕ) (s : Server)
    → WellFormed s
    → suc j < length s.fds
    → is_listener s.fd (fd_at s (suc j)).fd ≡ false
is_listener-later j s w h =
    rw (w.listens, entry) (ground (arith, ap (λ (x : ℕ). has_fd x (client_fds s)), there, apart))
  where
    entry : (fd_at s (suc j)).fd ≡ get_or (client_fds s) j 0
    entry = fd_at-entry j s w

    there : has_fd (get_or (client_fds s) j 0) (client_fds s) ≡ true
    there =
        has_fd-get_or j (client_fds s)
          (omega (arith, ap length w.entries, length-map (λ (p : PollFd). p.fd) s.fds))

    apart : has_fd w.listen_fd (client_fds s) ≡ false
    apart = (subst Distinct w.entries w.entries_once).0

-- Any other entry: a client is served, and may be gone.
pub serve_fd-client :
    (io : Io) (j : ℕ) (s : Server)
    → suc j < length s.fds
    → WellFormed s
    → WellFormed (serve_fd io (suc j) s).0
unfolding serve_fd
serve_fd-client io j s h w =
    if_cases (λ (r : Server × Bool). WellFormed r.0) (is_idle (fd_at s (suc j)).revents) (λ _. w)
      λ _. rw (is_listener-later j s w h) (
        if_cases (λ (r : Server × Bool). WellFormed r.0) (fd_at s (suc j)).revents.pollin
          (λ _.
            if_cases (λ (r : Server × Bool). WellFormed r.0)
              (handle_user (suc j) (io.recv (fd_at s (suc j)).fd) s).1 (λ _. served)
              (λ _. serve_output-WellFormed io j _ served))
          (λ _. serve_output-WellFormed io j s w))
  where
    served : WellFormed (handle_user (suc j) (io.recv (fd_at s (suc j)).fd) s).0
    served = handle_user-WellFormed j (io.recv (fd_at s (suc j)).fd) s w

serve_from-later :
    (fuel : ℕ) (io : Io) (j : ℕ) (s : Server)
    → WellFormed s
    → WellFormed (serve_from fuel io (suc j) s)
unfolding serve_from
serve_from-later zero io j s w = w
serve_from-later (suc fuel) io j s w =
    if_cases WellFormed (ltb (suc j) (length s.fds))
      (λ more.
        let served = serve_fd-client io j s (ltb→lt (suc j) (length s.fds) more) w in
        if_cases (λ i. WellFormed (serve_from fuel io i (serve_fd io (suc j) s).0))
          (serve_fd io (suc j) s).1 (λ _. serve_from-later fuel io (suc j) _ served)
          (λ _. serve_from-later fuel io j _ served))
      (λ _. w)

serve_from-first :
    (fuel : ℕ) (io : Io) (s : Server)
    → Fresh io.accept s
    → WellFormed s
    → WellFormed (serve_from fuel io 0 s)
unfolding serve_from
serve_from-first zero io s fresh w = w
serve_from-first (suc fuel) io s fresh w =
    if_cases WellFormed (ltb 0 (length s.fds))
      (λ _.
        let (served, goes_on) = serve_fd-listener io s fresh w in
        rw goes_on (serve_from-later fuel io 0 _ served))
      (λ _. w)

poll_fds-poll : (io : Io) (s : Server) → poll_fds (poll io s) ≡ poll_fds s
poll_fds-poll io s = map-map_same (λ (p : PollFd). p.fd) (set_revents io) s.fds (λ p. refl)

pub poll-WellFormed : (io : Io) (s : Server) → WellFormed s → WellFormed (poll io s)
poll-WellFormed io s w = record {
  listen_fd = w.listen_fd;
  listens = w.listens;
  entries = poll_fds-poll io s ∙ w.entries;
  entries_once = subst Distinct (sym (poll_fds-poll io s)) w.entries_once;
  sessions = w.sessions;
  nicks = w.nicks;
  channels_ok = w.channels_ok;
  names = w.names;
  members = w.members;
}

pub poll-Fresh : (io : Io) (a : Accepted) (s : Server) → Fresh a s → Fresh a (poll io s)
poll-Fresh io refused s fresh = tt
poll-Fresh io (accepted fd nonblocking) s fresh = ap (has_fd fd) (poll_fds-poll io s) ∙ fresh

-- A round of the event loop keeps a well-formed server well formed, whatever the system calls
-- answer, if `accept` answers with no descriptor that is in use.
pub launch_round-WellFormed :
    (io : Io) (s : Server) → Fresh io.accept s → WellFormed s → WellFormed (launch_round io s)
unfolding launch_round
launch_round-WellFormed io s fresh w =
    serve_from-first (length s.fds + length s.fds) io (poll io s) (poll-Fresh io io.accept s fresh)
      (poll-WellFormed io s w)
