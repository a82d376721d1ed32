-- ===== src/Network/Progress.antt =====
-- The number of poll entries along a round of the loop of `launch`, and the fuel of the round.
use ft_irc_server.Client.{send_data}
use ft_irc_server.Invariant.{WellFormed}
use ft_irc_server.Network.Rebuffer.Reads.{length-modify}
use ft_irc_server.Network.Rounds.{
  length-map, is_listener-later, serve_fd-listener, serve_fd-client, is_listener-first,
  poll-WellFormed, poll-Fresh,
}
use ft_irc_server.Network.Serving.{Fresh, handle_user-WellFormed}
use ft_irc_server.Network.Stream.{handle_user-length}
use ft_irc_server.Network.{
  Accepted, refused, accepted, Received, received, recv_again, recv_failed, Sent, sent, send_again,
  send_failed, Io, fd_at, connect, disconnect, handle_user, handle_send, after_send, erase_sent,
  clear_pollout, is_idle, is_broken, poll, poll_entry, set_revents, serve_output, serve_fd,
  serve_from, launch_round,
}
use ft_irc_server.Prelude.{
  ℕ, zero, suc, ◌+◌, ◌-◌, ◌<◌, ◌≤◌, ◌≡◌, sym, ap, ◌∙◌, Bool, true, false, not, List, [], ◌∷◌, ◌++◌,
  Str, arith, if◌then◌else◌, ltb, ltb→lt, ltb→le, length, erase_at, if_cases, Bool-cases, inl, inr,
}
use ft_irc_server.Server.{Server, PollFd, client_at, update_client, set_pollout, leave_chanels}

-- The step leaves as many entries, or one less where the flag says so.
abbrev pub Drops : Server → Server × Bool → Type 0
Drops s r = length r.0.fds + (if r.1 then 1 else 0) ≡ length s.fds

-- The loop's flag says the opposite.
abbrev pub Progress : Server → Server × Bool → Type 0
Progress s r = length r.0.fds + (if r.1 then 0 else 1) ≡ length s.fds

length-erase_at {ℓ} :
    {A : Type ℓ} (i : ℕ) (xs : List A) → i < length xs → length (erase_at i xs) + 1 ≡ length xs
length-erase_at i [] h = elim h [ ]
length-erase_at zero (x ∷ xs) h = omega arith
length-erase_at (suc i) (x ∷ xs) h = omega (arith, length-erase_at i xs (omega arith))

pub entries-length : (s : Server) → WellFormed s → length s.fds ≡ suc (length s.clients)
entries-length s w =
    sym (length-map (λ (p : PollFd). p.fd) s.fds)
    ∙ ap length w.entries
    ∙ ap suc (length-map (λ c. c.fd) s.clients)

pub disconnect-length :
    (i : ℕ) (s : Server) → i < length s.fds → length (disconnect i s).fds + 1 ≡ length s.fds
unfolding disconnect leave_chanels
disconnect-length i s h = length-erase_at i s.fds h

handle_user-Drops :
    (j : ℕ) (r : Received) (s : Server)
    → suc j < length s.fds
    → WellFormed s
    → Drops s (handle_user (suc j) r s)
unfolding handle_user
handle_user-Drops j (received []) s h w = disconnect-length (suc j) s h
handle_user-Drops j (received (c ∷ cs)) s h w =
    let here : j < length s.clients = omega (arith, entries-length s w) in
    omega (
      arith,
      entries-length s w,
      entries-length _ (handle_user-WellFormed j (received (c ∷ cs)) s w),
      handle_user-length j c cs s here,
    )
handle_user-Drops j recv_again s h w = omega arith
handle_user-Drops j recv_failed s h w = disconnect-length (suc j) s h

clear_pollout-length : (i : ℕ) (s : Server) → length (clear_pollout i s).fds ≡ length s.fds
clear_pollout-length i s = length-modify i (set_pollout false) s.fds

after_send-Drops : (i : ℕ) (r : Sent) (s : Server) → i < length s.fds → Drops s (after_send i r s)
unfolding after_send
after_send-Drops i (sent zero) s h = disconnect-length i s h
after_send-Drops i (sent (suc n)) s h =
    let erased = update_client (i - 1) (erase_sent (suc n)) s in
    if_cases (λ (t : Server). length t.fds + 0 ≡ length s.fds)
      (send_data (client_at erased (i - 1))) (λ _. omega arith)
      (λ _. omega (arith, clear_pollout-length i s))
after_send-Drops i send_again s h = omega arith
after_send-Drops i send_failed s h = disconnect-length i s h

handle_send-Drops :
    (i : ℕ) (answer : Str → Sent) (s : Server) → i < length s.fds → Drops s (handle_send i answer s)
unfolding handle_send
handle_send-Drops i answer s h =
    if_cases (Drops s) (not (send_data (client_at s (i - 1))))
      (λ _. omega (arith, clear_pollout-length i s))
      (λ _. after_send-Drops i (answer (client_at s (i - 1)).send_buffer) s h)

flip :
    (n m : ℕ) (gone : Bool) → n + (if gone then 1 else 0) ≡ m → n + (if not gone then 0 else 1) ≡ m
flip n m true h = h
flip n m false h = h

serve_output-Progress :
    (io : Io) (i : ℕ) (s : Server) → i < length s.fds → Progress s (serve_output io i s)
unfolding serve_output
serve_output-Progress io i s h =
    if_cases (Progress s) (is_broken (fd_at s i).revents) (λ _. disconnect-length i s h)
      λ _.
        if_cases (Progress s) (fd_at s i).revents.pollout
          (λ _. flip _ _ _ (handle_send-Drops i (io.send (fd_at s i).fd) s h)) (λ _. omega arith)

-- A client's entry is served for good, or is gone.
serve_fd-Progress :
    (io : Io) (j : ℕ) (s : Server)
    → suc j < length s.fds
    → WellFormed s
    → Progress s (serve_fd io (suc j) s)
unfolding serve_fd
serve_fd-Progress io j s h w =
    if_cases (Progress s) (is_idle (fd_at s (suc j)).revents) (λ _. omega arith)
      λ _. rw (is_listener-later j s w h) (
        if_cases (Progress s) (fd_at s (suc j)).revents.pollin
          (λ _.
            if_cases (Progress s) (handle_user (suc j) (io.recv (fd_at s (suc j)).fd) s).1
              (λ gone. ap (λ b. length heard.0.fds + (if b then 1 else 0)) (sym gone) ∙ drops)
              (λ stays.
                let same : length heard.0.fds + 0 ≡ length s.fds =
                  ap (λ b. length heard.0.fds + (if b then 1 else 0)) (sym stays) ∙ drops in
                serve_output-Progress io (suc j) heard.0 (omega arith) ∙ omega arith))
          (λ _. serve_output-Progress io (suc j) s h))
  where
    heard : Server × Bool
    heard = handle_user (suc j) (io.recv (fd_at s (suc j)).fd) s

    drops : Drops s heard
    drops = handle_user-Drops j (io.recv (fd_at s (suc j)).fd) s h w

-- The loop over the entries as the source runs it: from index `i` and a server it ends in a server,
-- after finitely many steps, with no entry left at the index.
pub data Serves (io : Io) : ℕ → Server → Server → Type 0 where
  ends : {i : ℕ} {s : Server} → length s.fds ≤ i → Serves io i s s
  serves :
      {i : ℕ} {s t : Server}
      → i < length s.fds
      → Serves io (if (serve_fd io i s).1 then suc i else i) (serve_fd io i s).0 t
      → Serves io i s t

-- Behind the listener's entry, each step brings the loop nearer to the end of the entries.
serve_from-Serves :
    (fuel : ℕ) (io : Io) (j : ℕ) (s : Server)
    → WellFormed s
    → length s.fds ≤ fuel + suc j
    → Serves io (suc j) s (serve_from fuel io (suc j) s)
unfolding serve_from
serve_from-Serves zero io j s w h = ends (omega (arith, h))
serve_from-Serves (suc fuel) io j s w h = elim (Bool-cases (ltb (suc j) (length s.fds))) [
  | inr past ↦ rw past (ends (ltb→le (suc j) (length s.fds) past))
  | inl inside ↦
      let below = ltb→lt (suc j) (length s.fds) inside in
      let step = serve_fd io (suc j) s in
      let served = serve_fd-client io j s below w in
      let near = serve_fd-Progress io j s below w in
      elim (Bool-cases step.1) [
        | inl goes_on ↦
            let same : length step.0.fds + 0 ≡ length s.fds =
              ap (λ b. length step.0.fds + (if b then 0 else 1)) (sym goes_on) ∙ near in
            let rest = serve_from-Serves fuel io (suc j) step.0 served (omega arith) in
            rw (inside, goes_on) (serves below (rw goes_on rest))
        | inr gone ↦
            let fewer : length step.0.fds + 1 ≡ length s.fds =
              ap (λ b. length step.0.fds + (if b then 0 else 1)) (sym gone) ∙ near in
            let rest = serve_from-Serves fuel io j step.0 served (omega arith) in
            rw (inside, gone) (serves below (rw gone rest))
      ]
]

connect-length : (a : Accepted) (s : Server) → length (connect a s).fds ≤ length s.fds + 1
unfolding connect
connect-length refused s = omega arith
connect-length (accepted fd false) s = omega arith
connect-length (accepted fd true) s = append_one s.fds
  where
    append_one : (ps : List PollFd) → length (ps ++ poll_entry fd ∷ []) ≤ length ps + 1
    append_one [] = omega arith
    append_one (p ∷ ps) = omega (arith, append_one ps)

listener-length :
    (io : Io) (s : Server) → WellFormed s → length (serve_fd io 0 s).0.fds ≤ length s.fds + 1
unfolding serve_fd
listener-length io s w =
    if_cases (λ (r : Server × Bool). length r.0.fds ≤ length s.fds + 1)
      (is_idle (fd_at s 0).revents) (λ _. omega arith)
      λ _. rw (is_listener-first s w) (
        if_cases (λ (t : Server). length t.fds ≤ length s.fds + 1) (fd_at s 0).revents.pollin
          (λ _. connect-length io.accept s) (λ _. omega arith))

serve_from-first :
    (fuel : ℕ) (io : Io) (s : Server)
    → Fresh io.accept s
    → WellFormed s
    → length s.fds + length s.fds ≤ fuel
    → Serves io 0 s (serve_from fuel io 0 s)
unfolding serve_from
serve_from-first zero io s fresh w h = ends (omega arith)
serve_from-first (suc fuel) io s fresh w h =
    let (served, goes_on) = serve_fd-listener io s fresh w in
    let few = listener-length io s w in
    let there = entries-length s w in
    let inside : ltb 0 (length s.fds) ≡ true = ground arith in
    let rest : Serves io 1 (serve_fd io 0 s).0 (serve_from fuel io 1 (serve_fd io 0 s).0) =
      serve_from-Serves fuel io 0 (serve_fd io 0 s).0 served (omega arith) in
    rw (inside, goes_on) (serves (omega arith) (rw goes_on rest))

-- The loop over the entries ends: for a well-formed server, if `accept` answers with no descriptor
-- that is in use, the steps of the source's loop, taken one after the other from the index 0, reach
-- the end of the entries, and the server is then that of `launch_round`.
pub launch_round-Serves :
    (io : Io) (s : Server)
    → Fresh io.accept s
    → WellFormed s
    → Serves io 0 (poll io s) (launch_round io s)
unfolding launch_round
launch_round-Serves io s fresh w =
    serve_from-first (length s.fds + length s.fds) io (poll io s) (poll-Fresh io io.accept s fresh)
      (poll-WellFormed io s w) (omega (arith, length-map (set_revents io) s.fds))
