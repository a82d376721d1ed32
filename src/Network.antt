-- ===== src/Network.antt =====
-- The network side of srcs/Server.cpp. What the system calls answer (`accept`, `fcntl`, `recv`,
-- `send`, `poll`) is an argument; the console output is left out.
pub mod Lines
pub mod Leaving
pub mod Serving
pub mod Rounds
pub mod Rebuffer
pub mod Stream
pub mod Progress
pub mod Gone
pub mod Startup
pub mod Closing
use Lines.{cut_line, chop_return}
use ft_irc_server.Client.{Client, new_client, append_buff, send_data}
use ft_irc_server.Commands.Dispatch.{dispatch_command}
use ft_irc_server.Prelude.{
  ℕ, zero, suc, ◌-◌, ◌+◌, Bool, true, false, List, [], ◌∷◌, ◌++◌, map, not, ◌||◌, Option, none,
  some, Str, ltb, ◌==◌, if◌then◌else◌, on_found, length, get_elem?, get_or, modify, erase_at,
}
use ft_irc_server.Server.{
  Server, PollFd, PollFlags, client_at, update_client, set_pollout, leave_chanels,
}

abbrev pub no_flags : PollFlags
no_flags = record {
  pollin = false;
  pollout = false;
  pollerr = false;
  pollhup = false;
  pollnval = false;
}

-- `fds[i]`.
abbrev pub fd_at : Server → ℕ → PollFd
fd_at s i = get_or s.fds i (record { fd = 0; events = no_flags; revents = no_flags })

-- The answer of `accept`, and whether `fcntl` then made the descriptor non-blocking.
pub data Accepted : Type 0 where
  refused : Accepted
  accepted : ℕ → Bool → Accepted

-- The entry for a new descriptor: it waits for input.
abbrev pub poll_entry : ℕ → PollFd
poll_entry fd = record { fd = fd; events = record no_flags { pollin = true }; revents = no_flags }

unfoldable pub connect : Accepted → Server → Server
connect refused s = s
connect (accepted fd_client false) s = s
connect (accepted fd_client true) s = record s {
  fds = s.fds ++ poll_entry fd_client ∷ [];
  clients = s.clients ++ new_client fd_client ∷ [];
}

unfoldable pub disconnect : ℕ → Server → Server
disconnect i s =
    let left = leave_chanels (fd_at s i).fd s in
    record left { fds = erase_at i left.fds; clients = erase_at (i - 1) left.clients }

-- `buffer.erase(...)` on the receive buffer of `clients[k]`.
abbrev pub set_buffer : Str → Client → Client
set_buffer rest c = record c { buffer = rest }

-- The loop of `extract_msg` for `clients[k]`. Each round takes a newline at least out of the
-- buffer, and no command puts one back, so its length is enough fuel.
unfoldable pub extract_loop : ℕ → ℕ → Server → Server
extract_loop zero k s = s
extract_loop (suc fuel) k s = on_found (cut_line (client_at s k).buffer) s (λ cut.
    extract_loop fuel k
      (dispatch_command k (chop_return cut.0) (update_client k (set_buffer cut.1) s)))

unfoldable pub extract_msg : ℕ → Server → Server
extract_msg i s = extract_loop (suc (length (client_at s (i - 1)).buffer)) (i - 1) s

-- The answer of `recv`: the bytes read, none of them at the end of the stream; `EAGAIN` or
-- `EWOULDBLOCK`; any other error.
pub data Received : Type 0 where
  received : Str → Received
  recv_again : Received
  recv_failed : Received

unfoldable pub handle_user : ℕ → Received → Server → Server × Bool
unfolding extract_msg disconnect
handle_user i (received []) s = (disconnect i s, true)
handle_user i (received (c ∷ cs)) s =
    (extract_msg i (update_client (i - 1) (append_buff (c ∷ cs)) s), false)
handle_user i recv_again s = (s, false)
handle_user i recv_failed s = (disconnect i s, true)

-- The answer of `send`: the number of bytes taken; `EAGAIN` or `EWOULDBLOCK`; any other error.
pub data Sent : Type 0 where
  sent : ℕ → Sent
  send_again : Sent
  send_failed : Sent

-- `buffer.erase(0, bytes)`.
unfoldable pub drop : ℕ → Str → Str
drop zero s = s
drop (suc n) [] = []
drop (suc n) (c ∷ cs) = drop n cs

abbrev pub erase_sent : ℕ → Client → Client
erase_sent bytes c = record c { send_buffer = drop bytes c.send_buffer }

-- `fds[i].events &= ~POLLOUT`.
abbrev pub clear_pollout : ℕ → Server → Server
clear_pollout i s = record s { fds = modify i (set_pollout false) s.fds }

-- What follows the call of `send`.
unfoldable pub after_send : ℕ → Sent → Server → Server × Bool
unfolding drop disconnect
after_send i (sent zero) s = (disconnect i s, true)
after_send i (sent (suc n)) s =
    let erased = update_client (i - 1) (erase_sent (suc n)) s in
    (if send_data (client_at erased (i - 1)) then erased else clear_pollout i erased, false)
after_send i send_again s = (s, false)
after_send i send_failed s = (disconnect i s, true)

-- The answer may depend on what is sent.
unfoldable pub handle_send : ℕ → (Str → Sent) → Server → Server × Bool
unfolding after_send
handle_send i answer s =
    if not (send_data (client_at s (i - 1)))
    then (clear_pollout i s, false)
    else after_send i (answer (client_at s (i - 1)).send_buffer) s

-- The answers of the system calls in one round of the loop of `launch`. A descriptor is served once
-- in a round, so that an answer for each is all that a round can ask for.
pub record Io : Type 0 where
  pub revents : ℕ → PollFlags
  pub accept : Accepted
  pub recv : ℕ → Received
  pub send : ℕ → Str → Sent

abbrev pub is_idle : PollFlags → Bool
is_idle f = not (f.pollin || f.pollout || f.pollerr || f.pollhup || f.pollnval)

abbrev pub is_broken : PollFlags → Bool
is_broken f = f.pollerr || f.pollhup || f.pollnval

-- `fds[i].fd == this->fd`.
abbrev pub is_listener : Option ℕ → ℕ → Bool
is_listener none fd = false
is_listener (some listen_fd) fd = fd == listen_fd

-- The last two tests on a client's entry; the flag is `true` where the loop goes on to `i + 1`.
unfoldable pub serve_output : Io → ℕ → Server → Server × Bool
unfolding handle_send disconnect
serve_output io i s =
    if is_broken (fd_at s i).revents
    then (disconnect i s, false)
    else if (fd_at s i).revents.pollout
    then (let (t, gone) = handle_send i (io.send (fd_at s i).fd) s in (t, not gone))
    else (s, true)

-- The body of the loop over the entries.
unfoldable pub serve_fd : Io → ℕ → Server → Server × Bool
unfolding serve_output handle_user connect
serve_fd io i s =
    let p = fd_at s i in
    if is_idle p.revents
    then (s, true)
    else if is_listener s.fd p.fd
    then (if p.revents.pollin then connect io.accept s else s, true)
    else if p.revents.pollin
    then (let (t, gone) = handle_user i (io.recv p.fd) s in
        if gone then (t, false) else serve_output io i t)
    else serve_output io i s

-- The loop over the entries, from index `i` on.
unfoldable pub serve_from : ℕ → Io → ℕ → Server → Server
unfolding serve_fd
serve_from zero io i s = s
serve_from (suc fuel) io i s =
    if ltb i (length s.fds)
    then (let step = serve_fd io i s in serve_from fuel io (if step.1 then suc i else i) step.0)
    else s

-- What `poll` writes.
abbrev pub set_revents : Io → PollFd → PollFd
set_revents io p = record p { revents = io.revents p.fd }

abbrev pub poll : Io → Server → Server
poll io s = record s { fds = map (set_revents io) s.fds }

-- One round of the loop of `launch`, behind a `poll` that succeeds. Each step serves an entry for
-- good or removes one, and the only entry that can add one is that of the listening socket.
unfoldable pub launch_round : Io → Server → Server
unfolding serve_from
launch_round io s = serve_from (length s.fds + length s.fds) io 0 (poll io s)

-- `while (fds.size() > 1) disconnect(1)`.
unfoldable pub disconnect_rest : ℕ → Server → Server
unfolding disconnect
disconnect_rest zero s = s
disconnect_rest (suc fuel) s =
    let rest = disconnect_rest fuel (disconnect 1 s) in if ltb 1 (length s.fds) then rest else s

unfoldable pub shutdown : Server → Server
unfolding disconnect_rest
shutdown s = record (disconnect_rest (length s.fds) s) {
  channels = [];
  clients = [];
  fds = [];
  fd = none;
}
