-- ===== src/Network/Startup/Runs.antt =====
-- Every run of the server, from its constructor on.
use ft_irc_server.Channel.Members.{has_fd}
use ft_irc_server.Int.{ℤ, pos, negsuc}
use ft_irc_server.Invariant.{WellFormed}
use ft_irc_server.Network.Rounds.{launch_round-WellFormed}
use ft_irc_server.Network.Serving.{Fresh}
use ft_irc_server.Network.Startup.{
  Sockets, Outcome, throws, goes_on, Polled, interrupted, broken, ready, construct, rounds, opened,
  poll_setup, new_server, and_then, set_up, listening,
}
use ft_irc_server.Network.{launch_round}
use ft_irc_server.Prelude.{
  ℕ, ◌≡◌, refl, not, ◌||◌, List, [], ◌∷◌, none, some, Option, Str, ltb, if_cases, subst,
}
use ft_irc_server.Server.{Server}

-- What holds of the server, if there is one.
abbrev pub Holds : (Server → Type 0) → Outcome → Type 0
Holds P (throws e) = Unit
Holds P (goes_on s) = P s

fresh-WellFormed :
    (fd port : ℕ) (passwd : Str)
    → WellFormed (poll_setup (some fd) (record (new_server port passwd) { fd = some fd }))
unfolding has_fd
fresh-WellFormed fd port passwd = record {
  listen_fd = fd;
  listens = refl;
  entries = refl;
  entries_once = (refl, tt);
  sessions = tt;
  nicks = tt;
  channels_ok = tt;
  names = tt;
  members = tt;
}

set_up-WellFormed :
    (fd port : ℕ) (passwd : Str) (sockets : Sockets)
    → Holds WellFormed (set_up sockets (record (new_server port passwd) { fd = some fd }))
set_up-WellFormed fd port passwd sockets =
    if_cases
      (λ (r : Outcome).
        Holds WellFormed
          (and_then r λ s. and_then (listening sockets s) λ s. goes_on (poll_setup s.fd s)))
      (not sockets.bind) (λ _. tt)
      λ _.
        if_cases (λ (r : Outcome). Holds WellFormed (and_then r λ s. goes_on (poll_setup s.fd s)))
          (not sockets.listen) (λ _. tt) (λ _. fresh-WellFormed fd port passwd)

construct-WellFormed :
    (port : ℤ) (passwd : Str) (sockets : Sockets) → Holds WellFormed (construct port passwd sockets)
unfolding construct
construct-WellFormed (negsuc n) passwd sockets = tt
construct-WellFormed (pos port) passwd sockets =
    if_cases (Holds WellFormed) (ltb port 1 || ltb 65535 port) (λ _. tt)
      (λ _. with_socket sockets.socket)
  where
    with_socket :
        (o : Option ℕ)
        → Holds WellFormed (and_then (opened o sockets (new_server port passwd)) (set_up sockets))
    with_socket none = tt
    with_socket (some fd) =
        if_cases (λ (r : Outcome). Holds WellFormed (and_then r (set_up sockets)))
          (not sockets.setsockopt) (λ _. tt)
          λ _.
            if_cases (λ (r : Outcome). Holds WellFormed (and_then r (set_up sockets)))
              (not sockets.fcntl) (λ _. tt) λ _. set_up-WellFormed fd port passwd sockets

-- No round is given a descriptor that is in use.
abbrev pub FreshRun : List Polled → Server → Type 0
FreshRun [] s = Unit
FreshRun (interrupted ∷ polled) s = FreshRun polled s
FreshRun (broken ∷ polled) s = Unit
FreshRun (ready io ∷ polled) s = Fresh io.accept s × FreshRun polled (launch_round io s)

rounds-WellFormed :
    (polled : List Polled) (s : Server)
    → FreshRun polled s
    → WellFormed s
    → Holds WellFormed (rounds polled s)
unfolding rounds
rounds-WellFormed [] s fresh w = w
rounds-WellFormed (interrupted ∷ polled) s fresh w = rounds-WellFormed polled s fresh w
rounds-WellFormed (broken ∷ polled) s fresh w = tt
rounds-WellFormed (ready io ∷ polled) s fresh w =
    rounds-WellFormed polled (launch_round io s) fresh.1 (launch_round-WellFormed io s fresh.0 w)

-- Every run: a server that the constructor makes is well formed after any number of rounds of the
-- loop of `launch`, if in no round `accept` answers with a descriptor that is in use; the run may
-- also end with an exception.
pub rounds-construct :
    (port : ℤ) (passwd : Str) (sockets : Sockets) (polled : List Polled) (s : Server)
    → construct port passwd sockets ≡ goes_on s
    → FreshRun polled s
    → Holds WellFormed (rounds polled s)
rounds-construct port passwd sockets polled s made fresh =
    rounds-WellFormed polled s fresh
      (subst (Holds WellFormed) made (construct-WellFormed port passwd sockets))
