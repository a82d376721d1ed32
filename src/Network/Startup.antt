-- ===== src/Network/Startup.antt =====
-- The constructor of `Server` with the socket calls it makes, and the loop of `launch` over its
-- rounds. The answers of the system calls are arguments; `std::signal` is left out, and the end
-- of a list of rounds is where the signal handler has set `_shutdown`.
pub mod Runs
use ft_irc_server.Int.{ℤ, pos, negsuc}
use ft_irc_server.Network.{Io, poll_entry, launch_round, shutdown}
use ft_irc_server.Prelude.{
  ℕ, Bool, true, false, not, ◌||◌, List, [], ◌∷◌, ◌++◌, Option, none, some, Str, ltb, if◌then◌else◌,
}
use ft_irc_server.Server.{Server}

-- What the constructor and `launch` throw.
pub data ServerError : Type 0 where
  invalid_port : ServerError
  open_failed : ServerError
  option_failed : ServerError
  fcntl_failed : ServerError
  binding_failed : ServerError
  listening_failed : ServerError
  poll_failed : ServerError

pub data Outcome : Type 0 where
  throws : ServerError → Outcome
  goes_on : Server → Outcome

abbrev pub and_then : Outcome → (Server → Outcome) → Outcome
and_then (throws e) f = throws e
and_then (goes_on s) f = f s

-- The descriptor that `socket` answers with, and whether each of the other calls succeeds.
pub record Sockets : Type 0 where
  pub socket : Option ℕ
  pub setsockopt : Bool
  pub fcntl : Bool
  pub bind : Bool
  pub listen : Bool

-- The members before the body of the constructor.
abbrev pub new_server : ℕ → Str → Server
new_server port passwd = record {
  fd = none;
  port = port;
  passwd = passwd;
  loaded = true;
  fds = [];
  clients = [];
  channels = [];
}

-- What follows the call of `socket`.
abbrev pub opened : Option ℕ → Sockets → Server → Outcome
opened none sockets s = throws open_failed
opened (some fd) sockets s =
    if not sockets.setsockopt
    then throws option_failed
    else if not sockets.fcntl
    then throws fcntl_failed
    else goes_on (record s { fd = some fd })

abbrev pub open_socket : Sockets → Server → Outcome
open_socket sockets s = opened sockets.socket sockets s

abbrev pub binding : Sockets → Server → Outcome
binding sockets s = if not sockets.bind then throws binding_failed else goes_on s

abbrev pub listening : Sockets → Server → Outcome
listening sockets s = if not sockets.listen then throws listening_failed else goes_on s

-- `fds.push_back(listen_socket)`; it is called only where there is a descriptor.
abbrev pub poll_setup : Option ℕ → Server → Server
poll_setup none s = s
poll_setup (some fd) s = record s { fds = s.fds ++ poll_entry fd ∷ [] }

-- The rest of the constructor, once the socket is open.
abbrev pub set_up : Sockets → Server → Outcome
set_up sockets s =
    and_then (binding sockets s)
      λ s. and_then (listening sockets s) λ s. goes_on (poll_setup s.fd s)

-- The constructor, for a port that is an `int`.
unfoldable pub construct : ℤ → Str → Sockets → Outcome
construct (negsuc n) passwd sockets = throws invalid_port
construct (pos port) passwd sockets =
    if ltb port 1 || ltb 65535 port
    then throws invalid_port
    else and_then (open_socket sockets (new_server port passwd)) (set_up sockets)

-- The answer of `poll`: `EINTR`, any other error, or what the round then sees.
pub data Polled : Type 0 where
  interrupted : Polled
  broken : Polled
  ready : Io → Polled

-- The loop of `launch`, up to where the signal handler stops it.
unfoldable pub rounds : List Polled → Server → Outcome
rounds [] s = goes_on s
rounds (interrupted ∷ polled) s = rounds polled s
rounds (broken ∷ polled) s = throws poll_failed
rounds (ready io ∷ polled) s = rounds polled (launch_round io s)

unfoldable pub launch : List Polled → Server → Outcome
unfolding rounds
launch polled s = and_then (rounds polled s) λ t. goes_on (shutdown t)
