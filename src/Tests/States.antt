-- ===== src/Tests/States.antt =====
-- Concrete servers, and answers of the system calls, for the tests.
use ft_irc_server.Channel.Members.{has_fd}
use ft_irc_server.Client.{Client, new_client}
use ft_irc_server.Commands.Dispatch.{dispatch_command}
use ft_irc_server.Commands.Nick.{check_nick_valid, check_nick_rest, check_specail_char, occurs_in}
use ft_irc_server.Invariant.Operators.{HasOperator, dispatch_command-HasOperator}
use ft_irc_server.Invariant.Preserved.{dispatch_command-WellFormed}
use ft_irc_server.Invariant.{WellFormed, nick_taken, name_taken, is_registered_fd, SessionOk}
use ft_irc_server.Network.Serving.{connect-WellFormed}
use ft_irc_server.Network.Startup.{Sockets}
use ft_irc_server.Network.{Io, accepted, received, sent, connect, no_flags, poll_entry}
use ft_irc_server.Prelude.{ℕ, ◌≡◌, refl, true, [], ◌∷◌, some, Str, text, arith, same, All}
use ft_irc_server.Channel.{new_channel}
use ft_irc_server.Commands.Join.{valid_channel_name, valid_channel_rest}
use ft_irc_server.Server.{Server, PollFlags}

-- The server after its constructor and `init`, and with two clients.
abbrev pub started : Server
started = record {
  fd = some 3;
  port = 6667;
  passwd = text "secret";
  loaded = true;
  fds = poll_entry 3 ∷ [];
  clients = [];
  channels = [];
}

abbrev pub pair : Server
pair = connect (accepted 5 true) (connect (accepted 4 true) started)

-- The first client has registered and opened a channel.
abbrev pub joined : Server
joined = dispatch_command 0 (text "JOIN #a") (
    dispatch_command 0 (text "USER ann 0 * :Ann")
      (dispatch_command 0 (text "NICK ann") (dispatch_command 0 (text "PASS secret") pair)))

pub started-WellFormed : WellFormed started
unfolding has_fd
started-WellFormed = record {
  listen_fd = 3;
  listens = refl;
  entries = refl;
  entries_once = (refl, tt);
  sessions = tt;
  nicks = tt;
  channels_ok = tt;
  names = tt;
  members = tt;
}

pub pair-WellFormed : WellFormed pair
unfolding has_fd connect
pair-WellFormed =
    connect-WellFormed (accepted 5 true) (connect (accepted 4 true) started) refl
      (connect-WellFormed (accepted 4 true) started refl started-WellFormed)

pub joined-WellFormed : WellFormed joined
joined-WellFormed = dispatch_command-WellFormed 0 (text "JOIN #a") _ (
    dispatch_command-WellFormed 0 (text "USER ann 0 * :Ann") _ (
      dispatch_command-WellFormed 0 (text "NICK ann") _
        (dispatch_command-WellFormed 0 (text "PASS secret") pair pair-WellFormed)))

-- Everybody can write, the listening socket reports a client, and the others have sent a line.
abbrev pub busy : PollFlags
busy = record no_flags { pollin = true; pollout = true }

abbrev pub answers : Io
answers = record {
  revents = λ fd. busy;
  accept = accepted 6 true;
  recv = λ fd. received (text "PASS secret\r\nNICK bob\r\n");
  send = λ fd message. sent 4;
}

pub joined-HasOperator : All HasOperator joined.channels
joined-HasOperator =
    dispatch_command-HasOperator 0 (text "JOIN #a") _
      (dispatch_command-WellFormed 0 (text "USER ann 0 * :Ann") _ (
        dispatch_command-WellFormed 0 (text "NICK ann") _
          (dispatch_command-WellFormed 0 (text "PASS secret") pair pair-WellFormed)))
      (dispatch_command-HasOperator 0 (text "USER ann 0 * :Ann") _
        (dispatch_command-WellFormed 0 (text "NICK ann") _
          (dispatch_command-WellFormed 0 (text "PASS secret") pair pair-WellFormed))
        (dispatch_command-HasOperator 0 (text "NICK ann") _
          (dispatch_command-WellFormed 0 (text "PASS secret") pair pair-WellFormed)
          (dispatch_command-HasOperator 0 (text "PASS secret") pair pair-WellFormed
            (unfold connect in tt))))

-- Two registered clients in one channel.
abbrev pub member_of_room : ℕ → Str → Client
member_of_room fd nick = record (new_client fd) {
  nickname = nick;
  pass_recived = true;
  nickname_received = true;
  user_recived = true;
  registered = true;
}

abbrev pub room : Server
room = record started {
  fds = poll_entry 3 ∷ poll_entry 4 ∷ poll_entry 5 ∷ [];
  clients = member_of_room 4 (text "ann") ∷ member_of_room 5 (text "bob") ∷ [];
  channels =
      record (new_channel (text "#a")) { member_fds = 4 ∷ 5 ∷ []; operator_fds = 4 ∷ [] } ∷ [];
}

pub room-WellFormed : WellFormed room
unfolding has_fd nick_taken name_taken is_registered_fd same text check_nick_valid check_nick_rest
    check_specail_char occurs_in valid_channel_name valid_channel_rest
room-WellFormed = record {
  listen_fd = 3;
  listens = refl;
  entries = refl;
  entries_once = (refl, (refl, (refl, tt)));
  sessions = (session 4 (text "ann") refl, (session 5 (text "bob") refl, tt));
  nicks = ((λ named. refl), ((λ named. refl), tt));
  channels_ok = (
    record {
      members_once = (refl, (refl, tt));
      operators_once = (refl, tt);
      invited_once = tt;
      operators_in = λ fd h. ground arith;
      inhabited = refl;
      name_valid = refl;
    },
    tt,
  );
  names = (refl, tt);
  members = (
    record { members_registered = λ fd h. ground arith; invited_connected = λ fd h. ground arith },
    tt,
  );
}
  where
    session :
        (fd : ℕ) (nick : Str) → check_nick_valid nick ≡ true → SessionOk (member_of_room fd nick)
    session fd nick valid = record {
      complete = refl;
      nick_after_pass = λ e. refl;
      user_after_pass = λ e. refl;
      nick_valid = λ e. valid;
      nick_empty = λ e. cc;
    }

abbrev pub all_succeed : Sockets
all_succeed = record {
  socket = some 3;
  setsockopt = true;
  fcntl = true;
  bind = true;
  listen = true;
}
