-- ===== src/Lib.antt =====
-- ft_irc_server: an IRC server in C++98 with one thread, one `poll` loop and no files.
--
-- The program's parts, and the files that model them:
--   * includes/Client.hpp, srcs/Client.cpp: a connected client. Client.antt has the record and the
--     setters; a getter is a field.
--   * includes/Channel.hpp, srcs/Channel.cpp: a channel. Channel.antt has the record and the
--     methods; Channel/Members.antt the loops over descriptors that they share.
--   * srcs/commands/replayCmd.cpp: the numeric replies (Reply.antt).
--   * srcs/parsser/Parser.cpp: a line as a message (Parser.antt).
--   * includes/Server.hpp and the parts of srcs/Server.cpp that commands call: Server.antt has the
--     server's record, `sending_queue` and `leave_chanels`.
--   * srcs/commands and srcs/modes: one handler for each command, one function for each mode, in
--     the files of Commands/ and Commands/Modes/ of the same names; the dispatcher is
--     Commands/Dispatch.antt. A handler takes the index of the client that sent the line, the
--     message and the server, and returns the server.
--   * the rest of srcs/Server.cpp: Network.antt has `connect`, `disconnect`, `handle_user`,
--     `extract_msg`, `handle_send`, a round of the loop of `launch`, and `shutdown`.
--     Network/Startup.antt has the constructor and `launch` over its rounds.
-- The loop calls `handle_user`, which cuts lines off the receive buffer; each line goes through the
-- parser and the dispatcher to a handler, which changes clients and channels and appends replies to
-- send buffers; `handle_send` empties these.
--
-- How the model stands for the code. A `Client &` and a `Channel *` are the index in the vector, so
-- that what one handler writes through a reference is seen through every other. Strings are lists
-- of bytes. A descriptor is a natural number; the one of the listening socket is `none` where the
-- source has -1. The member limit is a C++ `int` of 32 bits, and `std::atoi` is that of the GNU C
-- library on 64 bits (Int.antt, Commands/Modes/Limit.antt). The answers of `accept`, `fcntl`,
-- `recv`, `send` and `poll` are arguments, one record `Io` for a round of the loop.
--
-- Fuel. `params_loop` reads at least a byte in a round and has the length of the line and one more;
-- `extract_loop` takes at least a newline and has the length of the buffer and one more;
-- `launch_round` serves or removes an entry in each step, and the one entry that it may add comes
-- from the listening socket, which is served once: it has twice the number of entries;
-- `disconnect_rest` removes an entry in each step.
--
-- The other files are proofs. Effect.antt states as data types of abstract transitions what a
-- message is granted (`Granted`) and what a command may do (`Effect`); Effect/ is about the handlers
-- against these. Invariant.antt says when a server is well
-- formed; the theorems on that are in Invariant/ for commands and in Network/ for the event loop.
-- Network/Stream.antt is about the cutting of the stream into lines, Network/Progress.antt about the
-- steps of a round, Network/Gone.antt and Network/Closing.antt about what a disconnect and the
-- shutdown leave; Effect/Registration.antt, Server/Delivery.antt and Effect/Messages.antt are about
-- who is registered and who is sent what, Parser/RoundTrip.antt about what the parser reads back.
-- Tests.antt has concrete runs.
--
-- Not modelled: `main`, the signal handler and the destructor; the console output; the farewell that
-- `shutdown` sends past the send buffers; and the client script testing.py. A run ends where the
-- list of the answers of `poll` ends, which is where the signal handler has set the flag.
pub mod Prelude
pub mod Int
pub mod Client
pub mod Channel
pub mod Reply
pub mod Parser
pub mod Server
pub mod Commands
pub mod Network
pub mod Effect
pub mod Invariant
pub mod Tests
