-- ===== src/Tests.antt =====
-- Runs of the model on concrete inputs, and the theorems applied to them.
mod States
use States.{
  started, pair, joined, started-WellFormed, pair-WellFormed, joined-WellFormed, busy, answers,
  joined-HasOperator, member_of_room, room, room-WellFormed, all_succeed,
}
use ft_irc_server.Channel.Members.{has_fd}
use ft_irc_server.Client.{Client}
use ft_irc_server.Commands.Dispatch.{dispatch_command}
use ft_irc_server.Effect.Guarantees.{dispatch_command-unregistered, dispatch_command-others}
use ft_irc_server.Effect.Refines.{dispatch_command-Effect}
use ft_irc_server.Effect.{Effect, Granted}
use ft_irc_server.Network.Closing.{disconnect_rest-leaves}
use ft_irc_server.Invariant.Operators.{HasOperator, dispatch_command-HasOperator}
use ft_irc_server.Invariant.Preserved.{dispatch_command-WellFormed}
use ft_irc_server.Invariant.{
  WellFormed, UniqueNicks, nick_taken, name_taken, is_registered_fd, SessionOk, client_fds,
  poll_fds,
}
use ft_irc_server.Network.Leaving.{disconnect-WellFormed}
use ft_irc_server.Network.Rebuffer.Modes.{dispatch_command-rebuffer}
use ft_irc_server.Network.Rebuffer.{rebuffer}
use ft_irc_server.Network.Rounds.{launch_round-WellFormed}
use ft_irc_server.Network.Serving.{connect-WellFormed}
use ft_irc_server.Network.Stream.{
  handle_user_lem, handle_user-append, run_lines, lines_from, remainder_from,
}
use ft_irc_server.Int.{pos}
use ft_irc_server.Network.Startup.Runs.{Holds, rounds-construct}
use ft_irc_server.Network.Startup.{Sockets, construct, rounds, ready, interrupted}
use ft_irc_server.Network.{
  disconnect_rest, Io, accepted, received, sent, connect, disconnect, handle_user, serve_from, poll,
  launch_round, no_flags, poll_entry,
}
use ft_irc_server.Prelude.{
  length, ◌≤◌, ℕ, ◌≡◌, refl, false, not, ◌==◌, [], ◌∷◌, ◌++◌, some, Str, text, modify, arith, same,
  All,
}
use ft_irc_server.Channel.{new_channel}
use ft_irc_server.Commands.Join.{valid_channel_name, valid_channel_rest}
use ft_irc_server.Effect.Messages.{privmsg-delivers}
use ft_irc_server.Network.Gone.{Forgotten, disconnect-Forgotten}
use ft_irc_server.Network.Progress.{Serves, launch_round-Serves}
use ft_irc_server.Parser.RoundTrip.{parse-print_line, no_blanks, print_params}
use ft_irc_server.Parser.{parse}
use ft_irc_server.Server.Delivery.{broadcast-buffer, send_buffer_at}
use ft_irc_server.Server.Quiet.{quiet_client}
use ft_irc_server.Server.{Server, PollFlags, client_at, broadcast}

dispatch_command-WellFormed_example : WellFormed (dispatch_command 0 (text "MODE #a +o ann") joined)
dispatch_command-WellFormed_example =
    dispatch_command-WellFormed 0 (text "MODE #a +o ann") joined joined-WellFormed

launch_round-WellFormed_example : WellFormed (launch_round answers pair)
unfolding has_fd connect
launch_round-WellFormed_example = launch_round-WellFormed answers pair refl pair-WellFormed

disconnect-WellFormed_example : WellFormed (disconnect 1 joined)
disconnect-WellFormed_example = disconnect-WellFormed 0 joined joined-WellFormed

handle_user_lem_example : handle_user 1 (received (text "PASS secret\r\nNI")) pair ≡ (
  rebuffer 0
      (remainder_from [] (text "PASS secret\r\nNI"))
      (run_lines 0 (lines_from [] (text "PASS secret\r\nNI")) pair),
  false,
)
unfolding connect text
handle_user_lem_example = handle_user_lem 0 b'P' (text "ASS secret\r\nNI") pair (omega arith)

handle_user-append_example :
    handle_user 1 (received (text "PASS sec" ++ text "ret\r\n")) pair
    ≡ handle_user 1 (received (text "ret\r\n")) (handle_user 1 (received (text "PASS sec")) pair).0
unfolding connect text
handle_user-append_example =
    handle_user-append 0 b'P' b'r' (text "ASS sec") (text "et\r\n") pair (omega arith)

dispatch_command-rebuffer_example :
    dispatch_command 0 (text "JOIN #a") (rebuffer 1 (text "NI") joined)
    ≡ rebuffer 1 (text "NI") (dispatch_command 0 (text "JOIN #a") joined)
dispatch_command-rebuffer_example =
    dispatch_command-rebuffer 1 (text "NI") 0 (text "JOIN #a") joined

dispatch_command-unregistered_example :
    (dispatch_command 1 (text "JOIN #a") pair).channels ≡ pair.channels
unfolding connect
dispatch_command-unregistered_example = dispatch_command-unregistered 1 (text "JOIN #a") pair refl

dispatch_command-others_example :
    quiet_client (client_at (dispatch_command 0 (text "KICK #a ann") joined) 1)
    ≡ quiet_client (client_at joined 1)
dispatch_command-others_example =
    dispatch_command-others 1 0 (text "KICK #a ann") joined (λ e. ground arith)

dispatch_command-HasOperator_example :
    All HasOperator (dispatch_command 0 (text "MODE #a -o ann") joined).channels
dispatch_command-HasOperator_example =
    dispatch_command-HasOperator 0 (text "MODE #a -o ann") joined joined-WellFormed
      joined-HasOperator

parse-print_line_example :
    parse (text "TOPIC #a :all about it")
    ≡ record { prefix = []; cmd = text "TOPIC"; params = text "#a" ∷ text "all about it" ∷ [] }
unfolding text no_blanks print_params
parse-print_line_example =
    parse-print_line (text "TOPIC") (text "#a" ∷ []) (text "all about it") refl (refl, tt)

disconnect-Forgotten_example :
    (has_fd 4 (client_fds (disconnect 1 pair)) ≡ false)
    × (has_fd 4 (poll_fds (disconnect 1 pair)) ≡ false)
    × All (Forgotten 4) (disconnect 1 pair).channels
unfolding connect
disconnect-Forgotten_example = disconnect-Forgotten 0 pair pair-WellFormed (omega arith)

broadcast-buffer_example :
    send_buffer_at (broadcast (4 ∷ 5 ∷ []) (λ fd. not (fd == 4)) (text "hello") room) 1
    ≡ send_buffer_at room 1 ++ text "hello"
unfolding has_fd text
broadcast-buffer_example =
    broadcast-buffer (4 ∷ 5 ∷ []) 1 (λ fd. not (fd == 4)) (text "hello") room (refl, (refl, tt))
      (omega arith) refl

privmsg-delivers_example :
    send_buffer_at (dispatch_command 0 (text "PRIVMSG #a :hi bob") room) 1
    ≡ text ":ann PRIVMSG #a :hi bob\r\n"
unfolding has_fd text same no_blanks print_params
privmsg-delivers_example =
    privmsg-delivers 0 0 1 (text "#a") (text "hi bob") room room-WellFormed refl refl refl refl refl
      refl (omega arith)

rounds-construct_example : Holds WellFormed (rounds (ready answers ∷ interrupted ∷ []) started)
unfolding has_fd
rounds-construct_example =
    rounds-construct (pos 6667) (text "secret") all_succeed (ready answers ∷ interrupted ∷ [])
      started (unfold construct in refl) (refl, tt)

dispatch_command-Effect_example :
    Effect 0 (parse (text "KICK #a ann")) joined (dispatch_command 0 (text "KICK #a ann") joined)
dispatch_command-Effect_example = dispatch_command-Effect 0 (text "KICK #a ann") joined

launch_round-Serves_example : Serves answers 0 (poll answers pair) (launch_round answers pair)
unfolding has_fd connect
launch_round-Serves_example = launch_round-Serves answers pair refl pair-WellFormed

disconnect_rest-leaves_example :
    (poll_fds (disconnect_rest 3 room) ≡ 3 ∷ [])
    × ((disconnect_rest 3 room).clients ≡ [])
    × ((disconnect_rest 3 room).channels ≡ [])
disconnect_rest-leaves_example = disconnect_rest-leaves 3 room room-WellFormed refl
