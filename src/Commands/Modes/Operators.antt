-- ===== src/Commands/Modes/Operators.antt =====
-- srcs/modes/operator.cpp: the mode `o`.
use ft_irc_server.Channel.{has_member, is_operator, add_operator, remove_operator}
use ft_irc_server.Commands.Common.{reply, first_client}
use ft_irc_server.Commands.Modes.Flags.{announce}
use ft_irc_server.Parser.{Message, param}
use ft_irc_server.Prelude.{
  ℕ, Bool, true, false, not, ◌&&◌, ◌++◌, text, same, length, ltb, ◌==◌, if◌then◌else◌, on_found,
}
use ft_irc_server.Server.{Server, client_at, channel_at, update_channel, sending_queue}

-- `+o` and `-o` for the member with this descriptor.
unfoldable pub change_operator : ℕ → Message → ℕ → ℕ → Server → Server
change_operator k m i target s =
    let ch = channel_at s i in
    let change = param m 1 ++ text " " ++ param m 2 in
    if same (param m 1) (text "+o")
    then if is_operator target ch
      then s
      else announce k i change (update_channel i (add_operator target) s)
    else if not (is_operator target ch)
    then s
    else if length ch.operator_fds == 1
    then sending_queue k
        (text ":ircserv NOTICE "
          ++ (client_at s k).nickname
          ++ text " :You cannot remove the last channel operator\r\n")
        s
    else announce k i change (update_channel i (remove_operator target) s)

unfoldable pub operators : ℕ → Message → ℕ → Server → Bool × Server
unfolding change_operator
operators k m i s =
    let mode = param m 1 in
    let user_nick = param m 2 in
    if not (same mode (text "+o")) && not (same mode (text "-o"))
    then (false, s)
    else if ltb (length m.params) 3
    then (true, reply k 461 (text "MODE") s)
    else (
      true,
      on_found (first_client user_nick s) (reply k 401 user_nick s) (λ j.
          if not (has_member (client_at s j).fd (channel_at s i))
          then reply k 441 (user_nick ++ text " " ++ (channel_at s i).name) s
          else change_operator k m i (client_at s j).fd s),
    )
