-- ===== src/Commands/Pass.antt =====
-- srcs/commands/pass.cpp
use ft_irc_server.Client.{set_pass_is_recived}
use ft_irc_server.Commands.Common.{reply}
use ft_irc_server.Parser.{Message, param}
use ft_irc_server.Prelude.{ℕ, true, text, same, is_empty, if◌then◌else◌}
use ft_irc_server.Server.{Server, client_at, update_client}

unfoldable pub pass_hundler : ℕ → Message → Server → Server
pass_hundler k m s =
    if (client_at s k).registered
    then reply k 462 (text "PASS") s
    else if is_empty m.params
    then reply k 461 (text "PASS") s
    else if same s.passwd (param m 0)
    then update_client k (set_pass_is_recived true) s
    else reply k 464 (text "PASS") s
