-- ===== src/Commands/Dispatch.antt =====
-- srcs/commands/CommandDispatcher.cpp
use ft_irc_server.Commands.Common.{reply}
use ft_irc_server.Commands.Invite.{invite_handler}
use ft_irc_server.Commands.Join.{join_handler}
use ft_irc_server.Commands.Kick.{kick_handler}
use ft_irc_server.Commands.Modes.{modes}
use ft_irc_server.Commands.Nick.{nick_hundler}
use ft_irc_server.Commands.Pass.{pass_hundler}
use ft_irc_server.Commands.Privmsg.{privmsg_handler}
use ft_irc_server.Commands.Topic.{topic_handler}
use ft_irc_server.Commands.User.{user_handler}
use ft_irc_server.Parser.{Message, parse}
use ft_irc_server.Prelude.{ℕ, ◌-◌, map, not, ◌&&◌, Str, text, same, is_empty, leb, if◌then◌else◌}
use ft_irc_server.Server.{Server}

-- `std::toupper` in the "C" locale.
abbrev pub toupper : ℕ → ℕ
toupper c = if leb b'a' c && leb c b'z' then c - 32 else c

-- The chain of tests on the command's name.
unfoldable pub dispatch_message : Str → ℕ → Message → Server → Server
dispatch_message command k m s =
    if same command (text "PASS")
    then pass_hundler k m s
    else if same command (text "NICK")
    then nick_hundler k m s
    else if same command (text "USER")
    then user_handler k m s
    else if same command (text "JOIN")
    then join_handler k m s
    else if same command (text "PRIVMSG")
    then privmsg_handler k m s
    else if same command (text "TOPIC")
    then topic_handler k m s
    else if same command (text "KICK")
    then kick_handler k m s
    else if same command (text "INVITE")
    then invite_handler k m s
    else if same command (text "MODE")
    then modes k m s
    else if not (is_empty command)
    then reply k 421 command s
    else s

unfoldable pub dispatch_command : ℕ → Str → Server → Server
unfolding dispatch_message
dispatch_command k line s =
    let message = parse line in dispatch_message (map toupper message.cmd) k message s
