-- ===== src/Reply.antt =====
-- srcs/commands/replayCmd.cpp: the text of a numeric reply.
use ft_irc_server.Client.{Client}
use ft_irc_server.Prelude.{ℕ, [], ◌++◌, Str, text, ◌==◌, if◌then◌else◌}

unfoldable pub reply_cmd : ℕ → Client → Str → Str
reply_cmd code c cmd =
    if code == 1
    then text ":ircserv 001 "
      ++ c.nickname
      ++ text " :Welcome to the Internet Relay Network "
      ++ c.nickname
      ++ text "\r\n"
    else if code == 331
    then text ":ircserv 331 " ++ c.nickname ++ text " " ++ cmd ++ text " :No topic is set\r\n"
    else if code == 332
    then text ":ircserv 332 " ++ c.nickname ++ text " " ++ cmd ++ text " :Topic\r\n"
    else if code == 341
    then text ":ircserv 341 " ++ c.nickname ++ text " " ++ cmd ++ text " :Inviting\r\n"
    else if code == 353
    then text ":ircserv 353 " ++ c.nickname ++ text " " ++ cmd ++ text " :Names\r\n"
    else if code == 366
    then text ":ircserv 366 " ++ c.nickname ++ text " " ++ cmd ++ text " :End of /NAMES list\r\n"
    else if code == 324
    then text ":ircserv 324 " ++ c.nickname ++ text " " ++ cmd ++ text " :Channel mode\r\n"
    else if code == 401
    then text ":ircserv 401 " ++ c.nickname ++ text " " ++ cmd ++ text " :No such nick/channel\r\n"
    else if code == 403
    then text ":ircserv 403 " ++ c.nickname ++ text " " ++ cmd ++ text " :No such channel\r\n"
    else if code == 404
    then text ":ircserv 404 "
      ++ c.nickname
      ++ text " "
      ++ cmd
      ++ text " :Cannot send to channel\r\n"
    else if code == 421
    then text ":ircserv 421 " ++ c.nickname ++ text " " ++ cmd ++ text " :Unknown command\r\n"
    else if code == 431
    then text ":ircserv 431 " ++ c.nickname ++ text " :No nickname given\r\n"
    else if code == 432
    then text ":ircserv 432 " ++ c.nickname ++ text " " ++ cmd ++ text " :Erroneous nickname\r\n"
    else if code == 433
    then text ":ircserv 433 "
      ++ c.nickname
      ++ text " "
      ++ cmd
      ++ text " :Nickname is already in use\r\n"
    else if code == 441
    then text ":ircserv 441 "
      ++ c.nickname
      ++ text " "
      ++ cmd
      ++ text " :They aren't on that channel\r\n"
    else if code == 442
    then text ":ircserv 442 "
      ++ c.nickname
      ++ text " "
      ++ cmd
      ++ text " :You're not on that channel\r\n"
    else if code == 443
    then text ":ircserv 443 " ++ c.nickname ++ text " " ++ cmd ++ text " :is already on channel\r\n"
    else if code == 451
    then text ":ircserv 451 " ++ c.nickname ++ text " :You have not registered\r\n"
    else if code == 411
    then text ":ircserv 411 " ++ c.nickname ++ text " :No recipient given (PRIVMSG)\r\n"
    else if code == 412
    then text ":ircserv 412 " ++ c.nickname ++ text " :No text to send\r\n"
    else if code == 461
    then text ":ircserv 461 " ++ c.nickname ++ text " " ++ cmd ++ text " :Not enough parameters\r\n"
    else if code == 462
    then text ":ircserv 462 "
      ++ c.nickname
      ++ text " :Unauthorized command (already registered)\r\n"
    else if code == 464
    then text ":ircserv 464 " ++ c.nickname ++ text " :Password incorrect\r\n"
    else if code == 471
    then text ":ircserv 471 "
      ++ c.nickname
      ++ text " "
      ++ cmd
      ++ text " :Cannot join channel (+l)\r\n"
    else if code == 472
    then text ":ircserv 472 "
      ++ c.nickname
      ++ text " "
      ++ cmd
      ++ text " :is unknown mode char to me\r\n"
    else if code == 473
    then text ":ircserv 473 "
      ++ c.nickname
      ++ text " "
      ++ cmd
      ++ text " :Cannot join channel (+i)\r\n"
    else if code == 475
    then text ":ircserv 475 "
      ++ c.nickname
      ++ text " "
      ++ cmd
      ++ text " :Cannot join channel (+k)\r\n"
    else if code == 482
    then text ":ircserv 482 "
      ++ c.nickname
      ++ text " "
      ++ cmd
      ++ text " :You're not channel operator\r\n"
    else []
