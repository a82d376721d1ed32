-- ===== src/Effect/Refines.antt =====
-- srcs/commands/CommandDispatcher.cpp: the effect of a whole command line.
use ft_irc_server.Commands.Dispatch.{dispatch_command, dispatch_message, toupper}
use ft_irc_server.Effect.Members.{join_handler-Effect, kick_handler-Effect, privmsg_handler-Effect}
use ft_irc_server.Effect.Session.{pass_hundler-Effect, nick_hundler-Effect, user_handler-Effect}
use ft_irc_server.Effect.Settings.{topic_handler-Effect, invite_handler-Effect}
use ft_irc_server.Effect.Modes.{modes-Effect}
use ft_irc_server.Effect.{Effect, replies, sends}
use ft_irc_server.Parser.{Message, parse}
use ft_irc_server.Prelude.{ℕ, map, refl, Str, text, same, is_empty, not, if_cases}
use ft_irc_server.Server.{Server}

dispatch_message-Effect :
    (k : ℕ) (m : Message) (s : Server) → Effect k m s (dispatch_message (map toupper m.cmd) k m s)
unfolding dispatch_message
dispatch_message-Effect k m s =
    let command = map toupper m.cmd in
    if_cases (Effect k m s) (same command (text "PASS")) (pass_hundler-Effect k m s) λ _.
      if_cases (Effect k m s) (same command (text "NICK")) (nick_hundler-Effect k m s) λ _.
        if_cases (Effect k m s) (same command (text "USER")) (user_handler-Effect k m s) λ _.
          if_cases (Effect k m s) (same command (text "JOIN")) (join_handler-Effect k m s) λ _.
            if_cases (Effect k m s) (same command (text "PRIVMSG"))
              (λ _. privmsg_handler-Effect k m s)
              λ _.
                if_cases (Effect k m s) (same command (text "TOPIC")) (topic_handler-Effect k m s)
                  λ _.
                    if_cases (Effect k m s) (same command (text "KICK")) (kick_handler-Effect k m s)
                      λ _.
                        if_cases (Effect k m s) (same command (text "INVITE"))
                          (invite_handler-Effect k m s)
                          λ _.
                            if_cases (Effect k m s) (same command (text "MODE"))
                              (modes-Effect k m s)
                              λ _.
                                if_cases (Effect k m s) (not (is_empty command))
                                  (λ _. replies k m _ s) (λ _. sends refl)

-- Whatever line a client sends, its command has one of the effects of `Effect` for the message that
-- is parsed from the line: if it does more than to queue messages, the message is the command that
-- has this effect, the conditions of `Effect` hold (the password, the nickname, the key that the
-- message presents, and so on), and the server is changed as the parameters of the message say.
pub dispatch_command-Effect :
    (k : ℕ) (line : Str) (s : Server) → Effect k (parse line) s (dispatch_command k line s)
unfolding dispatch_command
dispatch_command-Effect k line s = dispatch_message-Effect k (parse line) s
