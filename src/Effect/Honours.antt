-- ===== src/Effect/Honours.antt =====
-- The handlers on messages that are granted, from the checks that `Granted` names to the change.
mod Dispatch
mod Modes
mod Changes
use ft_irc_server.Channel.{has_member, is_operator}
use ft_irc_server.Effect.{Calls, with_nick, with_user}
use ft_irc_server.Prelude.{sym, ap, ◌∙◌, false, List, [], ◌∷◌, same, same_iff, is_empty, ltb, arith}
use ft_irc_server.Server.{Server}
