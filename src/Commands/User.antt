-- ===== src/Commands/User.antt =====
-- srcs/commands/user.cpp
use ft_irc_server.Client.{set_username, set_user_is_recived}
use ft_irc_server.Commands.Common.{complete_registration, reply}
use ft_irc_server.Parser.{Message, param}
use ft_irc_server.Prelude.{ℕ, true, not, Str, text, length, ltb, if◌then◌else◌}
use ft_irc_server.Server.{Server, client_at, update_client}

-- A client that has a nickname is now registered.
unfoldable pub welcome_user : ℕ → Server → Server
welcome_user k s = if (client_at s k).nickname_received then complete_registration k s else s

-- The rest of the handler, once the parameters are accepted.
unfoldable pub take_user : ℕ → Str → Server → Server
take_user k username s =
    let named = update_client k (set_username username) s in
    let received = update_client k (set_user_is_recived true) named in welcome_user k received

unfoldable pub user_handler : ℕ → Message → Server → Server
user_handler k m s =
    if (client_at s k).registered
    then reply k 462 (text "USER") s
    else if not (client_at s k).pass_recived
    then reply k 451 (text "USER :You have not registered") s
    else if ltb (length m.params) 4
    then reply k 461 (text "USER") s
    else take_user k (param m 0) s
