-- ===== src/Commands/Nick.antt =====
-- srcs/commands/nick.cpp, with <cctype> in the "C" locale.
use ft_irc_server.Client.{Client, set_nickname, set_nickname_is_received}
use ft_irc_server.Commands.Common.{complete_registration, reply, has_nickname}
use ft_irc_server.Parser.{Message, param}
use ft_irc_server.Prelude.{
  ℕ, Bool, true, false, List, [], ◌∷◌, ◌++◌, not, ◌&&◌, ◌||◌, Str, text, is_empty, length, ltb, leb,
  ◌==◌, if◌then◌else◌,
}
use ft_irc_server.Server.{Server, client_at, update_client, sending_queue}

abbrev pub isalpha : ℕ → Bool
isalpha c = leb b'A' c && leb c b'Z' || leb b'a' c && leb c b'z'

abbrev pub isdigit : ℕ → Bool
isdigit c = leb b'0' c && leb c b'9'

abbrev pub isalnum : ℕ → Bool
isalnum c = isalpha c || isdigit c

-- The loop of `checkSpecailChar`.
unfoldable pub occurs_in : ℕ → Str → Bool
occurs_in c [] = false
occurs_in c (x ∷ xs) = if c == x then true else occurs_in c xs

unfoldable pub check_specail_char : ℕ → Bool
unfolding occurs_in text
check_specail_char c = occurs_in c (text "[]\\`_^{}|")

-- The loop of `checkNickValid`, from the second byte on.
unfoldable pub check_nick_rest : Str → Bool
check_nick_rest [] = true
check_nick_rest (c ∷ cs) =
    if not (isalnum c) && not (check_specail_char c) && not (c == b'-')
    then false
    else check_nick_rest cs

unfoldable pub check_nick_valid : Str → Bool
unfolding check_nick_rest check_specail_char
check_nick_valid [] = false
check_nick_valid (c ∷ cs) =
    if not (isalpha c) && not (check_specail_char c)
    then false
    else if ltb 9 (length (c ∷ cs))
    then false
    else check_nick_rest cs

-- The loop that looks for the nickname with another client.
unfoldable pub nick_in_use : Str → ℕ → List Client → Bool
nick_in_use new_nick fd [] = false
nick_in_use new_nick fd (c ∷ cs) =
    if has_nickname new_nick c && not (c.fd == fd) then true else nick_in_use new_nick fd cs

-- A client that is registered is told of its new nickname.
unfoldable pub tell_nick : ℕ → Str → Server → Server
tell_nick k new_nick s =
    if (client_at s k).registered then sending_queue k (text "NICK :" ++ new_nick) s else s

-- A client that `USER` has named is now registered.
unfoldable pub welcome_nick : ℕ → Server → Server
welcome_nick k s =
    if (client_at s k).user_recived && not (client_at s k).registered
    then complete_registration k s
    else s

-- The rest of the handler, once the nickname is accepted.
unfoldable pub take_nick : ℕ → Str → Server → Server
take_nick k new_nick s =
    let renamed = update_client k (set_nickname new_nick) s in
    let received = update_client k (set_nickname_is_received true) (tell_nick k new_nick renamed) in
    welcome_nick k received

unfoldable pub nick_hundler : ℕ → Message → Server → Server
unfolding nick_in_use check_nick_valid
nick_hundler k m s =
    if not (client_at s k).pass_recived
    then reply k 451 (text "NICK :You have not registered") s
    else if is_empty m.params
    then reply k 431 (text ":No nickname given") s
    else if not (check_nick_valid (param m 0))
    then reply k 432 (param m 0 ++ text "") s
    else if nick_in_use (param m 0) (client_at s k).fd s.clients
    then reply k 433 (param m 0) s
    else take_nick k (param m 0) s
