-- ===== src/Effect/Registration.antt =====
-- The three lines that register a client, end to end.
use ft_irc_server.Client.{Client}
use ft_irc_server.Parser.RoundTrip.{print_line}
use ft_irc_server.Parser.{Message}
use ft_irc_server.Prelude.{[], ◌∷◌, Str, text}
use ft_irc_server.Server.{Server}

abbrev pass_line : Str → Str
pass_line password = print_line (text "PASS") [] password

abbrev nick_line : Str → Str
nick_line nick = print_line (text "NICK") [] nick

abbrev user_line : Str → Str → Str
user_line username real = print_line (text "USER") (username ∷ text "0" ∷ text "*" ∷ []) real

-- The three lines as messages.
abbrev pass_message : Str → Message
pass_message password = record { prefix = []; cmd = text "PASS"; params = password ∷ [] }

abbrev nick_message : Str → Message
nick_message nick = record { prefix = []; cmd = text "NICK"; params = nick ∷ [] }

abbrev user_message : Str → Str → Message
user_message username real = record {
  prefix = [];
  cmd = text "USER";
  params = username ∷ text "0" ∷ text "*" ∷ real ∷ [];
}
