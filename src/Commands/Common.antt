-- ===== src/Commands/Common.antt =====
-- What the handlers share: the numeric reply to the client itself, and the search loops over the
-- channels' names and the clients' nicknames.
use ft_irc_server.Channel.{Channel}
use ft_irc_server.Client.{Client, set_registered}
use ft_irc_server.Prelude.{ℕ, true, [], Bool, Option, none, Str, same, find_first, find_last}
use ft_irc_server.Reply.{reply_cmd}
use ft_irc_server.Server.{Server, client_at, update_client, sending_queue}

-- `server.sending_queue(client, replyCmd(code, client, cmd))`.
abbrev pub reply : ℕ → ℕ → Str → Server → Server
reply k code cmd s = sending_queue k (reply_cmd code (client_at s k) cmd) s

abbrev pub is_named : Str → Channel → Bool
is_named name ch = same ch.name name

abbrev pub has_nickname : Str → Client → Bool
has_nickname nick c = same c.nickname nick

-- The loops with no `break`.
abbrev pub last_channel : Str → Server → Option ℕ
last_channel name s = find_last (is_named name) 0 s.channels none

abbrev pub last_client : Str → Server → Option ℕ
last_client nick s = find_last (has_nickname nick) 0 s.clients none

-- The loops of `modes` and `operators`, which stop at the first hit.
abbrev pub first_channel : Str → Server → Option ℕ
first_channel name s = find_first (is_named name) 0 s.channels

abbrev pub first_client : Str → Server → Option ℕ
first_client nick s = find_first (has_nickname nick) 0 s.clients

-- `client.setRegistered(true)` and the welcome, at the end of `NICK` and of `USER`.
unfoldable pub complete_registration : ℕ → Server → Server
complete_registration k s = reply k 1 [] (update_client k (set_registered true) s)
