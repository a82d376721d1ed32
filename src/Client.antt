-- ===== src/Client.antt =====
-- includes/Client.hpp and srcs/Client.cpp: one connected client. A file descriptor that the server
-- holds is never negative, so it is a natural number. `getNickname` and the like are the fields.
use ft_irc_server.Prelude.{ℕ, Bool, false, ◌++◌, [], Str, is_empty, not}

pub record Client : Type 0 where
  pub fd : ℕ
  pub pass : Str
  pub nickname : Str
  pub username : Str
  pub pass_recived : Bool
  pub nickname_received : Bool
  pub registered : Bool
  pub buffer : Str
  pub user_recived : Bool
  pub send_buffer : Str

-- The constructor.
abbrev pub new_client : ℕ → Client
new_client fd = record {
  fd = fd;
  pass = [];
  nickname = [];
  username = [];
  pass_recived = false;
  nickname_received = false;
  registered = false;
  buffer = [];
  user_recived = false;
  send_buffer = [];
}

abbrev pub set_pass : Str → Client → Client
set_pass p c = record c { pass = p }

abbrev pub set_nickname : Str → Client → Client
set_nickname nickname c = record c { nickname = nickname }

abbrev pub set_username : Str → Client → Client
set_username username c = record c { username = username }

abbrev pub set_registered : Bool → Client → Client
set_registered registered c = record c { registered = registered }

abbrev pub set_pass_is_recived : Bool → Client → Client
set_pass_is_recived registered c = record c { pass_recived = registered }

abbrev pub set_nickname_is_received : Bool → Client → Client
set_nickname_is_received received c = record c { nickname_received = received }

abbrev pub set_user_is_recived : Bool → Client → Client
set_user_is_recived received c = record c { user_recived = received }

abbrev pub append_buff : Str → Client → Client
append_buff bytes c = record c { buffer = c.buffer ++ bytes }

abbrev pub append_send_buff : Str → Client → Client
append_send_buff bytes c = record c { send_buffer = c.send_buffer ++ bytes }

abbrev pub send_data : Client → Bool
send_data c = not (is_empty c.send_buffer)
