-- ===== src/Commands/Modes/Notify.antt =====
-- `notification` of srcs/modes/modes.cpp, the text that announces a mode, and what the Boolean
-- result of a mode's function means: the rest of `modes` is done only if it is `false`.
use ft_irc_server.Prelude.{
  ℕ, Bool, true, false, List, [], ◌∷◌, ◌++◌, Str, text, ◌==◌, on_found, find_first,
}
use ft_irc_server.Server.{Server, client_at, channel_at, sending_queue}

-- The inner loop, which stops at the first client with the descriptor.
abbrev pub notify_member : ℕ → Str → Server → Server
notify_member m msg s =
    on_found (find_first (λ c. c.fd == m) 0 s.clients) s (λ j. sending_queue j msg s)

unfoldable pub notify_members : List ℕ → Str → Server → Server
notify_members [] msg s = s
notify_members (m ∷ members) msg s = notify_members members msg (notify_member m msg s)

unfoldable pub notification : ℕ → Str → Server → Server
unfolding notify_members
notification i msg s = notify_members (channel_at s i).member_fds msg s

-- `":" + c.getNickname() + " MODE " + chan.getName() + " " + change + "\r\n"`.
abbrev pub mode_message : ℕ → ℕ → Str → Server → Str
mode_message k i change s =
    text ":"
    ++ (client_at s k).nickname
    ++ text " MODE "
    ++ (channel_at s i).name
    ++ text " "
    ++ change
    ++ text "\r\n"

abbrev pub after_mode : Bool × Server → (Server → Server) → Server
after_mode (true, s) rest = s
after_mode (false, s) rest = rest s
