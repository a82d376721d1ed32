-- ===== src/Server.antt =====
-- includes/Server.hpp and the parts of srcs/Server.cpp that the command handlers call. A reference
-- to a client, or a pointer to a channel, is its index in the vector.
pub mod Sending
pub mod Quiet
pub mod Delivery
use ft_irc_server.Channel.{
  Channel, new_channel, remove_member, remove_invite, remove_operator, is_channel_empty,
}
use ft_irc_server.Client.{Client, new_client, append_send_buff}
use ft_irc_server.Prelude.{
  ℕ, zero, suc, Bool, true, false, List, [], ◌∷◌, ◌&&◌, Option, Str, is_empty, ◌==◌, if◌then◌else◌,
  length, get_or, modify, erase_at,
}

-- The bits of `events` and `revents`.
pub record PollFlags : Type 0 where
  pub pollin : Bool
  pub pollout : Bool
  pub pollerr : Bool
  pub pollhup : Bool
  pub pollnval : Bool

-- `struct pollfd`.
pub record PollFd : Type 0 where
  pub fd : ℕ
  pub events : PollFlags
  pub revents : PollFlags

-- `fd` is `none` where the source has -1.
pub record Server : Type 0 where
  pub fd : Option ℕ
  pub port : ℕ
  pub passwd : Str
  pub loaded : Bool
  pub fds : List PollFd
  pub clients : List Client
  pub channels : List Channel

-- `clients[k]`; a dangling reference reads as a client with no data.
abbrev pub client_at : Server → ℕ → Client
client_at s k = get_or s.clients k (new_client 0)

-- A method call on `clients[k]`.
abbrev pub update_client : ℕ → (Client → Client) → Server → Server
update_client k f s = record s { clients = modify k f s.clients }

-- `*channel`, for a pointer to `channels[i]`; a dangling pointer reads as a channel with no data.
abbrev pub channel_at : Server → ℕ → Channel
channel_at s i = get_or s.channels i (new_channel [])

-- A method call on `channels[i]`.
abbrev pub update_channel : ℕ → (Channel → Channel) → Server → Server
update_channel i f s = record s { channels = modify i f s.channels }

-- `events |= POLLOUT`, and `events &= ~POLLOUT`.
abbrev pub set_pollout : Bool → PollFd → PollFd
set_pollout b p = record p { events = record p.events { pollout = b } }

-- The loop of `sending_queue`, at `i - 1 = j`.
unfoldable pub arm_from : ℕ → ℕ → List PollFd → List PollFd
arm_from j k [] = []
arm_from j k (p ∷ ps) = if j == k then set_pollout true p ∷ ps else p ∷ arm_from (suc j) k ps

abbrev pub arm : ℕ → List PollFd → List PollFd
arm k [] = []
arm k (p ∷ ps) = p ∷ arm_from 0 k ps

unfoldable pub sending_queue : ℕ → Str → Server → Server
unfolding arm_from
sending_queue k message s =
    if is_empty message
    then s
    else record s { clients = modify k (append_send_buff message) s.clients; fds = arm k s.fds }

-- The inner loop of a broadcast, over the clients from index `j` on: whoever has a descriptor that
-- passes the test is sent the message.
unfoldable pub send_matching : ℕ → ℕ → (ℕ → Bool) → Str → Server → Server
send_matching zero j test message s = s
send_matching (suc rounds) j test message s =
    send_matching rounds (suc j) test message
      (if test (client_at s j).fd then sending_queue j message s else s)

-- The two nested loops of `joinHandler`, `kickHandler`, `topicHandler` and `privmsgHandler`: the
-- members in their order, and for each the clients; `keep` is the further test on the client.
unfoldable pub broadcast : List ℕ → (ℕ → Bool) → Str → Server → Server
broadcast [] keep message s = s
broadcast (m ∷ members) keep message s =
    broadcast members keep message
      (send_matching (length s.clients) 0 (λ fd. fd == m && keep fd) message s)

-- The loop of `leave_chanels`.
unfoldable pub leave_from : ℕ → List Channel → List Channel
leave_from fd [] = []
leave_from fd (ch ∷ chs) =
    let ch' = remove_operator fd (remove_invite fd (remove_member fd ch)) in
    let rest = leave_from fd chs in if is_channel_empty ch' then rest else ch' ∷ rest

unfoldable pub leave_chanels : ℕ → Server → Server
unfolding leave_from
leave_chanels fd s = record s { channels = leave_from fd s.channels }
