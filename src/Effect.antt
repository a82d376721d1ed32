-- ===== src/Effect.antt =====
-- What one command of the client at index `k` may do to the server, told apart from the messages
-- that it queues: the abstract transitions of the protocol, with the conditions for each.
pub mod Session
pub mod Members
pub mod Settings
pub mod Modes
pub mod Honours
pub mod Registration
pub mod Refines
pub mod Roster
pub mod Guarantees
pub mod Messages
use ft_irc_server.Int.{ℤ, geb_ℤ, to_int, is_positive}
use ft_irc_server.Channel.{
  Channel, has_member, is_operator, is_invited, has_key, has_limit, add_operator, remove_operator,
  set_invite_only, set_change_topic, set_key, remove_key, set_limit, remove_limit, set_topic,
  add_invite,
}
use ft_irc_server.Client.{Client, set_pass_is_recived}
use ft_irc_server.Commands.Common.{last_channel, last_client, first_channel, first_client}
use ft_irc_server.Commands.Dispatch.{toupper}
use ft_irc_server.Commands.Modes.Limit.{atoi, all_digits}
use ft_irc_server.Parser.{Message, param}
use ft_irc_server.Commands.Join.{valid_channel_name, add_joiner, add_channel}
use ft_irc_server.Commands.Kick.{is_last_operator, drop_member}
use ft_irc_server.Commands.Nick.{check_nick_valid, nick_in_use}
use ft_irc_server.Prelude.{
  ℕ, ◌≡◌, Bool, true, false, not, List, [], ◌∷◌, is_empty, arith, ◌&&◌, ◌||◌, none, some, Str, text,
  map, length, same, ltb, ◌==◌, if◌then◌else◌,
}
use ft_irc_server.Server.Quiet.{OnlySends, sending_queue-OnlySends}
use ft_irc_server.Server.{
  Server, client_at, channel_at, update_client, update_channel, sending_queue,
}

-- The client after an accepted `NICK`, and after an accepted `USER`.
abbrev pub with_nick : Str → Client → Client
with_nick nick c = record c {
  nickname = nick;
  nickname_received = true;
  registered = c.registered || c.user_recived;
}

abbrev pub with_user : Str → Client → Client
with_user username c = record c {
  username = username;
  user_recived = true;
  registered = c.registered || c.nickname_received;
}

-- The message is this command, in letters of either case.
abbrev pub Calls : Str → Message → Type 0
Calls command m = same (map toupper m.cmd) command ≡ true

-- It has this many parameters at least, too.
abbrev pub Asks : Str → ℕ → Message → Type 0
Asks command count m = Calls command m × (ltb (length m.params) count ≡ false)

pub one_param : {A : Type 0} (xs : List A) → is_empty xs ≡ false → ltb (length xs) 1 ≡ false
one_param [] h = cc
one_param (x ∷ xs) h = ground arith

pub two_params :
    {A : Type 0} (xs : List A)
    → is_empty xs ≡ false
    → (length xs == 1) ≡ false
    → ltb (length xs) 2 ≡ false
two_params [] h other = cc
two_params (x ∷ []) h other = ground arith
two_params (x ∷ y ∷ xs) h other = ground arith

-- `PASS`: the password is the server's.
pub record MayPass (k : ℕ) (m : Message) (s : Server) : Type 0 where
  pub asks : Asks (text "PASS") 1 m
  pub unregistered : (client_at s k).registered ≡ false
  pub right_password : same s.passwd (param m 0) ≡ true

-- `NICK`: the nickname is valid, and no other client has it.
pub record MayName (k : ℕ) (m : Message) (s : Server) : Type 0 where
  pub asks : Asks (text "NICK") 1 m
  pub passed : (client_at s k).pass_recived ≡ true
  pub valid : check_nick_valid (param m 0) ≡ true
  pub free : nick_in_use (param m 0) (client_at s k).fd s.clients ≡ false

pub record MayUser (k : ℕ) (m : Message) (s : Server) : Type 0 where
  pub asks : Asks (text "USER") 4 m
  pub unregistered : (client_at s k).registered ≡ false
  pub passed : (client_at s k).pass_recived ≡ true

pub record MayJoin (k : ℕ) (m : Message) (s : Server) : Type 0 where
  pub asks : Asks (text "JOIN") 1 m
  pub registered : (client_at s k).registered ≡ true
  pub valid : valid_channel_name (param m 0) ≡ true

-- The channel lets the client in: a channel with a key only if the message presents it.
pub record Admits (fd : ℕ) (m : Message) (ch : Channel) : Type 0 where
  pub is_new : has_member fd ch ≡ false
  pub invited : (ch.invite_only && not (is_invited fd ch)) ≡ false
  pub knows_key : (has_key ch && (ltb (length m.params) 2 || not (same (param m 1) ch.key))) ≡ false
  pub has_room : (has_limit ch && geb_ℤ (to_int (length ch.member_fds)) ch.limit) ≡ false

-- `KICK` of the client at `j` from the channel at `i`, by an operator.
pub record MayKick (k : ℕ) (m : Message) (i j : ℕ) (s : Server) : Type 0 where
  pub asks : Asks (text "KICK") 2 m
  pub registered : (client_at s k).registered ≡ true
  pub channel : last_channel (param m 0) s ≡ some i
  pub target : last_client (param m 1) s ≡ some j
  pub operator : is_operator (client_at s k).fd (channel_at s i) ≡ true
  pub member : has_member (client_at s j).fd (channel_at s i) ≡ true
  pub spare : is_last_operator (client_at s j).fd (channel_at s i) ≡ false

-- The mode that the message names.
abbrev pub Mode : Str → Message → Type 0
Mode mode m = same (param m 1) mode ≡ true

-- What `MODE` does to a channel, for each mode of the message.
pub data ModeChange (m : Message) (s : Server) (ch : Channel) : (Channel → Channel) → Type 0 where
  invitations :
      (b : Bool)
      → Mode (if b then text "+i" else text "-i") m
      → ModeChange m s ch (set_invite_only b)
  topics :
      (b : Bool)
      → Mode (if b then text "+t" else text "-t") m
      → ModeChange m s ch (set_change_topic b)
  keyed : Mode (text "+k") m → Asks (text "MODE") 3 m → ModeChange m s ch (set_key (param m 2))
  unkeyed : Mode (text "-k") m → Asks (text "MODE") 3 m → ModeChange m s ch remove_key
  limited :
      Mode (text "+l") m
      → Asks (text "MODE") 3 m
      → all_digits (param m 2) ≡ true
      → is_positive (atoi (param m 2)) ≡ true
      → ModeChange m s ch (set_limit (atoi (param m 2)))
  unlimited : Mode (text "-l") m → ModeChange m s ch remove_limit
  promotes :
      (j : ℕ)
      → Mode (text "+o") m
      → Asks (text "MODE") 3 m
      → first_client (param m 2) s ≡ some j
      → has_member (client_at s j).fd ch ≡ true
      → is_operator (client_at s j).fd ch ≡ false
      → ModeChange m s ch (add_operator (client_at s j).fd)
  demotes :
      (j : ℕ)
      → Mode (text "-o") m
      → Asks (text "MODE") 3 m
      → first_client (param m 2) s ≡ some j
      → has_member (client_at s j).fd ch ≡ true
      → is_operator (client_at s j).fd ch ≡ true
      → (length ch.operator_fds == 1) ≡ false
      → ModeChange m s ch (remove_operator (client_at s j).fd)

-- What the client at `k` does to `ch`, the channel at `i`, of which it is an operator or a member.
pub data ChannelChange (k : ℕ) (m : Message) (s : Server) (i : ℕ) (ch : Channel)
    : (Channel → Channel) → Type 0 where
  sets_topic :
      Asks (text "TOPIC") 2 m
      → last_channel (param m 0) s ≡ some i
      → has_member (client_at s k).fd ch ≡ true
      → (ch.change_topic && not (is_operator (client_at s k).fd ch)) ≡ false
      → ChannelChange k m s i ch (set_topic (param m 1))
  invites :
      (j : ℕ)
      → Asks (text "INVITE") 2 m
      → last_client (param m 0) s ≡ some j
      → last_channel (param m 1) s ≡ some i
      → is_operator (client_at s k).fd ch ≡ true
      → has_member (client_at s j).fd ch ≡ false
      → ChannelChange k m s i ch (add_invite (client_at s j).fd)
  sets_mode :
      {f : Channel → Channel}
      → Asks (text "MODE") 2 m
      → first_channel (param m 0) s ≡ some i
      → is_operator (client_at s k).fd ch ≡ true
      → ModeChange m s ch f
      → ChannelChange k m s i ch f

-- The message `m` of the client at `k` is granted, and leads to this server.
pub data Granted (k : ℕ) (m : Message) (s : Server) : Server → Type 0 where
  passes : MayPass k m s → Granted k m s (update_client k (set_pass_is_recived true) s)
  names : MayName k m s → Granted k m s (update_client k (with_nick (param m 0)) s)
  users : MayUser k m s → Granted k m s (update_client k (with_user (param m 0)) s)
  joins :
      (i : ℕ)
      → MayJoin k m s
      → last_channel (param m 0) s ≡ some i
      → Admits (client_at s k).fd m (channel_at s i)
      → Granted k m s (add_joiner (client_at s k).fd i s)
  creates :
      MayJoin k m s
      → last_channel (param m 0) s ≡ none
      → Granted k m s
          (add_joiner (client_at s k).fd (length s.channels) (add_channel (param m 0) s))
  kicks : (i j : ℕ) → MayKick k m i j s → Granted k m s (drop_member (client_at s j).fd i s)
  changes :
      (i : ℕ) {f : Channel → Channel}
      → (client_at s k).registered ≡ true
      → ChannelChange k m s i (channel_at s i) f
      → Granted k m s (update_channel i f s)

-- What the message may do: to queue messages, and what it is granted.
pub data Effect (k : ℕ) (m : Message) (s t : Server) : Type 0 where
  sends : OnlySends s t → Effect k m s t
  does : {u : Server} → Granted k m s u → OnlySends u t → Effect k m s t

-- A reply to the client itself changes nothing else.
pub replies :
    (k : ℕ) (m : Message) (message : Str) (s : Server) → Effect k m s (sending_queue k message s)
replies k m message s = sends (sending_queue-OnlySends k message s)
