-- ===== src/Invariant.antt =====
-- When a server is well formed: the state of each client's registration,
-- the shape of each channel, and how the poll entries, the clients and the channels' members hang
-- together.
pub mod Sessions
pub mod Rosters
pub mod Channels
pub mod Names
pub mod Updates
pub mod Commands
pub mod Preserved
pub mod Operators
use ft_irc_server.Channel.Members.{has_fd, Distinct}
use ft_irc_server.Channel.{Channel}
use ft_irc_server.Client.{Client}
use ft_irc_server.Commands.Join.{valid_channel_name}
use ft_irc_server.Commands.Nick.{check_nick_valid}
use ft_irc_server.Prelude.{
  ℕ, ◌≡◌, Bool, true, false, ◌&&◌, List, [], ◌∷◌, some, map, Str, same, is_empty, All,
  if◌then◌else◌, ◌==◌,
}
use ft_irc_server.Server.{Server}

-- Registration is exactly the password, then a valid nickname and a user name in either order.
pub record Session (registered named known passed : Bool) (nick : Str) : Type 0 where
  pub complete : registered ≡ (named && known)
  pub nick_after_pass : named ≡ true → passed ≡ true
  pub user_after_pass : known ≡ true → passed ≡ true
  pub nick_valid : named ≡ true → check_nick_valid nick ≡ true
  pub nick_empty : named ≡ false → nick ≡ []

abbrev pub SessionOk : Client → Type 0
SessionOk c = Session c.registered c.nickname_received c.user_recived c.pass_recived c.nickname

-- Somebody has the nickname.
unfoldable pub nick_taken : Str → List Client → Bool
nick_taken nick [] = false
nick_taken nick (c ∷ cs) = if same c.nickname nick then true else nick_taken nick cs

-- No two clients have one nickname, but for those that have none yet.
abbrev pub UniqueNicks : List Client → Type 0
UniqueNicks [] = Unit
UniqueNicks (c ∷ cs) =
    (is_empty c.nickname ≡ false → nick_taken c.nickname cs ≡ false) × UniqueNicks cs

-- Members, operators and invitations stand once; the operators are members; there is a member.
pub record Shape (members operators invited : List ℕ) (name : Str) : Type 0 where
  pub members_once : Distinct members
  pub operators_once : Distinct operators
  pub invited_once : Distinct invited
  pub operators_in : (fd : ℕ) → has_fd fd operators ≡ true → has_fd fd members ≡ true
  pub inhabited : is_empty members ≡ false
  pub name_valid : valid_channel_name name ≡ true

abbrev pub ChannelOk : Channel → Type 0
ChannelOk ch = Shape ch.member_fds ch.operator_fds ch.invited_fds ch.name

unfoldable pub name_taken : Str → List Channel → Bool
name_taken name [] = false
name_taken name (ch ∷ chs) = if same ch.name name then true else name_taken name chs

abbrev pub UniqueNames : List Channel → Type 0
UniqueNames [] = Unit
UniqueNames (ch ∷ chs) = (name_taken ch.name chs ≡ false) × UniqueNames chs

-- The client with this descriptor is there, and registered.
unfoldable pub is_registered_fd : ℕ → List Client → Bool
is_registered_fd fd [] = false
is_registered_fd fd (c ∷ cs) = if c.fd == fd && c.registered then true else is_registered_fd fd cs

abbrev pub client_fds : Server → List ℕ
client_fds s = map (λ c. c.fd) s.clients

abbrev pub poll_fds : Server → List ℕ
poll_fds s = map (λ p. p.fd) s.fds

-- The members of the channel are registered clients, and whoever is invited is connected.
pub record Roster (clients : List Client) (members invited : List ℕ) : Type 0 where
  pub members_registered : (fd : ℕ) → has_fd fd members ≡ true → is_registered_fd fd clients ≡ true
  pub invited_connected :
      (fd : ℕ) → has_fd fd invited ≡ true → has_fd fd (map (λ c. c.fd) clients) ≡ true

abbrev pub MembersOk : List Client → Channel → Type 0
MembersOk clients ch = Roster clients ch.member_fds ch.invited_fds

pub record WellFormed (s : Server) : Type 0 where
  pub listen_fd : ℕ
  pub listens : s.fd ≡ some listen_fd
  pub entries : poll_fds s ≡ listen_fd ∷ client_fds s
  pub entries_once : Distinct (poll_fds s)
  pub sessions : All SessionOk s.clients
  pub nicks : UniqueNicks s.clients
  pub channels_ok : All ChannelOk s.channels
  pub names : UniqueNames s.channels
  pub members : All (MembersOk s.clients) s.channels
