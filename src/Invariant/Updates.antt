-- ===== src/Invariant/Updates.antt =====
-- The invariant after a change of one client, of one channel, or of all the channels.
use ft_irc_server.Channel.{Channel}
use ft_irc_server.Client.{Client}
use ft_irc_server.Invariant.Names.{modify-UniqueNames}
use ft_irc_server.Invariant.Rosters.{is_registered_fd-modify, MembersOk-transfer}
use ft_irc_server.Invariant.{
  WellFormed, SessionOk, UniqueNicks, nick_taken, ChannelOk, UniqueNames, MembersOk,
}
use ft_irc_server.Prelude.{
  ℕ, zero, suc, ◌≡◌, refl, sym, ap, ◌∙◌, true, List, [], ◌∷◌, map, some, Str, same, if◌then◌else◌,
  get_elem?, modify, All, map-modify_same, All-modify, All-weaken, get_or_of_get_elem?,
}
use ft_irc_server.Server.{Server, client_at, update_client, update_channel}

nick_taken-modify_same :
    (nick : Str) (k : ℕ) (f : Client → Client) (cs : List Client)
    → ((c : Client) → (f c).nickname ≡ c.nickname)
    → nick_taken nick (modify k f cs) ≡ nick_taken nick cs
unfolding nick_taken
nick_taken-modify_same nick k f [] h = refl
nick_taken-modify_same nick zero f (c ∷ cs) h = rw (h c)
nick_taken-modify_same nick (suc k) f (c ∷ cs) h =
    ap (λ b. if same c.nickname nick then true else b) (nick_taken-modify_same nick k f cs h)

pub UniqueNicks-modify_same :
    (k : ℕ) (f : Client → Client) (cs : List Client)
    → ((c : Client) → (f c).nickname ≡ c.nickname)
    → UniqueNicks cs
    → UniqueNicks (modify k f cs)
UniqueNicks-modify_same k f [] h unique = tt
UniqueNicks-modify_same zero f (c ∷ cs) h unique = (rw (h c) unique.0, unique.1)
UniqueNicks-modify_same (suc k) f (c ∷ cs) h unique = (
  λ named. nick_taken-modify_same c.nickname k f cs h ∙ unique.0 named,
  UniqueNicks-modify_same k f cs h unique.1,
)

-- The invariant after a change of one client that keeps its descriptor and its registration.
pub update_client-WellFormed :
    (k : ℕ) (f : Client → Client) (s : Server)
    → ((c : Client) → (f c).fd ≡ c.fd)
    → ((c : Client) → c.registered ≡ true → (f c).registered ≡ true)
    → ((c : Client) → client_at s k ≡ c → SessionOk c → SessionOk (f c))
    → UniqueNicks (modify k f s.clients)
    → WellFormed s
    → WellFormed (update_client k f s)
update_client-WellFormed k f s same_fd stays keeps unique w = record {
  listen_fd = w.listen_fd;
  listens = w.listens;
  entries = w.entries ∙ ap (◌∷◌ w.listen_fd) (sym same_fds);
  entries_once = w.entries_once;
  sessions =
      All-modify SessionOk k f s.clients
        (λ c at ok. keeps c (get_or_of_get_elem? k s.clients c _ at) ok) w.sessions;
  nicks = unique;
  channels_ok = w.channels_ok;
  names = w.names;
  members =
      All-weaken (MembersOk s.clients) _ s.channels
        (λ ch.
          MembersOk-transfer s.clients _ ch
            (λ fd h. is_registered_fd-modify fd k f s.clients same_fd stays h) same_fds)
        w.members;
}
  where
    same_fds : map (λ c. c.fd) (modify k f s.clients) ≡ map (λ c. c.fd) s.clients
    same_fds = map-modify_same (λ c. c.fd) k f s.clients same_fd

-- The invariant with other channels.
pub with_channels-WellFormed :
    (s : Server) (chs : List Channel)
    → All ChannelOk chs
    → UniqueNames chs
    → All (MembersOk s.clients) chs
    → WellFormed s
    → WellFormed (record s { channels = chs })
with_channels-WellFormed s chs ok unique members w = record {
  listen_fd = w.listen_fd;
  listens = w.listens;
  entries = w.entries;
  entries_once = w.entries_once;
  sessions = w.sessions;
  nicks = w.nicks;
  channels_ok = ok;
  names = unique;
  members = members;
}

-- The invariant after a change of one channel that keeps its name.
pub update_channel-WellFormed :
    (i : ℕ) (f : Channel → Channel) (s : Server)
    → ((ch : Channel) → (f ch).name ≡ ch.name)
    → ((ch : Channel) → get_elem? s.channels i ≡ some ch → ChannelOk ch → ChannelOk (f ch))
    → ((ch : Channel)
        → get_elem? s.channels i ≡ some ch
        → MembersOk s.clients ch
        → MembersOk s.clients (f ch))
    → WellFormed s
    → WellFormed (update_channel i f s)
update_channel-WellFormed i f s same_name shape roster w =
    with_channels-WellFormed s _ (All-modify ChannelOk i f s.channels shape w.channels_ok)
      (modify-UniqueNames i f s.channels same_name w.names)
      (All-modify (MembersOk s.clients) i f s.channels roster w.members) w
