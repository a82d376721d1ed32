-- ===== src/Network/Rebuffer.antt =====
-- Commands and receive buffers: what a command does past a change of a buffer.
pub mod Reads
pub mod Handlers
pub mod Modes
use Reads.{
  modify_comm, field_same, find_last-same, find_first-same, nick_in_use-same, names_list-same,
  length-modify,
}
use ft_irc_server.Channel.{Channel}
use ft_irc_server.Client.{Client, append_send_buff}
use ft_irc_server.Commands.Common.{has_nickname, last_client, first_client}
use ft_irc_server.Commands.Join.{names_list}
use ft_irc_server.Commands.Nick.{nick_in_use}
use ft_irc_server.Network.{set_buffer}
use ft_irc_server.Prelude.{
  ℕ, zero, suc, ◌≡◌, refl, ap, ◌∙◌, Bool, true, false, ◌&&◌, List, [], ◌∷◌, Option, none, some, Str,
  ◌==◌, if◌then◌else◌, on_found, length, find_last, find_first,
}
use ft_irc_server.Reply.{reply_cmd}
use ft_irc_server.Server.{Server, client_at, update_client, sending_queue, send_matching, broadcast}

module _ (j : ℕ) (b : Str) where
  unfoldable pub rebuffer : Server → Server
  rebuffer = update_client j (set_buffer b)

  pub rebuffer-if :
      (c : Bool) (s t : Server)
      → rebuffer (if c then s else t) ≡ (if c then rebuffer s else rebuffer t)
  rebuffer-if true s t = refl
  rebuffer-if false s t = refl

  pub rebuffer-on_found :
      (o : Option ℕ) (s : Server) (f : ℕ → Server)
      → rebuffer (on_found o s f) ≡ on_found o (rebuffer s) (λ i. rebuffer (f i))
  rebuffer-on_found none s f = refl
  rebuffer-on_found (some i) s f = refl

  pub rebuffer-registered :
      (k : ℕ) (s : Server) → (client_at (rebuffer s) k).registered ≡ (client_at s k).registered
  unfolding rebuffer
  rebuffer-registered k s = field_same (λ c. c.registered) j k b s.clients (λ c. refl)

  pub rebuffer-pass_recived :
      (k : ℕ) (s : Server) → (client_at (rebuffer s) k).pass_recived ≡ (client_at s k).pass_recived
  unfolding rebuffer
  rebuffer-pass_recived k s = field_same (λ c. c.pass_recived) j k b s.clients (λ c. refl)

  pub rebuffer-nickname_received :
      (k : ℕ) (s : Server)
      → (client_at (rebuffer s) k).nickname_received ≡ (client_at s k).nickname_received
  unfolding rebuffer
  rebuffer-nickname_received k s = field_same (λ c. c.nickname_received) j k b s.clients (λ c. refl)

  pub rebuffer-user_recived :
      (k : ℕ) (s : Server) → (client_at (rebuffer s) k).user_recived ≡ (client_at s k).user_recived
  unfolding rebuffer
  rebuffer-user_recived k s = field_same (λ c. c.user_recived) j k b s.clients (λ c. refl)

  pub rebuffer-nickname :
      (k : ℕ) (s : Server) → (client_at (rebuffer s) k).nickname ≡ (client_at s k).nickname
  unfolding rebuffer
  rebuffer-nickname k s = field_same (λ c. c.nickname) j k b s.clients (λ c. refl)

  pub rebuffer-fd : (k : ℕ) (s : Server) → (client_at (rebuffer s) k).fd ≡ (client_at s k).fd
  unfolding rebuffer
  rebuffer-fd k s = field_same (λ c. c.fd) j k b s.clients (λ c. refl)

  pub rebuffer-reply :
      (code k : ℕ) (cmd : Str) (s : Server)
      → reply_cmd code (client_at (rebuffer s) k) cmd ≡ reply_cmd code (client_at s k) cmd
  unfolding rebuffer reply_cmd
  rebuffer-reply code k cmd s = field_same (λ c. reply_cmd code c cmd) j k b s.clients (λ c. refl)

  pub rebuffer-passwd : (s : Server) → (rebuffer s).passwd ≡ s.passwd
  unfolding rebuffer
  rebuffer-passwd s = refl

  pub rebuffer-channels : (s : Server) → (rebuffer s).channels ≡ s.channels
  unfolding rebuffer
  rebuffer-channels s = refl

  pub sending_queue-rebuffer :
      (k : ℕ) (message : Str) (s : Server)
      → sending_queue k message (rebuffer s) ≡ rebuffer (sending_queue k message s)
  unfolding rebuffer sending_queue
  sending_queue-rebuffer k [] s = refl
  sending_queue-rebuffer k (c ∷ cs) s =
      ap (λ xs. record (sending_queue k (c ∷ cs) s) { clients = xs })
        (modify_comm k j (append_send_buff (c ∷ cs)) (set_buffer b) s.clients (λ x. refl))

  pub rebuffer-length : (s : Server) → length (rebuffer s).clients ≡ length s.clients
  unfolding rebuffer
  rebuffer-length s = length-modify j (set_buffer b) s.clients

  -- The searches look at nicknames and descriptors.
  pub find_last-rebuffer :
      (test : Client → Bool) (i : ℕ) (s : Server) (found : Option ℕ)
      → ((c : Client) → test (set_buffer b c) ≡ test c)
      → find_last test i (rebuffer s).clients found ≡ find_last test i s.clients found
  unfolding rebuffer
  find_last-rebuffer test i s found h = find_last-same test i j b s.clients found h

  pub rebuffer-last_client :
      (nick : Str) (s : Server) → last_client nick (rebuffer s) ≡ last_client nick s
  rebuffer-last_client nick s = find_last-rebuffer (has_nickname nick) 0 s none (λ c. refl)

  pub rebuffer-first_client :
      (nick : Str) (s : Server) → first_client nick (rebuffer s) ≡ first_client nick s
  unfolding rebuffer
  rebuffer-first_client nick s = find_first-same (has_nickname nick) 0 j b s.clients (λ c. refl)

  pub rebuffer-first_fd :
      (m : ℕ) (s : Server)
      → find_first (λ c. c.fd == m) 0 (rebuffer s).clients ≡ find_first (λ c. c.fd == m) 0 s.clients
  unfolding rebuffer
  rebuffer-first_fd m s = find_first-same (λ c. c.fd == m) 0 j b s.clients (λ c. refl)

  pub rebuffer-nick_in_use :
      (nick : Str) (fd : ℕ) (s : Server)
      → nick_in_use nick fd (rebuffer s).clients ≡ nick_in_use nick fd s.clients
  unfolding rebuffer
  rebuffer-nick_in_use nick fd s = nick_in_use-same nick fd j b s.clients

  pub rebuffer-names_list :
      (ch : Channel) (s : Server) (members : List ℕ) (names : Str)
      → names_list ch (rebuffer s).clients members names ≡ names_list ch s.clients members names
  unfolding rebuffer
  rebuffer-names_list ch s members names = names_list-same ch j b s.clients members names

  pub send_matching-rebuffer :
      (rounds i : ℕ) (test : ℕ → Bool) (message : Str) (s : Server)
      → send_matching rounds i test message (rebuffer s)
        ≡ rebuffer (send_matching rounds i test message s)
  unfolding send_matching
  send_matching-rebuffer zero i test message s = refl
  send_matching-rebuffer (suc rounds) i test message s =
      ap (send_matching rounds (suc i) test message)
        (simp (rebuffer-fd, sending_queue-rebuffer, rebuffer-if))
      ∙ send_matching-rebuffer rounds (suc i) test message _

  pub broadcast-rebuffer :
      (members : List ℕ) (keep : ℕ → Bool) (message : Str) (s : Server)
      → broadcast members keep message (rebuffer s) ≡ rebuffer (broadcast members keep message s)
  unfolding broadcast
  broadcast-rebuffer [] keep message s = refl
  broadcast-rebuffer (m ∷ members) keep message s =
      ap (broadcast members keep message) (
        ap (λ n. send_matching n 0 (λ fd. fd == m && keep fd) message (rebuffer s))
          (rebuffer-length s)
        ∙ send_matching-rebuffer (length s.clients) 0 (λ fd. fd == m && keep fd) message s)
      ∙ broadcast-rebuffer members keep message _

  pub update-rebuffer :
      (k : ℕ) (f : Client → Client) (s : Server)
      → ((c : Client) → f (set_buffer b c) ≡ set_buffer b (f c))
      → update_client k f (rebuffer s) ≡ rebuffer (update_client k f s)
  unfolding rebuffer
  update-rebuffer k f s h =
      ap (λ xs. record s { clients = xs }) (modify_comm k j f (set_buffer b) s.clients h)

pub ruleset rebuffer_laws = (
  rebuffer-if, rebuffer-on_found, rebuffer-registered, rebuffer-pass_recived,
  rebuffer-nickname_received, rebuffer-user_recived, rebuffer-nickname, rebuffer-fd, rebuffer-reply,
  rebuffer-passwd, rebuffer-channels, rebuffer-last_client, rebuffer-first_client,
  rebuffer-nick_in_use, rebuffer-names_list, sending_queue-rebuffer, broadcast-rebuffer,
)
