-- ===== src/Server/Quiet.antt =====
-- A server without what it has queued: two servers that are equal so differ in send buffers and
-- `POLLOUT` bits alone.
use ft_irc_server.Client.{Client, new_client, append_send_buff}
use ft_irc_server.Prelude.{
  ℕ, zero, suc, ◌≡◌, refl, ap, ◌∙◌, sym, Bool, false, List, [], ◌∷◌, map, Str, is_empty, if_cases,
  modify, get_or, ◌==◌,
}
use ft_irc_server.Server.Sending.{SurvivesSending, broadcast-survives}
use ft_irc_server.Server.{
  Server, PollFd, client_at, update_client, set_pollout, sending_queue, broadcast, arm_from, arm,
}

abbrev pub quiet_client : Client → Client
quiet_client c = record c { send_buffer = [] }

abbrev pub quiet : Server → Server
quiet s = record s { clients = map quiet_client s.clients; fds = map (set_pollout false) s.fds }

-- Nothing but send buffers and `POLLOUT` bits differs.
abbrev pub OnlySends : Server → Server → Type 0
OnlySends s t = quiet t ≡ quiet s

map-quiet-modify :
    (k : ℕ) (f : Client → Client) (cs : List Client)
    → ((c : Client) → quiet_client (f c) ≡ quiet_client c)
    → map quiet_client (modify k f cs) ≡ map quiet_client cs
map-quiet-modify k f [] h = refl
map-quiet-modify zero f (c ∷ cs) h = ap (λ d. d ∷ map quiet_client cs) (h c)
map-quiet-modify (suc k) f (c ∷ cs) h = ap (◌∷◌ (quiet_client c)) (map-quiet-modify k f cs h)

map-quiet-arm_from :
    (j k : ℕ) (ps : List PollFd)
    → map (set_pollout false) (arm_from j k ps) ≡ map (set_pollout false) ps
unfolding arm_from
map-quiet-arm_from j k [] = refl
map-quiet-arm_from j k (p ∷ ps) =
    if_cases (λ r. map (set_pollout false) r ≡ map (set_pollout false) (p ∷ ps)) (j == k)
      (λ _. refl) (λ _. ap (◌∷◌ (set_pollout false p)) (map-quiet-arm_from (suc j) k ps))

map-quiet-arm :
    (k : ℕ) (ps : List PollFd) → map (set_pollout false) (arm k ps) ≡ map (set_pollout false) ps
map-quiet-arm k [] = refl
map-quiet-arm k (p ∷ ps) = ap (◌∷◌ (set_pollout false p)) (map-quiet-arm_from 0 k ps)

pub sending_queue-OnlySends :
    (k : ℕ) (message : Str) (s : Server) → OnlySends s (sending_queue k message s)
unfolding sending_queue
sending_queue-OnlySends k message s =
    if_cases (OnlySends s) (is_empty message) (λ _. refl)
      λ _ i. record s {
        clients = map-quiet-modify k (append_send_buff message) s.clients (λ c. refl) i;
        fds = map-quiet-arm k s.fds i;
      }

pub OnlySends-survives : (s : Server) → SurvivesSending (OnlySends s)
OnlySends-survives s k message t h = sending_queue-OnlySends k message t ∙ h

pub broadcast-OnlySends :
    (members : List ℕ) (keep : ℕ → Bool) (message : Str) (s : Server)
    → OnlySends s (broadcast members keep message s)
broadcast-OnlySends members keep message s =
    broadcast-survives (OnlySends s) (OnlySends-survives s) members keep message s refl

pub get_or-map-quiet :
    (k : ℕ) (cs : List Client) (d : Client)
    → get_or (map quiet_client cs) k (quiet_client d) ≡ quiet_client (get_or cs k d)
get_or-map-quiet k [] d = refl
get_or-map-quiet zero (c ∷ cs) d = refl
get_or-map-quiet (suc k) (c ∷ cs) d = get_or-map-quiet k cs d

map-modify :
    (k : ℕ) (f : Client → Client) (cs : List Client)
    → ((c : Client) → quiet_client (f c) ≡ f (quiet_client c))
    → map quiet_client (modify k f cs) ≡ modify k f (map quiet_client cs)
map-modify k f [] h = refl
map-modify zero f (c ∷ cs) h = ap (λ d. d ∷ map quiet_client cs) (h c)
map-modify (suc k) f (c ∷ cs) h = ap (◌∷◌ (quiet_client c)) (map-modify k f cs h)

-- A client is the same but for its send buffer.
pub OnlySends-client_at :
    (s t : Server) (k : ℕ)
    → OnlySends s t
    → quiet_client (client_at t k) ≡ quiet_client (client_at s k)
OnlySends-client_at s t k h =
    sym (get_or-map-quiet k t.clients (new_client 0))
    ∙ ap (λ (q : Server). client_at q k) h
    ∙ get_or-map-quiet k s.clients (new_client 0)

pub OnlySends-fd : (s t : Server) (k : ℕ) → OnlySends s t → (client_at t k).fd ≡ (client_at s k).fd
OnlySends-fd s t k h = ap (λ (c : Client). c.fd) (OnlySends-client_at s t k h)

-- An update that does not look at send buffers goes past messages that are queued.
pub OnlySends-update_client :
    (s t : Server) (k : ℕ) (f : Client → Client)
    → ((c : Client) → quiet_client (f c) ≡ f (quiet_client c))
    → OnlySends s t
    → OnlySends (update_client k f s) (update_client k f t)
OnlySends-update_client s t k f c h i = record (h i) {
  clients =
      (map-modify k f t.clients c
          ∙ ap (λ (q : Server). modify k f q.clients) h
          ∙ sym (map-modify k f s.clients c))
        i;
}
