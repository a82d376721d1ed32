-- ===== src/Server/Sending.antt =====
-- What `sending_queue` and the loops over it leave alone.
use ft_irc_server.Prelude.{ℕ, zero, suc, Bool, List, [], ◌∷◌, ◌&&◌, Str, ◌==◌, if_cases, length}
use ft_irc_server.Server.{Server, client_at, sending_queue, send_matching, broadcast}

-- What holds of a server still does after any message has been queued for any client.
abbrev pub SurvivesSending {ℓ} : (Server → Type ℓ) → Type ℓ
SurvivesSending P = (k : ℕ) (message : Str) (s : Server) → P s → P (sending_queue k message s)

module _ {ℓ} (P : Server → Type ℓ) (survives : SurvivesSending P) where
  pub send_matching-survives :
      (rounds j : ℕ) (test : ℕ → Bool) (message : Str) (s : Server)
      → P s
      → P (send_matching rounds j test message s)
  unfolding send_matching
  send_matching-survives zero j test message s h = h
  send_matching-survives (suc rounds) j test message s h =
      send_matching-survives rounds (suc j) test message _
        (if_cases P (test (client_at s j).fd) (λ _. survives j message s h) (λ _. h))

  pub broadcast-survives :
      (members : List ℕ) (keep : ℕ → Bool) (message : Str) (s : Server)
      → P s
      → P (broadcast members keep message s)
  unfolding broadcast
  broadcast-survives [] keep message s h = h
  broadcast-survives (m ∷ members) keep message s h =
      broadcast-survives members keep message _
        (send_matching-survives (length s.clients) 0 (λ fd. fd == m && keep fd) message s h)
