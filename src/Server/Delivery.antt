-- ===== src/Server/Delivery.antt =====
-- Who is sent what: the loops over a channel's members, seen from one client's send buffer.
use ft_irc_server.Channel.Members.{has_fd, Distinct}
use ft_irc_server.Client.{Client, new_client, append_send_buff}
use ft_irc_server.Prelude.{
  ℕ, zero, suc, ◌+◌, ◌<◌, ◌≡◌, refl, sym, ap, ◌∙◌, Bool, true, false, ◌&&◌, List, [], ◌∷◌, ◌++◌,
  Str, arith, ◌==◌, ==_iff, ltb, leb, if◌then◌else◌, is_empty, length, get_or, modify, append-nil,
  if_cases, Bool-cases, inl, inr,
}
use ft_irc_server.Server.Quiet.{sending_queue-OnlySends, OnlySends-fd}
use ft_irc_server.Server.{Server, client_at, sending_queue, send_matching, broadcast}

-- What the client at `i` finds in its send buffer.
abbrev pub send_buffer_at : Server → ℕ → Str
send_buffer_at s i = (client_at s i).send_buffer

buffer-modify :
    (k i : ℕ) (message : Str) (cs : List Client)
    → i < length cs
    → (get_or (modify k (append_send_buff message) cs) i (new_client 0)).send_buffer
      ≡ (get_or cs i (new_client 0)).send_buffer ++ (if k == i then message else [])
buffer-modify k i message [] h = elim h [ ]
buffer-modify zero zero message (c ∷ cs) h = refl
buffer-modify zero (suc i) message (c ∷ cs) h =
    ground (arith, append-nil (get_or cs i (new_client 0)).send_buffer)
buffer-modify (suc k) zero message (c ∷ cs) h = ground (arith, append-nil c.send_buffer)
buffer-modify (suc k) (suc i) message (c ∷ cs) h =
    buffer-modify k i message cs (omega arith) ∙ ground arith

sending_queue-length :
    (k : ℕ) (message : Str) (s : Server)
    → length (sending_queue k message s).clients ≡ length s.clients
unfolding sending_queue
sending_queue-length k message s =
    if_cases (λ (t : Server). length t.clients ≡ length s.clients) (is_empty message) (λ _. refl)
      (λ _. same k s.clients)
  where
    same : (k : ℕ) (cs : List Client) → length (modify k (append_send_buff message) cs) ≡ length cs
    same k [] = refl
    same zero (c ∷ cs) = refl
    same (suc k) (c ∷ cs) = ap suc (same k cs)

sending_queue-buffer :
    (k i : ℕ) (message : Str) (s : Server)
    → i < length s.clients
    → is_empty message ≡ false
    → send_buffer_at (sending_queue k message s) i
      ≡ send_buffer_at s i ++ (if k == i then message else [])
unfolding sending_queue
sending_queue-buffer k i message s h full = rw full (buffer-modify k i message s.clients h)

-- One round of the inner loop.
step : ℕ → (ℕ → Bool) → Str → Server → Server
step j test message s = if test (client_at s j).fd then sending_queue j message s else s

step-fd :
    (j i : ℕ) (test : ℕ → Bool) (message : Str) (s : Server)
    → (client_at (step j test message s) i).fd ≡ (client_at s i).fd
unfolding step
step-fd j i test message s =
    if_cases (λ (t : Server). (client_at t i).fd ≡ (client_at s i).fd) (test (client_at s j).fd)
      (λ _. OnlySends-fd s _ i (sending_queue-OnlySends j message s)) (λ _. refl)

step-length :
    (j : ℕ) (test : ℕ → Bool) (message : Str) (s : Server)
    → length (step j test message s).clients ≡ length s.clients
unfolding step
step-length j test message s =
    if_cases (λ (t : Server). length t.clients ≡ length s.clients) (test (client_at s j).fd)
      (λ _. sending_queue-length j message s) (λ _. refl)

at_index :
    (j i : ℕ) (test : ℕ → Bool) (s : Server)
    → ((j == i) && test (client_at s i).fd) ≡ ((j == i) && test (client_at s j).fd)
at_index j i test s = elim (Bool-cases (j == i)) [
  | inl e ↦ ap (λ x. (j == i) && test (client_at s x).fd) (sym ((==_iff j i).0 e))
  | inr e ↦ rw e refl
]

fails_index :
    (j i : ℕ) (test : ℕ → Bool) (s : Server)
    → test (client_at s j).fd ≡ false
    → false ≡ ((j == i) && test (client_at s i).fd)
fails_index j i test s e = ground (arith, at_index j i test s, e)

step-buffer :
    (j i : ℕ) (test : ℕ → Bool) (message : Str) (s : Server)
    → i < length s.clients
    → is_empty message ≡ false
    → send_buffer_at (step j test message s) i
      ≡ send_buffer_at s i ++ (if (j == i) && test (client_at s i).fd then message else [])
unfolding step
step-buffer j i test message s h full = elim (Bool-cases (test (client_at s j).fd)) [
  | inl passes ↦ rw passes (
      sending_queue-buffer j i message s h full
      ∙ ap (λ b. send_buffer_at s i ++ (if b then message else []))
          (sym (at_index j i test s ∙ rw passes (ground arith))))
  | inr fails ↦ rw fails (
      sym (append-nil (send_buffer_at s i))
      ∙ ap (λ b. send_buffer_at s i ++ (if b then message else [])) (fails_index j i test s fails))
]

abbrev in_range : ℕ → ℕ → ℕ → Bool
in_range j rounds i = leb j i && ltb i (j + rounds)

in_range-suc :
    (j rounds i : ℕ)
    → in_range j (suc rounds) i ≡ (if j == i then true else in_range (suc j) rounds i)
in_range-suc j rounds i = ground arith

in_range-here : (j rounds i : ℕ) → (j == i) ≡ true → in_range (suc j) rounds i ≡ false
in_range-here j rounds i e = ground arith

-- What two rounds append.
append_both :
    (a message : Str) (here later t : Bool)
    → (here ≡ true → later ≡ false)
    → (a ++ (if here && t then message else [])) ++ (if later && t then message else [])
      ≡ a ++ (if (if here then true else later) && t then message else [])
append_both a message true true t apart = cc (apart refl)
append_both a message true false t apart = append-nil _
append_both a message false later t apart =
    ap (λ b. b ++ (if later && t then message else [])) (append-nil a)

send_matching-buffer :
    (rounds j i : ℕ) (test : ℕ → Bool) (message : Str) (s : Server)
    → i < length s.clients
    → is_empty message ≡ false
    → send_buffer_at (send_matching rounds j test message s) i
      ≡ send_buffer_at s i
        ++ (if in_range j rounds i && test (client_at s i).fd then message else [])
unfolding send_matching step
send_matching-buffer zero j i test message s h full =
    sym (append-nil (send_buffer_at s i))
    ∙ ap (λ b. send_buffer_at s i ++ (if b && test (client_at s i).fd then message else [])) outside
  where
    outside : false ≡ in_range j 0 i
    outside = ground arith
send_matching-buffer (suc rounds) j i test message s h full =
    let next = step j test message s in
    let fd = (client_at s i).fd in
    send_matching-buffer rounds (suc j) i test message next
      (omega (arith, step-length j test message s)) full
    ∙ ap
        (λ fd.
          send_buffer_at next i ++ (if in_range (suc j) rounds i && test fd then message else []))
        (step-fd j i test message s)
    ∙ ap (λ b. b ++ (if in_range (suc j) rounds i && test fd then message else []))
        (step-buffer j i test message s h full)
    ∙ append_both (send_buffer_at s i) message (j == i) (in_range (suc j) rounds i) (test fd)
        (in_range-here j rounds i)
    ∙ ap (λ b. send_buffer_at s i ++ (if b && test fd then message else []))
        (sym (in_range-suc j rounds i))

send_matching-fd :
    (rounds j i : ℕ) (test : ℕ → Bool) (message : Str) (s : Server)
    → (client_at (send_matching rounds j test message s) i).fd ≡ (client_at s i).fd
unfolding send_matching step
send_matching-fd zero j i test message s = refl
send_matching-fd (suc rounds) j i test message s =
    send_matching-fd rounds (suc j) i test message (step j test message s)
    ∙ step-fd j i test message s

send_matching-length :
    (rounds j : ℕ) (test : ℕ → Bool) (message : Str) (s : Server)
    → length (send_matching rounds j test message s).clients ≡ length s.clients
unfolding send_matching step
send_matching-length zero j test message s = refl
send_matching-length (suc rounds) j test message s =
    send_matching-length rounds (suc j) test message (step j test message s)
    ∙ step-length j test message s

-- The inner loop for one member.
member-buffer :
    (m i : ℕ) (keep : ℕ → Bool) (message : Str) (s : Server)
    → i < length s.clients
    → is_empty message ≡ false
    → send_buffer_at (send_matching (length s.clients) 0 (λ fd. fd == m && keep fd) message s) i
      ≡ send_buffer_at s i
        ++ (if (m == (client_at s i).fd) && keep (client_at s i).fd then message else [])
member-buffer m i keep message s h full =
    send_matching-buffer (length s.clients) 0 i (λ fd. fd == m && keep fd) message s h full
    ∙ ap (λ b. send_buffer_at s i ++ (if b then message else [])) inside
  where
    inside :
        (in_range 0 (length s.clients) i && ((client_at s i).fd == m && keep (client_at s i).fd))
        ≡ ((m == (client_at s i).fd) && keep (client_at s i).fd)
    inside = ground arith

-- A message to the members of a channel, each of whom stands there once, goes once to the client at
-- `i` if it is one of them and passes the further test, and to no other: nothing else is appended
-- to its send buffer. The message is not empty, and the client is there.
pub broadcast-buffer :
    (members : List ℕ) (i : ℕ) (keep : ℕ → Bool) (message : Str) (s : Server)
    → Distinct members
    → i < length s.clients
    → is_empty message ≡ false
    → send_buffer_at (broadcast members keep message s) i
      ≡ send_buffer_at s i
        ++ (if has_fd (client_at s i).fd members && keep (client_at s i).fd then message else [])
unfolding broadcast has_fd
broadcast-buffer [] i keep message s once h full = sym (append-nil (send_buffer_at s i))
broadcast-buffer (m ∷ members) i keep message s once h full =
    let test : ℕ → Bool = λ fd. fd == m && keep fd in
    let next = send_matching (length s.clients) 0 test message s in
    let fd = (client_at s i).fd in
    broadcast-buffer members i keep message next once.1
      (omega (arith, send_matching-length (length s.clients) 0 test message s)) full
    ∙ ap (λ fd. send_buffer_at next i ++ (if has_fd fd members && keep fd then message else []))
        (send_matching-fd (length s.clients) 0 i test message s)
    ∙ ap (λ b. b ++ (if has_fd fd members && keep fd then message else []))
        (member-buffer m i keep message s h full)
    ∙ append_both (send_buffer_at s i) message (m == fd) (has_fd fd members) (keep fd)
        (λ e. ap (λ x. has_fd x members) (sym ((==_iff m fd).0 e)) ∙ once.0)
