-- ===== src/Network/Stream.antt =====
-- `handle_user` on the stream of bytes that TCP hands over, however `recv` cuts it up.
mod Splitting
pub use Splitting.{lines_from, remainder_from}
use Splitting.{
  lines_from-cut, lines_from-none, remainder_from-cut, remainder_from-none, cut_line-length,
  lines_from-append, remainder_from-append, lines_from-held, remainder_from-held,
  remainder-no_newline,
}
use ft_irc_server.Client.{Client, new_client, append_buff}
use ft_irc_server.Commands.Dispatch.{dispatch_command}
use ft_irc_server.Effect.Refines.{dispatch_command-Effect}
use ft_irc_server.Effect.Roster.{Effect-length}
use ft_irc_server.Network.Lines.{cut_line, chop_return}
use ft_irc_server.Network.Rebuffer.Modes.{dispatch_command-rebuffer}
use ft_irc_server.Network.Rebuffer.Reads.{length-modify}
use ft_irc_server.Network.Rebuffer.{rebuffer}
use ft_irc_server.Network.{Received, received, handle_user, extract_msg, extract_loop, set_buffer}
use ft_irc_server.Parser.{parse}
use ft_irc_server.Prelude.{
  ℕ, zero, suc, ◌+◌, ◌-◌, ◌<◌, ◌≡◌, refl, sym, ap, ◌∙◌, Bool, List, [], ◌∷◌, ◌++◌, none, some, inl,
  inr, Str, arith, length, get_or, modify, Option-cases, on_found, modify-modify, modify_congr,
  false, append_assoc,
}
use ft_irc_server.Server.{Server, client_at, update_client}

-- The commands of the client at `k` for these lines, one after the other.
unfoldable pub run_lines : ℕ → List Str → Server → Server
run_lines k [] s = s
run_lines k (line ∷ lines) s = run_lines k lines (dispatch_command k (chop_return line) s)

run_lines-append :
    (k : ℕ) (xs ys : List Str) (s : Server)
    → run_lines k (xs ++ ys) s ≡ run_lines k ys (run_lines k xs s)
unfolding run_lines
run_lines-append k [] ys s = refl
run_lines-append k (x ∷ xs) ys s = run_lines-append k xs ys _

dispatch-length :
    (k : ℕ) (line : Str) (s : Server)
    → length (dispatch_command k line s).clients ≡ length s.clients
dispatch-length k line s = Effect-length k (parse line) s _ (dispatch_command-Effect k line s)

run_lines-length :
    (k : ℕ) (lines : List Str) (s : Server)
    → length (run_lines k lines s).clients ≡ length s.clients
unfolding run_lines
run_lines-length k [] s = refl
run_lines-length k (line ∷ lines) s =
    run_lines-length k lines _ ∙ dispatch-length k (chop_return line) s

run_lines-rebuffer :
    (k : ℕ) (b : Str) (lines : List Str) (s : Server)
    → run_lines k lines (rebuffer k b s) ≡ rebuffer k b (run_lines k lines s)
unfolding run_lines
run_lines-rebuffer k b [] s = refl
run_lines-rebuffer k b (line ∷ lines) s =
    ap (run_lines k lines) (dispatch_command-rebuffer k b k (chop_return line) s)
    ∙ run_lines-rebuffer k b lines _

buffer-rebuffer :
    (k : ℕ) (b : Str) (s : Server)
    → k < length s.clients
    → (client_at (rebuffer k b s) k).buffer ≡ b
unfolding rebuffer
buffer-rebuffer k b s h = read k s.clients h
  where
    read :
        (k : ℕ) (cs : List Client)
        → k < length cs
        → (get_or (modify k (set_buffer b) cs) k (new_client 0)).buffer ≡ b
    read k [] h = elim h [ ]
    read zero (c ∷ cs) h = refl
    read (suc k) (c ∷ cs) h = read k cs (omega arith)

rebuffer-twice :
    (k : ℕ) (a b : Str) (s : Server)
    → update_client k (set_buffer b) (rebuffer k a s) ≡ rebuffer k b s
unfolding rebuffer
rebuffer-twice k a b s =
    ap (λ cs. record s { clients = cs }) (modify-modify k (set_buffer a) (set_buffer b) s.clients)

rebuffer-length :
    (k : ℕ) (b : Str) (s : Server) → length (rebuffer k b s).clients ≡ length s.clients
unfolding rebuffer
rebuffer-length k b s = length-modify k (set_buffer b) s.clients

rebuffer-over : (k : ℕ) (a b : Str) (s : Server) → rebuffer k b (rebuffer k a s) ≡ rebuffer k b s
unfolding rebuffer
rebuffer-over k a b s = rebuffer-twice k a b s

-- Running the lines after a change of the buffer, which is then written again.
run_lines-rewritten :
    (k : ℕ) (a b : Str) (lines : List Str) (s : Server)
    → rebuffer k b (run_lines k lines (rebuffer k a s)) ≡ rebuffer k b (run_lines k lines s)
run_lines-rewritten k a b lines s =
    ap (rebuffer k b) (run_lines-rebuffer k a lines s) ∙ rebuffer-over k a b (run_lines k lines s)

-- The loop runs the complete lines of the buffer and leaves the rest.
extract_loop_lem :
    (fuel k : ℕ) (buffer : Str) (s : Server)
    → k < length s.clients
    → length buffer < fuel
    → extract_loop fuel k (rebuffer k buffer s)
      ≡ rebuffer k (remainder_from [] buffer) (run_lines k (lines_from [] buffer) s)
unfolding extract_loop run_lines
extract_loop_lem zero k buffer s here h = elim h [ ]
extract_loop_lem (suc fuel) k buffer s here h = elim (Option-cases (cut_line buffer)) [
  | inl whole ↦ rw (
    buffer-rebuffer k buffer s here,
    whole,
    lines_from-none [] buffer whole,
    remainder_from-none [] buffer whole,
  )
  | inr (cut, found) ↦
      rw
        (
          buffer-rebuffer k buffer s here,
          found,
          lines_from-cut [] buffer cut found,
          remainder_from-cut [] buffer cut found,
        )
        (ap (λ t. extract_loop fuel k (dispatch_command k (chop_return cut.0) t))
            (rebuffer-twice k buffer cut.1 s)
          ∙ ap (extract_loop fuel k) (dispatch_command-rebuffer k cut.1 k (chop_return cut.0) s)
          ∙ extract_loop_lem fuel k cut.1 (dispatch_command k (chop_return cut.0) s)
              (omega (arith, dispatch-length k (chop_return cut.0) s))
              (omega (arith, cut_line-length buffer cut found)))
]

append_buff-rebuffer :
    (k : ℕ) (bytes : Str) (s : Server)
    → update_client k (append_buff bytes) s ≡ rebuffer k ((client_at s k).buffer ++ bytes) s
unfolding rebuffer
append_buff-rebuffer k bytes s =
    ap (λ cs. record s { clients = cs })
      (modify_congr k (append_buff bytes) (set_buffer ((client_at s k).buffer ++ bytes)) s.clients _
        refl)

-- What one `recv` with data leads to, for a client that is there: the complete lines of what the
-- client has sent are run in their order, and the rest is kept. A line is complete at its newline,
-- with or without a carriage return before it, which is taken off with the newline.
pub handle_user_lem :
    (k : ℕ) (byte : ℕ) (bytes : Str) (s : Server)
    → k < length s.clients
    → let sent = (client_at s k).buffer ++ byte ∷ bytes in
      handle_user (suc k) (received (byte ∷ bytes)) s
      ≡ (rebuffer k (remainder_from [] sent) (run_lines k (lines_from [] sent) s), false)
unfolding handle_user extract_msg
handle_user_lem k byte bytes s here =
    let sent = (client_at s k).buffer ++ byte ∷ bytes in
    let index : suc k - 1 ≡ k = omega arith in
    let loop : ℕ → Server → Server × Bool = λ n t. (extract_loop (suc n) k t, false) in
    rw index (
      ap (λ t. loop (length (client_at t k).buffer) t) (append_buff-rebuffer k (byte ∷ bytes) s)
      ∙ ap (λ b. loop (length b) (rebuffer k sent s)) (buffer-rebuffer k sent s here)
      ∙ ap (λ t. (t, false)) (extract_loop_lem (suc (length sent)) k sent s here (omega arith)))

run_lines-split :
    (k : ℕ) (first rest : Str) (s : Server)
    → let kept = remainder_from [] first in
      rebuffer k (remainder_from [] (first ++ rest)) (run_lines k (lines_from [] (first ++ rest)) s)
      ≡ rebuffer k (remainder_from [] (kept ++ rest)) (
          run_lines k
            (lines_from [] (kept ++ rest))
            (rebuffer k kept (run_lines k (lines_from [] first) s)))
run_lines-split k first rest s =
    let kept = remainder_from [] first in
    let ran = run_lines k (lines_from [] first) s in
    rw
      (
        lines_from-append [] first rest,
        remainder_from-append [] first rest,
        lines_from-held first rest,
        remainder_from-held first rest,
      )
      (ap (rebuffer k (remainder_from kept rest))
          (run_lines-append k (lines_from [] first) (lines_from kept rest) s)
        ∙ sym (run_lines-rewritten k kept (remainder_from kept rest) (lines_from kept rest) ran))

-- For a client that is there, the server after two pieces of its stream in turn is the server after
-- both at once.
pub handle_user-append :
    (k x y : ℕ) (xs ys : Str) (s : Server)
    → k < length s.clients
    → handle_user (suc k) (received (x ∷ xs ++ y ∷ ys)) s
      ≡ handle_user (suc k) (received (y ∷ ys)) (handle_user (suc k) (received (x ∷ xs)) s).0
handle_user-append k x y xs ys s here =
    let held = (client_at s k).buffer in
    let first = held ++ x ∷ xs in
    let kept = remainder_from [] first in
    let ran = run_lines k (lines_from [] first) s in
    let still : k < length ran.clients =
      omega (arith, run_lines-length k (lines_from [] first) s) in
    let here2 : k < length (rebuffer k kept ran).clients =
      omega (arith, rebuffer-length k kept ran) in
    handle_user_lem k x (xs ++ y ∷ ys) s here
    ∙ ap (λ t. (t, false))
        (ap (λ b. rebuffer k (remainder_from [] b) (run_lines k (lines_from [] b) s))
            (sym (append_assoc held (x ∷ xs) (y ∷ ys)))
          ∙ run_lines-split k first (y ∷ ys) s)
    ∙ sym (
        ap (λ r. handle_user (suc k) (received (y ∷ ys)) r.0) (handle_user_lem k x xs s here)
        ∙ handle_user_lem k y ys (rebuffer k kept ran) here2
        ∙ ap
            (λ b. (
              rebuffer k (remainder_from [] (b ++ y ∷ ys))
                  (run_lines k (lines_from [] (b ++ y ∷ ys)) (rebuffer k kept ran)),
              false,
            ))
            (buffer-rebuffer k kept ran still))

-- No client comes or goes where data is read.
pub handle_user-length :
    (k : ℕ) (byte : ℕ) (bytes : Str) (s : Server)
    → k < length s.clients
    → length (handle_user (suc k) (received (byte ∷ bytes)) s).0.clients ≡ length s.clients
handle_user-length k byte bytes s here =
    let sent = (client_at s k).buffer ++ byte ∷ bytes in
    ap (λ r. length r.0.clients) (handle_user_lem k byte bytes s here)
    ∙ rebuffer-length k (remainder_from [] sent) (run_lines k (lines_from [] sent) s)
    ∙ run_lines-length k (lines_from [] sent) s
