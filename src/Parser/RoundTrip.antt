-- ===== src/Parser/RoundTrip.antt =====
-- srcs/parsser/Parser.cpp on lines written by the protocol: a command, parameters that are words,
-- and a last parameter behind a colon, which may hold blanks.
use ft_irc_server.Parser.{is_blank, skip_blanks, word, after_word, params_step, params_loop, parse}
use ft_irc_server.Prelude.{
  ℕ, zero, suc, ◌<◌, ◌≡◌, refl, ap, ◌∙◌, Bool, true, false, not, ◌&&◌, List, [], ◌∷◌, ◌++◌, Str,
  arith, ◌==◌, length, All,
}

unfoldable pub no_blanks : Str → Bool
no_blanks [] = true
no_blanks (c ∷ cs) = not (is_blank c) && no_blanks cs

-- A command, or a parameter that is not the last: no blanks, and no colon at its start.
abbrev pub is_middle : Str → Bool
is_middle [] = false
is_middle (c ∷ cs) = not (c == b':') && no_blanks (c ∷ cs)

-- The parameters as a client writes them.
unfoldable pub print_params : List Str → Str → Str
print_params [] last = b':' ∷ last
print_params (m ∷ middles) last = m ++ b' ' ∷ print_params middles last

abbrev pub print_line : Str → List Str → Str → Str
print_line cmd middles last = cmd ++ b' ' ∷ print_params middles last

word-append : (w rest : Str) → no_blanks w ≡ true → word (w ++ b' ' ∷ rest) ≡ w
unfolding word no_blanks
word-append [] rest h = refl
word-append (c ∷ cs) rest h = ground (arith, word-append cs rest)

after_word-append :
    (w rest : Str) → no_blanks w ≡ true → after_word (w ++ b' ' ∷ rest) ≡ b' ' ∷ rest
unfolding after_word no_blanks
after_word-append [] rest h = refl
after_word-append (c ∷ cs) rest h = ground (arith, after_word-append cs rest)

skip_blanks-middle : (m rest : Str) → is_middle m ≡ true → skip_blanks (m ++ rest) ≡ m ++ rest
unfolding skip_blanks no_blanks
skip_blanks-middle [] rest h = cc
skip_blanks-middle (c ∷ cs) rest h = ground arith

middle-no_blanks : (m : Str) → is_middle m ≡ true → no_blanks m ≡ true
unfolding no_blanks
middle-no_blanks [] h = refl
middle-no_blanks (c ∷ cs) h = ground arith

-- One round of the loop reads one parameter.
params_step-middle :
    (loop : Str → List Str) (m rest : Str)
    → is_middle m ≡ true
    → params_step loop (m ++ b' ' ∷ rest) ≡ m ∷ loop (b' ' ∷ rest)
params_step-middle loop [] rest h = cc
params_step-middle loop (c ∷ cs) rest h =
    let clear = middle-no_blanks (c ∷ cs) h in
    rw (colon, word-append (c ∷ cs) rest clear, after_word-append (c ∷ cs) rest clear) refl
  where
    colon : (c == b':') ≡ false
    colon = ground arith

params_loop-print :
    (fuel : ℕ) (middles : List Str) (last : Str)
    → length middles < fuel
    → All (λ m. is_middle m ≡ true) middles
    → params_loop fuel (b' ' ∷ print_params middles last) ≡ middles ++ last ∷ []
unfolding params_loop print_params skip_blanks
params_loop-print zero middles last h ok = elim h [ ]
params_loop-print (suc fuel) [] last h ok = refl
params_loop-print (suc fuel) (m ∷ middles) last h ok =
    ap (params_step (params_loop fuel))
      (skip_blanks-middle m (b' ' ∷ print_params middles last) ok.0)
    ∙ params_step-middle (params_loop fuel) m (print_params middles last) ok.0
    ∙ ap (◌∷◌ m) (params_loop-print fuel middles last (omega arith) ok.1)

length-print :
    (middles : List Str) (last : Str) → length middles < length (print_params middles last)
unfolding print_params
length-print [] last = omega arith
length-print (m ∷ middles) last = longer m (length-print middles last)
  where
    longer :
        (w : Str)
        → length middles < length (print_params middles last)
        → suc (length middles) < length (w ++ b' ' ∷ print_params middles last)
    longer [] h = omega arith
    longer (c ∷ w) h = omega (arith, longer w h)

-- A line that is written from a command, parameters that are words with no colon at their start,
-- and any last parameter is parsed to just these.
pub parse-print_line :
    (cmd : Str) (middles : List Str) (last : Str)
    → is_middle cmd ≡ true
    → All (λ m. is_middle m ≡ true) middles
    → parse (print_line cmd middles last)
      ≡ record { prefix = []; cmd = cmd; params = middles ++ last ∷ [] }
unfolding parse
parse-print_line [] middles last h ok = cc
parse-print_line (c ∷ cs) middles last h ok =
    let rest = print_params middles last in
    let clear = middle-no_blanks (c ∷ cs) h in
    let start = skip_blanks-middle (c ∷ cs) (b' ' ∷ rest) h in
    rw
      (
        start,
        colon,
        start,
        word-append (c ∷ cs) rest clear,
        after_word-append (c ∷ cs) rest clear,
        params_loop-print (suc (length (b' ' ∷ rest))) middles last
            (omega (arith, length-print middles last)) ok,
      )
      refl
  where
    colon : (c == b':') ≡ false
    colon = ground arith
