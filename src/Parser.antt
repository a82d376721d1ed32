-- ===== src/Parser.antt =====
-- includes/Parser.hpp and srcs/parsser/Parser.cpp: one line as a message. The index `i` of the
-- source is the part of the line from `i` on.
pub mod RoundTrip
use ft_irc_server.Prelude.{
  ℕ, zero, suc, Bool, List, [], ◌∷◌, ◌||◌, Str, ◌==◌, if◌then◌else◌, length, get_or,
}

-- `struct Message`.
pub record Message : Type 0 where
  pub prefix : Str
  pub cmd : Str
  pub params : List Str

-- `params[i]`, which the handlers read only below `params.size()`.
abbrev pub param : Message → ℕ → Str
param m i = get_or m.params i []

abbrev pub is_blank : ℕ → Bool
is_blank c = c == b' ' || c == b'\t'

-- `while (... blank ...) i++`.
unfoldable pub skip_blanks : Str → Str
skip_blanks [] = []
skip_blanks (c ∷ cs) = if is_blank c then skip_blanks cs else c ∷ cs

-- What `while (... not blank ...) token += raw_line[i++]` appends, and where it stops.
unfoldable pub word : Str → Str
word [] = []
word (c ∷ cs) = if is_blank c then [] else c ∷ word cs

unfoldable pub after_word : Str → Str
after_word [] = []
after_word (c ∷ cs) = if is_blank c then c ∷ cs else after_word cs

-- The body of the last loop, once the blanks are skipped; `rest` goes on with the loop.
abbrev pub params_step : (Str → List Str) → Str → List Str
params_step rest [] = []
params_step rest (c ∷ cs) =
    if c == b':' then cs ∷ [] else word (c ∷ cs) ∷ rest (after_word (c ∷ cs))

-- The last loop. Each round reads a byte at least, so the length of the line is enough fuel.
unfoldable pub params_loop : ℕ → Str → List Str
params_loop zero line = []
params_loop (suc fuel) line = params_step (params_loop fuel) (skip_blanks line)

abbrev pub parse_params : Str → List Str
parse_params line = params_loop (suc (length line)) line

-- From the command on.
abbrev parse_command : Str → Str → Message
parse_command prefix line = record {
  prefix = prefix;
  cmd = word (skip_blanks line);
  params = parse_params (after_word (skip_blanks line));
}

abbrev pub parse_prefix : Str → Message
parse_prefix [] = parse_command [] []
parse_prefix (c ∷ cs) =
    if c == b':' then parse_command (word cs) (after_word cs) else parse_command [] (c ∷ cs)

unfoldable pub parse : Str → Message
unfolding skip_blanks word after_word params_loop
parse raw_line = parse_prefix (skip_blanks raw_line)
