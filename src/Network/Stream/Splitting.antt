-- ===== src/Network/Stream/Splitting.antt =====
-- A stream as lines: what is complete, and what is left.
use ft_irc_server.Network.Lines.{cut_line}
use ft_irc_server.Prelude.{
  ℕ, ◌<◌, ◌≡◌, refl, sym, ap, ◌∙◌, subst, Bool, true, false, List, [], ◌∷◌, ◌++◌, none, some, inl,
  inr, Str, arith, ◌==◌, if◌then◌else◌, length, Bool-cases, Option-cases, append-nil, append_assoc,
}

-- The complete lines, behind a line begun before.
unfoldable pub lines_from : Str → Str → List Str
lines_from line [] = []
lines_from line (c ∷ cs) =
    let rest = lines_from (if c == b'\n' then [] else line ++ c ∷ []) cs in
    if c == b'\n' then line ∷ rest else rest

-- The line that is not complete yet.
unfoldable pub remainder_from : Str → Str → Str
remainder_from line [] = line
remainder_from line (c ∷ cs) = remainder_from (if c == b'\n' then [] else line ++ c ∷ []) cs

pub lines_from-append :
    (line xs ys : Str)
    → lines_from line (xs ++ ys) ≡ lines_from line xs ++ lines_from (remainder_from line xs) ys
unfolding lines_from remainder_from
lines_from-append line [] ys = refl
lines_from-append line (c ∷ cs) ys =
    ground (arith, lines_from-append (if c == b'\n' then [] else line ++ c ∷ []) cs ys)

pub remainder_from-append :
    (line xs ys : Str) → remainder_from line (xs ++ ys) ≡ remainder_from (remainder_from line xs) ys
unfolding remainder_from
remainder_from-append line [] ys = refl
remainder_from-append line (c ∷ cs) ys =
    remainder_from-append (if c == b'\n' then [] else line ++ c ∷ []) cs ys

pub has_newline : Str → Bool
has_newline [] = false
has_newline (c ∷ cs) = if c == b'\n' then true else has_newline cs

has_newline-append_one :
    (xs : Str) (c : ℕ)
    → has_newline xs ≡ false
    → (c == b'\n') ≡ false
    → has_newline (xs ++ c ∷ []) ≡ false
unfolding has_newline
has_newline-append_one [] c h n = ground arith
has_newline-append_one (x ∷ xs) c h n = ground (arith, has_newline-append_one xs c)

pub remainder-no_newline :
    (line xs : Str) → has_newline line ≡ false → has_newline (remainder_from line xs) ≡ false
unfolding remainder_from has_newline
remainder-no_newline line [] h = h
remainder-no_newline line (c ∷ cs) h = elim (Bool-cases (c == b'\n')) [
  | inl e ↦
      subst (λ b. has_newline (remainder_from (if b then [] else line ++ c ∷ []) cs) ≡ false)
        (sym e) (remainder-no_newline [] cs refl)
  | inr e ↦
      subst (λ b. has_newline (remainder_from (if b then [] else line ++ c ∷ []) cs) ≡ false)
        (sym e) (remainder-no_newline (line ++ c ∷ []) cs (has_newline-append_one line c h e))
]

-- A line begun before may as well be read again.
held_lines :
    (line held ys : Str)
    → has_newline held ≡ false
    → lines_from line (held ++ ys) ≡ lines_from (line ++ held) ys
unfolding lines_from has_newline
held_lines line [] ys h = rw append-nil
held_lines line (c ∷ cs) ys h = elim (Bool-cases (c == b'\n')) [
  | inl e ↦ ground (arith, e)
  | inr e ↦ rw e (
      held_lines (line ++ c ∷ []) cs ys (rw e at h)
      ∙ ap (λ l. lines_from l ys) (append_assoc line (c ∷ []) cs))
]

held_remainder :
    (line held ys : Str)
    → has_newline held ≡ false
    → remainder_from line (held ++ ys) ≡ remainder_from (line ++ held) ys
unfolding remainder_from has_newline
held_remainder line [] ys h = rw append-nil
held_remainder line (c ∷ cs) ys h = elim (Bool-cases (c == b'\n')) [
  | inl e ↦ ground (arith, e)
  | inr e ↦
      ap (λ l. remainder_from l (cs ++ ys)) (begun e)
      ∙ held_remainder (line ++ c ∷ []) cs ys (rw e at h)
      ∙ ap (λ l. remainder_from l ys) (append_assoc line (c ∷ []) cs)
]
  where
    begun : (c == b'\n') ≡ false → (if c == b'\n' then [] else line ++ c ∷ []) ≡ line ++ c ∷ []
    begun e = rw e

pub lines_from-held :
    (xs ys : Str)
    → lines_from [] (remainder_from [] xs ++ ys) ≡ lines_from (remainder_from [] xs) ys
unfolding has_newline
lines_from-held xs ys = held_lines [] (remainder_from [] xs) ys (remainder-no_newline [] xs refl)

pub remainder_from-held :
    (xs ys : Str)
    → remainder_from [] (remainder_from [] xs ++ ys) ≡ remainder_from (remainder_from [] xs) ys
unfolding has_newline
remainder_from-held xs ys =
    held_remainder [] (remainder_from [] xs) ys (remainder-no_newline [] xs refl)

-- `cut_line` finds the first of the lines.
pub lines_from-none : (line xs : Str) → cut_line xs ≡ none → lines_from line xs ≡ []
unfolding lines_from cut_line
lines_from-none line [] e = refl
lines_from-none line (c ∷ cs) e = ground (arith, lines_from-none (line ++ c ∷ []) cs)

pub remainder_from-none : (line xs : Str) → cut_line xs ≡ none → remainder_from line xs ≡ line ++ xs
unfolding remainder_from cut_line
remainder_from-none line [] e = rw append-nil
remainder_from-none line (c ∷ cs) e =
    ground (arith, remainder_from-none (line ++ c ∷ []) cs, append_assoc line (c ∷ []) cs)

pub lines_from-cut :
    (line xs : Str) (cut : Str × Str)
    → cut_line xs ≡ some cut
    → lines_from line xs ≡ (line ++ cut.0) ∷ lines_from [] cut.1
unfolding lines_from cut_line
lines_from-cut line [] cut e = cc
lines_from-cut line (c ∷ cs) cut e = elim (Bool-cases (c == b'\n')) [
  | inl nl ↦ ground (arith, nl, append-nil line)
  | inr other ↦ elim (Option-cases (cut_line cs)) [
    | inl absent ↦ ground (arith, absent, other)
    | inr (inner, found) ↦ ground (
      arith,
      found,
      other,
      lines_from-cut (line ++ c ∷ []) cs inner found,
      append_assoc line (c ∷ []) inner.0,
    )
  ]
]

pub remainder_from-cut :
    (line xs : Str) (cut : Str × Str)
    → cut_line xs ≡ some cut
    → remainder_from line xs ≡ remainder_from [] cut.1
unfolding remainder_from cut_line
remainder_from-cut line [] cut e = cc
remainder_from-cut line (c ∷ cs) cut e = elim (Bool-cases (c == b'\n')) [
  | inl nl ↦ ground (arith, nl)
  | inr other ↦ elim (Option-cases (cut_line cs)) [
    | inl absent ↦ ground (arith, absent, other)
    | inr (inner, found) ↦
        ground (arith, found, other, remainder_from-cut (line ++ c ∷ []) cs inner found)
  ]
]

pub cut_line-length :
    (xs : Str) (cut : Str × Str) → cut_line xs ≡ some cut → length cut.1 < length xs
unfolding cut_line
cut_line-length [] cut e = cc
cut_line-length (c ∷ cs) cut e = elim (Option-cases (cut_line cs)) [
  | inl absent ↦ ground (arith, absent)
  | inr (inner, found) ↦ ground (arith, found, cut_line-length cs inner found)
]
