-- ===== src/Prelude/Lists.antt =====
-- Lists measured and indexed by native numbers, and the search loops that the program repeats.
use Prim.Native.Nat.{ℕ, zero, suc}
use mathlib.Core.Bool.{Bool}
use mathlib.Core.List.{List, [], ◌∷◌}
use mathlib.Core.Option.{Option, none, some}
use ft_irc_server.Prelude.Tests.{if◌then◌else◌}

module _ {ℓ} {A : Type ℓ} where
  abbrev pub length : List A → ℕ
  length [] = 0
  length (x ∷ xs) = suc (length xs)

  abbrev pub get_elem? : List A → ℕ → Option A
  get_elem? [] i = none
  get_elem? (x ∷ xs) zero = some x
  get_elem? (x ∷ xs) (suc i) = get_elem? xs i

  abbrev pub get_or : List A → ℕ → A → A
  get_or [] i d = d
  get_or (x ∷ xs) zero d = x
  get_or (x ∷ xs) (suc i) d = get_or xs i d

  -- A call of a method on the element at an index; out of bounds nothing changes.
  abbrev pub modify : ℕ → (A → A) → List A → List A
  modify i f [] = []
  modify zero f (x ∷ xs) = f x ∷ xs
  modify (suc i) f (x ∷ xs) = x ∷ modify i f xs

  -- `v.erase(v.begin() + i)`.
  abbrev pub erase_at : ℕ → List A → List A
  erase_at i [] = []
  erase_at zero (x ∷ xs) = xs
  erase_at (suc i) (x ∷ xs) = x ∷ erase_at i xs

  -- The search loop that stops at the first hit; `i` is the index of the first element left.
  abbrev pub find_first : (A → Bool) → ℕ → List A → Option ℕ
  find_first test i [] = none
  find_first test i (x ∷ xs) = if test x then some i else find_first test (suc i) xs

  -- The search loop with no `break`: a later hit replaces an earlier one.
  abbrev pub find_last : (A → Bool) → ℕ → List A → Option ℕ → Option ℕ
  find_last test i [] found = found
  find_last test i (x ∷ xs) found = find_last test (suc i) xs (if test x then some i else found)

  abbrev pub All {κ} : (A → Type κ) → List A → Type κ
  All P [] = Unit
  All P (x ∷ xs) = P x × All P xs
