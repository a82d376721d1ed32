-- ===== src/Prelude/Bytes.antt =====
-- A `std::string` is the list of its bytes.
use Prim.Native.Char.{code}
use Prim.Native.Nat.{ℕ}
use Prim.Native.String.{String}
use mathlib.Core.Path.{◌≡◌, refl}
use mathlib.Core.Logic.{◌↔◌}
use mathlib.Core.Bool.{Bool, true, false, ◌&&◌}
use mathlib.Core.List.{List, [], ◌∷◌}
use native.Mathlib.Omega.{arith}
use ft_irc_server.Prelude.Tests.{◌==◌}

abbrev pub Str : Type 0
Str = List ℕ

-- The bytes of a literal, all of them ASCII.
unfoldable pub text : String → Str
text String.[] = []
text (String.◌∷◌ c s) = code c ∷ text s

abbrev pub is_empty {ℓ} : {A : Type ℓ} → List A → Bool
is_empty [] = true
is_empty (x ∷ xs) = false

-- `==` of two strings.
unfoldable pub same : Str → Str → Bool
same [] [] = true
same (x ∷ xs) (y ∷ ys) = x == y && same xs ys
same _ _ = false

same→eq : (a b : Str) → same a b ≡ true → a ≡ b
unfolding same
same→eq [] [] h = refl
same→eq (x ∷ xs) (y ∷ ys) h = ground (arith, same→eq xs ys)
same→eq [] (y ∷ ys) h = cc
same→eq (x ∷ xs) [] h = cc

pub same_refl : (a : Str) → same a a ≡ true
unfolding same
same_refl [] = refl
same_refl (x ∷ xs) = ground (arith, same_refl xs)

pub same_iff : (a b : Str) → (same a b ≡ true) ↔ (a ≡ b)
same_iff a b = (same→eq a b, λ e. ground (arith, e, same_refl a))
