-- ===== src/Int.antt =====
-- A C++ `int` of 32 bits, as the integer that it stands for.
use ft_irc_server.Prelude.{ℕ, suc, ◌+◌, ◌-◌, ◌%◌, ◌^◌, Bool, false, ltb, leb, if◌then◌else◌}

-- `negsuc n` is -(n + 1).
pub data ℤ : Type 0 where
  pos : ℕ → ℤ
  negsuc : ℕ → ℤ

abbrev pub pos_part : ℤ → ℕ
pos_part (pos n) = n
pos_part (negsuc n) = 0

abbrev pub neg_part : ℤ → ℕ
neg_part (pos n) = 0
neg_part (negsuc n) = suc n

-- `n > 0`.
abbrev pub is_positive : ℤ → Bool
is_positive (pos n) = ltb 0 n
is_positive (negsuc n) = false

-- `a >= b`.
abbrev pub geb_ℤ : ℤ → ℤ → Bool
geb_ℤ a b = leb (pos_part b + neg_part a) (pos_part a + neg_part b)

-- The conversion of a wider integer, known modulo 2^32, to `int`.
unfoldable pub to_int : ℕ → ℤ
to_int n = let low = n % 2 ^ 32 in if ltb low (2 ^ 31) then pos low else negsuc (2 ^ 32 - 1 - low)
