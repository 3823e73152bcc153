-- ===== src/Python/Int.antt =====
-- Python's integers, over the native numbers.
use staykey_ha_plugin.Prelude.{ℕ, Bool, true, false, ◌%◌, ltb, leb, eqb}

-- `negsuc n` is -(n + 1).
pub data ℤ : Type 0 where
  pos : ℕ → ℤ
  negsuc : ℕ → ℤ

-- `0 < i`
abbrev pub is_positive : ℤ → Bool
is_positive (pos n) = ltb 0 n
is_positive (negsuc n) = false

-- `i < n`, at a number that is not negative
abbrev pub lt_ℕ : ℤ → ℕ → Bool
lt_ℕ (pos m) n = ltb m n
lt_ℕ (negsuc m) n = true

-- `i <= n`
abbrev pub le_ℕ : ℤ → ℕ → Bool
le_ℕ (pos m) n = leb m n
le_ℕ (negsuc m) n = true

-- `i & 1 != 0`: -(n + 1) is odd where n is even
abbrev pub is_odd : ℤ → Bool
is_odd (pos n) = eqb (n % 2) 1
is_odd (negsuc n) = eqb (n % 2) 0
