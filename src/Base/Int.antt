-- ===== src/Base/Int.antt =====
-- Signed integers over the native numbers, as far as the program computes with them.
use x402_k8s_operator.Base.{ℕ, zero, suc, ◌*◌, ◌/◌}

-- `negsuc n` is -(n + 1).
pub data ℤ : Type 0 where
  pos : ℕ → ℤ
  negsuc : ℕ → ℤ

abbrev pub neg_ℕ : ℕ → ℤ
neg_ℕ zero = pos 0
neg_ℕ (suc n) = negsuc n

-- The product with a natural number.
abbrev pub scale_ℤ : ℤ → ℕ → ℤ
scale_ℤ (pos a) n = pos (a * n)
scale_ℤ (negsuc a) n = neg_ℕ (suc a * n)

abbrev pub abs_ℤ : ℤ → ℕ
abs_ℤ (pos a) = a
abs_ℤ (negsuc a) = suc a

-- The quotient by a natural number, where it is exact.
abbrev pub quotient_ℤ : ℤ → ℕ → ℤ
quotient_ℤ (pos a) n = pos (a / n)
quotient_ℤ (negsuc a) n = neg_ℕ (suc a / n)
