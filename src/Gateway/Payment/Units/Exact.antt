-- ===== src/Gateway/Payment/Units/Exact.antt =====
-- The conversion of prices is exact.
use native.Mathlib.Nat.{div-add-mod, mul-mod_left, mul-div_cancel, zero-mul, zero-div}
use x402_k8s_operator.Base.{ℕ, zero, suc, ◌*◌, ◌/◌, ◌%◌, ◌^◌, ◌<◌, ◌≡◌, refl, ap, ◌∙◌}
use x402_k8s_operator.Base.{◌≢◌, ◌↔◌, inl, inr}
use x402_k8s_operator.Base.{Option, some, [], ◌∷◌, arith}
use x402_k8s_operator.Base.{Str, if◌then◌else◌}
use x402_k8s_operator.Base.{Bool-cases, ok, err}
use x402_k8s_operator.Base.Int.{ℤ, pos, negsuc, neg_ℕ, scale_ℤ, abs_ℤ, quotient_ℤ}
use x402_k8s_operator.Base.Decimal.{show_ℤ}
use x402_k8s_operator.Gateway.Payment.Units.{
  Rat, too_many_decimals, mul_whole, is_whole, whole_part, human_to_atomic_units,
}

quotient_exact : (a n : ℕ) → a % n ≡ 0 → a / n * n ≡ a
quotient_exact a n h = grind (arith, div-add-mod a n)

scale_neg : (a n : ℕ) → scale_ℤ (neg_ℕ a) n ≡ neg_ℕ (a * n)
scale_neg zero n = rw (zero-mul n)
scale_neg (suc a) n = refl

-- The quotient times the divisor is the number that it divides.
scale_quotient : (z : ℤ) (n : ℕ) → abs_ℤ z % n ≡ 0 → scale_ℤ (quotient_ℤ z n) n ≡ z
scale_quotient (pos a) n h = ap pos (quotient_exact a n h)
scale_quotient (negsuc a) n h = scale_neg (suc a / n) n ∙ ap neg_ℕ (quotient_exact (suc a) n h)

abs_neg : (a : ℕ) → abs_ℤ (neg_ℕ a) ≡ a
abs_neg zero = refl
abs_neg (suc a) = refl

abs_scale : (z : ℤ) (n : ℕ) → abs_ℤ (scale_ℤ z n) ≡ abs_ℤ z * n
abs_scale (pos a) n = refl
abs_scale (negsuc a) n = abs_neg (suc a * n)

quotient_neg : (a n : ℕ) → quotient_ℤ (neg_ℕ a) n ≡ neg_ℕ (a / n)
quotient_neg zero n = rw (zero-div n)
quotient_neg (suc a) n = refl

quotient_scale : (z : ℤ) (n : ℕ) → 0 < n → quotient_ℤ (scale_ℤ z n) n ≡ z
quotient_scale (pos a) n h = ap pos (mul-div_cancel a h)
quotient_scale (negsuc a) n h = quotient_neg (suc a * n) n ∙ ap neg_ℕ (mul-div_cancel (suc a) h)

-- The integers that a fraction is worth: at most one, and one just when the division is exact.
module _ (num : ℤ) (den : ℕ) (pos_den : 0 < den) where
  quotient_of_scale : (z : ℤ) → scale_ℤ z den ≡ num → quotient_ℤ num den ≡ z
  quotient_of_scale z e = rw (← e) (quotient_scale z den pos_den)

  whole_of_scale : (z : ℤ) → scale_ℤ z den ≡ num → abs_ℤ num % den ≡ 0
  whole_of_scale z e = rw (← e, abs_scale z den) (mul-mod_left (abs_ℤ z) den)

human_to_atomic_units_read :
    (set_string : Str → Option Rat) (price : Str) (rat : Rat) (decimals : ℕ)
    → price ≢ []
    → set_string price ≡ some rat
    → human_to_atomic_units set_string price decimals ≡ (
        if is_whole (mul_whole rat (10 ^ decimals))
        then ok (show_ℤ (whole_part (mul_whole rat (10 ^ decimals))))
        else err too_many_decimals)
unfolding human_to_atomic_units
human_to_atomic_units_read set_string [] rat decimals some_price reads = absurd (some_price refl)
human_to_atomic_units_read set_string (c ∷ price) rat decimals some_price reads = rw reads

-- What a price is worth in atomic units: a whole number z with z * den = num * 10 ^ decimals.
abbrev pub IsWorth : Rat → ℕ → ℤ → Type 0
IsWorth rat decimals z = scale_ℤ z rat.den ≡ scale_ℤ rat.num (10 ^ decimals)

-- A price that reads as a fraction with a positive denominator is converted just to the decimal
-- text of the whole number of atomic units that it is worth, without rounding; it is refused
-- for its decimals just when there is no such number.
pub human_to_atomic_units_exact :
    (set_string : Str → Option Rat) (price : Str) (rat : Rat) (decimals : ℕ)
    → price ≢ []
    → set_string price ≡ some rat
    → 0 < rat.den
    → ((text : Str)
        → (human_to_atomic_units set_string price decimals ≡ ok text)
          ↔ ((z : ℤ) × IsWorth rat decimals z × (text ≡ show_ℤ z)))
      × ((human_to_atomic_units set_string price decimals ≡ err too_many_decimals)
          ↔ ((z : ℤ) → ¬ IsWorth rat decimals z))
human_to_atomic_units_exact set_string price rat decimals some_price reads pos_den =
    let n : ℤ = scale_ℤ rat.num (10 ^ decimals) in
    let q : ℤ = quotient_ℤ n rat.den in
    rw (human_to_atomic_units_read set_string price rat decimals some_price reads)
      (elim (Bool-cases (is_whole (mul_whole rat (10 ^ decimals)))) [
        | inl whole ↦ rw whole (
          λ text. (
            λ e. (q, scale_quotient n rat.den (ground arith), cc),
            λ (z, worth, e). rw (quotient_of_scale n rat.den pos_den z worth, e),
          ),
          (λ e. cc, λ none_worth. absurd (none_worth q (scale_quotient n rat.den (ground arith)))),
        )
        | inr broken ↦ rw broken (
          λ text. (
            λ e. cc,
            λ (z, worth, e). absurd (ground (arith, whole_of_scale n rat.den pos_den z worth)),
          ),
          (
            λ e z worth. ground (arith, whole_of_scale n rat.den pos_den z worth),
            λ none_worth. refl,
          ),
        )
      ])
