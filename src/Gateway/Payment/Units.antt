-- ===== src/Gateway/Payment/Units.antt =====
-- `humanToAtomicUnits` of internal/gateway/payment.go.
pub mod Exact
use x402_k8s_operator.Base.{ℕ, ◌%◌, ◌^◌}
use x402_k8s_operator.Base.{Bool}
use x402_k8s_operator.Base.{Option, none, some}
use x402_k8s_operator.Base.{Str, eqb, if◌then◌else◌}
use x402_k8s_operator.Base.{Result, ok, err}
use x402_k8s_operator.Base.Int.{ℤ, scale_ℤ, abs_ℤ, quotient_ℤ}
use x402_k8s_operator.Base.Decimal.{show_ℤ}
use x402_k8s_operator.Base.Text.{is_empty}

-- A `big.Rat` by a fraction that stands for it, in lowest terms or not. The denominator of one that
-- `SetString` returns is positive.
pub record Rat : Type 0 where
  pub num : ℤ
  pub den : ℕ

pub data PriceError : Type 0 where
  empty_price invalid_format too_many_decimals : PriceError

-- `rat.Mul` by a whole number
abbrev pub mul_whole : Rat → ℕ → Rat
mul_whole r n = record r { num = scale_ℤ r.num n }

-- `rat.IsInt`: the denominator goes into the numerator.
abbrev pub is_whole : Rat → Bool
is_whole r = eqb (abs_ℤ r.num % r.den) 0

-- `rat.Num` of a whole number
abbrev pub whole_part : Rat → ℤ
whole_part r = quotient_ℤ r.num r.den

-- `set_string` is the parser `(*big.Rat).SetString`.
unfoldable pub human_to_atomic_units :
    (set_string : Str → Option Rat) → Str → ℕ → Result PriceError Str
unfolding show_ℤ
human_to_atomic_units set_string price decimals =
    if is_empty price then err empty_price else elim (set_string price) [
      | none ↦ err invalid_format
      | some rat ↦
          let scaled = mul_whole rat (10 ^ decimals) in
          if is_whole scaled then ok (show_ℤ (whole_part scaled)) else err too_many_decimals
    ]
