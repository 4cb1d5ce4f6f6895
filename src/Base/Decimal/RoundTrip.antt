-- ===== src/Base/Decimal/RoundTrip.antt =====
-- Reading a printed number gives the number back.
use x402_k8s_operator.Base.{ℕ, zero, suc, ◌+◌, ◌-◌, ◌*◌, ◌/◌, ◌%◌, ◌^◌, ◌<◌, ◌≡◌, refl, ap, ◌∙◌}
use mathlib.Core.Path.{subst}
use mathlib.Core.Option.{some-injective}
use x402_k8s_operator.Base.{inl, inr, Bool, true, false, Option, none}
use x402_k8s_operator.Base.{some, [], ◌∷◌, ◌++◌, arith}
use x402_k8s_operator.Base.{Str, ltb, leb, eqb}
use x402_k8s_operator.Base.{Bool-cases}
use x402_k8s_operator.Base.Int.{ℤ, pos, negsuc}
use x402_k8s_operator.Base.Decimal.{
  digits_on, show, show_ℤ, is_digit, read_digits, read_ℕ, in_range, parse_int32,
}

read_digits-append :
    (s t : Str) (n m : ℕ) → read_digits s n ≡ some m → read_digits (s ++ t) n ≡ read_digits t m
unfolding read_digits
read_digits-append [] t n m h = ground arith
read_digits-append (c ∷ s) t n m h = ground (arith, read_digits-append s t (n * 10 + (c - b'0')) m)

read_one : (d : ℕ) (n : ℕ) → d < 10 → read_digits ((b'0' + d) ∷ []) n ≡ some (n * 10 + d)
unfolding read_digits
read_one d n h = ground arith

read_digits-digits_on : (fuel n : ℕ) → n < fuel → read_digits (digits_on fuel n) 0 ≡ some n
unfolding digits_on
read_digits-digits_on zero n h = absurd (omega arith)
read_digits-digits_on (suc fuel) n h = elim (Bool-cases (ltb n 10)) [
  | inl small ↦ rw small (read_one n 0 (ground arith) ∙ ap some (omega arith))
  | inr large ↦ rw large (
      read_digits-append (digits_on fuel (n / 10)) ((b'0' + n % 10) ∷ []) 0 (n / 10)
        (read_digits-digits_on fuel (n / 10) (ground arith))
      ∙ read_one (n % 10) (n / 10) (omega arith)
      ∙ ap some (omega arith))
]

-- A printed number begins with a digit.
abbrev pub StartsWithDigit : Str → Type 0
StartsWithDigit [] = ⊥
StartsWithDigit (c ∷ s) = is_digit c ≡ true

StartsWithDigit-append : (s t : Str) → StartsWithDigit s → StartsWithDigit (s ++ t)
StartsWithDigit-append [] t h = absurd h
StartsWithDigit-append (c ∷ s) t h = h

digits_on-StartsWithDigit : (fuel n : ℕ) → n < fuel → StartsWithDigit (digits_on fuel n)
unfolding digits_on
digits_on-StartsWithDigit zero n h = absurd (omega arith)
digits_on-StartsWithDigit (suc fuel) n h = elim (Bool-cases (ltb n 10)) [
  | inl small ↦ rw small (ground arith)
  | inr large ↦ rw large (
      StartsWithDigit-append (digits_on fuel (n / 10)) _
        (digits_on-StartsWithDigit fuel (n / 10) (ground arith)))
]

read_ℕ_of_digit : (s : Str) → StartsWithDigit s → read_ℕ s ≡ read_digits s 0
unfolding read_ℕ
read_ℕ_of_digit [] h = absurd h
read_ℕ_of_digit (c ∷ s) h = refl

pub read_ℕ-show : (n : ℕ) → read_ℕ (show n) ≡ some n
unfolding show
read_ℕ-show n =
    read_ℕ_of_digit (show n) (digits_on-StartsWithDigit (suc n) n (omega arith))
    ∙ read_digits-digits_on (suc n) n (omega arith)

parse_int32_of_digit : (s : Str) → StartsWithDigit s → parse_int32 s ≡ in_range false (read_ℕ s)
unfolding parse_int32
parse_int32_of_digit [] h = absurd h
parse_int32_of_digit (c ∷ s) h = ground arith

abbrev pub IsInt32 : ℤ → Type 0
IsInt32 (pos n) = n < 2 ^ 31
IsInt32 (negsuc n) = n < 2 ^ 31

-- A printed int32 is read back as itself.
pub parse_int32-show_ℤ : (z : ℤ) → IsInt32 z → parse_int32 (show_ℤ z) ≡ some z
unfolding show_ℤ
parse_int32-show_ℤ (pos n) h =
    unfold show in
    parse_int32_of_digit (show n) (digits_on-StartsWithDigit (suc n) n (omega arith))
    ∙ rw (read_ℕ-show n) (ground arith)
parse_int32-show_ℤ (negsuc n) h = unfold parse_int32 in rw (read_ℕ-show (suc n)) (ground arith)

IsInt32-of_some : (a z : ℤ) → some a ≡ some z → IsInt32 a → IsInt32 z
IsInt32-of_some a z h fits = subst IsInt32 (some-injective a z h) fits

in_range-IsInt32 :
    (negative : Bool) (n : Option ℕ) (z : ℤ) → in_range negative n ≡ some z → IsInt32 z
in_range-IsInt32 negative none z h = cc h
in_range-IsInt32 true (some zero) z h = IsInt32-of_some (pos 0) z h (omega arith)
in_range-IsInt32 true (some (suc n)) z h = elim (Bool-cases (leb (suc n) (2 ^ 31))) [
  | inl small ↦ IsInt32-of_some (negsuc n) z (rw small at h) (ground arith)
  | inr big ↦ cc (rw big at h)
]
in_range-IsInt32 false (some n) z h = elim (Bool-cases (ltb n (2 ^ 31))) [
  | inl small ↦ IsInt32-of_some (pos n) z (rw small at h) (ground arith)
  | inr big ↦ cc (rw big at h)
]

-- Whatever the text is, what is read is an int32.
pub parse_int32-IsInt32 : (s : Str) (z : ℤ) → parse_int32 s ≡ some z → IsInt32 z
unfolding parse_int32
parse_int32-IsInt32 [] z h = cc h
parse_int32-IsInt32 (c ∷ s) z h = elim (Bool-cases (eqb c b'-')) [
  | inl minus ↦ in_range-IsInt32 true (read_ℕ s) z (rw minus at h)
  | inr other ↦ elim (Bool-cases (eqb c b'+')) [
    | inl plus ↦ in_range-IsInt32 false (read_ℕ s) z (rw (other, plus) at h)
    | inr digit ↦ in_range-IsInt32 false (read_ℕ (c ∷ s)) z (rw (other, digit) at h)
  ]
]
