-- ===== src/Base/Decimal.antt =====
-- Decimal numbers: `strconv.ParseInt(s, 10, 32)`, `%d` and `big.Int.String`.
pub mod RoundTrip
use x402_k8s_operator.Base.{ℕ, zero, suc, ◌+◌, ◌-◌, ◌*◌, ◌/◌, ◌%◌, ◌^◌}
use x402_k8s_operator.Base.{Bool, true, false, ◌&&◌}
use x402_k8s_operator.Base.{Option, none, some, [], ◌∷◌, ◌++◌}
use x402_k8s_operator.Base.{Str, ltb, leb, eqb, if◌then◌else◌}
use x402_k8s_operator.Base.Int.{ℤ, pos, negsuc, neg_ℕ}

-- The digits of n, most significant first; any fuel above n is enough.
unfoldable pub digits_on : ℕ → ℕ → Str
digits_on zero n = []
digits_on (suc fuel) n =
    let more = digits_on fuel (n / 10) ++ (b'0' + n % 10) ∷ [] in
    if ltb n 10 then (b'0' + n) ∷ [] else more

unfoldable pub show : ℕ → Str
unfolding digits_on
show n = digits_on (suc n) n

unfoldable pub show_ℤ : ℤ → Str
unfolding show
show_ℤ (pos n) = show n
show_ℤ (negsuc n) = b'-' ∷ show (suc n)

abbrev pub is_digit : ℕ → Bool
is_digit c = leb b'0' c && leb c b'9'

-- The number that decimal digits spell behind n.
unfoldable pub read_digits : Str → ℕ → Option ℕ
read_digits [] n = some n
read_digits (c ∷ s) n = if is_digit c then read_digits s (n * 10 + (c - b'0')) else none

unfoldable pub read_ℕ : Str → Option ℕ
unfolding read_digits
read_ℕ [] = none
read_ℕ (c ∷ s) = read_digits (c ∷ s) 0

-- An int32, or none out of its range.
abbrev pub in_range : Bool → Option ℕ → Option ℤ
in_range negative none = none
in_range true (some n) = if leb n (2 ^ 31) then some (neg_ℕ n) else none
in_range false (some n) = if ltb n (2 ^ 31) then some (pos n) else none

-- `strconv.ParseInt(s, 10, 32)`: an optional sign and at least one digit.
unfoldable pub parse_int32 : Str → Option ℤ
unfolding read_ℕ
parse_int32 [] = none
parse_int32 (c ∷ s) =
    if eqb c b'-'
    then in_range true (read_ℕ s)
    else if eqb c b'+'
    then in_range false (read_ℕ s)
    else in_range false (read_ℕ (c ∷ s))
