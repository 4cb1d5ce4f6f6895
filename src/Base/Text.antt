-- ===== src/Base/Text.antt =====
-- The functions of Go's package strings that the program calls, at a one-byte separator or cutset
-- where the program gives one. Letter case is that of ASCII.
pub mod Affixes
pub mod Trim
pub mod Splits
use x402_k8s_operator.Base.{ℕ, ◌+◌}
use x402_k8s_operator.Base.{Bool, true, false, ◌&&◌, ◌||◌}
use x402_k8s_operator.Base.{List, [], ◌∷◌, map}
use x402_k8s_operator.Base.{Str, ◌==◌, leb, eqb, if◌then◌else◌}

abbrev pub is_empty {ℓ} : {A : Type ℓ} → List A → Bool
is_empty [] = true
is_empty (x ∷ xs) = false

-- strings.HasPrefix
unfoldable pub has_prefix : Str → Str → Bool
has_prefix s [] = true
has_prefix [] (c ∷ p) = false
has_prefix (d ∷ s) (c ∷ p) = eqb d c && has_prefix s p

-- strings.HasSuffix
unfoldable pub has_suffix : Str → Str → Bool
unfolding ◌==◌
has_suffix [] suffix = [] == suffix
has_suffix (c ∷ s) suffix = (c ∷ s) == suffix || has_suffix s suffix

-- strings.TrimSuffix: the suffix is cut where the rest of the text is the suffix.
unfoldable pub trim_suffix : Str → Str → Str
unfolding ◌==◌
trim_suffix [] suffix = []
trim_suffix (c ∷ s) suffix = if (c ∷ s) == suffix then [] else c ∷ trim_suffix s suffix

-- strings.TrimRight
abbrev push_unless : ℕ → ℕ → Str → Str
push_unless cut c [] = if eqb c cut then [] else c ∷ []
push_unless cut c (d ∷ r) = c ∷ d ∷ r

unfoldable pub trim_right : Str → ℕ → Str
trim_right [] cut = []
trim_right (c ∷ s) cut = push_unless cut c (trim_right s cut)

-- strings.TrimLeft
unfoldable pub trim_left : Str → ℕ → Str
trim_left [] cut = []
trim_left (c ∷ s) cut = if eqb c cut then trim_left s cut else c ∷ s

-- strings.Trim
unfoldable pub trim : Str → ℕ → Str
unfolding trim_left trim_right
trim s cut = trim_left (trim_right s cut) cut

-- strings.Split at one byte: there is always a part.
abbrev add_to_first : ℕ → List Str → List Str
add_to_first c [] = (c ∷ []) ∷ []
add_to_first c (p ∷ ps) = (c ∷ p) ∷ ps

unfoldable pub split : Str → ℕ → List Str
split [] sep = [] ∷ []
split (c ∷ s) sep = if eqb c sep then [] ∷ split s sep else add_to_first c (split s sep)

-- strings.SplitN(s, sep, 2): the text before and after the first separator, or the whole text.
unfoldable pub split_two : Str → ℕ → List Str
split_two [] sep = [] ∷ []
split_two (c ∷ s) sep = if eqb c sep then [] ∷ s ∷ [] else add_to_first c (split_two s sep)

-- strings.Contains at one byte
unfoldable pub contains_byte : Str → ℕ → Bool
contains_byte [] b = false
contains_byte (c ∷ s) b = eqb c b || contains_byte s b

-- s[:strings.LastIndex(s, sep)] where the separator occurs, s otherwise
unfoldable pub before_last : Str → ℕ → Str
unfolding contains_byte
before_last [] sep = []
before_last (c ∷ s) sep =
    if contains_byte s sep then c ∷ before_last s sep else if eqb c sep then [] else c ∷ s

unfoldable pub lower_byte : ℕ → ℕ
lower_byte c = if leb b'A' c && leb c b'Z' then c + 32 else c

-- strings.ToLower
unfoldable pub to_lower : Str → Str
unfolding lower_byte
to_lower = map lower_byte

-- strings.EqualFold
unfoldable pub equal_fold : Str → Str → Bool
unfolding to_lower ◌==◌
equal_fold s t = to_lower s == to_lower t
