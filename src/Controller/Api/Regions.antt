-- ===== src/Controller/Api/Regions.antt =====
-- The memory behind the slices of api/v1alpha1: the arrays of one element type, newest first. The
-- address of an array is the number of those before it.
use x402_k8s_operator.Base.{
  ℕ, ◌<◌, ◌≤◌, ◌≡◌, refl, ◌∙◌, Option, none, some, List, [], ◌∷◌, length, eqb, if◌then◌else◌, arith,
}

abbrev pub Region : Type 0 → Type 0
Region A = List (List A)

unfoldable pub read : {A : Type 0} → Region A → ℕ → List A
read [] a = []
read (xs ∷ before) a = let rest = read before a in if eqb a (length before) then xs else rest

-- A slice is nil, or the whole of an array.
abbrev pub Slice : Type 0
Slice = Option ℕ

abbrev pub elements : {A : Type 0} → Region A → Slice → List A
elements r none = []
elements r (some a) = read r a

-- The address of a new array.
abbrev pub next : {A : Type 0} → Region A → ℕ
next r = length r

-- The array of a slice is in the region, or is not yet.
abbrev pub IsIn : {A : Type 0} → Region A → Slice → Type 0
IsIn r none = Unit
IsIn r (some a) = a < length r

abbrev pub IsNew : {A : Type 0} → Region A → Slice → Type 0
IsNew r none = Unit
IsNew r (some a) = length r ≤ a

-- What was in a region is still there.
abbrev pub Grows : {A : Type 0} → Region A → Region A → Type 0
Grows r r' = (length r ≤ length r') × ((a : ℕ) → a < length r → read r' a ≡ read r a)

module _ {A : Type 0} where
  pub Grows-refl : (r : Region A) → Grows r r
  Grows-refl r = (omega arith, λ a h. refl)

  pub Grows-trans : (r r' r'' : Region A) → Grows r r' → Grows r' r'' → Grows r r''
  Grows-trans r r' r'' (n, same) (m, same') = (omega arith, λ a h. same' a (omega arith) ∙ same a h)

  -- A new array.
  pub cons-Grows : (xs : List A) (r : Region A) → Grows r (xs ∷ r)
  unfolding read
  cons-Grows xs r = (omega arith, λ a h. ground arith)

  pub read_new : (xs : List A) (r : Region A) → read (xs ∷ r) (length r) ≡ xs
  unfolding read
  read_new xs r = ground arith

  pub Grows-IsIn : (r r' : Region A) (s : Slice) → Grows r r' → IsIn r s → IsIn r' s
  Grows-IsIn r r' none g h = tt
  Grows-IsIn r r' (some a) (n, same) h = omega arith

  pub Grows-elements :
      (r r' : Region A) (s : Slice) → Grows r r' → IsIn r s → elements r' s ≡ elements r s
  Grows-elements r r' none g h = refl
  Grows-elements r r' (some a) (n, same) h = same a h

  pub Grows-IsNew : (r r' : Region A) (s : Slice) → Grows r r' → IsNew r' s → IsNew r s
  Grows-IsNew r r' none g h = tt
  Grows-IsNew r r' (some a) (n, same) h = omega arith
