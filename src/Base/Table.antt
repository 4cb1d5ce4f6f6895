-- ===== src/Base/Table.antt =====
-- A Go map with string keys, as the list of its entries in the order in which one iteration meets
-- them. Go leaves that order open: a theorem about an iteration is for every reordering.
use x402_k8s_operator.Base.{suc, ◌≡◌, refl, ap}
use x402_k8s_operator.Base.{inl, inr}
use x402_k8s_operator.Base.{Option, none, some, List, [], ◌∷◌, arith}
use x402_k8s_operator.Base.{Str, ◌==◌, ==_iff, ==_refl, if◌then◌else◌}
use x402_k8s_operator.Base.{Bool-cases, length, All, Elem}
use mathlib.Core.Option.{some-injective}

abbrev pub Table {ℓ} : Type ℓ → Type ℓ
Table V = List (Str × V)

module _ {ℓ} {V : Type ℓ} where
  -- m[k]
  unfoldable pub lookup : Str → Table V → Option V
  unfolding ◌==◌
  lookup k [] = none
  lookup k ((j, v) ∷ m) = if j == k then some v else lookup k m

  -- m[k] = v
  unfoldable pub insert : Str → V → Table V → Table V
  unfolding ◌==◌
  insert k v [] = (k, v) ∷ []
  insert k v ((j, w) ∷ m) = if j == k then (k, v) ∷ m else (j, w) ∷ insert k v m

  -- delete(m, k)
  unfoldable pub erase : Str → Table V → Table V
  unfolding ◌==◌
  erase k [] = []
  erase k ((j, w) ∷ m) = if j == k then m else (j, w) ∷ erase k m

  unfoldable pub values : Table V → List V
  values [] = []
  values ((k, v) ∷ m) = v ∷ values m

  -- No key has two entries.
  abbrev pub NodupKeys : Table V → Type ℓ
  NodupKeys [] = Unit
  NodupKeys ((k, _) ∷ m) = (lookup k m ≡ none) × NodupKeys m

  pub lookup-insert :
      (j k : Str) (v : V) (m : Table V)
      → lookup j (insert k v m) ≡ (if k == j then some v else lookup j m)
  unfolding lookup insert
  lookup-insert j k v [] = refl
  lookup-insert j k v ((i, w) ∷ m) =
      ground (arith, ==_iff k j, ==_iff i k, ==_iff i j, lookup-insert j k v m)

  pub lookup-erase :
      (j k : Str) (m : Table V)
      → NodupKeys m
      → lookup j (erase k m) ≡ (if k == j then none else lookup j m)
  unfolding lookup erase
  lookup-erase j k [] u = ground arith
  lookup-erase j k ((i, w) ∷ m) u =
      ground (arith, ==_iff k j, ==_iff i k, ==_iff i j, lookup-erase j k m u.1, u.0)

  pub insert-NodupKeys : (k : Str) (v : V) (m : Table V) → NodupKeys m → NodupKeys (insert k v m)
  unfolding lookup insert
  insert-NodupKeys k v [] u = (refl, tt)
  insert-NodupKeys k v ((i, w) ∷ m) u =
      ground (arith, ==_iff i k, ==_iff k i, lookup-insert i k v m, insert-NodupKeys k v m u.1, u.0)

  pub erase-NodupKeys : (k : Str) (m : Table V) → NodupKeys m → NodupKeys (erase k m)
  unfolding lookup erase
  erase-NodupKeys k [] u = tt
  erase-NodupKeys k ((i, w) ∷ m) u =
      ground (arith, ==_iff i k, ==_iff k i, lookup-erase i k m u.1, erase-NodupKeys k m u.1, u.0)

module _ {V : Type 0} (v : V) where
  pub Elem-values_of_lookup : (k : Str) (m : Table V) → lookup k m ≡ some v → Elem v (values m)
  unfolding lookup values
  Elem-values_of_lookup k [] h = cc
  Elem-values_of_lookup k ((j, w) ∷ m) h = elim (Bool-cases (j == k)) [
    | inl here ↦ inl (cc (rw here at h))
    | inr later ↦ inr (Elem-values_of_lookup k m (rw later at h))
  ]

  lookup_behind :
      (j k : Str) (w : V) (m : Table V)
      → lookup j m ≡ none
      → lookup k m ≡ some v
      → lookup k ((j, w) ∷ m) ≡ some v
  unfolding lookup
  lookup_behind j k w m fresh h = ground (arith, ==_iff j k)

  -- A value of the table is what some key looks up.
  pub lookup_of_Elem-values :
      (m : Table V) → NodupKeys m → Elem v (values m) → (k : Str) × (lookup k m ≡ some v)
  unfolding values
  lookup_of_Elem-values [] u h = absurd h
  lookup_of_Elem-values ((j, w) ∷ m) u (inl e) = (j, unfold lookup in ground (arith, ==_refl j))
  lookup_of_Elem-values ((j, w) ∷ m) u (inr h) =
      let (k, found) = lookup_of_Elem-values m u.1 h in (k, lookup_behind j k w m u.0 found)

pub length-values {ℓ} : {V : Type ℓ} (m : Table V) → length (values m) ≡ length m
unfolding values
length-values [] = refl
length-values ((k, v) ∷ m) = ap suc (length-values m)

-- The values are those of the entries.
pub value_of_entry :
    {V : Type 0} (k : Str) (v : V) (m : Table V) → Elem (k, v) m → Elem v (values m)
unfolding values
value_of_entry k v [] h = h
value_of_entry k v ((j, w) ∷ m) (inl e) = inl (ap (λ p. p.1) e)
value_of_entry k v ((j, w) ∷ m) (inr h) = inr (value_of_entry k v m h)

pub entry_of_value :
    {V : Type 0} (v : V) (m : Table V) → Elem v (values m) → (k : Str) × Elem (k, v) m
unfolding values
entry_of_value v [] h = absurd h
entry_of_value v ((j, w) ∷ m) (inl e) = (j, inl (ap (λ x. (j, x)) e))
entry_of_value v ((j, w) ∷ m) (inr h) = let (k, found) = entry_of_value v m h in (k, inr found)

-- What holds of every entry holds of what is looked up.
pub All_lookup :
    {V : Type 0} (P : Str × V → Type 0) (k : Str) (v : V) (m : Table V)
    → All P m
    → lookup k m ≡ some v
    → P (k, v)
unfolding lookup
All_lookup P k v [] h e = cc
All_lookup P k v ((j, w) ∷ m) (p, h) e = elim (Bool-cases (j == k)) [
  | inl here ↦
      let same_key : j ≡ k = (==_iff j k).0 here in
      let same_value : w ≡ v = some-injective w v (rw here at e) in rw (same_key, same_value) at p
  | inr later ↦ All_lookup P k v m h (rw later at e)
]
