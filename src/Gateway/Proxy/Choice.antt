-- ===== src/Gateway/Proxy/Choice.antt =====
-- Which backends the choice can fall on, over all orders of iteration.
use mathlib.Core.List.{Permᴰ}
use x402_k8s_operator.Base.{◌≡◌, refl, ap}
use x402_k8s_operator.Base.{◌≢◌, ◌⊎◌, inl, inr, true, false}
use x402_k8s_operator.Base.{none, some, [], ◌∷◌}
use x402_k8s_operator.Base.{Str}
use x402_k8s_operator.Base.{Bool-cases, Option-cases, All, Elem}
use x402_k8s_operator.Base.Table.{
  Table, lookup, values, Elem-values_of_lookup, value_of_entry, entry_of_value,
}
use x402_k8s_operator.Base.Reorder.{All-reorder, Elem-reorder, reorder_first, symm, reorder_nil}
use x402_k8s_operator.Gateway.Matching.{match_path}
use x402_k8s_operator.Gateway.Proxy.{first_match, any_value, find_backend}

-- Every pattern of the table that matches the path leads to the one backend.
abbrev pub MatchesOnly : Str → Str → Table Str → Type 0
MatchesOnly u path m = All (λ entry. match_path entry.0 path ≡ true → entry.1 ≡ u) m

abbrev pub MatchesNone : Str → Table Str → Type 0
MatchesNone path m = All (λ entry. match_path entry.0 path ≡ false) m

first_match-none : (path : Str) (m : Table Str) → MatchesNone path m → first_match m path ≡ none
unfolding first_match
first_match-none path [] h = refl
first_match-none path ((k, v) ∷ m) h = rw h.0 (first_match-none path m h.1)

Elem-skip :
    (path k u j v : Str) (m : Table Str)
    → match_path k path ≡ true
    → match_path j path ≡ false
    → Elem (k, u) ((j, v) ∷ m)
    → Elem (k, u) m
Elem-skip path k u j v m fits not_here (inl e) =
    let same_key : k ≡ j = ap (λ p. p.0) e in cc (ap (λ q. match_path q path) same_key)
Elem-skip path k u j v m fits not_here (inr later) = later

first_match_only :
    (path k u : Str) (m : Table Str)
    → MatchesOnly u path m
    → Elem (k, u) m
    → match_path k path ≡ true
    → first_match m path ≡ some u
unfolding first_match
first_match_only path k u [] only h fits = absurd h
first_match_only path k u ((j, v) ∷ m) (o, only) h fits = elim (Bool-cases (match_path j path)) [
  | inl fits_here ↦ rw fits_here (ap some (o fits_here))
  | inr not_here ↦
      rw not_here (first_match_only path k u m only (Elem-skip path k u j v m fits not_here h) fits)
]

first_match-Elem : (path u : Str) (m : Table Str) → first_match m path ≡ some u → Elem u (values m)
unfolding first_match values
first_match-Elem path u [] h = cc
first_match-Elem path u ((j, v) ∷ m) h = elim (Bool-cases (match_path j path)) [
  | inl here ↦ inl (cc (rw here at h))
  | inr later ↦ inr (first_match-Elem path u m (rw later at h))
]

Elem-values_reorder :
    (u : Str) {m m' : Table Str} → Permᴰ m m' → Elem u (values m) → Elem u (values m')
Elem-values_reorder u {m} {m'} d h =
    let (k, found) = entry_of_value u m h in value_of_entry k u m' (Elem-reorder (k, u) d found)

any_value-Elem : {m m' : Table Str} → Permᴰ m m' → m ≢ [] → Elem (any_value m') (values m')
unfolding any_value values
any_value-Elem {m} {m' = []} d h = absurd (h (reorder_nil (symm d)))
any_value-Elem {m} {m' = (k, u) ∷ m'} d h = inl refl

module _ (backends : Table Str) (path : Str) where
  -- A backend that the map names by the exact path, or the only one among those whose patterns
  -- match, is chosen, whatever the orders of the iterations.
  pub find_backend_determined :
      (u : Str) (by_pattern fallback : Table Str)
      → Permᴰ backends by_pattern
      → ((lookup path backends ≡ some u)
          ⊎ ((lookup path backends ≡ none)
              × ((k : Str) × Elem (k, u) backends × (match_path k path ≡ true))
              × MatchesOnly u path backends))
      → find_backend backends path by_pattern fallback ≡ u
  unfolding find_backend
  find_backend_determined u by_pattern fallback d (inl found) = rw (found, find_backend)
  find_backend_determined u by_pattern fallback d (inr (absent, (k, mem, fits), only)) = rw (
    absent,
    first_match_only path k u by_pattern
        (All-reorder (λ entry. match_path entry.0 path ≡ true → entry.1 ≡ u) d only)
        (Elem-reorder (k, u) d mem) fits,
    find_backend,
  )

  -- The chosen backend is always one of the map's, if it has any.
  pub find_backend-Elem :
      (by_pattern fallback : Table Str)
      → Permᴰ backends by_pattern
      → Permᴰ backends fallback
      → backends ≢ []
      → Elem (find_backend backends path by_pattern fallback) (values backends)
  unfolding find_backend
  find_backend-Elem by_pattern fallback d d' some_left =
      elim (Option-cases (lookup path backends)) [
        | inr (u, found) ↦ rw (found, find_backend) (Elem-values_of_lookup u path backends found)
        | inl absent ↦ elim (Option-cases (first_match by_pattern path)) [
          | inr (u, found) ↦
              rw (absent, found, find_backend)
                (Elem-values_reorder u (symm d) (first_match-Elem path u by_pattern found))
          | inl unmatched ↦
              rw (absent, unmatched, find_backend)
                (Elem-values_reorder (any_value fallback) (symm d') (any_value-Elem d' some_left))
        ]
      ]

  -- Where no path and no pattern of the map fits, the choice falls on any of its backends: for each
  -- one there is an order of the last iteration that leads to it.
  pub find_backend_any :
      (k u : Str) (by_pattern : Table Str)
      → Permᴰ backends by_pattern
      → lookup path backends ≡ none
      → MatchesNone path backends
      → Elem (k, u) backends
      → (fallback : Table Str) × Permᴰ backends fallback
        × (find_backend backends path by_pattern fallback ≡ u)
  unfolding find_backend any_value
  find_backend_any k u by_pattern d absent none_fits mem =
      let (rest, front) = reorder_first (k, u) backends mem in
      (
        (k, u) ∷ rest,
        front,
        rw (
          absent,
          first_match-none path by_pattern
              (All-reorder (λ entry. match_path entry.0 path ≡ false) d none_fits),
          find_backend,
        ),
      )
