-- ===== src/Gateway/Matching/Decides.antt =====
-- The matcher decides the meaning of a pattern.
use x402_k8s_operator.Base.{◌≡◌, refl, sym, ◌∙◌}
use x402_k8s_operator.Base.{◌≢◌, ◌↔◌, inl, inr, true, false, ◌||◌}
use x402_k8s_operator.Base.{List, [], ◌∷◌, ◌++◌, append_assoc, arith}
use x402_k8s_operator.Base.{Str, str, ◌==◌, ==_iff, ==_refl, if◌then◌else◌}
use x402_k8s_operator.Base.{Bool-cases, length}
use x402_k8s_operator.Base.Text.{is_empty, has_prefix, has_suffix, trim_right, trim, split}
use x402_k8s_operator.Base.Text.Affixes.{
  has_prefix-append, has_prefix_split, has_suffix-append, has_suffix_split, trim_suffix-append,
}
use x402_k8s_operator.Gateway.Matching.{
  slash, any_depth, one_star, match_below, match_parts, match_segments, match_wild, match_path,
}
use x402_k8s_operator.Gateway.Matching.Spec.{
  Below, root, at_base, under, star, literal, PartsMatch, HasWildEnd, Matches, exact, deep, starred,
  parts,
}

pub match_below_sound :
    (raw path : Str) → match_below raw path ≡ true → Below (trim_right raw slash) path
unfolding match_below
match_below_sound raw path h = go (trim_right raw slash) (trim_right path slash) refl h
  where
    go :
        (prefix clean : Str)
        → trim_right path slash ≡ clean
        → (if is_empty prefix
            then true
            else clean == prefix || has_prefix clean (prefix ++ slash ∷ []))
          ≡ true
        → Below prefix path
    go [] clean e h = root refl
    go (c ∷ p) clean e h = elim (Bool-cases (clean == (c ∷ p))) [
      | inl eq ↦ at_base (e ∙ (==_iff clean (c ∷ p)).0 eq)
      | inr ne ↦
          let (rest, s) = has_prefix_split clean ((c ∷ p) ++ slash ∷ []) (rw ne at h) in
          under rest (e ∙ s ∙ append_assoc (c ∷ p) (slash ∷ []) rest)
    ]

match_below_complete :
    (raw path : Str) → Below (trim_right raw slash) path → match_below raw path ≡ true
unfolding match_below
match_below_complete raw path (root e) = rw e
match_below_complete raw path (at_base e) = rw e (ground (arith, ==_refl (trim_right raw slash)))
match_below_complete raw path (under rest e) = rw e (ground (arith, fits (trim_right raw slash)))
  where
    fits : (base : Str) → has_prefix (base ++ slash ∷ rest) (base ++ slash ∷ []) ≡ true
    fits base =
        rw (← append_assoc base (slash ∷ []) rest) (has_prefix-append (base ++ slash ∷ []) rest)

match_parts_sound :
    (ps qs : List Str) → length ps ≡ length qs → match_parts ps qs ≡ true → PartsMatch ps qs
unfolding match_parts
match_parts_sound [] [] e h = tt
match_parts_sound [] (q ∷ qs) e h = absurd (omega arith)
match_parts_sound (p ∷ ps) [] e h = cc
match_parts_sound (p ∷ ps) (q ∷ qs) e h = (
  elim (Bool-cases (p == str "*")) [
    | inl s ↦ star ((==_iff p (str "*")).0 s)
    | inr s ↦ literal ((==_iff p q).0 (ground arith))
  ],
  match_parts_sound ps qs (omega arith) (ground arith),
)

match_parts_complete :
    (ps qs : List Str) → PartsMatch ps qs → (match_parts ps qs ≡ true) × (length ps ≡ length qs)
unfolding match_parts
match_parts_complete [] [] h = (refl, refl)
match_parts_complete [] (q ∷ qs) h = absurd h
match_parts_complete (p ∷ ps) [] h = absurd h
match_parts_complete (p ∷ ps) (q ∷ qs) (star e, h) =
    ground (arith, match_parts_complete ps qs h, ==_iff p (str "*"))
match_parts_complete (p ∷ ps) (q ∷ qs) (literal e, h) =
    ground (arith, match_parts_complete ps qs h, ==_iff p q)

-- The comparison part by part, with its test of the lengths.
match_segments_iff :
    (pattern path : Str)
    → (match_segments pattern path ≡ true)
      ↔ PartsMatch (split (trim pattern slash) slash) (split (trim path slash) slash)
unfolding match_segments
match_segments_iff pattern path =
    let ps = split (trim pattern slash) slash in
    let qs = split (trim path slash) slash in
    (
      λ h. match_parts_sound ps qs (ground arith) (ground arith),
      λ m. ground (arith, match_parts_complete ps qs m),
    )

starred-ne-nil : (raw : Str) → ((raw ++ one_star) == []) ≡ false
unfolding ◌==◌
starred-ne-nil [] = refl
starred-ne-nil (c ∷ raw) = refl

pub starred-ne-deep : (raw : Str) → has_suffix (raw ++ one_star) any_depth ≡ false
unfolding has_suffix
starred-ne-deep [] = refl
starred-ne-deep (c ∷ []) = ground arith
starred-ne-deep (c ∷ d ∷ []) = ground (arith, starred-ne-deep (d ∷ []))
starred-ne-deep (c ∷ d ∷ e ∷ raw) =
    ground (arith, starred-ne-deep (d ∷ e ∷ raw), starred-ne-nil raw)

pub match_wild_deep : (raw path : Str) → match_wild (raw ++ any_depth) path ≡ match_below raw path
unfolding match_wild
match_wild_deep raw path = rw (has_suffix-append raw any_depth, trim_suffix-append raw any_depth)

pub match_wild_starred : (raw path : Str) → match_wild (raw ++ one_star) path ≡ match_below raw path
unfolding match_wild
match_wild_starred raw path =
    rw (starred-ne-deep raw, has_suffix-append raw one_star, trim_suffix-append raw one_star)

-- How the code tells the three kinds of pattern apart.
pub data WildCase (pattern : Str) : Type 0 where
  is_deep : (raw : Str) → pattern ≡ raw ++ any_depth → WildCase pattern
  is_starred : (raw : Str) → pattern ≡ raw ++ one_star → WildCase pattern
  is_plain :
      ¬ HasWildEnd pattern
      → ((path : Str) → match_wild pattern path ≡ match_segments pattern path)
      → WildCase pattern

no_wild_end :
    (pattern : Str)
    → has_suffix pattern any_depth ≡ false
    → has_suffix pattern one_star ≡ false
    → ¬ HasWildEnd pattern
no_wild_end pattern nd ns (inl (raw, e)) = cc (has_suffix-append raw any_depth)
no_wild_end pattern nd ns (inr (raw, e)) = cc (has_suffix-append raw one_star)

pub wild_case : (pattern : Str) → WildCase pattern
wild_case pattern = elim (Bool-cases (has_suffix pattern any_depth)) [
  | inl d ↦ let (raw, e) = has_suffix_split pattern any_depth d in is_deep raw e
  | inr nd ↦ elim (Bool-cases (has_suffix pattern one_star)) [
    | inl s ↦ let (raw, e) = has_suffix_split pattern one_star s in is_starred raw e
    | inr ns ↦ is_plain (no_wild_end pattern nd ns) (λ path. unfold match_wild in rw (nd, ns))
  ]
]

match_wild_sound : (pattern path : Str) → match_wild pattern path ≡ true → Matches pattern path
match_wild_sound pattern path h = elim (wild_case pattern) [
  | is_deep raw e ↦
      deep raw e (match_below_sound raw path (sym (match_wild_deep raw path) ∙ (rw e at h)))
  | is_starred raw e ↦
      starred raw e (match_below_sound raw path (sym (match_wild_starred raw path) ∙ (rw e at h)))
  | is_plain plain same ↦ parts plain ((match_segments_iff pattern path).0 (rw same at h))
]

match_wild_complete :
    (pattern path : Str) → pattern ≢ path → Matches pattern path → match_wild pattern path ≡ true
match_wild_complete pattern path ne (exact e) = absurd (ne e)
match_wild_complete pattern path ne (deep raw e b) =
    rw e (match_wild_deep raw path ∙ match_below_complete raw path b)
match_wild_complete pattern path ne (starred raw e b) =
    rw e (match_wild_starred raw path ∙ match_below_complete raw path b)
match_wild_complete pattern path ne (parts plain m) = elim (wild_case pattern) [
  | is_deep raw e ↦ absurd (plain (inl (raw, e)))
  | is_starred raw e ↦ absurd (plain (inr (raw, e)))
  | is_plain _ same ↦ same path ∙ (match_segments_iff pattern path).1 m
]

-- `match_path` holds exactly of the patterns and paths that `Matches` relates, for all of them.
pub match_path_iff : (pattern path : Str) → (match_path pattern path ≡ true) ↔ Matches pattern path
unfolding match_path
match_path_iff pattern path = elim (Bool-cases (pattern == path)) [
  | inl same ↦ (λ _. exact ((==_iff pattern path).0 same), λ _. rw same)
  | inr differ ↦ (
    λ h. match_wild_sound pattern path (rw differ at h),
    λ m. rw differ (match_wild_complete pattern path (λ e. cc ((==_iff pattern path).1 e)) m),
  )
]

pub match_path_misses :
    (pattern path : Str) → ¬ Matches pattern path → match_path pattern path ≡ false
match_path_misses pattern path h = elim (Bool-cases (match_path pattern path)) [
  | inl fits ↦ absurd (h ((match_path_iff pattern path).0 fits))
  | inr misses ↦ misses
]
