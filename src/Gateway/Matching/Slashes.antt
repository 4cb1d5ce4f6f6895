-- ===== src/Gateway/Matching/Slashes.antt =====
-- Trailing slashes, and the two wildcard ends.
use x402_k8s_operator.Base.{ℕ, zero, suc, ◌≡◌, refl, sym, ap, ◌∙◌}
use x402_k8s_operator.Base.{inl, inr, true}
use x402_k8s_operator.Base.{List, [], ◌∷◌, ◌++◌, append_assoc, arith}
use x402_k8s_operator.Base.{Str, str, ◌==◌, ==_iff, ==_refl}
use x402_k8s_operator.Base.{Bool-cases}
use x402_k8s_operator.Base.Text.{split, trim_right, trim, has_prefix}
use x402_k8s_operator.Base.Text.Affixes.{has_prefix-append}
use x402_k8s_operator.Base.Text.Trim.{
  replicate, trim_right-concat, trim_right_keep, trim_right_split, trim-concat, trim_right-append,
  trim_right-cons,
}
use x402_k8s_operator.Gateway.Matching.{
  slash, any_depth, one_star, match_below, match_parts, match_segments, match_wild, match_path,
}
use x402_k8s_operator.Gateway.Matching.Decides.{
  is_deep, is_starred, is_plain, wild_case, match_wild_deep, match_wild_starred,
}

match_parts_self : (ps : List Str) → match_parts ps ps ≡ true
unfolding match_parts
match_parts_self [] = refl
match_parts_self (p ∷ ps) = ground (arith, match_parts_self ps, ==_refl p)

match_segments_self : (pattern : Str) → match_segments pattern pattern ≡ true
unfolding match_segments
match_segments_self pattern = ground (arith, match_parts_self (split (trim pattern slash) slash))

-- Behind a base, some slashes and one more slash begins a text that lies under the base.
has_prefix_slashes :
    (base rest : Str) (n : ℕ)
    → has_prefix (base ++ (replicate n slash ++ slash ∷ rest)) (base ++ slash ∷ []) ≡ true
has_prefix_slashes base rest zero =
    rw (← append_assoc base (slash ∷ []) rest) (has_prefix-append (base ++ slash ∷ []) rest)
has_prefix_slashes base rest (suc n) =
    rw (← append_assoc base (slash ∷ []) (replicate n slash ++ slash ∷ rest))
      (has_prefix-append (base ++ slash ∷ []) (replicate n slash ++ slash ∷ rest))

under_own_base :
    (raw stars : Str)
    → has_prefix (raw ++ slash ∷ stars) (trim_right raw slash ++ slash ∷ []) ≡ true
under_own_base raw stars =
    let base : Str = trim_right raw slash in
    let (n, e) = trim_right_split slash raw in
    ap (λ r. has_prefix (r ++ slash ∷ stars) (base ++ slash ∷ [])) e
    ∙ ap (λ r. has_prefix r (base ++ slash ∷ []))
        (append_assoc base (replicate n slash) (slash ∷ stars))
    ∙ has_prefix_slashes base stars n

-- A wildcard pattern lies under its own base.
match_below_self :
    (raw stars : Str)
    → trim_right (raw ++ slash ∷ stars) slash ≡ raw ++ slash ∷ stars
    → match_below raw (raw ++ slash ∷ stars) ≡ true
unfolding match_below
match_below_self raw stars keeps = rw keeps (ground (arith, under_own_base raw stars))

keeps_one_star : (raw : Str) → trim_right (raw ++ one_star) slash ≡ raw ++ one_star
keeps_one_star raw =
    rw (← append_assoc raw (slash ∷ []) (str "*"))
      (trim_right_keep slash (raw ++ slash ∷ []) b'*' (omega arith))

keeps_any_depth : (raw : Str) → trim_right (raw ++ any_depth) slash ≡ raw ++ any_depth
keeps_any_depth raw =
    rw (← append_assoc raw (str "/*") (str "*"))
      (trim_right_keep slash (raw ++ str "/*") b'*' (omega arith))

match_wild_self : (pattern : Str) → match_wild pattern pattern ≡ true
match_wild_self pattern = elim (wild_case pattern) [
  | is_deep raw e ↦ rw e (
      match_wild_deep raw (raw ++ any_depth)
      ∙ match_below_self raw (str "**") (keeps_any_depth raw))
  | is_starred raw e ↦ rw e (
      match_wild_starred raw (raw ++ one_star)
      ∙ match_below_self raw (str "*") (keeps_one_star raw))
  | is_plain _ alike ↦ alike pattern ∙ match_segments_self pattern
]

-- The first test of `match_path` decides nothing: the rest says the same of equal texts.
pub match_path-match_wild : (pattern path : Str) → match_path pattern path ≡ match_wild pattern path
unfolding match_path
match_path-match_wild pattern path = elim (Bool-cases (pattern == path)) [
  | inl equal ↦ rw equal (rw ((==_iff pattern path).0 equal) (sym (match_wild_self path)))
  | inr differ ↦ rw differ
]

match_below-concat : (raw path : Str) → match_below raw (path ++ slash ∷ []) ≡ match_below raw path
unfolding match_below
match_below-concat raw path = rw (trim_right-concat slash path)

match_segments-concat :
    (pattern path : Str) → match_segments pattern (path ++ slash ∷ []) ≡ match_segments pattern path
unfolding match_segments
match_segments-concat pattern path = rw (trim-concat slash path)

-- A slash at the end of a request path never changes whether it matches, whatever the pattern.
pub match_path-concat :
    (pattern path : Str) → match_path pattern (path ++ slash ∷ []) ≡ match_path pattern path
match_path-concat pattern path =
    rw (match_path-match_wild, match_path-match_wild)
      (elim (wild_case pattern) [
        | is_deep raw e ↦
            rw e
              (match_wild_deep raw _ ∙ match_below-concat raw path ∙ sym (match_wild_deep raw path))
        | is_starred raw e ↦ rw e (
            match_wild_starred raw _
            ∙ match_below-concat raw path
            ∙ sym (match_wild_starred raw path))
        | is_plain _ alike ↦ alike _ ∙ match_segments-concat pattern path ∙ sym (alike path)
      ])

-- The two wildcard ends mean the same: "/*" at the end of a pattern also stands for any depth.
pub match_path_star-any_depth :
    (raw path : Str) → match_path (raw ++ one_star) path ≡ match_path (raw ++ any_depth) path
match_path_star-any_depth raw path =
    match_path-match_wild _ path
    ∙ match_wild_starred raw path
    ∙ sym (match_wild_deep raw path)
    ∙ sym (match_path-match_wild _ path)

match_below_under : (raw rest : Str) → match_below raw (raw ++ slash ∷ rest) ≡ true
unfolding match_below
match_below_under raw rest = elim (trim_right-cons slash rest) [
  | inl all ↦
      rw (trim_right-append slash raw (slash ∷ rest), all)
        (ground (arith, ==_refl (trim_right raw slash)))
  | inr (r, some_left) ↦
      rw (trim_right-append slash raw (slash ∷ rest), some_left)
        (ground (arith, under_own_base raw r))
]

-- A pattern that ends in "/*" matches every path under what stands before the star, at any depth.
pub match_path_under : (raw rest : Str) → match_path (raw ++ one_star) (raw ++ slash ∷ rest) ≡ true
match_path_under raw rest =
    match_path-match_wild _ _ ∙ match_wild_starred raw _ ∙ match_below_under raw rest
