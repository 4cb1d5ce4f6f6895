-- ===== src/Controller/PathMatch/Bases.antt =====
-- internal/controller/x402route_controller.go: when `pathMatchesPaidRoutes` takes a path of an Ingress
-- and the path of a rule for overlapping.
use x402_k8s_operator.Base.{
  ◌≡◌, refl, sym, ap, ◌∙◌, ◌≢◌, ◌↔◌, ◌⊎◌, inl, inr, true, [], ◌∷◌, ◌++◌, Str, str, ==_iff, arith,
}
use x402_k8s_operator.Base.Text.{trim_right, trim_suffix}
use x402_k8s_operator.Base.Text.Affixes.{has_prefix_iff, Strips, trim_suffix-Strips, Strips-unique}
use x402_k8s_operator.Base.Text.Trim.{
  IsTrimmed, IsTrimmed-unique, trim_right-IsTrimmed, trim_right-ne-cut,
}
use x402_k8s_operator.Controller.PathMatch.{
  root_if_empty, clean_ingress_path, clean_paid_path, is_redirected_by,
}

-- The path of an Ingress without the group of a regular expression at its end, and then without the
-- slashes at its end. The base of the root is empty.
abbrev pub IngressBase : Str → Str → Type 0
IngressBase path base = (cut : Str) × Strips (str "(.*)") path cut × IsTrimmed b'/' cut base

-- The path of a rule without "/**" at its end, then without "/*", and then without slashes. The base
-- of a pattern for all paths is empty.
abbrev pub PaidBase : Str → Str → Type 0
PaidBase path base =
    (deep : Str) × (cut : Str) × Strips (str "/**") path deep
    × Strips (str "/*") deep cut
    × IsTrimmed b'/' cut base

-- One path lies below another.
abbrev pub IsBelow : Str → Str → Type 0
IsBelow path parent = (rest : Str) × (path ≡ parent ++ str "/" ++ rest)

-- The first base is the root, or the second one, or the second one lies below it.
abbrev pub IsAtOrAbove : Str → Str → Type 0
IsAtOrAbove base other = (base ≡ []) ⊎ ((base ≡ other) ⊎ IsBelow other base)

-- The two paths are one, or the base of the Ingress's path is at or above that of the rule's, or the
-- base of the rule's path is not the root and is at or above that of the Ingress's.
abbrev pub Overlaps : Str → Str → Type 0
Overlaps ingress_path paid =
    (ingress_path ≡ paid)
    ⊎ ((i : Str) × (p : Str) × IngressBase ingress_path i
        × PaidBase paid p
        × (IsAtOrAbove i p ⊎ ((p ≢ []) × IsAtOrAbove p i)))

-- One round of the loop, of two cleaned paths.
abbrev pub Overlap : Str → Str → Str → Str → Type 0
Overlap ingress_path paid clean_ingress clean_paid =
    (clean_ingress ≡ clean_paid)
    ⊎ (((clean_paid ≢ str "/") × IsBelow clean_ingress clean_paid)
        ⊎ ((clean_ingress ≡ str "/") ⊎ (IsBelow clean_paid clean_ingress ⊎ (ingress_path ≡ paid))))

pub is_redirected_by_iff :
    (ingress_path paid : Str)
    → (is_redirected_by ingress_path paid ≡ true)
      ↔ Overlap ingress_path paid (clean_ingress_path ingress_path) (clean_paid_path paid)
unfolding is_redirected_by
is_redirected_by_iff ingress_path paid =
    let i = clean_ingress_path ingress_path in
    let p = clean_paid_path paid in
    ground (
      arith,
      ==_iff i p,
      ==_iff p (str "/"),
      ==_iff i (str "/"),
      ==_iff ingress_path paid,
      has_prefix_iff i (p ++ str "/"),
      has_prefix_iff p (i ++ str "/"),
    )

pub below_root : (clean rest : Str) → str "/" ≢ root_if_empty clean ++ str "/" ++ rest
below_root [] rest e = cc e
below_root (c ∷ []) rest e = cc e
below_root (c ∷ d ∷ clean) rest e = cc e

ingress_base : Str → Str
ingress_base path = trim_right (trim_suffix path (str "(.*)")) b'/'

paid_base : Str → Str
paid_base path = trim_right (trim_suffix (trim_suffix path (str "/**")) (str "/*")) b'/'

ingress_base-IngressBase : (path : Str) → IngressBase path (ingress_base path)
unfolding ingress_base
ingress_base-IngressBase path =
    (_, trim_suffix-Strips (str "(.*)") path, trim_right-IsTrimmed b'/' _)

IngressBase-unique : (path base : Str) → IngressBase path base → ingress_base path ≡ base
unfolding ingress_base
IngressBase-unique path base (cut, strips, trimmed) =
    ap (λ t. trim_right t b'/') (Strips-unique (str "(.*)") path cut strips)
    ∙ IsTrimmed-unique b'/' cut base trimmed

paid_base-PaidBase : (path : Str) → PaidBase path (paid_base path)
unfolding paid_base
paid_base-PaidBase path = (
  _,
  _,
  trim_suffix-Strips (str "/**") path,
  trim_suffix-Strips (str "/*") _,
  trim_right-IsTrimmed b'/' _,
)

PaidBase-unique : (path base : Str) → PaidBase path base → paid_base path ≡ base
unfolding paid_base
PaidBase-unique path base (deep, cut, strips, strips2, trimmed) =
    ap (λ t. trim_right (trim_suffix t (str "/*")) b'/')
      (Strips-unique (str "/**") path deep strips)
    ∙ ap (λ t. trim_right t b'/') (Strips-unique (str "/*") deep cut strips2)
    ∙ IsTrimmed-unique b'/' cut base trimmed

abbrev Meets : Str → Str → Str → Str → Type 0
Meets ingress_path paid i p =
    (ingress_path ≡ paid) ⊎ (IsAtOrAbove i p ⊎ ((p ≢ []) × IsAtOrAbove p i))

module _ (ingress_path paid : Str) where
  -- The cleaned paths overlap exactly when the bases do.
  Overlap-Meets :
      (i p : Str)
      → i ≢ str "/"
      → p ≢ str "/"
      → Overlap ingress_path paid (root_if_empty i) (root_if_empty p) ↔ Meets ingress_path paid i p
  Overlap-Meets [] p hi hp = (λ _. inr (inl (inl refl)), λ _. inr (inr (inl refl)))
  Overlap-Meets (c ∷ i) [] hi hp = (
    λ o. elim o [
      | inl e ↦ absurd (hi e)
      | inr (inl (other, _)) ↦ absurd (other refl)
      | inr (inr (inl e)) ↦ absurd (hi e)
      | inr (inr (inr (inl (rest, e)))) ↦ absurd (below_root (c ∷ i) rest e)
      | inr (inr (inr (inr e))) ↦ inl e
    ],
    λ m. elim m [
      | inl e ↦ inr (inr (inr (inr e)))
      | inr (inl (inl e)) ↦ cc e
      | inr (inl (inr (inl e))) ↦ cc e
      | inr (inl (inr (inr (rest, e)))) ↦ cc e
      | inr (inr (some_left, _)) ↦ absurd (some_left refl)
    ],
  )
  Overlap-Meets (c ∷ i) (d ∷ p) hi hp = (
    λ o. elim o [
      | inl e ↦ inr (inl (inr (inl e)))
      | inr (inl (_, below)) ↦ inr (inr ((λ e. cc e), inr (inr below)))
      | inr (inr (inl e)) ↦ absurd (hi e)
      | inr (inr (inr (inl below))) ↦ inr (inl (inr (inr below)))
      | inr (inr (inr (inr e))) ↦ inl e
    ],
    λ m. elim m [
      | inl e ↦ inr (inr (inr (inr e)))
      | inr (inl (inl e)) ↦ cc e
      | inr (inl (inr (inl e))) ↦ inl e
      | inr (inl (inr (inr below))) ↦ inr (inr (inr (inl below)))
      | inr (inr (_, inl e)) ↦ cc e
      | inr (inr (_, inr (inl e))) ↦ inl (sym e)
      | inr (inr (_, inr (inr below))) ↦ inr (inl (hp, below))
    ],
  )

  Overlaps-Meets :
      Overlaps ingress_path paid
      ↔ Meets ingress_path paid (ingress_base ingress_path) (paid_base paid)
  Overlaps-Meets = (
    λ o. elim o [
      | inl e ↦ inl e
      | inr (i, p, at, at2, meets) ↦
          inr (rw (IngressBase-unique ingress_path i at, PaidBase-unique paid p at2) meets)
    ],
    λ m. elim m [
      | inl e ↦ inl e
      | inr meets ↦
          inr (_, _, ingress_base-IngressBase ingress_path, paid_base-PaidBase paid, meets)
    ],
  )

  -- The comparison of one round decides whether the two paths overlap.
  pub is_redirected_by-Overlaps :
      (is_redirected_by ingress_path paid ≡ true) ↔ Overlaps ingress_path paid
  unfolding clean_ingress_path clean_paid_path ingress_base paid_base
  is_redirected_by-Overlaps =
      let decides = is_redirected_by_iff ingress_path paid in
      let cleaned =
        Overlap-Meets (ingress_base ingress_path) (paid_base paid)
          (trim_right-ne-cut b'/' (trim_suffix ingress_path (str "(.*)")))
          (trim_right-ne-cut b'/' (trim_suffix (trim_suffix paid (str "/**")) (str "/*"))) in
      (
        λ h. Overlaps-Meets.1 (cleaned.0 (decides.0 h)),
        λ o. decides.1 (cleaned.1 (Overlaps-Meets.0 o)),
      )
