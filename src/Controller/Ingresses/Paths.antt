-- ===== src/Controller/Ingresses/Paths.antt =====
-- Predicates on the paths of an Ingress, and what the loops over its paths collect.
use x402_k8s_operator.Base.{
  ◌≡◌, refl, ap, ◌∙◌, Option, none, some, List, [], ◌∷◌, Str, ◌==◌, ==_iff, ==_refl, All,
  Option-cases, Bool-cases, inl, inr,
}
use x402_k8s_operator.Base.Table.{Table, lookup, insert, lookup-insert}
use x402_k8s_operator.Controller.Ingresses.{
  IngressService, IngressPath, IngressRule, collect_paths, collect_rules,
}

abbrev pub AllPathsOf : (IngressPath → Type 0) → Option (List IngressPath) → Type 0
AllPathsOf P none = Unit
AllPathsOf P (some paths) = All P paths

-- Every path of the rules has the property.
abbrev pub AllPaths : (IngressPath → Type 0) → List IngressRule → Type 0
AllPaths P [] = Unit
AllPaths P (rule ∷ rules) = AllPathsOf P rule.http × AllPaths P rules

-- The service of a path depends on the text of the path only.
abbrev pub HasService : (Str → IngressService) → IngressPath → Type 0
HasService service_of p = p.service ≡ some (service_of p.path)

module _ (describe : IngressService → Str) (service_of : Str → IngressService) where
  abbrev pub IsDescribed : Table Str → Str → Type 0
  IsDescribed m k = lookup k m ≡ some (describe (service_of k))

  insert-IsDescribed :
      (k j : Str) (m : Table Str)
      → IsDescribed m k
      → IsDescribed (insert j (describe (service_of j)) m) k
  insert-IsDescribed k j m h = elim (Bool-cases (j == k)) [
    | inl same ↦ rw (lookup-insert, same, (==_iff j k).0 same)
    | inr other ↦ rw (lookup-insert, other) h
  ]

  inserted-IsDescribed :
      (k : Str) (m : Table Str) → IsDescribed (insert k (describe (service_of k)) m) k
  inserted-IsDescribed k m = rw (lookup-insert, ==_refl k)

  collect_paths-IsDescribed :
      (k : Str) (paths : List IngressPath) (m : Table Str)
      → All (HasService service_of) paths
      → IsDescribed m k
      → IsDescribed (collect_paths describe paths m) k
  unfolding collect_paths
  collect_paths-IsDescribed k [] m _ h = h
  collect_paths-IsDescribed k (p ∷ paths) m (has, hs) h =
      rw has (collect_paths-IsDescribed k paths _ hs (insert-IsDescribed k p.path m h))

  collect_rules-IsDescribed :
      (k : Str) (rules : List IngressRule) (m : Table Str)
      → AllPaths (HasService service_of) rules
      → IsDescribed m k
      → IsDescribed (collect_rules describe rules m) k
  unfolding collect_rules
  collect_rules-IsDescribed k [] m _ h = h
  collect_rules-IsDescribed k (rule ∷ rules) m (has, hs) h = elim (Option-cases rule.http) [
    | inl bare ↦ rw bare (collect_rules-IsDescribed k rules m hs h)
    | inr (paths, filled) ↦ rw filled (
        collect_rules-IsDescribed k rules _ hs
          (collect_paths-IsDescribed k paths m (rw filled at has) h))
  ]

  collect_paths-cons :
      (p : IngressPath) (paths : List IngressPath) (m : Table Str)
      → HasService service_of p
      → collect_paths describe (p ∷ paths) m
        ≡ collect_paths describe paths (insert p.path (describe (service_of p.path)) m)
  unfolding collect_paths
  collect_paths-cons p paths m has = rw has

  collect_rules-cons :
      (rule : IngressRule) (rules : List IngressRule) (paths : List IngressPath) (m : Table Str)
      → rule.http ≡ some paths
      → collect_rules describe (rule ∷ rules) m
        ≡ collect_rules describe rules (collect_paths describe paths m)
  unfolding collect_rules
  collect_rules-cons rule rules paths m filled = rw filled

  AllPaths-IsDescribed :
      (paths : List IngressPath) (rules : List IngressRule) (m t : Table Str)
      → All (HasService service_of) paths
      → AllPaths (HasService service_of) rules
      → t ≡ collect_rules describe rules (collect_paths describe paths m)
      → All (λ p. IsDescribed t p.path) paths
  AllPaths-IsDescribed [] rules m t _ _ _ = tt
  AllPaths-IsDescribed (p ∷ paths) rules m t (has, hs) hr e =
      let e' : t
          ≡ collect_rules describe rules
              (collect_paths describe paths (insert p.path (describe (service_of p.path)) m)) =
        e ∙ ap (collect_rules describe rules) (collect_paths-cons p paths m has) in
      (
        rw e' (
            collect_rules-IsDescribed p.path rules _ hr
              (collect_paths-IsDescribed p.path paths _ hs (inserted-IsDescribed p.path m))),
        AllPaths-IsDescribed paths rules _ t hs hr e',
      )

  all_rules-IsDescribed :
      (rules : List IngressRule) (m t : Table Str)
      → AllPaths (HasService service_of) rules
      → t ≡ collect_rules describe rules m
      → AllPaths (λ p. IsDescribed t p.path) rules
  all_rules-IsDescribed [] m t _ _ = tt
  all_rules-IsDescribed (rule ∷ rules) m t (has, hs) e = elim (Option-cases rule.http) [
    | inl bare ↦
        (rw bare tt, all_rules-IsDescribed rules m t hs (e ∙ (unfold collect_rules in rw bare)))
    | inr (paths, filled) ↦
        let e' : t ≡ collect_rules describe rules (collect_paths describe paths m) =
          e ∙ collect_rules-cons rule rules paths m filled in
        (
          rw filled (AllPaths-IsDescribed paths rules m t (rw filled at has) hs e'),
          all_rules-IsDescribed rules _ t hs e',
        )
  ]

  -- What is collected describes every path.
  pub collect_rules-all-IsDescribed :
      (rules : List IngressRule) (m : Table Str)
      → AllPaths (HasService service_of) rules
      → AllPaths (λ p. IsDescribed (collect_rules describe rules m) p.path) rules
  collect_rules-all-IsDescribed rules m hs = all_rules-IsDescribed rules m _ hs refl

All-map :
    {A : Type 0} (P Q : A → Type 0) → ((a : A) → P a → Q a) → (xs : List A) → All P xs → All Q xs
All-map P Q f [] _ = tt
All-map P Q f (x ∷ xs) (h, hs) = (f x h, All-map P Q f xs hs)

pub AllPaths-map :
    (P Q : IngressPath → Type 0)
    → ((p : IngressPath) → P p → Q p)
    → (rules : List IngressRule) → AllPaths P rules
    → AllPaths Q rules
AllPaths-map P Q f [] _ = tt
AllPaths-map P Q f (rule ∷ rules) (h, hs) = (
  elim (Option-cases rule.http) [
    | inl bare ↦ rw bare tt
    | inr (paths, filled) ↦ rw filled (All-map P Q f paths (rw filled at h))
  ],
  AllPaths-map P Q f rules hs,
)

All-both :
    {A : Type 0} (P Q : A → Type 0) (xs : List A) → All P xs → All Q xs → All (λ a. P a × Q a) xs
All-both P Q [] _ _ = tt
All-both P Q (x ∷ xs) (h, hs) (k, ks) = ((h, k), All-both P Q xs hs ks)

pub AllPaths-both :
    (P Q : IngressPath → Type 0) (rules : List IngressRule)
    → AllPaths P rules
    → AllPaths Q rules
    → AllPaths (λ p. P p × Q p) rules
AllPaths-both P Q [] _ _ = tt
AllPaths-both P Q (rule ∷ rules) (h, hs) (k, ks) = (
  elim (Option-cases rule.http) [
    | inl bare ↦ rw bare tt
    | inr (paths, filled) ↦ rw filled (All-both P Q paths (rw filled at h) (rw filled at k))
  ],
  AllPaths-both P Q rules hs ks,
)
