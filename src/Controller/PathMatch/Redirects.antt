-- ===== src/Controller/PathMatch/Redirects.antt =====
-- Which paths of an Ingress go to the gateway.
use x402_k8s_operator.Base.{
  ◌≡◌, refl, sym, ap, ◌∙◌, ◌↔◌, inl, inr, true, false, List, [], ◌∷◌, Str, Elem, Bool-cases,
}
use x402_k8s_operator.Controller.Api.{RouteRule}
use x402_k8s_operator.Controller.PathMatch.Bases.{Overlaps, is_redirected_by-Overlaps}
use x402_k8s_operator.Controller.PathMatch.{
  collect_paid_paths, is_redirected_by, path_matches_paid_routes,
}

found_of :
    (ingress_path : Str) (paid_paths : List Str)
    → path_matches_paid_routes ingress_path paid_paths ≡ true
    → (paid : Str) × Elem paid paid_paths × Overlaps ingress_path paid
unfolding path_matches_paid_routes
found_of ingress_path [] h = cc
found_of ingress_path (p ∷ ps) h = elim (Bool-cases (is_redirected_by ingress_path p)) [
  | inl here ↦ (p, inl refl, (is_redirected_by-Overlaps ingress_path p).0 here)
  | inr other ↦ let (paid, m, o) = found_of ingress_path ps (rw other at h) in (paid, inr m, o)
]

of_found :
    (ingress_path paid : Str) (paid_paths : List Str)
    → Elem paid paid_paths
    → Overlaps ingress_path paid
    → path_matches_paid_routes ingress_path paid_paths ≡ true
unfolding path_matches_paid_routes
of_found ingress_path paid [] m o = absurd m
of_found ingress_path paid (p ∷ ps) (inl e) o =
    rw (sym e, (is_redirected_by-Overlaps ingress_path paid).1 o)
of_found ingress_path paid (p ∷ ps) (inr m) o =
    elim (Bool-cases (is_redirected_by ingress_path p)) [
      | inl here ↦ rw here
      | inr other ↦ rw (other, of_found ingress_path paid ps m o)
    ]

path_matches_paid_routes_iff :
    (ingress_path : Str) (paid_paths : List Str)
    → (path_matches_paid_routes ingress_path paid_paths ≡ true)
      ↔ ((paid : Str) × Elem paid paid_paths × Overlaps ingress_path paid)
path_matches_paid_routes_iff ingress_path paid_paths =
    (found_of ingress_path paid_paths, λ (paid, m, o). of_found ingress_path paid paid_paths m o)

rule_of :
    (paid : Str) (rules : List RouteRule)
    → Elem paid (collect_paid_paths rules)
    → (rule : RouteRule) × Elem rule rules × (rule.free ≡ false) × (rule.path ≡ paid)
unfolding collect_paid_paths
rule_of paid [] m = absurd m
rule_of paid (r ∷ rs) m = elim (Bool-cases r.free) [
  | inl free ↦ let (rule, m', f, e) = rule_of paid rs (rw free at m) in (rule, inr m', f, e)
  | inr priced ↦ elim (rw priced at m) [
    | inl e ↦ (r, inl refl, priced, sym e)
    | inr m' ↦ let (rule, m'', f, e) = rule_of paid rs m' in (rule, inr m'', f, e)
  ]
]

of_rule :
    (paid : Str) (rules : List RouteRule) (rule : RouteRule)
    → Elem rule rules
    → rule.free ≡ false
    → rule.path ≡ paid
    → Elem paid (collect_paid_paths rules)
unfolding collect_paid_paths
of_rule paid [] rule m f e = absurd m
of_rule paid (r ∷ rs) rule (inl here) f e =
    rw (ap (λ x. x.free) (sym here) ∙ f) (inl (sym e ∙ ap (λ x. x.path) here))
of_rule paid (r ∷ rs) rule (inr m) f e = elim (Bool-cases r.free) [
  | inl free ↦ rw free (of_rule paid rs rule m f e)
  | inr priced ↦ rw priced (inr (of_rule paid rs rule m f e))
]

collect_paid_paths_iff :
    (paid : Str) (rules : List RouteRule)
    → Elem paid (collect_paid_paths rules)
      ↔ ((rule : RouteRule) × Elem rule rules × (rule.free ≡ false) × (rule.path ≡ paid))
collect_paid_paths_iff paid rules =
    (rule_of paid rules, λ (rule, m, f, e). of_rule paid rules rule m f e)

-- A path of an Ingress is sent to the gateway exactly when it overlaps with the path of a rule that
-- is not free: the two are one, or after their wildcards and slashes are cut the Ingress's is the
-- root, or the rule's, or above the rule's, or it lies below the rule's and that is not the root, so
-- that a pattern for all paths sends only the root.
pub path_matches_paid_routes-collect_paid_paths :
    (ingress_path : Str) (rules : List RouteRule)
    → (path_matches_paid_routes ingress_path (collect_paid_paths rules) ≡ true) ↔ (
        (rule : RouteRule) × Elem rule rules
        × (rule.free ≡ false)
        × Overlaps ingress_path rule.path)
path_matches_paid_routes-collect_paid_paths ingress_path rules = (
  λ h.
      let (paid, m, o) =
        (path_matches_paid_routes_iff ingress_path (collect_paid_paths rules)).0 h in
      let (rule, m', f, e) = (collect_paid_paths_iff paid rules).0 m in (rule, m', f, rw e o),
  λ (rule, m, f, o).
      (path_matches_paid_routes_iff ingress_path (collect_paid_paths rules)).1
        (rule.path, (collect_paid_paths_iff rule.path rules).1 (rule, m, f, refl), o),
)
