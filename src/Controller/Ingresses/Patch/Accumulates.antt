-- ===== src/Controller/Ingresses/Patch/Accumulates.antt =====
-- Patches of one Ingress for several lists of rules, one behind the other.
use x402_k8s_operator.Base.{
  ◌≡◌, refl, sym, inl, inr, ◌||◌, some, List, [], ◌∷◌, ◌++◌, map, Str, str, Bool-cases,
  Option-cases, arith,
}
use mathlib.Core.Option.{some-injective}
use x402_k8s_operator.Base.Table.{Table, lookup, insert, lookup-insert}
use x402_k8s_operator.Controller.Api.{RouteRule}
use x402_k8s_operator.Controller.PathMatch.{collect_paid_paths, path_matches_paid_routes}
use x402_k8s_operator.Controller.Ingresses.{
  IngressPath, IngressRule, Ingress, MapCodec, annotation_original_backends, annotation_managed_by,
}
use x402_k8s_operator.Controller.Ingresses.Patch.{
  Operator, gateway_svc_name, with_paths, redirect_path, redirect_rules, store_original,
  patched_with, patch_ingress, or_empty,
}
use x402_k8s_operator.Controller.Ingresses.Patch.Idempotent.{
  insert_twice, stored_of_store_original, store_original_kept,
}

path_matches_paid_routes-append :
    (path : Str) (before after : List Str)
    → path_matches_paid_routes path (before ++ after)
      ≡ (path_matches_paid_routes path before || path_matches_paid_routes path after)
unfolding path_matches_paid_routes
path_matches_paid_routes-append path [] after = refl
path_matches_paid_routes-append path (paid ∷ before) after =
    ground (arith, path_matches_paid_routes-append path before after)

collect_paid_paths-append :
    (before after : List RouteRule)
    → collect_paid_paths (before ++ after) ≡ collect_paid_paths before ++ collect_paid_paths after
unfolding collect_paid_paths
collect_paid_paths-append [] after = refl
collect_paid_paths-append (rule ∷ before) after = elim (Bool-cases rule.free) [
  | inl free ↦ rw free (collect_paid_paths-append before after)
  | inr priced ↦ rw (priced, collect_paid_paths-append before after)
]

module _ (svc_name : Str) (before after : List Str) where
  redirect_path-append :
      (p : IngressPath)
      → redirect_path svc_name after (redirect_path svc_name before p)
        ≡ redirect_path svc_name (before ++ after) p
  redirect_path-append p = elim (Bool-cases (path_matches_paid_routes p.path before)) [
    | inl old ↦ elim (Bool-cases (path_matches_paid_routes p.path after)) [
      | inl new ↦ rw (old, path_matches_paid_routes-append, old, new)
      | inr other ↦ rw (old, path_matches_paid_routes-append, old, other)
    ]
    | inr other ↦ rw (other, path_matches_paid_routes-append, other)
  ]

  map-append_lem :
      (paths : List IngressPath)
      → map (redirect_path svc_name after) (map (redirect_path svc_name before) paths)
        ≡ map (redirect_path svc_name (before ++ after)) paths
  map-append_lem [] = refl
  map-append_lem (p ∷ paths) = rw (redirect_path-append p, map-append_lem paths)

  with_paths-append :
      (rule : IngressRule)
      → with_paths (redirect_path svc_name after) (with_paths (redirect_path svc_name before) rule)
        ≡ with_paths (redirect_path svc_name (before ++ after)) rule
  with_paths-append rule = elim (Option-cases rule.http) [
    | inl bare ↦ rw bare
    | inr (paths, filled) ↦ rw (filled, map-append_lem paths)
  ]

  redirect_rules-append :
      (rules : List IngressRule)
      → redirect_rules svc_name after (redirect_rules svc_name before rules)
        ≡ redirect_rules svc_name (before ++ after) rules
  unfolding redirect_rules
  redirect_rules-append [] = refl
  redirect_rules-append (rule ∷ rules) = rw (with_paths-append rule, redirect_rules-append rules)

patched_with-append :
    (operator : Operator) (routes more : List RouteRule) (ingress : Ingress)
    (annotations : Table Str)
    → patched_with operator more
        (patched_with operator routes ingress annotations)
        (insert annotation_managed_by (str "x402-operator") annotations)
      ≡ patched_with operator (routes ++ more) ingress annotations
patched_with-append operator routes more ingress annotations = rw (
  insert_twice annotation_managed_by (str "x402-operator") annotations,
  redirect_rules-append (gateway_svc_name operator ingress) (collect_paid_paths routes)
      (collect_paid_paths more) ingress.rules,
  collect_paid_paths-append routes more,
)

-- A patch of a patched Ingress comes to one patch for the rules of both: a path that a patch
-- redirected stays redirected, also where the later rules are those of a changed route that no
-- longer has a rule for it.
pub patch_ingress-patch_ingress :
    (codec : MapCodec) (operator : Operator) (routes more : List RouteRule)
    (ingress patched : Ingress)
    → patch_ingress codec operator routes ingress ≡ some patched
    → patch_ingress codec operator more patched
      ≡ patch_ingress codec operator (routes ++ more) ingress
unfolding patch_ingress redirect_rules
patch_ingress-patch_ingress codec operator routes more ingress patched h =
    elim (Option-cases (store_original codec ingress.rules (or_empty ingress.annotations))) [
      | inl bad ↦ cc (rw bad at h)
      | inr (annotations, good) ↦
          let is_patched : patched_with operator routes ingress annotations ≡ patched =
            some-injective _ patched (rw good at h) in
          let (text, kept) =
            stored_of_store_original codec ingress.rules (or_empty ingress.annotations) annotations
              good in
          let still_kept : lookup annotation_original_backends
                (insert annotation_managed_by (str "x402-operator") annotations)
              ≡ some text =
            rw lookup-insert kept in
          rw (
            sym is_patched,
            store_original_kept codec _
                (insert annotation_managed_by (str "x402-operator") annotations) text still_kept,
            good,
            patched_with-append operator routes more ingress annotations,
          )
    ]
