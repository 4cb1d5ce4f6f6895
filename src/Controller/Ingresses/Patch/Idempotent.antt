-- ===== src/Controller/Ingresses/Patch/Idempotent.antt =====
-- A second patch changes nothing.
use x402_k8s_operator.Base.{
  ◌≡◌, refl, sym, some, List, [], ◌∷◌, map, Str, str, ◌==◌, ==_refl, Option-cases, Bool-cases, inl,
  inr,
}
use mathlib.Core.Option.{some-injective}
use x402_k8s_operator.Base.Table.{Table, lookup, insert, lookup-insert}
use x402_k8s_operator.Controller.Api.{RouteRule}
use x402_k8s_operator.Controller.PathMatch.{path_matches_paid_routes, collect_paid_paths}
use x402_k8s_operator.Controller.Ingresses.{
  IngressPath, IngressRule, Ingress, MapCodec, annotation_original_backends, annotation_managed_by,
  collect_rules, describe_original,
}
use x402_k8s_operator.Controller.Ingresses.Patch.{
  Operator, gateway_svc_name, with_paths, redirect_path, redirect_rules, store_original,
  patched_with, patch_ingress, or_empty,
}

map_twice :
    {A : Type 0} (f : A → A)
    → ((x : A) → f (f x) ≡ f x)
    → (xs : List A) → map f (map f xs) ≡ map f xs
map_twice f h [] = refl
map_twice f h (x ∷ xs) = rw (h x, map_twice f h xs)

redirect_path_twice :
    (svc_name : Str) (paid_paths : List Str) (p : IngressPath)
    → redirect_path svc_name paid_paths (redirect_path svc_name paid_paths p)
      ≡ redirect_path svc_name paid_paths p
redirect_path_twice svc_name paid_paths p =
    elim (Bool-cases (path_matches_paid_routes p.path paid_paths)) [
      | inl paid ↦ rw (paid, paid)
      | inr free ↦ rw (free, free)
    ]

with_paths_twice :
    (f : IngressPath → IngressPath)
    → ((p : IngressPath) → f (f p) ≡ f p)
    → (rule : IngressRule) → with_paths f (with_paths f rule) ≡ with_paths f rule
with_paths_twice f h rule = elim (Option-cases rule.http) [
  | inl bare ↦ rw bare
  | inr (paths, filled) ↦ rw (filled, map_twice f h paths)
]

redirect_rules_twice :
    (svc_name : Str) (paid_paths : List Str) (rules : List IngressRule)
    → redirect_rules svc_name paid_paths (redirect_rules svc_name paid_paths rules)
      ≡ redirect_rules svc_name paid_paths rules
unfolding redirect_rules
redirect_rules_twice svc_name paid_paths rules =
    map_twice _ (with_paths_twice _ (redirect_path_twice svc_name paid_paths)) rules

pub insert_twice : (k : Str) (v : Str) (m : Table Str) → insert k v (insert k v m) ≡ insert k v m
unfolding insert
insert_twice k v [] = rw (==_refl k)
insert_twice k v ((j, w) ∷ m) = elim (Bool-cases (j == k)) [
  | inl same ↦ rw (same, ==_refl k)
  | inr other ↦ rw (other, other, insert_twice k v m)
]

-- Once the original backends are stored they are kept.
pub stored_of_store_original :
    (codec : MapCodec) (rules : List IngressRule) (annotations stored : Table Str)
    → store_original codec rules annotations ≡ some stored
    → (text : Str) × (lookup annotation_original_backends stored ≡ some text)
unfolding store_original
stored_of_store_original codec rules annotations stored h =
    elim (Option-cases (lookup annotation_original_backends annotations)) [
      | inr (text, kept) ↦ (text, rw (some-injective annotations stored (rw kept at h)) at kept)
      | inl fresh ↦ elim (Option-cases (codec.marshal (collect_rules describe_original rules []))) [
        | inl bad ↦ cc (rw (fresh, bad) at h)
        | inr (text, good) ↦
            (text, rw (sym (some-injective _ stored (rw (fresh, good) at h)), lookup-insert))
      ]
    ]

pub store_original_kept :
    (codec : MapCodec) (rules : List IngressRule) (annotations : Table Str) (text : Str)
    → lookup annotation_original_backends annotations ≡ some text
    → store_original codec rules annotations ≡ some annotations
unfolding store_original
store_original_kept codec rules annotations text h = rw h

patched_with_twice :
    (operator : Operator) (routes : List RouteRule) (ingress : Ingress) (annotations : Table Str)
    → patched_with operator routes
        (patched_with operator routes ingress annotations)
        (insert annotation_managed_by (str "x402-operator") annotations)
      ≡ patched_with operator routes ingress annotations
patched_with_twice operator routes ingress annotations = rw (
  insert_twice annotation_managed_by (str "x402-operator") annotations,
  redirect_rules_twice (gateway_svc_name operator ingress) (collect_paid_paths routes)
      ingress.rules,
)

-- A patched Ingress is left as it is by a second patch for the same routes.
pub patch_ingress_twice :
    (codec : MapCodec) (operator : Operator) (routes : List RouteRule) (ingress patched : Ingress)
    → patch_ingress codec operator routes ingress ≡ some patched
    → patch_ingress codec operator routes patched ≡ some patched
unfolding patch_ingress redirect_rules
patch_ingress_twice codec operator routes ingress patched h =
    elim (Option-cases (store_original codec ingress.rules (or_empty ingress.annotations))) [
      | inl bad ↦ cc (rw bad at h)
      | inr (annotations, good) ↦
          let is_patched : patched_with operator routes ingress annotations ≡ patched =
            some-injective _ patched (rw good at h) in
          let (text, kept) =
            stored_of_store_original codec ingress.rules (or_empty ingress.annotations) annotations
              good in
          let still_kept : lookup annotation_original_backends
                (insert annotation_managed_by (str "x402-operator") annotations)
              ≡ some text =
            rw lookup-insert kept in
          rw (
            sym is_patched,
            store_original_kept codec _
                (insert annotation_managed_by (str "x402-operator") annotations) text still_kept,
            patched_with_twice operator routes ingress annotations,
          )
    ]
