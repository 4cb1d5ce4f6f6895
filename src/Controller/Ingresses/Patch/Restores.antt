-- ===== src/Controller/Ingresses/Patch/Restores.antt =====
-- What restoring gives back.
use x402_k8s_operator.Base.{
  ℕ, suc, ◌≡◌, refl, sym, ap, ◌≢◌, ◌∙◌, Option, none, some, List, [], ◌∷◌, ◌++◌, map, Str, str,
  false, ◌==◌, ==_iff, ==_ne, All, if◌then◌else◌, Option-cases, arith, Bool-cases, inl, inr,
}
use x402_k8s_operator.Base.Int.{pos}
use x402_k8s_operator.Base.Decimal.{show_ℤ}
use x402_k8s_operator.Base.Decimal.RoundTrip.{IsInt32, parse_int32-show_ℤ}
use x402_k8s_operator.Base.Text.{contains_byte, split_two}
use x402_k8s_operator.Base.Text.Splits.{split_two-append}
use x402_k8s_operator.Base.Table.{
  Table, NodupKeys, lookup, insert, erase, lookup-insert, lookup-erase, insert-NodupKeys,
  erase-NodupKeys,
}
use x402_k8s_operator.Controller.Api.{RouteRule}
use x402_k8s_operator.Controller.PathMatch.{path_matches_paid_routes, collect_paid_paths}
use x402_k8s_operator.Controller.Ingresses.{
  IngressService, IngressPath, IngressRule, Ingress, MapCodec, resolve_backend_port,
  annotation_original_backends, annotation_managed_by, describe_original, get_annotation,
}
use x402_k8s_operator.Controller.Ingresses.Paths.{
  AllPaths, AllPaths-map, AllPathsOf, HasService, IsDescribed, collect_rules-all-IsDescribed,
}
use x402_k8s_operator.Controller.Ingresses.Patch.Fresh.{
  IsFaithfulAt, original_backends, first_patch, patch_ingress_fresh, lookup-first_patch,
  get_annotation-or_empty,
}
use x402_k8s_operator.Controller.Ingresses.Patch.{
  Operator, service_at, gateway_svc_name, with_paths, redirect_path, redirect_rules, patch_ingress,
  or_empty, restore_service, restore_path, restore_rules, restored, restore_ingress,
}

-- A service whose name has no colon, at a port that is given by its number.
abbrev pub IsPlain : IngressService → Type 0
IsPlain svc =
    (contains_byte svc.name b':' ≡ false)
    × ((n : ℕ) × (svc ≡ service_at svc.name (pos (suc n))) × IsInt32 (pos (suc n)))

restore_service_plain :
    (svc : IngressService) (service : Option IngressService)
    → IsPlain svc
    → restore_service (some (describe_original svc)) service ≡ some svc
restore_service_plain svc service (no_colon, (n, plain, fits)) =
    let number : svc.port.number ≡ pos (suc n) = ap (λ s. s.port.number) plain in
    let port : resolve_backend_port svc.port ≡ pos (suc n) =
      unfold resolve_backend_port in rw number (ground arith) in
    let parts : split_two (svc.name ++ str ":" ++ show_ℤ (pos (suc n))) b':'
        ≡ svc.name ∷ show_ℤ (pos (suc n)) ∷ [] =
      split_two-append svc.name (show_ℤ (pos (suc n))) b':' no_colon in
    rw (port, parts, parse_int32-show_ℤ (pos (suc n)) fits) (ap some (sym plain))

-- What has to hold of a path to be restored.
abbrev pub IsRestorable : (Str → IngressService) → IngressPath → Type 0
IsRestorable service_of p = HasService service_of p × IsPlain (service_of p.path)

module _ (service_of : Str → IngressService) (svc_name : Str) (paid_paths : List Str)
    (original : Table Str) where
  restored_path :
      (p : IngressPath)
      → IsRestorable service_of p
      → IsDescribed describe_original service_of original p.path
      → restore_path original (redirect_path svc_name paid_paths p) ≡ p
  restored_path p (has, plain) described =
      let same : record p { service = some (service_of p.path) } ≡ p =
        ap (λ s. record p { service = s }) (sym has) in
      elim (Bool-cases (path_matches_paid_routes p.path paid_paths)) [
        | inl paid ↦ rw (paid, described, restore_service_plain (service_of p.path) _ plain) same
        | inr free ↦ rw (free, described, restore_service_plain (service_of p.path) _ plain) same
      ]

  restored_paths :
      (paths : List IngressPath)
      → All (IsRestorable service_of) paths
      → All (λ p. IsDescribed describe_original service_of original p.path) paths
      → map (restore_path original) (map (redirect_path svc_name paid_paths) paths) ≡ paths
  restored_paths [] _ _ = refl
  restored_paths (p ∷ paths) (h, hs) (d, ds) = rw (restored_path p h d, restored_paths paths hs ds)

  restored_rule :
      (rule : IngressRule)
      → AllPathsOf (IsRestorable service_of) rule.http
      → AllPathsOf (λ p. IsDescribed describe_original service_of original p.path) rule.http
      → with_paths (restore_path original) (with_paths (redirect_path svc_name paid_paths) rule)
        ≡ rule
  restored_rule rule h d = elim (Option-cases rule.http) [
    | inl bare ↦ rw bare
    | inr (paths, filled) ↦ rw (filled, restored_paths paths (rw filled at h) (rw filled at d))
  ]

  restored_rules :
      (rules : List IngressRule)
      → AllPaths (IsRestorable service_of) rules
      → AllPaths (λ p. IsDescribed describe_original service_of original p.path) rules
      → restore_rules original (redirect_rules svc_name paid_paths rules) ≡ rules
  unfolding restore_rules redirect_rules
  restored_rules [] _ _ = refl
  restored_rules (rule ∷ rules) (h, hs) (d, ds) =
      rw (restored_rule rule h d, restored_rules rules hs ds)

-- Both marks set and deleted again.
annotations_back :
    (k text : Str) (annotations : Table Str)
    → NodupKeys annotations
    → k ≢ annotation_managed_by
    → lookup k (
        erase annotation_managed_by (
          erase annotation_original_backends (
            insert annotation_managed_by
              (str "x402-operator")
              (insert annotation_original_backends text annotations))))
      ≡ (if annotation_original_backends == k then none else lookup k annotations)
annotations_back k text annotations nodup other =
    let once : NodupKeys _ = insert-NodupKeys annotation_original_backends text annotations nodup in
    let twice : NodupKeys _ = insert-NodupKeys annotation_managed_by (str "x402-operator") _ once in
    let erased : NodupKeys _ = erase-NodupKeys annotation_original_backends _ twice in
    let unmarked : (annotation_managed_by == k) ≡ false =
      ==_ne annotation_managed_by k (λ e. other (sym e)) in
    rw
      (
        lookup-erase k annotation_managed_by _ erased,
        unmarked,
        lookup-erase k annotation_original_backends _ twice,
        lookup-insert,
        unmarked,
        lookup-insert,
      )
      (ground arith)

abbrev unpatched : Operator → List RouteRule → Ingress → Str → Table Str → Ingress
unpatched operator routes ingress text original = record ingress {
  annotations = some (
      erase annotation_managed_by (
        erase annotation_original_backends (
          insert annotation_managed_by (str "x402-operator")
            (insert annotation_original_backends text (or_empty ingress.annotations)))));
  rules = restore_rules original (
      redirect_rules (gateway_svc_name operator ingress) (collect_paid_paths routes) ingress.rules);
}

restore_first_patch :
    (codec : MapCodec) (operator : Operator) (routes : List RouteRule) (ingress : Ingress)
    (text : Str) (original : Table Str)
    → codec.unmarshal text ≡ some original
    → restore_ingress codec (first_patch operator routes ingress text)
      ≡ restored (unpatched operator routes ingress text original)
unfolding restore_ingress
restore_first_patch codec operator routes ingress text original decoded =
    rw (lookup-first_patch operator routes ingress text, decoded)

get_annotation-unpatched :
    (operator : Operator) (routes : List RouteRule) (ingress : Ingress) (text : Str)
    (original : Table Str) (k : Str)
    → get_annotation ingress annotation_original_backends ≡ none
    → NodupKeys (or_empty ingress.annotations)
    → k ≢ annotation_managed_by
    → get_annotation (unpatched operator routes ingress text original) k ≡ get_annotation ingress k
get_annotation-unpatched operator routes ingress text original k fresh nodup other =
    elim (Bool-cases (annotation_original_backends == k)) [
      | inl same ↦
          let is_key : annotation_original_backends ≡ k =
            (==_iff annotation_original_backends k).0 same in
          rw (annotations_back k text (or_empty ingress.annotations) nodup other, same)
            (sym (rw is_key at fresh))
      | inr differs ↦ rw (
        annotations_back k text (or_empty ingress.annotations) nodup other,
        differs,
        get_annotation-or_empty ingress k,
      )
    ]

-- An Ingress without stored backends, whose annotations have distinct keys, and each of whose paths
-- has a service that depends on the path only, with a name without a colon and a port by number, is
-- restored after a patch to its rules, and to its annotations but for the mark of the operator,
-- where the text that the patch stores decodes to what was stored.
pub restore_ingress-patch_ingress :
    (codec : MapCodec) (operator : Operator) (routes : List RouteRule) (ingress patched : Ingress)
    (service_of : Str → IngressService)
    → get_annotation ingress annotation_original_backends ≡ none
    → NodupKeys (or_empty ingress.annotations)
    → IsFaithfulAt codec (original_backends ingress)
    → AllPaths (IsRestorable service_of) ingress.rules
    → patch_ingress codec operator routes ingress ≡ some patched
    → (back : Ingress) × (restore_ingress codec patched ≡ restored back)
      × (back.rules ≡ ingress.rules)
      × ((k : Str) → k ≢ annotation_managed_by → get_annotation back k ≡ get_annotation ingress k)
restore_ingress-patch_ingress codec operator routes ingress patched service_of fresh nodup faithful
      plain h =
    let (text, encoded, is_patched) =
      patch_ingress_fresh codec operator routes ingress patched fresh h in
    let (original, decoded, _, agree) = faithful text encoded in
    let described : AllPaths (λ p. IsDescribed describe_original service_of original p.path)
        ingress.rules =
      AllPaths-map _ _ (λ p d. agree p.path ∙ d) ingress.rules
        (collect_rules-all-IsDescribed describe_original service_of ingress.rules []
          (AllPaths-map _ _ (λ p r. r.0) ingress.rules plain)) in
    (
      unpatched operator routes ingress text original,
      rw (sym is_patched) (restore_first_patch codec operator routes ingress text original decoded),
      restored_rules service_of (gateway_svc_name operator ingress) (collect_paid_paths routes)
          original ingress.rules plain described,
      λ k other. get_annotation-unpatched operator routes ingress text original k fresh nodup other,
    )
