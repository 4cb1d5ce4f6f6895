-- ===== src/Controller/Ingresses/Patch/Extracts.antt =====
-- A patched Ingress still names its original backends.
use x402_k8s_operator.Base.{
  ◌≡◌, refl, sym, ◌∙◌, ◌⊎◌, false, Option, none, some, List, [], ◌∷◌, Str, ◌==◌, ==_iff, All,
  if◌then◌else◌, Option-cases, arith, Bool-cases, inl, inr,
}
use x402_k8s_operator.Base.Decimal.{show_ℤ}
use x402_k8s_operator.Base.Text.{contains_byte, split_two}
use x402_k8s_operator.Base.Text.Splits.{split_two-append}
use x402_k8s_operator.Base.Table.{Table, NodupKeys, lookup, insert, lookup-insert}
use x402_k8s_operator.Controller.Api.{RouteRule}
use x402_k8s_operator.Controller.Ingresses.{
  IngressService, IngressPath, IngressRule, Ingress, MapCodec, resolve_backend_port, collect_paths,
  collect_rules, service_url, describe_url, describe_original, insert_url, urls_of_stored,
  annotation_original_backends, get_annotation, extract_backends,
}
use x402_k8s_operator.Controller.Ingresses.Paths.{AllPaths}
use x402_k8s_operator.Controller.Ingresses.Patch.{Operator, patch_ingress}
use x402_k8s_operator.Controller.Ingresses.Patch.Fresh.{
  IsFaithfulAt, original_backends, first_patch, patch_ingress_fresh, lookup-first_patch,
}

abbrev pub HasNoColon : IngressService → Type 0
HasNoColon svc = contains_byte svc.name b':' ≡ false

-- The service of a path, if it has one, has a name without a colon.
abbrev pub IsNamed : IngressPath → Type 0
IsNamed p = (svc : IngressService) → p.service ≡ some svc → HasNoColon svc

module _ (namespace : Str) (k : Str) where
  -- Two maps describe one service at a key, or neither has the key.
  abbrev DescribesSame : Table Str → Table Str → Type 0
  DescribesSame originals urls =
      ((svc : IngressService) × HasNoColon svc
        × (lookup k originals ≡ some (describe_original svc))
        × (lookup k urls ≡ some (describe_url namespace svc)))
      ⊎ ((lookup k originals ≡ none) × (lookup k urls ≡ none))

  insert-DescribesSame :
      (path : Str) (svc : IngressService) (originals urls : Table Str)
      → HasNoColon svc
      → DescribesSame originals urls
      → DescribesSame
          (insert path (describe_original svc) originals)
          (insert path (describe_url namespace svc) urls)
  insert-DescribesSame path svc originals urls named same = elim (Bool-cases (path == k)) [
    | inl here ↦ inl (svc, named, (rw (lookup-insert, here)), (rw (lookup-insert, here)))
    | inr other ↦ rw (lookup-insert, other, lookup-insert, other) same
  ]

  collect_paths-DescribesSame :
      (paths : List IngressPath) (originals urls : Table Str)
      → All IsNamed paths
      → DescribesSame originals urls
      → DescribesSame
          (collect_paths describe_original paths originals)
          (collect_paths (describe_url namespace) paths urls)
  unfolding collect_paths
  collect_paths-DescribesSame [] originals urls _ same = same
  collect_paths-DescribesSame (p ∷ paths) originals urls (named, hs) same =
      elim (Option-cases p.service) [
        | inl bare ↦ rw bare (collect_paths-DescribesSame paths originals urls hs same)
        | inr (svc, served) ↦ rw served (
            collect_paths-DescribesSame paths _ _ hs
              (insert-DescribesSame p.path svc originals urls (named svc served) same))
      ]

  collect_rules-DescribesSame :
      (rules : List IngressRule) (originals urls : Table Str)
      → AllPaths IsNamed rules
      → DescribesSame originals urls
      → DescribesSame
          (collect_rules describe_original rules originals)
          (collect_rules (describe_url namespace) rules urls)
  unfolding collect_rules
  collect_rules-DescribesSame [] originals urls _ same = same
  collect_rules-DescribesSame (rule ∷ rules) originals urls (named, hs) same =
      elim (Option-cases rule.http) [
        | inl bare ↦ rw bare (collect_rules-DescribesSame rules originals urls hs same)
        | inr (paths, filled) ↦ rw filled (
            collect_rules-DescribesSame rules _ _ hs
              (collect_paths-DescribesSame paths originals urls (rw filled at named) same))
      ]

  -- The URL that two parts make, at a key that had a value before.
  url_of_parts : List Str → Option Str → Option Str
  url_of_parts [] before = before
  url_of_parts (part ∷ []) before = before
  url_of_parts (svc_name ∷ port ∷ []) before = some (service_url namespace svc_name port)
  url_of_parts (svc_name ∷ port ∷ part ∷ parts) before = before

  lookup-insert_url :
      (path : Str) (parts : List Str) (result : Table Str)
      → lookup k (insert_url namespace path parts result)
        ≡ (if path == k then url_of_parts parts (lookup k result) else lookup k result)
  unfolding url_of_parts
  lookup-insert_url path [] result = ground arith
  lookup-insert_url path (part ∷ []) result = ground arith
  lookup-insert_url path (svc_name ∷ port ∷ []) result = rw lookup-insert
  lookup-insert_url path (svc_name ∷ port ∷ part ∷ parts) result = ground arith

  url_of_text : Option Str → Option Str → Option Str
  unfolding url_of_parts
  url_of_text none before = before
  url_of_text (some text) before = url_of_parts (split_two text b':') before

  lookup-urls_of_stored :
      (m result : Table Str)
      → NodupKeys m
      → lookup k (urls_of_stored namespace m result) ≡ url_of_text (lookup k m) (lookup k result)
  unfolding urls_of_stored url_of_text
  lookup-urls_of_stored [] result _ = unfold lookup in refl
  lookup-urls_of_stored ((j, text) ∷ m) result (new, nodup) =
      rw
        (
          lookup-urls_of_stored m (insert_url namespace j (split_two text b':') result) nodup,
          lookup-insert_url j (split_two text b':') result,
        )
        (elim (Bool-cases (j == k)) [
          | inl here ↦
              let fresh : lookup k m ≡ none = rw ((==_iff j k).0 here) at new in
              unfold lookup in rw (here, fresh)
          | inr other ↦ unfold lookup in rw other
        ])

  -- The stored originals lead to the URLs that the rules lead to.
  urls_of_original :
      (originals urls decoded : Table Str)
      → DescribesSame originals urls
      → NodupKeys decoded
      → lookup k decoded ≡ lookup k originals
      → lookup k (urls_of_stored namespace decoded []) ≡ lookup k urls
  unfolding url_of_text url_of_parts
  urls_of_original originals urls decoded same nodup agree = elim same [
    | inr (no_original, no_url) ↦
        rw (lookup-urls_of_stored decoded [] nodup, agree ∙ no_original, no_url)
          (unfold lookup in refl)
    | inl (svc, named, original, url) ↦
        let port : Str = show_ℤ (resolve_backend_port svc.port) in
        let parts : split_two (describe_original svc) b':' ≡ svc.name ∷ port ∷ [] =
          split_two-append svc.name port b':' named in
        rw (lookup-urls_of_stored decoded [] nodup, agree ∙ original, parts, url)
  ]

-- For an Ingress without stored backends whose services have names without a colon, the backends
-- that are extracted after a patch are those that were extracted before, where the text that the
-- patch stores decodes to what was stored.
pub extract_backends-patch_ingress :
    (codec : MapCodec) (operator : Operator) (routes : List RouteRule) (ingress patched : Ingress)
    → get_annotation ingress annotation_original_backends ≡ none
    → IsFaithfulAt codec (original_backends ingress)
    → AllPaths IsNamed ingress.rules
    → patch_ingress codec operator routes ingress ≡ some patched
    → (k : Str)
    → lookup k (extract_backends codec patched).0 ≡ lookup k (extract_backends codec ingress).0
unfolding extract_backends
extract_backends-patch_ingress codec operator routes ingress patched fresh faithful named h k =
    let (text, encoded, is_patched) =
      patch_ingress_fresh codec operator routes ingress patched fresh h in
    let (decoded, decodes, nodup, agree) = faithful text encoded in
    extracted text decoded decodes is_patched nodup (agree k)
  where
    extracted :
        (text : Str) (decoded : Table Str)
        → codec.unmarshal text ≡ some decoded
        → first_patch operator routes ingress text ≡ patched
        → NodupKeys decoded
        → lookup k decoded ≡ lookup k (original_backends ingress)
        → lookup k (extract_backends codec patched).0 ≡ lookup k (extract_backends codec ingress).0
    extracted text decoded decodes is_patched nodup agree =
        rw (sym is_patched, lookup-first_patch operator routes ingress text, decodes, fresh)
          (urls_of_original ingress.namespace k _ _ decoded
            (collect_rules-DescribesSame ingress.namespace k ingress.rules [] [] named
              (inr (unfold lookup in (refl, refl))))
            nodup agree)
