-- ===== src/Controller/Ingresses/Patch/Decodes.antt =====
-- The stored backends of a patched Ingress decode, so that they are extracted without a change.
use x402_k8s_operator.Base.{
  ◌≡◌, sym, ap, ◌∙◌, none, some, List, Str, ◌==◌, Option-cases, inl, inr, ==_refl,
}
use mathlib.Core.Option.{some-injective}
use x402_k8s_operator.Base.Table.{Table, NodupKeys, lookup-insert, lookup-erase}
use x402_k8s_operator.Controller.Api.{RouteRule}
use x402_k8s_operator.Controller.Ingresses.{
  Ingress, MapCodec, get_annotation, annotation_original_backends, extract_backends,
  delete_annotation,
}
use x402_k8s_operator.Controller.Ingresses.Patch.{
  Operator, store_original, patch_ingress, patched_with, or_empty,
}
use x402_k8s_operator.Controller.Ingresses.Patch.Fresh.{
  IsFaithfulAt, original_backends, patch_ingress_fresh, lookup-first_patch, get_annotation-or_empty,
}

-- The stored backends, if there are any, decode.
abbrev pub Decodes : MapCodec → Ingress → Type 0
Decodes codec ingress =
    (text : Str)
    → get_annotation ingress annotation_original_backends ≡ some text
    → (m : Table Str) × (codec.unmarshal text ≡ some m)

get_annotation-delete_annotation :
    (k : Str) (ingress : Ingress)
    → NodupKeys (or_empty ingress.annotations)
    → get_annotation (delete_annotation k ingress) k ≡ none
get_annotation-delete_annotation k ingress nodup = elim (Option-cases ingress.annotations) [
  | inl bare ↦ rw bare
  | inr (annotations, filled) ↦
      rw (filled, lookup-erase k k annotations (rw filled at nodup), ==_refl k)
]

pub extract_backends-Decodes :
    (codec : MapCodec) (ingress : Ingress)
    → NodupKeys (or_empty ingress.annotations)
    → Decodes codec (extract_backends codec ingress).1
unfolding extract_backends
extract_backends-Decodes codec ingress nodup text h =
    elim (Option-cases (get_annotation ingress annotation_original_backends)) [
      | inl fresh ↦ cc (rw (fresh, fresh) at h)
      | inr (stored, there) ↦ elim (Option-cases (codec.unmarshal stored)) [
        | inl bad ↦
            let gone =
              get_annotation-delete_annotation annotation_original_backends ingress nodup in
            cc (sym gone ∙ rw (there, bad) at h)
        | inr (m, good) ↦
            let e : stored ≡ text =
              some-injective stored text (sym there ∙ rw (there, good) at h) in
            (m, ap codec.unmarshal (sym e) ∙ good)
      ]
    ]

-- An Ingress whose stored backends decode is extracted without a change.
pub extract_backends_decoded :
    (codec : MapCodec) (ingress : Ingress)
    → Decodes codec ingress
    → (extract_backends codec ingress).1 ≡ ingress
unfolding extract_backends
extract_backends_decoded codec ingress decodes =
    elim (Option-cases (get_annotation ingress annotation_original_backends)) [
      | inl fresh ↦ rw fresh
      | inr (stored, there) ↦ let (m, good) = decodes stored there in rw (there, good)
    ]

pub extract_backends_rules :
    (codec : MapCodec) (ingress : Ingress)
    → (extract_backends codec ingress).1.rules ≡ ingress.rules
unfolding extract_backends
extract_backends_rules codec ingress =
    elim (Option-cases (get_annotation ingress annotation_original_backends)) [
      | inl fresh ↦ rw fresh
      | inr (stored, there) ↦ elim (Option-cases (codec.unmarshal stored)) [
        | inl bad ↦ rw (there, bad)
        | inr (m, good) ↦ rw (there, good)
      ]
    ]

stored_kept :
    (codec : MapCodec) (operator : Operator) (routes : List RouteRule) (ingress patched : Ingress)
    (text : Str)
    → get_annotation ingress annotation_original_backends ≡ some text
    → patch_ingress codec operator routes ingress ≡ some patched
    → get_annotation patched annotation_original_backends ≡ some text
unfolding patch_ingress store_original ◌==◌
stored_kept codec operator routes ingress patched text there h =
    let there' = sym (get_annotation-or_empty ingress annotation_original_backends) ∙ there in
    let e =
      some-injective (patched_with operator routes ingress (or_empty ingress.annotations)) patched
        (rw there' at h) in
    rw (sym e, lookup-insert) there'

-- A patch keeps it so that the stored backends decode, where the text that it stores does.
pub patch_ingress-Decodes :
    (codec : MapCodec) (operator : Operator) (routes : List RouteRule) (ingress patched : Ingress)
    → IsFaithfulAt codec (original_backends ingress)
    → Decodes codec ingress
    → patch_ingress codec operator routes ingress ≡ some patched
    → Decodes codec patched
patch_ingress-Decodes codec operator routes ingress patched faithful decodes h text kept =
    elim (Option-cases (get_annotation ingress annotation_original_backends)) [
      | inl fresh ↦
          let (stored, encoded, e) =
            patch_ingress_fresh codec operator routes ingress patched fresh h in
          let (m, good, _, _) = faithful stored encoded in
          let same : stored ≡ text = some-injective stored text (
            sym (lookup-first_patch operator routes ingress stored)
            ∙ ap (λ i. get_annotation i annotation_original_backends) e
            ∙ kept) in
          (m, ap codec.unmarshal (sym same) ∙ good)
      | inr (stored, there) ↦
          let still = stored_kept codec operator routes ingress patched stored there h in
          let same : stored ≡ text = some-injective stored text (sym still ∙ kept) in
          let (m, good) = decodes stored there in (m, ap codec.unmarshal (sym same) ∙ good)
    ]
