-- ===== src/Controller/Ingresses/Patch/Fresh.antt =====
-- The first patch of an Ingress stores its backends.
use x402_k8s_operator.Base.{◌≡◌, sym, ◌∙◌, none, some, List, [], Str, ◌==◌, Option-cases, inl, inr}
use mathlib.Core.Option
use mathlib.Core.Option.{some-injective}
use x402_k8s_operator.Base.Table.{Table, NodupKeys, lookup, insert, lookup-insert}
use x402_k8s_operator.Controller.Api.{RouteRule}
use x402_k8s_operator.Controller.Ingresses.{
  Ingress, MapCodec, annotation_original_backends, collect_rules, describe_original, get_annotation,
}
use x402_k8s_operator.Controller.Ingresses.Patch.{
  Operator, store_original, patched_with, patch_ingress, or_empty, with_original,
}

abbrev pub original_backends : Ingress → Table Str
original_backends ingress = collect_rules describe_original ingress.rules []

-- The text that this map is encoded to decodes to a map with the same values at all keys.
abbrev pub IsFaithfulAt : MapCodec → Table Str → Type 0
IsFaithfulAt codec m =
    (text : Str)
    → codec.marshal m ≡ some text
    → (m' : Table Str) × (codec.unmarshal text ≡ some m')
      × NodupKeys m'
      × ((k : Str) → lookup k m' ≡ lookup k m)

pub get_annotation-or_empty :
    (ingress : Ingress) (k : Str)
    → get_annotation ingress k ≡ lookup k (or_empty ingress.annotations)
get_annotation-or_empty ingress k = elim (Option-cases ingress.annotations) [
  | inl bare ↦ unfold lookup in rw bare
  | inr (annotations, filled) ↦ rw filled
]

store_original_fresh :
    (codec : MapCodec) (ingress : Ingress)
    → get_annotation ingress annotation_original_backends ≡ none
    → store_original codec ingress.rules (or_empty ingress.annotations)
      ≡ with_original (or_empty ingress.annotations) (codec.marshal (original_backends ingress))
unfolding store_original
store_original_fresh codec ingress fresh =
    rw (sym (get_annotation-or_empty ingress annotation_original_backends) ∙ fresh)

abbrev pub first_patch : Operator → List RouteRule → Ingress → Str → Ingress
first_patch operator routes ingress text =
    patched_with operator routes ingress
      (insert annotation_original_backends text (or_empty ingress.annotations))

pub patch_ingress_fresh :
    (codec : MapCodec) (operator : Operator) (routes : List RouteRule) (ingress patched : Ingress)
    → get_annotation ingress annotation_original_backends ≡ none
    → patch_ingress codec operator routes ingress ≡ some patched
    → (text : Str) × (codec.marshal (original_backends ingress) ≡ some text)
      × (first_patch operator routes ingress text ≡ patched)
unfolding patch_ingress
patch_ingress_fresh codec operator routes ingress patched fresh h =
    let h' : Option.map (patched_with operator routes ingress)
          (with_original (or_empty ingress.annotations) (codec.marshal (original_backends ingress)))
        ≡ some patched =
      rw (store_original_fresh codec ingress fresh) at h in
    elim (Option-cases (codec.marshal (original_backends ingress))) [
      | inl bad ↦ cc (rw bad at h')
      | inr (text, good) ↦ (text, good, some-injective _ patched (rw good at h'))
    ]

-- The stored text is found again.
pub lookup-first_patch :
    (operator : Operator) (routes : List RouteRule) (ingress : Ingress) (text : Str)
    → get_annotation (first_patch operator routes ingress text) annotation_original_backends
      ≡ some text
unfolding ◌==◌
lookup-first_patch operator routes ingress text = rw (lookup-insert, lookup-insert)
