-- ===== src/Controller/Ingresses/Patch/Names.antt =====
-- The name of an Ingress stays through the extraction of its backends and through a patch.
use x402_k8s_operator.Base.{
  ◌≡◌, refl, sym, ap, Option, none, some, List, Str, Option-cases, inl, inr,
}
use mathlib.Core.Option.{some-injective}
use x402_k8s_operator.Base.Table.{Table, lookup}
use x402_k8s_operator.Controller.Api.{RouteRule}
use x402_k8s_operator.Controller.Ingresses.{
  Ingress, MapCodec, get_annotation, annotation_original_backends, extract_backends,
  stored_backends, decoded_backends,
}
use x402_k8s_operator.Controller.Ingresses.Patch.{
  Operator, store_original, patch_ingress, patched_with, or_empty, restored, restore_with,
  restore_from, restore_ingress, restored_inj,
}

abbrev pub SameName : Ingress → Ingress → Type 0
SameName a b = (a.namespace ≡ b.namespace) × (a.name ≡ b.name)

decoded_backends-SameName :
    (ingress : Ingress) (decoded : Option (Table Str))
    → SameName (decoded_backends ingress decoded).1 ingress
decoded_backends-SameName ingress none = (refl, refl)
decoded_backends-SameName ingress (some m) = (refl, refl)

stored_backends-SameName :
    (codec : MapCodec) (ingress : Ingress) (stored : Option Str)
    → SameName (stored_backends codec ingress stored).1 ingress
stored_backends-SameName codec ingress none = (refl, refl)
stored_backends-SameName codec ingress (some text) =
    decoded_backends-SameName ingress (codec.unmarshal text)

pub extract_backends-SameName :
    (codec : MapCodec) (ingress : Ingress) → SameName (extract_backends codec ingress).1 ingress
unfolding extract_backends
extract_backends-SameName codec ingress =
    stored_backends-SameName codec ingress (get_annotation ingress annotation_original_backends)

pub patch_ingress-SameName :
    (codec : MapCodec) (operator : Operator) (routes : List RouteRule) (ingress patched : Ingress)
    → patch_ingress codec operator routes ingress ≡ some patched
    → SameName patched ingress
unfolding patch_ingress
patch_ingress-SameName codec operator routes ingress patched h =
    elim (Option-cases (store_original codec ingress.rules (or_empty ingress.annotations))) [
      | inl bad ↦ cc (rw bad at h)
      | inr (annotations, good) ↦
          let e : patched_with operator routes ingress annotations ≡ patched =
            some-injective _ patched (rw good at h) in
          (ap (λ i. i.namespace) (sym e), ap (λ i. i.name) (sym e))
    ]

restored_with-SameName :
    (ingress back : Ingress) (annotations : Table Str) (original : Option (Table Str))
    → restore_with ingress annotations original ≡ restored back
    → SameName back ingress
restored_with-SameName ingress back annotations none h = cc h
restored_with-SameName ingress back annotations (some m) h =
    let e = restored_inj _ back h in (ap (λ i. i.namespace) (sym e), ap (λ i. i.name) (sym e))

restored_from-SameName :
    (codec : MapCodec) (ingress back : Ingress) (annotations : Table Str) (stored : Option Str)
    → restore_from codec ingress annotations stored ≡ restored back
    → SameName back ingress
restored_from-SameName codec ingress back annotations none h = cc h
restored_from-SameName codec ingress back annotations (some text) h =
    restored_with-SameName ingress back annotations (codec.unmarshal text) h

pub restore_ingress-SameName :
    (codec : MapCodec) (ingress back : Ingress)
    → restore_ingress codec ingress ≡ restored back
    → SameName back ingress
unfolding restore_ingress
restore_ingress-SameName codec ingress back h = elim (Option-cases ingress.annotations) [
  | inl bare ↦ cc (rw bare at h)
  | inr (annotations, filled) ↦
      restored_from-SameName codec ingress back annotations
        (lookup annotation_original_backends annotations) (rw filled at h)
]
