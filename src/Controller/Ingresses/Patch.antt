-- ===== src/Controller/Ingresses/Patch.antt =====
-- internal/controller/x402route_controller.go: `patchIngress` and `restoreIngress` between the read of
-- the Ingress and its update, which the reconciler makes.
pub mod Fresh
pub mod Idempotent
pub mod Restores
pub mod Extracts
pub mod Names
pub mod Decodes
pub mod Redirected
pub mod Accumulates
use x402_k8s_operator.Base.{
  ◌≡◌, Option, none, some, List, [], ◌∷◌, map, Str, str, ◌==◌, if◌then◌else◌,
}
use mathlib.Core.Option
use x402_k8s_operator.Base.Int.{ℤ, pos}
use x402_k8s_operator.Base.Decimal.{parse_int32}
use x402_k8s_operator.Base.Text.{split_two}
use x402_k8s_operator.Base.Table.{Table, lookup, insert, erase}
use x402_k8s_operator.Controller.Api.{RouteRule}
use x402_k8s_operator.Controller.PathMatch.{collect_paid_paths, path_matches_paid_routes}
use x402_k8s_operator.Controller.Ingresses.{
  IngressService, IngressPath, IngressRule, Ingress, MapCodec, external_svc_name, gateway_port,
  annotation_original_backends, annotation_managed_by, collect_rules, describe_original,
}

-- The operator's own namespace and service.
pub record Operator : Type 0 where
  pub namespace : Str
  pub svc_name : Str

abbrev pub service_at : Str → ℤ → IngressService
service_at svc_name number = record {
  name = svc_name;
  port = record { number = number; name = [] };
}

abbrev pub gateway_svc_name : Operator → Ingress → Str
gateway_svc_name operator ingress =
    if ingress.namespace == operator.namespace then operator.svc_name else external_svc_name

abbrev pub with_paths : (IngressPath → IngressPath) → IngressRule → IngressRule
with_paths f rule = record rule { http = Option.map (map f) rule.http }

abbrev pub redirect_path : Str → List Str → IngressPath → IngressPath
redirect_path svc_name paid_paths p =
    if path_matches_paid_routes p.path paid_paths
    then record p { service = some (service_at svc_name gateway_port) }
    else p

unfoldable pub redirect_rules : Str → List Str → List IngressRule → List IngressRule
unfolding path_matches_paid_routes
redirect_rules svc_name paid_paths = map (with_paths (redirect_path svc_name paid_paths))

abbrev pub with_original : Table Str → Option Str → Option (Table Str)
with_original annotations none = none
with_original annotations (some text) = some (insert annotation_original_backends text annotations)

abbrev pub keep_or_store : MapCodec → List IngressRule → Table Str → Option Str → Option (Table Str)
keep_or_store codec rules annotations (some stored) = some annotations
keep_or_store codec rules annotations none =
    with_original annotations (codec.marshal (collect_rules describe_original rules []))

-- The annotations, with the original backends stored unless they are there.
unfoldable pub store_original : MapCodec → List IngressRule → Table Str → Option (Table Str)
unfolding lookup insert collect_rules
store_original codec rules annotations =
    keep_or_store codec rules annotations (lookup annotation_original_backends annotations)

abbrev pub or_empty : Option (Table Str) → Table Str
or_empty none = []
or_empty (some m) = m

abbrev pub patched_with : Operator → List RouteRule → Ingress → Table Str → Ingress
patched_with operator routes ingress annotations = record ingress {
  annotations = some (insert annotation_managed_by (str "x402-operator") annotations);
  rules =
      redirect_rules (gateway_svc_name operator ingress) (collect_paid_paths routes) ingress.rules;
}

-- `patchIngress`, none where the backends do not marshal.
unfoldable pub patch_ingress : MapCodec → Operator → List RouteRule → Ingress → Option Ingress
unfolding store_original redirect_rules collect_paid_paths ◌==◌
patch_ingress codec operator routes ingress =
    Option.map (patched_with operator routes ingress)
      (store_original codec ingress.rules (or_empty ingress.annotations))

abbrev pub port_or_default : Option ℤ → ℤ
port_or_default (some p) = p
port_or_default none = pos 80

-- The backend that a stored text names by its two parts.
abbrev pub service_of_parts : List Str → Option IngressService → Option IngressService
service_of_parts [] service = service
service_of_parts (part ∷ []) service = service
service_of_parts (svc_name ∷ port ∷ []) service =
    some (service_at svc_name (port_or_default (parse_int32 port)))
service_of_parts (svc_name ∷ port ∷ part ∷ parts) service = service

-- The backend of a path whose original is stored.
abbrev pub restore_service : Option Str → Option IngressService → Option IngressService
restore_service none service = service
restore_service (some original) service = service_of_parts (split_two original b':') service

abbrev pub restore_path : Table Str → IngressPath → IngressPath
restore_path original_backends p = record p {
  service = restore_service (lookup p.path original_backends) p.service;
}

unfoldable pub restore_rules : Table Str → List IngressRule → List IngressRule
unfolding lookup split_two parse_int32
restore_rules original_backends = map (with_paths (restore_path original_backends))

-- `restoreIngress`: nothing to restore, an annotation that does not decode, or the restored Ingress.
pub data Restored : Type 0 where
  nothing_stored corrupted : Restored
  restored : Ingress → Restored

pub restored_inj : (a b : Ingress) → restored a ≡ restored b → a ≡ b
restored_inj a b h = cc h

abbrev pub restore_with : Ingress → Table Str → Option (Table Str) → Restored
restore_with ingress annotations none = corrupted
restore_with ingress annotations (some original_backends) = restored (record ingress {
  annotations = some (erase annotation_managed_by (erase annotation_original_backends annotations));
  rules = restore_rules original_backends ingress.rules;
})

abbrev pub restore_from : MapCodec → Ingress → Table Str → Option Str → Restored
restore_from codec ingress annotations none = nothing_stored
restore_from codec ingress annotations (some stored) =
    restore_with ingress annotations (codec.unmarshal stored)

unfoldable pub restore_ingress : MapCodec → Ingress → Restored
unfolding restore_rules lookup erase
restore_ingress codec ingress = elim ingress.annotations [
  | none ↦ nothing_stored
  | some annotations ↦
      restore_from codec ingress annotations (lookup annotation_original_backends annotations)
]
