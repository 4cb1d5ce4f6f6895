-- ===== src/Tests/Patching.antt =====
-- The patches of internal/controller on a concrete Ingress.
use x402_k8s_operator.Base.{
  ◌≡◌, refl, sym, ap, ◌≢◌, Option, none, some, List, [], ◌∷◌, ◌++◌, Str, str, ◌==◌, if◌then◌else◌,
  arith,
}
use mathlib.Core.Option.{some-injective}
use x402_k8s_operator.Base.Int.{pos}
use x402_k8s_operator.Base.Decimal.{show_ℤ}
use x402_k8s_operator.Base.Text.{split, contains_byte}
use x402_k8s_operator.Base.Table.{Table, lookup}
use x402_k8s_operator.Controller.Ingresses.{
  IngressService, IngressPath, Ingress, MapCodec, annotation_managed_by, get_annotation,
  resolve_backend_port, extract_backends,
}
use x402_k8s_operator.Controller.Ingresses.Paths.{AllPaths}
use x402_k8s_operator.Controller.Ingresses.Patch.{
  Operator, service_at, patch_ingress, restored, restore_ingress,
}
use x402_k8s_operator.Controller.Ingresses.Patch.Fresh.{IsFaithfulAt, original_backends}
use x402_k8s_operator.Controller.Ingresses.Patch.Idempotent.{patch_ingress_twice}
use x402_k8s_operator.Controller.Ingresses.Patch.Restores.{
  IsRestorable, restore_ingress-patch_ingress,
}
use x402_k8s_operator.Controller.Ingresses.Patch.Extracts.{IsNamed, extract_backends-patch_ingress}
use x402_k8s_operator.Controller.Ingresses.Patch.Accumulates.{patch_ingress-patch_ingress}
use x402_k8s_operator.Tests.Controlling.{shop_rules}

-- An encoding by lines.
unfoldable pub encode : Table Str → Str
encode [] = []
encode ((k, v) ∷ m) = k ++ str "," ++ v ++ str "," ++ encode m

unfoldable pub decode : List Str → Table Str
decode [] = []
decode (k ∷ []) = []
decode (k ∷ v ∷ rest) = (k, v) ∷ decode rest

abbrev pub line_codec : MapCodec
line_codec = record {
  marshal = λ m. some (encode m);
  unmarshal = λ text. some (decode (split text b','));
}

abbrev path_to : Str → IngressService → IngressPath
path_to path svc = record { path = path; service = some svc }

abbrev pub shop_service : Str → IngressService
shop_service path =
    if path == str "/api" then service_at (str "a") (pos 8080) else service_at (str "b") (pos 80)

abbrev pub shop_ingress : Ingress
shop_ingress = record {
  name = str "shop";
  namespace = str "default";
  annotations = some ((str "owner", str "me") ∷ []);
  rules =
      record {
        host = str "shop.example";
        http = some (
            path_to (str "/api") (service_at (str "a") (pos 8080))
            ∷ path_to (str "/docs") (service_at (str "b") (pos 80))
            ∷ []);
      }
      ∷ [];
}

abbrev pub shop_operator : Operator
shop_operator = record { namespace = str "x402-system"; svc_name = str "x402-k8s-operator" }

abbrev pub gated_ingress : Ingress
gated_ingress = record shop_ingress {
  annotations = some (
      (str "owner", str "me")
      ∷ (str "x402.io/original-backends", str "/api,a:8080,/docs,b:80,")
      ∷ (str "x402.io/managed-by", str "x402-operator")
      ∷ []);
  rules =
      record {
        host = str "shop.example";
        http = some (
            path_to (str "/api") (service_at (str "x402-gateway-proxy") (pos 8402))
            ∷ path_to (str "/docs") (service_at (str "b") (pos 80))
            ∷ []);
      }
      ∷ [];
}

pub gated : patch_ingress line_codec shop_operator shop_rules shop_ingress ≡ some gated_ingress
unfolding patch_ingress encode show_ℤ resolve_backend_port
gated = refl

patch_ingress_twice_test :
    patch_ingress line_codec shop_operator shop_rules gated_ingress ≡ some gated_ingress
patch_ingress_twice_test =
    patch_ingress_twice line_codec shop_operator shop_rules shop_ingress gated_ingress gated

pub lines_are_faithful : IsFaithfulAt line_codec (original_backends shop_ingress)
unfolding encode decode extract_backends split show_ℤ resolve_backend_port
lines_are_faithful text e = (
  original_backends shop_ingress,
  ap line_codec.unmarshal (sym (some-injective _ text e)),
  (refl, (refl, tt)),
  λ k. refl,
)

pub shop-IsRestorable : AllPaths (IsRestorable shop_service) shop_ingress.rules
unfolding contains_byte ◌==◌
shop-IsRestorable = (
  ((refl, (refl, (8079, refl, ground arith))), ((refl, (refl, (79, refl, ground arith))), tt)),
  tt,
)

pub not_annotated : get_annotation shop_ingress (str "x402.io/original-backends") ≡ none
unfolding lookup
not_annotated = refl

pub not_marked : ◌≡◌ {A = Option Str} (lookup (str "owner") []) none
unfolding lookup
not_marked = refl

restore_ingress-patch_ingress_example :
    (back : Ingress) × (restore_ingress line_codec gated_ingress ≡ restored back)
    × (back.rules ≡ shop_ingress.rules)
    × ((k : Str)
        → k ≢ annotation_managed_by
        → get_annotation back k ≡ get_annotation shop_ingress k)
restore_ingress-patch_ingress_example =
    restore_ingress-patch_ingress line_codec shop_operator shop_rules shop_ingress gated_ingress
      shop_service not_annotated (not_marked, tt) lines_are_faithful shop-IsRestorable gated

shop-IsNamed : AllPaths IsNamed shop_ingress.rules
unfolding contains_byte
shop-IsNamed = (
  (λ svc e. rw (sym (some-injective _ svc e)), (λ svc e. rw (sym (some-injective _ svc e)), tt)),
  tt,
)

extract_backends-patch_ingress_example :
    lookup (str "/api") (extract_backends line_codec gated_ingress).0
    ≡ lookup (str "/api") (extract_backends line_codec shop_ingress).0
extract_backends-patch_ingress_example =
    extract_backends-patch_ingress line_codec shop_operator shop_rules shop_ingress gated_ingress
      not_annotated lines_are_faithful shop-IsNamed gated (str "/api")

patch_ingress-patch_ingress_example :
    patch_ingress line_codec shop_operator [] gated_ingress
    ≡ patch_ingress line_codec shop_operator (shop_rules ++ []) shop_ingress
patch_ingress-patch_ingress_example =
    patch_ingress-patch_ingress line_codec shop_operator shop_rules [] shop_ingress gated_ingress
      gated

-- A route that no longer has the paid rule leaves its path with the gateway.
stays_redirected : patch_ingress line_codec shop_operator [] gated_ingress ≡ some gated_ingress
unfolding patch_ingress
stays_redirected = refl
