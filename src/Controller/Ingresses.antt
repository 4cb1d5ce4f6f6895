-- ===== src/Controller/Ingresses.antt =====
-- internal/controller/x402route_controller.go: the backends of an Ingress, read, redirected to the
-- gateway and restored. The resource is that of k8s.io/api/networking/v1, as far as it is read.
pub mod Paths
pub mod Patch
use x402_k8s_operator.Base.{
  Bool, false, not, Option, none, some, List, [], ◌∷◌, ◌++◌, map, Str, str, eqb, if◌then◌else◌,
}
use mathlib.Core.Option
use x402_k8s_operator.Base.Int.{ℤ, pos}
use x402_k8s_operator.Base.Decimal.{show_ℤ}
use x402_k8s_operator.Base.Text.{split_two}
use x402_k8s_operator.Base.Table.{Table, lookup, insert, erase}

-- A number of 0 and an empty name stand for the one that is not given.
pub record BackendPort : Type 0 where
  pub number : ℤ
  pub name : Str

pub record IngressService : Type 0 where
  pub name : Str
  pub port : BackendPort

-- A path with its backend, which is a service or, where there is none, another resource.
pub record IngressPath : Type 0 where
  pub path : Str
  pub service : Option IngressService

pub record IngressRule : Type 0 where
  pub host : Str
  pub http : Option (List IngressPath)

-- The annotations are none where the map is nil.
pub record Ingress : Type 0 where
  pub name : Str
  pub namespace : Str
  pub annotations : Option (Table Str)
  pub rules : List IngressRule

abbrev pub external_svc_name : Str
external_svc_name = str "x402-gateway-proxy"

abbrev pub gateway_port : ℤ
gateway_port = pos 8402

abbrev pub annotation_original_backends : Str
annotation_original_backends = str "x402.io/original-backends"

abbrev pub annotation_managed_by : Str
annotation_managed_by = str "x402.io/managed-by"

-- `json.Marshal` and `json.Unmarshal` of a map of strings; a failed call is none.
pub record MapCodec : Type 0 where
  pub marshal : Table Str → Option Str
  pub unmarshal : Str → Option (Table Str)

abbrev pub is_zero_port : ℤ → Bool
is_zero_port (pos n) = eqb n 0
is_zero_port (ℤ.negsuc n) = false

-- `resolveBackendPort`
unfoldable pub resolve_backend_port : BackendPort → ℤ
resolve_backend_port port = if not (is_zero_port port.number) then port.number else pos 80

-- The loops of `extractBackends` and of `patchIngress` over the paths of an Ingress differ in the
-- text that they keep of a service.
module _ (describe : IngressService → Str) where
  unfoldable pub collect_paths : List IngressPath → Table Str → Table Str
  unfolding insert
  collect_paths [] m = m
  collect_paths (p ∷ paths) m = elim p.service [
    | some svc ↦ collect_paths paths (insert p.path (describe svc) m)
    | none ↦ collect_paths paths m
  ]

  unfoldable pub collect_rules : List IngressRule → Table Str → Table Str
  unfolding collect_paths
  collect_rules [] m = m
  collect_rules (rule ∷ rules) m = elim rule.http [
    | none ↦ collect_rules rules m
    | some paths ↦ collect_rules rules (collect_paths paths m)
  ]

abbrev pub service_url : Str → Str → Str → Str
service_url namespace svc_name port =
    str "http://" ++ svc_name ++ str "." ++ namespace ++ str ".svc.cluster.local:" ++ port

abbrev pub describe_url : Str → IngressService → Str
describe_url namespace svc = service_url namespace svc.name (show_ℤ (resolve_backend_port svc.port))

abbrev pub describe_original : IngressService → Str
describe_original svc = svc.name ++ str ":" ++ show_ℤ (resolve_backend_port svc.port)

-- The two parts of a stored text make a URL.
abbrev pub insert_url : Str → Str → List Str → Table Str → Table Str
insert_url namespace path [] result = result
insert_url namespace path (part ∷ []) result = result
insert_url namespace path (svc_name ∷ port ∷ []) result =
    insert path (service_url namespace svc_name port) result
insert_url namespace path (svc_name ∷ port ∷ part ∷ parts) result = result

-- The loop of `extractBackends` over the stored backends.
unfoldable pub urls_of_stored : Str → Table Str → Table Str → Table Str
unfolding split_two insert
urls_of_stored namespace [] result = result
urls_of_stored namespace ((path, svc_port) ∷ backends) result =
    urls_of_stored namespace backends (insert_url namespace path (split_two svc_port b':') result)

abbrev pub get_annotation : Ingress → Str → Option Str
get_annotation ingress k = elim ingress.annotations [
  | none ↦ none
  | some annotations ↦ lookup k annotations
]

abbrev pub delete_annotation : Str → Ingress → Ingress
delete_annotation k ingress = record ingress {
  annotations = Option.map (erase k) ingress.annotations;
}

abbrev pub decoded_backends : Ingress → Option (Table Str) → Table Str × Ingress
decoded_backends ingress none = (
  collect_rules (describe_url ingress.namespace) ingress.rules [],
  delete_annotation annotation_original_backends ingress,
)
decoded_backends ingress (some backends) = (urls_of_stored ingress.namespace backends [], ingress)

abbrev pub stored_backends : MapCodec → Ingress → Option Str → Table Str × Ingress
stored_backends codec ingress none =
    (collect_rules (describe_url ingress.namespace) ingress.rules [], ingress)
stored_backends codec ingress (some stored) = decoded_backends ingress (codec.unmarshal stored)

-- `extractBackends`: the backends, and the Ingress, which loses a corrupted annotation.
unfoldable pub extract_backends : MapCodec → Ingress → Table Str × Ingress
unfolding urls_of_stored collect_rules lookup erase
extract_backends codec ingress =
    stored_backends codec ingress (get_annotation ingress annotation_original_backends)
