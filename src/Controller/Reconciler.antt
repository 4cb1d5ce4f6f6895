-- ===== src/Controller/Reconciler.antt =====
-- internal/controller/x402route_controller.go: what the reconciler works with. The Kubernetes API is
-- a client over a cluster of any type; each of its calls may fail.
pub mod Cleanup
pub mod Reconcile
pub mod Consistent
pub mod Keeps
pub mod Outcomes
pub mod Watch
pub mod Reliable
pub mod Converges
pub mod Rounds
pub mod Reverts
pub mod RoundTrip
use x402_k8s_operator.Base.{ℕ, ◌+◌, List, Bool, Str, str, Result, ok, err}
use x402_k8s_operator.Base.Table.{Table}
use x402_k8s_operator.Routestore.{Store, CompiledRoute, set_route, delete_route, count_routes}
use x402_k8s_operator.Controller.Api.{Condition, X402Route}
use x402_k8s_operator.Controller.Compile.{CompileError, Parsers, or_text}
use x402_k8s_operator.Controller.Ingresses.{Ingress, MapCodec}
use x402_k8s_operator.Controller.Ingresses.Patch.{Operator}
use x402_k8s_operator.Base.Int.{ℤ}

-- The outcome of a read of one object, or of its deletion.
pub data Fetched (A : Type 0) : Type 0 where
  found : A → Fetched A
  not_found : Fetched A
  failed : Str → Fetched A

pub record ServicePort : Type 0 where
  pub name : Str
  pub port : ℤ
  pub protocol : Str

pub record Service : Type 0 where
  pub labels : Table Str
  pub service_type : Str
  pub external_name : Str
  pub selector : Table Str
  pub cluster_ip : Str
  pub ports : List ServicePort

-- Namespace first, then name. An update returns the object as the server has it; `CreateOrUpdate`
-- takes the change that it makes to the service.
pub record Client (W : Type 0) : Type 0 where
  pub get_route : Str → Str → W → Fetched X402Route
  pub get_ingress : Str → Str → W → Fetched Ingress
  pub list_routes : W → Result Str (List X402Route)
  pub update_route : X402Route → W → Result Str X402Route × W
  pub update_status : X402Route → W → W
  pub update_ingress : Ingress → W → Result Str (Unit {0}) × W
  pub create_or_update : Str → Str → (Service → Service) → W → Result Str (Unit {0}) × W
  pub delete_service : Str → Str → W → Fetched (Unit {0}) × W

-- The functions of the libraries on finalizers and conditions.
pub record Helpers : Type 0 where
  pub contains_finalizer : List Str → Str → Bool
  pub add_finalizer : List Str → Str → List Str
  pub remove_finalizer : List Str → Str → List Str
  pub set_status_condition : List Condition → Condition → List Condition

-- The cluster, the route store, and the gauge and the counter of internal/metrics/metrics.go.
pub record State (W : Type 0) : Type 0 where
  pub cluster : W
  pub store : Store
  pub active_routes : ℕ
  pub store_updates : ℕ

pub data ReconcileError : Type 0 where
  client_failed : Str → ReconcileError
  compile_failed : CompileError → ReconcileError
  marshal_failed corrupted_annotation ingress_not_found : ReconcileError
  cleanup_failed : (ingress_restored service_gone : Bool) → ReconcileError

pub record Env (W : Type 0) : Type 0 where
  pub client : Client W
  pub helpers : Helpers
  pub parsers : Parsers
  pub codec : MapCodec
  pub operator : Operator
  -- The text of an error.
  pub error_text : ReconcileError → Str

-- An action has a result and leaves a state.
abbrev pub Outcome : Type 0 → Type 0 → Type 0
Outcome W A = Result ReconcileError A × State W

abbrev pub Action : Type 0 → Type 0 → Type 0
Action W A = State W → Outcome W A

abbrev pub continue_with :
    {W A B : Type 0} → (A → Action W B) → Result ReconcileError A → Action W B
continue_with f (ok a) s = f a s
continue_with f (err e) s = (err e, s)

infixl 5 ◌>>=◌ ◌>>◌
abbrev pub ◌>>=◌ : {W A B : Type 0} → Action W A → (A → Action W B) → Action W B
(m >>= f) s = let o = m s in continue_with f o.0 o.1

abbrev pub ◌>>◌ : {W B : Type 0} → Action W (Unit {0}) → Action W B → Action W B
m >> k = m >>= λ _. k

abbrev pub return : {W A : Type 0} → A → Action W A
return a s = (ok a, s)

abbrev pub throw : {W A : Type 0} → ReconcileError → Action W A
throw e s = (err e, s)

-- The result of an action is kept, not raised.
abbrev pub attempt : {W A : Type 0} → Action W A → Action W (Result ReconcileError A)
attempt m s = let o = m s in (ok o.0, o.1)

abbrev pub of_client : {A : Type 0} → Result Str A → Result ReconcileError A
of_client (ok a) = ok a
of_client (err e) = err (client_failed e)

-- A call that changes the cluster.
abbrev pub change : {W A : Type 0} → (W → Result Str A × W) → Action W A
change f s = let o = f s.cluster in (of_client o.0, record s { cluster = o.1 })

-- A call that reads the cluster.
abbrev pub read : {W A : Type 0} → (W → A) → Action W A
read f s = (ok (f s.cluster), s)

abbrev pub lift : {W A : Type 0} → Result ReconcileError A → Action W A
lift r s = (r, s)

-- `RouteStore.Set` and `RouteStore.Delete` with the updates of the metrics that follow them.
unfoldable pub store_set : {W : Type 0} → Str → Str → CompiledRoute → Action W (Unit {0})
unfolding set_route count_routes
store_set namespace name route s =
    let store = set_route s.store namespace name route in
    (
      ok tt,
      record s {
        store = store;
        active_routes = count_routes store;
        store_updates = s.store_updates + 1;
      },
    )

unfoldable pub store_delete : {W : Type 0} → Str → Str → Action W (Unit {0})
unfolding delete_route count_routes
store_delete namespace name s =
    let store = delete_route s.store namespace name in
    (
      ok tt,
      record s {
        store = store;
        active_routes = count_routes store;
        store_updates = s.store_updates + 1;
      },
    )

-- The namespace of the Ingress that a route refers to.
abbrev pub ingress_namespace : X402Route → Str
ingress_namespace route = or_text route.spec.ingress_ref.namespace route.namespace

abbrev pub finalizer_name : Str
finalizer_name = str "x402.io/finalizer"
