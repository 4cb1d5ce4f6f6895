-- ===== src/Tests/Reconciling.antt =====
-- `Reconcile` of internal/controller over a cluster that is simple enough to run.
use x402_k8s_operator.Base.{
  ◌≡◌, refl, Bool, true, false, ◌&&◌, ◌||◌, List, [], ◌∷◌, ◌++◌, ◌⊎◌, arith, Str, str, ◌==◌,
  if◌then◌else◌, ok, err, some, ◌↔◌, Elem,
}
use x402_k8s_operator.Base.Table.{NodupKeys, lookup}
use x402_k8s_operator.Routestore.{count_routes, new_store, CompiledRoute, set_route, delete_route}
use x402_k8s_operator.Controller.Api.{X402Route}
use x402_k8s_operator.Controller.Ingresses.{
  Ingress, resolve_backend_port, get_annotation, annotation_managed_by,
}
use x402_k8s_operator.Controller.Ingresses.Patch.{or_empty, restored, restore_ingress}
use x402_k8s_operator.Controller.Reconciler.{
  Fetched, found, not_found, Client, Helpers, Env, State, ReconcileError, ingress_namespace,
  finalizer_name,
}
use x402_k8s_operator.Controller.Reconciler.Cleanup.{cleanup_resources}
use x402_k8s_operator.Controller.Reconciler.Reconcile.{ensure_finalizer, reconcile}
use x402_k8s_operator.Controller.Reconciler.Consistent.{IsConsistent}
use x402_k8s_operator.Controller.Reconciler.Keeps.{reconcile-IsConsistent}
use x402_k8s_operator.Controller.Reconciler.Outcomes.{
  Compiles, reconcile_deleting, reconcile_serving,
}
use x402_k8s_operator.Controller.Reconciler.Watch.{
  ingress_to_x402_routes, Enqueue, MapsBoth, IsFor, IsManaged, ingress_to_x402_routes-restored,
  ingress_to_x402_routes_iff,
}
use x402_k8s_operator.Tests.Patching.{
  shop_ingress, gated_ingress, shop_operator, line_codec, encode, decode,
}
use x402_k8s_operator.Tests.Compiling.{shop_route, parsers}
use x402_k8s_operator.Base.Text.{split}
use x402_k8s_operator.Base.Decimal.{show_ℤ}

-- The one route and the one Ingress of a cluster; the API refuses changes of the Ingress if it is
-- locked.
pub record Cluster : Type 0 where
  pub route : X402Route
  pub ingress : Ingress
  pub locked : Bool

unfoldable pub fetch : {A : Type 0} → Bool → A → Fetched A
fetch true a = found a
fetch false a = not_found

abbrev pub client : Client Cluster
client = record {
  get_route =
      λ namespace name w. fetch (namespace == w.route.namespace && name == w.route.name) w.route;
  get_ingress = λ namespace name w.
      fetch (namespace == w.ingress.namespace && name == w.ingress.name) w.ingress;
  list_routes = λ w. ok (w.route ∷ []);
  update_route = λ route w. (ok route, record w { route = route });
  update_status = λ route w. record w { route = route };
  update_ingress = λ ingress w.
      if w.locked then (err (str "locked"), w) else (ok tt, record w { ingress = ingress });
  create_or_update = λ namespace name f w. (ok tt, w);
  delete_service = λ namespace name w. (found tt, w);
}

unfoldable pub contains : List Str → Str → Bool
contains [] s = false
contains (t ∷ ts) s = t == s || contains ts s

abbrev pub helpers : Helpers
helpers = record {
  contains_finalizer = contains;
  add_finalizer = λ finalizers s. s ∷ finalizers;
  remove_finalizer = λ finalizers s. [];
  set_status_condition = λ conditions c. c ∷ conditions;
}

abbrev pub env : Env Cluster
env = record {
  client = client;
  helpers = helpers;
  parsers = parsers;
  codec = line_codec;
  operator = shop_operator;
  error_text = λ e. str "failed";
}

abbrev pub initial : State Cluster
initial = record {
  cluster = record { route = shop_route; ingress = shop_ingress; locked = false };
  store = new_store;
  active_routes = 0;
  store_updates = 0;
}

initial-IsConsistent : IsConsistent parsers initial.store initial.active_routes
unfolding lookup count_routes
initial-IsConsistent = (tt, (λ k route h. cc h), refl)

reconcile-IsConsistent_example :
    IsConsistent parsers
      (reconcile env (str "default") (str "shop") initial).1.store
      (reconcile env (str "default") (str "shop") initial).1.active_routes
reconcile-IsConsistent_example =
    reconcile-IsConsistent env (str "default") (str "shop") initial initial-IsConsistent

succeeds : (reconcile env (str "default") (str "shop") initial).0 ≡ ok tt
unfolding reconcile fetch contains encode decode show_ℤ resolve_backend_port
succeeds = refl

pub exists : client.get_route (str "default") (str "shop") initial.cluster ≡ found shop_route
unfolding fetch ◌==◌
exists = refl

reconcile_serving_example :
    (kept : X402Route) × (ingress : Ingress) × (compiled : CompiledRoute) × ((ensure_finalizer env
        shop_route initial).0
      ≡ ok kept)
    × (client.get_ingress
          (ingress_namespace kept)
          kept.spec.ingress_ref.name
          (ensure_finalizer env shop_route initial).1.cluster
        ≡ found ingress)
    × Compiles env kept ingress compiled
    × ((reconcile env (str "default") (str "shop") initial).1.store
        ≡ set_route new_store kept.namespace kept.name compiled)
reconcile_serving_example =
    reconcile_serving env (str "default") (str "shop") shop_route initial exists refl succeeds

abbrev leaving_route : X402Route
leaving_route = record shop_route { is_deleting = true; finalizers = finalizer_name ∷ [] }

abbrev leaving : State Cluster
leaving = record initial { cluster = record initial.cluster { route = leaving_route } }

leaving_exists : client.get_route (str "default") (str "shop") leaving.cluster ≡ found leaving_route
unfolding fetch ◌==◌
leaving_exists = refl

has_finalizer : contains leaving_route.finalizers finalizer_name ≡ true
unfolding contains ◌==◌
has_finalizer = refl

reconcile_deleting_example :
    ((reconcile env (str "default") (str "shop") leaving).1.store
      ≡ delete_route new_store (str "default") (str "shop"))
    × ((e : ReconcileError)
        → (cleanup_resources env leaving_route leaving).0 ≡ err e
        → reconcile env (str "default") (str "shop") leaving
          ≡ (err e, (cleanup_resources env leaving_route leaving).1))
reconcile_deleting_example =
    reconcile_deleting env (str "default") (str "shop") leaving_route leaving leaving_exists refl
      has_finalizer

gated-NodupKeys : NodupKeys (or_empty gated_ingress.annotations)
unfolding lookup
gated-NodupKeys = (refl, (refl, (refl, tt)))

abbrev back_ingress : Ingress
back_ingress = record shop_ingress { annotations = some ((str "owner", str "me") ∷ []) }

gives_back : restore_ingress line_codec gated_ingress ≡ restored back_ingress
unfolding restore_ingress decode split
gives_back = refl

is_marked : get_annotation gated_ingress annotation_managed_by ≡ some (str "x402-operator")
unfolding lookup
is_marked = refl

-- The requests for both objects of an update.
abbrev enqueue_both : Enqueue
enqueue_both f old new = f old ++ f new

Elem-append :
    (request : Str × Str) (xs ys : List (Str × Str))
    → Elem request (xs ++ ys) ↔ (Elem request xs ⊎ Elem request ys)
Elem-append request [] ys = ground arith
Elem-append request (x ∷ xs) ys = ground (arith, Elem-append request xs ys)

enqueue_both-MapsBoth : MapsBoth enqueue_both
enqueue_both-MapsBoth f old new request = Elem-append request (f old) (f new)

ingress_to_x402_routes-restored_example :
    (ingress_to_x402_routes client back_ingress initial.cluster ≡ [])
    × (Elem
          (str "default", str "shop")
          (enqueue_both
            (λ i. ingress_to_x402_routes client i initial.cluster)
            gated_ingress
            back_ingress)
        ↔ IsFor gated_ingress (shop_route ∷ []) (str "default", str "shop"))
ingress_to_x402_routes-restored_example =
    ingress_to_x402_routes-restored client enqueue_both line_codec gated_ingress back_ingress
      initial.cluster (shop_route ∷ []) (str "default", str "shop") enqueue_both-MapsBoth
      gated-NodupKeys is_marked gives_back refl

ingress_to_x402_routes_iff_example :
    Elem (str "default", str "shop") (ingress_to_x402_routes client gated_ingress initial.cluster)
    ↔ (IsManaged gated_ingress × IsFor gated_ingress (shop_route ∷ []) (str "default", str "shop"))
ingress_to_x402_routes_iff_example =
    ingress_to_x402_routes_iff client gated_ingress initial.cluster (shop_route ∷ [])
      (str "default", str "shop") refl
