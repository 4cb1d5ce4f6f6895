-- ===== src/Tests/Settling.antt =====
-- `Reconcile` of internal/controller over a cluster whose API accepts every call.
use x402_k8s_operator.Base.{
  ◌≡◌, refl, ap, ◌∙◌, sym, Bool, true, false, ◌&&◌, [], ◌∷◌, Str, str, ◌==◌, ==_iff, ==_refl, ok,
  some, none, arith, ◌≢◌, suc,
}
use x402_k8s_operator.Base.Table.{lookup}
use x402_k8s_operator.Routestore.{CompiledRoute, store_key}
use x402_k8s_operator.Controller.Api.{X402Route}
use x402_k8s_operator.Controller.Compile.{compile_route}
use x402_k8s_operator.Controller.Ingresses.{
  Ingress, get_annotation, annotation_managed_by, extract_backends, gateway_port,
}
use x402_k8s_operator.Controller.Ingresses.Patch.{patch_ingress, service_at, gateway_svc_name}
use x402_k8s_operator.Controller.Ingresses.Paths.{AllPaths, HasService}
use x402_k8s_operator.Integration.Gating.{IsGated, reconcile-IsGated}
use x402_k8s_operator.Controller.Reconciler.{found, Client, Env}
use x402_k8s_operator.Controller.Reconciler.Reconcile.{reconcile}
use x402_k8s_operator.Controller.Reconciler.Reliable.{IsReliable, IsFinalizing}
use x402_k8s_operator.Controller.Reconciler.Outcomes.{Compiles}
use x402_k8s_operator.Controller.Reconciler.Converges.{Settles, reconcile_reliable}
use x402_k8s_operator.Controller.Reconciler.Rounds.{rounds, IsSettled, reconcile_settles}
use x402_k8s_operator.Controller.Reconciler.RoundTrip.{IsDeletion, left, reconcile_back}
use x402_k8s_operator.Tests.Patching.{
  shop_ingress, gated_ingress, shop_operator, shop_service, line_codec, gated, lines_are_faithful,
  shop-IsRestorable, not_annotated, not_marked,
}
use x402_k8s_operator.Tests.Compiling.{shop_route, compiled_shop}
use x402_k8s_operator.Tests.Controlling.{shop_rules}
use x402_k8s_operator.Tests.Reconciling.{
  Cluster, fetch, client, contains, helpers, env, initial, exists,
}

abbrev steady : Client Cluster
steady = record client { update_ingress = λ ingress w. (ok tt, record w { ingress = ingress }) }

abbrev steady_env : Env Cluster
steady_env = record env { client = steady }

fetched : {A : Type 0} (b : Bool) (a a' : A) → fetch b a ≡ found a' → (b ≡ true) × (a ≡ a')
unfolding fetch
fetched true a a' h = (refl, cc h)
fetched false a a' h = cc h

fetched_at : {A : Type 0} (b : Bool) (a a' : A) → b ≡ true → a ≡ a' → fetch b a ≡ found a'
unfolding fetch
fetched_at true a a' h e = ap found e
fetched_at false a a' h e = cc h

named :
    {A : Type 0} (namespace name namespace' name' : Str) (a a' : A)
    → fetch (namespace == namespace' && name == name') a ≡ found a'
    → (namespace' ≡ namespace) × (name' ≡ name)
named namespace name namespace' name' a a' h =
    let (both, _) = fetched (namespace == namespace' && name == name') a a' h in
    ground (arith, ==_iff namespace namespace', ==_iff name name')

there_is :
    {A : Type 0} (namespace name : Str) (a : A)
    → fetch (namespace == namespace && name == name) a ≡ found a
unfolding fetch
there_is namespace name a = rw (==_refl namespace, ==_refl name)

steady-IsReliable : IsReliable steady
steady-IsReliable = record {
  route_named = λ namespace name route w h.
      let (_, e) = fetched _ _ _ h in
      let (p, q) = named namespace name w.route.namespace w.route.name w.route route h in
      (ap (λ r. r.namespace) (sym e) ∙ p, ap (λ r. r.name) (sym e) ∙ q);
  ingress_named = λ namespace name ingress w h.
      let (_, e) = fetched _ _ _ h in
      let (p, q) = named namespace name w.ingress.namespace w.ingress.name w.ingress ingress h in
      (ap (λ r. r.namespace) (sym e) ∙ p, ap (λ r. r.name) (sym e) ∙ q);
  routes_listed = λ w. (w.route ∷ [], refl);
  finalizers_accepted = λ route finalizers w h. refl;
  finalizers_updated = λ route finalizers w h live. there_is route.namespace route.name _;
  route_ingresses = λ route w namespace name. refl;
  status_updated = λ route status w h. there_is route.namespace route.name _;
  status_ingresses = λ route w namespace name. refl;
  ingress_accepted = λ old ingress w h. refl;
  ingress_updated = λ old ingress w h. there_is ingress.namespace ingress.name ingress;
  ingress_routes = λ ingress w namespace name. refl;
  service_accepted = λ namespace name f w. refl;
  service_routes = λ namespace name f w namespace' name'. refl;
  service_ingresses = λ namespace name f w namespace' name'. refl;
  service_deleted =
      λ namespace name w. ((λ e h. cc h), (λ namespace' name'. refl), λ namespace' name'. refl);
}

adds_finalizer : IsFinalizing helpers
unfolding contains
adds_finalizer finalizers s = rw (==_refl s)

is_there : steady.get_ingress (str "default") (str "shop") initial.cluster ≡ found shop_ingress
unfolding fetch ◌==◌
is_there = refl

abbrev served_shop : CompiledRoute
served_shop = record compiled_shop { backends = (extract_backends line_codec shop_ingress).0 }

is_whole : (extract_backends line_codec shop_ingress).1 ≡ shop_ingress
unfolding extract_backends ◌==◌
is_whole = refl

shop-Compiles : Compiles steady_env shop_route shop_ingress served_shop
unfolding compile_route extract_backends
shop-Compiles = refl

patches :
    patch_ingress line_codec shop_operator shop_rules (extract_backends line_codec shop_ingress).1
    ≡ some gated_ingress
patches = ap (patch_ingress line_codec shop_operator shop_rules) is_whole ∙ gated

reconcile_reliable_example :
    Settles steady_env (str "default") (str "shop") shop_route served_shop gated_ingress initial
reconcile_reliable_example =
    reconcile_reliable steady_env steady-IsReliable (str "default") (str "shop") shop_route
      shop_ingress gated_ingress served_shop initial adds_finalizer exists refl is_there
      shop-Compiles patches

reconcile_settles_example :
    ((reconcile steady_env
        (str "default")
        (str "shop")
        (rounds steady_env (str "default") (str "shop") 2 initial)).0
      ≡ ok tt)
    × IsSettled steady_env
        (str "default")
        (str "shop")
        shop_route
        served_shop
        gated_ingress
        (rounds steady_env (str "default") (str "shop") (suc 2) initial)
reconcile_settles_example =
    reconcile_settles steady_env (str "default") (str "shop") steady-IsReliable adds_finalizer
      shop_route shop_ingress gated_ingress served_shop initial 2 exists refl is_there
      (not_marked, tt) lines_are_faithful shop-Compiles patches

abbrev leave : Cluster → Cluster
leave w = record w { route = record w.route { is_deleting = true } }

leave-IsDeletion : IsDeletion steady (str "default") (str "shop") leave
leave-IsDeletion = (
  λ route w h.
      let (here, e) = fetched _ w.route route h in
      fetched_at _ (record w.route { is_deleting = true }) (record route { is_deleting = true })
        here (ap {A = X402Route} (λ r. record r { is_deleting = true }) e),
  λ w namespace name. refl,
)

reconcile_back_example :
    let o =
      reconcile steady_env
        (str "default")
        (str "shop")
        (left steady_env (str "default") (str "shop") leave initial) in
    (o.0 ≡ ok tt)
    × ((back : Ingress) × (steady.get_ingress (str "default") (str "shop") o.1.cluster ≡ found back)
        × (back.rules ≡ shop_ingress.rules)
        × ((k : Str)
            → k ≢ annotation_managed_by
            → get_annotation back k ≡ get_annotation shop_ingress k))
    × (lookup (store_key (str "default") (str "shop")) o.1.store.routes ≡ none)
reconcile_back_example =
    reconcile_back steady_env steady-IsReliable (str "default") (str "shop") shop_route shop_ingress
      gated_ingress served_shop shop_service leave initial adds_finalizer tt exists refl is_there
      not_annotated (not_marked, tt) lines_are_faithful shop-IsRestorable shop-Compiles gated
      leave-IsDeletion

has_services : AllPaths (HasService shop_service) shop_ingress.rules
unfolding ◌==◌
has_services = ((refl, (refl, tt)), tt)

reconcile-IsGated_example :
    let o = reconcile steady_env (str "default") (str "shop") initial in
    (served : CompiledRoute) × (gated_one : Ingress) × (lookup
        (store_key (str "default") (str "shop"))
        o.1.store.routes
      ≡ some served)
    × (steady.get_ingress (str "default") (str "shop") o.1.cluster ≡ found gated_one)
    × AllPaths
        (IsGated
          (service_at (gateway_svc_name shop_operator shop_ingress) gateway_port)
          shop_rules
          (str "default")
          shop_service
          served.backends)
        gated_one.rules
reconcile-IsGated_example =
    reconcile-IsGated steady_env steady-IsReliable (str "default") (str "shop") shop_route
      shop_ingress gated_ingress served_shop shop_service initial adds_finalizer exists refl
      is_there not_annotated has_services shop-Compiles gated
