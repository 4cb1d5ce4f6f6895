-- ===== src/Integration/Gating.antt =====
-- What `Reconcile` of internal/controller leaves in the cluster and in the store, against the backend
-- that `findBackend` of internal/gateway then chooses.
use x402_k8s_operator.Base.{
  ◌≡◌, refl, sym, ap, ◌∙◌, ◌⊎◌, inl, inr, false, Elem, none, some, List, [], Str, Bool-cases,
  ==_refl,
}
use x402_k8s_operator.Base.Table.{Table, lookup, lookup-insert}
use x402_k8s_operator.Routestore.{CompiledRoute, Store, store_key, set_route}
use x402_k8s_operator.Gateway.Proxy.{find_backend}
use x402_k8s_operator.Controller.Api.{RouteRule, X402Route}
use x402_k8s_operator.Controller.PathMatch.Bases.{Overlaps}
use x402_k8s_operator.Controller.PathMatch.Redirects.{path_matches_paid_routes-collect_paid_paths}
use x402_k8s_operator.Controller.PathMatch.{path_matches_paid_routes, collect_paid_paths}
use x402_k8s_operator.Controller.Compile.Fields.{compile_route-compiled_with}
use x402_k8s_operator.Controller.Ingresses.{
  Ingress, IngressPath, IngressService, get_annotation, annotation_original_backends, collect_rules,
  describe_url, extract_backends, gateway_port,
}
use x402_k8s_operator.Controller.Ingresses.Paths.{
  AllPaths, AllPaths-both, HasService, IsDescribed, collect_rules-all-IsDescribed,
}
use x402_k8s_operator.Controller.Ingresses.Patch.{
  service_at, gateway_svc_name, redirect_path, patch_ingress,
}
use x402_k8s_operator.Controller.Ingresses.Patch.Redirected.{redirect_rules-AllPaths}
use x402_k8s_operator.Controller.Ingresses.Patch.Fresh.{patch_ingress_fresh}
use x402_k8s_operator.Controller.Ingresses.Patch.Decodes.{extract_backends_decoded}
use x402_k8s_operator.Controller.Reconciler.{found, Env, State, ingress_namespace}
use x402_k8s_operator.Controller.Reconciler.Reconcile.{reconcile}
use x402_k8s_operator.Controller.Reconciler.Reliable.{IsReliable, IsFinalizing}
use x402_k8s_operator.Controller.Reconciler.Outcomes.{Compiles}
use x402_k8s_operator.Controller.Reconciler.Converges.{reconcile_reliable}

find_backend_key :
    (backends by_pattern fallback : Table Str) (path u : Str)
    → lookup path backends ≡ some u
    → find_backend backends path by_pattern fallback ≡ u
unfolding find_backend
find_backend_key backends by_pattern fallback path u h = rw (h, find_backend)

-- The path of an Ingress overlaps with the path of a rule that is not free.
abbrev pub IsPaid : List RouteRule → Str → Type 0
IsPaid rules path =
    (rule : RouteRule) × Elem rule rules × (rule.free ≡ false) × Overlaps path rule.path

-- A path leads to the gateway if it is paid, and else to its own service; and the gateway sends the
-- requests for just that path on to that service.
abbrev pub IsGated :
    IngressService
    → List RouteRule
    → Str
    → (Str → IngressService)
    → Table Str
    → IngressPath
    → Type 0
IsGated gateway rules namespace service_of backends p =
    ((IsPaid rules p.path × (p.service ≡ some gateway))
      ⊎ ((¬ IsPaid rules p.path) × (p.service ≡ some (service_of p.path))))
    × ((by_pattern fallback : Table Str)
        → find_backend backends p.path by_pattern fallback
          ≡ describe_url namespace (service_of p.path))

redirect_path-IsGated :
    (svc_name : Str) (rules : List RouteRule) (namespace : Str) (service_of : Str → IngressService)
    (backends : Table Str) (p : IngressPath)
    → HasService service_of p × IsDescribed (describe_url namespace) service_of backends p.path
    → IsGated
        (service_at svc_name gateway_port)
        rules
        namespace
        service_of
        backends
        (redirect_path svc_name (collect_paid_paths rules) p)
redirect_path-IsGated svc_name rules namespace service_of backends p (has, described) =
    let decides = path_matches_paid_routes-collect_paid_paths p.path rules in
    elim (Bool-cases (path_matches_paid_routes p.path (collect_paid_paths rules))) [
      | inl paid ↦
          rw paid
            (inl (decides.0 paid, refl), λ m m'. find_backend_key backends m m' p.path _ described)
      | inr free ↦ rw free (
        inr ((λ h. cc (decides.1 h, free)), has),
        λ m m'. find_backend_key backends m m' p.path _ described,
      )
    ]

module _ {W : Type 0} (env : Env W) (reliable : IsReliable env.client) where
  -- The backends of a route that an Ingress without stored backends compiles to.
  compiled-backends :
      (route : X402Route) (ingress : Ingress) (compiled : CompiledRoute)
      → get_annotation ingress annotation_original_backends ≡ none
      → Compiles env route ingress compiled
      → compiled.backends ≡ collect_rules (describe_url ingress.namespace) ingress.rules []
  unfolding extract_backends
  compiled-backends route ingress compiled fresh compiles =
      let extracted = extract_backends env.codec ingress in
      let (_, _, e) =
        (compile_route-compiled_with env.parsers route extracted.0 extracted.1 compiled).0
          compiles in
      ap (λ c. c.backends) e ∙ rw fresh

  stored_route :
      (store : Store) (namespace name : Str) (compiled : CompiledRoute)
      → lookup (store_key namespace name) (set_route store namespace name compiled).routes
        ≡ some compiled
  unfolding set_route
  stored_route store namespace name compiled =
      rw (lookup-insert, ==_refl (store_key namespace name))

  -- On a client whose calls succeed, after the reconciliation of a live route that compiles, whose
  -- Ingress has no stored backends, can be patched, and has on each path a service that depends on
  -- the path only, the store has a route and the cluster an Ingress such that each path of the
  -- Ingress leads to the gateway, if it overlaps with the path of a rule that is not free, and else
  -- to its own service as before, and for a request for just that path the gateway chooses the URL of
  -- that service. A pattern for all paths overlaps with the root and with itself only.
  pub reconcile-IsGated :
      (namespace name : Str) (route : X402Route) (ingress patched : Ingress)
      (compiled : CompiledRoute) (service_of : Str → IngressService) (s : State W)
      → IsFinalizing env.helpers
      → env.client.get_route namespace name s.cluster ≡ found route
      → route.is_deleting ≡ false
      → env.client.get_ingress (ingress_namespace route) route.spec.ingress_ref.name s.cluster
        ≡ found ingress
      → get_annotation ingress annotation_original_backends ≡ none
      → AllPaths (HasService service_of) ingress.rules
      → Compiles env route ingress compiled
      → patch_ingress env.codec env.operator route.spec.routes ingress ≡ some patched
      → let o = reconcile env namespace name s in
        (served : CompiledRoute) × (gated : Ingress) × (lookup
            (store_key namespace name)
            o.1.store.routes
          ≡ some served)
        × (env.client.get_ingress (ingress_namespace route) route.spec.ingress_ref.name o.1.cluster
            ≡ found gated)
        × AllPaths
            (IsGated
              (service_at (gateway_svc_name env.operator ingress) gateway_port)
              route.spec.routes
              ingress.namespace
              service_of
              served.backends)
            gated.rules
  reconcile-IsGated namespace name route ingress patched compiled service_of s finalizing exists
        live there fresh services compiles is_patched =
      let kept = extract_backends_decoded env.codec ingress (λ text h. cc (sym fresh ∙ h)) in
      let (_, _, there1, stored) =
        reconcile_reliable env reliable namespace name route ingress patched compiled s finalizing
          exists live there compiles
          (ap (patch_ingress env.codec env.operator route.spec.routes) kept ∙ is_patched) in
      let (text, _, e) =
        patch_ingress_fresh env.codec env.operator route.spec.routes ingress patched fresh
          is_patched in
      let svc_name : Str = gateway_svc_name env.operator ingress in
      let paid_paths : List Str = collect_paid_paths route.spec.routes in
      let described =
        collect_rules-all-IsDescribed (describe_url ingress.namespace) service_of ingress.rules []
          services in
      let backends = compiled-backends route ingress compiled fresh compiles in
      (
        compiled,
        patched,
        ap (λ store. lookup (store_key namespace name) store.routes) stored
            ∙ stored_route s.store namespace name compiled,
        there1,
        rw (sym e, backends)
            (redirect_rules-AllPaths _ _ svc_name paid_paths
              (redirect_path-IsGated svc_name route.spec.routes ingress.namespace service_of
                (collect_rules (describe_url ingress.namespace) ingress.rules []))
              ingress.rules (AllPaths-both _ _ ingress.rules services described)),
      )
