-- ===== src/Controller/Reconciler/Converges/Steps.antt =====
-- The steps of `Reconcile` of internal/controller on a client whose calls succeed: the finalizer, the
-- service, the patch and the status.
use x402_k8s_operator.Base.{
  ◌≡◌, refl, ap, ◌∙◌, inl, inr, true, false, List, Str, ok, ◌==◌, Bool-cases, length, some, ℕ, str,
}
use x402_k8s_operator.Routestore.{CompiledRoute}
use x402_k8s_operator.Controller.Api.{X402Route}
use x402_k8s_operator.Controller.Ingresses.{Ingress, external_svc_name}
use x402_k8s_operator.Controller.Ingresses.Patch.{patch_ingress}
use x402_k8s_operator.Controller.Reconciler.{
  found, Service, Env, State, store_set, ingress_namespace, finalizer_name,
}
use x402_k8s_operator.Controller.Reconciler.Reconcile.{
  set_condition, ensure_external_name_service, external_service, patch_step, finish, patch_ensured,
  serve_compiled, ensure_finalizer,
}
use x402_k8s_operator.Controller.Reconciler.Reliable.{
  SameRoutes, SameIngresses, HasRoute, HasIngress, IsReliable, IsFinalizing,
}

abbrev pub with_finalizers : X402Route → List Str → X402Route
with_finalizers route finalizers = record route { finalizers = finalizers }

module _ {W : Type 0} (env : Env W) where
  -- The route as the last update of its status leaves it.
  abbrev pub served_route : X402Route → ℕ → X402Route
  served_route route active_routes =
      let patched : X402Route =
        set_condition env route (str "IngressPatched") true (str "Reconciled")
          (str "Ingress patched for payment gating") in
      let ready : X402Route =
        set_condition env patched (str "Ready") true (str "Reconciled")
          (str "Route is active and serving traffic") in
      record ready {
        status = record ready.status {
          ingress_patched = true;
          ready = true;
          active_routes = active_routes;
        };
      }

module _ {W : Type 0} (env : Env W) (reliable : IsReliable env.client) where
  -- The route with the finalizer is in the cluster, and the Ingresses are as before.
  abbrev IsEnsured : X402Route → State W → List Str → W → Type 0
  IsEnsured route s finalizers w =
      (ensure_finalizer env route s
        ≡ (ok (with_finalizers route finalizers), record s { cluster = w }))
      × (env.helpers.contains_finalizer finalizers finalizer_name ≡ true)
      × HasRoute env.client (with_finalizers route finalizers) w
      × SameIngresses env.client s.cluster w

  pub ensure_finalizer_reliable :
      (route : X402Route) (s : State W)
      → IsFinalizing env.helpers
      → HasRoute env.client route s.cluster
      → route.is_deleting ≡ false
      → (finalizers : List Str) × (w : W) × IsEnsured route s finalizers w
  ensure_finalizer_reliable route s finalizing exists live =
      elim (Bool-cases (env.helpers.contains_finalizer route.finalizers finalizer_name)) [
        | inl has ↦ (route.finalizers, s.cluster, (rw has, has, exists, λ namespace name. refl))
        | inr lacks ↦
            let finalizers : List Str = env.helpers.add_finalizer route.finalizers finalizer_name in
            let updating = env.client.update_route (with_finalizers route finalizers) s.cluster in
            (
              finalizers,
              updating.1,
              (
                rw (lacks, reliable.finalizers_accepted route finalizers s.cluster exists),
                finalizing route.finalizers finalizer_name,
                reliable.finalizers_updated route finalizers s.cluster exists live,
                reliable.route_ingresses (with_finalizers route finalizers) s.cluster,
              ),
            )
      ]

  ensure_external_reliable :
      (namespace : Str) (s : State W)
      → (w : W) × (ensure_external_name_service env namespace s ≡ (ok tt, record s { cluster = w }))
        × SameRoutes env.client s.cluster w
        × SameIngresses env.client s.cluster w
  unfolding ensure_external_name_service
  ensure_external_reliable namespace s = elim (Bool-cases (namespace == env.operator.namespace)) [
    | inl own ↦ (s.cluster, rw own, (λ namespace name. refl), λ namespace name. refl)
    | inr other ↦
        let f : Service → Service = external_service env in
        let creating = env.client.create_or_update namespace external_svc_name f s.cluster in
        (
          creating.1,
          rw (other, reliable.service_accepted namespace external_svc_name f s.cluster),
          reliable.service_routes namespace external_svc_name f s.cluster,
          reliable.service_ingresses namespace external_svc_name f s.cluster,
        )
  ]

  patch_step_reliable :
      (route : X402Route) (old ingress patched : Ingress) (s : State W)
      → patch_ingress env.codec env.operator route.spec.routes ingress ≡ some patched
      → env.client.get_ingress patched.namespace patched.name s.cluster ≡ found old
      → (w : W) × (patch_step env route ingress s ≡ (ok tt, record s { cluster = w }))
        × SameRoutes env.client s.cluster w
        × HasIngress env.client patched w
  unfolding patch_step
  patch_step_reliable route old ingress patched s is_patched exists = (
    (env.client.update_ingress patched s.cluster).1,
    rw (is_patched, reliable.ingress_accepted old patched s.cluster exists),
    reliable.ingress_routes patched s.cluster,
    reliable.ingress_updated old patched s.cluster exists,
  )

  finish_reliable :
      (route : X402Route) (patched : Ingress) (compiled : CompiledRoute) (s : State W)
      → HasRoute env.client route s.cluster
      → HasIngress env.client patched s.cluster
      → (w : W) × (finish env route compiled (ok tt) s ≡ (ok tt, record s { cluster = w }))
        × HasRoute env.client (served_route env route (length compiled.rules)) w
        × HasIngress env.client patched w
  finish_reliable route patched compiled s exists there =
      let served : X402Route = served_route env route (length compiled.rules) in
      (
        env.client.update_status served s.cluster,
        refl,
        reliable.status_updated route served.status s.cluster exists,
        reliable.status_ingresses served s.cluster patched.namespace patched.name ∙ there,
      )

  pub serve_compiled_reliable :
      (route : X402Route) (old ingress patched : Ingress) (compiled : CompiledRoute) (s : State W)
      → HasRoute env.client route s.cluster
      → patch_ingress env.codec env.operator route.spec.routes ingress ≡ some patched
      → env.client.get_ingress patched.namespace patched.name s.cluster ≡ found old
      → (w : W) × (serve_compiled env route ingress (ok compiled) s
          ≡ (ok tt, record (store_set route.namespace route.name compiled s).1 { cluster = w }))
        × HasRoute env.client (served_route env route (length compiled.rules)) w
        × HasIngress env.client patched w
  unfolding store_set
  serve_compiled_reliable route old ingress patched compiled s exists is_patched there =
      let s1 = (store_set route.namespace route.name compiled s).1 in
      let (w2, ensured, routes2, ingresses2) =
        ensure_external_reliable (ingress_namespace route) s1 in
      let s2 : State W = record s1 { cluster = w2 } in
      let (w3, patching, routes3, there3) =
        patch_step_reliable route old ingress patched s2 is_patched
          (ingresses2 patched.namespace patched.name ∙ there) in
      let s3 : State W = record s2 { cluster = w3 } in
      let (w4, finished, exists4, there4) =
        finish_reliable route patched compiled s3
          (routes3 route.namespace route.name ∙ routes2 route.namespace route.name ∙ exists)
          there3 in
      (
        w4,
        ap (λ o. patch_ensured env route ingress compiled o.0 o.1) ensured
            ∙ ap (λ o. finish env route compiled o.0 o.1) patching
            ∙ finished,
        exists4,
        there4,
      )
