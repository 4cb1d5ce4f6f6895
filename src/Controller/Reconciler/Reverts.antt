-- ===== src/Controller/Reconciler/Reverts.antt =====
-- What the clean-up of `Reconcile` of internal/controller comes to on a client whose calls succeed:
-- the Ingress is given back.
use x402_k8s_operator.Base.{
  ◌≡◌, refl, sym, ap, ◌∙◌, ◌≢◌, inl, inr, true, Str, Result, ok, ◌==◌, Bool-cases,
}
use x402_k8s_operator.Routestore.{delete_route}
use x402_k8s_operator.Controller.Api.{X402Route}
use x402_k8s_operator.Controller.Ingresses.{Ingress, external_svc_name}
use x402_k8s_operator.Controller.Ingresses.Patch.{restored, restore_ingress}
use x402_k8s_operator.Controller.Ingresses.Patch.Names.{restore_ingress-SameName}
use x402_k8s_operator.Controller.Reconciler.{
  Fetched, found, not_found, failed, Env, State, ReconcileError, of_client, return, store_delete,
  ingress_namespace, finalizer_name, continue_with,
}
use x402_k8s_operator.Controller.Reconciler.Cleanup.{
  any_other_in, ignore_not_found, restore_step, delete_external, cleanup_external_name_service,
  cleanup_external, report, cleanup_resources,
}
use x402_k8s_operator.Controller.Reconciler.Reconcile.{without_finalizer, release, reconcile}
use x402_k8s_operator.Controller.Reconciler.Reliable.{
  at_names, SameRoutes, SameIngresses, IsReliable,
}
use x402_k8s_operator.Controller.Reconciler.Outcomes.{reconcile-release}

ignore_not_found_ok :
    (r : Fetched (Unit {0})) → ((e : Str) → r ≢ failed e) → ignore_not_found r ≡ ok tt
ignore_not_found_ok (found u) h = refl
ignore_not_found_ok not_found h = refl
ignore_not_found_ok (failed e) h = absurd (h e refl)

module _ {W : Type 0} (env : Env W) (reliable : IsReliable env.client) where
  restore_step_reliable :
      (route : X402Route) (patched back : Ingress) (s : State W)
      → env.client.get_ingress (ingress_namespace route) route.spec.ingress_ref.name s.cluster
        ≡ found patched
      → restore_ingress env.codec patched ≡ restored back
      → (w : W) × (restore_step env route s ≡ (ok tt, record s { cluster = w }))
        × SameRoutes env.client s.cluster w
        × (env.client.get_ingress (ingress_namespace route) route.spec.ingress_ref.name w
            ≡ found back)
  unfolding restore_step
  restore_step_reliable route patched back s there is_back =
      let asked =
        reliable.ingress_named (ingress_namespace route) route.spec.ingress_ref.name patched
          s.cluster there in
      let same = restore_ingress-SameName env.codec patched back is_back in
      let at : (back.namespace ≡ ingress_namespace route)
          × (back.name ≡ route.spec.ingress_ref.name) =
        (same.0 ∙ asked.0, same.1 ∙ asked.1) in
      let there' = at_names (λ n m. env.client.get_ingress n m s.cluster) at ∙ there in
      let w : W = (env.client.update_ingress back s.cluster).1 in
      (
        w,
        rw (there, is_back, reliable.ingress_accepted patched back s.cluster there'),
        reliable.ingress_routes back s.cluster,
        sym (at_names (λ n m. env.client.get_ingress n m w) at)
            ∙ reliable.ingress_updated patched back s.cluster there',
      )

  -- An action succeeds and leaves the routes and the Ingresses of the cluster.
  abbrev Passes : Result ReconcileError (Unit {0}) × State W → State W → Type 0
  Passes o s =
      (w : W) × (o ≡ (ok tt, record s { cluster = w }))
      × SameRoutes env.client s.cluster w
      × SameIngresses env.client s.cluster w

  delete_external_reliable :
      (namespace : Str) (s : State W) → Passes (delete_external env namespace s) s
  delete_external_reliable namespace s =
      let deleting = reliable.service_deleted namespace external_svc_name s.cluster in
      (
        (env.client.delete_service namespace external_svc_name s.cluster).1,
        rw (ignore_not_found_ok _ deleting.0),
        deleting.2,
        deleting.1,
      )

  cleanup_external_reliable :
      (route : X402Route) (s : State W) → Passes (cleanup_external env route s) s
  unfolding cleanup_external_name_service
  cleanup_external_reliable route s =
      let namespace : Str = ingress_namespace route in
      let stays : Passes (ok tt, s) s =
        (s.cluster, refl, (λ namespace name. refl), λ namespace name. refl) in
      elim (Bool-cases (namespace == env.operator.namespace)) [
        | inl own ↦ rw own stays
        | inr other ↦
            let (routes, listed) = reliable.routes_listed s.cluster in
            elim (Bool-cases (any_other_in route namespace routes)) [
              | inl shared ↦ rw (other, listed, shared) stays
              | inr last ↦ rw (other, listed, last) (delete_external_reliable namespace s)
            ]
      ]

  -- The clean-up of a route whose Ingress has its backends stored.
  cleanup_resources_reliable :
      (route : X402Route) (patched back : Ingress) (s : State W)
      → env.client.get_ingress (ingress_namespace route) route.spec.ingress_ref.name s.cluster
        ≡ found patched
      → restore_ingress env.codec patched ≡ restored back
      → (w : W) × (cleanup_resources env route s
          ≡ (ok tt, record (store_delete route.namespace route.name s).1 { cluster = w }))
        × SameRoutes env.client s.cluster w
        × (env.client.get_ingress (ingress_namespace route) route.spec.ingress_ref.name w
            ≡ found back)
  unfolding cleanup_resources store_delete
  cleanup_resources_reliable route patched back s there is_back =
      let (w1, restoring, routes1, there1) =
        restore_step_reliable route patched back s there is_back in
      let s1 : State W = (store_delete route.namespace route.name (record s { cluster = w1 })).1 in
      let (w2, cleaning, routes2, ingresses2) = cleanup_external_reliable route s1 in
      (
        w2,
        ap
              (λ o.
                let deleted = (store_delete route.namespace route.name o.1).1 in
                let external = cleanup_external env route deleted in
                report env o.0 external.0 external.1)
              restoring
            ∙ ap (λ o. report env (ok tt) o.0 o.1) cleaning,
        (λ n m. routes2 n m ∙ routes1 n m),
        ingresses2 (ingress_namespace route) route.spec.ingress_ref.name ∙ there1,
      )

  -- On a client whose calls succeed, the reconciliation of a route that is being deleted, has the
  -- finalizer and refers to an Ingress with stored backends succeeds, restores the Ingress and
  -- takes the route out of the store.
  pub reconcile_reverts :
      (namespace name : Str) (route : X402Route) (patched back : Ingress) (s : State W)
      → env.client.get_route namespace name s.cluster ≡ found route
      → route.is_deleting ≡ true
      → env.helpers.contains_finalizer route.finalizers finalizer_name ≡ true
      → env.client.get_ingress (ingress_namespace route) route.spec.ingress_ref.name s.cluster
        ≡ found patched
      → restore_ingress env.codec patched ≡ restored back
      → ((reconcile env namespace name s).0 ≡ ok tt)
        × (env.client.get_ingress
              (ingress_namespace route)
              route.spec.ingress_ref.name
              (reconcile env namespace name s).1.cluster
            ≡ found back)
        × ((reconcile env namespace name s).1.store
            ≡ delete_route s.store route.namespace route.name)
  unfolding store_delete
  reconcile_reverts namespace name route patched back s exists deleting finalized there is_back =
      let (w, cleaned, routes, there1) =
        cleanup_resources_reliable route patched back s there is_back in
      let named = reliable.route_named namespace name route s.cluster exists in
      let left : X402Route = without_finalizer env route in
      let accepted = reliable.finalizers_accepted route left.finalizers w (
        routes route.namespace route.name
        ∙ at_names (λ n m. env.client.get_route n m s.cluster) named
        ∙ exists) in
      let deleted : State W = record (store_delete route.namespace route.name s).1 {
        cluster = w;
      } in
      let ran : reconcile env namespace name s
          ≡ (ok tt, record deleted { cluster = (env.client.update_route left w).1 }) =
        reconcile-release env namespace name route s exists deleting finalized
        ∙ ap (λ o. continue_with (λ _. release env route) o.0 o.1) cleaned
        ∙ ap
            (λ r.
              continue_with (λ _. return tt) (of_client r)
                (record deleted { cluster = (env.client.update_route left w).1 }))
            accepted in
      (
        ap (λ o. o.0) ran,
        ap
              (λ o.
                env.client.get_ingress (ingress_namespace route) route.spec.ingress_ref.name
                  o.1.cluster)
              ran
            ∙ reliable.route_ingresses left w (ingress_namespace route) route.spec.ingress_ref.name
            ∙ there1,
        ap (λ o. o.1.store) ran,
      )
