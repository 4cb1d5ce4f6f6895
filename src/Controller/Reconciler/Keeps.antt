-- ===== src/Controller/Reconciler/Keeps.antt =====
-- Every branch of the clean-up and of `Reconcile` keeps the state consistent.
use x402_k8s_operator.Base.{
  ℕ, ◌≡◌, refl, ap, Option, none, some, Bool, true, false, Str, ◌==◌, if◌then◌else◌, Result, ok,
  err,
}
use x402_k8s_operator.Base.Table.{Table}
use x402_k8s_operator.Routestore.{Store, CompiledRoute}
use x402_k8s_operator.Controller.Api.{X402Route}
use x402_k8s_operator.Controller.Compile.{CompileError, compile_route}
use x402_k8s_operator.Controller.Compile.Fields.{compile_route-compiled_with}
use x402_k8s_operator.Controller.Ingresses.{Ingress, extract_backends}
use x402_k8s_operator.Controller.Ingresses.Patch.{
  Restored, nothing_stored, corrupted, restored, restore_ingress, patch_ingress,
}
use x402_k8s_operator.Controller.Reconciler.{
  Fetched, found, not_found, failed, State, Env, Action, ReconcileError, of_client, return, change,
  store_set, store_delete, ingress_namespace, finalizer_name,
}
use x402_k8s_operator.Controller.Reconciler.Cleanup.{
  any_other_in, update_restored, restore_fetched, restore_step, delete_external,
  cleanup_external_name_service, cleanup_external, report, cleanup_resources,
}
use x402_k8s_operator.Controller.Reconciler.Reconcile.{
  ensure_external_name_service, update_patched, patch_step, finish, patch_ensured, serve_compiled,
  with_ingress, ensure_finalizer, reconcile_live, without_finalizer, release, clean_and_release,
  finalize, reconcile_fetched, reconcile,
}
use x402_k8s_operator.Controller.Reconciler.Consistent.{
  IsValidated, IsConsistent, Keeps, continue-Keeps, store_set-Keeps, store_delete-Keeps,
}

-- The actions that leave the store and the gauge alone.
module _ {W : Type 0} (env : Env W) (P : Store → ℕ → Type 0) where
  pub if-Keeps :
      {A : Type 0} (b : Bool) (m k : Action W A)
      → Keeps P m
      → Keeps P k
      → Keeps P (if b then m else k)
  if-Keeps true m k km kk = km
  if-Keeps false m k km kk = kk

  restore_fetched-Keeps : (fetched : Fetched Ingress) → Keeps P (restore_fetched env fetched)
  restore_fetched-Keeps not_found s h = h
  restore_fetched-Keeps (failed e) s h = h
  restore_fetched-Keeps (found ingress) s h = update_kept (restore_ingress env.codec ingress)
    where
      update_kept :
          (r : Restored)
          → P (update_restored env r s).1.store (update_restored env r s).1.active_routes
      update_kept nothing_stored = h
      update_kept corrupted = h
      update_kept (restored i) = h

  pub restore_step-Keeps : (route : X402Route) → Keeps P (restore_step env route)
  unfolding restore_step
  restore_step-Keeps route s h =
      restore_fetched-Keeps
        (env.client.get_ingress (ingress_namespace route) route.spec.ingress_ref.name s.cluster) s h

  cleanup_external_name_service-Keeps :
      (route : X402Route) (namespace : Str)
      → Keeps P (cleanup_external_name_service env route namespace)
  unfolding cleanup_external_name_service
  cleanup_external_name_service-Keeps route namespace s h =
      continue-Keeps P
        (λ routes.
          if any_other_in route namespace routes then return tt else delete_external env namespace)
        (of_client (env.client.list_routes s.cluster)) s
        (λ routes.
          if-Keeps (any_other_in route namespace routes) (return tt) (delete_external env namespace)
            (λ s h. h) (λ s h. h))
        h

  pub cleanup_external-Keeps : (route : X402Route) → Keeps P (cleanup_external env route)
  cleanup_external-Keeps route =
      if-Keeps (ingress_namespace route == env.operator.namespace) (return tt)
        (cleanup_external_name_service env route (ingress_namespace route)) (λ s h. h)
        (cleanup_external_name_service-Keeps route (ingress_namespace route))

  pub report-Keeps : (a b : Result ReconcileError (Unit {0})) → Keeps P (report env a b)
  report-Keeps (ok a) (ok b) s h = h
  report-Keeps (ok a) (err e) s h = h
  report-Keeps (err e) (ok b) s h = h
  report-Keeps (err e) (err f) s h = h

  update_patched-Keeps : (patched : Option Ingress) → Keeps P (update_patched env patched)
  update_patched-Keeps none s h = h
  update_patched-Keeps (some ingress) s h = h

  patch_step-Keeps :
      (route : X402Route) (ingress : Ingress) → Keeps P (patch_step env route ingress)
  unfolding patch_step
  patch_step-Keeps route ingress =
      update_patched-Keeps (patch_ingress env.codec env.operator route.spec.routes ingress)

  pub ensure_external_name_service-Keeps :
      (namespace : Str) → Keeps P (ensure_external_name_service env namespace)
  unfolding ensure_external_name_service
  ensure_external_name_service-Keeps namespace =
      if-Keeps (namespace == env.operator.namespace) (return tt) (change _) (λ s h. h) (λ s h. h)

  finish-Keeps :
      (route : X402Route) (compiled : CompiledRoute) (r : Result ReconcileError (Unit {0}))
      → Keeps P (finish env route compiled r)
  finish-Keeps route compiled (err e) s h = h
  finish-Keeps route compiled (ok u) s h = h

  pub patch_ensured-Keeps :
      (route : X402Route) (ingress : Ingress) (compiled : CompiledRoute)
      (r : Result ReconcileError (Unit {0}))
      → Keeps P (patch_ensured env route ingress compiled r)
  patch_ensured-Keeps route ingress compiled (err e) s h = h
  patch_ensured-Keeps route ingress compiled (ok u) s h =
      let patching = patch_step env route ingress s in
      finish-Keeps route compiled patching.0 patching.1 (patch_step-Keeps route ingress s h)

  pub release-Keeps : (route : X402Route) → Keeps P (release env route)
  release-Keeps route s h =
      let updating = change (env.client.update_route (without_finalizer env route)) s in
      continue-Keeps P (λ _. return tt) updating.0 updating.1 (λ _ s h. h) h

module _ {W : Type 0} (env : Env W) where
  cleanup_resources-Keeps :
      (route : X402Route) → Keeps (IsConsistent env.parsers) (cleanup_resources env route)
  unfolding cleanup_resources
  cleanup_resources-Keeps route s h =
      let restoring = restore_step env route s in
      let deleting = store_delete route.namespace route.name restoring.1 in
      let cleaning = cleanup_external env route deleting.1 in
      report-Keeps env (IsConsistent env.parsers) restoring.0 cleaning.0 cleaning.1 (
        cleanup_external-Keeps env (IsConsistent env.parsers) route deleting.1 (
          store_delete-Keeps env.parsers route.namespace route.name restoring.1
            (restore_step-Keeps env (IsConsistent env.parsers) route s h)))

  serve_compiled-Keeps :
      (route : X402Route) (ingress : Ingress) (r : Result CompileError CompiledRoute)
      → ((compiled : CompiledRoute) → r ≡ ok compiled → IsValidated env.parsers compiled)
      → Keeps (IsConsistent env.parsers) (serve_compiled env route ingress r)
  unfolding store_set ensure_external_name_service
  serve_compiled-Keeps route ingress (err e) valid s h = h
  serve_compiled-Keeps route ingress (ok compiled) valid s h =
      let setting = store_set route.namespace route.name compiled s in
      let ensuring = ensure_external_name_service env (ingress_namespace route) setting.1 in
      patch_ensured-Keeps env (IsConsistent env.parsers) route ingress compiled ensuring.0
        ensuring.1
        (ensure_external_name_service-Keeps env (IsConsistent env.parsers) (ingress_namespace route)
          setting.1
          (store_set-Keeps env.parsers route.namespace route.name compiled (valid compiled refl) s
            h))

  compile_route-IsValidated :
      (route : X402Route) (backends : Table Str) (ingress : Ingress) (compiled : CompiledRoute)
      → compile_route env.parsers route backends ingress ≡ ok compiled
      → IsValidated env.parsers compiled
  compile_route-IsValidated route backends ingress compiled h =
      let (valid, _, e) =
        (compile_route-compiled_with env.parsers route backends ingress compiled).0 h in
      rw (ap (λ c. c.facilitator_url) e) valid

  with_ingress-Keeps :
      (route : X402Route) (fetched : Fetched Ingress)
      → Keeps (IsConsistent env.parsers) (with_ingress env route fetched)
  with_ingress-Keeps route not_found s h = h
  with_ingress-Keeps route (failed e) s h = h
  with_ingress-Keeps route (found ingress) s h =
      let (backends, kept) = extract_backends env.codec ingress in
      serve_compiled-Keeps route kept (compile_route env.parsers route backends kept)
        (compile_route-IsValidated route backends kept) s h

  reconcile_live-Keeps :
      (route : X402Route) → Keeps (IsConsistent env.parsers) (reconcile_live env route)
  unfolding reconcile_live
  reconcile_live-Keeps route s h =
      let ensuring = ensure_finalizer env route s in
      continue-Keeps (IsConsistent env.parsers)
        (λ kept s.
          with_ingress env kept
            (env.client.get_ingress (ingress_namespace kept) kept.spec.ingress_ref.name s.cluster)
            s)
        ensuring.0 ensuring.1
        (λ kept s h.
          with_ingress-Keeps kept
            (env.client.get_ingress (ingress_namespace kept) kept.spec.ingress_ref.name s.cluster) s
            h)
        (if-Keeps env (IsConsistent env.parsers)
          (env.helpers.contains_finalizer route.finalizers finalizer_name) (return route) (change _)
          (λ s h. h) (λ s h. h) s h)

  clean_and_release-Keeps :
      (route : X402Route) → Keeps (IsConsistent env.parsers) (clean_and_release env route)
  clean_and_release-Keeps route s h =
      let cleaning = cleanup_resources env route s in
      continue-Keeps (IsConsistent env.parsers) (λ _. release env route) cleaning.0 cleaning.1
        (λ _. release-Keeps env (IsConsistent env.parsers) route)
        (cleanup_resources-Keeps route s h)

  finalize-Keeps : (route : X402Route) → Keeps (IsConsistent env.parsers) (finalize env route)
  unfolding finalize
  finalize-Keeps route =
      if-Keeps env (IsConsistent env.parsers)
        (env.helpers.contains_finalizer route.finalizers finalizer_name)
        (clean_and_release env route) (return tt) (clean_and_release-Keeps route) (λ s h. h)

  reconcile_fetched-Keeps :
      (fetched : Fetched X402Route)
      → Keeps (IsConsistent env.parsers) (reconcile_fetched env fetched)
  reconcile_fetched-Keeps not_found s h = h
  reconcile_fetched-Keeps (failed e) s h = h
  reconcile_fetched-Keeps (found route) s h =
      if-Keeps env (IsConsistent env.parsers) route.is_deleting (finalize env route)
        (reconcile_live env route) (finalize-Keeps route) (reconcile_live-Keeps route) s h

  -- Whatever the calls of the client come to, a reconciliation keeps the state consistent: the keys
  -- of the store are distinct, each route of the store has a facilitator that the validation
  -- accepts, and the gauge shows the number of the routes.
  pub reconcile-IsConsistent :
      (namespace name : Str) (s : State W)
      → IsConsistent env.parsers s.store s.active_routes
      → IsConsistent env.parsers
          (reconcile env namespace name s).1.store
          (reconcile env namespace name s).1.active_routes
  unfolding reconcile
  reconcile-IsConsistent namespace name s h =
      reconcile_fetched-Keeps (env.client.get_route namespace name s.cluster) s h
