-- ===== src/Controller/Reconciler/Outcomes.antt =====
-- What `Reconcile` leaves in the store, and when it releases a route.
use x402_k8s_operator.Base.{
  ℕ, ◌≡◌, refl, sym, ap, ◌∙◌, true, false, Str, Result, ok, err, if◌then◌else◌,
}
use x402_k8s_operator.Routestore.{Store, CompiledRoute, set_route, delete_route}
use x402_k8s_operator.Controller.Api.{X402Route}
use x402_k8s_operator.Controller.Compile.{CompileError, compile_route}
use x402_k8s_operator.Controller.Ingresses.{Ingress, extract_backends}
use x402_k8s_operator.Controller.Reconciler.{
  Fetched, found, not_found, failed, State, Env, Action, ReconcileError, continue_with, return,
  change, store_set, store_delete, ingress_namespace, finalizer_name,
}
use x402_k8s_operator.Controller.Reconciler.Cleanup.{
  restore_step, cleanup_external, cleanup_resources,
}
use x402_k8s_operator.Controller.Reconciler.Reconcile.{
  ensure_external_name_service, serve_compiled, with_ingress, ensure_finalizer, reconcile_live,
  clean_and_release, release, finalize, reconcile_fetched, reconcile,
}
use x402_k8s_operator.Controller.Reconciler.Consistent.{continue-Keeps}
use x402_k8s_operator.Controller.Reconciler.Keeps.{
  if-Keeps, restore_step-Keeps, cleanup_external-Keeps, report-Keeps, release-Keeps,
  ensure_external_name_service-Keeps, patch_ensured-Keeps,
}

module _ {W : Type 0} (env : Env W) where
  -- The store is this one.
  abbrev Stays : Store → Store → ℕ → Type 0
  Stays store store' n = store' ≡ store

  cleanup_resources_store :
      (route : X402Route) (s : State W)
      → (cleanup_resources env route s).1.store ≡ delete_route s.store route.namespace route.name
  unfolding cleanup_resources store_delete
  cleanup_resources_store route s =
      let cleaned : Store = delete_route s.store route.namespace route.name in
      let restoring = restore_step env route s in
      let deleting = store_delete route.namespace route.name restoring.1 in
      let cleaning = cleanup_external env route deleting.1 in
      report-Keeps env (Stays cleaned) restoring.0 cleaning.0 cleaning.1 (
        cleanup_external-Keeps env (Stays cleaned) route deleting.1 (
          ap (λ store. delete_route store route.namespace route.name)
            (restore_step-Keeps env (Stays s.store) route s refl)))

  clean_and_release_store :
      (route : X402Route) (s : State W)
      → (clean_and_release env route s).1.store ≡ delete_route s.store route.namespace route.name
  clean_and_release_store route s =
      let cleaned : Store = delete_route s.store route.namespace route.name in
      let cleaning = cleanup_resources env route s in
      continue-Keeps (Stays cleaned) (λ _. release env route) cleaning.0 cleaning.1
        (λ _. release-Keeps env (Stays cleaned) route) (cleanup_resources_store route s)

  continue_err :
      {A B : Type 0} (f : A → Action W B) (r : Result ReconcileError A) (s : State W)
      (e : ReconcileError)
      → r ≡ err e
      → continue_with f r s ≡ (err e, s)
  continue_err f r s e h = rw h

  pub reconcile-release :
      (namespace name : Str) (route : X402Route) (s : State W)
      → env.client.get_route namespace name s.cluster ≡ found route
      → route.is_deleting ≡ true
      → env.helpers.contains_finalizer route.finalizers finalizer_name ≡ true
      → reconcile env namespace name s ≡ clean_and_release env route s
  unfolding reconcile finalize
  reconcile-release namespace name route s exists deleting finalized =
      ap (λ fetched. reconcile_fetched env fetched s) exists
      ∙ ap (λ b. (if b then finalize env route else reconcile_live env route) s) deleting
      ∙ ap (λ b. (if b then clean_and_release env route else return tt) s) finalized

  -- The reconciliation of a route that is being deleted and has the finalizer takes the route out of
  -- the store, whatever the calls of the client come to, and where the clean-up fails it ends with
  -- that error and changes nothing further, so that the finalizer stays.
  pub reconcile_deleting :
      (namespace name : Str) (route : X402Route) (s : State W)
      → env.client.get_route namespace name s.cluster ≡ found route
      → route.is_deleting ≡ true
      → env.helpers.contains_finalizer route.finalizers finalizer_name ≡ true
      → ((reconcile env namespace name s).1.store ≡ delete_route s.store route.namespace route.name)
        × ((e : ReconcileError)
            → (cleanup_resources env route s).0 ≡ err e
            → reconcile env namespace name s ≡ (err e, (cleanup_resources env route s).1))
  reconcile_deleting namespace name route s exists deleting finalized =
      let same = reconcile-release namespace name route s exists deleting finalized in
      (
        ap (λ o. o.1.store) same ∙ clean_and_release_store route s,
        λ e failed.
            let cleaning = cleanup_resources env route s in
            same ∙ continue_err (λ _. release env route) cleaning.0 cleaning.1 e failed,
      )

  continue_ok :
      {A B : Type 0} (f : A → Action W B) (r : Result ReconcileError A) (s : State W) (b : B)
      → (continue_with f r s).0 ≡ ok b
      → (a : A) × (r ≡ ok a) × (continue_with f r s ≡ f a s) × ((f a s).0 ≡ ok b)
  continue_ok f (ok a) s b h = (a, refl, refl, h)
  continue_ok f (err e) s b h = cc h

  serve_compiled_ok :
      (route : X402Route) (ingress : Ingress) (r : Result CompileError CompiledRoute) (s : State W)
      → (serve_compiled env route ingress r s).0 ≡ ok tt
      → (compiled : CompiledRoute) × (r ≡ ok compiled)
        × ((serve_compiled env route ingress r s).1.store
            ≡ set_route s.store route.namespace route.name compiled)
  unfolding store_set
  serve_compiled_ok route ingress (err e) s h = cc h
  serve_compiled_ok route ingress (ok compiled) s h =
      let stored : Store = set_route s.store route.namespace route.name compiled in
      let setting = store_set route.namespace route.name compiled s in
      let ensuring = ensure_external_name_service env (ingress_namespace route) setting.1 in
      (
        compiled,
        refl,
        patch_ensured-Keeps env (Stays stored) route ingress compiled ensuring.0 ensuring.1 (
            ensure_external_name_service-Keeps env (Stays stored) (ingress_namespace route)
              setting.1 refl),
      )

  -- The route that the Ingress and the resource compile to.
  abbrev pub Compiles : X402Route → Ingress → CompiledRoute → Type 0
  Compiles route ingress compiled =
      let extracted = extract_backends env.codec ingress in
      compile_route env.parsers route extracted.0 extracted.1 ≡ ok compiled

  with_ingress_ok :
      (route : X402Route) (fetched : Fetched Ingress) (s : State W)
      → (with_ingress env route fetched s).0 ≡ ok tt
      → (ingress : Ingress) × (compiled : CompiledRoute) × (fetched ≡ found ingress)
        × Compiles route ingress compiled
        × ((with_ingress env route fetched s).1.store
            ≡ set_route s.store route.namespace route.name compiled)
  with_ingress_ok route not_found s h = cc h
  with_ingress_ok route (failed e) s h = cc h
  with_ingress_ok route (found ingress) s h =
      let extracted = extract_backends env.codec ingress in
      let (compiled, compiles, stored) =
        serve_compiled_ok route extracted.1
          (compile_route env.parsers route extracted.0 extracted.1) s h in
      (ingress, compiled, refl, compiles, stored)

  ensure_finalizer_store :
      (route : X402Route) (s : State W) → (ensure_finalizer env route s).1.store ≡ s.store
  ensure_finalizer_store route s =
      if-Keeps env (Stays s.store) (env.helpers.contains_finalizer route.finalizers finalizer_name)
        (return route) (change _) (λ s h. h) (λ s h. h) s refl

  -- Where the reconciliation of a route that is not being deleted succeeds, the store has, under the
  -- route as it was read or as the update with the finalizer returned it, what this and the Ingress
  -- that it refers to compile to, and is otherwise as before.
  pub reconcile_serving :
      (namespace name : Str) (route : X402Route) (s : State W)
      → env.client.get_route namespace name s.cluster ≡ found route
      → route.is_deleting ≡ false
      → (reconcile env namespace name s).0 ≡ ok tt
      → (kept : X402Route) × (ingress : Ingress) × (compiled : CompiledRoute) × ((ensure_finalizer
            env route s).0
          ≡ ok kept)
        × (env.client.get_ingress
              (ingress_namespace kept)
              kept.spec.ingress_ref.name
              (ensure_finalizer env route s).1.cluster
            ≡ found ingress)
        × Compiles kept ingress compiled
        × ((reconcile env namespace name s).1.store
            ≡ set_route s.store kept.namespace kept.name compiled)
  unfolding reconcile reconcile_live
  reconcile_serving namespace name route s exists live h =
      let same : reconcile env namespace name s ≡ reconcile_live env route s =
        ap (λ fetched. reconcile_fetched env fetched s) exists
        ∙ ap (λ b. (if b then finalize env route else reconcile_live env route) s) live in
      let ensuring = ensure_finalizer env route s in
      let fetch : X402Route → State W → Fetched Ingress = λ kept s.
        env.client.get_ingress (ingress_namespace kept) kept.spec.ingress_ref.name s.cluster in
      let (kept, ensured, ran, h') =
        continue_ok (λ kept s. with_ingress env kept (fetch kept s) s) ensuring.0 ensuring.1 tt
          (sym (ap (λ o. o.0) same) ∙ h) in
      let (ingress, compiled, is_found, compiles, stored) =
        with_ingress_ok kept (fetch kept ensuring.1) ensuring.1 h' in
      (
        kept,
        ingress,
        compiled,
        ensured,
        is_found,
        compiles,
        ap (λ o. o.1.store) same
            ∙ ap (λ o. o.1.store) ran
            ∙ stored
            ∙ ap (λ store. set_route store kept.namespace kept.name compiled)
                (ensure_finalizer_store route s),
      )
