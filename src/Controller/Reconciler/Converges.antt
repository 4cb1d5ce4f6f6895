-- ===== src/Controller/Reconciler/Converges.antt =====
-- What `Reconcile` of internal/controller comes to on a client whose calls succeed: a live route is
-- served and its Ingress patched.
pub mod Steps
use x402_k8s_operator.Base.{
  ◌≡◌, refl, sym, ap, ◌∙◌, true, false, List, Str, ok, if◌then◌else◌, length, some, ℕ,
}
use x402_k8s_operator.Routestore.{CompiledRoute, set_route}
use x402_k8s_operator.Controller.Api.{X402Route}
use x402_k8s_operator.Controller.Compile.{compile_route}
use x402_k8s_operator.Controller.Ingresses.{Ingress, extract_backends}
use x402_k8s_operator.Controller.Ingresses.Patch.{patch_ingress}
use x402_k8s_operator.Controller.Reconciler.{
  found, Env, State, store_set, ingress_namespace, continue_with, finalizer_name,
}
use x402_k8s_operator.Controller.Reconciler.Reconcile.{
  serve_compiled, with_ingress, ensure_finalizer, reconcile_live, finalize, reconcile_fetched,
  reconcile,
}
use x402_k8s_operator.Controller.Reconciler.Reliable.{at_names, IsReliable, IsFinalizing}
use x402_k8s_operator.Controller.Reconciler.Outcomes.{Compiles}
use x402_k8s_operator.Controller.Ingresses.Patch.Names.{
  extract_backends-SameName, patch_ingress-SameName,
}
use x402_k8s_operator.Controller.Reconciler.Converges.Steps.{
  with_finalizers, served_route, ensure_finalizer_reliable, serve_compiled_reliable,
}

module _ {W : Type 0} (env : Env W) where
  -- The route is ready, its status shows that its Ingress is patched and how many rules are active,
  -- and it has the finalizer.
  abbrev pub IsServing : X402Route → ℕ → X402Route → Type 0
  IsServing route active_routes after =
      (after.spec ≡ route.spec)
      × (after.is_deleting ≡ false)
      × (env.helpers.contains_finalizer after.finalizers finalizer_name ≡ true)
      × (after.status.ready ≡ true)
      × (after.status.ingress_patched ≡ true)
      × (after.status.active_routes ≡ active_routes)

  -- What a reconciliation of a live route that succeeds leaves.
  abbrev pub Settles : Str → Str → X402Route → CompiledRoute → Ingress → State W → Type 0
  Settles namespace name route compiled patched s =
      let o = reconcile env namespace name s in
      (o.0 ≡ ok tt)
      × ((after : X402Route) × (env.client.get_route namespace name o.1.cluster ≡ found after)
          × IsServing route (length compiled.rules) after)
      × (env.client.get_ingress (ingress_namespace route) route.spec.ingress_ref.name o.1.cluster
          ≡ found patched)
      × (o.1.store ≡ set_route s.store namespace name compiled)

module _ {W : Type 0} (env : Env W) (reliable : IsReliable env.client) where
  -- The patched Ingress has the name that the route refers to.
  patched-SameName :
      (route : X402Route) (ingress patched : Ingress) (w : W)
      → env.client.get_ingress (ingress_namespace route) route.spec.ingress_ref.name w
        ≡ found ingress
      → patch_ingress env.codec env.operator route.spec.routes
          (extract_backends env.codec ingress).1
        ≡ some patched
      → (patched.namespace ≡ ingress_namespace route) × (patched.name ≡ route.spec.ingress_ref.name)
  patched-SameName route ingress patched w there is_patched =
      let asked =
        reliable.ingress_named (ingress_namespace route) route.spec.ingress_ref.name ingress w
          there in
      let extracted = extract_backends-SameName env.codec ingress in
      let patching =
        patch_ingress-SameName env.codec env.operator route.spec.routes
          (extract_backends env.codec ingress).1 patched is_patched in
      (patching.0 ∙ extracted.0 ∙ asked.0, patching.1 ∙ extracted.1 ∙ asked.1)

  -- A reconciliation that finds the route live and its Ingress there, where the route compiles.
  runs :
      (namespace name : Str) (route : X402Route) (ingress : Ingress) (compiled : CompiledRoute)
      (finalizers : List Str) (s : State W) (w : W)
      → env.client.get_route namespace name s.cluster ≡ found route
      → route.is_deleting ≡ false
      → ensure_finalizer env route s
        ≡ (ok (with_finalizers route finalizers), record s { cluster = w })
      → env.client.get_ingress (ingress_namespace route) route.spec.ingress_ref.name w
        ≡ found ingress
      → Compiles env route ingress compiled
      → reconcile env namespace name s
        ≡ serve_compiled env
            (with_finalizers route finalizers)
            (extract_backends env.codec ingress).1
            (ok compiled)
            (record s { cluster = w })
  unfolding reconcile reconcile_live compile_route
  runs namespace name route ingress compiled finalizers s w exists live ensured there compiles =
      let kept : X402Route = with_finalizers route finalizers in
      let s1 : State W = record s { cluster = w } in
      ap (λ fetched. reconcile_fetched env fetched s) exists
      ∙ ap (λ b. (if b then finalize env route else reconcile_live env route) s) live
      ∙ ap
          (λ o.
            continue_with
              (λ kept s.
                with_ingress env kept
                  (env.client.get_ingress (ingress_namespace kept) kept.spec.ingress_ref.name
                    s.cluster)
                  s)
              o.0 o.1)
          ensured
      ∙ ap (λ fetched. with_ingress env kept fetched s1) there
      ∙ ap (λ r. serve_compiled env kept (extract_backends env.codec ingress).1 r s1) compiles

  -- On a client whose calls succeed, the reconciliation of a route that is not being deleted, whose
  -- Ingress exists, that compiles, and whose Ingress can be patched, succeeds: the Ingress is the
  -- patched one, the route has the finalizer and a status that shows it ready, its Ingress patched
  -- and the number of its rules, and the store has the compiled route.
  pub reconcile_reliable :
      (namespace name : Str) (route : X402Route) (ingress patched : Ingress)
      (compiled : CompiledRoute) (s : State W)
      → IsFinalizing env.helpers
      → env.client.get_route namespace name s.cluster ≡ found route
      → route.is_deleting ≡ false
      → env.client.get_ingress (ingress_namespace route) route.spec.ingress_ref.name s.cluster
        ≡ found ingress
      → Compiles env route ingress compiled
      → patch_ingress env.codec env.operator route.spec.routes
          (extract_backends env.codec ingress).1
        ≡ some patched
      → Settles env namespace name route compiled patched s
  unfolding store_set
  reconcile_reliable namespace name route ingress patched compiled s finalizing exists live there
        compiles is_patched =
      let named = reliable.route_named namespace name route s.cluster exists in
      let at = patched-SameName route ingress patched s.cluster there is_patched in
      let (finalizers, w1, (ensured, has, exists1, ingresses1)) =
        ensure_finalizer_reliable env reliable route s finalizing
          (at_names (λ n m. env.client.get_route n m s.cluster) named ∙ exists) live in
      let kept : X402Route = with_finalizers route finalizers in
      let there1 = ingresses1 (ingress_namespace route) route.spec.ingress_ref.name ∙ there in
      let (w2, served, exists2, there2) =
        serve_compiled_reliable env reliable kept ingress (extract_backends env.codec ingress).1
          patched compiled (record s { cluster = w1 }) exists1 is_patched
          (at_names (λ n m. env.client.get_ingress n m w1) at ∙ there1) in
      let ran =
        runs namespace name route ingress compiled finalizers s w1 exists live ensured there1
          compiles
        ∙ served in
      (
        ap (λ o. o.0) ran,
        (
          served_route env kept (length compiled.rules),
          ap (λ o. env.client.get_route namespace name o.1.cluster) ran
              ∙ sym (at_names (λ n m. env.client.get_route n m w2) named)
              ∙ exists2,
          (refl, live, has, refl, refl, refl),
        ),
        ap
              (λ o.
                env.client.get_ingress (ingress_namespace route) route.spec.ingress_ref.name
                  o.1.cluster)
              ran
            ∙ sym (at_names (λ n m. env.client.get_ingress n m w2) at)
            ∙ there2,
        ap (λ o. o.1.store) ran ∙ at_names (λ n m. set_route s.store n m compiled) named,
      )
