-- ===== src/Controller/Reconciler/Rounds.antt =====
-- `Reconcile` of internal/controller again and again, as each update of a patched Ingress asks for.
use x402_k8s_operator.Base.{
  ℕ, zero, suc, false, ◌≡◌, refl, sym, ap, ◌∙◌, some, Str, ok, length, Pointwise, ==_refl,
}
use x402_k8s_operator.Base.Table.{NodupKeys, lookup, lookup-insert}
use x402_k8s_operator.Routestore.{CompiledRoute, set_route, store_key}
use x402_k8s_operator.Controller.Api.{X402Route}
use x402_k8s_operator.Controller.Validation.{validate_facilitator_url}
use x402_k8s_operator.Controller.Compile.{facilitator_of, compiled_with, or_text, compile_route}
use x402_k8s_operator.Controller.Compile.Fields.{CompilesRule, compile_route-compiled_with}
use x402_k8s_operator.Controller.Ingresses.{Ingress, extract_backends}
use x402_k8s_operator.Controller.Ingresses.Patch.{patch_ingress, or_empty}
use x402_k8s_operator.Controller.Ingresses.Patch.Fresh.{IsFaithfulAt, original_backends}
use x402_k8s_operator.Controller.Ingresses.Patch.Idempotent.{patch_ingress_twice}
use x402_k8s_operator.Controller.Ingresses.Patch.Decodes.{
  Decodes, extract_backends-Decodes, extract_backends_decoded, extract_backends_rules,
  patch_ingress-Decodes,
}
use x402_k8s_operator.Controller.Reconciler.{found, Env, State, ingress_namespace}
use x402_k8s_operator.Controller.Reconciler.Reconcile.{reconcile}
use x402_k8s_operator.Controller.Reconciler.Reliable.{IsReliable, IsFinalizing}
use x402_k8s_operator.Controller.Reconciler.Outcomes.{Compiles}
use x402_k8s_operator.Controller.Reconciler.Converges.{IsServing, Settles, reconcile_reliable}

module _ {W : Type 0} (env : Env W) (namespace name : Str) where
  -- The state after this many reconciliations of the route.
  unfoldable pub rounds : ℕ → State W → State W
  unfolding reconcile
  rounds zero s = s
  rounds (suc n) s = (reconcile env namespace name (rounds n s)).1

  -- The route is ready, its Ingress is the patched one, and the gateway has the rules.
  abbrev pub IsSettled : X402Route → CompiledRoute → Ingress → State W → Type 0
  IsSettled route compiled patched s =
      ((after : X402Route) × (env.client.get_route namespace name s.cluster ≡ found after)
        × IsServing env route (length compiled.rules) after)
      × (env.client.get_ingress (or_text route.spec.ingress_ref.namespace namespace)
            route.spec.ingress_ref.name s.cluster
          ≡ found patched)
      × ((served : CompiledRoute) × (lookup (store_key namespace name) s.store.routes ≡ some served)
          × (served.rules ≡ compiled.rules))

  module _ (reliable : IsReliable env.client) (finalizing : IsFinalizing env.helpers) where
    IsSettled-of :
        (route route' : X402Route) (compiled compiled' : CompiledRoute) (patched : Ingress)
        (s : State W)
        → route.namespace ≡ namespace
        → route.spec ≡ route'.spec
        → compiled.rules ≡ compiled'.rules
        → Settles env namespace name route compiled patched s
        → IsSettled route' compiled' patched (reconcile env namespace name s).1
    unfolding set_route
    IsSettled-of route route' compiled compiled' patched s at same_spec same_rules
          (_, (after, exists, serving), there, stored) =
        let (spec, live, has, ready, is_patched, count) = serving in
        (
          (
            after,
            exists,
            (spec ∙ same_spec, live, has, ready, is_patched, count ∙ ap length same_rules),
          ),
          ap
                (λ n.
                  env.client.get_ingress (or_text route'.spec.ingress_ref.namespace n)
                    route'.spec.ingress_ref.name (reconcile env namespace name s).1.cluster)
                (sym at)
              ∙ ap
                  (λ spec.
                    env.client.get_ingress (or_text spec.ingress_ref.namespace route.namespace)
                      spec.ingress_ref.name (reconcile env namespace name s).1.cluster)
                  (sym same_spec)
              ∙ there,
          (
            compiled,
            ap (λ store. lookup (store_key namespace name) store.routes) stored
                ∙ rw (lookup-insert, ==_refl (store_key namespace name)),
            same_rules,
          ),
        )

    -- The route compiles whatever its backends are.
    abbrev Recompiles : X402Route → CompiledRoute → Type 0
    Recompiles route compiled =
        (validate_facilitator_url env.parsers.parse_url env.parsers.parse_ip (facilitator_of route)
          ≡ ok tt)
        × Pointwise (CompilesRule env.parsers route.spec.payment.default_price) route.spec.routes
            compiled.rules

    recompiled :
        (route after : X402Route) (compiled : CompiledRoute) (patched : Ingress)
        → Recompiles route compiled
        → after.spec ≡ route.spec
        → Compiles env after patched (
            compiled_with after
              (extract_backends env.codec patched).0
              (extract_backends env.codec patched).1
              compiled.rules)
    recompiled route after compiled patched (valid, rules) spec =
        let extracted = extract_backends env.codec patched in
        (compile_route-compiled_with env.parsers after extracted.0 extracted.1
            (compiled_with after extracted.0 extracted.1 compiled.rules)).1
          (rw spec valid, rw spec rules, refl)

    -- A round from a settled state.
    IsSettled-again :
        (route : X402Route) (compiled : CompiledRoute) (patched : Ingress) (s : State W)
        → Recompiles route compiled
        → Decodes env.codec patched
        → patch_ingress env.codec env.operator route.spec.routes patched ≡ some patched
        → IsSettled route compiled patched s
        → ((reconcile env namespace name s).0 ≡ ok tt)
          × IsSettled route compiled patched (reconcile env namespace name s).1
    IsSettled-again route compiled patched s compiles decodes again
          ((after, exists, serving), there, _) =
        let (spec, live, _, _, _, _) = serving in
        let at = (reliable.route_named namespace name after s.cluster exists).0 in
        let extracted = extract_backends env.codec patched in
        let compiled' : CompiledRoute =
          compiled_with after extracted.0 extracted.1 compiled.rules in
        let settles =
          reconcile_reliable env reliable namespace name after patched patched compiled' s
            finalizing exists live
            (ap
                (λ n.
                  env.client.get_ingress (or_text after.spec.ingress_ref.namespace n)
                    after.spec.ingress_ref.name s.cluster)
                at
              ∙ ap
                  (λ spec.
                    env.client.get_ingress (or_text spec.ingress_ref.namespace namespace)
                      spec.ingress_ref.name s.cluster)
                  spec
              ∙ there)
            (recompiled route after compiled patched compiles spec)
            (ap (λ spec. patch_ingress env.codec env.operator spec.routes extracted.1) spec
              ∙ ap (patch_ingress env.codec env.operator route.spec.routes)
                  (extract_backends_decoded env.codec patched decodes)
              ∙ again) in
        (settles.0, IsSettled-of after route compiled' compiled patched s at spec refl settles)

    -- On a client whose calls succeed, from any state in which the route is not being deleted, its
    -- Ingress exists with annotations of distinct keys, the route compiles and the Ingress can be
    -- patched, where the text of the stored backends decodes, one reconciliation settles: each of
    -- any number of reconciliations succeeds, and after each the Ingress is the patched one of the
    -- first, the route is ready and the store has its rules.
    pub reconcile_settles :
        (route : X402Route) (ingress patched : Ingress) (compiled : CompiledRoute) (s : State W)
        (n : ℕ)
        → env.client.get_route namespace name s.cluster ≡ found route
        → route.is_deleting ≡ false
        → env.client.get_ingress (ingress_namespace route) route.spec.ingress_ref.name s.cluster
          ≡ found ingress
        → NodupKeys (or_empty ingress.annotations)
        → IsFaithfulAt env.codec (original_backends ingress)
        → Compiles env route ingress compiled
        → patch_ingress env.codec env.operator route.spec.routes
            (extract_backends env.codec ingress).1
          ≡ some patched
        → ((reconcile env namespace name (rounds n s)).0 ≡ ok tt)
          × IsSettled route compiled patched (rounds (suc n) s)
    unfolding rounds compile_route
    reconcile_settles route ingress patched compiled s zero exists live there nodup faithful
          compiles is_patched =
        let settles =
          reconcile_reliable env reliable namespace name route ingress patched compiled s finalizing
            exists live there compiles is_patched in
        (
          settles.0,
          IsSettled-of route route compiled compiled patched s
              (reliable.route_named namespace name route s.cluster exists).0 refl refl settles,
        )
    reconcile_settles route ingress patched compiled s (suc n) exists live there nodup faithful
          compiles is_patched =
        let before =
          reconcile_settles route ingress patched compiled s n exists live there nodup faithful
            compiles is_patched in
        let extracted = extract_backends env.codec ingress in
        let faithful' : IsFaithfulAt env.codec (original_backends extracted.1) =
          rw (extract_backends_rules env.codec ingress) faithful in
        let (valid, rules, _) =
          (compile_route-compiled_with env.parsers route extracted.0 extracted.1 compiled).0
            compiles in
        IsSettled-again route compiled patched (rounds (suc n) s) (valid, rules)
          (patch_ingress-Decodes env.codec env.operator route.spec.routes extracted.1 patched
            faithful' (extract_backends-Decodes env.codec ingress nodup) is_patched)
          (patch_ingress_twice env.codec env.operator route.spec.routes extracted.1 patched
            is_patched)
          before.1
