-- ===== src/Controller/Reconciler/RoundTrip.antt =====
-- A route of internal/controller from its first `Reconcile` to its deletion.
use x402_k8s_operator.Base.{◌≡◌, refl, sym, ap, ◌∙◌, ◌≢◌, true, false, none, some, Str, ok, ==_refl}
use x402_k8s_operator.Base.Table.{NodupKeys, lookup, insert, insert-NodupKeys, lookup-erase}
use x402_k8s_operator.Routestore.{CompiledRoute, Store, store_key, set_route, delete_route}
use x402_k8s_operator.Controller.Api.{X402Route}
use x402_k8s_operator.Controller.Compile.{or_text}
use x402_k8s_operator.Controller.Ingresses.{
  Ingress, IngressService, get_annotation, annotation_managed_by, annotation_original_backends,
}
use x402_k8s_operator.Controller.Ingresses.Paths.{AllPaths}
use x402_k8s_operator.Controller.Ingresses.Patch.{patch_ingress, or_empty}
use x402_k8s_operator.Controller.Ingresses.Patch.Fresh.{IsFaithfulAt, original_backends}
use x402_k8s_operator.Controller.Ingresses.Patch.Restores.{
  IsRestorable, restore_ingress-patch_ingress,
}
use x402_k8s_operator.Controller.Ingresses.Patch.Decodes.{extract_backends_decoded}
use x402_k8s_operator.Controller.Reconciler.{found, Client, Env, State, ingress_namespace}
use x402_k8s_operator.Controller.Reconciler.Reconcile.{reconcile}
use x402_k8s_operator.Controller.Reconciler.Reliable.{
  at_names, IsReliable, IsFinalizing, SameIngresses,
}
use x402_k8s_operator.Controller.Reconciler.Outcomes.{Compiles}
use x402_k8s_operator.Controller.Reconciler.Converges.{reconcile_reliable}
use x402_k8s_operator.Controller.Reconciler.Reverts.{reconcile_reverts}

-- The request to delete a route, which marks it and leaves the Ingresses.
abbrev pub IsDeletion : {W : Type 0} → Client W → Str → Str → (W → W) → Type 0
IsDeletion {W} client namespace name leave =
    ((route : X402Route) (w : W)
      → client.get_route namespace name w ≡ found route
      → client.get_route namespace name (leave w) ≡ found (record route { is_deleting = true }))
    × ((w : W) → SameIngresses client w (leave w))

deleted_key :
    (store : Store) (namespace name : Str) (compiled : CompiledRoute)
    → NodupKeys store.routes
    → lookup
        (store_key namespace name)
        (delete_route (set_route store namespace name compiled) namespace name).routes
      ≡ none
unfolding set_route delete_route
deleted_key store namespace name compiled nodup =
    let key : Str = store_key namespace name in
    rw (
      lookup-erase key key (insert key compiled store.routes)
          (insert-NodupKeys key compiled store.routes nodup),
      ==_refl key,
    )

-- Routes of one namespace and specification refer to one Ingress.
same_ref :
    (a b : X402Route)
    → a.namespace ≡ b.namespace
    → a.spec ≡ b.spec
    → (ingress_namespace a ≡ ingress_namespace b)
      × (a.spec.ingress_ref.name ≡ b.spec.ingress_ref.name)
same_ref a b namespace spec = (
  ap (or_text a.spec.ingress_ref.namespace) namespace
      ∙ ap (λ spec. or_text spec.ingress_ref.namespace b.namespace) spec,
  ap (λ spec. spec.ingress_ref.name) spec,
)

module _ {W : Type 0} (env : Env W) where
  -- The state after a reconciliation of the route and the request to delete it.
  abbrev pub left : Str → Str → (W → W) → State W → State W
  left namespace name leave s =
      let s1 = (reconcile env namespace name s).1 in record s1 { cluster = leave s1.cluster }

module _ {W : Type 0} (env : Env W) (reliable : IsReliable env.client) where
  -- On a client whose calls succeed, where a live route whose Ingress has no stored backends is
  -- reconciled, then marked as deleted and reconciled again, the second reconciliation succeeds, the
  -- Ingress has the rules that it had before the first, and its annotations but for the mark of the
  -- operator, and the store no longer has the route. The Ingress has annotations of distinct keys,
  -- paths each with a plain service that depends on the path only, and can be patched; the text that
  -- the patch stores decodes to what was stored.
  pub reconcile_back :
      (namespace name : Str) (route : X402Route) (ingress patched : Ingress)
      (compiled : CompiledRoute) (service_of : Str → IngressService) (leave : W → W) (s : State W)
      → IsFinalizing env.helpers
      → NodupKeys s.store.routes
      → env.client.get_route namespace name s.cluster ≡ found route
      → route.is_deleting ≡ false
      → env.client.get_ingress (ingress_namespace route) route.spec.ingress_ref.name s.cluster
        ≡ found ingress
      → get_annotation ingress annotation_original_backends ≡ none
      → NodupKeys (or_empty ingress.annotations)
      → IsFaithfulAt env.codec (original_backends ingress)
      → AllPaths (IsRestorable service_of) ingress.rules
      → Compiles env route ingress compiled
      → patch_ingress env.codec env.operator route.spec.routes ingress ≡ some patched
      → IsDeletion env.client namespace name leave
      → let o = reconcile env namespace name (left env namespace name leave s) in
        (o.0 ≡ ok tt)
        × ((back : Ingress) × (env.client.get_ingress
                (ingress_namespace route)
                route.spec.ingress_ref.name
                o.1.cluster
              ≡ found back)
            × (back.rules ≡ ingress.rules)
            × ((k : Str)
                → k ≢ annotation_managed_by
                → get_annotation back k ≡ get_annotation ingress k))
        × (lookup (store_key namespace name) o.1.store.routes ≡ none)
  reconcile_back namespace name route ingress patched compiled service_of leave s finalizing nodups
        exists live there fresh nodup faithful plain compiles is_patched leaves =
      let (back, is_back, same_rules, same_annotations) =
        restore_ingress-patch_ingress env.codec env.operator route.spec.routes ingress patched
          service_of fresh nodup faithful plain is_patched in
      let kept = extract_backends_decoded env.codec ingress (λ text h. cc (sym fresh ∙ h)) in
      let (_, (after, exists1, serving), there1, stored) =
        reconcile_reliable env reliable namespace name route ingress patched compiled s finalizing
          exists live there compiles
          (ap (patch_ingress env.codec env.operator route.spec.routes) kept ∙ is_patched) in
      let s1 = (reconcile env namespace name s).1 in
      let s2 : State W = left env namespace name leave s in
      let marked : X402Route = record after { is_deleting = true } in
      let named = reliable.route_named namespace name after s1.cluster exists1 in
      let at =
        same_ref after route
          (named.0 ∙ sym (reliable.route_named namespace name route s.cluster exists).0)
          serving.0 in
      let (succeeds, there2, gone) =
        reconcile_reverts env reliable namespace name marked patched back s2
          (leaves.0 after s1.cluster exists1) refl serving.2
          (leaves.1 s1.cluster (ingress_namespace marked) marked.spec.ingress_ref.name
            ∙ at_names (λ n m. env.client.get_ingress n m s1.cluster) at
            ∙ there1)
          is_back in
      let o = reconcile env namespace name s2 in
      (
        succeeds,
        (
          back,
          sym (at_names (λ n m. env.client.get_ingress n m o.1.cluster) at) ∙ there2,
          same_rules,
          same_annotations,
        ),
        ap (λ store. lookup (store_key namespace name) store.routes)
              (gone
                ∙ at_names (delete_route s1.store) named
                ∙ ap (λ store. delete_route store namespace name) stored)
            ∙ deleted_key s.store namespace name compiled nodups,
      )
