-- ===== src/Controller/Reconciler/Consistent.antt =====
-- What every reconciliation keeps, whatever the calls of the client come to.
use x402_k8s_operator.Base.{ℕ, ◌≡◌, refl, some, Str, ◌==◌, Result, ok, err, Bool-cases, inl, inr}
use mathlib.Core.Option.{some-injective}
use x402_k8s_operator.Base.Table.{
  NodupKeys, lookup, lookup-insert, lookup-erase, insert-NodupKeys, erase-NodupKeys,
}
use x402_k8s_operator.Routestore.{Store, CompiledRoute, count_routes, store_key}
use x402_k8s_operator.Controller.Validation.{validate_facilitator_url}
use x402_k8s_operator.Controller.Compile.{Parsers}
use x402_k8s_operator.Controller.Reconciler.{
  State, Action, ReconcileError, continue_with, store_set, store_delete,
}

-- The facilitator of a route is one that the validation accepts.
abbrev pub IsValidated : Parsers → CompiledRoute → Type 0
IsValidated parsers route =
    validate_facilitator_url parsers.parse_url parsers.parse_ip route.facilitator_url ≡ ok tt

-- The keys of the store are distinct, each of its routes has a validated facilitator, and the gauge
-- shows how many there are.
abbrev pub IsConsistent : Parsers → Store → ℕ → Type 0
IsConsistent parsers store active_routes =
    NodupKeys store.routes
    × ((k : Str) (route : CompiledRoute)
        → lookup k store.routes ≡ some route
        → IsValidated parsers route)
    × (active_routes ≡ count_routes store)

-- What an action keeps of the store and the gauge, whatever it does to the cluster.
module _ {W : Type 0} (P : Store → ℕ → Type 0) where
  abbrev pub Keeps : {A : Type 0} → Action W A → Type 0
  Keeps m = (s : State W) → P s.store s.active_routes → P (m s).1.store (m s).1.active_routes

  pub continue-Keeps :
      {A B : Type 0} (f : A → Action W B) (r : Result ReconcileError A) (s : State W)
      → ((a : A) → Keeps (f a))
      → P s.store s.active_routes
      → P (continue_with f r s).1.store (continue_with f r s).1.active_routes
  continue-Keeps f (ok a) s k h = k a s h
  continue-Keeps f (err e) s k h = h

module _ {W : Type 0} (parsers : Parsers) where
  pub store_set-Keeps :
      (namespace name : Str) (route : CompiledRoute)
      → IsValidated parsers route
      → Keeps {W = W} (IsConsistent parsers) (store_set namespace name route)
  unfolding store_set
  store_set-Keeps namespace name route valid s (nodup, valids, _) = (
    insert-NodupKeys (store_key namespace name) route s.store.routes nodup,
    λ k r found. elim (Bool-cases (store_key namespace name == k)) [
      | inl here ↦
          let e : route ≡ r = some-injective route r (rw (lookup-insert, here) at found) in
          rw e at valid
      | inr other ↦ valids k r (rw (lookup-insert, other) at found)
    ],
    refl,
  )

  pub store_delete-Keeps :
      (namespace name : Str) → Keeps {W = W} (IsConsistent parsers) (store_delete namespace name)
  unfolding store_delete
  store_delete-Keeps namespace name s (nodup, valids, _) = (
    erase-NodupKeys (store_key namespace name) s.store.routes nodup,
    λ k r found.
        let found' = rw (lookup-erase k (store_key namespace name) s.store.routes nodup) at found in
        elim (Bool-cases (store_key namespace name == k)) [
          | inl here ↦ cc (rw here at found')
          | inr other ↦ valids k r (rw other at found')
        ],
    refl,
  )
