-- ===== src/Routestore/Refinement.antt =====
-- The store refines a map from pairs of a namespace and a name.
use x402_k8s_operator.Base.{◌≡◌, refl, sym, ◌∙◌}
use x402_k8s_operator.Base.{◌↔◌, inl, inr, false, ◌&&◌}
use x402_k8s_operator.Base.{Option, none, some, List, [], ◌∷◌, arith}
use x402_k8s_operator.Base.{Str, ◌==◌, ==_iff, if◌then◌else◌}
use x402_k8s_operator.Base.{Bool-cases, length, All, Elem}
use x402_k8s_operator.Base.Text.{contains_byte}
use x402_k8s_operator.Base.Table.{
  lookup, NodupKeys, lookup-insert, lookup-erase, insert-NodupKeys, erase-NodupKeys,
  Elem-values_of_lookup, lookup_of_Elem-values, length-values,
}
use x402_k8s_operator.Routestore.{
  CompiledRoute, Store, new_store, store_key, set_route, delete_route, snapshot, count_routes,
}

-- One operation that changes the store.
pub data StoreOp : Type 0 where
  set_op : (namespace name : Str) → CompiledRoute → StoreOp
  delete_op : (namespace name : Str) → StoreOp

unfoldable pub apply_op : StoreOp → Store → Store
unfolding set_route delete_route
apply_op (set_op namespace name route) s = set_route s namespace name route
apply_op (delete_op namespace name) s = delete_route s namespace name

-- The store after a history, whose newest operation stands first.
unfoldable pub run_ops : List StoreOp → Store
unfolding apply_op
run_ops [] = new_store
run_ops (op ∷ before) = apply_op op (run_ops before)

-- What a history leaves at a namespace and a name: the newest operation on that pair counts.
pub latest : List StoreOp → Str → Str → Option CompiledRoute
latest [] namespace name = none
latest (set_op ns n route ∷ before) namespace name =
    if ns == namespace && n == name then some route else latest before namespace name
latest (delete_op ns n ∷ before) namespace name =
    if ns == namespace && n == name then none else latest before namespace name

abbrev pub HasNoSlash : Str → Type 0
HasNoSlash s = contains_byte s b'/' ≡ false

-- Names of Kubernetes namespaces hold no slash.
abbrev pub OpIsNamed : StoreOp → Type 0
OpIsNamed (set_op namespace name route) = HasNoSlash namespace
OpIsNamed (delete_op namespace name) = HasNoSlash namespace

store_key_inj :
    (ns n ns' n' : Str)
    → HasNoSlash ns
    → HasNoSlash ns'
    → store_key ns n ≡ store_key ns' n'
    → (ns ≡ ns') × (n ≡ n')
unfolding store_key contains_byte
store_key_inj [] n [] n' h h' e = ground arith
store_key_inj [] n (d ∷ ns') n' h h' e = ground arith
store_key_inj (c ∷ ns) n [] n' h h' e = ground arith
store_key_inj (c ∷ ns) n (d ∷ ns') n' h h' e = ground (arith, store_key_inj ns n ns' n')

store_key-== :
    (ns n ns' n' : Str)
    → HasNoSlash ns
    → HasNoSlash ns'
    → (store_key ns n == store_key ns' n') ≡ (ns == ns' && n == n')
store_key-== ns n ns' n' h h' = ground (
  arith,
  ==_iff (store_key ns n) (store_key ns' n'),
  ==_iff ns ns',
  ==_iff n n',
  store_key_inj ns n ns' n' h h',
)

pub run_ops-NodupKeys : (ops : List StoreOp) → NodupKeys (run_ops ops).routes
unfolding run_ops
run_ops-NodupKeys [] = tt
run_ops-NodupKeys (set_op ns n route ∷ before) =
    insert-NodupKeys (store_key ns n) route (run_ops before).routes (run_ops-NodupKeys before)
run_ops-NodupKeys (delete_op ns n ∷ before) =
    erase-NodupKeys (store_key ns n) (run_ops before).routes (run_ops-NodupKeys before)

-- After any history of operations on namespaces without a slash, the store holds for each
-- namespace and name the route of the newest operation on that pair, and none if that was a delete.
pub lookup-run_ops :
    (ops : List StoreOp) (namespace name : Str)
    → All OpIsNamed ops
    → HasNoSlash namespace
    → lookup (store_key namespace name) (run_ops ops).routes ≡ latest ops namespace name
unfolding run_ops latest
lookup-run_ops [] namespace name _ _ = unfold lookup in refl
lookup-run_ops (set_op ns n route ∷ before) namespace name (h, hs) k = rw (
  lookup-insert (store_key namespace name) (store_key ns n) route (run_ops before).routes,
  store_key-== ns n namespace name h k,
  lookup-run_ops before namespace name hs k,
)
lookup-run_ops (delete_op ns n ∷ before) namespace name (h, hs) k = rw (
  lookup-erase (store_key namespace name) (store_key ns n) (run_ops before).routes
      (run_ops-NodupKeys before),
  store_key-== ns n namespace name h k,
  lookup-run_ops before namespace name hs k,
)

-- Every key of the store is that of a namespace without a slash and a name.
key_of_lookup :
    (ops : List StoreOp) (k : Str) (route : CompiledRoute)
    → All OpIsNamed ops
    → lookup k (run_ops ops).routes ≡ some route
    → (namespace name : Str) × HasNoSlash namespace × (store_key namespace name ≡ k)
unfolding run_ops
key_of_lookup [] k route _ h = unfold lookup in cc
key_of_lookup (set_op ns n r ∷ before) k route (named, hs) h =
    elim (Bool-cases (store_key ns n == k)) [
      | inl here ↦ (ns, n, named, (==_iff (store_key ns n) k).0 here)
      | inr other ↦
          key_of_lookup before k route hs
            (rw (lookup-insert k (store_key ns n) r (run_ops before).routes, other) at h)
    ]
key_of_lookup (delete_op ns n ∷ before) k route (named, hs) h =
    elim (Bool-cases (store_key ns n == k)) [
      | inl here ↦ (ns, n, named, (==_iff (store_key ns n) k).0 here)
      | inr other ↦ key_of_lookup before k route hs (
          rw
            (
              lookup-erase k (store_key ns n) (run_ops before).routes (run_ops-NodupKeys before),
              other,
            )
            at h)
    ]

-- After a history of operations on namespaces without a slash, a snapshot holds a route just when
-- the route is the newest one of some namespace and name, and it is as long as the count says.
pub snapshot-run_ops :
    (ops : List StoreOp) (route : CompiledRoute)
    → All OpIsNamed ops
    → (Elem route (snapshot (run_ops ops)) ↔ (
        (namespace name : Str) × HasNoSlash namespace × (latest ops namespace name ≡ some route)))
      × (length (snapshot (run_ops ops)) ≡ count_routes (run_ops ops))
unfolding snapshot count_routes
snapshot-run_ops ops route hs = (
  (
    λ m.
        let (k, found) =
          lookup_of_Elem-values route (run_ops ops).routes (run_ops-NodupKeys ops) m in
        let (ns, n, named, e) = key_of_lookup ops k route hs found in
        (ns, n, named, sym (lookup-run_ops ops ns n hs named) ∙ rw e found),
    λ (ns, n, named, e).
        Elem-values_of_lookup route (store_key ns n) (run_ops ops).routes
          (lookup-run_ops ops ns n hs named ∙ e),
  ),
  length-values (run_ops ops).routes,
)
