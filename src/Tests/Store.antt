-- ===== src/Tests/Store.antt =====
-- internal/routestore on concrete histories.
use x402_k8s_operator.Base.{◌≡◌, refl}
use x402_k8s_operator.Base.{◌↔◌}
use x402_k8s_operator.Base.{some, List, [], ◌∷◌}
use x402_k8s_operator.Base.{Str, str}
use x402_k8s_operator.Base.{length, All, Elem}
use x402_k8s_operator.Base.Table.{lookup}
use x402_k8s_operator.Base.Text.{contains_byte}
use x402_k8s_operator.Routestore.{CompiledRoute, store_key, snapshot, count_routes}
use x402_k8s_operator.Routestore.Refinement.{
  StoreOp, set_op, delete_op, run_ops, latest, HasNoSlash, OpIsNamed, lookup-run_ops,
  snapshot-run_ops,
}

abbrev shop_route : CompiledRoute
shop_route = record {
  name = str "shop";
  namespace = str "prod";
  hosts = [];
  wallet = str "0xWallet";
  network = str "base";
  facilitator_url = str "https://x402.org/facilitator";
  default_price = str "0.001";
  rules = [];
  backends = [];
}

-- The newest operation stands first.
abbrev history : List StoreOp
history =
    set_op (str "prod") (str "shop") shop_route
    ∷ delete_op (str "prod") (str "shop")
    ∷ set_op (str "test") (str "shop") (record shop_route { namespace = str "test" })
    ∷ []

history_is_named : All OpIsNamed history
unfolding contains_byte
history_is_named = (refl, (refl, (refl, tt)))

count_history : count_routes (run_ops history) ≡ 2
unfolding count_routes run_ops
count_history = refl

lookup-run_ops_example :
    lookup (store_key (str "prod") (str "shop")) (run_ops history).routes
    ≡ latest history (str "prod") (str "shop")
unfolding contains_byte
lookup-run_ops_example = lookup-run_ops history (str "prod") (str "shop") history_is_named refl

snapshot-run_ops_example :
    (Elem shop_route (snapshot (run_ops history)) ↔ (
      (namespace name : Str) × HasNoSlash namespace
      × (latest history namespace name ≡ some shop_route)))
    × (length (snapshot (run_ops history)) ≡ count_routes (run_ops history))
snapshot-run_ops_example = snapshot-run_ops history shop_route history_is_named
