-- ===== src/Routestore.antt =====
-- internal/routestore: the compiled routes that the controller writes and the gateway reads. Each
-- operation holds the store's lock throughout, so an execution is a sequence of operations.
pub mod Refinement
use x402_k8s_operator.Base.{ℕ}
use x402_k8s_operator.Base.{Bool}
use x402_k8s_operator.Base.{List, [], ◌∷◌, ◌++◌}
use x402_k8s_operator.Base.{Str}
use x402_k8s_operator.Base.{length}
use x402_k8s_operator.Base.Table.{Table, insert, erase, values}

-- A compiled regular expression is the test that its `MatchString` makes.
pub record CompiledCondition : Type 0 where
  pub header : Str
  pub pattern : Str → Bool
  pub action : Str

pub record CompiledRule : Type 0 where
  pub path : Str
  pub price : Str
  pub free : Bool
  pub mode : Str
  pub conditions : List CompiledCondition

pub record CompiledRoute : Type 0 where
  pub name : Str
  pub namespace : Str
  pub hosts : List Str
  pub wallet : Str
  pub network : Str
  pub facilitator_url : Str
  pub default_price : Str
  pub rules : List CompiledRule
  pub backends : Table Str

pub record Store : Type 0 where
  pub routes : Table CompiledRoute

-- `New`
abbrev pub new_store : Store
new_store = record { routes = [] }

unfoldable pub store_key : Str → Str → Str
store_key namespace name = namespace ++ b'/' ∷ name

-- `Set`
unfoldable pub set_route : Store → Str → Str → CompiledRoute → Store
unfolding insert store_key
set_route s namespace name route = record s {
  routes = insert (store_key namespace name) route s.routes;
}

-- `Delete`
unfoldable pub delete_route : Store → Str → Str → Store
unfolding erase store_key
delete_route s namespace name = record s { routes = erase (store_key namespace name) s.routes }

-- `Snapshot`, in the order of one iteration over the map
unfoldable pub snapshot : Store → List CompiledRoute
unfolding values
snapshot s = values s.routes

-- `Count`
unfoldable pub count_routes : Store → ℕ
count_routes s = length s.routes
