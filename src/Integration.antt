-- ===== src/Integration.antt =====
-- The gateway of internal/gateway on the routes that the controller of internal/controller stores.
pub mod Paying
pub mod Gating
use x402_k8s_operator.Base.{refl, List, [], ◌∷◌, Str, Elem}
use x402_k8s_operator.Base.Table.{lookup_of_Elem-values, lookup}
use x402_k8s_operator.Routestore.{CompiledRoute, new_store, snapshot, count_routes}
use x402_k8s_operator.Gateway.Request.{Request}
use x402_k8s_operator.Gateway.Payment.Facilitator.{Call}
use x402_k8s_operator.Gateway.Handler
use x402_k8s_operator.Gateway.Handler.{serve_http}
use x402_k8s_operator.Gateway.Handler.Calls.{GoesTo, serve_http-GoesTo}
use x402_k8s_operator.Controller.Reconciler
use x402_k8s_operator.Controller.Reconciler.{State}
use x402_k8s_operator.Controller.Reconciler.Reconcile.{reconcile}
use x402_k8s_operator.Controller.Reconciler.Consistent.{IsConsistent, IsValidated}
use x402_k8s_operator.Controller.Reconciler.Keeps.{reconcile-IsConsistent}

-- What happens to the state: a reconciliation, or a change of the cluster by others.
pub data Event (W : Type 0) : Type 0 where
  reconciled : (namespace name : Str) → Event W
  changed : (W → W) → Event W

module _ {W : Type 0} (env : Reconciler.Env W) (start : W) where
  -- The state after events, whose newest stands first; the operator starts with an empty store.
  unfoldable pub run_events : List (Event W) → State W
  unfolding reconcile
  run_events [] = record {
    cluster = start;
    store = new_store;
    active_routes = 0;
    store_updates = 0;
  }
  run_events (reconciled namespace name ∷ before) =
      (reconcile env namespace name (run_events before)).1
  run_events (changed f ∷ before) = let s = run_events before in record s { cluster = f s.cluster }

  run_events-IsConsistent :
      (events : List (Event W))
      → IsConsistent env.parsers (run_events events).store (run_events events).active_routes
  unfolding run_events
  run_events-IsConsistent [] =
      (tt, (λ k route h. unfold lookup in cc h), unfold count_routes in refl)
  run_events-IsConsistent (reconciled namespace name ∷ before) =
      reconcile-IsConsistent env namespace name (run_events before) (run_events-IsConsistent before)
  run_events-IsConsistent (changed f ∷ before) = run_events-IsConsistent before

  -- After any reconciliations and changes of the cluster, every call that the gateway makes goes to
  -- an endpoint of the facilitator of a stored route, and the validation accepts that facilitator.
  pub serve_http-IsValidated :
      (handler : Handler.Env) (r : Request) (events : List (Event W)) (call : Call)
      → Elem call (serve_http handler r (snapshot (run_events events).store)).calls
      → (route : CompiledRoute) × Elem route (snapshot (run_events events).store)
        × GoesTo route call
        × IsValidated env.parsers route
  unfolding snapshot
  serve_http-IsValidated handler r events call m =
      let s = run_events events in
      let (route, stored, goes) = serve_http-GoesTo handler r (snapshot s.store) call m in
      let (nodup, valid, _) = run_events-IsConsistent events in
      let (k, found) = lookup_of_Elem-values route s.store.routes nodup stored in
      (route, stored, goes, valid k route found)
