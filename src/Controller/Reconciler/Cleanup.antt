-- ===== src/Controller/Reconciler/Cleanup.antt =====
-- internal/controller/x402route_controller.go: `restoreIngress`, `cleanupResources` and
-- `cleanupExternalNameService`.
use x402_k8s_operator.Base.{
  List, [], ◌∷◌, Bool, true, false, ◌&&◌, Str, ◌==◌, if◌then◌else◌, Result, ok, err,
}
use x402_k8s_operator.Controller.Api.{X402Route}
use x402_k8s_operator.Controller.Ingresses.{Ingress, external_svc_name}
use x402_k8s_operator.Controller.Ingresses.Patch.{
  Restored, nothing_stored, corrupted, restored, restore_ingress,
}
use x402_k8s_operator.Controller.Reconciler.{◌>>=◌, ◌>>◌}
use x402_k8s_operator.Controller.Reconciler.{
  Fetched, found, not_found, failed, Env, Action, ReconcileError, client_failed,
  corrupted_annotation, cleanup_failed, return, throw, attempt, of_client, change, read, lift,
  store_delete, ingress_namespace,
}

-- Another route that refers to an Ingress in the namespace.
abbrev pub is_other_in : X402Route → Str → X402Route → Bool
is_other_in route namespace other =
    if other.name == route.name && other.namespace == route.namespace
    then false
    else ingress_namespace other == namespace

unfoldable pub any_other_in : X402Route → Str → List X402Route → Bool
any_other_in route namespace [] = false
any_other_in route namespace (other ∷ routes) =
    let rest = any_other_in route namespace routes in
    if is_other_in route namespace other then true else rest

-- An object that is gone already is as good as deleted.
abbrev pub ignore_not_found : Fetched (Unit {0}) → Result ReconcileError (Unit {0})
ignore_not_found (found u) = ok tt
ignore_not_found not_found = ok tt
ignore_not_found (failed e) = err (client_failed e)

module _ {W : Type 0} (env : Env W) where
  abbrev pub update_restored : Restored → Action W (Unit {0})
  update_restored nothing_stored = return tt
  update_restored corrupted = throw corrupted_annotation
  update_restored (restored ingress) = change (env.client.update_ingress ingress)

  abbrev pub restore_fetched : Fetched Ingress → Action W (Unit {0})
  restore_fetched not_found = return tt
  restore_fetched (failed e) = throw (client_failed e)
  restore_fetched (found ingress) = update_restored (restore_ingress env.codec ingress)

  -- `restoreIngress`
  unfoldable pub restore_step : X402Route → Action W (Unit {0})
  unfolding restore_ingress
  restore_step route = do
    fetched ← read (env.client.get_ingress (ingress_namespace route) route.spec.ingress_ref.name)
    restore_fetched fetched

  abbrev pub delete_external : Str → Action W (Unit {0})
  delete_external namespace s =
      let o = env.client.delete_service namespace external_svc_name s.cluster in
      (ignore_not_found o.0, record s { cluster = o.1 })

  -- `cleanupExternalNameService`
  unfoldable pub cleanup_external_name_service : X402Route → Str → Action W (Unit {0})
  unfolding any_other_in ◌==◌
  cleanup_external_name_service route namespace = do
    listed ← read env.client.list_routes
    routes ← lift (of_client listed)
    if any_other_in route namespace routes then return tt else delete_external namespace

  abbrev pub cleanup_external : X402Route → Action W (Unit {0})
  cleanup_external route =
      if ingress_namespace route == env.operator.namespace
      then return tt
      else cleanup_external_name_service route (ingress_namespace route)

  abbrev pub report :
      Result ReconcileError (Unit {0}) → Result ReconcileError (Unit {0}) → Action W (Unit {0})
  report (ok a) (ok b) = return tt
  report (ok a) (err e) = throw (cleanup_failed true false)
  report (err e) (ok b) = throw (cleanup_failed false true)
  report (err e) (err f) = throw (cleanup_failed false false)

  -- `cleanupResources`
  unfoldable pub cleanup_resources : X402Route → Action W (Unit {0})
  unfolding restore_step store_delete cleanup_external_name_service
  cleanup_resources route = do
    ingress_restored ← attempt (restore_step route)
    store_delete route.namespace route.name
    service_gone ← attempt (cleanup_external route)
    report ingress_restored service_gone
