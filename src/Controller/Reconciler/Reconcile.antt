-- ===== src/Controller/Reconciler/Reconcile.antt =====
-- internal/controller/x402route_controller.go: `Reconcile`, `ensureExternalNameService`,
-- `patchIngress`, `setCondition` and `updateStatus`.
use x402_k8s_operator.Base.{
  ℕ, [], ◌∷◌, ◌++◌, Option, none, some, Bool, true, false, Str, str, ◌==◌, if◌then◌else◌, Result,
  ok, err, length,
}
use x402_k8s_operator.Base.Table.{Table}
use x402_k8s_operator.Routestore.{CompiledRoute}
use x402_k8s_operator.Controller.Api.{X402Route}
use x402_k8s_operator.Controller.Compile.{CompileError, compile_route}
use x402_k8s_operator.Controller.Ingresses.{
  Ingress, gateway_port, external_svc_name, extract_backends,
}
use x402_k8s_operator.Controller.Ingresses.Patch.{patch_ingress}
use x402_k8s_operator.Controller.Reconciler.{◌>>=◌, ◌>>◌}
use x402_k8s_operator.Controller.Reconciler.{
  Fetched, found, not_found, failed, Service, Env, Action, ReconcileError, client_failed,
  compile_failed, marshal_failed, ingress_not_found, return, throw, attempt, change, read,
  store_set, ingress_namespace, finalizer_name,
}
use x402_k8s_operator.Controller.Reconciler.Cleanup.{cleanup_resources}

module _ {W : Type 0} (env : Env W) where
  -- `setCondition`
  abbrev pub set_condition : X402Route → Str → Bool → Str → Str → X402Route
  set_condition route kind status reason message = record route {
    status = record route.status {
      conditions = env.helpers.set_status_condition route.status.conditions (record {
        kind = kind;
        status = status;
        reason = reason;
        message = message;
        observed_generation = route.generation;
      });
    };
  }

  -- `updateStatus`, whose failure is only logged.
  abbrev pub update_status : X402Route → Bool → Bool → ℕ → Action W (Unit {0})
  update_status route ingress_patched ready active_routes s = (
    ok tt,
    record s {
      cluster =
          env.client.update_status
            (record route {
              status = record route.status {
                ingress_patched = ingress_patched;
                ready = ready;
                active_routes = active_routes;
              };
            })
            s.cluster;
    },
  )

  -- An error that the status reports.
  abbrev pub fail_with : X402Route → Str → Str → ℕ → ReconcileError → Action W (Unit {0})
  fail_with route kind reason active_routes e = do
    update_status (set_condition route kind false reason (env.error_text e)) false false
        active_routes
    throw e

  abbrev pub external_service : Service → Service
  external_service svc = record svc {
    labels = (str "app.kubernetes.io/managed-by", str "x402-operator") ∷ [];
    service_type = str "ExternalName";
    external_name =
        env.operator.svc_name ++ str "." ++ env.operator.namespace ++ str ".svc.cluster.local";
    selector = [];
    cluster_ip = [];
    ports = record { name = str "http"; port = gateway_port; protocol = str "TCP" } ∷ [];
  }

  -- `ensureExternalNameService`
  unfoldable pub ensure_external_name_service : Str → Action W (Unit {0})
  unfolding ◌==◌
  ensure_external_name_service namespace =
      if namespace == env.operator.namespace
      then return tt
      else change (env.client.create_or_update namespace external_svc_name external_service)

  abbrev pub update_patched : Option Ingress → Action W (Unit {0})
  update_patched none = throw marshal_failed
  update_patched (some ingress) = change (env.client.update_ingress ingress)

  -- `patchIngress`
  unfoldable pub patch_step : X402Route → Ingress → Action W (Unit {0})
  unfolding patch_ingress
  patch_step route ingress =
      update_patched (patch_ingress env.codec env.operator route.spec.routes ingress)

  -- Steps 4 and 5 of `Reconcile`, by the outcome of the patch.
  abbrev pub finish :
      X402Route → CompiledRoute → Result ReconcileError (Unit {0}) → Action W (Unit {0})
  finish route compiled (err e) =
      fail_with route (str "IngressPatched") (str "PatchError") (length compiled.rules) e
  finish route compiled (ok u) =
      let patched =
        set_condition route (str "IngressPatched") true (str "Reconciled")
          (str "Ingress patched for payment gating") in
      update_status
        (set_condition patched (str "Ready") true (str "Reconciled")
          (str "Route is active and serving traffic"))
        true true (length compiled.rules)

  -- Step 4, by the outcome of step 3.
  abbrev pub patch_ensured :
      X402Route → Ingress → CompiledRoute → Result ReconcileError (Unit {0}) → Action W (Unit {0})
  patch_ensured route ingress compiled (err e) =
      fail_with route (str "ExternalServiceReady") (str "ServiceError") (length compiled.rules) e
  patch_ensured route ingress compiled (ok u) = do
    patched ← attempt (patch_step route ingress)
    finish route compiled patched

  -- Step 2 and what follows, by the outcome of the compilation.
  abbrev pub serve_compiled :
      X402Route → Ingress → Result CompileError CompiledRoute → Action W (Unit {0})
  serve_compiled route ingress (err e) =
      fail_with route (str "Ready") (str "CompileError") 0 (compile_failed e)
  serve_compiled route ingress (ok compiled) = do
    store_set route.namespace route.name compiled
    ensured ← attempt (ensure_external_name_service (ingress_namespace route))
    patch_ensured route ingress compiled ensured

  abbrev pub serve_extracted : X402Route → Table Str × Ingress → Action W (Unit {0})
  serve_extracted route (backends, ingress) =
      serve_compiled route ingress (compile_route env.parsers route backends ingress)

  -- Step 1, by the outcome of the read.
  abbrev pub with_ingress : X402Route → Fetched Ingress → Action W (Unit {0})
  with_ingress route not_found =
      fail_with route (str "IngressPatched") (str "IngressNotFound") 0 ingress_not_found
  with_ingress route (failed e) =
      fail_with route (str "IngressPatched") (str "IngressNotFound") 0 (client_failed e)
  with_ingress route (found ingress) = serve_extracted route (extract_backends env.codec ingress)

  abbrev pub ensure_finalizer : X402Route → Action W X402Route
  ensure_finalizer route =
      if env.helpers.contains_finalizer route.finalizers finalizer_name
      then return route
      else change (
          env.client.update_route (record route {
            finalizers = env.helpers.add_finalizer route.finalizers finalizer_name;
          }))

  -- A route that is not being deleted.
  unfoldable pub reconcile_live : X402Route → Action W (Unit {0})
  unfolding store_set ensure_external_name_service patch_step compile_route extract_backends
  reconcile_live route = do
    kept ← ensure_finalizer route
    fetched ← read (env.client.get_ingress (ingress_namespace kept) kept.spec.ingress_ref.name)
    with_ingress kept fetched

  abbrev pub without_finalizer : X402Route → X402Route
  without_finalizer route = record route {
    finalizers = env.helpers.remove_finalizer route.finalizers finalizer_name;
  }

  abbrev pub release : X402Route → Action W (Unit {0})
  release route = do updated ← change (env.client.update_route (without_finalizer route)); return tt

  -- The clean-up, and the release of the route only behind it.
  abbrev pub clean_and_release : X402Route → Action W (Unit {0})
  clean_and_release route = do cleanup_resources env route; release route

  -- A route that is being deleted.
  unfoldable pub finalize : X402Route → Action W (Unit {0})
  unfolding cleanup_resources
  finalize route =
      if env.helpers.contains_finalizer route.finalizers finalizer_name
      then clean_and_release route
      else return tt

  abbrev pub reconcile_fetched : Fetched X402Route → Action W (Unit {0})
  reconcile_fetched not_found = return tt
  reconcile_fetched (failed e) = throw (client_failed e)
  reconcile_fetched (found route) =
      if route.is_deleting then finalize route else reconcile_live route

  -- `Reconcile`
  unfoldable pub reconcile : Str → Str → Action W (Unit {0})
  unfolding finalize reconcile_live
  reconcile namespace name = do
    fetched ← read (env.client.get_route namespace name)
    reconcile_fetched fetched
