-- ===== src/Tests/Integrating.antt =====
-- A request to the gateway on what a run of the controller stored.
use x402_k8s_operator.Base.{refl, inl, List, [], ◌∷◌, str, Elem}
use x402_k8s_operator.Base.Decimal.{show_ℤ}
use x402_k8s_operator.Routestore.{CompiledRoute, snapshot}
use x402_k8s_operator.Gateway.Payment.Facilitator.{Call}
use x402_k8s_operator.Gateway.Handler.{serve_http}
use x402_k8s_operator.Gateway.Handler.Calls.{GoesTo}
use x402_k8s_operator.Controller.Ingresses.{resolve_backend_port}
use x402_k8s_operator.Controller.Reconciler.Consistent.{IsValidated}
use x402_k8s_operator.Integration.{Event, reconciled, run_events, serve_http-IsValidated}
use x402_k8s_operator.Tests.Payment.{test_request}
use x402_k8s_operator.Tests.Serving.{serving, test_env}
use x402_k8s_operator.Tests.Patching.{encode, decode}
use x402_k8s_operator.Tests.Compiling.{parsers}
use x402_k8s_operator.Tests.Reconciling.{Cluster, env, initial, fetch, contains}

abbrev events : List (Event Cluster)
events = reconciled (str "default") (str "shop") ∷ []

abbrev first_call : Call
first_call = record { url = str "https://x402.org/facilitator/verify"; body = str "paid" }

is_called :
    Elem first_call
      (serve_http test_env test_request
        (snapshot (run_events env initial.cluster events).store)).calls
unfolding serving run_events snapshot fetch contains encode decode show_ℤ resolve_backend_port
is_called = inl refl

serve_http-IsValidated_example :
    (route : CompiledRoute) × Elem route (snapshot (run_events env initial.cluster events).store)
    × GoesTo route first_call
    × IsValidated parsers route
serve_http-IsValidated_example =
    serve_http-IsValidated env initial.cluster test_env test_request events first_call is_called
