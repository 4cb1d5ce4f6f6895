-- ===== src/Gateway/Handler/Legacy.antt =====
-- internal/gateway/payment.go: `getPaymentHeader`, as `ServeHTTP` of handler.go uses it.
use x402_k8s_operator.Base.{◌≡◌, ◌≢◌, refl, sym, ◌∙◌, List, [], ◌∷◌, Str, str, All, arith}
use x402_k8s_operator.Routestore.{CompiledCondition, CompiledRule, CompiledRoute}
use x402_k8s_operator.Gateway.Request.{Request}
use x402_k8s_operator.Gateway.Conditions.{evaluate_conditions}
use x402_k8s_operator.Gateway.Payment.Facilitator.{payment_header}
use x402_k8s_operator.Gateway.Payment.Requirements.{build_payment_requirements}
use x402_k8s_operator.Gateway.Handler.{
  Env, strip_port, write_payment_required, charge, serve_rule, serve_http,
}
use x402_k8s_operator.Gateway.Handler.Authorised.{is_empty_of_ne}
use x402_k8s_operator.Gateway.Handler.Selection.{Selects, serve_routes_selected}

abbrev pub with_header : (Str → Str) → Request → Request
with_header header r = record r { header = header }

module _ (r : Request) (header : Str → Str) where
  -- The payment under the older name, and the same one under the newer name.
  pub payment_header-legacy :
      r.header (str "Payment-Signature") ≡ []
      → r.header (str "X-Payment") ≢ []
      → header (str "Payment-Signature") ≡ r.header (str "X-Payment")
      → payment_header (with_header header r) ≡ payment_header r
  unfolding payment_header
  payment_header-legacy unsigned some_payment moved =
      rw (unsigned, moved, is_empty_of_ne some_payment)

  evaluate_conditions-header :
      (conditions : List CompiledCondition)
      → All (λ cond. header cond.header ≡ r.header cond.header) conditions
      → evaluate_conditions (with_header header r) conditions ≡ evaluate_conditions r conditions
  unfolding evaluate_conditions
  evaluate_conditions-header [] same = refl
  evaluate_conditions-header (cond ∷ conditions) (same, others) =
      rw (same, evaluate_conditions-header conditions others)

  charge-header :
      (env : Env) (route : CompiledRoute) (rule : CompiledRule)
      → payment_header (with_header header r) ≡ payment_header r
      → charge env (with_header header r) route rule ≡ charge env r route rule
  unfolding charge write_payment_required build_payment_requirements
  charge-header env route rule same = ground (arith, same)

  serve_rule-header :
      (env : Env) (route : CompiledRoute) (rule : CompiledRule)
      → payment_header (with_header header r) ≡ payment_header r
      → All (λ cond. header cond.header ≡ r.header cond.header) rule.conditions
      → serve_rule env (with_header header r) route rule ≡ serve_rule env r route rule
  unfolding serve_rule
  serve_rule-header env route rule same conditions =
      rw (evaluate_conditions-header rule.conditions conditions, charge-header env route rule same)

-- A payment under "X-Payment", without one under "Payment-Signature", is as good as one under the
-- newer name: the request with that payment under the newer name leads to the same metrics, the same
-- calls and the same reply, where the conditions of the selected rule read the same of both.
pub serve_http-legacy :
    (env : Env) (r : Request) (header : Str → Str) (routes : List CompiledRoute)
    (route : CompiledRoute) (rule : CompiledRule)
    → Selects (strip_port r.host) r.url_path routes route rule
    → r.header (str "Payment-Signature") ≡ []
    → r.header (str "X-Payment") ≢ []
    → header (str "Payment-Signature") ≡ r.header (str "X-Payment")
    → All (λ cond. header cond.header ≡ r.header cond.header) rule.conditions
    → serve_http env (with_header header r) routes ≡ serve_http env r routes
unfolding serve_http
serve_http-legacy env r header routes route rule selected unsigned some_payment moved conditions =
    serve_routes_selected env (with_header header r) (strip_port r.host) routes route rule selected
    ∙ serve_rule-header r header env route rule
        (payment_header-legacy r header unsigned some_payment moved) conditions
    ∙ sym (serve_routes_selected env r (strip_port r.host) routes route rule selected)
