-- ===== src/Gateway/Handler.antt =====
-- internal/gateway/handler.go, with `writePaymentRequired` of payment.go. A request is served from
-- one snapshot of the store. Log lines and measured times are left out.
pub mod Selection
pub mod Authorised
pub mod Branches
pub mod Calls
pub mod Guarantees
pub mod Legacy
use x402_k8s_operator.Base.{Bool, true, false, not, ◌&&◌, ◌||◌}
use x402_k8s_operator.Base.{Option, none, some, List, [], ◌∷◌, ◌++◌, map}
use x402_k8s_operator.Base.{Str, str, ◌==◌, if◌then◌else◌}
use x402_k8s_operator.Base.{ok, err}
use mathlib.Core.Option
use x402_k8s_operator.Base.Text.{is_empty, before_last, equal_fold}
use x402_k8s_operator.Base.Table.{Table}
use x402_k8s_operator.Routestore.{CompiledRule, CompiledRoute}
use x402_k8s_operator.Gateway.Request.{Request}
use x402_k8s_operator.Gateway.Matching.{match_path}
use x402_k8s_operator.Gateway.Conditions.{evaluate_conditions}
use x402_k8s_operator.Gateway.Proxy.{Reply, http_error, payment_required, proxy_to_backend}
use x402_k8s_operator.Gateway.Payment.Units.{Rat}
use x402_k8s_operator.Gateway.Payment.Requirements.{build_payment_requirements}
use x402_k8s_operator.Gateway.Payment.Facilitator.{
  SettleResponse, Codecs, Facilitator, Call, Steps, payment_header, verify_and_settle,
}

-- The updates of internal/metrics/metrics.go that a request makes. The price of `amount_added`
-- stands for the float that it parses to.
pub data Metric : Type 0 where
  request_counted : (path namespace route_name payment_status : Str) → Metric
  amount_added : (path wallet network price : Str) → Metric
  verification_observed proxy_observed : Metric

-- What the handler works with: the libraries, the facilitator, and the orders in which the two
-- loops over the backends of a route meet its entries.
pub record Env : Type 0 where
  pub codecs : Codecs
  pub facilitator : Facilitator
  pub set_string : Str → Option Rat
  pub parses_as_float : Str → Bool
  pub url_is_valid : Str → Bool
  pub by_pattern : CompiledRoute → Table Str
  pub fallback : CompiledRoute → Table Str

-- What a request leads to: the metrics, the calls to the facilitator and the reply.
pub record Served : Type 0 where
  pub metrics : List Metric
  pub calls : List Call
  pub reply : Reply

-- The host without its port.
unfoldable pub strip_port : Str → Str
unfolding before_last
strip_port host = before_last host b':'

unfoldable pub any_host : Str → List Str → Bool
unfolding equal_fold
any_host host [] = false
any_host host (rh ∷ hosts) = equal_fold rh host || any_host host hosts

-- `matchesHost`
unfoldable pub matches_host : Str → CompiledRoute → Bool
unfolding any_host
matches_host host route = if is_empty route.hosts then true else any_host host route.hosts

unfoldable pub first_rule : Str → List CompiledRule → Option CompiledRule
first_rule path [] = none
first_rule path (rule ∷ rules) =
    if match_path rule.path path then some rule else first_rule path rules

-- `findMatchingRule`
unfoldable pub find_matching_rule : Str → CompiledRoute → Option CompiledRule
unfolding first_rule
find_matching_rule path route = first_rule path route.rules

module _ (env : Env) (r : Request) where
  abbrev proxy : CompiledRoute → Option Str → Reply
  proxy route payment_response =
      proxy_to_backend env.url_is_valid route r.url_path (env.by_pattern route) (env.fallback route)
        payment_response

  abbrev pub counted : CompiledRoute → Str → Metric
  counted route status = request_counted r.url_path route.namespace route.name status

  -- `writePaymentRequired`. The text of an error is left out of its page.
  unfoldable pub write_payment_required : CompiledRoute → Str → Reply
  write_payment_required route price =
      elim (build_payment_requirements env.set_string r route price) [
        | err e ↦ http_error 500 (str "failed to build payment requirements")
        | ok reqs ↦ elim (env.codecs.marshal_requirements reqs) [
          | none ↦ http_error 500 (str "failed to marshal payment requirements")
          | some resp_json ↦ payment_required (env.codecs.base64_encode resp_json) resp_json
        ]
      ]

  abbrev pub forward : CompiledRoute → Str → Served
  forward route status = record {
    metrics = counted route status ∷ proxy_observed ∷ [];
    calls = [];
    reply = proxy route none;
  }

  abbrev amount_metrics : CompiledRoute → Str → List Metric
  amount_metrics route price =
      if env.parses_as_float price
      then amount_added r.url_path route.wallet route.network price ∷ []
      else []

  -- The end of a paid request, behind `verifyAndSettlePayment`.
  abbrev after_settling : CompiledRoute → CompiledRule → Steps SettleResponse → Served
  after_settling route rule steps = elim steps.result [
    | err e ↦ record {
      metrics = verification_observed ∷ counted route (str "verification_error") ∷ [];
      calls = steps.calls;
      reply = write_payment_required route rule.price;
    }
    | ok settle_resp ↦ record {
      metrics =
          verification_observed
          ∷ counted route (str "payment_accepted")
          ∷ (amount_metrics route rule.price ++ proxy_observed ∷ []);
      calls = steps.calls;
      reply =
          proxy route (Option.map env.codecs.base64_encode (env.codecs.marshal_settle settle_resp));
    }
  ]

  -- Payment is required.
  unfoldable pub charge : CompiledRoute → CompiledRule → Served
  unfolding write_payment_required
  charge route rule =
      let header = payment_header r in
      if is_empty header
      then record {
        metrics = counted route (str "payment_required") ∷ [];
        calls = [];
        reply = write_payment_required route rule.price;
      }
      else elim (build_payment_requirements env.set_string r route rule.price) [
        | err e ↦ record {
          metrics = [];
          calls = [];
          reply = http_error 500 (str "internal error building payment requirements");
        }
        | ok payment_reqs ↦
            after_settling route rule (
              verify_and_settle env.codecs env.facilitator header payment_reqs
                route.facilitator_url)
      ]

  -- The body of the loop of `ServeHTTP`, behind the choice of the route and the rule.
  unfoldable pub serve_rule : CompiledRoute → CompiledRule → Served
  unfolding charge
  serve_rule route rule =
      if rule.free
      then forward route (str "free")
      else if rule.mode == str "conditional" && not (is_empty rule.conditions)
      then if not (evaluate_conditions r rule.conditions)
        then forward route (str "conditional_free")
        else charge route rule
      else charge route rule

  unfoldable pub serve_routes : Str → List CompiledRoute → Served
  unfolding matches_host find_matching_rule
  serve_routes host [] = record {
    metrics = [];
    calls = [];
    reply = http_error 404 (str "no x402 route configured for this path");
  }
  serve_routes host (route ∷ routes) =
      let rest = serve_routes host routes in
      if not (matches_host host route) then rest else elim (find_matching_rule r.url_path route) [
        | none ↦ rest
        | some rule ↦ serve_rule route rule
      ]

  -- `ServeHTTP`, on a snapshot of the store.
  unfoldable pub serve_http : List CompiledRoute → Served
  unfolding serve_routes serve_rule strip_port
  serve_http routes = serve_routes (strip_port r.host) routes
