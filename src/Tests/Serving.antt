-- ===== src/Tests/Serving.antt =====
-- internal/gateway/handler.go on concrete requests.
use mathlib.Core.List.{Permᴰ, cons-ne-nil}
use x402_k8s_operator.Base.{◌≡◌, refl, sym, ap, ◌∙◌}
use x402_k8s_operator.Base.Text.{to_lower}
use x402_k8s_operator.Base.{◌≢◌, ◌↔◌, ◌⊎◌, inl, inr, true, false}
use x402_k8s_operator.Base.{some, [], ◌∷◌}
use x402_k8s_operator.Base.{str, ◌==◌, if◌then◌else◌}
use x402_k8s_operator.Gateway.Handler.Legacy.{with_header, serve_http-legacy}
use x402_k8s_operator.Base.{All}
use x402_k8s_operator.Routestore.{CompiledRule, CompiledRoute}
use x402_k8s_operator.Gateway.Request.{Request}
use x402_k8s_operator.Gateway.Matching.{match_path}
use x402_k8s_operator.Gateway.Matching.Spec.{Matches}
use x402_k8s_operator.Gateway.Matching.Decides.{match_path_iff}
use x402_k8s_operator.Gateway.Proxy.{http_error, payment_required, proxied, proxy_to_backend}
use x402_k8s_operator.Gateway.Payment.Facilitator.{payment_header, verify_and_settle}
use x402_k8s_operator.Gateway.Proxy.{find_backend}
use x402_k8s_operator.Gateway.Conditions.{evaluate_conditions}
use x402_k8s_operator.Gateway.Handler.{Env, strip_port, serve_rule, serve_http, charge}
use x402_k8s_operator.Gateway.Handler.Selection.{Takes, Selects, FirstRule, serve_http_unique}
use x402_k8s_operator.Gateway.Handler.Authorised.{IsWaived, HasPaid}
use x402_k8s_operator.Gateway.Handler.Branches.{not_found}
use x402_k8s_operator.Gateway.Handler.Guarantees.{
  serve_http_authorised, serve_http-not_found_iff, serve_http_calls, serve_http_charged_unserved,
}
use x402_k8s_operator.Tests.Payment.{
  paying, read_price, test_route, test_request, test_codecs, test_facilitator, test_settled,
  test_requirements,
}

unfoldable pub serving : Unit {0}
unfolding paying serve_http payment_header match_path find_backend proxy_to_backend
    evaluate_conditions charge
serving = tt

abbrev pub test_env : Env
test_env = record {
  codecs = test_codecs;
  facilitator = test_facilitator;
  set_string = read_price;
  parses_as_float = λ s. true;
  url_is_valid = λ s. true;
  by_pattern = λ route. route.backends;
  fallback = λ route. route.backends;
}

abbrev pub paid_rule : CompiledRule
paid_rule = record {
  path = str "/api/*";
  price = str "0.001";
  free = false;
  mode = str "all-pay";
  conditions = [];
}

abbrev pub shop : CompiledRoute
shop = record test_route {
  hosts = str "Shop.example" ∷ [];
  rules = paid_rule ∷ [];
  backends = (str "/api", str "http://a:80") ∷ [];
}

abbrev other_shop : CompiledRoute
other_shop = record shop { hosts = str "other.example" ∷ [] }

abbrev shop_without_backend : CompiledRoute
shop_without_backend = record shop { backends = [] }

paid_request_is_served :
    (serve_http test_env test_request (other_shop ∷ shop ∷ [])).reply
    ≡ proxied (some (str "0x1")) (str "http://a:80")
unfolding serving
paid_request_is_served = refl

unpaid_request_is_refused :
    (serve_http test_env (record test_request { header = λ name. [] }) (shop ∷ [])).reply
    ≡ payment_required (str "{}") (str "{}")
unfolding serving
unpaid_request_is_refused = refl

serve_http_authorised_example :
    (route : CompiledRoute) × (rule : CompiledRule) × Selects
      (strip_port test_request.host)
      test_request.url_path
      (other_shop ∷ shop ∷ [])
      route
      rule
    × ((rule.free ≡ true) ⊎ (IsWaived test_request rule ⊎ HasPaid test_env test_request route rule))
serve_http_authorised_example =
    serve_http_authorised test_env test_request (other_shop ∷ shop ∷ []) (str "http://a:80")
      (some (str "0x1")) paid_request_is_served

serve_http-not_found_iff_example :
    ((serve_http test_env test_request (other_shop ∷ [])).reply ≡ not_found)
    ↔ All
        (λ route.
          (rule : CompiledRule)
          → ¬ Takes (strip_port test_request.host) test_request.url_path route rule)
        (other_shop ∷ [])
serve_http-not_found_iff_example = serve_http-not_found_iff test_env test_request (other_shop ∷ [])

serve_http_calls_example :
    (route : CompiledRoute) × (rule : CompiledRule) × Selects
      (strip_port test_request.host)
      test_request.url_path
      (shop ∷ [])
      route
      rule
    × (rule.free ≡ false)
    × (¬ IsWaived test_request rule)
    × (payment_header test_request ≢ [])
unfolding serving
serve_http_calls_example = serve_http_calls test_env test_request (shop ∷ []) (cons-ne-nil _ _)

pub rule_fits : Matches (str "/api/*") (str "/api/test")
unfolding match_path
rule_fits = (match_path_iff (str "/api/*") (str "/api/test")).0 refl

Takes-shop : Takes (strip_port test_request.host) test_request.url_path shop paid_rule
unfolding serving to_lower
Takes-shop = (inr (str "Shop.example", inl refl, refl), FirstRule.here paid_rule rule_fits)

passes_other :
    (o : CompiledRule) → ¬ Takes (strip_port test_request.host) test_request.url_path other_shop o
unfolding serving to_lower
passes_other o t = elim (t.0) [
  | inl e ↦ cc e
  | inr (h, inl e, same) ↦ cc (ap to_lower (sym e) ∙ same)
  | inr (h, inr m, _) ↦ absurd m
]

serve_http_unique_example :
    serve_http test_env test_request (shop ∷ other_shop ∷ [])
    ≡ serve_rule test_env test_request shop paid_rule
serve_http_unique_example =
    serve_http_unique test_env test_request (other_shop ∷ shop ∷ []) (shop ∷ other_shop ∷ []) shop
      paid_rule (Permᴰ.swap refl refl) (inr (inl refl)) Takes-shop
      (inr passes_other, (inl refl, tt))

Takes-bare :
    Takes (strip_port test_request.host) test_request.url_path shop_without_backend paid_rule
unfolding serving to_lower
Takes-bare = (inr (str "Shop.example", inl refl, refl), FirstRule.here paid_rule rule_fits)

not-IsWaived : ¬ IsWaived test_request paid_rule
not-IsWaived (mode, w) = elim w [ ]

serve_http_charged_unserved_example :
    ((serve_http test_env test_request (shop_without_backend ∷ [])).reply
      ≡ http_error 502 (str "no backend configured"))
    × ((serve_http test_env test_request (shop_without_backend ∷ [])).calls
        ≡ (verify_and_settle test_codecs test_facilitator
            (payment_header test_request)
            test_requirements
            (str "https://f.example/")).calls)
unfolding serving
serve_http_charged_unserved_example =
    serve_http_charged_unserved test_env test_request (shop_without_backend ∷ [])
      shop_without_backend paid_rule test_requirements test_settled
      (Selects.here shop_without_backend Takes-bare) refl not-IsWaived (cons-ne-nil _ _) refl refl
      refl Permᴰ.nil Permᴰ.nil

-- A path without a rule gets 404, also where an Ingress sends all of its paths to the gateway.
unlisted_path_is_refused :
    (serve_http test_env (record test_request { url_path = str "/web" }) (shop ∷ [])).reply
    ≡ not_found
unfolding serving
unlisted_path_is_refused = refl

-- The payment of `test_request` under the older name.
abbrev legacy_request : Request
legacy_request = record test_request {
  header = λ name. if name == str "X-Payment" then str "paid" else [];
}

unsigned : legacy_request.header (str "Payment-Signature") ≡ []
unfolding ◌==◌
unsigned = refl

has_legacy : legacy_request.header (str "X-Payment") ≡ str "paid"
unfolding ◌==◌
has_legacy = refl

is_moved : test_request.header (str "Payment-Signature") ≡ legacy_request.header (str "X-Payment")
unfolding ◌==◌
is_moved = refl

serve_http-legacy_example :
    serve_http test_env (with_header test_request.header legacy_request) (shop ∷ [])
    ≡ serve_http test_env legacy_request (shop ∷ [])
serve_http-legacy_example =
    serve_http-legacy test_env legacy_request test_request.header (shop ∷ []) shop paid_rule
      (Selects.here shop Takes-shop) unsigned (λ e. cc (sym has_legacy ∙ e)) is_moved tt
