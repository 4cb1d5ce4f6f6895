-- ===== src/Integration/Paying/Charged.antt =====
-- The gateway of internal/gateway on a paid route, without the client's payment and with it.
use x402_k8s_operator.Base.{
  ◌≡◌, sym, ◌∙◌, ◌≢◌, inl, inr, true, false, Option, none, some, List, [], Str, str, ==_ne, ok,
}
use x402_k8s_operator.Routestore.{CompiledRule, CompiledRoute}
use x402_k8s_operator.Gateway.Request.{Request}
use x402_k8s_operator.Gateway.Proxy.{find_backend, payment_required, proxied, proxy_to_backend}
use x402_k8s_operator.Gateway.Payment.Requirements.{PaymentRequirements, build_payment_requirements}
use x402_k8s_operator.Gateway.Payment.Facilitator.{
  SettleResponse, payment_header, verify_and_settle,
}
use x402_k8s_operator.Gateway.Handler.{Env, strip_port, write_payment_required, charge, serve_http}
use x402_k8s_operator.Gateway.Handler.Selection.{Selects, serve_routes_selected}
use x402_k8s_operator.Gateway.Handler.Authorised.{IsWaived, serve_rule_cases, is_empty_of_ne}
use x402_k8s_operator.Gateway.Handler.Branches.{charge_settled}
use x402_k8s_operator.Gateway.Server.{handled, Redirect, serve_mux}

module _ (env : Env) (r : Request) (routes : List CompiledRoute) (route : CompiledRoute)
    (rule : CompiledRule) where
  pub charged :
      Selects (strip_port r.host) r.url_path routes route rule
      → rule.free ≡ false
      → ¬ IsWaived r rule
      → serve_http env r routes ≡ charge env r route rule
  unfolding serve_http
  charged selected priced not_waived =
      serve_routes_selected env r (strip_port r.host) routes route rule selected
      ∙ elim (serve_rule_cases env r route rule) [
        | inl (free, _) ↦ absurd (cc (sym free ∙ priced))
        | inr (inl (_, waived, _)) ↦ absurd (not_waived waived)
        | inr (inr (_, _, e)) ↦ e
      ]

  pub demanded :
      (reqs : PaymentRequirements) (json : Str)
      → payment_header r ≡ []
      → build_payment_requirements env.set_string r route rule.price ≡ ok reqs
      → env.codecs.marshal_requirements reqs ≡ some json
      → (charge env r route rule).reply ≡ payment_required (env.codecs.base64_encode json) json
  unfolding charge write_payment_required
  demanded reqs json unpaid built encoded = rw (unpaid, built, encoded, write_payment_required)

  pub served :
      (reqs : PaymentRequirements) (s : SettleResponse) (target : Str)
      → payment_header r ≢ []
      → build_payment_requirements env.set_string r route rule.price ≡ ok reqs
      → (verify_and_settle env.codecs env.facilitator
          (payment_header r)
          reqs
          route.facilitator_url).result
        ≡ ok s
      → find_backend route.backends r.url_path (env.by_pattern route) (env.fallback route) ≡ target
      → target ≢ []
      → env.url_is_valid target ≡ true
      → (p : Option Str) × ((charge env r route rule).reply ≡ proxied p target)
  unfolding proxy_to_backend
  served reqs s target paid built settles chosen some_target valid =
      let (_, (p, reply)) = charge_settled env r route rule reqs s paid built settles in
      (p, reply ∙ rw (chosen, is_empty_of_ne some_target, valid))

pub answered :
    (redirect : Redirect) (env : Env) (r : Request) (routes : List CompiledRoute)
    → redirect r ≡ none
    → r.url_path ≢ str "/healthz"
    → serve_mux redirect env r routes ≡ handled (serve_http env r routes)
unfolding serve_mux
answered redirect env r routes stays other =
    rw (stays, ==_ne r.url_path (str "/healthz") other, serve_mux)
