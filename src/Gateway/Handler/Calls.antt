-- ===== src/Gateway/Handler/Calls.antt =====
-- Where the handler's calls to a facilitator go.
use mathlib.Core.Path.{subst}
use x402_k8s_operator.Base.{
  ◌≡◌, refl, ap, ◌∙◌, ◌⊎◌, inl, inr, List, [], ◌∷◌, ◌++◌, Str, str, Elem, Bool-cases, Result-cases,
}
use x402_k8s_operator.Base.Text.{is_empty, trim_right}
use x402_k8s_operator.Routestore.{CompiledRule, CompiledRoute}
use x402_k8s_operator.Gateway.Request.{Request}
use x402_k8s_operator.Gateway.Payment.Requirements.{PaymentRequirements, build_payment_requirements}
use x402_k8s_operator.Gateway.Payment.Facilitator.{Call, payment_header, verify_and_settle}
use x402_k8s_operator.Gateway.Payment.Facilitator.Settlement.{verify_and_settle-calls}
use x402_k8s_operator.Gateway.Handler.{Env, strip_port, charge, serve_rule, serve_http}
use x402_k8s_operator.Gateway.Handler.Selection.{Selects, select_or_none, serve_routes_selected}
use x402_k8s_operator.Gateway.Handler.Authorised.{serve_rule_cases}
use x402_k8s_operator.Gateway.Handler.Branches.{none_served, uncharged}

-- The call goes to one of the two endpoints of the route's facilitator.
abbrev pub GoesTo : CompiledRoute → Call → Type 0
GoesTo route call =
    (call.url ≡ trim_right route.facilitator_url b'/' ++ str "/verify")
    ⊎ (call.url ≡ trim_right route.facilitator_url b'/' ++ str "/settle")

Elem-of_Selects :
    (host path : Str) (routes : List CompiledRoute) (route : CompiledRoute) (rule : CompiledRule)
    → Selects host path routes route rule
    → Elem route routes
Elem-of_Selects host path [] route rule s = elim s [ ]
Elem-of_Selects host path (_ ∷ routes) route rule (Selects.here _ t) = inl refl
Elem-of_Selects host path (other ∷ routes) route rule (Selects.later _ passed s) =
    inr (Elem-of_Selects host path routes route rule s)

module _ (env : Env) (r : Request) where
  verify_and_settle-GoesTo :
      (route : CompiledRoute) (reqs : PaymentRequirements) (call : Call)
      → Elem call
          (verify_and_settle env.codecs env.facilitator
            (payment_header r)
            reqs
            route.facilitator_url).calls
      → GoesTo route call
  verify_and_settle-GoesTo route reqs call m =
      elim (verify_and_settle-calls env.codecs env.facilitator (payment_header r) reqs
        route.facilitator_url) [
          | inl none ↦ absurd (rw none at m)
          | inr (body, _, inl once) ↦ elim (rw once at m) [
            | inl e ↦ inl (ap (λ c. c.url) e)
            | inr m' ↦ absurd m'
          ]
          | inr (body, _, inr (twice, _)) ↦ elim (rw twice at m) [
            | inl e ↦ inl (ap (λ c. c.url) e)
            | inr (inl e) ↦ inr (ap (λ c. c.url) e)
            | inr (inr m') ↦ absurd m'
          ]
        ]

  charge-GoesTo :
      (route : CompiledRoute) (rule : CompiledRule) (call : Call)
      → Elem call (charge env r route rule).calls
      → GoesTo route call
  unfolding charge
  charge-GoesTo route rule call m = elim (Bool-cases (is_empty (payment_header r))) [
    | inl no_header ↦ absurd (rw (uncharged env r route rule no_header) at m)
    | inr has_header ↦
        elim (Result-cases (build_payment_requirements env.set_string r route rule.price)) [
          | inr (e, bad) ↦ absurd (rw (charge, has_header, bad) at m)
          | inl (reqs, good) ↦
              elim (Result-cases
                (verify_and_settle env.codecs env.facilitator (payment_header r) reqs
                  route.facilitator_url).result) [
                    | inr (e, bad) ↦
                        verify_and_settle-GoesTo route reqs call
                          (rw (charge, has_header, good, bad) at m)
                    | inl (s, settled) ↦
                        verify_and_settle-GoesTo route reqs call
                          (rw (charge, has_header, good, settled) at m)
                  ]
        ]
  ]

  serve_rule-GoesTo :
      (route : CompiledRoute) (rule : CompiledRule) (call : Call)
      → Elem call (serve_rule env r route rule).calls
      → GoesTo route call
  serve_rule-GoesTo route rule call m = elim (serve_rule_cases env r route rule) [
    | inl (_, e) ↦ absurd (rw e at m)
    | inr (inl (_, _, e)) ↦ absurd (rw e at m)
    | inr (inr (_, _, e)) ↦ charge-GoesTo route rule call (rw e at m)
  ]

  -- Every call goes to the facilitator of a route of the snapshot.
  pub serve_http-GoesTo :
      (routes : List CompiledRoute) (call : Call)
      → Elem call (serve_http env r routes).calls
      → (route : CompiledRoute) × Elem route routes × GoesTo route call
  unfolding serve_http
  serve_http-GoesTo routes call m = elim (select_or_none env r (strip_port r.host) routes) [
    | inr (_, e) ↦
        absurd (subst (λ x. Elem call x.calls) (e ∙ none_served env r (strip_port r.host)) m)
    | inl (route, rule, s) ↦ (
      route,
      Elem-of_Selects (strip_port r.host) r.url_path routes route rule s,
      serve_rule-GoesTo route rule call (
          subst (λ x. Elem call x.calls)
            (serve_routes_selected env r (strip_port r.host) routes route rule s) m),
    )
  ]
