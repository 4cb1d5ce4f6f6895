-- ===== src/Gateway/Handler/Guarantees.antt =====
-- What the gateway guarantees of every request.
use mathlib.Core.List.{Permᴰ}
use x402_k8s_operator.Base.{◌≡◌, sym, ap, ◌∙◌}
use x402_k8s_operator.Base.{◌≢◌, ◌↔◌, ◌⊎◌, inl, inr, true, false}
use x402_k8s_operator.Base.{Option, none, List, []}
use x402_k8s_operator.Base.{Str, str}
use x402_k8s_operator.Base.{All, ok}
use x402_k8s_operator.Base.Table.{Table}
use x402_k8s_operator.Routestore.{CompiledRule, CompiledRoute}
use x402_k8s_operator.Gateway.Request.{Request}
use x402_k8s_operator.Gateway.Proxy.{http_error, proxied}
use x402_k8s_operator.Gateway.Payment.Requirements.{PaymentRequirements, build_payment_requirements}
use x402_k8s_operator.Gateway.Payment.Facilitator.{
  SettleResponse, payment_header, verify_and_settle,
}
use x402_k8s_operator.Base.Reorder.{reorder_nil}
use x402_k8s_operator.Gateway.Handler.{
  Env, strip_port, charge, serve_rule, serve_routes, serve_http,
}
use x402_k8s_operator.Gateway.Handler.Selection.{
  Takes, Selects, serve_routes_selected, select_or_none,
}
use x402_k8s_operator.Gateway.Handler.Authorised.{
  IsWaived, HasPaid, charge_cases, demand-ne-http_error, proxy_to_backend-ne-404, rule_authorised,
  serve_rule_cases,
}
use x402_k8s_operator.Gateway.Handler.Branches.{
  not_found, not_selected, none_served, uncharged, charge_settled, proxy_to_nothing,
}

module _ (env : Env) (r : Request) (routes : List CompiledRoute) where
  -- A request is handed to a backend only if a route and a rule of the snapshot are selected for
  -- it, and the rule is free, or its conditions waive payment, or the request carries a payment for
  -- the price of the rule that the facilitator of the route verified and settled.
  pub serve_http_authorised :
      (target : Str) (p : Option Str)
      → (serve_http env r routes).reply ≡ proxied p target
      → (route : CompiledRoute) × (rule : CompiledRule) × Selects
          (strip_port r.host)
          r.url_path
          routes
          route
          rule
        × ((rule.free ≡ true) ⊎ (IsWaived r rule ⊎ HasPaid env r route rule))
  unfolding serve_http
  serve_http_authorised target p h = elim (select_or_none env r (strip_port r.host) routes) [
    | inl (route, rule, s) ↦ (
      route,
      rule,
      s,
      rule_authorised env r route rule target p
          (ap (λ x. x.reply) (sym (serve_routes_selected env r _ routes route rule s)) ∙ h),
    )
    | inr (_, e) ↦ cc (ap (λ x. x.reply) (sym (none_served env r (strip_port r.host)) ∙ sym e) ∙ h)
  ]

  rule-ne-404 :
      (route : CompiledRoute) (rule : CompiledRule)
      → (serve_rule env r route rule).reply ≢ not_found
  rule-ne-404 route rule h =
      let no_proxy : (p : Option Str) → _ = λ p.
        proxy_to_backend-ne-404 env r route (env.by_pattern route) (env.fallback route) p
          (str "no x402 route configured for this path") in
      elim (serve_rule_cases env r route rule) [
        | inl (_, e) ↦ no_proxy none (ap (λ x. x.reply) (sym e) ∙ h)
        | inr (inl (_, _, e)) ↦ no_proxy none (ap (λ x. x.reply) (sym e) ∙ h)
        | inr (inr (_, _, e)) ↦ elim (charge_cases env r route rule) [
          | inl demand ↦ demand-ne-http_error env r _ demand (ap (λ x. x.reply) (sym e) ∙ h)
          | inr (_, (p, e')) ↦ no_proxy p (sym e' ∙ ap (λ x. x.reply) (sym e) ∙ h)
        ]
      ]

  -- The gateway answers that no route is configured exactly when no route of the snapshot takes the
  -- request.
  pub serve_http-not_found_iff :
      ((serve_http env r routes).reply ≡ not_found)
      ↔ All
          (λ route. (rule : CompiledRule) → ¬ Takes (strip_port r.host) r.url_path route rule)
          routes
  unfolding serve_http
  serve_http-not_found_iff = (
    λ h. elim (select_or_none env r (strip_port r.host) routes) [
      | inl (route, rule, s) ↦ absurd (
          rule-ne-404 route rule
            (ap (λ x. x.reply) (sym (serve_routes_selected env r _ routes route rule s)) ∙ h))
      | inr (none_take, _) ↦ none_take
    ],
    λ none_take. elim (select_or_none env r (strip_port r.host) routes) [
      | inl (route, rule, s) ↦
          absurd (not_selected (strip_port r.host) r.url_path routes route rule none_take s)
      | inr (_, e) ↦ ap (λ x. x.reply) (e ∙ none_served env r (strip_port r.host))
    ],
  )

  -- The facilitator is called only for a request that has a payment header, where the selected rule
  -- is not free and its conditions do not waive payment.
  pub serve_http_calls :
      (serve_http env r routes).calls ≢ []
      → (route : CompiledRoute) × (rule : CompiledRule) × Selects
          (strip_port r.host)
          r.url_path
          routes
          route
          rule
        × (rule.free ≡ false)
        × (¬ IsWaived r rule)
        × (payment_header r ≢ [])
  unfolding serve_http
  serve_http_calls h = elim (select_or_none env r (strip_port r.host) routes) [
    | inr (_, e) ↦ absurd (h (ap (λ x. x.calls) (e ∙ none_served env r (strip_port r.host))))
    | inl (route, rule, s) ↦
        let same : serve_routes env r (strip_port r.host) routes ≡ serve_rule env r route rule =
          serve_routes_selected env r _ routes route rule s in
        elim (serve_rule_cases env r route rule) [
          | inl (_, e) ↦ absurd (h (ap (λ x. x.calls) (same ∙ e)))
          | inr (inl (_, _, e)) ↦ absurd (h (ap (λ x. x.calls) (same ∙ e)))
          | inr (inr (not_free, not_waived, e)) ↦ (
            route,
            rule,
            s,
            not_free,
            not_waived,
            λ no_header.
                h (ap (λ x. x.calls) (same ∙ e) ∙ uncharged env r route rule (rw no_header)),
          )
        ]
  ]

  -- A payment is settled before a backend is looked for: where the selected rule asks for payment,
  -- the payment is settled and the route has no backend, the reply is an error page all the same.
  pub serve_http_charged_unserved :
      (route : CompiledRoute) (rule : CompiledRule) (reqs : PaymentRequirements)
      (s : SettleResponse)
      → Selects (strip_port r.host) r.url_path routes route rule
      → rule.free ≡ false
      → ¬ IsWaived r rule
      → payment_header r ≢ []
      → build_payment_requirements env.set_string r route rule.price ≡ ok reqs
      → (verify_and_settle env.codecs env.facilitator
          (payment_header r)
          reqs
          route.facilitator_url).result
        ≡ ok s
      → route.backends ≡ []
      → Permᴰ route.backends (env.by_pattern route)
      → Permᴰ route.backends (env.fallback route)
      → ((serve_http env r routes).reply ≡ http_error 502 (str "no backend configured"))
        × ((serve_http env r routes).calls
            ≡ (verify_and_settle env.codecs env.facilitator
                (payment_header r)
                reqs
                route.facilitator_url).calls)
  unfolding serve_http
  serve_http_charged_unserved route rule reqs s sel not_free not_waived has_header built settled
        bare d d' =
      let (calls, (p, reply)) = charge_settled env r route rule reqs s has_header built settled in
      let nothing : (m : Table Str) → Permᴰ route.backends m → m ≡ [] =
        λ m e. reorder_nil (rw bare at e) in
      let served : serve_routes env r (strip_port r.host) routes ≡ charge env r route rule =
        serve_routes_selected env r _ routes route rule sel ∙ is_charged in
      (
        ap (λ x. x.reply) served
            ∙ reply
            ∙ proxy_to_nothing env route r.url_path p bare (nothing _ d) (nothing _ d'),
        ap (λ x. x.calls) served ∙ calls,
      )
    where
      is_charged : serve_rule env r route rule ≡ charge env r route rule
      is_charged = elim (serve_rule_cases env r route rule) [
        | inl (free, _) ↦ absurd (cc (sym free ∙ not_free))
        | inr (inl (_, waived, _)) ↦ absurd (not_waived waived)
        | inr (inr (_, _, e)) ↦ e
      ]
