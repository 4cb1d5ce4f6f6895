-- ===== src/Gateway/Handler/Authorised.antt =====
-- What a reply says of the payment.
use x402_k8s_operator.Base.{◌≡◌, refl, sym, ap, ◌∙◌}
use x402_k8s_operator.Base.{◌≢◌, ◌⊎◌, inl, inr, true, false, not, ◌&&◌}
use x402_k8s_operator.Base.{Option, List, [], ◌∷◌, arith}
use x402_k8s_operator.Base.{Str, str, ◌==◌, ==_iff, if◌then◌else◌}
use x402_k8s_operator.Base.{Bool-cases, Option-cases, ok, Result-cases}
use mathlib.Core.Option
use x402_k8s_operator.Base.Text.{is_empty}
use x402_k8s_operator.Base.Table.{Table}
use x402_k8s_operator.Routestore.{CompiledCondition, CompiledRule, CompiledRoute}
use x402_k8s_operator.Gateway.Request.{Request}
use x402_k8s_operator.Gateway.Proxy.{
  find_backend, Reply, http_error, payment_required, proxied, proxy_to_backend,
}
use x402_k8s_operator.Gateway.Payment.Requirements.{PaymentRequirements, build_payment_requirements}
use x402_k8s_operator.Gateway.Payment.Facilitator.{
  SettleResponse, payment_header, verify_and_settle,
}
use x402_k8s_operator.Base.Text.{trim_right}
use x402_k8s_operator.Gateway.Conditions.{evaluate_conditions}
use x402_k8s_operator.Gateway.Conditions.Decides.{Waives, evaluate_conditions_iff}
use x402_k8s_operator.Gateway.Payment.Facilitator.Exchange.{Encodes}
use x402_k8s_operator.Gateway.Payment.Facilitator.Settlement.{
  IsVerified, IsPaid, verify_and_settle_iff,
}
use x402_k8s_operator.Gateway.Handler.{forward, Env, write_payment_required, charge, serve_rule}

pub ne_nil : {s : Str} → is_empty s ≡ false → s ≢ []
ne_nil {s = []} h e = cc
ne_nil {s = c ∷ s} h e = cc

pub is_empty_of_ne : {s : Str} → s ≢ [] → is_empty s ≡ false
is_empty_of_ne {s = []} h = absurd (h refl)
is_empty_of_ne {s = c ∷ s} h = refl

-- The conditions of the rule waive payment, in the one mode that reads them.
abbrev pub IsWaived : Request → CompiledRule → Type 0
IsWaived r rule = (rule.mode ≡ str "conditional") × Waives r rule.conditions

module _ (env : Env) (r : Request) where
  -- The request has a payment header, and the facilitator of the route called the payment that it
  -- encodes for the price of the rule valid and settled it.
  abbrev pub HasPaid : CompiledRoute → CompiledRule → Type 0
  HasPaid route rule =
      (reqs : PaymentRequirements) × (s : SettleResponse) × (body : Str) × (payment_header r ≢ [])
      × (build_payment_requirements env.set_string r route rule.price ≡ ok reqs)
      × Encodes env.codecs (payment_header r) reqs body
      × IsVerified env.codecs env.facilitator (trim_right route.facilitator_url b'/') body
      × IsPaid env.codecs env.facilitator (trim_right route.facilitator_url b'/') body s

  -- What is no hand-over to the backend: an error page of the gateway or a demand for payment.
  abbrev pub IsDemand : Reply → Type 0
  IsDemand reply =
      ((text : Str) × (reply ≡ http_error 500 text))
      ⊎ ((header body : Str) × (reply ≡ payment_required header body))

  write_payment_required-IsDemand :
      (route : CompiledRoute) (price : Str) → IsDemand (write_payment_required env r route price)
  unfolding write_payment_required
  write_payment_required-IsDemand route price =
      elim (Result-cases (build_payment_requirements env.set_string r route price)) [
        | inr (e, bad) ↦
            inl (str "failed to build payment requirements", rw (bad, write_payment_required))
        | inl (reqs, good) ↦ elim (Option-cases (env.codecs.marshal_requirements reqs)) [
          | inl bad ↦
              inl (
                str "failed to marshal payment requirements",
                rw (good, bad, write_payment_required),
              )
          | inr (json, fine) ↦
              inr (env.codecs.base64_encode json, json, rw (good, fine, write_payment_required))
        ]
      ]

  demand-ne-proxied :
      {reply : Reply} (target : Str) (p : Option Str) → IsDemand reply → reply ≢ proxied p target
  demand-ne-proxied target p (inl (text, e)) h = cc
  demand-ne-proxied target p (inr (header, body, e)) h = cc

  pub demand-ne-http_error :
      {reply : Reply} (text : Str) → IsDemand reply → reply ≢ http_error 404 text
  demand-ne-http_error text (inl (t, e)) h = ground arith
  demand-ne-http_error text (inr (header, body, e)) h = cc

  -- How a request that has to be paid ends: with a demand, or handed over once it is paid.
  pub charge_cases :
      (route : CompiledRoute) (rule : CompiledRule)
      → IsDemand (charge env r route rule).reply
        ⊎ (HasPaid route rule
            × ((p : Option Str) × ((charge env r route rule).reply
                  ≡ proxy_to_backend env.url_is_valid route r.url_path
                      (env.by_pattern route)
                      (env.fallback route)
                      p)))
  unfolding charge
  charge_cases route rule = elim (Bool-cases (is_empty (payment_header r))) [
    | inl no_header ↦
        inl (rw (no_header, charge) (write_payment_required-IsDemand route rule.price))
    | inr has_header ↦
        elim (Result-cases (build_payment_requirements env.set_string r route rule.price)) [
          | inr (e, bad) ↦ inl (
              inl
                (str "internal error building payment requirements", rw (has_header, bad, charge)))
          | inl (reqs, good) ↦
              elim (Result-cases
                (verify_and_settle env.codecs env.facilitator (payment_header r) reqs
                  route.facilitator_url).result) [
                    | inr (e, bad) ↦ inl (
                        rw (has_header, good, bad, charge)
                          (write_payment_required-IsDemand route rule.price))
                    | inl (s, settled) ↦
                        let (body, encodes, verified, paid) =
                          (verify_and_settle_iff env.codecs env.facilitator (payment_header r) reqs
                              route.facilitator_url s).0
                            settled in
                        inr (
                          (reqs, s, body, ne_nil has_header, good, encodes, verified, paid),
                          (
                            Option.map env.codecs.base64_encode (env.codecs.marshal_settle s),
                            rw (has_header, good, settled, charge),
                          ),
                        )
                  ]
        ]
  ]

  pub proxy_to_backend-ne-404 :
      (route : CompiledRoute) (by_pattern fallback : Table Str) (p : Option Str) (text : Str)
      → proxy_to_backend env.url_is_valid route r.url_path by_pattern fallback p
        ≢ http_error 404 text
  unfolding proxy_to_backend
  proxy_to_backend-ne-404 route by_pattern fallback p text =
      go (find_backend route.backends r.url_path by_pattern fallback)
    where
      go :
          (u : Str)
          → (if is_empty u
              then http_error 502 (str "no backend configured")
              else if env.url_is_valid u
              then proxied p u
              else http_error 502 (str "bad backend URL"))
            ≢ http_error 404 text
      go u = ground arith

  Waives-ne-nil :
      (conditions : List CompiledCondition) → Waives r conditions → is_empty conditions ≡ false
  Waives-ne-nil [] w = elim w [ ]
  Waives-ne-nil (c ∷ conditions) w = refl

  not-IsWaived_of_mode :
      (rule : CompiledRule)
      → (rule.mode == str "conditional" && not (is_empty rule.conditions)) ≡ false
      → ¬ IsWaived r rule
  not-IsWaived_of_mode rule h (mode, w) =
      ground (arith, Waives-ne-nil rule.conditions w, (==_iff rule.mode (str "conditional")).1 mode)

  -- A rule that takes a request serves it in one of three ways.
  pub serve_rule_cases :
      (route : CompiledRoute) (rule : CompiledRule)
      → ((rule.free ≡ true) × (serve_rule env r route rule ≡ forward env r route (str "free")))
        ⊎ ((rule.free ≡ false)
            × IsWaived r rule
            × (serve_rule env r route rule ≡ forward env r route (str "conditional_free")))
        ⊎ ((rule.free ≡ false)
            × (¬ IsWaived r rule)
            × (serve_rule env r route rule ≡ charge env r route rule))
  serve_rule_cases route rule = elim (Bool-cases rule.free) [
    | inl free ↦ inl (free, unfold serve_rule in rw free)
    | inr not_free ↦
        elim (Bool-cases (rule.mode == str "conditional" && not (is_empty rule.conditions))) [
          | inr other_mode ↦ inr (
              inr (
                not_free,
                not-IsWaived_of_mode rule other_mode,
                unfold serve_rule in rw (not_free, other_mode),
              ))
          | inl conditional ↦ elim (Bool-cases (evaluate_conditions r rule.conditions)) [
            | inl pay ↦ inr (
                inr (
                  not_free,
                  λ w. cc (pay, (evaluate_conditions_iff r rule.conditions).1 w.1),
                  unfold serve_rule in rw (not_free, conditional, pay),
                ))
            | inr waived ↦ inr (
                inl (
                  not_free,
                  (
                    (==_iff rule.mode (str "conditional")).0 (ground arith),
                    (evaluate_conditions_iff r rule.conditions).0 waived,
                  ),
                  unfold serve_rule in rw (not_free, conditional, waived),
                ))
          ]
        ]
  ]

  -- Nothing is handed over unless the rule is free, its conditions waive payment, or it is paid.
  pub rule_authorised :
      (route : CompiledRoute) (rule : CompiledRule) (target : Str) (p : Option Str)
      → (serve_rule env r route rule).reply ≡ proxied p target
      → (rule.free ≡ true) ⊎ (IsWaived r rule ⊎ HasPaid route rule)
  rule_authorised route rule target p h = elim (serve_rule_cases route rule) [
    | inl (free, _) ↦ inl free
    | inr (inl (_, waived, _)) ↦ inr (inl waived)
    | inr (inr (_, _, e)) ↦ elim (charge_cases route rule) [
      | inl demand ↦ absurd (demand-ne-proxied target p demand (ap (λ x. x.reply) (sym e) ∙ h))
      | inr (paid, _) ↦ inr (inr paid)
    ]
  ]
