-- ===== src/Gateway/Payment/Facilitator/Settlement.antt =====
-- What a settled payment took, and which calls an attempt makes.
use x402_k8s_operator.Base.{◌≡◌, refl, sym, ap, ◌∙◌}
use x402_k8s_operator.Base.{◌↔◌, ◌⊎◌, inl, inr, true}
use x402_k8s_operator.Base.{[], ◌∷◌, ◌++◌}
use x402_k8s_operator.Base.{Str, str}
use x402_k8s_operator.Base.{Bool-cases, Option-cases, Result, ok, err, ok_inj, Result-cases}
use x402_k8s_operator.Base.Text.{trim_right}
use x402_k8s_operator.Gateway.Payment.Requirements.{PaymentRequirements}
use x402_k8s_operator.Gateway.Payment.Facilitator.{
  FacilitatorRequest, VerifyResponse, SettleResponse, Codecs, Facilitator, Call, PaymentError,
  Steps, settlement_failed, reason_or, done, verify_then_settle, continue_with, ◌>>=◌, ◌>>◌, guard,
  first_accept, exchange, verify_and_settle,
}
use x402_k8s_operator.Gateway.Payment.Facilitator.Exchange.{
  require_ok, guard_ok, bind_ok, exchange-calls, exchange_sound, exchange_complete, Answers,
  Encodes,
}

module _ (codecs : Codecs) (facilitator : Facilitator) where
  -- The facilitator calls the payment in the body valid.
  abbrev pub IsVerified : Str → Str → Type 0
  IsVerified base_url body =
      (v : VerifyResponse) × Answers facilitator codecs.unmarshal_verify (base_url ++ str "/verify")
        body v
      × (v.is_valid ≡ true)

  -- It settles the payment with success, and answers s.
  abbrev pub IsPaid : Str → Str → SettleResponse → Type 0
  IsPaid base_url body s =
      Answers facilitator codecs.unmarshal_settle (base_url ++ str "/settle") body s
      × (s.success ≡ true)

  IsPaid-of_settle :
      (base_url body : Str) (s : SettleResponse) (m : Steps SettleResponse)
      → m ≡ exchange facilitator codecs.unmarshal_settle (base_url ++ str "/settle") body
      → (m >>= λ s'.
          guard s'.success (settlement_failed (reason_or s'.error_reason (str "settlement failed")))
          >> done s').result
        ≡ ok s
      → IsPaid base_url body s
  IsPaid-of_settle base_url body s m e h =
      let url : Str = base_url ++ str "/settle" in
      let (s', settled, h₁) = bind_ok m _ s h in
      let (success, h₂) = guard_ok s'.success _ _ s h₁ in
      let same : s' ≡ s = ok_inj s' s h₂ in
      let paid : IsPaid base_url body s' = (
        exchange_sound facilitator codecs.unmarshal_settle url body s'
            (ap (λ x. x.result) (sym e) ∙ settled),
        success,
      ) in
      rw same at paid

  IsPaid-of_verify_then_settle :
      (base_url body : Str) (s : SettleResponse)
      → (verify_then_settle codecs facilitator base_url body).result ≡ ok s
      → IsVerified base_url body × IsPaid base_url body s
  unfolding verify_then_settle
  IsPaid-of_verify_then_settle base_url body s h =
      let (v, verified, h₁) =
        bind_ok (exchange facilitator codecs.unmarshal_verify (base_url ++ str "/verify") body) _ s
          h in
      let (valid, h₂) = guard_ok v.is_valid _ _ s h₁ in
      (
        (
          v,
          exchange_sound facilitator codecs.unmarshal_verify (base_url ++ str "/verify") body v
              verified,
          valid,
        ),
        IsPaid-of_settle base_url body s _ refl h₂,
      )

  verify_then_settle_of_paid :
      (base_url body : Str) (s : SettleResponse)
      → IsVerified base_url body
      → IsPaid base_url body s
      → (verify_then_settle codecs facilitator base_url body).result ≡ ok s
  unfolding verify_then_settle
  verify_then_settle_of_paid base_url body s (v, verified, valid) (paid, success) = rw (
    exchange_complete facilitator codecs.unmarshal_verify (base_url ++ str "/verify") body v
        verified,
    valid,
    exchange_complete facilitator codecs.unmarshal_settle (base_url ++ str "/settle") body s paid,
    success,
  )

module _ (codecs : Codecs) (facilitator : Facilitator) (base_url body : Str) where
  abbrev pub verify_call : Call
  verify_call = record { url = base_url ++ str "/verify"; body = body }

  abbrev pub settle_call : Call
  settle_call = record { url = base_url ++ str "/settle"; body = body }

  abbrev checked : SettleResponse → Steps SettleResponse
  checked s =
      guard s.success (settlement_failed (reason_or s.error_reason (str "settlement failed")))
      >> done s

  checked-calls : (s : SettleResponse) → (checked s).calls ≡ []
  checked-calls s = elim (Bool-cases s.success) [ inl good ↦ rw good | inr bad ↦ rw bad ]

  settle-calls :
      (r : Result PaymentError SettleResponse) (c : Call)
      → (continue_with (c ∷ []) r checked).calls ≡ c ∷ []
  settle-calls (ok s) c = ap (λ cs. c ∷ cs) (checked-calls s)
  settle-calls (err e) c = refl

  settling-calls :
      (exchange facilitator codecs.unmarshal_settle (base_url ++ str "/settle") body
        >>= checked).calls
      ≡ settle_call ∷ []
  settling-calls =
      rw (exchange-calls facilitator codecs.unmarshal_settle (base_url ++ str "/settle") body)
        (settle-calls _ settle_call)

  -- /settle is called only if /verify found the payment valid, and each is called once at most.
  verify_then_settle-calls :
      ((verify_then_settle codecs facilitator base_url body).calls ≡ verify_call ∷ [])
      ⊎ (((verify_then_settle codecs facilitator base_url body).calls
            ≡ verify_call ∷ settle_call ∷ [])
          × IsVerified codecs facilitator base_url body)
  unfolding verify_then_settle
  verify_then_settle-calls =
      elim (Result-cases
        (exchange facilitator codecs.unmarshal_verify (base_url ++ str "/verify") body).result) [
          | inr (e, broken) ↦ inl (
              rw (
                broken,
                exchange-calls facilitator codecs.unmarshal_verify (base_url ++ str "/verify") body,
              ))
          | inl (v, verified) ↦ elim (Bool-cases v.is_valid) [
            | inr invalid ↦ inl (
                rw (
                  verified,
                  invalid,
                  exchange-calls facilitator codecs.unmarshal_verify (base_url ++ str "/verify")
                      body,
                ))
            | inl valid ↦ inr (
              rw
                  (
                    verified,
                    valid,
                    exchange-calls facilitator codecs.unmarshal_verify (base_url ++ str "/verify")
                        body,
                  )
                  (ap (λ cs. verify_call ∷ cs) settling-calls),
              (
                v,
                exchange_sound facilitator codecs.unmarshal_verify (base_url ++ str "/verify") body
                    v verified,
                valid,
              ),
            )
          ]
        ]

module _ (codecs : Codecs) (facilitator : Facilitator) (header : Str) (reqs : PaymentRequirements)
    (facilitator_url : Str) where
  abbrev attempt : Steps SettleResponse
  attempt = verify_and_settle codecs facilitator header reqs facilitator_url

  abbrev base : Str
  base = trim_right facilitator_url b'/'

  -- A payment header is accepted, with the facilitator's answer, exactly when it decodes to JSON,
  -- the facilitator calls the payment for the first of the accepted methods valid, and then settles
  -- it with success.
  pub verify_and_settle_iff :
      (s : SettleResponse)
      → (attempt.result ≡ ok s) ↔ (
          (body : Str) × Encodes codecs header reqs body
          × IsVerified codecs facilitator base body
          × IsPaid codecs facilitator base body s)
  unfolding verify_and_settle
  verify_and_settle_iff s = (
    λ h.
        let (payload, decodes, h₁) = require_ok (codecs.base64_decode header) _ _ s h in
        let (is_json, h₂) = guard_ok (codecs.json_valid payload) _ _ s h₁ in
        let (accept, first, h₃) = require_ok (first_accept reqs.accepts) _ _ s h₂ in
        let fac_req : FacilitatorRequest = record {
          payment_payload = payload;
          payment_requirements = accept;
        } in
        let (body, encodes, h₄) =
          require_ok (codecs.marshal_facilitator_request fac_req) _ _ s h₃ in
        let (verified, paid) = IsPaid-of_verify_then_settle codecs facilitator base body s h₄ in
        (body, (payload, accept, decodes, is_json, first, encodes), verified, paid),
    λ (body, (payload, accept, decodes, is_json, first, encodes), verified, paid). rw (
      decodes,
      is_json,
      first,
      encodes,
      verify_then_settle_of_paid codecs facilitator base body s verified paid,
    ),
  )

  -- An attempt makes no call; or it asks the facilitator to verify the payment that the header
  -- encodes, and no more; or it does so, the payment is valid, and it asks once to settle it.
  pub verify_and_settle-calls :
      (attempt.calls ≡ [])
      ⊎ ((body : Str) × Encodes codecs header reqs body
          × ((attempt.calls ≡ verify_call codecs facilitator base body ∷ [])
              ⊎ ((attempt.calls
                    ≡ verify_call codecs facilitator base body
                      ∷ settle_call codecs facilitator base body
                      ∷ [])
                  × IsVerified codecs facilitator base body)))
  unfolding verify_and_settle
  verify_and_settle-calls = elim (Option-cases (codecs.base64_decode header)) [
    | inl bad ↦ inl (rw bad)
    | inr (payload, decodes) ↦ elim (Bool-cases (codecs.json_valid payload)) [
      | inr bad ↦ inl (rw (decodes, bad))
      | inl is_json ↦ elim (Option-cases (first_accept reqs.accepts)) [
        | inl bad ↦ inl (rw (decodes, is_json, bad))
        | inr (accept, first) ↦
            elim (Option-cases (
              codecs.marshal_facilitator_request
                (record { payment_payload = payload; payment_requirements = accept }))) [
                  | inl bad ↦ inl (rw (decodes, is_json, first, bad))
                  | inr (body, encodes) ↦ inr (
                    body,
                    (payload, accept, decodes, is_json, first, encodes),
                    rw (decodes, is_json, first, encodes)
                        (verify_then_settle-calls codecs facilitator base body),
                  )
                ]
      ]
    ]
  ]
