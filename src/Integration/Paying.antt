-- ===== src/Integration/Paying.antt =====
-- The test client of cmd/test-client against the gateway of internal/gateway, whose facilitator is
-- that of cmd/mock-facilitator.
pub mod Wire
pub mod Accepted
pub mod Charged
use x402_k8s_operator.Base.{
  ◌≡◌, refl, sym, ap, ◌∙◌, ◌≢◌, true, false, none, some, List, [], ◌++◌, Str, str, ◌==◌,
  if◌then◌else◌, ok,
}
use x402_k8s_operator.Base.Text.{trim_right}
use x402_k8s_operator.Routestore.{CompiledRule, CompiledRoute}
use x402_k8s_operator.Gateway.Request.{Request}
use x402_k8s_operator.Gateway.Proxy.{find_backend, payment_required, proxied}
use x402_k8s_operator.Gateway.Payment.Requirements.{PaymentRequirements, build_payment_requirements}
use x402_k8s_operator.Gateway.Payment.Facilitator.{
  SettleResponse, Facilitator, Codecs, payment_header, verify_and_settle,
}
use x402_k8s_operator.Gateway.Payment.Facilitator.Exchange.{Encodes}
use x402_k8s_operator.Gateway.Payment.Facilitator.Settlement.{
  IsVerified, IsPaid, verify_and_settle_iff,
}
use x402_k8s_operator.Gateway.Handler.{Env, strip_port, serve_http}
use x402_k8s_operator.Gateway.Handler.Selection.{Selects}
use x402_k8s_operator.Gateway.Handler.Authorised.{IsWaived, is_empty_of_ne}
use x402_k8s_operator.Gateway.Server.{Redirect, serve_mux}
use x402_k8s_operator.Commands.MockFacilitator.{
  Encoder, written, answer, verify_response, settle_response,
}
use x402_k8s_operator.Commands.TestClient
use x402_k8s_operator.Commands.TestClient.{Response, Http, Libraries, run}
use x402_k8s_operator.Integration.Paying.Wire.{deliver, deliver_answer}
use x402_k8s_operator.Integration.Paying.Accepted.{IsAccepted, run-IsAccepted}
use x402_k8s_operator.Integration.Paying.Charged.{charged, demanded, served, answered}

-- The request with the payment of the test client.
abbrev pub paying : Str → Request → Request
paying payment r = record r {
  header = λ k. if k == str "Payment-Signature" then payment else r.header k;
}

-- The facilitator answers at this base as the mock does, in JSON that the gateway decodes.
abbrev pub IsMock : Codecs → Encoder → Facilitator → Str → Type 0
IsMock codecs encoder facilitator base =
    ((path body : Str)
      → facilitator (base ++ path) body ≡ written encoder (answer (str "POST") path))
    × (codecs.unmarshal_verify (encoder.encode_verify verify_response) ≡ some verify_response)
    × (codecs.unmarshal_settle (encoder.encode_settle settle_response) ≡ some settle_response)

-- The client's two calls go to the gateway's server.
abbrev pub Reaches :
    Redirect
    → Env
    → List CompiledRoute
    → (Str → Request → Response)
    → Http
    → Str
    → Str
    → Request
    → Type 0
Reaches redirect env routes backend http endpoint payment r =
    (http.new_request endpoint ≡ ok tt)
    × (http.get endpoint ≡ ok (deliver_answer backend r (serve_mux redirect env r routes)))
    × (http.get_paying endpoint payment
        ≡ ok (
            deliver_answer backend (paying payment r)
              (serve_mux redirect env (paying payment r) routes)))

module _ (codecs : Codecs) (encoder : Encoder) (facilitator : Facilitator) where
  -- The mock verifies every payment and settles it.
  mock_accepts :
      (base body : Str)
      → IsMock codecs encoder facilitator base
      → IsVerified codecs facilitator base body
        × ((s : SettleResponse) × IsPaid codecs facilitator base body s)
  unfolding answer
  mock_accepts base body (answers, decodes_verify, decodes_settle) = (
    (verify_response, (_, answers (str "/verify") body, decodes_verify), refl),
    (settle_response, ((_, answers (str "/settle") body, decodes_settle), refl)),
  )

payment_header-paying :
    (payment : Str) (r : Request) → payment ≢ [] → payment_header (paying payment r) ≡ payment
unfolding payment_header ◌==◌
payment_header-paying payment r some_payment = rw (is_empty_of_ne some_payment)

-- Where the endpoint reaches the gateway's server under a clean path that is not the health check,
-- the selected rule asks for payment with and without the client's header, its requirements can be
-- built and encoded, the gateway decodes the client's payment and encodes the facilitator's request,
-- the facilitator is the mock, and the chosen backend answers with status 200, the test client ends
-- without an error and reports that its payment was accepted.
pub run-serve_mux :
    (libraries : Libraries) (http : Http) (endpoint : Str) (redirect : Redirect) (env : Env)
    (encoder : Encoder) (backend : Str → Request → Response) (r : Request)
    (routes : List CompiledRoute) (route : CompiledRoute) (rule : CompiledRule)
    (reqs : PaymentRequirements) (json body target : Str)
    → let payment = TestClient.client_payment libraries in
      Reaches redirect env routes backend http endpoint payment r
      → redirect r ≡ none
      → redirect (paying payment r) ≡ none
      → r.url_path ≢ str "/healthz"
      → Selects (strip_port r.host) r.url_path routes route rule
      → rule.free ≡ false
      → ¬ IsWaived r rule
      → ¬ IsWaived (paying payment r) rule
      → payment_header r ≡ []
      → payment ≢ []
      → build_payment_requirements env.set_string r route rule.price ≡ ok reqs
      → env.codecs.marshal_requirements reqs ≡ some json
      → Encodes env.codecs payment reqs body
      → IsMock env.codecs encoder env.facilitator (trim_right route.facilitator_url b'/')
      → find_backend route.backends r.url_path (env.by_pattern route) (env.fallback route) ≡ target
      → target ≢ []
      → env.url_is_valid target ≡ true
      → (backend target (paying payment r)).status_code ≡ 200
      → IsAccepted (run libraries http endpoint)
unfolding build_payment_requirements
run-serve_mux libraries http endpoint redirect env encoder backend r routes route rule reqs json
      body target (created, first, second) stays stays2 other selected priced charged1 charged2
      unpaid some_payment built encoded encodes mock chosen some_target valid fine =
    let payment : Str = TestClient.client_payment libraries in
    let r2 : Request = paying payment r in
    let header : payment_header r2 ≡ payment = payment_header-paying payment r some_payment in
    let (is_verified, (s, paid)) =
      mock_accepts env.codecs encoder env.facilitator (trim_right route.facilitator_url b'/') body
        mock in
    let settles =
      (verify_and_settle_iff env.codecs env.facilitator payment reqs route.facilitator_url s).1
        (body, encodes, is_verified, paid) in
    let (p, reply) =
      served env r2 routes route rule reqs s target (λ h. some_payment (sym header ∙ h)) built
        (ap
            (λ h.
              (verify_and_settle env.codecs env.facilitator h reqs route.facilitator_url).result)
            header
          ∙ settles)
        chosen some_target valid in
    let on_first : (serve_http env r routes).reply
        ≡ payment_required (env.codecs.base64_encode json) json =
      ap (λ o. o.reply) (charged env r routes route rule selected priced charged1)
      ∙ demanded env r routes route rule reqs json unpaid built encoded in
    let on_second : (serve_http env r2 routes).reply ≡ proxied p target =
      ap (λ o. o.reply) (charged env r2 routes route rule selected priced charged2) ∙ reply in
    run-IsAccepted libraries http endpoint
      (deliver backend r (payment_required (env.codecs.base64_encode json) json))
      (deliver backend r2 (proxied p target))
      (first
        ∙ ap (λ a. ok (deliver_answer backend r a)) (answered redirect env r routes stays other)
        ∙ ap (λ o. ok (deliver backend r o)) on_first)
      refl created
      (second
        ∙ ap (λ a. ok (deliver_answer backend r2 a)) (answered redirect env r2 routes stays2 other)
        ∙ ap (λ o. ok (deliver backend r2 o)) on_second)
      fine
