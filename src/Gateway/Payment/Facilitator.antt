-- ===== src/Gateway/Payment/Facilitator.antt =====
-- `getPaymentHeader` and `verifyAndSettlePayment` of internal/gateway/payment.go.
pub mod Exchange
pub mod Settlement
use x402_k8s_operator.Base.{ℕ}
use x402_k8s_operator.Base.{Bool, true, false, not}
use x402_k8s_operator.Base.{Option, none, some, List, [], ◌∷◌, ◌++◌}
use x402_k8s_operator.Base.{Str, str, eqb, if◌then◌else◌}
use x402_k8s_operator.Base.{Result, ok, err}
use x402_k8s_operator.Base.Text.{is_empty, trim_right}
use x402_k8s_operator.Gateway.Request.{Request}
use x402_k8s_operator.Gateway.Payment.Requirements.{PaymentAccept, PaymentRequirements}

pub record FacilitatorRequest : Type 0 where
  pub payment_payload : Str
  pub payment_requirements : PaymentAccept

pub record VerifyResponse : Type 0 where
  pub is_valid : Bool
  pub invalid_reason : Str
  pub payer : Str

pub record SettleResponse : Type 0 where
  pub success : Bool
  pub error_reason : Str
  pub payer : Str
  pub transaction : Str
  pub network : Str

-- The encodings of the standard library that the gateway calls; a failed call is `none`.
pub record Codecs : Type 0 where
  pub base64_encode : Str → Str
  pub base64_decode : Str → Option Str
  pub json_valid : Str → Bool
  pub marshal_facilitator_request : FacilitatorRequest → Option Str
  pub marshal_requirements : PaymentRequirements → Option Str
  pub marshal_settle : SettleResponse → Option Str
  pub unmarshal_verify : Str → Option VerifyResponse
  pub unmarshal_settle : Str → Option SettleResponse

-- What a POST comes to: no response, or one whose body can be read or not.
pub data PostResult : Type 0 where
  failed : PostResult
  response : (status : ℕ) → (body : Option Str) → PostResult

-- The facilitator's side of one request: its answer to each POST of a body to a URL.
abbrev pub Facilitator : Type 0
Facilitator = Str → Str → PostResult

-- A POST that the gateway made.
pub record Call : Type 0 where
  pub url : Str
  pub body : Str

pub data PaymentError : Type 0 where
  bad_base64 not_json no_accepts marshal_failed : PaymentError
  post_failed read_failed bad_status bad_response : Call → PaymentError
  payment_invalid settlement_failed : (reason : Str) → PaymentError

-- A step that makes calls, and then has a value or fails.
pub record Steps (A : Type 0) : Type 0 where
  pub calls : List Call
  pub result : Result PaymentError A

abbrev pub after_calls : {A : Type 0} → List Call → Steps A → Steps A
after_calls before s = record { calls = before ++ s.calls; result = s.result }

abbrev pub continue_with :
    {A B : Type 0} → List Call → Result PaymentError A → (A → Steps B) → Steps B
continue_with before (ok a) f = after_calls before (f a)
continue_with before (err e) f = record { calls = before; result = err e }

infixl 5 ◌>>=◌ ◌>>◌
abbrev pub ◌>>=◌ : {A B : Type 0} → Steps A → (A → Steps B) → Steps B
m >>= f = continue_with m.calls m.result f

abbrev pub ◌>>◌ : {B : Type 0} → Steps (Unit {0}) → Steps B → Steps B
m >> k = m >>= λ _. k

abbrev pub done : {A : Type 0} → A → Steps A
done a = record { calls = []; result = ok a }

abbrev pub require : {A : Type 0} → Option A → PaymentError → Steps A
require (some a) e = done a
require none e = record { calls = []; result = err e }

abbrev pub guard : Bool → PaymentError → Steps (Unit {0})
guard true e = done tt
guard false e = record { calls = []; result = err e }

abbrev pub first_accept : List PaymentAccept → Option PaymentAccept
first_accept [] = none
first_accept (a ∷ accepts) = some a

abbrev pub reason_or : Str → Str → Str
reason_or reason default = if is_empty reason then default else reason

abbrev pub read_result : Call → PostResult → Result PaymentError Str
read_result call failed = err (post_failed call)
read_result call (response status none) = err (read_failed call)
read_result call (response status (some body)) =
    if eqb status 200 then ok body else err (bad_status call)

-- A POST, the reading of the response's body and the test of its status.
unfoldable pub post_to : Facilitator → Str → Str → Steps Str
post_to facilitator url body =
    let call : Call = record { url = url; body = body } in
    record { calls = call ∷ []; result = read_result call (facilitator url body) }

-- `getPaymentHeader`
unfoldable pub payment_header : Request → Str
payment_header r =
    let h = r.header (str "Payment-Signature") in
    if is_empty h then r.header (str "X-Payment") else h

-- One of the two exchanges with the facilitator: the POST and the decoding of its response.
unfoldable pub exchange : {A : Type 0} → Facilitator → (Str → Option A) → Str → Str → Steps A
unfolding post_to
exchange facilitator unmarshal url body = do
  response_body ← post_to facilitator url body
  require (unmarshal response_body) (bad_response (record { url = url; body = body }))

module _ (codecs : Codecs) (facilitator : Facilitator) where
  -- The second half of `verifyAndSettlePayment`: /verify, and /settle if that found the payment valid.
  unfoldable pub verify_then_settle : Str → Str → Steps SettleResponse
  verify_then_settle base_url req_body = do
    v ← exchange facilitator codecs.unmarshal_verify (base_url ++ str "/verify") req_body
    guard v.is_valid (payment_invalid (reason_or v.invalid_reason (str "payment not valid")))
    s ← exchange facilitator codecs.unmarshal_settle (base_url ++ str "/settle") req_body
    guard s.success (settlement_failed (reason_or s.error_reason (str "settlement failed")))
    done s

  -- `verifyAndSettlePayment`
  unfoldable pub verify_and_settle : Str → PaymentRequirements → Str → Steps SettleResponse
  verify_and_settle header reqs facilitator_url = do
    payload ← require (codecs.base64_decode header) bad_base64
    guard (codecs.json_valid payload) not_json
    accept ← require (first_accept reqs.accepts) no_accepts
    let fac_req : FacilitatorRequest = record {
      payment_payload = payload;
      payment_requirements = accept;
    }
    req_body ← require (codecs.marshal_facilitator_request fac_req) marshal_failed
    let base_url : Str = trim_right facilitator_url b'/'
    verify_then_settle base_url req_body
