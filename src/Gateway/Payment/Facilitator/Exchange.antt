-- ===== src/Gateway/Payment/Facilitator/Exchange.antt =====
-- Steps that make calls to the facilitator, and the exchanges that they are made of.
use x402_k8s_operator.Base.{◌≡◌, refl, ap}
use x402_k8s_operator.Base.{inl, inr, Bool, true, false}
use x402_k8s_operator.Base.{Option, none, some, List, [], ◌∷◌, arith}
use x402_k8s_operator.Base.{Str, eqb}
use x402_k8s_operator.Base.{Bool-cases, Option-cases, Result, ok, err}
use x402_k8s_operator.Gateway.Payment.Requirements.{PaymentAccept, PaymentRequirements}
use x402_k8s_operator.Gateway.Payment.Facilitator.{
  Codecs, failed, response, Facilitator, Call, PaymentError, Steps, bad_response, continue_with,
  PostResult, ◌>>=◌, ◌>>◌, require, guard, first_accept, read_result, post_to, exchange,
}

pub require_ok :
    {A B : Type 0} (o : Option A) (e : PaymentError) (f : A → Steps B) (b : B)
    → (require o e >>= f).result ≡ ok b
    → (a : A) × (o ≡ some a) × ((f a).result ≡ ok b)
require_ok none e f b h = absurd (ground arith)
require_ok (some a) e f b h = (a, refl, h)

require_last :
    {A : Type 0} (o : Option A) (e : PaymentError) (a : A)
    → (require o e).result ≡ ok a
    → o ≡ some a
require_last none e a h = absurd (ground arith)
require_last (some b) e a h = ground arith

pub guard_ok :
    {B : Type 0} (t : Bool) (e : PaymentError) (k : Steps B) (b : B)
    → (guard t e >> k).result ≡ ok b
    → (t ≡ true) × (k.result ≡ ok b)
guard_ok true e k b h = (refl, h)
guard_ok false e k b h = absurd (ground arith)

continue_ok :
    {A B : Type 0} (calls : List Call) (r : Result PaymentError A) (f : A → Steps B) (b : B)
    → (continue_with calls r f).result ≡ ok b
    → (a : A) × (r ≡ ok a) × ((f a).result ≡ ok b)
continue_ok calls (ok a) f b h = (a, refl, h)
continue_ok calls (err e) f b h = absurd (ground arith)

pub bind_ok :
    {A B : Type 0} (m : Steps A) (f : A → Steps B) (b : B)
    → (m >>= f).result ≡ ok b
    → (a : A) × (m.result ≡ ok a) × ((f a).result ≡ ok b)
bind_ok m f b h = continue_ok m.calls m.result f b h

-- The facilitator answers the POST with status 200 and a body that decodes to the value.
abbrev pub Answers : {A : Type 0} → Facilitator → (Str → Option A) → Str → Str → A → Type 0
Answers facilitator unmarshal url body a =
    (text : Str) × (facilitator url body ≡ response 200 (some text)) × (unmarshal text ≡ some a)

-- The body is the facilitator's request for the payment that the header encodes.
abbrev pub Encodes : Codecs → Str → PaymentRequirements → Str → Type 0
Encodes codecs header reqs body =
    (payload : Str) × (accept : PaymentAccept) × (codecs.base64_decode header ≡ some payload)
    × (codecs.json_valid payload ≡ true)
    × (first_accept reqs.accepts ≡ some accept)
    × (codecs.marshal_facilitator_request
          (record { payment_payload = payload; payment_requirements = accept })
        ≡ some body)

module _ {A : Type 0} (facilitator : Facilitator) (unmarshal : Str → Option A)
    (url body : Str) where
  abbrev call : Call
  call = record { url = url; body = body }

  abbrev decoded : Str → Steps A
  decoded text = require (unmarshal text) (bad_response call)

  decoded-calls : (text : Str) → (decoded text).calls ≡ []
  decoded-calls text = elim (Option-cases (unmarshal text)) [
    | inl bad ↦ rw bad
    | inr (a, good) ↦ rw good
  ]

  read-calls :
      (r : PostResult) → (continue_with (call ∷ []) (read_result call r) decoded).calls ≡ call ∷ []
  read-calls failed = refl
  read-calls (response status none) = refl
  read-calls (response status (some text)) = elim (Bool-cases (eqb status 200)) [
    | inl fine ↦ rw fine (ap (λ cs. call ∷ cs) (decoded-calls text))
    | inr bad ↦ rw bad
  ]

  -- An exchange makes the one call.
  pub exchange-calls : (exchange facilitator unmarshal url body).calls ≡ call ∷ []
  unfolding exchange
  exchange-calls = read-calls (facilitator url body)

  read_ok :
      (r : PostResult) (text : Str) → read_result call r ≡ ok text → r ≡ response 200 (some text)
  read_ok failed text h = cc
  read_ok (response status none) text h = cc
  read_ok (response status (some body)) text h = ground arith

  pub exchange_sound :
      (a : A)
      → (exchange facilitator unmarshal url body).result ≡ ok a
      → Answers facilitator unmarshal url body a
  unfolding exchange
  exchange_sound a h =
      let (text, got, h') = bind_ok (post_to facilitator url body) decoded a h in
      (
        text,
        read_ok (facilitator url body) text got,
        require_last (unmarshal text) (bad_response call) a h',
      )

  pub exchange_complete :
      (a : A)
      → Answers facilitator unmarshal url body a
      → (exchange facilitator unmarshal url body).result ≡ ok a
  unfolding exchange
  exchange_complete a (text, answer, decodes) = rw (answer, decodes)
