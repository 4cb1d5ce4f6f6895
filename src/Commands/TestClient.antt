-- ===== src/Commands/TestClient.antt =====
-- cmd/test-client/main.go: a request without payment, and one with a mock payment behind a 402.
use x402_k8s_operator.Base.{
  ℕ, Option, none, some, List, [], ◌∷◌, ◌++◌, Str, str, eqb, leb, length, if◌then◌else◌, Result, ok,
  err, zero, suc,
}
use x402_k8s_operator.Base.Decimal.{show}
use x402_k8s_operator.Base.Text.{is_empty}

-- `s[:n]`
abbrev take : ℕ → Str → Str
take zero s = []
take (suc n) [] = []
take (suc n) (c ∷ s) = c ∷ take n s

unfoldable pub truncate : Str → ℕ → Str
truncate s n = if leb (length s) n then s else take n s

-- The endpoint, by the arguments behind the program's name and the variable `X402_ENDPOINT`.
unfoldable pub endpoint_of : List Str → Str → Str
endpoint_of (arg ∷ args) env = arg
endpoint_of [] env = if is_empty env then str "http://localhost:8402/api/hello" else env

-- What the client reads of an `http.Response`.
pub record Response : Type 0 where
  pub status_code : ℕ
  pub status : Str
  pub header : Str → Str
  pub body : Str

-- The HTTP client of the standard library: a GET of a URL, the creation of a request, which may
-- fail with a message, and a GET of a URL with a value for the header Payment-Signature.
pub record Http : Type 0 where
  pub get : Str → Result Str Response
  pub new_request : Str → Result Str (Unit {0})
  pub get_paying : Str → Str → Result Str Response

-- `base64.StdEncoding`, and the indented text of a JSON text, if it is one.
pub record Libraries : Type 0 where
  pub base64_encode : Str → Str
  pub base64_decode : Str → Result Str Str
  pub indent : Str → Option Str

-- The lines that the program writes to the two outputs, and its exit code.
pub record Run : Type 0 where
  pub stdout : List Str
  pub stderr : List Str
  pub exit_code : ℕ

abbrev pub fake_payload : Str
fake_payload =
    str
      "{\"scheme\":\"exact\",\"network\":\"eip155:84532\",\"payload\":{\"signature\":\"0xdeadbeef\",\"authorization\":{\"from\":\"0x0000000000000000000000000000000000000001\",\"to\":\"0x1f6004907Adc7d313768b85917e069e011150390\",\"value\":\"1000\",\"validAfter\":\"0\",\"validBefore\":\"999999999999\",\"nonce\":\"0x01\"}}}"

abbrev pub accepted_line : Str
accepted_line = str "Payment accepted! The gateway forwarded the request to the backend."

abbrev pub first_lines : Str → List Str
first_lines endpoint =
    str "=== x402 Test Client ==="
    ∷ (str "Endpoint: " ++ endpoint)
    ∷ []
    ∷ str "--- Step 1: Request without payment ---"
    ∷ []

module _ (libraries : Libraries) where
  abbrev decoded_lines : Str → Result Str Str → List Str
  decoded_lines name (err e) = (name ++ str " header decode error: " ++ e) ∷ []
  decoded_lines name (ok decoded) = elim (libraries.indent decoded) [
    | none ↦ []
    | some indented ↦ (name ++ str " (decoded):") ∷ (str "  " ++ indented) ∷ []
  ]

  -- The lines on a header that holds JSON in Base64.
  unfoldable pub header_lines : Str → Str → List Str
  unfolding truncate
  header_lines name value =
      if is_empty value
      then []
      else (name ++ str " header (Base64): " ++ truncate value 60 ++ str "...")
        ∷ decoded_lines name (libraries.base64_decode value)

  -- The lines on a response, which has such a header under this name.
  unfoldable pub response_lines : Str → Response → List Str
  unfolding header_lines show
  response_lines name resp =
      (str "Status: " ++ show resp.status_code ++ str " " ++ resp.status)
      ∷ (str "Content-Type: " ++ resp.header (str "Content-Type"))
      ∷ (header_lines name (resp.header name) ++ str "Body:" ∷ resp.body ∷ [] ∷ [])

  unfoldable pub verdict : ℕ → Str
  unfolding show
  verdict status =
      if eqb status 200
      then accepted_line
      else str "Unexpected status "
        ++ show status
        ++ str ". Check the facilitator and gateway logs."

  abbrev exit_with : List Str → List Str → ℕ → Run
  exit_with stdout stderr exit_code = record {
    stdout = stdout;
    stderr = stderr;
    exit_code = exit_code;
  }

  -- The end of the second step, by its response.
  unfoldable pub conclude : List Str → Result Str Response → Run
  unfolding response_lines verdict
  conclude lines (err e) = exit_with lines ((str "Error: " ++ e) ∷ []) 1
  conclude lines (ok resp) =
      exit_with
        (lines ++ response_lines (str "PAYMENT-RESPONSE") resp ++ verdict resp.status_code ∷ []) []
        0

  abbrev pub client_payment : Str
  client_payment = libraries.base64_encode fake_payload

  -- The second step.
  abbrev pub pay : Http → Str → List Str → Result Str (Unit {0}) → Run
  pay http endpoint lines (err e) = exit_with lines ((str "Error creating request: " ++ e) ∷ []) 1
  pay http endpoint lines (ok u) =
      conclude
        (lines ++ (str "Payment-Signature: " ++ truncate client_payment 60 ++ str "...") ∷ [])
        (http.get_paying endpoint client_payment)

  -- What follows the first step, by its response.
  abbrev pub after_first : Http → Str → List Str → Result Str Response → Run
  after_first http endpoint lines (err e) = exit_with lines ((str "Error: " ++ e) ∷ []) 1
  after_first http endpoint lines (ok resp) =
      let shown : List Str = lines ++ response_lines (str "PAYMENT-REQUIRED") resp in
      if eqb resp.status_code 402
      then pay http endpoint
          (shown ++ str "--- Step 2: Request with mock payment (Payment-Signature header) ---" ∷ [])
          (http.new_request endpoint)
      else exit_with
          (shown
            ++ str "Expected 402 Payment Required, got something else."
              ∷ str "The endpoint may not be a paid route, or the gateway is not running."
              ∷ [])
          [] 0

  -- `main`, behind the choice of the endpoint.
  unfoldable pub run : Http → Str → Run
  unfolding response_lines conclude truncate
  run http endpoint = after_first http endpoint (first_lines endpoint) (http.get endpoint)
