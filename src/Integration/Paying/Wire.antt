-- ===== src/Integration/Paying/Wire.antt =====
-- What the answers of the gateway of internal/gateway are on the wire, for the client of
-- cmd/test-client.
use x402_k8s_operator.Base.{ℕ, Option, none, some, [], Str, str, ◌==◌, if◌then◌else◌}
use x402_k8s_operator.Gateway.Request.{Request}
use x402_k8s_operator.Gateway.Proxy.{Reply, http_error, payment_required, proxied}
use x402_k8s_operator.Gateway.Server.{Answer, moved, healthy, handled}
use x402_k8s_operator.Commands.TestClient.{Response}

-- One header, the others as before.
abbrev header_with : Str → Option Str → (Str → Str) → Str → Str
header_with name none header k = header k
header_with name (some v) header k = if k == name then v else header k

-- A response of the gateway itself, of which the client reads these fields.
abbrev page : ℕ → Str → (Str → Str) → Str → Response
page status_code status header body = record {
  status_code = status_code;
  status = status;
  header = header;
  body = body;
}

-- What a reply is on the wire. The backend is a function of the target and the request.
abbrev pub deliver : (Str → Request → Response) → Request → Reply → Response
deliver backend r (http_error status text) =
    page status [] (header_with (str "Content-Type") (some (str "text/plain")) (λ k. [])) text
deliver backend r (payment_required header body) =
    page 402 (str "402 Payment Required")
      (header_with (str "PAYMENT-REQUIRED") (some header)
        (header_with (str "Content-Type") (some (str "application/json")) (λ k. [])))
      body
deliver backend r (proxied p target) =
    let resp = backend target r in
    record resp { header = header_with (str "PAYMENT-RESPONSE") p resp.header }

abbrev pub deliver_answer : (Str → Request → Response) → Request → Answer → Response
deliver_answer backend r (moved location) =
    page 301 (str "301 Moved Permanently") (header_with (str "Location") (some location) (λ k. []))
      []
deliver_answer backend r (healthy body) = page 200 (str "200 OK") (λ k. []) body
deliver_answer backend r (handled served) = deliver backend r served.reply
