-- ===== src/Commands/MockFacilitator.antt =====
-- cmd/mock-facilitator/main.go: a facilitator that accepts every payment. The bodies of the requests
-- are read for the log only.
use x402_k8s_operator.Base.{ℕ, true, Option, none, some, [], ◌++◌, Str, str, ◌==◌, if◌then◌else◌}
use x402_k8s_operator.Base.Text.{is_empty}
use x402_k8s_operator.Gateway.Payment.Facilitator.{
  VerifyResponse, SettleResponse, PostResult, response,
}

-- What the mux and its two handlers answer.
pub data MockAnswer : Type 0 where
  verified : VerifyResponse → MockAnswer
  settled : SettleResponse → MockAnswer
  not_found method_not_allowed : MockAnswer

-- The only payer.
abbrev pub mock_payer : Str
mock_payer = str "0x0000000000000000000000000000000000000001"

unfoldable pub verify_response : VerifyResponse
verify_response = record { is_valid = true; invalid_reason = []; payer = mock_payer }

unfoldable pub settle_response : SettleResponse
settle_response = record {
  success = true;
  error_reason = [];
  payer = mock_payer;
  transaction = str "0xmocktx123abc456def789";
  network = str "eip155:84532";
}

abbrev only_post : Str → MockAnswer → MockAnswer
only_post method answer = if method == str "POST" then answer else method_not_allowed

-- The mux and its handlers, by the method and the path of a request.
unfoldable pub answer : Str → Str → MockAnswer
unfolding verify_response settle_response ◌==◌
answer method path =
    if path == str "/verify"
    then only_post method (verified verify_response)
    else if path == str "/settle"
    then only_post method (settled settle_response)
    else not_found

-- The encoder of the standard library, on the two responses.
pub record Encoder : Type 0 where
  pub encode_verify : VerifyResponse → Str
  pub encode_settle : SettleResponse → Str

-- An answer as the HTTP response that it is written to.
abbrev pub written : Encoder → MockAnswer → PostResult
written encoder (verified v) = response 200 (some (encoder.encode_verify v))
written encoder (settled s) = response 200 (some (encoder.encode_settle s))
written encoder not_found = response 404 (some (str "404 page not found"))
written encoder method_not_allowed = response 405 (some (str "Method Not Allowed"))

-- The address to listen on, by the environment variable `X402_PORT`.
unfoldable pub listen_addr : Str → Str
listen_addr port = str ":" ++ (if is_empty port then str "8080" else port)

-- The exit code, where `http.ListenAndServe` returns, with an error or without.
unfoldable pub listen_exit : Option Str → ℕ
listen_exit none = 0
listen_exit (some e) = 1
