-- ===== src/Tests/Paying.antt =====
-- cmd/test-client against the gateway and cmd/mock-facilitator, and the start of cmd/manager.
use x402_k8s_operator.Base.Text.{to_lower}
use x402_k8s_operator.Base.{
  inl, inr, ℕ, zero, suc, ◌≡◌, refl, ◌≢◌, Bool, true, false, none, some, [], ◌∷◌, Str, str, ◌==◌,
  if◌then◌else◌, ok, err,
}
use mathlib.Core.List.{cons-ne-nil}
use x402_k8s_operator.Gateway.Request.{Request}
use x402_k8s_operator.Gateway.Handler.{Env, strip_port}
use x402_k8s_operator.Gateway.Handler.Selection.{Takes, Selects, FirstRule}
use x402_k8s_operator.Gateway.Handler.Authorised.{IsWaived}
use x402_k8s_operator.Gateway.Payment.Facilitator.{Codecs, Facilitator}
use x402_k8s_operator.Gateway.Payment.Requirements.{requirements_of}
use x402_k8s_operator.Gateway.Server.{
  Redirect, serve_mux, healthy, start, server_closed, listen_failed,
}
use x402_k8s_operator.Commands.MockFacilitator.{
  Encoder, written, answer, verify_response, settle_response, listen_addr, listen_exit, not_found,
  method_not_allowed,
}
use x402_k8s_operator.Commands.TestClient.{
  Response, Http, Libraries, run, truncate, endpoint_of, client_payment,
}
use x402_k8s_operator.Commands.Manager.{Kit, default_options, main, exit_status}
use x402_k8s_operator.Integration.Paying.{paying, IsMock, run-serve_mux}
use x402_k8s_operator.Integration.Paying.Wire.{deliver_answer}
use x402_k8s_operator.Integration.Paying.Accepted.{IsAccepted}
use x402_k8s_operator.Tests.Payment.{test_request, test_codecs}
use x402_k8s_operator.Tests.Serving.{serving, test_env, shop, paid_rule, rule_fits}

abbrev mock_codecs : Codecs
mock_codecs = record test_codecs {
  unmarshal_verify = λ s. if s == str "yes" then some verify_response else none;
  unmarshal_settle = λ s. if s == str "yes" then some settle_response else none;
}

abbrev encoder : Encoder
encoder = record { encode_verify = λ v. str "yes"; encode_settle = λ s. str "yes" }

abbrev drop : ℕ → Str → Str
drop zero s = s
drop (suc n) [] = []
drop (suc n) (c ∷ s) = drop n s

-- The mock behind the URL https://f.example of 17 bytes.
abbrev mock : Facilitator
mock = λ url body. written encoder (answer (str "POST") (drop 17 url))

abbrev mock_env : Env
mock_env = record test_env { codecs = mock_codecs; facilitator = mock }

mock-IsMock : IsMock mock_codecs encoder mock (str "https://f.example")
unfolding ◌==◌
mock-IsMock = (λ path body. refl, refl, refl)

abbrev libraries : Libraries
libraries = record { base64_encode = λ s. s; base64_decode = λ s. ok s; indent = λ s. some s }

abbrev bare_request : Request
bare_request = record test_request { header = λ name. [] }

abbrev stays : Redirect
stays = λ r. none

abbrev backend : Str → Request → Response
backend = λ target r. record {
  status_code = 200;
  status = str "200 OK";
  header = λ k. [];
  body = str "hello";
}

abbrev http : Http
http = record {
  get = λ endpoint.
      ok (deliver_answer backend bare_request (serve_mux stays mock_env bare_request (shop ∷ [])));
  new_request = λ endpoint. ok tt;
  get_paying = λ endpoint payment.
      let r = paying payment bare_request in
      ok (deliver_answer backend r (serve_mux stays mock_env r (shop ∷ [])));
}

Takes-shop : Takes (strip_port bare_request.host) bare_request.url_path shop paid_rule
unfolding serving to_lower
Takes-shop = (inr (str "Shop.example", inl refl, refl), FirstRule.here paid_rule rule_fits)

never-IsWaived : (r : Request) → ¬ IsWaived r paid_rule
never-IsWaived r (mode, w) = elim w [ ]

not_healthz : bare_request.url_path ≢ str "/healthz"
not_healthz e = cc e

run-serve_mux_example : IsAccepted (run libraries http (str "http://shop.example/api/test"))
unfolding serving
run-serve_mux_example =
    run-serve_mux libraries http (str "http://shop.example/api/test") stays mock_env encoder backend
      bare_request (shop ∷ []) shop paid_rule (requirements_of bare_request shop (str "1000"))
      (str "{}") (client_payment libraries) (str "http://a:80") (refl, refl, refl) refl refl
      not_healthz (Selects.here shop Takes-shop) refl (never-IsWaived bare_request)
      (never-IsWaived (paying (client_payment libraries) bare_request)) refl (cons-ne-nil _ _) refl
      refl (client_payment libraries, _, refl, refl, refl, refl) mock-IsMock refl (cons-ne-nil _ _)
      refl refl

-- The health check of the server takes the path /healthz from every backend.
healthz_is_own :
    serve_mux stays mock_env (record test_request { url_path = str "/healthz" }) (shop ∷ [])
    ≡ healthy (str "ok")
unfolding serving serve_mux
healthz_is_own = refl

start_tests :
    (start server_closed ≡ none)
    × (start (listen_failed (str "in use")) ≡ some (str "gateway server failed: in use"))
unfolding start
start_tests = (refl, refl)

mock_tests :
    (answer (str "POST") (str "/other") ≡ not_found)
    × (answer (str "GET") (str "/verify") ≡ method_not_allowed)
    × (listen_addr [] ≡ str ":8080")
    × (listen_exit (some (str "in use")) ≡ 1)
unfolding answer listen_addr listen_exit
mock_tests = (refl, refl, refl, refl)

client_tests :
    (truncate (str "abc") 2 ≡ str "ab")
    × (truncate (str "ab") 2 ≡ str "ab")
    × (endpoint_of [] (str "http://e") ≡ str "http://e")
    × (endpoint_of (str "http://a" ∷ []) (str "http://e") ≡ str "http://a")
unfolding truncate endpoint_of
client_tests = (refl, refl, refl, refl)

-- A client that reaches no server writes the error and fails.
unreached :
    (run libraries (record http { get = λ e. err (str "refused") }) (str "http://e")).exit_code ≡ 1
unfolding run
unreached = refl

-- A manager that counts its calls, and whose controller may fail.
abbrev kit : Bool → Kit ℕ
kit controller_fails = record {
  parse_flags = λ options. ok options;
  get_config = ok tt;
  new_manager = λ options. ok 0;
  setup_controller =
      λ operator store m. if controller_fails then err (str "no CRD") else ok (suc m);
  add_server = λ server store m. ok (suc m);
  add_healthz_check = λ name m. ok (suc m);
  add_readyz_check = λ name m. ok (suc m);
  start = λ m. ok tt;
}

main_tests :
    (exit_status (main (kit false) (λ key. [])) ≡ 0)
    × (exit_status (main (kit true) (λ key. [])) ≡ 1)
    × ((default_options (λ key. str "prod")).operator_namespace ≡ str "prod")
    × ((default_options (λ key. [])).operator_namespace ≡ str "x402-system")
unfolding main exit_status
main_tests = (refl, refl, refl, refl)
