-- ===== src/Tests/Payment.antt =====
-- internal/gateway/payment.go on concrete inputs.
use mathlib.Core.List.{cons-ne-nil}
use x402_k8s_operator.Base.{◌≡◌, refl}
use x402_k8s_operator.Base.{◌≢◌, ◌↔◌, ◌⊎◌, true, not}
use x402_k8s_operator.Base.{Option, none, some, [], ◌∷◌, arith}
use x402_k8s_operator.Base.{Str, str, ◌==◌, if◌then◌else◌}
use x402_k8s_operator.Base.{ok, err}
use x402_k8s_operator.Base.Int.{ℤ, pos}
use x402_k8s_operator.Base.Decimal.{show_ℤ}
use x402_k8s_operator.Base.Table.{lookup}
use x402_k8s_operator.Base.Text.{is_empty, trim_right}
use x402_k8s_operator.Routestore.{CompiledRoute}
use x402_k8s_operator.Gateway.Request.{Request}
use x402_k8s_operator.Gateway.Payment.Networks.{
  network_assets, network_asset_info, usdc, network_to_chain_id-consistent,
}
use x402_k8s_operator.Gateway.Payment.Units.{
  Rat, too_many_decimals, invalid_format, empty_price, human_to_atomic_units,
}
use x402_k8s_operator.Gateway.Payment.Units.Exact.{IsWorth, human_to_atomic_units_exact}
use x402_k8s_operator.Gateway.Payment.Requirements.{
  PaymentRequirements, info_of, chain_of, requirements_of, build_payment_requirements,
}
use x402_k8s_operator.Gateway.Payment.Requirements.Laws.{
  build_payment_requirements_iff, build_payment_requirements_alias,
}
use x402_k8s_operator.Gateway.Payment.Facilitator.{
  Codecs, Facilitator, SettleResponse, response, exchange, verify_then_settle, verify_and_settle,
  payment_invalid,
}
use x402_k8s_operator.Gateway.Payment.Facilitator.Exchange.{Encodes}
use x402_k8s_operator.Gateway.Payment.Facilitator.Settlement.{
  IsVerified, IsPaid, verify_call, settle_call, verify_and_settle_iff, verify_and_settle-calls,
}

unfoldable pub paying : Unit {0}
unfolding human_to_atomic_units build_payment_requirements info_of chain_of verify_and_settle
    verify_then_settle exchange lookup trim_right ◌==◌
paying = tt

-- A parser of the prices that the tests use.
abbrev pub read_price : Str → Option Rat
read_price price =
    if price == str "0.001"
    then some (record { num = pos 1; den = 1000 })
    else if price == str "0.0000001"
    then some (record { num = pos 1; den = 10000000 })
    else none

human_to_atomic_units_tests :
    (human_to_atomic_units read_price (str "0.001") 6 ≡ ok (str "1000"))
    × (human_to_atomic_units read_price (str "0.0000001") 6 ≡ err too_many_decimals)
    × (human_to_atomic_units read_price (str "abc") 6 ≡ err invalid_format)
    × (human_to_atomic_units read_price [] 6 ≡ err empty_price)
unfolding paying
human_to_atomic_units_tests = (refl, refl, refl, refl)

human_to_atomic_units_exact_example :
    ((text : Str)
      → (human_to_atomic_units read_price (str "0.001") 6 ≡ ok text)
        ↔ ((z : ℤ) × IsWorth (record { num = pos 1; den = 1000 }) 6 z × (text ≡ show_ℤ z)))
    × ((human_to_atomic_units read_price (str "0.001") 6 ≡ err too_many_decimals)
        ↔ ((z : ℤ) → ¬ IsWorth (record { num = pos 1; den = 1000 }) 6 z))
unfolding paying
human_to_atomic_units_exact_example =
    human_to_atomic_units_exact read_price (str "0.001") (record { num = pos 1; den = 1000 }) 6
      (cons-ne-nil b'0' (str ".001")) refl (omega arith)

network_to_chain_id-consistent_example :
    (lookup (str "base") network_assets ≡ lookup (str "eip155:8453") network_assets)
    × ((asset : Str) × (lookup (str "eip155:8453") network_assets ≡ some asset) × (asset ≢ []))
    × (lookup (str "eip155:8453") network_asset_info ≡ some usdc)
unfolding paying
network_to_chain_id-consistent_example =
    network_to_chain_id-consistent (str "base") (str "eip155:8453") refl

abbrev pub test_route : CompiledRoute
test_route = record {
  name = str "shop";
  namespace = str "prod";
  hosts = [];
  wallet = str "0xTestWallet";
  network = str "base-sepolia";
  facilitator_url = str "https://f.example/";
  default_price = str "0.001";
  rules = [];
  backends = [];
}

abbrev pub test_request : Request
test_request = record {
  url_path = str "/api/test";
  url_text = str "/api/test";
  host = str "shop.example:443";
  header = λ name. if name == str "Payment-Signature" then str "paid" else [];
}

build_payment_requirements_test :
    build_payment_requirements read_price test_request test_route (str "0.001")
    ≡ ok (requirements_of test_request test_route (str "1000"))
unfolding paying
build_payment_requirements_test = refl

build_payment_requirements_iff_test :
    (build_payment_requirements read_price test_request test_route (str "0.001")
      ≡ ok (requirements_of test_request test_route (str "1000")))
    ↔ ((amount : Str) × (human_to_atomic_units read_price (str "0.001") 6 ≡ ok amount)
        × (requirements_of test_request test_route (str "1000")
            ≡ requirements_of test_request test_route amount))
build_payment_requirements_iff_test =
    build_payment_requirements_iff read_price test_request test_route (str "0.001")
      (requirements_of test_request test_route (str "1000"))

build_payment_requirements_alias_example :
    build_payment_requirements read_price test_request test_route (str "0.001")
    ≡ build_payment_requirements read_price test_request
        (record test_route { network = str "eip155:84532" })
        (str "0.001")
unfolding paying
build_payment_requirements_alias_example =
    build_payment_requirements_alias read_price test_request test_route (str "0.001")
      (str "eip155:84532") refl

-- Encodings that are simple enough to run, and a facilitator that accepts the payload "paid".
abbrev pub test_codecs : Codecs
test_codecs = record {
  base64_encode = λ s. s;
  base64_decode = λ s. some s;
  json_valid = λ s. not (is_empty s);
  marshal_facilitator_request = λ q. some q.payment_payload;
  marshal_requirements = λ q. some (str "{}");
  marshal_settle = λ s. some s.transaction;
  unmarshal_verify =
      λ s. some (record { is_valid = s == str "yes"; invalid_reason = []; payer = [] });
  unmarshal_settle = λ s. some (record {
    success = s == str "yes";
    error_reason = [];
    payer = [];
    transaction = str "0x1";
    network = [];
  });
}

abbrev pub test_facilitator : Facilitator
test_facilitator =
    λ url body. response 200 (some (if body == str "paid" then str "yes" else str "no"))

abbrev pub test_settled : SettleResponse
test_settled = record {
  success = true;
  error_reason = [];
  payer = [];
  transaction = str "0x1";
  network = [];
}

abbrev pub test_requirements : PaymentRequirements
test_requirements = requirements_of test_request test_route (str "1000")

verify_and_settle_tests :
    ((verify_and_settle test_codecs test_facilitator
        (str "paid")
        test_requirements
        (str "https://f.example/")).result
      ≡ ok test_settled)
    × ((verify_and_settle test_codecs test_facilitator
          (str "other")
          test_requirements
          (str "https://f.example/")).result
        ≡ err (payment_invalid (str "payment not valid")))
unfolding paying
verify_and_settle_tests = (refl, refl)

verify_and_settle_iff_example :
    ((verify_and_settle test_codecs test_facilitator
        (str "paid")
        test_requirements
        (str "https://f.example/")).result
      ≡ ok test_settled)
    ↔ ((body : Str) × Encodes test_codecs (str "paid") test_requirements body
        × IsVerified test_codecs test_facilitator (trim_right (str "https://f.example/") b'/') body
        × IsPaid test_codecs test_facilitator
            (trim_right (str "https://f.example/") b'/')
            body
            test_settled)
verify_and_settle_iff_example =
    verify_and_settle_iff test_codecs test_facilitator (str "paid") test_requirements
      (str "https://f.example/") test_settled

verify_and_settle-calls_example :
    ((verify_and_settle test_codecs test_facilitator
        (str "paid")
        test_requirements
        (str "https://f.example/")).calls
      ≡ [])
    ⊎ ((body : Str) × Encodes test_codecs (str "paid") test_requirements body
        × (((verify_and_settle test_codecs test_facilitator
                (str "paid")
                test_requirements
                (str "https://f.example/")).calls
              ≡ verify_call test_codecs test_facilitator
                  (trim_right (str "https://f.example/") b'/')
                  body
                ∷ [])
            ⊎ (((verify_and_settle test_codecs test_facilitator
                    (str "paid")
                    test_requirements
                    (str "https://f.example/")).calls
                  ≡ verify_call test_codecs test_facilitator
                      (trim_right (str "https://f.example/") b'/')
                      body
                    ∷ settle_call test_codecs test_facilitator
                        (trim_right (str "https://f.example/") b'/')
                        body
                    ∷ [])
                × IsVerified test_codecs test_facilitator
                    (trim_right (str "https://f.example/") b'/')
                    body)))
verify_and_settle-calls_example =
    verify_and_settle-calls test_codecs test_facilitator (str "paid") test_requirements
      (str "https://f.example/")
