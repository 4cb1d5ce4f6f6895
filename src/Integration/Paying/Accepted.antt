-- ===== src/Integration/Paying/Accepted.antt =====
-- The client of cmd/test-client, when it is asked for payment and then served.
use x402_k8s_operator.Base.{◌≡◌, refl, List, [], ◌∷◌, ◌++◌, Str, str, ok}
use x402_k8s_operator.Commands.TestClient
use x402_k8s_operator.Commands.TestClient.{
  Response, Http, Libraries, Run, accepted_line, conclude, verdict, run, response_lines, pay,
  after_first, first_lines,
}

-- The program ends well, and the last line that it writes says that the payment was accepted.
abbrev pub IsAccepted : Run → Type 0
IsAccepted r =
    (r.exit_code ≡ 0)
    × (r.stderr ≡ [])
    × ((before : List Str) × (r.stdout ≡ before ++ accepted_line ∷ []))

module _ (libraries : Libraries) where
  conclude-IsAccepted :
      (lines : List Str) (resp : Response)
      → resp.status_code ≡ 200
      → IsAccepted (conclude libraries lines (ok resp))
  unfolding conclude verdict
  conclude-IsAccepted lines resp fine =
      (refl, refl, (lines ++ response_lines libraries (str "PAYMENT-RESPONSE") resp, rw fine))

  module _ (http : Http) (endpoint : Str) (resp resp2 : Response) where
    pay-IsAccepted :
        (lines : List Str)
        → http.get_paying endpoint (TestClient.client_payment libraries) ≡ ok resp2
        → resp2.status_code ≡ 200
        → IsAccepted (pay libraries http endpoint lines (ok tt))
    pay-IsAccepted lines second fine = rw second (conclude-IsAccepted _ resp2 fine)

    after_first-IsAccepted :
        (lines : List Str)
        → resp.status_code ≡ 402
        → http.new_request endpoint ≡ ok tt
        → http.get_paying endpoint (TestClient.client_payment libraries) ≡ ok resp2
        → resp2.status_code ≡ 200
        → IsAccepted (after_first libraries http endpoint lines (ok resp))
    after_first-IsAccepted lines demand created second fine =
        rw (demand, created) (pay-IsAccepted _ second fine)

    -- A client that is asked for payment and then served.
    pub run-IsAccepted :
        http.get endpoint ≡ ok resp
        → resp.status_code ≡ 402
        → http.new_request endpoint ≡ ok tt
        → http.get_paying endpoint (TestClient.client_payment libraries) ≡ ok resp2
        → resp2.status_code ≡ 200
        → IsAccepted (run libraries http endpoint)
    unfolding run
    run-IsAccepted first demand created second fine =
        rw first (after_first-IsAccepted (first_lines endpoint) demand created second fine)
