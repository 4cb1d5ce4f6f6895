-- ===== src/Gateway/Request.antt =====
-- What the gateway reads of an `http.Request`.
use x402_k8s_operator.Base.{Str}

pub record Request : Type 0 where
  -- `r.URL.Path`
  pub url_path : Str
  -- `r.URL.String()`
  pub url_text : Str
  pub host : Str
  -- `r.Header.Get`: the first value of a header, empty where there is none.
  pub header : Str → Str
