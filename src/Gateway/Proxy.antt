-- ===== src/Gateway/Proxy.antt =====
-- internal/gateway/proxy.go: the choice of a backend, and the hand-over to the reverse proxy.
pub mod Choice
use x402_k8s_operator.Base.{ℕ}
use x402_k8s_operator.Base.{Bool}
use x402_k8s_operator.Base.{Option, none, some, [], ◌∷◌}
use x402_k8s_operator.Base.{Str, str, if◌then◌else◌}
use x402_k8s_operator.Base.Text.{is_empty}
use x402_k8s_operator.Base.Table.{Table, lookup}
use x402_k8s_operator.Gateway.Matching.{match_path}
use x402_k8s_operator.Routestore.{CompiledRoute}

-- The second loop of `findBackend`, in the order of its own iteration.
unfoldable pub first_match : Table Str → Str → Option Str
unfolding match_path
first_match [] path = none
first_match ((pattern, u) ∷ m) path = if match_path pattern path then some u else first_match m path

-- The third loop, in the order of its own iteration: it returns in its first round.
unfoldable pub any_value : Table Str → Str
any_value [] = []
any_value ((pattern, u) ∷ m) = u

-- `findBackend`. Go orders each iteration over a map anew: the last two tables are the entries of
-- the map as the second and the third loop meet them.
unfoldable pub find_backend : Table Str → Str → Table Str → Table Str → Str
unfolding lookup first_match any_value
find_backend backends path by_pattern fallback = elim (lookup path backends) [
  | some u ↦ u
  | none ↦ elim (first_match by_pattern path) [ some u ↦ u | none ↦ any_value fallback ]
]

-- What the gateway sends: an error page, a demand for payment with its header and body, or what the
-- reverse proxy makes of a request to the target, behind the headers set so far.
pub data Reply : Type 0 where
  http_error : (status : ℕ) → (text : Str) → Reply
  payment_required : (header body : Str) → Reply
  proxied : (payment_response : Option Str) → (target : Str) → Reply

-- `proxyToBackend`. `url_is_valid` says whether `url.Parse` accepts a text.
unfoldable pub proxy_to_backend :
    (Str → Bool) → CompiledRoute → Str → Table Str → Table Str → Option Str → Reply
unfolding find_backend
proxy_to_backend url_is_valid route path by_pattern fallback payment_response =
    let backend_url = find_backend route.backends path by_pattern fallback in
    if is_empty backend_url
    then http_error 502 (str "no backend configured")
    else if url_is_valid backend_url
    then proxied payment_response backend_url
    else http_error 502 (str "bad backend URL")
