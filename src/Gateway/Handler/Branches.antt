-- ===== src/Gateway/Handler/Branches.antt =====
-- What single branches of the handler come to.
use mathlib.Core.Option
use x402_k8s_operator.Base.{◌≡◌, refl, ap}
use x402_k8s_operator.Base.{◌≢◌, true, false}
use x402_k8s_operator.Base.{Option, List, [], ◌∷◌}
use x402_k8s_operator.Base.{Str, str, if◌then◌else◌}
use x402_k8s_operator.Base.{All, ok}
use x402_k8s_operator.Base.Text.{is_empty}
use x402_k8s_operator.Base.Table.{Table}
use x402_k8s_operator.Routestore.{CompiledRule, CompiledRoute}
use x402_k8s_operator.Gateway.Request.{Request}
use x402_k8s_operator.Gateway.Proxy.{Reply, http_error, proxied, proxy_to_backend}
use x402_k8s_operator.Gateway.Payment.Requirements.{PaymentRequirements, build_payment_requirements}
use x402_k8s_operator.Gateway.Payment.Facilitator.{
  SettleResponse, payment_header, verify_and_settle,
}
use x402_k8s_operator.Gateway.Proxy.{find_backend}
use x402_k8s_operator.Gateway.Handler.{Env, charge, serve_routes}
use x402_k8s_operator.Gateway.Handler.Selection.{Takes, Selects}
use x402_k8s_operator.Gateway.Handler.Authorised.{is_empty_of_ne}

abbrev pub not_found : Reply
not_found = http_error 404 (str "no x402 route configured for this path")

pub not_selected :
    (host path : Str) (routes : List CompiledRoute) (route : CompiledRoute) (rule : CompiledRule)
    → All (λ other. (o : CompiledRule) → ¬ Takes host path other o) routes
    → ¬ Selects host path routes route rule
not_selected host path [] route rule none_take s = elim s [ ]
not_selected host path (_ ∷ routes) route rule (passed, none_take) (Selects.here _ t) =
    passed rule t
not_selected host path (other ∷ routes) route rule (passed, none_take) (Selects.later _ _ s) =
    not_selected host path routes route rule none_take s

pub none_served :
    (env : Env) (r : Request) (host : Str)
    → serve_routes env r host [] ≡ record { metrics = []; calls = []; reply = not_found }
unfolding serve_routes
none_served env r host = refl

pub uncharged :
    (env : Env) (r : Request) (route : CompiledRoute) (rule : CompiledRule)
    → is_empty (payment_header r) ≡ true
    → (charge env r route rule).calls ≡ []
unfolding charge
uncharged env r route rule no_header = rw no_header

pub charge_settled :
    (env : Env) (r : Request) (route : CompiledRoute) (rule : CompiledRule)
    (reqs : PaymentRequirements) (s : SettleResponse)
    → payment_header r ≢ []
    → build_payment_requirements env.set_string r route rule.price ≡ ok reqs
    → (verify_and_settle env.codecs env.facilitator
        (payment_header r)
        reqs
        route.facilitator_url).result
      ≡ ok s
    → ((charge env r route rule).calls
        ≡ (verify_and_settle env.codecs env.facilitator
            (payment_header r)
            reqs
            route.facilitator_url).calls)
      × ((p : Option Str) × ((charge env r route rule).reply
            ≡ proxy_to_backend env.url_is_valid route r.url_path
                (env.by_pattern route)
                (env.fallback route)
                p))
unfolding charge
charge_settled env r route rule reqs s has_header built settled =
    let some_header : is_empty (payment_header r) ≡ false = is_empty_of_ne has_header in
    (
      rw (some_header, built, settled, charge),
      (
        Option.map env.codecs.base64_encode (env.codecs.marshal_settle s),
        rw (some_header, built, settled, charge),
      ),
    )

nothing_found : (path : Str) → find_backend [] path [] [] ≡ []
unfolding find_backend
nothing_found path = refl

find_nothing :
    (m m' m'' : Table Str) (path : Str)
    → m ≡ []
    → m' ≡ []
    → m'' ≡ []
    → find_backend m path m' m'' ≡ []
find_nothing m m' m'' path e e' e'' = rw (e, e', e'') (nothing_found path)

pub proxy_to_nothing :
    (env : Env) (route : CompiledRoute) (path : Str) (p : Option Str)
    → route.backends ≡ []
    → env.by_pattern route ≡ []
    → env.fallback route ≡ []
    → proxy_to_backend env.url_is_valid route path (env.by_pattern route) (env.fallback route) p
      ≡ http_error 502 (str "no backend configured")
unfolding proxy_to_backend
proxy_to_nothing env route path p e e' e'' =
    ap
      (λ (u : Str).
        if is_empty u
        then http_error 502 (str "no backend configured")
        else if env.url_is_valid u
        then proxied p u
        else http_error 502 (str "bad backend URL"))
      (find_nothing route.backends _ _ path e e' e'')
