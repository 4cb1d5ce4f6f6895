-- ===== src/Gateway/Handler/Selection.antt =====
-- Which route and rule serve a request, and that the order of a snapshot does not matter where one
-- route alone takes the request.
use mathlib.Core.Option.{some-injective}
use mathlib.Core.Path.{subst}
use mathlib.Core.List.{Permᴰ}
use x402_k8s_operator.Base.{◌≡◌, refl, sym, ap, ◌∙◌, ==_iff, if◌then◌else◌}
use x402_k8s_operator.Base.Text.{is_empty, to_lower, equal_fold}
use x402_k8s_operator.Base.{◌↔◌, ◌⊎◌, inl, inr, true}
use x402_k8s_operator.Base.{none, some, List, [], ◌∷◌, arith}
use x402_k8s_operator.Base.{Str}
use x402_k8s_operator.Base.{Bool-cases, Option-cases, All, Elem}
use x402_k8s_operator.Routestore.{CompiledRule, CompiledRoute}
use x402_k8s_operator.Gateway.Request.{Request}
use x402_k8s_operator.Gateway.Matching.{match_path}
use x402_k8s_operator.Gateway.Matching.Spec.{Matches}
use x402_k8s_operator.Gateway.Matching.Decides.{match_path_iff, match_path_misses}
use x402_k8s_operator.Base.Reorder.{All-reorder, Elem-reorder}
use x402_k8s_operator.Gateway.Handler.{
  Env, strip_port, any_host, matches_host, first_rule, find_matching_rule, serve_rule, serve_routes,
  serve_http,
}

-- The rule is the first one whose pattern matches the path.
pub data FirstRule (path : Str) : List CompiledRule → CompiledRule → Type 0 where
  here :
      (rule : CompiledRule) {rules : List CompiledRule}
      → Matches rule.path path
      → FirstRule path (rule ∷ rules) rule
  later :
      (other : CompiledRule) {rules : List CompiledRule} {rule : CompiledRule}
      → ¬ Matches other.path path
      → FirstRule path rules rule
      → FirstRule path (other ∷ rules) rule

-- The route names no host, or one that is the host but for letter case.
abbrev pub AllowsHost : Str → List Str → Type 0
AllowsHost host hosts = (hosts ≡ []) ⊎ ((h : Str) × Elem h hosts × (to_lower h ≡ to_lower host))

-- The route takes the request: its hosts allow the host, and the rule is its first that matches.
abbrev pub Takes : Str → Str → CompiledRoute → CompiledRule → Type 0
Takes host path route rule = AllowsHost host route.hosts × FirstRule path route.rules rule

-- The route is the first of the snapshot that takes the request.
pub data Selects (host path : Str)
    : List CompiledRoute → CompiledRoute → CompiledRule → Type 0 where
  here :
      (route : CompiledRoute) {routes : List CompiledRoute} {rule : CompiledRule}
      → Takes host path route rule
      → Selects host path (route ∷ routes) route rule
  later :
      (other : CompiledRoute) {routes : List CompiledRoute} {route : CompiledRoute}
      {rule : CompiledRule}
      → ((other_rule : CompiledRule) → ¬ Takes host path other other_rule)
      → Selects host path routes route rule
      → Selects host path (other ∷ routes) route rule

any_host_sound :
    (host : Str) (hosts : List Str)
    → any_host host hosts ≡ true
    → (h : Str) × Elem h hosts × (to_lower h ≡ to_lower host)
unfolding any_host equal_fold
any_host_sound host [] e = cc e
any_host_sound host (rh ∷ hosts) e = elim (Bool-cases (equal_fold rh host)) [
  | inl same ↦ (rh, inl refl, (==_iff (to_lower rh) (to_lower host)).0 same)
  | inr other ↦ let (h, m, same) = any_host_sound host hosts (rw other at e) in (h, inr m, same)
]

any_host_complete :
    (host : Str) (hosts : List Str) (h : Str)
    → Elem h hosts
    → to_lower h ≡ to_lower host
    → any_host host hosts ≡ true
unfolding any_host equal_fold
any_host_complete host [] h m same = absurd m
any_host_complete host (rh ∷ hosts) h (inl e) same =
    rw ((==_iff (to_lower rh) (to_lower host)).1 (ap to_lower (sym e) ∙ same))
any_host_complete host (rh ∷ hosts) h (inr m) same =
    let found = any_host_complete host hosts h m same in ground (arith, found)

matches_host_hosts :
    (host : Str) (hosts : List Str)
    → ((if is_empty hosts then true else any_host host hosts) ≡ true) ↔ AllowsHost host hosts
matches_host_hosts host [] = (λ _. inl refl, λ _. refl)
matches_host_hosts host (rh ∷ hosts) = (
  λ h. inr (any_host_sound host (rh ∷ hosts) h),
  λ allowed. elim allowed [
    | inl e ↦ cc e
    | inr (h, m, same) ↦ any_host_complete host (rh ∷ hosts) h m same
  ],
)

-- A route allows any host if it names none, and else those that it names, but for letter case.
matches_host_iff :
    (host : Str) (route : CompiledRoute)
    → (matches_host host route ≡ true) ↔ AllowsHost host route.hosts
unfolding matches_host
matches_host_iff host route = matches_host_hosts host route.hosts

first_rule_sound :
    (path : Str) (rules : List CompiledRule) (rule : CompiledRule)
    → first_rule path rules ≡ some rule
    → FirstRule path rules rule
unfolding first_rule
first_rule_sound path [] rule h = absurd (ground arith)
first_rule_sound path (other ∷ rules) rule h = elim (Bool-cases (match_path other.path path)) [
  | inl fits ↦
      let same : other ≡ rule = some-injective other rule (rw fits at h) in
      let first : FirstRule path (other ∷ rules) other =
        here other ((match_path_iff other.path path).0 fits) in
      subst (λ x. FirstRule path (other ∷ rules) x) same first
  | inr misses ↦
      later other (λ m. cc ((match_path_iff other.path path).1 m))
        (first_rule_sound path rules rule (rw misses at h))
]

first_rule_complete :
    (path : Str) (rules : List CompiledRule) (rule : CompiledRule)
    → FirstRule path rules rule
    → first_rule path rules ≡ some rule
unfolding first_rule
first_rule_complete path [] rule f = elim f [ ]
first_rule_complete path (_ ∷ rules) rule (here _ m) = rw ((match_path_iff rule.path path).1 m)
first_rule_complete path (other ∷ rules) rule (later _ nm f) =
    rw (match_path_misses other.path path nm) (first_rule_complete path rules rule f)

find_matching_rule_iff :
    (path : Str) (route : CompiledRoute) (rule : CompiledRule)
    → (find_matching_rule path route ≡ some rule) ↔ FirstRule path route.rules rule
unfolding find_matching_rule
find_matching_rule_iff path route rule =
    (first_rule_sound path route.rules rule, first_rule_complete path route.rules rule)

find_matching_rule-none :
    (path : Str) (route : CompiledRoute)
    → ((rule : CompiledRule) → ¬ FirstRule path route.rules rule)
    → find_matching_rule path route ≡ none
find_matching_rule-none path route h = elim (Option-cases (find_matching_rule path route)) [
  | inl nothing ↦ nothing
  | inr (rule, found) ↦ absurd (h rule ((find_matching_rule_iff path route rule).0 found))
]

module _ (env : Env) (r : Request) (host : Str) where
  serve_routes_taken :
      (route : CompiledRoute) (routes : List CompiledRoute) (rule : CompiledRule)
      → Takes host r.url_path route rule
      → serve_routes env r host (route ∷ routes) ≡ serve_rule env r route rule
  unfolding serve_routes
  serve_routes_taken route routes rule (hosted, first) = rw (
    (matches_host_iff host route).1 hosted,
    (find_matching_rule_iff r.url_path route rule).1 first,
  )

  serve_routes_passed :
      (route : CompiledRoute) (routes : List CompiledRoute)
      → ((rule : CompiledRule) → ¬ Takes host r.url_path route rule)
      → serve_routes env r host (route ∷ routes) ≡ serve_routes env r host routes
  unfolding serve_routes
  serve_routes_passed route routes none_taken = elim (Bool-cases (matches_host host route)) [
    | inr other_host ↦ rw other_host
    | inl hosted ↦ rw (
      hosted,
      find_matching_rule-none r.url_path route
          (λ rule first. none_taken rule ((matches_host_iff host route).0 hosted, first)),
    )
  ]

  take_or_pass :
      (route : CompiledRoute)
      → ((rule : CompiledRule) × Takes host r.url_path route rule)
        ⊎ ((rule : CompiledRule) → ¬ Takes host r.url_path route rule)
  take_or_pass route = elim (Bool-cases (matches_host host route)) [
    | inr other_host ↦ inr (λ rule t. cc ((matches_host_iff host route).1 t.0, other_host))
    | inl hosted ↦ elim (Option-cases (find_matching_rule r.url_path route)) [
      | inl nothing ↦ inr (λ rule t. cc ((find_matching_rule_iff r.url_path route rule).1 t.1))
      | inr (rule, found) ↦ inl (
        rule,
        (
          (matches_host_iff host route).0 hosted,
          (find_matching_rule_iff r.url_path route rule).0 found,
        ),
      )
    ]
  ]

  -- A request is served by the route and the rule that are selected.
  pub serve_routes_selected :
      (routes : List CompiledRoute) (route : CompiledRoute) (rule : CompiledRule)
      → Selects host r.url_path routes route rule
      → serve_routes env r host routes ≡ serve_rule env r route rule
  serve_routes_selected [] route rule s = elim s [ ]
  serve_routes_selected (_ ∷ routes) route rule (here _ t) = serve_routes_taken route routes rule t
  serve_routes_selected (other ∷ routes) route rule (later _ passed s) =
      serve_routes_passed other routes passed ∙ serve_routes_selected routes route rule s

  -- A route and a rule are selected, or no route takes the request and the reply says so.
  pub select_or_none :
      (routes : List CompiledRoute)
      → ((route : CompiledRoute) × (rule : CompiledRule) × Selects host r.url_path routes route
            rule)
        ⊎ (All (λ route. (rule : CompiledRule) → ¬ Takes host r.url_path route rule) routes
            × (serve_routes env r host routes ≡ serve_routes env r host []))
  select_or_none [] = inr (tt, refl)
  select_or_none (route ∷ routes) = elim (take_or_pass route) [
    | inl (rule, t) ↦ inl (route, rule, here route t)
    | inr passed ↦ elim (select_or_none routes) [
      | inl (found, rule, s) ↦ inl (found, rule, later route passed s)
      | inr (none_taken, e) ↦
          inr ((passed, none_taken), serve_routes_passed route routes passed ∙ e)
    ]
  ]

  serve_routes_unique :
      (routes : List CompiledRoute) (route : CompiledRoute) (rule : CompiledRule)
      → Elem route routes
      → Takes host r.url_path route rule
      → All
          (λ other. (other ≡ route) ⊎ ((o : CompiledRule) → ¬ Takes host r.url_path other o))
          routes
      → serve_routes env r host routes ≡ serve_rule env r route rule
  serve_routes_unique [] route rule m t only = absurd m
  serve_routes_unique (other ∷ routes) route rule m t (inl same, only) =
      ap (λ x. serve_routes env r host (x ∷ routes)) same ∙ serve_routes_taken route routes rule t
  serve_routes_unique (other ∷ routes) route rule (inl e) t (inr passed, only) =
      let taken : Takes host r.url_path other rule = rw e at t in absurd (passed rule taken)
  serve_routes_unique (other ∷ routes) route rule (inr m) t (inr passed, only) =
      serve_routes_passed other routes passed ∙ serve_routes_unique routes route rule m t only

-- Whatever order a snapshot gives the routes in, a request that one route alone takes is served by
-- that route and its first rule that matches.
pub serve_http_unique :
    (env : Env) (r : Request) (stored routes : List CompiledRoute) (route : CompiledRoute)
    (rule : CompiledRule)
    → Permᴰ stored routes
    → Elem route stored
    → Takes (strip_port r.host) r.url_path route rule
    → All
        (λ other.
          (other ≡ route) ⊎ ((o : CompiledRule) → ¬ Takes (strip_port r.host) r.url_path other o))
        stored
    → serve_http env r routes ≡ serve_rule env r route rule
unfolding serve_http
serve_http_unique env r stored routes route rule d m t only =
    serve_routes_unique env r (strip_port r.host) routes route rule (Elem-reorder route d m) t
      (All-reorder _ d only)
