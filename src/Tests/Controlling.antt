-- ===== src/Tests/Controlling.antt =====
-- internal/controller on concrete resources.
use x402_k8s_operator.Base.{
  ℕ, ◌+◌, ◌*◌, ◌≡◌, refl, ◌↔◌, ◌≢◌, ◌⊎◌, inr, Bool, true, false, Option, none, some, List, [], ◌∷◌,
  Str, str, ◌==◌, Elem, if◌then◌else◌, ok, arith,
}
use x402_k8s_operator.Base.Text.{trim_right, has_suffix}
use x402_k8s_operator.Gateway.Matching.{match_path, any_depth, slash}
use x402_k8s_operator.Controller.Api.{RouteRule}
use x402_k8s_operator.Controller.Validation.{
  Ip, Url, v4, v6, is_private_ip, validate_facilitator_url,
}
use x402_k8s_operator.Controller.Validation.Private.{
  IsPrivateV4, IsPrivateV6, IsPrivateMapped, is_private_ip-v4_iff, is_private_ip-v6_iff,
}
use x402_k8s_operator.Controller.Validation.Accepts.{IsSafe, validate_facilitator_url_iff}
use x402_k8s_operator.Controller.PathMatch.{path_matches_paid_routes, collect_paid_paths}
use x402_k8s_operator.Controller.PathMatch.Covers.{match_path-path_matches_paid_routes}
use x402_k8s_operator.Controller.PathMatch.Bases.{Overlaps}
use x402_k8s_operator.Controller.PathMatch.Redirects.{path_matches_paid_routes-collect_paid_paths}

is_private_ip-v4_iff_example : (is_private_ip (v4 172 20 0 1) ≡ true) ↔ IsPrivateV4 172 20
is_private_ip-v4_iff_example =
    is_private_ip-v4_iff 172 20 0 1 (ground arith) (ground arith) (ground arith) (ground arith)

-- ::ffff:10.0.0.1
abbrev mapped_rest : ℕ
mapped_rest = ((0xffff * 256 + 10) * 256 + 0) * 65536 + 1

mapped_is_private : is_private_ip (v6 0 0 mapped_rest) ≡ true
unfolding is_private_ip
mapped_is_private = refl

is_private_ip-v6_iff_example :
    (is_private_ip (v6 0 0 mapped_rest) ≡ true)
    ↔ (IsPrivateV6 0 0 mapped_rest ⊎ IsPrivateMapped 0 0 mapped_rest)
is_private_ip-v6_iff_example =
    is_private_ip-v6_iff 0 0 mapped_rest (ground arith) (ground arith) (ground arith)

-- The URLs and the address that the tests parse.
abbrev pub parse_url : Str → Option Url
parse_url raw =
    if raw == str "https://x402.org/facilitator"
    then some (record { scheme = str "https"; hostname = str "x402.org" })
    else if raw == str "http://pay"
    then some (record { scheme = str "http"; hostname = str "pay" })
    else none

abbrev pub parse_ip : Str → Option Ip
parse_ip hostname = if hostname == str "10.0.0.1" then some (v4 10 0 0 1) else none

validate_facilitator_url_iff_example :
    (validate_facilitator_url parse_url parse_ip (str "http://pay") ≡ ok tt)
    ↔ ((u : Url) × (parse_url (str "http://pay") ≡ some u) × IsSafe parse_ip u)
validate_facilitator_url_iff_example =
    validate_facilitator_url_iff parse_ip parse_url (str "http://pay")

abbrev rule_at : Str → Bool → RouteRule
rule_at path free = record { path = path; price = []; free = free; mode = []; conditions = [] }

abbrev pub shop_rules : List RouteRule
shop_rules = rule_at (str "/docs/**") true ∷ rule_at (str "/api/*") false ∷ []

path_matches_paid_routes-collect_paid_paths_example :
    (path_matches_paid_routes (str "/api/v1(.*)") (collect_paid_paths shop_rules) ≡ true) ↔ (
      (rule : RouteRule) × Elem rule shop_rules
      × (rule.free ≡ false)
      × Overlaps (str "/api/v1(.*)") rule.path)
path_matches_paid_routes-collect_paid_paths_example =
    path_matches_paid_routes-collect_paid_paths (str "/api/v1(.*)") shop_rules

-- A paid path with a wildcard inside is not found under a path of an Ingress that it takes.
inner_star_missed :
    (match_path (str "/a/*/b") (str "/a/x/b") ≡ true)
    × (path_matches_paid_routes (str "/a/x/b") (str "/a/*/b" ∷ []) ≡ false)
unfolding match_path path_matches_paid_routes
inner_star_missed = (refl, refl)

abbrev catch_all : RouteRule
catch_all = rule_at (str "/**") false

catch_all_takes : match_path (str "/**") (str "/foo") ≡ true
unfolding match_path
catch_all_takes = refl

catch_all-IsWildEnd : has_suffix [] (str "/*") ≡ false
unfolding has_suffix
catch_all-IsWildEnd = refl

not_regular : has_suffix (str "/foo") (str "(.*)") ≡ false
unfolding has_suffix
not_regular = refl

match_path-path_matches_paid_routes_example :
    (path_matches_paid_routes (str "/foo") (collect_paid_paths (catch_all ∷ [])) ≡ true) ↔ (
      (trim_right [] slash ≢ [])
      ⊎ ((trim_right (str "/foo") slash ≡ []) ⊎ ◌≡◌ {A = Str} (str "/foo") (str "/**")))
match_path-path_matches_paid_routes_example =
    match_path-path_matches_paid_routes catch_all [] any_depth (str "/foo") refl refl
      (catch_all-IsWildEnd, inr refl) not_regular catch_all_takes

-- A paid rule for all paths leaves a path of an Ingress that is not the root with its own backend.
catch_all_unredirected :
    path_matches_paid_routes (str "/foo") (collect_paid_paths (catch_all ∷ [])) ≡ false
unfolding path_matches_paid_routes collect_paid_paths
catch_all_unredirected = refl
