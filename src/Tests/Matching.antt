-- ===== src/Tests/Matching.antt =====
-- internal/gateway: matching, conditions and the choice of a backend on concrete inputs.
use mathlib.Core.List.{Permᴰ}
use mathlib.Core.List.{cons-ne-nil}
use x402_k8s_operator.Base.{◌≡◌, refl}
use x402_k8s_operator.Base.{◌↔◌, inl, inr, true, false}
use x402_k8s_operator.Base.{[], ◌∷◌, ◌++◌}
use x402_k8s_operator.Base.{Str, str, ◌==◌, if◌then◌else◌}
use x402_k8s_operator.Base.{Elem}
use x402_k8s_operator.Base.Table.{Table, lookup, values}
use x402_k8s_operator.Base.Reorder.{reorder_refl}
use x402_k8s_operator.Routestore.{CompiledCondition}
use x402_k8s_operator.Gateway.Request.{Request}
use x402_k8s_operator.Gateway.Matching.{slash, any_depth, one_star, match_path}
use x402_k8s_operator.Gateway.Matching.Spec.{Matches}
use x402_k8s_operator.Gateway.Matching.Decides.{match_path_iff}
use x402_k8s_operator.Gateway.Matching.Slashes.{
  match_path-concat, match_path_star-any_depth, match_path_under,
}
use x402_k8s_operator.Gateway.Conditions.{evaluate_conditions}
use x402_k8s_operator.Gateway.Conditions.Decides.{Waives, evaluate_conditions_iff}
use x402_k8s_operator.Gateway.Proxy.{find_backend}
use x402_k8s_operator.Gateway.Proxy.Choice.{
  find_backend_determined, find_backend-Elem, find_backend_any,
}

matching : Unit {0}
unfolding match_path find_backend evaluate_conditions lookup values ◌==◌
matching = tt

match_path_tests :
    (match_path (str "/api/v1/users") (str "/api/v1/users") ≡ true)
    × (match_path (str "/api/v1/*") (str "/api/v1/users") ≡ true)
    × (match_path (str "/api/v1/*") (str "/api/v1/users/123") ≡ true)
    × (match_path (str "/api/v1/**") (str "/api/v1/users/123/posts") ≡ true)
    × (match_path (str "/api/*/users") (str "/api/v2/users/") ≡ true)
    × (match_path (str "/api/*/users") (str "/api/v2/x/users") ≡ false)
    × (match_path (str "/api/*") (str "/apiary") ≡ false)
    × (match_path (str "/**") (str "/") ≡ true)
unfolding matching
match_path_tests = (refl, refl, refl, refl, refl, refl, refl, refl)

match_path_iff_example :
    (match_path (str "/api/*/users") (str "/api/v2/users") ≡ true)
    ↔ Matches (str "/api/*/users") (str "/api/v2/users")
match_path_iff_example = match_path_iff (str "/api/*/users") (str "/api/v2/users")

match_path-concat_example :
    match_path (str "/api/*") (str "/api/x" ++ slash ∷ [])
    ≡ match_path (str "/api/*") (str "/api/x")
match_path-concat_example = match_path-concat (str "/api/*") (str "/api/x")

match_path_star-any_depth_test :
    match_path (str "/api" ++ one_star) (str "/api/v1/x")
    ≡ match_path (str "/api" ++ any_depth) (str "/api/v1/x")
match_path_star-any_depth_test = match_path_star-any_depth (str "/api") (str "/api/v1/x")

match_path_under_example :
    match_path (str "/api/v1" ++ one_star) (str "/api/v1" ++ slash ∷ str "users/123") ≡ true
match_path_under_example = match_path_under (str "/api/v1") (str "users/123")

abbrev bot_request : Request
bot_request = record {
  url_path = str "/api/x";
  url_text = str "/api/x";
  host = str "api.example.com";
  header = λ name. if name == str "User-Agent" then str "claude" else [];
}

abbrev bot_condition : CompiledCondition
bot_condition = record {
  header = str "User-Agent";
  pattern = λ value. value == str "claude";
  action = str "free";
}

abbrev absent_condition : CompiledCondition
absent_condition = record {
  header = str "X-Bot-Score";
  pattern = λ value. true;
  action = str "pay";
}

evaluate_conditions_tests :
    (evaluate_conditions bot_request (absent_condition ∷ bot_condition ∷ []) ≡ false)
    × (evaluate_conditions bot_request (absent_condition ∷ []) ≡ true)
    × (evaluate_conditions bot_request
          (bot_condition ∷ (record bot_condition { action = str "pay" }) ∷ [])
        ≡ false)
unfolding matching
evaluate_conditions_tests = (refl, refl, refl)

evaluate_conditions_iff_example :
    (evaluate_conditions bot_request (absent_condition ∷ bot_condition ∷ []) ≡ false)
    ↔ Waives bot_request (absent_condition ∷ bot_condition ∷ [])
evaluate_conditions_iff_example =
    evaluate_conditions_iff bot_request (absent_condition ∷ bot_condition ∷ [])

abbrev two_backends : Table Str
two_backends = (str "/api", str "http://a:80") ∷ (str "/web", str "http://b:80") ∷ []

abbrev swapped_backends : Table Str
swapped_backends = (str "/web", str "http://b:80") ∷ (str "/api", str "http://a:80") ∷ []

swapped : Permᴰ two_backends swapped_backends
swapped = Permᴰ.swap refl refl

find_backend_tests :
    (find_backend two_backends (str "/api") two_backends two_backends ≡ str "http://a:80")
    × (find_backend two_backends (str "/web/") two_backends two_backends ≡ str "http://b:80")
    × (find_backend two_backends (str "/api/users") two_backends two_backends ≡ str "http://a:80")
    × (find_backend two_backends (str "/api/users") two_backends swapped_backends
        ≡ str "http://b:80")
unfolding matching
find_backend_tests = (refl, refl, refl, refl)

find_backend_determined_example :
    find_backend two_backends (str "/web/") swapped_backends two_backends ≡ str "http://b:80"
unfolding matching
find_backend_determined_example =
    find_backend_determined two_backends (str "/web/") (str "http://b:80") swapped_backends
      two_backends swapped
      (inr (refl, (str "/web", inr (inl refl), refl), (λ h. cc, (λ h. refl, tt))))

find_backend-Elem_test :
    Elem
      (find_backend two_backends (str "/x") swapped_backends swapped_backends)
      (values two_backends)
find_backend-Elem_test =
    find_backend-Elem two_backends (str "/x") swapped_backends swapped_backends swapped swapped
      (cons-ne-nil (str "/api", str "http://a:80") ((str "/web", str "http://b:80") ∷ []))

find_backend_any_example :
    (fallback : Table Str) × Permᴰ two_backends fallback
    × (find_backend two_backends (str "/api/users") two_backends fallback ≡ str "http://b:80")
unfolding matching
find_backend_any_example =
    find_backend_any two_backends (str "/api/users") (str "/web") (str "http://b:80") two_backends
      (reorder_refl two_backends) refl (refl, (refl, tt)) (inr (inl refl))
