-- ===== src/Controller/PathMatch.antt =====
-- internal/controller/x402route_controller.go: which paths of an Ingress go to the gateway.
pub mod Bases
pub mod Redirects
pub mod Covers
use x402_k8s_operator.Base.{
  Bool, true, false, not, ◌&&◌, ◌||◌, List, [], ◌∷◌, ◌++◌, Str, str, ◌==◌, if◌then◌else◌,
}
use x402_k8s_operator.Base.Text.{is_empty, has_prefix, trim_suffix, trim_right}
use x402_k8s_operator.Controller.Api.{RouteRule}

-- `collectPaidPaths`
unfoldable pub collect_paid_paths : List RouteRule → List Str
collect_paid_paths [] = []
collect_paid_paths (rule ∷ rules) =
    let rest = collect_paid_paths rules in if not rule.free then rule.path ∷ rest else rest

abbrev pub root_if_empty : Str → Str
root_if_empty s = if is_empty s then str "/" else s

unfoldable pub clean_ingress_path : Str → Str
unfolding trim_suffix trim_right
clean_ingress_path ingress_path =
    root_if_empty (trim_right (trim_suffix ingress_path (str "(.*)")) b'/')

unfoldable pub clean_paid_path : Str → Str
unfolding trim_suffix trim_right
clean_paid_path paid =
    root_if_empty (trim_right (trim_suffix (trim_suffix paid (str "/**")) (str "/*")) b'/')

-- One round of the loop of `pathMatchesPaidRoutes`.
unfoldable pub is_redirected_by : Str → Str → Bool
unfolding clean_ingress_path clean_paid_path ◌==◌ has_prefix
is_redirected_by ingress_path paid =
    let clean_ingress = clean_ingress_path ingress_path in
    let clean_paid = clean_paid_path paid in
    if clean_ingress == clean_paid
    then true
    else if not (clean_paid == str "/") && has_prefix clean_ingress (clean_paid ++ str "/")
    then true
    else if clean_ingress == str "/" || has_prefix clean_paid (clean_ingress ++ str "/")
    then true
    else ingress_path == paid

-- `pathMatchesPaidRoutes`
unfoldable pub path_matches_paid_routes : Str → List Str → Bool
unfolding is_redirected_by
path_matches_paid_routes ingress_path [] = false
path_matches_paid_routes ingress_path (paid ∷ paid_paths) =
    is_redirected_by ingress_path paid || path_matches_paid_routes ingress_path paid_paths
