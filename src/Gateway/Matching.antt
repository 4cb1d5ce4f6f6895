-- ===== src/Gateway/Matching.antt =====
-- internal/gateway/matching.go: whether a request path matches a pattern of a rule.
pub mod Spec
pub mod Decides
pub mod Slashes
use x402_k8s_operator.Base.{ℕ}
use x402_k8s_operator.Base.{Bool, true, false, ◌&&◌, ◌||◌}
use x402_k8s_operator.Base.{List, [], ◌∷◌, ◌++◌}
use x402_k8s_operator.Base.{Str, str, ◌==◌, eqb, if◌then◌else◌}
use x402_k8s_operator.Base.{length}
use x402_k8s_operator.Base.Text.{
  is_empty, has_prefix, has_suffix, trim_suffix, trim_right, trim, split,
}

abbrev pub slash : ℕ
slash = b'/'

abbrev pub any_depth : Str
any_depth = str "/**"

abbrev pub one_star : Str
one_star = str "/*"

-- The body that the branches of "/**" and "/*" share, on the pattern without that suffix.
unfoldable pub match_below : Str → Str → Bool
unfolding ◌==◌ has_prefix trim_right
match_below raw path =
    let prefix = trim_right raw slash in
    let clean_path = trim_right path slash in
    if is_empty prefix
    then true
    else clean_path == prefix || has_prefix clean_path (prefix ++ slash ∷ [])

-- The loop over the parts; both lists have one length.
unfoldable pub match_parts : List Str → List Str → Bool
unfolding ◌==◌
match_parts [] path_parts = true
match_parts (pp ∷ pps) [] = false
match_parts (pp ∷ pps) (q ∷ qs) = (pp == str "*" || pp == q) && match_parts pps qs

unfoldable pub match_segments : Str → Str → Bool
unfolding match_parts split trim
match_segments pattern path =
    let pattern_parts = split (trim pattern slash) slash in
    let path_parts = split (trim path slash) slash in
    if eqb (length pattern_parts) (length path_parts)
    then match_parts pattern_parts path_parts
    else false

-- `matchPath` behind its first test.
unfoldable pub match_wild : Str → Str → Bool
unfolding has_suffix trim_suffix match_below match_segments
match_wild pattern path =
    if has_suffix pattern any_depth
    then match_below (trim_suffix pattern any_depth) path
    else if has_suffix pattern one_star
    then match_below (trim_suffix pattern one_star) path
    else match_segments pattern path

unfoldable pub match_path : Str → Str → Bool
unfolding match_wild ◌==◌
match_path pattern path = if pattern == path then true else match_wild pattern path
