-- ===== src/Controller/PathMatch/Covers.antt =====
-- The paths of an Ingress that internal/controller/x402route_controller.go redirects, against the
-- paths that `matchPath` of internal/gateway/matching.go takes for the same rule.
use x402_k8s_operator.Base.{
  ◌≡◌, refl, sym, ap, ◌∙◌, ◌≢◌, ◌↔◌, ◌⊎◌, inl, inr, true, false, [], ◌∷◌, ◌++◌, Str, str,
  append_assoc, arith,
}
use x402_k8s_operator.Base.Text.{has_suffix, trim_right}
use x402_k8s_operator.Base.Text.Affixes.{trim_suffix-append, trim_suffix_keep}
use x402_k8s_operator.Base.Text.Trim.{trim_right-ne-cut}
use x402_k8s_operator.Gateway.Matching.{slash, any_depth, one_star, match_path}
use x402_k8s_operator.Gateway.Matching.Spec.{Below, root, at_base, under}
use x402_k8s_operator.Gateway.Matching.Decides.{
  match_below_sound, match_wild_deep, match_wild_starred, starred-ne-deep,
}
use x402_k8s_operator.Gateway.Matching.Slashes.{match_path-match_wild}
use x402_k8s_operator.Controller.Api.{RouteRule}
use x402_k8s_operator.Controller.PathMatch.{
  collect_paid_paths, root_if_empty, clean_ingress_path, clean_paid_path, is_redirected_by,
  path_matches_paid_routes,
}
use x402_k8s_operator.Controller.PathMatch.Bases.{Overlap, below_root, is_redirected_by_iff}

-- A wildcard at the end of a pattern, behind a text that does not end in "/*" itself.
abbrev pub IsWildEnd : Str → Str → Type 0
IsWildEnd raw wild = (has_suffix raw one_star ≡ false) × ((wild ≡ one_star) ⊎ (wild ≡ any_depth))

clean_ingress_path_plain :
    (path : Str)
    → has_suffix path (str "(.*)") ≡ false
    → clean_ingress_path path ≡ root_if_empty (trim_right path slash)
unfolding clean_ingress_path
clean_ingress_path_plain path plain = rw (trim_suffix_keep path (str "(.*)") plain)

clean_paid_path_wild :
    (raw wild : Str)
    → IsWildEnd raw wild
    → clean_paid_path (raw ++ wild) ≡ root_if_empty (trim_right raw slash)
unfolding clean_paid_path
clean_paid_path_wild raw wild (once, inl e) = rw (
  e,
  trim_suffix_keep (raw ++ one_star) any_depth (starred-ne-deep raw),
  trim_suffix-append raw one_star,
)
clean_paid_path_wild raw wild (once, inr e) =
    rw (e, trim_suffix-append raw any_depth, trim_suffix_keep raw one_star once)

Below-of_match_path :
    (raw wild path : Str)
    → IsWildEnd raw wild
    → match_path (raw ++ wild) path ≡ true
    → Below (trim_right raw slash) path
Below-of_match_path raw wild path (_, inl e) h = match_below_sound raw path (
    sym (match_wild_starred raw path)
    ∙ sym (match_path-match_wild (raw ++ one_star) path)
    ∙ rw e at h)
Below-of_match_path raw wild path (_, inr e) h = match_below_sound raw path (
    sym (match_wild_deep raw path)
    ∙ sym (match_path-match_wild (raw ++ any_depth) path)
    ∙ rw e at h)

root_of_clean : (clean : Str) → clean ≢ str "/" → root_if_empty clean ≡ str "/" → clean ≡ []
root_of_clean [] h e = refl
root_of_clean (c ∷ clean) h e = absurd (h e)

module _ (path paid : Str) where
  Overlap-below :
      (prefix clean rest : Str)
      → prefix ≢ []
      → prefix ≢ str "/"
      → clean ≡ prefix ++ slash ∷ rest
      → Overlap path paid (root_if_empty clean) (root_if_empty prefix)
  Overlap-below [] clean rest some_left proper e = absurd (some_left refl)
  Overlap-below (c ∷ prefix) clean rest some_left proper e =
      rw e (inr (inl (proper, (rest, sym (append_assoc (c ∷ prefix) (str "/") rest)))))

  -- What the gateway takes for a pattern with a base is redirected.
  Overlap-of_Below :
      (prefix : Str)
      → prefix ≢ []
      → prefix ≢ str "/"
      → Below prefix path
      → Overlap path paid (root_if_empty (trim_right path slash)) (root_if_empty prefix)
  Overlap-of_Below prefix some_left proper (root e) = absurd (some_left e)
  Overlap-of_Below prefix some_left proper (at_base e) = inl (ap root_if_empty e)
  Overlap-of_Below prefix some_left proper (under rest e) =
      Overlap-below prefix (trim_right path slash) rest some_left proper e

  root_of_Overlap :
      (clean : Str)
      → clean ≢ str "/"
      → Overlap path paid (root_if_empty clean) (str "/")
      → (clean ≡ []) ⊎ (path ≡ paid)
  root_of_Overlap clean proper (inl e) = inl (root_of_clean clean proper e)
  root_of_Overlap clean proper (inr (inl (other, below))) = absurd (other refl)
  root_of_Overlap clean proper (inr (inr (inl e))) = inl (root_of_clean clean proper e)
  root_of_Overlap clean proper (inr (inr (inr (inl (rest, e))))) = absurd (below_root clean rest e)
  root_of_Overlap clean proper (inr (inr (inr (inr e)))) = inr e

  Overlap-of_root :
      (clean : Str)
      → (clean ≡ []) ⊎ (path ≡ paid)
      → Overlap path paid (root_if_empty clean) (str "/")
  Overlap-of_root clean (inl e) = inl (ap root_if_empty e)
  Overlap-of_root clean (inr e) = inr (inr (inr (inr e)))

  -- A pattern without a base overlaps with the root and with itself only.
  bare_iff :
      (clean : Str)
      → clean ≢ str "/"
      → Overlap path paid (root_if_empty clean) (str "/")
        ↔ ((◌≢◌ {A = Str} [] []) ⊎ ((clean ≡ []) ⊎ (path ≡ paid)))
  bare_iff clean proper =
      (λ o. inr (root_of_Overlap clean proper o), λ h. Overlap-of_root clean (behind h))
    where
      behind : (◌≢◌ {A = Str} [] []) ⊎ ((clean ≡ []) ⊎ (path ≡ paid)) → (clean ≡ []) ⊎ (path ≡ paid)
      behind (inl h) = absurd (h refl)
      behind (inr h) = h

  Overlap-iff :
      (prefix : Str)
      → prefix ≢ str "/"
      → Below prefix path
      → Overlap path paid (root_if_empty (trim_right path slash)) (root_if_empty prefix)
        ↔ ((prefix ≢ []) ⊎ ((trim_right path slash ≡ []) ⊎ (path ≡ paid)))
  Overlap-iff [] proper below = bare_iff (trim_right path slash) (trim_right-ne-cut slash path)
  Overlap-iff (c ∷ prefix) proper below =
      (λ _. inl (λ h. cc h), λ _. Overlap-of_Below (c ∷ prefix) (λ h. cc h) proper below)

one_paid :
    (rule : RouteRule) (path : Str)
    → rule.free ≡ false
    → path_matches_paid_routes path (collect_paid_paths (rule ∷ []))
      ≡ is_redirected_by path rule.path
unfolding collect_paid_paths path_matches_paid_routes
one_paid rule path priced = rw priced (ground arith)

-- A path of an Ingress, not a regular expression, that the gateway's matcher takes for a rule that
-- is not free and ends in "/*" or "/**", behind a text that does not end in "/*", is redirected
-- exactly if something but slashes stands before that end, or the path is the root or the pattern
-- itself: with "/**" for a pattern the gateway charges for every path, and only the root goes to it.
pub match_path-path_matches_paid_routes :
    (rule : RouteRule) (raw wild path : Str)
    → rule.free ≡ false
    → rule.path ≡ raw ++ wild
    → IsWildEnd raw wild
    → has_suffix path (str "(.*)") ≡ false
    → match_path rule.path path ≡ true
    → (path_matches_paid_routes path (collect_paid_paths (rule ∷ [])) ≡ true)
      ↔ ((trim_right raw slash ≢ []) ⊎ ((trim_right path slash ≡ []) ⊎ (path ≡ rule.path)))
match_path-path_matches_paid_routes rule raw wild path priced e wild_end plain h =
    let below = Below-of_match_path raw wild path wild_end (rw e at h) in
    let decides =
      Overlap-iff path rule.path (trim_right raw slash) (trim_right-ne-cut slash raw) below in
    let (sound, complete) = is_redirected_by_iff path rule.path in
    let clean : clean_ingress_path path ≡ root_if_empty (trim_right path slash) =
      clean_ingress_path_plain path plain in
    let clean_paid : clean_paid_path rule.path ≡ root_if_empty (trim_right raw slash) =
      ap clean_paid_path e ∙ clean_paid_path_wild raw wild wild_end in
    rw (one_paid rule path priced) (
      λ redirected. decides.0 (rw (clean, clean_paid) at sound redirected),
      λ h. complete (rw (clean, clean_paid) (decides.1 h)),
    )
