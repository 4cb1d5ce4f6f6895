-- ===== src/Controller/Ingresses/Patch/Redirected.antt =====
-- What holds of every path behind a change of each.
use x402_k8s_operator.Base.{List, [], ◌∷◌, map, Str, All, Option-cases, inl, inr}
use x402_k8s_operator.Controller.Ingresses.{IngressPath, IngressRule}
use x402_k8s_operator.Controller.Ingresses.Paths.{AllPaths}
use x402_k8s_operator.Controller.Ingresses.Patch.{with_paths, redirect_path, redirect_rules}

module _ (P Q : IngressPath → Type 0) where
  mapped_paths :
      (f : IngressPath → IngressPath)
      → ((p : IngressPath) → P p → Q (f p))
      → (paths : List IngressPath) → All P paths
      → All Q (map f paths)
  mapped_paths f each [] _ = tt
  mapped_paths f each (p ∷ paths) (h, hs) = (each p h, mapped_paths f each paths hs)

  pub AllPaths-with_paths :
      (f : IngressPath → IngressPath)
      → ((p : IngressPath) → P p → Q (f p))
      → (rules : List IngressRule) → AllPaths P rules
      → AllPaths Q (map (with_paths f) rules)
  AllPaths-with_paths f each [] _ = tt
  AllPaths-with_paths f each (rule ∷ rules) (h, hs) = (
    elim (Option-cases rule.http) [
      | inl bare ↦ rw bare tt
      | inr (paths, filled) ↦ rw filled (mapped_paths f each paths (rw filled at h))
    ],
    AllPaths-with_paths f each rules hs,
  )

  pub redirect_rules-AllPaths :
      (svc_name : Str) (paid_paths : List Str)
      → ((p : IngressPath) → P p → Q (redirect_path svc_name paid_paths p))
      → (rules : List IngressRule) → AllPaths P rules
      → AllPaths Q (redirect_rules svc_name paid_paths rules)
  unfolding redirect_rules
  redirect_rules-AllPaths svc_name paid_paths =
      AllPaths-with_paths (redirect_path svc_name paid_paths)
