-- ===== src/Gateway/Matching/Spec.antt =====
-- What a pattern means, with no reference to how the code finds out.
use x402_k8s_operator.Base.{◌≡◌}
use x402_k8s_operator.Base.{◌⊎◌}
use x402_k8s_operator.Base.{List, [], ◌∷◌, ◌++◌}
use x402_k8s_operator.Base.{Str, str}
use x402_k8s_operator.Base.Text.{trim_right, trim, split}
use x402_k8s_operator.Gateway.Matching.{slash, any_depth, one_star}

-- The path, without trailing slashes, is the base or lies under it; everything lies under the root.
pub data Below (base path : Str) : Type 0 where
  root : base ≡ [] → Below base path
  at_base : trim_right path slash ≡ base → Below base path
  under : (rest : Str) → trim_right path slash ≡ base ++ slash ∷ rest → Below base path

pub data PartMatches (pattern part : Str) : Type 0 where
  star : pattern ≡ str "*" → PartMatches pattern part
  literal : pattern ≡ part → PartMatches pattern part

-- Part by part, and as many parts.
abbrev pub PartsMatch : List Str → List Str → Type 0
PartsMatch [] [] = Unit
PartsMatch [] (q ∷ qs) = ⊥
PartsMatch (p ∷ ps) [] = ⊥
PartsMatch (p ∷ ps) (q ∷ qs) = PartMatches p q × PartsMatch ps qs

abbrev pub HasWildEnd : Str → Type 0
HasWildEnd pattern =
    ((raw : Str) × (pattern ≡ raw ++ any_depth)) ⊎ ((raw : Str) × (pattern ≡ raw ++ one_star))

pub data Matches (pattern path : Str) : Type 0 where
  exact : pattern ≡ path → Matches pattern path
  deep :
      (raw : Str)
      → pattern ≡ raw ++ any_depth
      → Below (trim_right raw slash) path
      → Matches pattern path
  starred :
      (raw : Str)
      → pattern ≡ raw ++ one_star
      → Below (trim_right raw slash) path
      → Matches pattern path
  parts :
      ¬ HasWildEnd pattern
      → PartsMatch (split (trim pattern slash) slash) (split (trim path slash) slash)
      → Matches pattern path
