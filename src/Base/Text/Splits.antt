-- ===== src/Base/Text/Splits.antt =====
-- What splits give back.
use x402_k8s_operator.Base.{ℕ, ◌≡◌, false, arith, [], ◌∷◌, ◌++◌, Str, eqb, Bool-cases, inl, inr}
use x402_k8s_operator.Base.Text.{contains_byte, split_two}

pub split_two-append :
    (s t : Str) (sep : ℕ)
    → contains_byte s sep ≡ false
    → split_two (s ++ (sep ∷ []) ++ t) sep ≡ s ∷ t ∷ []
unfolding split_two contains_byte
split_two-append [] t sep h = ground arith
split_two-append (c ∷ s) t sep h = elim (Bool-cases (eqb c sep)) [
  | inl colon ↦ cc (rw colon at h)
  | inr other ↦ rw (other, split_two-append s t sep (rw other at h))
]
