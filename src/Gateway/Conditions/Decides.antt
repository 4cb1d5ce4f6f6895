-- ===== src/Gateway/Conditions/Decides.antt =====
-- The first condition that fires decides, and without one payment is asked for.
use x402_k8s_operator.Base.Text.Affixes.{is_empty_iff}
use x402_k8s_operator.Base.{◌≡◌}
use x402_k8s_operator.Base.{◌≢◌, ◌↔◌, inl, inr, Bool, true, false, not, ◌&&◌}
use x402_k8s_operator.Base.{List, [], ◌∷◌, arith}
use x402_k8s_operator.Base.{str, ◌==◌, ==_iff, ==_ne, if◌then◌else◌}
use x402_k8s_operator.Base.{Bool-cases}
use x402_k8s_operator.Base.Text.{is_empty}
use x402_k8s_operator.Routestore.{CompiledCondition}
use x402_k8s_operator.Gateway.Request.{Request}
use x402_k8s_operator.Gateway.Conditions.{evaluate_conditions}

-- The request has the header, and the pattern matches its value.
abbrev pub Fires : Request → CompiledCondition → Type 0
Fires r cond = (r.header cond.header ≢ []) × (cond.pattern (r.header cond.header) ≡ true)

-- The first condition that fires has another action than "pay".
pub data Waives (r : Request) : List CompiledCondition → Type 0 where
  here :
      {cond : CompiledCondition} {rest : List CompiledCondition}
      → Fires r cond
      → cond.action ≢ str "pay"
      → Waives r (cond ∷ rest)
  later :
      {cond : CompiledCondition} {rest : List CompiledCondition}
      → ¬ Fires r cond
      → Waives r rest
      → Waives r (cond ∷ rest)

fires : Request → CompiledCondition → Bool
fires r cond = not (is_empty (r.header cond.header)) && cond.pattern (r.header cond.header)

fires_iff : (r : Request) (cond : CompiledCondition) → (fires r cond ≡ true) ↔ Fires r cond
unfolding fires
fires_iff r cond = ground (arith, is_empty_iff (r.header cond.header))

evaluate_conditions-cons :
    (r : Request) (cond : CompiledCondition) (conditions : List CompiledCondition)
    → evaluate_conditions r (cond ∷ conditions)
      ≡ (if fires r cond then cond.action == str "pay" else evaluate_conditions r conditions)
unfolding evaluate_conditions fires
evaluate_conditions-cons r cond conditions = ground arith

evaluate_conditions_waived :
    (r : Request) (conditions : List CompiledCondition)
    → Waives r conditions
    → evaluate_conditions r conditions ≡ false
evaluate_conditions_waived r [] w = elim w [ ]
evaluate_conditions_waived r (cond ∷ conditions) (here f ne) =
    rw (evaluate_conditions-cons, (fires_iff r cond).1 f) (==_ne _ _ ne)
evaluate_conditions_waived r (cond ∷ conditions) (later nf w) =
    rw evaluate_conditions-cons
      (ground (arith, fires_iff r cond, evaluate_conditions_waived r conditions w))

waived_of_evaluate_conditions :
    (r : Request) (conditions : List CompiledCondition)
    → evaluate_conditions r conditions ≡ false
    → Waives r conditions
waived_of_evaluate_conditions r [] h = unfold evaluate_conditions in cc
waived_of_evaluate_conditions r (cond ∷ conditions) h = elim (Bool-cases (fires r cond)) [
  | inl f ↦
      here ((fires_iff r cond).0 f) (λ pay.
        cc ((==_iff cond.action (str "pay")).1 pay, (rw (evaluate_conditions-cons, f) at h)))
  | inr nf ↦
      later (λ f. cc ((fires_iff r cond).1 f))
        (waived_of_evaluate_conditions r conditions (rw (evaluate_conditions-cons, nf) at h))
]

-- Conditions waive payment exactly when there is a condition that fires, and the first of these has
-- another action than "pay"; without one that fires payment is asked for.
pub evaluate_conditions_iff :
    (r : Request) (conditions : List CompiledCondition)
    → (evaluate_conditions r conditions ≡ false) ↔ Waives r conditions
evaluate_conditions_iff r conditions =
    (waived_of_evaluate_conditions r conditions, evaluate_conditions_waived r conditions)
