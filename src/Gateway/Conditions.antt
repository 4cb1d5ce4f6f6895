-- ===== src/Gateway/Conditions.antt =====
-- internal/gateway/conditions.go: whether the conditions of a rule ask for payment.
pub mod Decides
use x402_k8s_operator.Base.{Bool, true}
use x402_k8s_operator.Base.{List, [], ◌∷◌}
use x402_k8s_operator.Base.{str, ◌==◌, if◌then◌else◌}
use x402_k8s_operator.Base.Text.{is_empty}
use x402_k8s_operator.Routestore.{CompiledCondition}
use x402_k8s_operator.Gateway.Request.{Request}

unfoldable pub evaluate_conditions : Request → List CompiledCondition → Bool
unfolding ◌==◌
evaluate_conditions r [] = true
evaluate_conditions r (cond ∷ conditions) =
    let header_val = r.header cond.header in
    let rest = evaluate_conditions r conditions in
    if is_empty header_val
    then rest
    else if cond.pattern header_val
    then cond.action == str "pay"
    else rest
