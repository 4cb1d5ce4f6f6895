-- ===== src/Gateway/Payment/Requirements/Laws.antt =====
-- What a demand for payment asks for.
use x402_k8s_operator.Base.{◌≡◌, refl, sym, ap, ◌∙◌}
use x402_k8s_operator.Base.{[]}
use x402_k8s_operator.Base.{◌↔◌, inl, inr}
use x402_k8s_operator.Base.{Option, some}
use x402_k8s_operator.Base.{Str}
use x402_k8s_operator.Base.{Option-cases, All, Result, ok, err, ok_inj}
use x402_k8s_operator.Base.Table.{lookup, All_lookup}
use x402_k8s_operator.Routestore.{CompiledRoute}
use x402_k8s_operator.Gateway.Request.{Request}
use x402_k8s_operator.Gateway.Payment.Networks.{
  network_assets, network_to_chain_id, network_asset_info, network_to_chain_id-consistent,
}
use x402_k8s_operator.Gateway.Payment.Units.{Rat, PriceError, human_to_atomic_units}
use x402_k8s_operator.Gateway.Payment.Requirements.{
  PaymentRequirements, or_default, chain_of, info_of, requirements_of, with_amount,
  build_payment_requirements,
}

-- Every chain counts in six decimals: those of the table, and any other by default.
info_of-decimals : (chain : Str) → (info_of chain).decimals ≡ 6
unfolding info_of
info_of-decimals chain = elim (Option-cases (lookup chain network_asset_info)) [
  | inl missing ↦ rw missing
  | inr (info, found) ↦
      rw found (All_lookup (λ entry. entry.1.decimals ≡ 6) chain info network_asset_info six found)
]
  where
    six : All (λ entry. entry.1.decimals ≡ 6) network_asset_info
    six = (refl, (refl, (refl, (refl, (refl, (refl, tt))))))

-- A chain stands for itself.
chain_of-chain :
    (network chain : Str) → lookup network network_to_chain_id ≡ some chain → chain_of chain ≡ chain
unfolding chain_of lookup
chain_of-chain network chain =
    All_lookup (λ entry. chain_of entry.1 ≡ entry.1) network chain network_to_chain_id
      (refl, (refl, (refl, (refl, (refl, (refl, tt))))))

chain_of-network :
    (network chain : Str)
    → lookup network network_to_chain_id ≡ some chain
    → chain_of network ≡ chain
unfolding chain_of
chain_of-network network chain found = rw found

with_amount_iff :
    (r : Request) (route : CompiledRoute) (a : Result PriceError Str) (reqs : PaymentRequirements)
    → (with_amount r route a ≡ ok reqs)
      ↔ ((amount : Str) × (a ≡ ok amount) × (reqs ≡ requirements_of r route amount))
with_amount_iff r route (err e) reqs = (λ h. absurd (cc h), λ (amount, good, _). absurd (cc good))
with_amount_iff r route (ok a) reqs = (
  λ h. (a, refl, sym (ok_inj _ _ h)),
  λ (amount, same, e).
      ap (λ x. ok (requirements_of r route x)) (ok_inj a amount same) ∙ ap ok (sym e),
)

build_in_six :
    (set_string : Str → Option Rat) (r : Request) (route : CompiledRoute) (price : Str)
    → build_payment_requirements set_string r route price
      ≡ with_amount r route (human_to_atomic_units set_string price 6)
unfolding build_payment_requirements
build_in_six set_string r route price =
    ap (λ d. with_amount r route (human_to_atomic_units set_string price d))
      (info_of-decimals (chain_of route.network))

-- Requirements are built just when the price converts to an amount of six decimals, and they ask
-- for that amount, for the wallet of the route, by the one method.
pub build_payment_requirements_iff :
    (set_string : Str → Option Rat) (r : Request) (route : CompiledRoute) (price : Str)
    (reqs : PaymentRequirements)
    → (build_payment_requirements set_string r route price ≡ ok reqs) ↔ (
        (amount : Str) × (human_to_atomic_units set_string price 6 ≡ ok amount)
        × (reqs ≡ requirements_of r route amount))
build_payment_requirements_iff set_string r route price reqs =
    rw (build_in_six set_string r route price) (with_amount_iff r route _ reqs)

assets_agree :
    (network chain : Str)
    → lookup network network_to_chain_id ≡ some chain
    → or_default (lookup network network_assets) [] ≡ or_default (lookup chain network_assets) []
assets_agree network chain found =
    ap (λ a. or_default a []) (network_to_chain_id-consistent network chain found).0

requirements_of_alias :
    (r : Request) (route : CompiledRoute) (chain amount : Str)
    → lookup route.network network_to_chain_id ≡ some chain
    → requirements_of r route amount ≡ requirements_of r (record route { network = chain }) amount
requirements_of_alias r route chain amount found =
    let to_chain : chain_of route.network ≡ chain_of chain =
      chain_of-network route.network chain found ∙ sym (chain_of-chain route.network chain found) in
    rw (to_chain, assets_agree route.network chain found)

with_amount_alias :
    (r : Request) (route : CompiledRoute) (chain : Str)
    → lookup route.network network_to_chain_id ≡ some chain
    → (a : Result PriceError Str)
    → with_amount r route a ≡ with_amount r (record route { network = chain }) a
with_amount_alias r route chain found (err e) = refl
with_amount_alias r route chain found (ok amount) =
    ap ok (requirements_of_alias r route chain amount found)

-- A route that gives its network by the friendly name asks for the same payment as one that gives
-- the chain which that name stands for.
pub build_payment_requirements_alias :
    (set_string : Str → Option Rat) (r : Request) (route : CompiledRoute) (price chain : Str)
    → lookup route.network network_to_chain_id ≡ some chain
    → build_payment_requirements set_string r route price
      ≡ build_payment_requirements set_string r (record route { network = chain }) price
build_payment_requirements_alias set_string r route price chain found =
    build_in_six set_string r route price
    ∙ with_amount_alias r route chain found (human_to_atomic_units set_string price 6)
    ∙ sym (build_in_six set_string r (record route { network = chain }) price)
