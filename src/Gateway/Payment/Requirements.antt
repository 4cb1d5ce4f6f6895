-- ===== src/Gateway/Payment/Requirements.antt =====
-- The structures of internal/gateway/payment.go, and `buildPaymentRequirements`.
pub mod Laws
use x402_k8s_operator.Base.{ℕ}
use x402_k8s_operator.Base.{Option, none, some, List, [], ◌∷◌}
use x402_k8s_operator.Base.{Str, str}
use x402_k8s_operator.Base.{Result, ok, err}
use x402_k8s_operator.Base.Table.{lookup}
use x402_k8s_operator.Routestore.{CompiledRoute}
use x402_k8s_operator.Gateway.Request.{Request}
use x402_k8s_operator.Gateway.Payment.Networks.{
  AssetInfo, network_assets, network_to_chain_id, network_asset_info, usdc,
}
use x402_k8s_operator.Gateway.Payment.Units.{Rat, PriceError, human_to_atomic_units}

pub record PaymentResource : Type 0 where
  pub url : Str
  pub description : Str
  pub mime_type : Str

pub record PaymentExtra : Type 0 where
  pub name : Str
  pub version : Str

pub record PaymentAccept : Type 0 where
  pub scheme : Str
  pub network : Str
  pub amount : Str
  pub pay_to : Str
  pub max_timeout_seconds : ℕ
  pub asset : Str
  pub extra : Option PaymentExtra

pub record PaymentRequirements : Type 0 where
  pub x402_version : ℕ
  pub resource : Option PaymentResource
  pub accepts : List PaymentAccept
  pub error : Str

-- The value of a Go map at a key, which is the zero value where the key is missing.
abbrev pub or_default {ℓ} : {A : Type ℓ} → Option A → A → A
or_default none d = d
or_default (some a) d = a

unfoldable pub chain_of : Str → Str
unfolding lookup
chain_of network = or_default (lookup network network_to_chain_id) network

unfoldable pub info_of : Str → AssetInfo
unfolding lookup
info_of chain = or_default (lookup chain network_asset_info) usdc

abbrev pub requirements_of : Request → CompiledRoute → Str → PaymentRequirements
requirements_of r route amount =
    let chain_id = chain_of route.network in
    let info = info_of chain_id in
    record {
      x402_version = 2;
      resource = some (record {
        url = r.url_text;
        description = str "Payment required to access this resource";
        mime_type = [];
      });
      accepts =
          record {
            scheme = str "exact";
            network = chain_id;
            amount = amount;
            pay_to = route.wallet;
            max_timeout_seconds = 300;
            asset = or_default (lookup route.network network_assets) [];
            extra = some (record { name = info.name; version = info.version });
          }
          ∷ [];
      error = [];
    }

abbrev pub with_amount :
    Request → CompiledRoute → Result PriceError Str → Result PriceError PaymentRequirements
with_amount r route (err e) = err e
with_amount r route (ok atomic_amount) = ok (requirements_of r route atomic_amount)

-- `buildPaymentRequirements`
unfoldable pub build_payment_requirements :
    (set_string : Str → Option Rat)
    → Request
    → CompiledRoute
    → Str
    → Result PriceError PaymentRequirements
build_payment_requirements set_string r route price =
    let info = info_of (chain_of route.network) in
    with_amount r route (human_to_atomic_units set_string price info.decimals)
