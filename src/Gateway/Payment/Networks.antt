-- ===== src/Gateway/Payment/Networks.antt =====
-- The tables of networks in internal/gateway/payment.go.
use x402_k8s_operator.Base.{ℕ, ◌≡◌, refl}
use x402_k8s_operator.Base.{◌≢◌}
use x402_k8s_operator.Base.{some, [], ◌∷◌}
use x402_k8s_operator.Base.{Str, str}
use x402_k8s_operator.Base.{All}
use x402_k8s_operator.Base.Table.{Table, lookup, All_lookup}
use mathlib.Core.List.{cons-ne-nil}

pub record AssetInfo : Type 0 where
  pub name : Str
  pub version : Str
  pub decimals : ℕ

-- `networkAssets`
abbrev pub network_assets : Table Str
network_assets =
    (str "base", str "0x833589fCD6eDb6E08f4c7C32D4f71b54bdA02913")
    ∷ (str "eip155:8453", str "0x833589fCD6eDb6E08f4c7C32D4f71b54bdA02913")
    ∷ (str "base-sepolia", str "0x036CbD53842c5426634e7929541eC2318f3dCF7e")
    ∷ (str "eip155:84532", str "0x036CbD53842c5426634e7929541eC2318f3dCF7e")
    ∷ (str "avalanche", str "0xB97EF9Ef8734C71904D8002F8b6Bc66Dd9c48a6E")
    ∷ (str "eip155:43114", str "0xB97EF9Ef8734C71904D8002F8b6Bc66Dd9c48a6E")
    ∷ (str "avalanche-fuji", str "0x5425890298aed601595a70AB815c96711a31Bc65")
    ∷ (str "eip155:43113", str "0x5425890298aed601595a70AB815c96711a31Bc65")
    ∷ (str "solana", str "EPjFWdd5AufqSSqeM2qN1xzybapC8G4wEGGkZwyTDt1v")
    ∷ (
      str "solana:5eykt4UsFv8P8NJdTREpY1vzqKqZKvdp",
      str "EPjFWdd5AufqSSqeM2qN1xzybapC8G4wEGGkZwyTDt1v",
    )
    ∷ (str "solana-devnet", str "4zMMC9srt5Ri5X14GAgXhaHii3GnPAEERYPJgZJDncDU")
    ∷ (
      str "solana:EtWTRABZaYq6iMfeYKouRu166VU2xqa1",
      str "4zMMC9srt5Ri5X14GAgXhaHii3GnPAEERYPJgZJDncDU",
    )
    ∷ []

-- `networkToChainID`
abbrev pub network_to_chain_id : Table Str
network_to_chain_id =
    (str "base", str "eip155:8453")
    ∷ (str "base-sepolia", str "eip155:84532")
    ∷ (str "avalanche", str "eip155:43114")
    ∷ (str "avalanche-fuji", str "eip155:43113")
    ∷ (str "solana", str "solana:5eykt4UsFv8P8NJdTREpY1vzqKqZKvdp")
    ∷ (str "solana-devnet", str "solana:EtWTRABZaYq6iMfeYKouRu166VU2xqa1")
    ∷ []

abbrev pub usdc : AssetInfo
usdc = record { name = str "USDC"; version = str "2"; decimals = 6 }

-- `networkAssetInfo`
abbrev pub network_asset_info : Table AssetInfo
network_asset_info =
    (str "eip155:8453", usdc)
    ∷ (str "eip155:84532", usdc)
    ∷ (str "eip155:43114", usdc)
    ∷ (str "eip155:43113", usdc)
    ∷ (str "solana:5eykt4UsFv8P8NJdTREpY1vzqKqZKvdp", usdc)
    ∷ (str "solana:EtWTRABZaYq6iMfeYKouRu166VU2xqa1", usdc)
    ∷ []

-- What has to hold of a friendly name and its chain.
abbrev IsListed : Str × Str → Type 0
IsListed (network, chain) =
    (lookup network network_assets ≡ lookup chain network_assets)
    × ((asset : Str) × (lookup chain network_assets ≡ some asset) × (asset ≢ []))
    × (lookup chain network_asset_info ≡ some usdc)

All-IsListed : All IsListed network_to_chain_id
unfolding lookup
All-IsListed =
    let listed : (asset : Str) (c : ℕ) → c ∷ asset ≢ [] = λ asset c. cons-ne-nil c asset in
    (
      (refl, (_, refl, listed _ _), refl),
      (
        (refl, (_, refl, listed _ _), refl),
        (
          (refl, (_, refl, listed _ _), refl),
          (
            (refl, (_, refl, listed _ _), refl),
            ((refl, (_, refl, listed _ _), refl), ((refl, (_, refl, listed _ _), refl), tt)),
          ),
        ),
      ),
    )

-- A friendly network name and the chain that it stands for have the same asset, which is not empty,
-- and the chain is a USDC chain of six decimals.
pub network_to_chain_id-consistent :
    (network chain : Str)
    → lookup network network_to_chain_id ≡ some chain
    → (lookup network network_assets ≡ lookup chain network_assets)
      × ((asset : Str) × (lookup chain network_assets ≡ some asset) × (asset ≢ []))
      × (lookup chain network_asset_info ≡ some usdc)
network_to_chain_id-consistent network chain =
    All_lookup IsListed network chain network_to_chain_id All-IsListed
