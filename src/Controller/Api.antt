-- ===== src/Controller/Api.antt =====
-- The resources of api/v1alpha1/x402route_types.go, as far as the controller reads them.
pub mod Regions
pub mod Copies
pub mod Slices
pub mod DeepCopy
use x402_k8s_operator.Base.{ℕ, Bool, List, Str}

pub record PaymentCondition : Type 0 where
  pub header : Str
  pub pattern : Str
  pub action : Str

pub record RouteRule : Type 0 where
  pub path : Str
  pub price : Str
  pub free : Bool
  pub mode : Str
  pub conditions : List PaymentCondition

pub record PaymentDefaults : Type 0 where
  pub wallet : Str
  pub network : Str
  pub default_price : Str
  pub facilitator_url : Str

pub record IngressReference : Type 0 where
  pub name : Str
  pub namespace : Str

pub record X402RouteSpec : Type 0 where
  pub ingress_ref : IngressReference
  pub payment : PaymentDefaults
  pub routes : List RouteRule

-- A `metav1.Condition`, without its time.
pub record Condition : Type 0 where
  pub kind : Str
  pub status : Bool
  pub reason : Str
  pub message : Str
  pub observed_generation : ℕ

pub record X402RouteStatus : Type 0 where
  pub ingress_patched : Bool
  pub ready : Bool
  pub active_routes : ℕ
  pub conditions : List Condition

-- An X402Route with what the controller reads of its metadata.
pub record X402Route : Type 0 where
  pub name : Str
  pub namespace : Str
  pub generation : ℕ
  pub is_deleting : Bool
  pub finalizers : List Str
  pub spec : X402RouteSpec
  pub status : X402RouteStatus
