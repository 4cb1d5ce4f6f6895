-- ===== src/Controller/Api/DeepCopy.antt =====
-- api/v1alpha1/zz_generated.deepcopy.go: the deep copies, over the memory behind the slices. The
-- metadata of an object and a condition are copied by apimachinery, as values.
pub mod Isolated
use x402_k8s_operator.Base.{ℕ, Bool, refl, Option, none, some, ◌∷◌, Str}
use x402_k8s_operator.Controller.Api.{
  PaymentCondition, PaymentDefaults, IngressReference, Condition,
}
use x402_k8s_operator.Controller.Api.Regions.{
  Region, Slice, Grows, Grows-refl, Grows-trans, cons-Grows,
}
use x402_k8s_operator.Controller.Api.Copies.{Memory}
use x402_k8s_operator.Controller.Api.Slices.{Area, copy_slice}

-- The structures as they are stored, with slices for their lists.
pub record StoredRule : Type 0 where
  pub path : Str
  pub price : Str
  pub free : Bool
  pub mode : Str
  pub conditions : Slice

pub record StoredSpec : Type 0 where
  pub ingress_ref : IngressReference
  pub payment : PaymentDefaults
  pub routes : Slice

pub record StoredStatus : Type 0 where
  pub ingress_patched : Bool
  pub ready : Bool
  pub active_routes : ℕ
  pub conditions : Slice

-- The metadata and the type of an object are of any type.
pub record StoredRoute (M : Type 0) : Type 0 where
  pub type_meta : Str
  pub object_meta : M
  pub spec : StoredSpec
  pub status : StoredStatus

pub record StoredList (M : Type 0) : Type 0 where
  pub type_meta : Str
  pub list_meta : M
  pub items : Slice

pub record Heap (M : Type 0) : Type 0 where
  pub rule_conditions : Region PaymentCondition
  pub rules : Region StoredRule
  pub conditions : Region Condition
  pub items : Region (StoredRoute M)

module _ {M : Type 0} where
  abbrev pub memory : Memory (Heap M)
  memory = record {
    Extends = λ h h'.
        Grows h.rule_conditions h'.rule_conditions
        × Grows h.rules h'.rules
        × Grows h.conditions h'.conditions
        × Grows h.items h'.items;
    extends_refl = λ h. (
      Grows-refl h.rule_conditions,
      Grows-refl h.rules,
      Grows-refl h.conditions,
      Grows-refl h.items,
    );
    extends_trans = λ h h' h'' (a, b, c, d) (a', b', c', d'). (
      Grows-trans h.rule_conditions h'.rule_conditions h''.rule_conditions a a',
      Grows-trans h.rules h'.rules h''.rules b b',
      Grows-trans h.conditions h'.conditions h''.conditions c c',
      Grows-trans h.items h'.items h''.items d d',
    );
  }

  abbrev pub rule_conditions_area : Area memory PaymentCondition
  rule_conditions_area = record {
    region = λ h. h.rule_conditions;
    put = λ xs h. record h { rule_conditions = xs ∷ h.rule_conditions };
    extends_grows = λ h h' e. e.0;
    region_put = λ xs h. refl;
    put_extends = λ xs h. (
      cons-Grows xs h.rule_conditions,
      Grows-refl h.rules,
      Grows-refl h.conditions,
      Grows-refl h.items,
    );
  }

  abbrev pub rules_area : Area memory StoredRule
  rules_area = record {
    region = λ h. h.rules;
    put = λ xs h. record h { rules = xs ∷ h.rules };
    extends_grows = λ h h' e. e.1;
    region_put = λ xs h. refl;
    put_extends = λ xs h. (
      Grows-refl h.rule_conditions,
      cons-Grows xs h.rules,
      Grows-refl h.conditions,
      Grows-refl h.items,
    );
  }

  abbrev pub conditions_area : Area memory Condition
  conditions_area = record {
    region = λ h. h.conditions;
    put = λ xs h. record h { conditions = xs ∷ h.conditions };
    extends_grows = λ h h' e. e.2;
    region_put = λ xs h. refl;
    put_extends = λ xs h. (
      Grows-refl h.rule_conditions,
      Grows-refl h.rules,
      cons-Grows xs h.conditions,
      Grows-refl h.items,
    );
  }

  abbrev pub items_area : Area memory (StoredRoute M)
  items_area = record {
    region = λ h. h.items;
    put = λ xs h. record h { items = xs ∷ h.items };
    extends_grows = λ h h' e. e.3;
    region_put = λ xs h. refl;
    put_extends = λ xs h. (
      Grows-refl h.rule_conditions,
      Grows-refl h.rules,
      Grows-refl h.conditions,
      cons-Grows xs h.items,
    );
  }

  -- `DeepCopyInto` of each type takes the structure to its copy.
  abbrev pub copy_ingress_reference : IngressReference → Heap M → IngressReference × Heap M
  copy_ingress_reference ref h = (ref, h)

  abbrev pub copy_payment_condition : PaymentCondition → Heap M → PaymentCondition × Heap M
  copy_payment_condition cond h = (cond, h)

  abbrev pub copy_payment_defaults : PaymentDefaults → Heap M → PaymentDefaults × Heap M
  copy_payment_defaults payment h = (payment, h)

  unfoldable pub copy_rule : StoredRule → Heap M → StoredRule × Heap M
  unfolding copy_slice
  copy_rule rule h =
      let o = copy_slice rule_conditions_area copy_payment_condition rule.conditions h in
      (record rule { conditions = o.0 }, o.1)

  unfoldable pub copy_spec : StoredSpec → Heap M → StoredSpec × Heap M
  unfolding copy_slice copy_rule
  copy_spec spec h =
      let o = copy_slice rules_area copy_rule spec.routes h in (record spec { routes = o.0 }, o.1)

  -- `DeepCopy` of each type, of a pointer that may be nil.
  abbrev pub deep_copy :
      {A : Type 0} → (A → Heap M → A × Heap M) → Option A → Heap M → Option A × Heap M
  deep_copy copy none h = (none, h)
  deep_copy copy (some a) h = let o = copy a h in (some o.0, o.1)

  abbrev pub deep_copy_ingress_reference :
      Option IngressReference → Heap M → Option IngressReference × Heap M
  deep_copy_ingress_reference = deep_copy copy_ingress_reference

  abbrev pub deep_copy_payment_condition :
      Option PaymentCondition → Heap M → Option PaymentCondition × Heap M
  deep_copy_payment_condition = deep_copy copy_payment_condition

  abbrev pub deep_copy_payment_defaults :
      Option PaymentDefaults → Heap M → Option PaymentDefaults × Heap M
  deep_copy_payment_defaults = deep_copy copy_payment_defaults

  abbrev pub deep_copy_rule : Option StoredRule → Heap M → Option StoredRule × Heap M
  deep_copy_rule = deep_copy copy_rule

  abbrev pub deep_copy_spec : Option StoredSpec → Heap M → Option StoredSpec × Heap M
  deep_copy_spec = deep_copy copy_spec

  module _ (copy_condition : Condition → Condition) (copy_meta : M → M) where
    unfoldable pub copy_status : StoredStatus → Heap M → StoredStatus × Heap M
    unfolding copy_slice
    copy_status status h =
        let o = copy_slice conditions_area (λ c h. (copy_condition c, h)) status.conditions h in
        (record status { conditions = o.0 }, o.1)

    unfoldable pub copy_route : StoredRoute M → Heap M → StoredRoute M × Heap M
    unfolding copy_spec copy_status
    copy_route route h =
        let s = copy_spec route.spec h in
        let t = copy_status route.status s.1 in
        (record route { object_meta = copy_meta route.object_meta; spec = s.0; status = t.0 }, t.1)

    unfoldable pub copy_list : StoredList M → Heap M → StoredList M × Heap M
    unfolding copy_slice copy_route
    copy_list list h =
        let o = copy_slice items_area copy_route list.items h in
        (record list { list_meta = copy_meta list.list_meta; items = o.0 }, o.1)

    abbrev pub deep_copy_status : Option StoredStatus → Heap M → Option StoredStatus × Heap M
    deep_copy_status = deep_copy copy_status

    -- `DeepCopy` and `DeepCopyObject` of the two kinds of objects; the second returns the first.
    abbrev pub deep_copy_route : Option (StoredRoute M) → Heap M → Option (StoredRoute M) × Heap M
    deep_copy_route = deep_copy copy_route

    abbrev pub deep_copy_list : Option (StoredList M) → Heap M → Option (StoredList M) × Heap M
    deep_copy_list = deep_copy copy_list
