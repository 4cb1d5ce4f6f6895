-- ===== src/Tests/Copying.antt =====
-- The deep copies of api/v1alpha1 in a concrete memory.
use x402_k8s_operator.Base.{◌≡◌, refl, false, none, some, [], ◌∷◌, Str, str, arith}
use x402_k8s_operator.Controller.Api.{PaymentCondition}
use x402_k8s_operator.Controller.Api.Regions.{read}
use x402_k8s_operator.Controller.Api.DeepCopy.{
  StoredRule, StoredRoute, StoredList, Heap, memory, copy_list, copy_rule, deep_copy,
}
use x402_k8s_operator.Controller.Api.DeepCopy.Isolated.{list_shape, copy_list-isolated}

abbrev agents_pay : PaymentCondition
agents_pay = record { header = str "User-Agent"; pattern = str "bot"; action = str "pay" }

abbrev stored_rule : StoredRule
stored_rule = record {
  path = str "/api/*";
  price = [];
  free = false;
  mode = str "conditional";
  conditions = some 0;
}

abbrev stored_route : StoredRoute Str
stored_route = record {
  type_meta = str "X402Route";
  object_meta = str "shop";
  spec = record {
    ingress_ref = record { name = str "shop"; namespace = [] };
    payment = record {
      wallet = str "0xabc";
      network = str "base";
      default_price = str "0.001";
      facilitator_url = [];
    };
    routes = some 0;
  };
  status = record { ingress_patched = false; ready = false; active_routes = 0; conditions = none };
}

abbrev heap : Heap Str
heap = record {
  rule_conditions = (agents_pay ∷ []) ∷ [];
  rules = (stored_rule ∷ []) ∷ [];
  conditions = [];
  items = (stored_route ∷ []) ∷ [];
}

abbrev stored_list : StoredList Str
stored_list = record { type_meta = str "X402RouteList"; list_meta = []; items = some 0 }

is_valid : list_shape.Valid heap stored_list
unfolding read
is_valid = (ground arith, (((ground arith, ((ground arith, (tt, tt)), tt)), (tt, tt)), tt))

copy_list-isolated_example :
    let o = copy_list (λ c. c) (λ m. m) stored_list heap in
    (list_shape.view o.1 o.0 ≡ list_shape.view heap stored_list)
    × (list_shape.view o.1 stored_list ≡ list_shape.view heap stored_list)
    × list_shape.New heap o.1 o.0
    × memory.Extends heap o.1
copy_list-isolated_example =
    copy_list-isolated (λ c. c) (λ m. m) (λ c. refl) (λ m. refl) stored_list heap is_valid

-- The copy of a rule has a new array of its conditions; a nil pointer has no copy.
copy_tests :
    ((copy_rule stored_rule heap).0.conditions ≡ some 1)
    × ((deep_copy copy_rule none heap).0 ≡ none)
unfolding copy_rule
copy_tests = (refl, refl)
