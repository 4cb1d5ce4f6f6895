-- ===== src/Tests/Compiling.antt =====
-- `compileRoute` of internal/controller on a concrete route.
use x402_k8s_operator.Base.{
  ◌≡◌, refl, ◌↔◌, true, false, none, some, [], ◌∷◌, str, ◌==◌, if◌then◌else◌, ok, Pointwise,
}
use x402_k8s_operator.Routestore.{CompiledRoute}
use x402_k8s_operator.Controller.Api.{X402Route}
use x402_k8s_operator.Controller.Validation.{validate_facilitator_url}
use x402_k8s_operator.Controller.Compile.{Parsers, compile_route}
use x402_k8s_operator.Controller.Compile.Fields.{CompilesRule, HoldsFields, compile_route_iff}
use x402_k8s_operator.Tests.Controlling.{parse_url, parse_ip, shop_rules}
use x402_k8s_operator.Tests.Patching.{shop_ingress}

abbrev pub parsers : Parsers
parsers = record {
  parse_url = parse_url;
  parse_ip = parse_ip;
  compile_pattern = λ pattern. if pattern == str "(" then none else some (λ s. s == pattern);
}

abbrev pub shop_route : X402Route
shop_route = record {
  name = str "shop";
  namespace = str "default";
  generation = 1;
  is_deleting = false;
  finalizers = [];
  status = record { ingress_patched = false; ready = false; active_routes = 0; conditions = [] };
  spec = record {
    ingress_ref = record { name = str "shop"; namespace = [] };
    payment = record {
      wallet = str "0xabc";
      network = str "base";
      default_price = str "0.001";
      facilitator_url = [];
    };
    routes = shop_rules;
  };
}

abbrev pub compiled_shop : CompiledRoute
compiled_shop = record {
  name = str "shop";
  namespace = str "default";
  hosts = str "shop.example" ∷ [];
  wallet = str "0xabc";
  network = str "base";
  facilitator_url = str "https://x402.org/facilitator";
  default_price = str "0.001";
  rules =
      record {
        path = str "/docs/**";
        price = str "0.001";
        free = true;
        mode = str "all-pay";
        conditions = [];
      }
      ∷ record {
        path = str "/api/*";
        price = str "0.001";
        free = false;
        mode = str "all-pay";
        conditions = [];
      }
      ∷ [];
  backends = [];
}

shop_compiles : compile_route parsers shop_route [] shop_ingress ≡ ok compiled_shop
unfolding compile_route
shop_compiles = refl

compile_route_iff_example :
    (compile_route parsers shop_route [] shop_ingress ≡ ok compiled_shop) ↔ (
      (validate_facilitator_url parse_url parse_ip (str "https://x402.org/facilitator") ≡ ok tt)
      × Pointwise (CompilesRule parsers (str "0.001")) shop_rules compiled_shop.rules
      × HoldsFields shop_route [] shop_ingress compiled_shop)
compile_route_iff_example = compile_route_iff parsers shop_route [] shop_ingress compiled_shop
