-- ===== src/Controller/Compile.antt =====
-- internal/controller/x402route_controller.go: `compileRoute`.
pub mod Fields
use x402_k8s_operator.Base.{
  Option, none, some, List, [], ◌∷◌, Bool, Str, str, if◌then◌else◌, Result, ok, err,
}
use x402_k8s_operator.Base.Text.{is_empty}
use x402_k8s_operator.Base.Table.{Table}
use x402_k8s_operator.Routestore.{CompiledCondition, CompiledRule, CompiledRoute}
use x402_k8s_operator.Controller.Api.{PaymentCondition, RouteRule, X402Route}
use x402_k8s_operator.Controller.Validation.{UrlError, Url, Ip, validate_facilitator_url}
use x402_k8s_operator.Controller.Ingresses.{IngressRule, Ingress}

pub data CompileError : Type 0 where
  bad_facilitator : UrlError → CompileError
  bad_pattern : Str → CompileError

-- The libraries that the compilation calls: `url.Parse`, `net.ParseIP`, and `regexp.Compile` with the
-- test that its result makes.
pub record Parsers : Type 0 where
  pub parse_url : Str → Option Url
  pub parse_ip : Str → Option Ip
  pub compile_pattern : Str → Option (Str → Bool)

infixl 5 ◌>>=◌
abbrev pub ◌>>=◌ : {E A B : Type 0} → Result E A → (A → Result E B) → Result E B
ok a >>= f = f a
err e >>= f = err e

abbrev pub require_pattern : Str → Option (Str → Bool) → Result CompileError (Str → Bool)
require_pattern pattern none = err (bad_pattern pattern)
require_pattern pattern (some re) = ok re

abbrev pub require_facilitator : Result UrlError (Unit {0}) → Result CompileError (Unit {0})
require_facilitator (err e) = err (bad_facilitator e)
require_facilitator (ok u) = ok u

abbrev pub or_text : Str → Str → Str
or_text s default = if is_empty s then default else s

-- The results of a round for each element, or the first error.
unfoldable pub collect : {E A B : Type 0} → (A → Result E B) → List A → Result E (List B)
collect one [] = ok []
collect one (a ∷ xs) = do b ← one a; ys ← collect one xs; ok (b ∷ ys)

-- The hosts that the rules of an Ingress name.
unfoldable pub hosts_of : List IngressRule → List Str
hosts_of [] = []
hosts_of (rule ∷ rules) =
    let rest = hosts_of rules in if is_empty rule.host then rest else rule.host ∷ rest

abbrev pub facilitator_of : X402Route → Str
facilitator_of route =
    or_text route.spec.payment.facilitator_url (str "https://x402.org/facilitator")

abbrev pub compiled_with : X402Route → Table Str → Ingress → List CompiledRule → CompiledRoute
compiled_with route backends ingress rules = record {
  name = route.name;
  namespace = route.namespace;
  hosts = hosts_of ingress.rules;
  wallet = route.spec.payment.wallet;
  network = route.spec.payment.network;
  facilitator_url = facilitator_of route;
  default_price = route.spec.payment.default_price;
  rules = rules;
  backends = backends;
}

module _ (parsers : Parsers) where
  abbrev pub compile_condition : PaymentCondition → Result CompileError CompiledCondition
  compile_condition cond = do
    re ← require_pattern cond.pattern (parsers.compile_pattern cond.pattern)
    ok (record { header = cond.header; pattern = re; action = cond.action })

  unfoldable pub compile_conditions :
      List PaymentCondition → Result CompileError (List CompiledCondition)
  unfolding collect
  compile_conditions = collect compile_condition

  abbrev pub compile_rule : Str → RouteRule → Result CompileError CompiledRule
  compile_rule default_price rule = do
    conditions ← compile_conditions rule.conditions
    ok (record {
      path = rule.path;
      price = or_text rule.price default_price;
      free = rule.free;
      mode = or_text rule.mode (str "all-pay");
      conditions = conditions;
    })

  unfoldable pub compile_rules : Str → List RouteRule → Result CompileError (List CompiledRule)
  unfolding collect compile_conditions
  compile_rules default_price = collect (compile_rule default_price)

  -- `compileRoute` behind the check of the URL.
  abbrev pub compile_valid : X402Route → Table Str → Ingress → Result CompileError CompiledRoute
  compile_valid route backends ingress = do
    rules ← compile_rules route.spec.payment.default_price route.spec.routes
    ok (compiled_with route backends ingress rules)

  -- `compileRoute`
  unfoldable pub compile_route : X402Route → Table Str → Ingress → Result CompileError CompiledRoute
  unfolding validate_facilitator_url compile_rules hosts_of
  compile_route route backends ingress = do
    _ ←
        require_facilitator
          (validate_facilitator_url parsers.parse_url parsers.parse_ip (facilitator_of route))
    compile_valid route backends ingress
