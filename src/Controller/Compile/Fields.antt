-- ===== src/Controller/Compile/Fields.antt =====
-- What a compiled route holds.
use x402_k8s_operator.Base.Text.Affixes.{is_empty_iff}
use x402_k8s_operator.Base.{
  ◌≡◌, refl, sym, ap, ◌∙◌, ◌↔◌, some, List, [], ◌∷◌, Str, str, Result, ok, err, ok_inj,
  Option-cases, Bool-cases, inl, inr, ◌≢◌, Pointwise,
}
use mathlib.Core.Path.{subst}
use x402_k8s_operator.Base.Text.{is_empty}
use x402_k8s_operator.Base.Table.{Table}
use x402_k8s_operator.Routestore.{CompiledCondition, CompiledRule, CompiledRoute}
use x402_k8s_operator.Controller.Api.{PaymentCondition, RouteRule, X402Route}
use x402_k8s_operator.Controller.Validation.{UrlError, validate_facilitator_url}
use x402_k8s_operator.Controller.Ingresses.{IngressRule, Ingress}
use x402_k8s_operator.Controller.Compile.{
  CompileError, Parsers, ◌>>=◌, collect, require_facilitator, or_text, compile_condition,
  compile_conditions, compile_rule, compile_rules, compiled_with, compile_valid, facilitator_of,
  hosts_of, compile_route,
}

bind_ok :
    {A B : Type 0} (m : Result CompileError A) (f : A → Result CompileError B) (b : B)
    → ((m >>= f) ≡ ok b) ↔ ((a : A) × (m ≡ ok a) × (f a ≡ ok b))
bind_ok (ok a) f b = (λ h. (a, refl, h), λ (a', e, h). rw (ok_inj a a' e) h)
bind_ok (err e) f b = (λ h. cc, λ (a', e', h). cc)

require_facilitator_iff :
    (r : Result UrlError (Unit {0})) → (require_facilitator r ≡ ok tt) ↔ (r ≡ ok tt)
require_facilitator_iff (ok u) = (λ _. refl, λ _. refl)
require_facilitator_iff (err e) = (λ h. cc h, λ h. cc h)

-- A loop succeeds exactly when its rounds do, one by one.
collect_iff :
    {A B : Type 0} (one : A → Result CompileError B) (R : A → B → Type 0)
    → ((a : A) (b : B) → (one a ≡ ok b) ↔ R a b)
    → (xs : List A) (ys : List B) → (collect one xs ≡ ok ys) ↔ Pointwise R xs ys
unfolding collect
collect_iff one R each [] [] = (λ _. tt, λ _. refl)
collect_iff one R each [] (y ∷ ys) = (λ h. cc (ok_inj _ _ h), λ h. absurd h)
collect_iff one R each (x ∷ xs) [] = (
  λ h.
      let (b, _, h') = (bind_ok (one x) _ []).0 h in
      let (bs, _, h'') = (bind_ok (collect one xs) _ []).0 h' in cc (ok_inj _ _ h''),
  λ h. absurd h,
)
collect_iff one R each (x ∷ xs) (y ∷ ys) = (
  λ h.
      let (b, first, h') = (bind_ok (one x) _ (y ∷ ys)).0 h in
      let (bs, others, h'') = (bind_ok (collect one xs) _ (y ∷ ys)).0 h' in
      let e : b ∷ bs ≡ y ∷ ys = ok_inj _ _ h'' in
      let same_head : b ≡ y = cc e in
      let same_tail : bs ≡ ys = cc e in
      (
        (each x y).0 (rw (same_head) at first),
        (collect_iff one R each xs ys).0 (rw (same_tail) at others),
      ),
  λ (first, others). rw ((each x y).1 first, (collect_iff one R each xs ys).1 others),
)

-- The hosts that are named, in the order of the rules.
pub data NamedHosts : List IngressRule → List Str → Type 0 where
  done : NamedHosts [] []
  bare :
      {rule : IngressRule} {rules : List IngressRule} {hosts : List Str}
      → rule.host ≡ []
      → NamedHosts rules hosts
      → NamedHosts (rule ∷ rules) hosts
  named :
      {rule : IngressRule} {rules : List IngressRule} {hosts : List Str}
      → rule.host ≢ []
      → NamedHosts rules hosts
      → NamedHosts (rule ∷ rules) (rule.host ∷ hosts)

hosts_of-NamedHosts : (rules : List IngressRule) → NamedHosts rules (hosts_of rules)
unfolding hosts_of
hosts_of-NamedHosts [] = done
hosts_of-NamedHosts (rule ∷ rules) = elim (Bool-cases (is_empty rule.host)) [
  | inl none_named ↦
      rw none_named (bare ((is_empty_iff rule.host).0 none_named) (hosts_of-NamedHosts rules))
  | inr some_named ↦
      rw some_named
        (named (λ e. cc ((is_empty_iff rule.host).1 e, some_named)) (hosts_of-NamedHosts rules))
]

NamedHosts-unique :
    (rules : List IngressRule) (hosts : List Str) → NamedHosts rules hosts → hosts_of rules ≡ hosts
unfolding hosts_of
NamedHosts-unique [] hosts done = refl
NamedHosts-unique (rule ∷ rules) hosts (bare e h) =
    rw ((is_empty_iff rule.host).1 e) (NamedHosts-unique rules hosts h)
NamedHosts-unique (rule ∷ rules) (_ ∷ hosts) (named ne h) = elim (Bool-cases (is_empty rule.host)) [
  | inl none_named ↦ absurd (ne ((is_empty_iff rule.host).0 none_named))
  | inr some_named ↦ rw some_named (ap (λ hs. rule.host ∷ hs) (NamedHosts-unique rules hosts h))
]

-- What a compiled route holds besides its rules.
abbrev pub HoldsFields : X402Route → Table Str → Ingress → CompiledRoute → Type 0
HoldsFields route backends ingress compiled =
    (compiled.name ≡ route.name)
    × (compiled.namespace ≡ route.namespace)
    × NamedHosts ingress.rules compiled.hosts
    × (compiled.wallet ≡ route.spec.payment.wallet)
    × (compiled.network ≡ route.spec.payment.network)
    × (compiled.facilitator_url
        ≡ or_text route.spec.payment.facilitator_url (str "https://x402.org/facilitator"))
    × (compiled.default_price ≡ route.spec.payment.default_price)
    × (compiled.backends ≡ backends)

module _ (route : X402Route) (backends : Table Str) (ingress : Ingress)
    (compiled : CompiledRoute) where
  HoldsFields-of :
      compiled ≡ compiled_with route backends ingress compiled.rules
      → HoldsFields route backends ingress compiled
  HoldsFields-of e = (
    ap (λ c. c.name) e,
    ap (λ c. c.namespace) e,
    subst (NamedHosts ingress.rules) (sym (ap (λ c. c.hosts) e))
        (hosts_of-NamedHosts ingress.rules),
    ap (λ c. c.wallet) e,
    ap (λ c. c.network) e,
    ap (λ c. c.facilitator_url) e,
    ap (λ c. c.default_price) e,
    ap (λ c. c.backends) e,
  )

  facilitator_held :
      HoldsFields route backends ingress compiled → compiled.facilitator_url ≡ facilitator_of route
  facilitator_held (_, _, _, _, _, facilitator, _, _) = facilitator

  compiled-fields :
      HoldsFields route backends ingress compiled
      → compiled ≡ compiled_with route backends ingress compiled.rules
  compiled-fields (name, namespace, hosts, wallet, network, facilitator, price, held) = rw (
    sym name,
    sym namespace,
    NamedHosts-unique ingress.rules compiled.hosts hosts,
    sym wallet,
    sym network,
    sym facilitator,
    sym price,
    sym held,
  )

module _ (parsers : Parsers) where
  abbrev pub CompilesCondition : PaymentCondition → CompiledCondition → Type 0
  CompilesCondition cond compiled =
      (compiled.header ≡ cond.header)
      × (compiled.action ≡ cond.action)
      × (parsers.compile_pattern cond.pattern ≡ some compiled.pattern)

  abbrev pub CompilesRule : Str → RouteRule → CompiledRule → Type 0
  CompilesRule default_price rule compiled =
      (compiled.path ≡ rule.path)
      × (compiled.price ≡ or_text rule.price default_price)
      × (compiled.free ≡ rule.free)
      × (compiled.mode ≡ or_text rule.mode (str "all-pay"))
      × Pointwise CompilesCondition rule.conditions compiled.conditions

  compile_condition_iff :
      (cond : PaymentCondition) (compiled : CompiledCondition)
      → (compile_condition parsers cond ≡ ok compiled) ↔ CompilesCondition cond compiled
  compile_condition_iff cond compiled = (
    λ h. elim (Option-cases (parsers.compile_pattern cond.pattern)) [
      | inl bad ↦ cc (rw bad at h)
      | inr (re, good) ↦
          let e : record { header = cond.header; pattern = re; action = cond.action } ≡ compiled =
            ok_inj _ compiled (rw good at h) in
          (
            sym (ap (λ c. c.header) e),
            sym (ap (λ c. c.action) e),
            good ∙ ap some (ap (λ c. c.pattern) e),
          )
    ],
    λ (header, action, good). rw (good, sym header, sym action),
  )

  compile_conditions_iff :
      (conditions : List PaymentCondition) (compiled : List CompiledCondition)
      → (compile_conditions parsers conditions ≡ ok compiled)
        ↔ Pointwise CompilesCondition conditions compiled
  unfolding compile_conditions
  compile_conditions_iff =
      collect_iff (compile_condition parsers) CompilesCondition compile_condition_iff

  compile_rule_iff :
      (default_price : Str) (rule : RouteRule) (compiled : CompiledRule)
      → (compile_rule parsers default_price rule ≡ ok compiled)
        ↔ CompilesRule default_price rule compiled
  compile_rule_iff default_price rule compiled = (
    λ h.
        let (conditions, good, h') = (bind_ok _ _ compiled).0 h in
        let e = ok_inj _ compiled h' in
        (
          sym (ap (λ c. c.path) e),
          sym (ap (λ c. c.price) e),
          sym (ap (λ c. c.free) e),
          sym (ap (λ c. c.mode) e),
          (compile_conditions_iff rule.conditions compiled.conditions).0
              (good ∙ ap ok (ap (λ c. c.conditions) e)),
        ),
    λ (path, price, free, mode, conditions). rw (
      (compile_conditions_iff rule.conditions compiled.conditions).1 conditions,
      sym path,
      sym price,
      sym free,
      sym mode,
    ),
  )

  pub compile_route-compiled_with :
      (route : X402Route) (backends : Table Str) (ingress : Ingress) (compiled : CompiledRoute)
      → (compile_route parsers route backends ingress ≡ ok compiled) ↔ (
          (validate_facilitator_url parsers.parse_url parsers.parse_ip (facilitator_of route)
            ≡ ok tt)
          × Pointwise
              (CompilesRule route.spec.payment.default_price)
              route.spec.routes
              compiled.rules
          × (compiled ≡ compiled_with route backends ingress compiled.rules))
  unfolding compile_route compile_rules
  compile_route-compiled_with route backends ingress compiled =
      let default_price = route.spec.payment.default_price in
      let rules_iff =
        collect_iff (compile_rule parsers default_price) (CompilesRule default_price)
          (compile_rule_iff default_price) route.spec.routes in
      let valid_iff =
        require_facilitator_iff
          (validate_facilitator_url parsers.parse_url parsers.parse_ip (facilitator_of route)) in
      (
        λ h.
            let (_, valid, h') =
              (bind_ok
                  (require_facilitator (
                    validate_facilitator_url parsers.parse_url parsers.parse_ip
                      (facilitator_of route)))
                  (λ _. compile_valid parsers route backends ingress) compiled).0
                h in
            let (rules, good, h'') =
              (bind_ok (compile_rules parsers default_price route.spec.routes)
                  (λ rules. ok (compiled_with route backends ingress rules)) compiled).0
                h' in
            let e : compiled_with route backends ingress rules ≡ compiled = ok_inj _ compiled h'' in
            let same : rules ≡ compiled.rules = ap (λ c. c.rules) e in
            (
              valid_iff.0 valid,
              (rules_iff compiled.rules).0 (good ∙ ap ok same),
              sym e ∙ ap (compiled_with route backends ingress) same,
            ),
        λ (valid, rules, e). rw (valid, (rules_iff compiled.rules).1 rules) (ap ok (sym e)),
      )

  -- A route compiles to this exactly when its facilitator's URL, or the default for an empty one, is
  -- accepted, and each rule and each condition compiles to the one at its place, where the route's
  -- default price and "all-pay" stand in for an empty price and mode, and the name, the namespace,
  -- the wallet, the network and the default price are the route's, the facilitator the accepted one,
  -- the backends those given, and the hosts those that the rules of the Ingress name, in their order.
  pub compile_route_iff :
      (route : X402Route) (backends : Table Str) (ingress : Ingress) (compiled : CompiledRoute)
      → (compile_route parsers route backends ingress ≡ ok compiled) ↔ (
          (validate_facilitator_url parsers.parse_url parsers.parse_ip compiled.facilitator_url
            ≡ ok tt)
          × Pointwise
              (CompilesRule route.spec.payment.default_price)
              route.spec.routes
              compiled.rules
          × HoldsFields route backends ingress compiled)
  compile_route_iff route backends ingress compiled =
      let (sound, complete) = compile_route-compiled_with route backends ingress compiled in
      (
        λ h.
            let (valid, rules, e) = sound h in
            let fields = HoldsFields-of route backends ingress compiled e in
            (rw (facilitator_held route backends ingress compiled fields) valid, rules, fields),
        λ (valid, rules, fields). complete (
          rw (facilitator_held route backends ingress compiled fields) at valid,
          rules,
          compiled-fields route backends ingress compiled fields,
        ),
      )
