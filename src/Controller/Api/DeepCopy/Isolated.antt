-- ===== src/Controller/Api/DeepCopy/Isolated.antt =====
-- A deep copy stands for the same resource and shares no array with it.
use x402_k8s_operator.Base.{◌≡◌, refl, ap, ◌∙◌, List, Str}
use x402_k8s_operator.Controller.Api.{
  PaymentCondition, RouteRule, X402RouteSpec, X402RouteStatus, Condition,
}
use x402_k8s_operator.Controller.Api.Regions.{Slice}
use x402_k8s_operator.Controller.Api.Copies.{Shape, IsStable, IsDeepCopy}
use x402_k8s_operator.Controller.Api.Slices.{slice_shape, slice-IsStable, copy_slice-IsDeepCopy}
use x402_k8s_operator.Controller.Api.DeepCopy.{
  StoredRule, StoredSpec, StoredStatus, StoredRoute, StoredList, Heap, memory, rule_conditions_area,
  rules_area, conditions_area, items_area, copy_payment_condition, copy_rule, copy_spec,
  copy_status, copy_route, copy_list,
}

ap2 : {A B C : Type 0} {a a' : A} {b b' : B} (f : A → B → C) → a ≡ a' → b ≡ b' → f a b ≡ f a' b'
ap2 {a' = a'} {b = b} f p q = ap (λ x. f x b) p ∙ ap (f a') q

abbrev pub build_rule : StoredRule → List PaymentCondition → RouteRule
build_rule rule conditions = record {
  path = rule.path;
  price = rule.price;
  free = rule.free;
  mode = rule.mode;
  conditions = conditions;
}

abbrev pub build_spec : StoredSpec → List RouteRule → X402RouteSpec
build_spec spec routes = record {
  ingress_ref = spec.ingress_ref;
  payment = spec.payment;
  routes = routes;
}

abbrev pub build_status : StoredStatus → List Condition → X402RouteStatus
build_status status conditions = record {
  ingress_patched = status.ingress_patched;
  ready = status.ready;
  active_routes = status.active_routes;
  conditions = conditions;
}

module _ {M : Type 0} where
  -- A value without slices.
  abbrev pub flat_shape : {A : Type 0} → Shape (Heap M) A A
  flat_shape = record { Valid = λ h a. Unit; New = λ h h' a. Unit; view = λ h a. a }

  flat-IsStable : {A : Type 0} → IsStable memory (flat_shape {A = A})
  flat-IsStable = (λ h h' a e v. (tt, refl, λ before n. tt), λ before h h' a e n. tt)

  -- A structure with one slice.
  abbrev pub with_slice :
      {A C B : Type 0} → Shape (Heap M) Slice C → (A → Slice) → (A → C → B) → Shape (Heap M) A B
  with_slice shape get build = record {
    Valid = λ h a. shape.Valid h (get a);
    New = λ h h' a. shape.New h h' (get a);
    view = λ h a. build a (shape.view h (get a));
  }

  with_slice-IsStable :
      {A C B : Type 0} (shape : Shape (Heap M) Slice C) (get : A → Slice) (build : A → C → B)
      → IsStable memory shape
      → IsStable memory (with_slice shape get build)
  with_slice-IsStable shape get build stable = (
    λ h h' a e v. let (v', same, n') = stable.0 h h' (get a) e v in (v', ap (build a) same, n'),
    λ before h h' a e n. stable.1 before h h' (get a) e n,
  )

  abbrev pub rule_shape : Shape (Heap M) StoredRule RouteRule
  rule_shape =
      with_slice (slice_shape rule_conditions_area flat_shape) (λ r. r.conditions) build_rule

  rule-IsStable : IsStable memory rule_shape
  rule-IsStable =
      with_slice-IsStable _ (λ r. r.conditions) build_rule
        (slice-IsStable rule_conditions_area flat_shape flat-IsStable)

  copy_rule-IsDeepCopy : IsDeepCopy memory rule_shape copy_rule
  unfolding copy_rule
  copy_rule-IsDeepCopy rule h v =
      let (e, v', n, same) =
        copy_slice-IsDeepCopy rule_conditions_area flat_shape copy_payment_condition flat-IsStable
          (λ a h v. (memory.extends_refl h, tt, tt, refl)) rule.conditions h v in
      (e, v', n, ap (build_rule rule) same)

  abbrev pub spec_shape : Shape (Heap M) StoredSpec X402RouteSpec
  spec_shape = with_slice (slice_shape rules_area rule_shape) (λ s. s.routes) build_spec

  spec-IsStable : IsStable memory spec_shape
  spec-IsStable =
      with_slice-IsStable _ (λ s. s.routes) build_spec
        (slice-IsStable rules_area rule_shape rule-IsStable)

  copy_spec-IsDeepCopy : IsDeepCopy memory spec_shape copy_spec
  unfolding copy_spec
  copy_spec-IsDeepCopy spec h v =
      let (e, v', n, same) =
        copy_slice-IsDeepCopy rules_area rule_shape copy_rule rule-IsStable copy_rule-IsDeepCopy
          spec.routes h v in
      (e, v', n, ap (build_spec spec) same)

  abbrev pub status_shape : Shape (Heap M) StoredStatus X402RouteStatus
  status_shape =
      with_slice (slice_shape conditions_area flat_shape) (λ s. s.conditions) build_status

  status-IsStable : IsStable memory status_shape
  status-IsStable =
      with_slice-IsStable _ (λ s. s.conditions) build_status
        (slice-IsStable conditions_area flat_shape flat-IsStable)

  -- A route stands for its type, its metadata, its specification and its status.
  abbrev pub route_shape :
      Shape (Heap M) (StoredRoute M) (Str × M × X402RouteSpec × X402RouteStatus)
  route_shape = record {
    Valid = λ h r. spec_shape.Valid h r.spec × status_shape.Valid h r.status;
    New = λ h h' r. spec_shape.New h h' r.spec × status_shape.New h h' r.status;
    view =
        λ h r. (r.type_meta, r.object_meta, spec_shape.view h r.spec, status_shape.view h r.status);
  }

  route-IsStable : IsStable memory route_shape
  route-IsStable = (
    λ h h' r e (v, w).
        let (v', same, n) = spec-IsStable.0 h h' r.spec e v in
        let (w', same', n') = status-IsStable.0 h h' r.status e w in
        (
          (v', w'),
          ap2 (λ s t. (r.type_meta, r.object_meta, s, t)) same same',
          λ before (m, m'). (n before m, n' before m'),
        ),
    λ before h h' r e (n, n').
        (spec-IsStable.1 before h h' r.spec e n, status-IsStable.1 before h h' r.status e n'),
  )

  abbrev pub list_shape :
      Shape (Heap M) (StoredList M) (Str × M × List (Str × M × X402RouteSpec × X402RouteStatus))
  list_shape =
      with_slice (slice_shape items_area route_shape) (λ l. l.items)
        (λ l items. (l.type_meta, l.list_meta, items))

  -- apimachinery copies metadata and conditions to equal values.
  module _ (copy_condition : Condition → Condition) (copy_meta : M → M)
      (same_condition : (c : Condition) → copy_condition c ≡ c)
      (same_meta : (m : M) → copy_meta m ≡ m) where
    copy_status-IsDeepCopy : IsDeepCopy memory status_shape (copy_status copy_condition copy_meta)
    unfolding copy_status
    copy_status-IsDeepCopy status h v =
        let (e, v', n, same) =
          copy_slice-IsDeepCopy conditions_area flat_shape (λ c h. (copy_condition c, h))
            flat-IsStable (λ c h v. (memory.extends_refl h, tt, tt, same_condition c))
            status.conditions h v in
        (e, v', n, ap (build_status status) same)

    copy_route-IsDeepCopy : IsDeepCopy memory route_shape (copy_route copy_condition copy_meta)
    unfolding copy_route
    copy_route-IsDeepCopy route h (v, w) =
        let (e1, v1, n1, s1) = copy_spec-IsDeepCopy route.spec h v in
        let h1 : Heap M = (copy_spec route.spec h).1 in
        let (w1, t1, _) = status-IsStable.0 h h1 route.status e1 w in
        let (e2, w2, n2, s2) = copy_status-IsDeepCopy route.status h1 w1 in
        let (status, h2) = copy_status copy_condition copy_meta route.status h1 in
        let spec : StoredSpec = (copy_spec route.spec h).0 in
        let (v2, t2, m2) = spec-IsStable.0 h1 h2 spec e2 v1 in
        (
          memory.extends_trans h h1 h2 e1 e2,
          (v2, w2),
          (m2 h n1, status-IsStable.1 h h1 h2 status e1 n2),
          ap (λ m. (route.type_meta, m, spec_shape.view h2 spec, status_shape.view h2 status))
                (same_meta route.object_meta)
              ∙ ap2 (λ s t. (route.type_meta, route.object_meta, s, t)) (t2 ∙ s1) (s2 ∙ t1),
        )

    -- The deep copy of a list whose slices are arrays of the memory stands for the same type,
    -- metadata and items; it refers to new arrays only, at every depth, and leaves the arrays that
    -- were there, so that the list stands for what it did before.
    pub copy_list-isolated :
        (list : StoredList M) (h : Heap M)
        → list_shape.Valid h list
        → let o = copy_list copy_condition copy_meta list h in
          (list_shape.view o.1 o.0 ≡ list_shape.view h list)
          × (list_shape.view o.1 list ≡ list_shape.view h list)
          × list_shape.New h o.1 o.0
          × memory.Extends h o.1
    unfolding copy_list
    copy_list-isolated list h v =
        let (e, v', n, same) =
          copy_slice-IsDeepCopy items_area route_shape (copy_route copy_condition copy_meta)
            route-IsStable copy_route-IsDeepCopy list.items h v in
        let o = copy_list copy_condition copy_meta list h in
        let (_, kept, _) =
          (slice-IsStable items_area route_shape route-IsStable).0 h o.1 list.items e v in
        (
          ap (λ m. (list.type_meta, m, (slice_shape items_area route_shape).view o.1 o.0.items))
                (same_meta list.list_meta)
              ∙ ap (λ items. (list.type_meta, list.list_meta, items)) same,
          ap (λ items. (list.type_meta, list.list_meta, items)) kept,
          n,
          e,
        )
