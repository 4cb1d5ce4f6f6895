-- ===== src/Controller/Reconciler/Watch.antt =====
-- internal/controller/x402route_controller.go: `ingressToX402Routes`, the routes that an event on an
-- Ingress asks to reconcile.
use x402_k8s_operator.Base.Text.Affixes.{is_empty_iff}
use x402_k8s_operator.Base.{
  ◌≡◌, refl, sym, ap, ◌∙◌, ◌≢◌, ◌↔◌, ◌⊎◌, arith, ==_iff, inl, inr, Bool, true, false, ◌&&◌, List,
  [], ◌∷◌, Option, none, some, Str, str, ◌==◌, ==_refl, if◌then◌else◌, Result, ok, err, Elem,
  Bool-cases, Option-cases,
}
use mathlib.Core.Option.{some-injective}
use x402_k8s_operator.Base.Table.{Table, NodupKeys, lookup, erase, lookup-erase, erase-NodupKeys}
use x402_k8s_operator.Controller.Api.{X402Route}
use x402_k8s_operator.Controller.Ingresses.{
  Ingress, MapCodec, get_annotation, annotation_managed_by, annotation_original_backends,
}
use x402_k8s_operator.Controller.Ingresses.Patch.{
  restored, restored_inj, restore_ingress, restore_from, or_empty,
}
use x402_k8s_operator.Controller.Reconciler.{Client, ingress_namespace}

abbrev pub is_operator : Option Str → Bool
is_operator none = false
is_operator (some v) = v == str "x402-operator"

abbrev pub refers_to : Ingress → X402Route → Bool
refers_to ingress route =
    route.spec.ingress_ref.name == ingress.name && ingress_namespace route == ingress.namespace

-- The namespace and the name of each route that refers to the Ingress.
unfoldable pub requests_of : Ingress → List X402Route → List (Str × Str)
requests_of ingress [] = []
requests_of ingress (route ∷ routes) =
    let rest = requests_of ingress routes in
    if refers_to ingress route then (route.namespace, route.name) ∷ rest else rest

abbrev pub requests_of_listed : Ingress → Result Str (List X402Route) → List (Str × Str)
requests_of_listed ingress (err e) = []
requests_of_listed ingress (ok routes) = requests_of ingress routes

-- `ingressToX402Routes`
unfoldable pub ingress_to_x402_routes : {W : Type 0} → Client W → Ingress → W → List (Str × Str)
unfolding requests_of lookup ◌==◌
ingress_to_x402_routes client ingress w =
    if is_operator (get_annotation ingress annotation_managed_by)
    then requests_of_listed ingress (client.list_routes w)
    else []

erased_mark :
    (annotations : Table Str)
    → NodupKeys annotations
    → lookup annotation_managed_by
        (erase annotation_managed_by (erase annotation_original_backends annotations))
      ≡ none
erased_mark annotations nodup = rw (
  lookup-erase annotation_managed_by annotation_managed_by
      (erase annotation_original_backends annotations)
      (erase-NodupKeys annotation_original_backends annotations nodup),
  ==_refl annotation_managed_by,
)

restored_mark :
    (codec : MapCodec) (ingress back : Ingress) (annotations : Table Str) (stored : Option Str)
    → NodupKeys annotations
    → restore_from codec ingress annotations stored ≡ restored back
    → get_annotation back annotation_managed_by ≡ none
restored_mark codec ingress back annotations none nodup h = cc h
restored_mark codec ingress back annotations (some text) nodup h =
    elim (Option-cases (codec.unmarshal text)) [
      | inl bad ↦ cc (rw bad at h)
      | inr (original, good) ↦
          let e = restored_inj _ back (rw good at h) in
          ap (λ i. get_annotation i annotation_managed_by) (sym e) ∙ erased_mark annotations nodup
    ]

-- A restored Ingress has no mark, so that it asks for no reconciliation by itself.
restored-unmarked :
    {W : Type 0} (client : Client W) (codec : MapCodec) (ingress back : Ingress) (w : W)
    → NodupKeys (or_empty ingress.annotations)
    → restore_ingress codec ingress ≡ restored back
    → ingress_to_x402_routes client back w ≡ []
unfolding ingress_to_x402_routes restore_ingress
restored-unmarked client codec ingress back w nodup h = elim (Option-cases ingress.annotations) [
  | inl bare ↦ cc (rw bare at h)
  | inr (annotations, filled) ↦
      let mark : get_annotation back annotation_managed_by ≡ none =
        restored_mark codec ingress back annotations
          (lookup annotation_original_backends annotations) (rw filled at nodup) (rw filled at h) in
      rw mark
]

-- The route refers to the Ingress by its name, and by its namespace or, without one, from the same
-- namespace.
abbrev pub RefersTo : Ingress → X402Route → Type 0
RefersTo ingress route =
    (route.spec.ingress_ref.name ≡ ingress.name)
    × (((route.spec.ingress_ref.namespace ≢ [])
          × (route.spec.ingress_ref.namespace ≡ ingress.namespace))
        ⊎ ((route.spec.ingress_ref.namespace ≡ []) × (route.namespace ≡ ingress.namespace)))

refers_to_iff :
    (ingress : Ingress) (route : X402Route)
    → (refers_to ingress route ≡ true) ↔ RefersTo ingress route
refers_to_iff ingress route = ground (
  arith,
  is_empty_iff route.spec.ingress_ref.namespace,
  ==_iff route.spec.ingress_ref.name ingress.name,
  ==_iff route.spec.ingress_ref.namespace ingress.namespace,
  ==_iff route.namespace ingress.namespace,
)

abbrev pub IsManaged : Ingress → Type 0
IsManaged ingress = get_annotation ingress annotation_managed_by ≡ some (str "x402-operator")

is_operator_iff :
    (mark : Option Str) → (is_operator mark ≡ true) ↔ (mark ≡ some (str "x402-operator"))
is_operator_iff none = ground arith
is_operator_iff (some v) = (
  λ h. ap some ((==_iff v (str "x402-operator")).0 h),
  λ e. (==_iff v (str "x402-operator")).1 (some-injective v (str "x402-operator") e),
)

-- The request is for one of the routes that refer to the Ingress.
abbrev pub IsFor : Ingress → List X402Route → Str × Str → Type 0
IsFor ingress routes request =
    (route : X402Route) × Elem route routes
    × RefersTo ingress route
    × (request ≡ (route.namespace, route.name))

requested_of :
    (ingress : Ingress) (request : Str × Str) (routes : List X402Route)
    → Elem request (requests_of ingress routes)
    → (route : X402Route) × Elem route routes
      × RefersTo ingress route
      × (request ≡ (route.namespace, route.name))
unfolding requests_of
requested_of ingress request [] m = absurd m
requested_of ingress request (r ∷ rs) m = elim (Bool-cases (refers_to ingress r)) [
  | inr other ↦
      let (route, m', refers, e) = requested_of ingress request rs (rw other at m) in
      (route, inr m', refers, e)
  | inl here ↦ elim (rw here at m) [
    | inl e ↦ (r, inl refl, (refers_to_iff ingress r).0 here, e)
    | inr m' ↦
        let (route, m'', refers, e) = requested_of ingress request rs m' in
        (route, inr m'', refers, e)
  ]
]

request_of :
    (ingress : Ingress) (route : X402Route) (routes : List X402Route)
    → Elem route routes
    → RefersTo ingress route
    → Elem (route.namespace, route.name) (requests_of ingress routes)
unfolding requests_of
request_of ingress route [] m refers = absurd m
request_of ingress route (r ∷ rs) (inl e) refers =
    rw (ap (refers_to ingress) (sym e) ∙ (refers_to_iff ingress route).1 refers)
      (inl (ap (λ x. (x.namespace, x.name)) e))
request_of ingress route (r ∷ rs) (inr m) refers = elim (Bool-cases (refers_to ingress r)) [
  | inl here ↦ rw here (inr (request_of ingress route rs m refers))
  | inr other ↦ rw other (request_of ingress route rs m refers)
]

-- Where the routes can be listed, an Ingress asks to reconcile exactly the namespaces and names of the
-- listed routes that refer to it, by its name and by its namespace or without one from the same
-- namespace, if it has the mark of the operator, and none without the mark.
pub ingress_to_x402_routes_iff :
    {W : Type 0} (client : Client W) (ingress : Ingress) (w : W) (routes : List X402Route)
    (request : Str × Str)
    → client.list_routes w ≡ ok routes
    → Elem request (ingress_to_x402_routes client ingress w)
      ↔ (IsManaged ingress × IsFor ingress routes request)
unfolding ingress_to_x402_routes
ingress_to_x402_routes_iff client ingress w routes request listed =
    let mark = get_annotation ingress annotation_managed_by in
    elim (Bool-cases (is_operator mark)) [
      | inl managed ↦
          rw (managed, listed)
            (
              λ m. ((is_operator_iff mark).0 managed, requested_of ingress request routes m),
              λ (_, (route, m, refers, e)). rw e (request_of ingress route routes m refers),
            )
      | inr other ↦
          rw other (λ m. absurd m, λ (managed, _). cc ((is_operator_iff mark).1 managed, other))
    ]

-- What controller-runtime enqueues for an update of an Ingress, with a function on one Ingress.
abbrev pub Enqueue : Type 0
Enqueue = (Ingress → List (Str × Str)) → Ingress → Ingress → List (Str × Str)

-- As `EnqueueRequestsFromMapFunc` documents: the function is run on both objects of an update, and
-- both sets of requests are enqueued.
abbrev pub MapsBoth : Enqueue → Type 0
MapsBoth enqueue =
    (f : Ingress → List (Str × Str)) (old new : Ingress) (request : Str × Str)
    → Elem request (enqueue f old new) ↔ (Elem request (f old) ⊎ Elem request (f new))

-- Where the requests for both objects of an update are enqueued and the routes can be listed, the
-- update by which a marked Ingress, whose annotations have distinct keys, is restored asks to
-- reconcile exactly the listed routes that refer to the Ingress, though the restored one asks for
-- none: also the other routes on it, whose paths the restoring gave back, are reconciled again.
pub ingress_to_x402_routes-restored :
    {W : Type 0} (client : Client W) (enqueue : Enqueue) (codec : MapCodec) (ingress back : Ingress)
    (w : W) (routes : List X402Route) (request : Str × Str)
    → MapsBoth enqueue
    → NodupKeys (or_empty ingress.annotations)
    → IsManaged ingress
    → restore_ingress codec ingress ≡ restored back
    → client.list_routes w ≡ ok routes
    → (ingress_to_x402_routes client back w ≡ [])
      × (Elem request (enqueue (λ i. ingress_to_x402_routes client i w) ingress back)
          ↔ IsFor ingress routes request)
ingress_to_x402_routes-restored client enqueue codec ingress back w routes request both nodup
      managed h listed =
    let unmarked = restored-unmarked client codec ingress back w nodup h in
    (
      unmarked,
      let asks = ingress_to_x402_routes_iff client ingress w routes request listed in
          let mapped = both (λ i. ingress_to_x402_routes client i w) ingress back request in
          (
            λ m. elim (mapped.0 m) [
              | inl of_old ↦ (asks.0 of_old).1
              | inr of_new ↦ absurd (rw unmarked at of_new)
            ],
            λ wanted. mapped.1 (inl (asks.1 (managed, wanted))),
          ),
    )
