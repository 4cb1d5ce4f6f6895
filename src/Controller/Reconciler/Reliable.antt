-- ===== src/Controller/Reconciler/Reliable.antt =====
-- What the reconciler of internal/controller needs of the Kubernetes API to make progress: a client
-- whose calls succeed and whose writes the later reads see. The laws are those of a cluster without
-- errors and without other writers.
use x402_k8s_operator.Base.{◌≢◌, ap, ◌∙◌, ◌≡◌, true, false, List, Str, ok}
use x402_k8s_operator.Controller.Api.{X402Route, X402RouteStatus}
use x402_k8s_operator.Controller.Ingresses.{Ingress}
use x402_k8s_operator.Controller.Reconciler.{found, failed, Service, Client, Helpers}

-- Two names that are equal are exchanged in both places of a read.
pub at_names :
    {A : Type 0} {a a' b b' : Str} (f : Str → Str → A) → (a ≡ a') × (b ≡ b') → f a b ≡ f a' b'
at_names {a' = a'} {b = b} f (p, q) = ap (λ n. f n b) p ∙ ap (f a') q

-- The calls leave the objects that the reconciler reads.
abbrev pub SameRoutes : {W : Type 0} → Client W → W → W → Type 0
SameRoutes client w w' =
    (namespace name : Str) → client.get_route namespace name w' ≡ client.get_route namespace name w

abbrev pub SameIngresses : {W : Type 0} → Client W → W → W → Type 0
SameIngresses client w w' =
    (namespace name : Str)
    → client.get_ingress namespace name w' ≡ client.get_ingress namespace name w

abbrev pub HasRoute : {W : Type 0} → Client W → X402Route → W → Type 0
HasRoute client route w = client.get_route route.namespace route.name w ≡ found route

abbrev pub HasIngress : {W : Type 0} → Client W → Ingress → W → Type 0
HasIngress client ingress w = client.get_ingress ingress.namespace ingress.name w ≡ found ingress

pub record IsReliable {W : Type 0} (client : Client W) : Type 0 where
  -- A read returns the object that it asks for.
  pub route_named :
      (namespace name : Str) (route : X402Route) (w : W)
      → client.get_route namespace name w ≡ found route
      → (route.namespace ≡ namespace) × (route.name ≡ name)
  pub ingress_named :
      (namespace name : Str) (ingress : Ingress) (w : W)
      → client.get_ingress namespace name w ≡ found ingress
      → (ingress.namespace ≡ namespace) × (ingress.name ≡ name)
  pub routes_listed : (w : W) → (routes : List X402Route) × (client.list_routes w ≡ ok routes)
  -- The finalizers of a route can be set, and a route that is not being deleted stays.
  pub finalizers_accepted :
      (route : X402Route) (finalizers : List Str) (w : W)
      → HasRoute client route w
      → (client.update_route (record route { finalizers = finalizers }) w).0
        ≡ ok (record route { finalizers = finalizers })
  pub finalizers_updated :
      (route : X402Route) (finalizers : List Str) (w : W)
      → HasRoute client route w
      → route.is_deleting ≡ false
      → HasRoute client
          (record route { finalizers = finalizers })
          (client.update_route (record route { finalizers = finalizers }) w).1
  pub route_ingresses :
      (route : X402Route) (w : W) → SameIngresses client w (client.update_route route w).1
  pub status_updated :
      (route : X402Route) (status : X402RouteStatus) (w : W)
      → HasRoute client route w
      → HasRoute client
          (record route { status = status })
          (client.update_status (record route { status = status }) w)
  pub status_ingresses :
      (route : X402Route) (w : W) → SameIngresses client w (client.update_status route w)
  -- An Ingress that is there can be replaced by one of the same name.
  pub ingress_accepted :
      (old ingress : Ingress) (w : W)
      → client.get_ingress ingress.namespace ingress.name w ≡ found old
      → (client.update_ingress ingress w).0 ≡ ok tt
  pub ingress_updated :
      (old ingress : Ingress) (w : W)
      → client.get_ingress ingress.namespace ingress.name w ≡ found old
      → HasIngress client ingress (client.update_ingress ingress w).1
  pub ingress_routes :
      (ingress : Ingress) (w : W) → SameRoutes client w (client.update_ingress ingress w).1
  -- Services are not what the reconciler reads.
  pub service_accepted :
      (namespace name : Str) (f : Service → Service) (w : W)
      → (client.create_or_update namespace name f w).0 ≡ ok tt
  pub service_routes :
      (namespace name : Str) (f : Service → Service) (w : W)
      → SameRoutes client w (client.create_or_update namespace name f w).1
  pub service_ingresses :
      (namespace name : Str) (f : Service → Service) (w : W)
      → SameIngresses client w (client.create_or_update namespace name f w).1
  pub service_deleted :
      (namespace name : Str) (w : W)
      → ((e : Str) → (client.delete_service namespace name w).0 ≢ failed e)
        × SameIngresses client w (client.delete_service namespace name w).1
        × SameRoutes client w (client.delete_service namespace name w).1

-- The list of finalizers has the finalizer that was added to it.
abbrev pub IsFinalizing : Helpers → Type 0
IsFinalizing helpers =
    (finalizers : List Str) (s : Str)
    → helpers.contains_finalizer (helpers.add_finalizer finalizers s) s ≡ true
