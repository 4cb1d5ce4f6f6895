-- ===== src/Lib.antt =====
-- x402-k8s-operator: a Kubernetes operator that puts a payment gateway before the services of an
-- Ingress. The controller compiles X402Route resources into a store of routes, and points the paid
-- paths of an Ingress at the gateway. The gateway serves each request from a snapshot of that
-- store: it selects a route and a rule, forwards a request that is free, asks for payment
-- with status 402, or has a payment verified and settled by a facilitator before it forwards.
--
-- Files and the code that they model:
--   Routestore               internal/routestore/types.go, store.go: `Set`, `Delete`, `Snapshot`,
--                            `Count`; Refinement compares them with a map from namespace and name
--   Gateway/Request          what the gateway reads of an `http.Request`
--   Gateway/Matching         internal/gateway/matching.go: `matchPath`; Spec describes which paths a
--                            pattern takes, Decides and Slashes are the proofs
--   Gateway/Conditions       internal/gateway/conditions.go: `evaluateConditions`
--   Gateway/Proxy            internal/gateway/proxy.go: `findBackend`, `proxyToBackend`
--   Gateway/Payment/Networks, Units, Requirements, Facilitator
--                            internal/gateway/payment.go: the tables of networks,
--                            `humanToAtomicUnits`, `buildPaymentRequirements`,
--                            `verifyAndSettlePayment`, `getPaymentHeader`
--   Gateway/Handler          internal/gateway/handler.go: `ServeHTTP`, `matchesHost`,
--                            `findMatchingRule`, with `writePaymentRequired` of payment.go and the
--                            updates of internal/metrics/metrics.go that a request makes
--   Gateway/Server           internal/gateway/server.go: the mux and the settings of `NewServer`, and
--                            what `Start` returns
--   Controller/Api           api/v1alpha1/x402route_types.go: the resource and its status; DeepCopy has
--                            zz_generated.deepcopy.go over the memory of Regions, Copies and Slices
--   Controller/Validation    internal/controller/validation.go: `validateFacilitatorURL`,
--                            `isPrivateIP`, `isInClusterHostname`
--   Controller/PathMatch     internal/controller/x402route_controller.go: `collectPaidPaths`,
--                            `pathMatchesPaidRoutes`
--   Controller/Ingresses     the same file: `extractBackends`, `resolveBackendPort`; Patch has
--                            `patchIngress` and `restoreIngress` between the read of the Ingress
--                            and its update
--   Controller/Compile       the same file: `compileRoute`
--   Controller/Reconciler    the same file: the Kubernetes client and the actions over it; Cleanup has
--                            `restoreIngress`, `cleanupResources`, `cleanupExternalNameService`,
--                            Reconcile has `Reconcile`, `ensureExternalNameService`,
--                            `patchIngress`, `setCondition`, `updateStatus`, and Watch has
--                            `ingressToX402Routes`. Reliable has the laws of a client whose calls
--                            succeed; Converges, Rounds, Reverts and RoundTrip are about the
--                            reconciler on such a client
--   Commands                 cmd/manager, cmd/mock-facilitator and cmd/test-client: the `main` of each
--   Integration              the gateway on what any history of the controller stored; Gating has
--                            what a reconciliation leaves for the gateway, Paying the test client
--                            against the gateway with the mock facilitator
--   Base                     the names that these share: strings, Go maps, integers, decimals
--   Tests                    the operations on concrete inputs
--
-- How the code is read:
--   * A Go string is the list of its bytes. Letter case is that of ASCII.
--   * A Go map is an association list. Go orders each iteration over a map anew, so a definition
--     that iterates takes the entries in the order of that iteration, and theorems speak of all
--     reorderings of the map.
--   * A compiled regular expression is the test that its `MatchString` makes.
--   * The store's lock is held by each operation throughout, so an execution is a sequence of
--     operations, and a request reads one snapshot.
--   * Encodings of the standard library (base64, JSON), `(*big.Rat).SetString`,
--     `strconv.ParseFloat`, `url.Parse`, `net.ParseIP` and `regexp.Compile` are parameters, as are
--     the facilitator's answers.
--   * A `net.IP` is the number that its 4 or 16 bytes spell, a range is an address with a prefix
--     length. An IPv4 address in the form of 16 bytes is read as one of 4, as `Contains` does.
--   * A `big.Rat` is a fraction that need not be in lowest terms.
--   * Calls to the facilitator are values: a step has the list of the calls it made, and a result.
--   * An error has the kind that the code tells apart; the texts of wrapped errors are left out.
--     Log lines and times are left out.
--   * The loops of the code run over finite lists and are structural recursions. Only the digits of a
--     number n are computed on fuel, n + 1, which Base/Decimal/RoundTrip shows to be enough.
--   * The Kubernetes API is a client over a cluster of any type. An action takes the state, which is
--     the cluster, the route store and the metrics of the controller, to a result and a state.
--
--   * A library that serves or calls over HTTP is read as what it hands to the code: the mux of
--     net/http may redirect a path that is not clean, and the client of net/http returns a response
--     or an error. The calls of the gateway are the POSTs that its code makes; a redirect that the
--     client of net/http follows is inside of its answer.
--   * Controller-runtime runs the function of a watch on both objects of an update; what it enqueues
--     is a parameter with that law.
--   * A deep copy works on a memory with a region of arrays for each element type, to which arrays are
--     only added; a slice spans its array. What apimachinery copies is copied as a value.
--
-- Not modelled: the registration of metrics, of the API group and of the controller, which calls
-- libraries only, and the reverse proxy behind the choice of its target.
pub mod Base
pub mod Routestore
pub mod Gateway
pub mod Controller
pub mod Commands
pub mod Integration
pub mod Tests
