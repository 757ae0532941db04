-- ===== src/Lib.antt =====
-- cf-edge-operator, a Kubernetes operator that keeps Cloudflare custom hostnames in step with custom
-- resources. Two controllers share the work. The zone controller (internal/controller/
-- zone_controller.go, zone_customhostname_drift.go) lists a whole Cloudflare zone at an interval,
-- compares it with the `CustomHostname` resources of the zone, publishes gauges, and sends those that
-- need work to the worker over a buffered channel. The worker (internal/controller/
-- customhostname_controller.go) reconciles one resource: it looks the hostname up, creates, adopts,
-- edits or deletes it, and records the outcome in the resource's status. Both wrap their Cloudflare
-- calls with the retry loop and the counters of internal/controller/metrics.go, and cmd/main.go
-- checks the flags and wires the two together.
--
-- Files:
--   Prelude: shared names, Go's tests on numbers and texts, `int32` counters as bit patterns with
--     their wrap-around, maps as association lists.
--   Api: the types of api/domains/v1beta1 and api/saas/v1beta1, and the fields of the Cloudflare SDK
--     and of Kubernetes metadata that the program uses.
--   Platform: effects. `Action` passes a `World`: the trace of calls, the provisioning cache and the
--     event channel. `Env` holds everything outside the repository as functions of the trace, so a
--     theorem for all `Env` covers every behaviour of the API server, of Cloudflare, of the clock and
--     of the goroutines that run between two calls. An error is a value, as in Go. `Moves R m` says
--     that `m` takes every world along the relation `R`, with a rule for each way to build an action;
--     `Emits Q m`, that every call of `m` satisfies `Q`, is one such relation. Stored is what the API
--     server keeps of a status, whose times it stores in whole seconds.
--   Metrics: recordCFCall, cfRetry, setSSLProvisioningDuration, cleanExpiredSSLProvisioning. Metrics/
--     Vectors has the labels of the vectors and the series that `init` makes.
--   Ssl: sniDrifted, sslDrifted, buildSSLParams, buildSSLEditParams, the three cfStateFrom functions,
--     buildDriftInfo, sslStatusChangedFields.
--   Hostname: the worker. Config and Client (policies, client, lookup), Status (conditions, conflict
--     detection, requeueOrReady), Create, Update, Delete and Reconcile hold the code. Plan is an
--     abstract worker, the request that a reconcile means to send to Cloudflare, with which the code
--     is compared in Plan/Live and Plan/Deletion. Allowed takes the operations along any relation
--     that allows their calls, and Effort counts the calls to Cloudflare. Endings is about what a
--     reconcile saves, and with which outcome; Records about what is recorded, field by field. The
--     other modules hold what is shown of the code.
--   Zone: the zone controller. State, Listing, Events, Drift and Reconcile hold the code. Moves and
--     Sends take it along any relation that allows its calls; Gauges, Keys and Published are about
--     the values that the gauges show. The other modules hold what is shown of the code.
--   Config: the flag checks and the reconcilers of cmd/main.go, and the build identity.
--   Cluster: the field indexes that SetupWithManager registers, and the two controllers' lists as
--     selections from the custom resources of the whole cluster.
--   Startup: the rest of cmd/main.go, from the flags' defaults to the start of the manager, with both
--     SetupWithManager. Each call of controller-runtime is an entry of a list, its answer a parameter.
--   Process: the two controllers as one process with shared state; a step is one whole reconcile.
--   Life: one custom resource as the API server has it, with its key in the worker's queue or not. A
--     step is a change by another client with its event, an event of the zone controller, a restart,
--     or a reconcile. The predicates of fastWritePredicate decide which events reach the queue.
--   Tests: a small cluster, and the theorems at concrete inputs.
--
-- Bounds and fuel: cfRetry is recursion on the number of retries that are left, which the flag
-- checks keep from being negative. All other loops are over lists. No definition takes fuel, and
-- every one is total. A time is in nanoseconds; a duration is a difference of times on the natural
-- numbers, so it stops at zero where the clock runs backwards. A metric in seconds is recorded in
-- nanoseconds here.
--
-- What of the outside is assumed: for the states of a resource, that SetStatusCondition replaces the
-- condition of its type and FindStatusCondition finds the first one, as documented, and that a list
-- of conditions has one of each type, as its list map key demands; for convergence, that the answer
-- of Cloudflare to a create or an edit has the values that were sent, and that a metav1.Time is
-- stored in whole seconds; for the cluster, that a list with MatchingFields has the resources that
-- the index gives for the value; for the provisioning
-- cache of the process, that the name of a zone has no slash, which Kubernetes does not allow; for
-- the life of a resource, that RemoveFinalizer removes the finalizer, that the API server counts the
-- generation up with the spec and the deletion, takes no deletion back and lets no finalizer be added
-- after it, that an update stores the metadata and the spec and a status update the status, that
-- controller-runtime queues a key again after an error or a requeue, and that a reconcile reads the
-- resource as the API server has it, with no other change before its save.
--
-- Not modelled: logging (and sslStatusEqual, which only decides what is logged), the generated deep
-- copies, the registration of the types and of the vectors, what controller-runtime does with the
-- options that it is given, the tests, and the Helm and Kustomize manifests. Two reconciles that
-- overlap in time are modelled as far as the environment of each covers what it sees of the other;
-- Metrics/Race has one such interleaving in detail. The order in which Go walks a map is that of the
-- list here, and Zone/Order is about another order.
pub mod Prelude
pub mod Api
pub mod Platform
pub mod Metrics
pub mod Ssl
pub mod Hostname
pub mod Zone
pub mod Config
pub mod Cluster
pub mod Startup
pub mod Process
pub mod Life
pub mod Tests
