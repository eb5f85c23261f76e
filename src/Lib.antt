-- ===== src/Lib.antt =====
-- Verification of the governance services of opensandbox-aks-governance-poc.
--
-- The program governs sandboxes on Kubernetes. An assignment binds one sandbox Pod to a capability
-- bundle; Envoy asks `authz` whether a request of the Pod may leave, and `authz` answers from the
-- Pod's identity token, the assignment, the bundle's allow expression and the approved access
-- requests, and records what it decided. The credential broker asks the same checker before it
-- issues a credential for one target. The facade turns a caller's request into an assignment and a
-- sandbox of an administrator's template; the controller binds the assignment to the sandbox's Pod,
-- says when it is ready, and revokes it. The dashboard signs users in, lets a requester ask for access
-- to a target that was denied and an administrator decide, and shows and changes the sandboxes of the
-- requester's tenants only; `authz` reads the requests that were approved.
--
-- Files and code:
--   Base, Base/*            helpers: Boolean tests, lists, texts, signed integers, Go's results
--   Externals               code that the repository calls and does not contain, as a record of
--                           functions with the laws that its documentation gives
--   Api                     api/assignment/v1alpha1/types.go (the fields that the code reads)
--   Cluster                 the Kubernetes objects that the checker reads, types.go's labels
--   Governance/Target       internal/assignment/governance/validation.go: NormalizeTarget
--   Governance/Request      the same file: ValidateAccessRequestSpec, ValidateIdentity
--   Authz/Decision          internal/assignment/authz/server.go: CheckInput, Decision
--   Authz/Grants            authz/checker.go: matchAccessGrantObjects, validApproval
--   Authz/Tokens            authz/checker.go: reviewToken and its cache
--   Authz/Programs          authz/checker.go: program, its cache, ValidateAllowExpression
--   Authz/Admit             authz/checker.go: Check from the Pod to the bundle
--   Authz/Check             authz/checker.go: Check as a whole, with the deferred audit and counters
--   Authz/Server            authz/server.go: Check, normalize
--   Broker/Claims           internal/assignment/credentialbroker/broker.go: claims, New, the tests on
--                           task IDs and lifetimes
--   Broker/Handlers         credentialbroker/broker.go: issue, verify, revoke, parseAuthorization
--   Broker/Store            credentialbroker/kubernetes.go: ValidateGrant, Revoke, IsRevoked
--   Admission               internal/assignment/admission/admission.go: AuthorizeCreate,
--                           policyForTenant, bundleAllowed, validateResourceLimit
--   Admission/Lease         admission/admission.go: acquireTenantLease and its release
--   Controller/Objects      internal/assignment/controller/controller.go: what it reads and writes
--   Controller/Validate     controller.go: the validate functions, matching of owners
--   Controller/Conditions   controller.go: condition, readyConditions, statusEquivalent
--   Controller/Reconcile    controller.go: reconcile, updateStatus, reconcileAll
--   Controller/Finalize     controller.go: finalize, releaseBundleIfUnused
--   Facade/Routes           internal/assignment/opensandboxapi/handler.go: ServeHTTP, sandboxOperation
--   Facade/Lifecycle        opensandboxapi/handler.go: pause, resume, delete, patchMetadata
--   Facade/Templates        opensandboxapi/template.go: Resolve
--   Facade/Create           opensandboxapi/handler.go: create
--   Store                   internal/assignment/store/kubernetes/store.go: the methods of Store
--   CallerAuth              internal/assignment/callerauth/authenticator.go
--   Audit/Values            internal/assignment/authz/audit.go: sanitizeDecision
--   Audit/Record            authz/audit.go: Record, Shutdown
--   Audit/Cleanup           authz/audit.go: cleanupEvents, expireAccessRequests
--   Dashboard/Handled       a handler's early return
--   Dashboard/Principals    cmd/aks-sandbox-dashboard/principals.go: loadPrincipalScopes, tenantAllowed
--   Dashboard/Forms         cmd/aks-sandbox-dashboard/governance.go: parseMutation,
--                           parseDurationMinutes
--   Dashboard/Requests      governance.go: what the handlers of access requests share; in Decisions
--                           approveAccessRequest and denyAccessRequest, in Submissions
--                           createAccessRequest
--   Dashboard/States        the writes to a request's status, by governance.go and authz/audit.go
--   Dashboard/Sessions      cmd/aks-sandbox-dashboard/auth.go: memoryAuthStore, createSession, logout;
--                           in Gate its Middleware
--   Dashboard/Requester     cmd/aks-sandbox-dashboard/requester_authorization.go: the tenant of a sandbox,
--                           the authorizations and filters; in Paths its Middleware, in Client the
--                           guarded client
-- A module called Laws, or named for a subject below one of these, holds its theorems; Examples
-- holds the tests and the theorems at concrete inputs.
--
-- State and effects. A pure function of the source is a function. A method that changes a field of
-- its receiver takes the state and gives the next one, so that a run of calls is a sequence of such
-- steps; the mutexes make each of them one step. The informers' indexes are a `View`, the state
-- of the cluster as the checker sees it. What a call to the API server, the expression engine or the
-- audit log answers is an argument, a `Result` with the error statuses that the code tests for: the
-- controller's `Reads` and `Writes`, the facade's `Answers`. Where the order of writes matters the
-- store is a `Backend` with a state, whose `BackendLaws` the model of the Kubernetes store fills from
-- `ServerLaws`, the documented behaviour of the API server.
--
-- Numbers. A time and a duration are nanoseconds, natural numbers where the code only compares them
-- and `ℤ` where they can be negative; `times64` and `count64` keep the wrap-around of 64-bit
-- arithmetic. Every loop of the modelled code runs over a list or a text and is a structural
-- recursion; the store's retries after a conflict are counted, as the retry package counts them, and
-- a run of the lease's loop is the list of its rounds.
--
-- Texts. A Go string is a valid UTF-8 text; where the code takes `len` the model counts bytes or
-- characters as its file says.
--
-- The dashboard's clock is read once for one handler's decision, and its token validator, random
-- values, digest and what an API server stores of a time are arguments.
--
-- Not modelled: HTTP, logging, metrics pages and flags; the informers' goroutines; the encoding of
-- objects; the proxy's headers and the sanitising of its responses; the simulation of a policy's impact;
-- generated deep copies; the doctor; the dashboard's pages, its cookies, its token validator, its
-- tenant policies and its capability bundles.
mod Base
pub mod Externals
pub mod Api
pub mod Cluster
pub mod Governance
pub mod Authz
pub mod Broker
pub mod Admission
pub mod Controller
pub mod Facade
pub mod Store
pub mod CallerAuth
pub mod Audit
pub mod Dashboard
mod Examples
