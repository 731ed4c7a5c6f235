-- ===== src/Lib.antt =====
-- rbitr, a gateway that decides what tools an agent may call, asks people for approvals, and replays
-- the calls that they approved. This library models the parts that decide, in the order of a call:
--
--   Classification   internal/classification/classifier.go and file_path.go. `Input` normalises a
--                    request into tokens, `Intents`, `Jira` and `Mock` read them, `Classify` chooses
--                    among these, `Risk` proves what comes out. `Paths` is the detection of file
--                    paths and the tenants' sandboxes.
--   Policy           internal/policy/base_policy.go and evaluator.go, internal/opa/engine.go. `Base`
--                    is the base policy and the merge, `Opa` reads what a tenant's policy returns,
--                    `Evaluate` joins them over the cache of prepared policies. `Enforced`, `Winner`
--                    and `Cached` are their theorems.
--   Approval         the table approval_requests of internal/store/store.go (`Store`, a function for
--                    each statement), its life under any sequence of statements (`Lifecycle`,
--                    `History`, `Claims`), and the replay of an approved call, which is
--                    handleApprovedToolCall of internal/api/public/handlers.go (`Execute`).
--   Gateway          handleToolCall of internal/api/public/handlers.go: `Request` is the canonical request
--                    of internal/utils/request.go, `Handle` goes from the authentication to the choice
--                    between a replay and a fresh call, `Fresh` to a decision, `Deny` and `Decide` to the
--                    response, with internal/api/public/shadow_mode.go, decision_explain.go,
--                    provenance.go and file_governance.go. `Env` is what a call meets. `Safety`, `Entry`,
--                    `Recorded`, `Reported`, `Reports`, `Opened`, `Completion`, `Unrecorded`, `Injective` and
--                    `Deletions` are theorems.
--   Arguments        internal/api/public/arg_constraints.go: `Resolve` finds a value by its path, `Schema`
--                    matches a JSON schema, `Rules` one rule, `Enforce` the rules of a policy. `Pointers`,
--                    `Termination`, `Groups`, `Enforcement`, `Admission` and `Numbers` are theorems.
--   License          internal/license/entitlements.go, internal/api/public/license_check.go, and the
--                    monthly quota of internal/api/public/usage_quota.go.
--   Audit            the redaction and the chain of hashes of internal/audit, with the statements of
--                    internal/store/store.go that write it. `Chain` and `Redaction` are theorems.
--   Auth             the authentication of tenants of internal/auth/tenant.go, over the hashes of
--                    internal/utils/hash.go and the tables tenant_keys and tenants. `Hashes`,
--                    `Accepted` and `Admitted` are theorems; the gateway takes its outcome as given.
--   Limits           the rate limits of internal/api/public/rate_limit.go with the counters and the
--                    configuration of internal/store/store.go. `Counts` and `Violations` are their
--                    theorems.
--   Cache, Session   internal/cache/cache.go, and the session tokens of internal/auth/session.go that
--                    are held in such a cache.
--   Http, Json       responses, and decoded JSON.
--   Prelude          texts, maps, lists and tests; Examples has concrete runs.
--
-- A table is a list of rows and a statement is one atomic step; a statement that the database
-- refuses is an argument that says so. A handler that issues several statements takes, as
-- arguments, what others do to the tables in between; the handler of a fresh call, the log of
-- administrators and the authentication are taken without such interference. Times are nanoseconds.
-- Functions that lie outside the repository are parameters: SHA-256 and HMAC, base64 and JSON of
-- session claims, the package rego, the parsers of net/url, regexp and encoding/json, and the
-- tables of the package unicode. Loops are structural recursion, but for the matching of a JSON
-- schema, which descends into what it looks up in the schema: it takes fuel, one more than the
-- schema is deep, which `Arguments.Termination` shows to be enough. A Go map that is read by its
-- keys is an association list, one that is a set is a list.
--
-- Not modelled: the policy compiler, license keys, keys of administrators and provenance tokens, the
-- canonical JSON of audit events, the admin API and the MCP gateway; I/O, metrics, logs,
-- notifications and configuration; the column request_context, the headers of responses.
pub mod Prelude
pub mod Http
pub mod Approval
pub mod Classification
pub mod Json
pub mod Policy
pub mod Examples
pub mod Limits
pub mod Cache
pub mod Session
pub mod Gateway
pub mod Arguments
pub mod License
pub mod Audit
pub mod Auth
