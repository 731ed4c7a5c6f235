-- ===== src/Audit.antt =====
-- The log of what administrators do: the redaction of internal/audit/redact.go, the hashes of
-- internal/audit/hash.go, and InsertAuditEvent with lastAuditHash of internal/store/store.go. The
-- table is the list of its rows in the order of insertion. `sha256` is utils.HashString, and
-- `canonical` is CanonicalJSON of the payload, with `none` for its error; `stored` is the
-- precision of the column created_at. The key of the table is not checked: where a row with the
-- event's audit_event_id stands, the statement fails, which is `answers` here.
-- The columns before and after are JSONB. Their texts are kept as they are here, since `canonical`
-- reads a text and what the column makes of it alike, as long as no key is doubled and no number
-- changes its form.
pub mod Chain
pub mod Redaction
use rbitr.Prelude.{
  ℕ, String, Bool, true, false, ◌&&◌, ◌||◌, ◌==◌, not, if◌then◌else◌, ltb, eqb, Option, none, some,
  List, [], ◌∷◌, ◌++◌, Unicode, to_upper,
}
use Prim.Native.String
use rbitr.Json.{Value, Members, end, member}
use rbitr.Policy.Opa.{string_less}

-- The fields that are hashed; `before_redacted` and `after_redacted` are JSON texts.
pub record HashPayload : Type 0 where
  pub schema_version : String
  pub stream_id : String
  pub audit_event_id : String
  pub created_at : ℕ
  pub actor_type : String
  pub actor_id : String
  pub action : String
  pub resource_type : String
  pub resource_id : String
  pub request_id : String
  pub before_redacted : String
  pub after_redacted : String

-- A created_at of 0 is the zero time.
pub record AdminAuditEvent : Type 0 where
  pub audit_event_id : String
  pub tenant_id : String
  pub stream_id : String
  pub event_hash : String
  pub prev_hash : String
  pub actor_type : String
  pub actor_id : String
  pub actor_display : String
  pub action : String
  pub resource_type : String
  pub resource_id : String
  pub before_redacted : String
  pub after_redacted : String
  pub request_id : String
  pub ip : String
  pub user_agent : String
  pub created_at : ℕ

abbrev pub in_list : String → List String → Bool
in_list key [] = false
in_list key (k ∷ ks) = k == key || in_list key ks

-- `resourceAllowlist`
abbrev pub resource_allowlist : String → Option (List String)
resource_allowlist resource =
    if resource == "TENANT.CONFIG"
    then some ("name" ∷ "key_hash" ∷ [])
    else if resource == "TOOL"
    then some ("base_url" ∷ "auth_type" ∷ "auth_set" ∷ [])
    else if resource == "POLICY.VERSION"
    then some ("policy_version" ∷ "created_by" ∷ "notes" ∷ "rego_sha256" ∷ [])
    else if resource == "POLICY.ACTIVE"
    then some ("active_policy_version" ∷ [])
    else if resource == "RISK_OVERRIDE"
    then some ("action_type" ∷ "action_risk" ∷ [])
    else if resource == "TENANT.NOTIFICATIONS"
    then some (
        "slack_webhook_enabled" ∷ "slack_bot_enabled" ∷ "email_enabled" ∷ "email_provider"
        ∷ "email_from" ∷ "email_region" ∷ "email_domain" ∷ "email_default_mailing_list_id"
        ∷ "notify_approval_expiring" ∷ "notify_token_abuse" ∷ "notify_policy_invalid" ∷ [])
    else if resource == "MAILING_LIST"
    then some ("name" ∷ "description" ∷ "member_count" ∷ [])
    else if resource == "SETTINGS"
    then some ("value" ∷ [])
    else if resource == "APPROVAL.REQUEST"
    then some ("status" ∷ "decided_at" ∷ "decided_by" ∷ "decision_comment" ∷ [])
    else none

unfoldable pub keep_allowed : List String → Members → Members
keep_allowed allowed end = end
keep_allowed allowed (member key v ms) =
    if in_list key allowed then member key v (keep_allowed allowed ms) else keep_allowed allowed ms

abbrev pub redact_by : Option (List String) → Members → Members
redact_by none payload = end
redact_by (some allowed) payload = keep_allowed allowed payload

-- The keys of a resource type that are kept
abbrev pub is_allowed : Option (List String) → String → Bool
is_allowed none key = false
is_allowed (some allowed) key = in_list key allowed

-- nil is the empty map here
unfoldable pub redact_payload : ⦃u : Unicode⦄ → String → Members → Members
unfolding keep_allowed
redact_payload resource_type payload =
    redact_by (resource_allowlist (to_upper resource_type)) payload

unfoldable pub build_hash_payload : AdminAuditEvent → String → HashPayload
build_hash_payload event stream_id = record {
  schema_version = "audit_v1";
  stream_id = stream_id;
  audit_event_id = event.audit_event_id;
  created_at = event.created_at;
  actor_type = event.actor_type;
  actor_id = event.actor_id;
  action = event.action;
  resource_type = event.resource_type;
  resource_id = event.resource_id;
  request_id = event.request_id;
  before_redacted = event.before_redacted;
  after_redacted = event.after_redacted;
}

-- `ORDER BY created_at DESC, audit_event_id DESC`
abbrev pub later : AdminAuditEvent → AdminAuditEvent → Bool
later a b =
    ltb b.created_at a.created_at
    || (eqb a.created_at b.created_at && string_less b.audit_event_id a.audit_event_id)

-- `WHERE stream_id = … AND event_hash IS NOT NULL`; an empty hash is stored as NULL
abbrev pub in_stream : String → AdminAuditEvent → Bool
in_stream stream r = r.stream_id == stream && not (r.event_hash == "")

abbrev pub latest_of : AdminAuditEvent → Option AdminAuditEvent → AdminAuditEvent
latest_of r none = r
latest_of r (some best) = if later r best then r else best

unfoldable pub last_event :
    String → List AdminAuditEvent → Option AdminAuditEvent → Option AdminAuditEvent
last_event stream [] best = best
last_event stream (r ∷ rows) best =
    last_event stream rows (if in_stream stream r then some (latest_of r best) else best)

abbrev pub hash_of : Option AdminAuditEvent → String
hash_of none = ""
hash_of (some r) = r.event_hash

unfoldable pub last_audit_hash : String → List AdminAuditEvent → String
unfolding last_event
last_audit_hash stream rows = hash_of (last_event stream rows none)

-- the stream and the time that are filled in
abbrev pub stream_of : AdminAuditEvent → String
stream_of event =
    if event.stream_id == ""
    then (if event.tenant_id == "" then "global" else event.tenant_id)
    else event.stream_id

abbrev pub time_of : ℕ → AdminAuditEvent → ℕ
time_of now event = if eqb event.created_at 0 then now else event.created_at

abbrev pub filled : ℕ → AdminAuditEvent → AdminAuditEvent
filled now event = record event { created_at = time_of now event; stream_id = stream_of event }

module _ (sha256 : String → String) (canonical : HashPayload → Option String) where
  abbrev hashed : String → Option String → Option String
  hashed prev none = none
  hashed prev (some payload) = some (sha256 (String.◌++◌ prev payload))

  unfoldable pub compute_event_hash : String → HashPayload → Option String
  compute_event_hash prev payload = hashed prev (canonical payload)

module _ (stored : ℕ → ℕ) where
  abbrev pub with_hashes : AdminAuditEvent → String → String → AdminAuditEvent
  with_hashes event prev hash = record event {
    event_hash = hash;
    prev_hash = prev;
    created_at = stored event.created_at;
  }

  abbrev pub store_event :
      Bool
      → AdminAuditEvent
      → String
      → List AdminAuditEvent
      → Option String
      → Bool × List AdminAuditEvent
  store_event answers event prev rows none = (false, rows)
  store_event false event prev rows (some hash) = (false, rows)
  store_event true event prev rows (some hash) = (true, rows ++ with_hashes event prev hash ∷ [])

module _ (sha256 : String → String) (canonical : HashPayload → Option String) (stored : ℕ → ℕ) where
  -- Whether it succeeds, and the table. `answers` is false where a statement fails.
  unfoldable pub insert_audit_event :
      Bool → ℕ → AdminAuditEvent → List AdminAuditEvent → Bool × List AdminAuditEvent
  unfolding last_audit_hash build_hash_payload compute_event_hash
  insert_audit_event answers now event rows =
      let e = filled now event in
      let prev = last_audit_hash e.stream_id rows in
      store_event stored answers e prev rows
        (compute_event_hash sha256 canonical prev (build_hash_payload e e.stream_id))
