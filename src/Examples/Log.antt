-- ===== src/Examples/Log.antt =====
-- Two events of the log of administrators, and a payload that is redacted.
use rbitr.Prelude.{
  ℕ, ◌/◌, ◌*◌, ◌≡◌, refl, String, true, Option, none, some, List, [], ascii, to_upper, ◌&&◌,
  if◌then◌else◌,
}
use Prim.Native.String
use rbitr.Json.{null, text, Members, end, member, get, has_member}
use rbitr.Audit.{
  HashPayload, AdminAuditEvent, filled, stream_of, last_event, last_audit_hash, insert_audit_event,
  redact_payload, is_allowed, resource_allowlist,
}
use rbitr.Audit.Chain.{Newer, first, after, Chain, done, insert_audit_event-Chain}
use rbitr.Audit.Redaction.{redact_payload-kept}

abbrev digest : String → String
digest s = String.◌++◌ "h:" s

abbrev printed : HashPayload → Option String
printed p = some p.audit_event_id

-- the column's precision, in the model's ticks
abbrev even_time : ℕ → ℕ
even_time n = n / 2 * 2

abbrev created : AdminAuditEvent
created = record {
  audit_event_id = "a1";
  tenant_id = "acme";
  stream_id = "";
  event_hash = "";
  prev_hash = "";
  actor_type = "admin";
  actor_id = "root";
  actor_display = "Root";
  action = "create";
  resource_type = "TOOL";
  resource_id = "t1";
  before_redacted = "null";
  after_redacted = "{}";
  request_id = "r1";
  ip = "10.0.0.1";
  user_agent = "";
  created_at = 0;
}

abbrev changed : AdminAuditEvent
changed = record created { audit_event_id = "a2"; action = "update"; created_at = 20 }

abbrev one_row : List AdminAuditEvent
one_row = (insert_audit_event digest printed even_time true 10 created []).1

one_row-Chain : Chain digest printed "acme" none one_row
unfolding last_event
one_row-Chain =
    insert_audit_event-Chain digest printed even_time true 10 created [] "acme" done refl first

changed_later : Newer (filled 30 changed) (last_event (stream_of changed) one_row none)
unfolding last_event insert_audit_event
changed_later = after refl

-- the second event holds the hash of the first
two_hashes :
    last_audit_hash "acme" (insert_audit_event digest printed even_time true 30 changed one_row).1
    ≡ "h:h:a1a2"
unfolding last_audit_hash insert_audit_event
two_hashes = refl

insert_audit_event-Chain_example :
    Chain digest printed "acme" none
      (insert_audit_event digest printed even_time true 30 changed one_row).1
insert_audit_event-Chain_example =
    insert_audit_event-Chain digest printed even_time true 30 changed one_row "acme" one_row-Chain
      refl changed_later

abbrev tool_payload : Members
tool_payload = member "base_url" (text "https://x") (member "auth_token" (text "secret") end)

secret_dropped :
    redact_payload ⦃u = ascii⦄ "tool" tool_payload ≡ member "base_url" (text "https://x") end
unfolding redact_payload to_upper
secret_dropped = refl

redact_payload-kept_example :
    (has_member "auth_token" (redact_payload ⦃u = ascii⦄ "tool" tool_payload) ≡ (
      is_allowed (resource_allowlist (to_upper ⦃u = ascii⦄ "tool")) "auth_token"
      && has_member "auth_token" tool_payload))
    × (get "auth_token" (redact_payload ⦃u = ascii⦄ "tool" tool_payload) ≡ (
        if is_allowed (resource_allowlist (to_upper ⦃u = ascii⦄ "tool")) "auth_token"
        then get "auth_token" tool_payload
        else null))
redact_payload-kept_example = redact_payload-kept ⦃u = ascii⦄ "tool" "auth_token" tool_payload
