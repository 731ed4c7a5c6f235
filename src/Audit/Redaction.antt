-- ===== src/Audit/Redaction.antt =====
-- What RedactPayload keeps of a payload.
use rbitr.Prelude.{
  String, ◌≡◌, refl, true, ◌&&◌, ◌==◌, none, some, Option, List, if◌then◌else◌, arith, eq_iff,
  Unicode, to_upper,
}
use rbitr.Json.{null, Members, end, member, get, has_member}
use rbitr.Audit.{in_list, resource_allowlist, is_allowed, redact_by, keep_allowed, redact_payload}

in_list-same :
    (key k : String) (allowed : List String)
    → (k == key) ≡ true
    → in_list k allowed ≡ in_list key allowed
in_list-same key k allowed e = let same : k ≡ key = ground (arith, eq_iff k key) in rw (same) refl

has_member-keep_allowed :
    (key : String) (allowed : List String) (payload : Members)
    → has_member key (keep_allowed allowed payload)
      ≡ (in_list key allowed && has_member key payload)
unfolding has_member keep_allowed
has_member-keep_allowed key allowed end = ground (arith)
has_member-keep_allowed key allowed (member k v ms) =
    ground (arith, has_member-keep_allowed key allowed ms, in_list-same key k allowed)

get-keep_allowed :
    (key : String) (allowed : List String) (payload : Members)
    → get key (keep_allowed allowed payload)
      ≡ (if in_list key allowed then get key payload else null)
unfolding get keep_allowed
get-keep_allowed key allowed end = ground (arith)
get-keep_allowed key allowed (member k v ms) =
    ground (arith, get-keep_allowed key allowed ms, in_list-same key k allowed)

redact_by-kept :
    (allowed : Option (List String)) (key : String) (payload : Members)
    → (has_member key (redact_by allowed payload)
        ≡ (is_allowed allowed key && has_member key payload))
      × (get key (redact_by allowed payload)
          ≡ (if is_allowed allowed key then get key payload else null))
unfolding has_member get
redact_by-kept none key payload = (refl, refl)
redact_by-kept (some allowed) key payload =
    (has_member-keep_allowed key allowed payload, get-keep_allowed key allowed payload)

-- A field is in the redacted payload exactly where it is in the payload and the allow-list of the
-- resource type, put in capitals, has its key; its value is then the payload's.
pub redact_payload-kept :
    ⦃u : Unicode⦄ (resource_type key : String) (payload : Members)
    → (has_member key (redact_payload resource_type payload)
        ≡ (is_allowed (resource_allowlist (to_upper resource_type)) key && has_member key payload))
      × (get key (redact_payload resource_type payload) ≡ (
          if is_allowed (resource_allowlist (to_upper resource_type)) key
          then get key payload
          else null))
unfolding redact_payload
redact_payload-kept resource_type key payload =
    redact_by-kept (resource_allowlist (to_upper resource_type)) key payload
