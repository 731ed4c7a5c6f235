-- ===== src/Gateway/Expiry.antt =====
-- When a new approval expires: approvalTTL in internal/api/public/handlers.go.
use rbitr.Prelude.{ℕ, ◌+◌, ◌-◌, ◌*◌, ◌%◌, ◌^◌, not, ◌&&◌, if◌then◌else◌, ltb, Option, none, some}
use rbitr.Json.{ℤ, pos, Value, number, float, float_negative, float_whole, Members, get, object_of}

-- `defaultApprovalTTL`, 15 minutes
abbrev pub default_approval_ttl : ℕ
default_approval_ttl = 900 * 10 ^ 9

-- `now.Add(time.Duration(seconds) * time.Second)`: the product wraps round in 64 bits. A time before
-- the origin is 0.
unfoldable pub after_seconds : ℕ → ℕ → ℕ
after_seconds now seconds =
    let d = (seconds * 10 ^ 9) % 2 ^ 64 in if ltb d (2 ^ 63) then now + d else now + d - 2 ^ 64

unfoldable pub default_approval_ttl_from_store : ℕ → Option ℤ → ℕ
unfolding after_seconds
default_approval_ttl_from_store now (some (pos seconds)) =
    if ltb 0 seconds then after_seconds now seconds else now + default_approval_ttl
default_approval_ttl_from_store now _ = now + default_approval_ttl

-- the seconds that a constraint asks for
abbrev ttl_seconds : Value → Option ℕ
ttl_seconds (number (pos n)) = if ltb 0 n && ltb n (2 ^ 63) then some n else none
ttl_seconds (float b) =
    if not (float_negative b) && ltb 0 (b % 2 ^ 63) then some (float_whole b) else none
ttl_seconds _ = none

abbrev asked_ttl : Option Members → Option ℕ
asked_ttl none = none
asked_ttl (some approval) = ttl_seconds (get "expires_in_seconds" approval)

abbrev expiry : ℕ → Option ℤ → Option ℕ → ℕ
expiry now default none = default_approval_ttl_from_store now default
expiry now default (some seconds) = after_seconds now seconds

-- `now.Add(approvalTTL(...))`; a missing key is null
unfoldable pub approval_ttl : ℕ → Option ℤ → Members → ℕ
unfolding default_approval_ttl_from_store float_whole
approval_ttl now default constraints =
    expiry now default (asked_ttl (object_of (get "approval" constraints)))
