-- ===== src/Audit/Chain.antt =====
-- The chain of hashes of a stream, and that InsertAuditEvent keeps it.
use rbitr.Prelude.{
  inl, inr, ℕ, String, ◌≡◌, refl, sym, ap, Bool, true, false, none, some, Option, List, [], ◌∷◌,
  ◌++◌, arith, eq_iff, Bool-cases,
}
use rbitr.Audit.{
  HashPayload, AdminAuditEvent, build_hash_payload, later, in_stream, last_event, hash_of,
  last_audit_hash, stream_of, time_of, latest_of, compute_event_hash, filled, with_hashes,
  insert_audit_event, store_event,
}

-- no event before, or the one before comes first in the order of the query
pub data Newer (r : AdminAuditEvent) : Option AdminAuditEvent → Type 0 where
  first : Newer r none
  after : {best : AdminAuditEvent} → later r best ≡ true → Newer r (some best)

module _ (sha256 : String → String) (canonical : HashPayload → Option String) where
  -- The rows of a stream, after one that is given: each is newer than the one before, holds its
  -- hash, and has the hash that its own fields give.
  pub data Chain (stream : String) : Option AdminAuditEvent → List AdminAuditEvent → Type 0 where
    done : {best : Option AdminAuditEvent} → Chain stream best []
    other :
        {best : Option AdminAuditEvent} {r : AdminAuditEvent} {rows : List AdminAuditEvent}
        → in_stream stream r ≡ false
        → Chain stream best rows
        → Chain stream best (r ∷ rows)
    linked :
        {best : Option AdminAuditEvent} {r : AdminAuditEvent} {rows : List AdminAuditEvent}
        → in_stream stream r ≡ true
        → Newer r best
        → r.prev_hash ≡ hash_of best
        → compute_event_hash sha256 canonical r.prev_hash (build_hash_payload r stream)
          ≡ some r.event_hash
        → Chain stream (some r) rows
        → Chain stream best (r ∷ rows)

  latest_of-Newer :
      (r : AdminAuditEvent) (best : Option AdminAuditEvent) → Newer r best → latest_of r best ≡ r
  latest_of-Newer r none first = refl
  latest_of-Newer r (some b) (after e) = rw (e) refl

  Newer-with_hashes :
      (stored : ℕ → ℕ) (prev hash : String) (e : AdminAuditEvent) (best : Option AdminAuditEvent)
      → stored e.created_at ≡ e.created_at
      → Newer e best
      → Newer (with_hashes stored e prev hash) best
  Newer-with_hashes stored prev hash e none exact first = first
  Newer-with_hashes stored prev hash e (some b) exact (after l) = after (rw (exact) l)

  append-Chain :
      (stream : String) (e : AdminAuditEvent) (best : Option AdminAuditEvent)
      (rows : List AdminAuditEvent)
      → Chain stream best rows
      → Chain stream (last_event stream rows best) (e ∷ [])
      → Chain stream best (rows ++ e ∷ [])
  unfolding last_event
  append-Chain stream e best [] done new = new
  append-Chain stream e best (r ∷ rows) (other outside c) new =
      other outside (append-Chain stream e best rows c (rw (outside) at new))
  append-Chain stream e best (r ∷ rows) (linked inside n p h c) new =
      linked inside n p h
        (append-Chain stream e (some r) rows c (rw (inside, latest_of-Newer r best n) at new))

  new-Chain :
      (stored : ℕ → ℕ) (stream prev hash : String) (e : AdminAuditEvent)
      (best : Option AdminAuditEvent)
      → (stream ≡ e.stream_id → prev ≡ hash_of best)
      → stored e.created_at ≡ e.created_at
      → (stream ≡ e.stream_id → Newer e best)
      → compute_event_hash sha256 canonical prev (build_hash_payload e e.stream_id) ≡ some hash
      → Chain stream best (with_hashes stored e prev hash ∷ [])
  unfolding build_hash_payload
  new-Chain stored stream prev hash e best p exact newer h =
      elim (Bool-cases (in_stream stream (with_hashes stored e prev hash))) [
        | inl inside ↦
            let same : stream ≡ e.stream_id = ground (arith, eq_iff e.stream_id stream) in
            linked inside (Newer-with_hashes stored prev hash e best exact (newer same)) (p same)
              (rw (same, exact) h) done
        | inr outside ↦ other outside done
      ]

  store_event-Chain :
      (stored : ℕ → ℕ) (answers : Bool) (stream prev : String) (e : AdminAuditEvent)
      (rows : List AdminAuditEvent)
      → Chain stream none rows
      → (stream ≡ e.stream_id → prev ≡ hash_of (last_event stream rows none))
      → stored e.created_at ≡ e.created_at
      → (stream ≡ e.stream_id → Newer e (last_event stream rows none))
      → (result : Option String)
      → compute_event_hash sha256 canonical prev (build_hash_payload e e.stream_id) ≡ result
      → Chain stream none (store_event stored answers e prev rows result).1
  store_event-Chain stored answers stream prev e rows c p exact newer none h = c
  store_event-Chain stored false stream prev e rows c p exact newer (some hash) h = c
  store_event-Chain stored true stream prev e rows c p exact newer (some hash) h =
      append-Chain stream (with_hashes stored e prev hash) none rows c
        (new-Chain stored stream prev hash e (last_event stream rows none) p exact newer h)

  -- Where each row of a stream is newer than the one before, holds its hash and has the hash that its
  -- own fields give, it is so after an event is logged, whether the statements succeed or not, and
  -- for every stream. The event's time is one that the column holds exactly, and it is newer than
  -- the latest row of its stream.
  pub insert_audit_event-Chain :
      (stored : ℕ → ℕ) (answers : Bool) (now : ℕ) (event : AdminAuditEvent)
      (rows : List AdminAuditEvent) (stream : String)
      → Chain stream none rows
      → stored (time_of now event) ≡ time_of now event
      → Newer (filled now event) (last_event (stream_of event) rows none)
      → Chain stream none (insert_audit_event sha256 canonical stored answers now event rows).1
  unfolding insert_audit_event last_audit_hash
  insert_audit_event-Chain stored answers now event rows stream c exact newer =
      let e = filled now event in
      let prev = last_audit_hash e.stream_id rows in
      store_event-Chain stored answers stream prev e rows c
        (λ same. ap (λ (s : String). hash_of (last_event s rows none)) (sym same)) exact
        (λ same. rw (same) newer)
        (compute_event_hash sha256 canonical prev (build_hash_payload e e.stream_id)) refl
