-- ===== src/Gateway/Store/Deliveries.antt =====
-- GatewayStore.publish, claim_due, complete, fail, replay_dead, and the delivery part of
-- recover_processing.
use okxquant.Prelude.{
  ℕ, ◌+◌, ◌-◌, ◌*◌, ◌^◌, min, String, Text, Bool, true, false, ◌&&◌, ◌||◌, Option, none, some, List,
  [], ◌∷◌, map, ltb, leb, ◌==◌, str_eq, if◌then◌else◌, any_of, take, Result, ok, err, value_error,
  is_some,
}
use okxquant.Prelude.Table.{
  select, update, insert, insert_or_ignore, fetch_one, order_by, count_where,
}
use okxquant.Gateway.Schema.{Event, Delivery, DeliveryStatus, Db}

unfoldable pub same_event : Event → Event → Bool
same_event a b = str_eq a.event_id b.event_id

-- UNIQUE(event_id, channel)
unfoldable pub same_delivery : Delivery → Delivery → Bool
same_delivery a b = str_eq a.event_id b.event_id && str_eq a.channel b.channel

-- The row that INSERT INTO deliveries(event_id, channel, next_attempt_at, created_at) writes.
unfoldable pub new_delivery : ℕ → Event → String → Delivery
new_delivery id event channel = record {
  id = id;
  event_id = event.event_id;
  channel = channel;
  status = DeliveryStatus.pending;
  attempts = 0;
  next_attempt_at = event.created_at;
  last_error = [];
  delivered_at = none;
  created_at = event.created_at;
}

-- INSERT OR IGNORE INTO deliveries; an ignored row uses up no sequence number.
unfoldable pub publish_to : Event → String → Db → Db
unfolding new_delivery same_delivery insert
publish_to event channel db =
    let row = new_delivery (db.delivery_seq + 1) event channel in
    if any_of (λ d. same_delivery d row) db.deliveries
    then db
    else record db { deliveries = insert row db.deliveries; delivery_seq = db.delivery_seq + 1 }

unfoldable pub publish_all : Event → List String → Db → Db
unfolding publish_to
publish_all event [] db = db
publish_all event (channel ∷ rest) db = publish_all event rest (publish_to event channel db)

unfoldable pub publish : Event → List String → Db → Db
unfolding publish_all same_event insert_or_ignore
publish event channels db =
    publish_all event channels (record db { events = insert_or_ignore same_event event db.events })

-- status IN ('pending','retry')
unfoldable pub is_waiting : DeliveryStatus → Bool
is_waiting DeliveryStatus.pending = true
is_waiting DeliveryStatus.retry = true
is_waiting _ = false

unfoldable pub is_due : ℕ → Delivery → Bool
unfolding is_waiting
is_due now d = is_waiting d.status && leb d.next_attempt_at now

-- A row of the join of deliveries and events.
pub record Claim : Type 0 where
  pub delivery : Delivery
  pub event : Event

unfoldable pub join_row : Option Event → Delivery → List Claim → List Claim
join_row none d rest = rest
join_row (some e) d rest = record { delivery = d; event = e } ∷ rest

-- FROM deliveries d JOIN events e ON e.event_id=d.event_id
unfoldable pub join : List Event → List Delivery → List Claim
unfolding fetch_one join_row
join events [] = []
join events (d ∷ ds) =
    join_row (fetch_one (λ e. str_eq e.event_id d.event_id) events) d (join events ds)

-- ORDER BY e.priority DESC, d.id ASC
unfoldable pub before : Claim → Claim → Bool
before a b =
    ltb b.event.priority a.event.priority
    || (a.event.priority == b.event.priority && leb a.delivery.id b.delivery.id)

unfoldable pub due_rows : ℕ → Db → List Claim
unfolding is_due join before select order_by
due_rows now db = order_by before (join db.events (select (is_due now) db.deliveries))

abbrev pub claim_id : Claim → ℕ
claim_id c = c.delivery.id

-- id IN (ids)
unfoldable pub is_in : List ℕ → ℕ → Bool
is_in ids i = any_of (λ j. j == i) ids

abbrev pub set_processing : Delivery → Delivery
set_processing d = record d { status = DeliveryStatus.processing }

-- UPDATE deliveries SET status='processing' WHERE id IN (ids), skipped when there are no ids.
unfoldable pub mark_processing : List ℕ → List Delivery → List Delivery
unfolding is_in update
mark_processing [] ds = ds
mark_processing (i ∷ ids) ds = update (λ d. is_in (i ∷ ids) d.id) set_processing ds

-- The second transaction of claim_due, under BEGIN IMMEDIATE.
unfoldable pub claim_locked : ℕ → ℕ → Db → List Claim × Db
unfolding due_rows mark_processing
claim_locked now limit db =
    let rows = take limit (due_rows now db) in
    (rows, record db { deliveries = mark_processing (map claim_id rows) db.deliveries })

-- claim_due: an unlocked read first; `others` is what other connections commit before the lock.
unfoldable pub claim_due : ℕ → ℕ → (Db → Db) → Db → List Claim × Db
unfolding claim_locked fetch_one
claim_due now limit others db =
    if is_some (fetch_one (is_due now) db.deliveries)
    then claim_locked now limit (others db)
    else ([], db)

abbrev pub set_completed : ℕ → DeliveryStatus → Text → Delivery → Delivery
set_completed now status detail d = record d {
  status = status;
  delivered_at = some now;
  last_error = detail;
}

-- complete: a status outside {'delivered','accepted'} raises ValueError.
unfoldable pub complete : ℕ → ℕ → DeliveryStatus → Text → Db → Result Db
unfolding update
complete now i DeliveryStatus.delivered detail db = ok (record db {
  deliveries =
      update (λ d. d.id == i) (set_completed now DeliveryStatus.delivered []) db.deliveries;
})
complete now i DeliveryStatus.accepted detail db = ok (record db {
  deliveries =
      update (λ d. d.id == i) (set_completed now DeliveryStatus.accepted (take 1000 detail))
        db.deliveries;
})
complete now i _ detail db = err value_error

-- min(3600, 30 * (2 ** min(new_attempts - 1, 7)))
unfoldable pub retry_delay : ℕ → ℕ
retry_delay new_attempts = min 3600 (30 * 2 ^ min (new_attempts - 1) 7)

unfoldable pub failed_status : ℕ → ℕ → DeliveryStatus
failed_status max_attempts new_attempts =
    if leb max_attempts new_attempts then DeliveryStatus.dead else DeliveryStatus.retry

abbrev pub set_failed : DeliveryStatus → ℕ → ℕ → Text → Delivery → Delivery
set_failed status attempts next error d = record d {
  status = status;
  attempts = attempts;
  next_attempt_at = next;
  last_error = error;
}

-- fail: `attempts` is the value that the claim returned.
unfoldable pub fail : ℕ → ℕ → ℕ → Text → ℕ → Db → Db
unfolding retry_delay failed_status update
fail now i attempts error max_attempts db = record db {
  deliveries =
      update (λ d. d.id == i)
        (set_failed (failed_status max_attempts (attempts + 1)) (attempts + 1)
          (now + retry_delay (attempts + 1)) (take 1000 error))
        db.deliveries;
}

unfoldable pub is_dead : DeliveryStatus → Bool
is_dead DeliveryStatus.dead = true
is_dead _ = false

abbrev pub set_replayed : ℕ → Delivery → Delivery
set_replayed now d = record d {
  status = DeliveryStatus.pending;
  attempts = 0;
  next_attempt_at = now;
  last_error = [];
  delivered_at = none;
}

-- replay_dead: the result is rowcount == 1.
unfoldable pub replay_dead : ℕ → ℕ → Db → Db × Bool
unfolding is_dead update count_where
replay_dead now i db = (
  record db {
    deliveries = update (λ d. d.id == i && is_dead d.status) (set_replayed now) db.deliveries;
  },
  count_where (λ d. d.id == i && is_dead d.status) db.deliveries == 1,
)

unfoldable pub is_processing : DeliveryStatus → Bool
is_processing DeliveryStatus.processing = true
is_processing _ = false

abbrev pub set_retry : Delivery → Delivery
set_retry d = record d { status = DeliveryStatus.retry }

-- UPDATE deliveries SET status='retry' WHERE status='processing'
unfoldable pub recover_deliveries : Db → Db
unfolding is_processing update
recover_deliveries db = record db {
  deliveries = update (λ d. is_processing d.status) set_retry db.deliveries;
}
