-- ===== src/Gateway/Store/Claims/Held.antt =====
-- Proofs on claim_due of okxquant_gateway/store.py: a delivery between its claim and its end.
use okxquant.Prelude.{
  ℕ, ◌+◌, ◌≤◌, String, Text, Bool, true, false, ◌&&◌, ◌≡◌, refl, sym, subst, inl, inr, List, [],
  ◌∷◌, arith, ◌==◌, Bool-cases, All, any_of, map, take,
}
use okxquant.Prelude.Table.{update, All-update, All-insert}
use okxquant.Gateway.Schema.{Event, Delivery, DeliveryStatus, Db}
use okxquant.Gateway.Store.Call.{Call}
use okxquant.Gateway.Store.Deliveries.{
  same_delivery, new_delivery, publish_to, publish_all, publish, due_rows, claim_id, is_in,
  set_processing, mark_processing, claim_locked, complete, set_completed, fail, set_failed,
  failed_status, retry_delay, replay_dead, is_dead, set_replayed,
}
use okxquant.Gateway.Store.Settings.{set_state, record_model_call}
use okxquant.Gateway.Store.Jobs.{begin_job, finish_job}
use okxquant.Gateway.Store.Recoveries.{new_recovery, enqueue_ai_recovery, cancel_ai_recovery}
use okxquant.Gateway.Store.Operations.{apply, run, or_rollback}
use okxquant.Gateway.Store.Frames.{
  queue_of, queue-request_job, queue-claim_job_request, queue-claim_ai_recovery,
  queue-finish_ai_recovery, queue-add_recovery,
}

-- The calls that end a claim of one of these deliveries.
unfoldable pub releases : List ℕ → Call → Bool
unfolding is_in
releases ids (Call.complete i status detail) = is_in ids i
releases ids (Call.fail i attempts error most) = is_in ids i
releases ids (Call.recover_processing lost unknown) = true
releases ids _ = false

abbrev pub IsHeld : List ℕ → Delivery → Type 0
IsHeld ids d = is_in ids d.id ≡ true → d.status ≡ DeliveryStatus.processing

-- Each delivery with one of the ids is being processed, and no new one will get such an id.
pub record Held (ids : List ℕ) (t : List Delivery × ℕ) : Type 0 where
  pub rows : All (IsHeld ids) t.0
  pub below : All (λ i. i ≤ t.1) ids

update-Held :
    (ids : List ℕ) (p : Delivery → Bool) (f : Delivery → Delivery) (ds : List Delivery) (seq : ℕ)
    → ((d : Delivery) → p d ≡ true → IsHeld ids d → IsHeld ids (f d))
    → Held ids (ds, seq)
    → Held ids (update p f ds, seq)
update-Held ids p f ds seq step h = record {
  rows = All-update (IsHeld ids) p f step ds h.rows;
  below = h.below;
}

above-not_in : (n : ℕ) (ids : List ℕ) → All (λ i. i ≤ n) ids → is_in ids (n + 1) ≡ false
unfolding is_in
above-not_in n [] h = refl
above-not_in n (i ∷ ids) h = ground (arith, above-not_in n ids h.1)

below-suc : (n : ℕ) (ids : List ℕ) → All (λ i. i ≤ n) ids → All (λ i. i ≤ n + 1) ids
below-suc n [] h = tt
below-suc n (i ∷ ids) h = (omega arith, below-suc n ids h.1)

publish_to-Held :
    (ids : List ℕ) (event : Event) (channel : String) (db : Db)
    → Held ids (queue_of db)
    → Held ids (queue_of (publish_to event channel db))
unfolding publish_to
publish_to-Held ids event channel db h =
    let row = new_delivery (db.delivery_seq + 1) event channel in
    elim (Bool-cases (any_of (λ d. same_delivery d row) db.deliveries)) [
      | inl e ↦ rw e h
      | inr e ↦ rw e record {
        rows =
            All-insert (IsHeld ids) row db.deliveries h.rows
              (λ hit. cc (above-not_in db.delivery_seq ids h.below, hit));
        below = below-suc db.delivery_seq ids h.below;
      }
    ]

publish_all-Held :
    (ids : List ℕ) (event : Event) (channels : List String) (db : Db)
    → Held ids (queue_of db)
    → Held ids (queue_of (publish_all event channels db))
unfolding publish_all
publish_all-Held ids event [] db h = h
publish_all-Held ids event (c ∷ cs) db h =
    publish_all-Held ids event cs (publish_to event c db) (publish_to-Held ids event c db h)

mark_processing-Held :
    (ids marked : List ℕ) (ds : List Delivery) (seq : ℕ)
    → Held ids (ds, seq)
    → Held ids (mark_processing marked ds, seq)
unfolding mark_processing
mark_processing-Held ids [] ds seq h = h
mark_processing-Held ids (i ∷ marked) ds seq h =
    update-Held ids (λ d. is_in (i ∷ marked) d.id) set_processing ds seq (λ d _ _ _. refl) h

-- An update of a delivery that is not one of these.
update_other-Held :
    (ids : List ℕ) (i : ℕ) (f : Delivery → Delivery) (ds : List Delivery) (seq : ℕ)
    → is_in ids i ≡ false
    → ((d : Delivery) → (f d).id ≡ d.id)
    → Held ids (ds, seq)
    → Held ids (update (λ d. d.id == i) f ds, seq)
update_other-Held ids i f ds seq other keep =
    update-Held ids (λ d. d.id == i) f ds seq (λ d e _ hit. absurd (clash d e hit))
  where
    clash : (d : Delivery) → (d.id == i) ≡ true → is_in ids (f d).id ≡ true → ⊥
    clash d e hit = let same : d.id ≡ i = ground arith in cc (other, hit, keep d, same)

complete-Held :
    (ids : List ℕ) (now i : ℕ) (status : DeliveryStatus) (detail : Text) (db : Db)
    → is_in ids i ≡ false
    → Held ids (queue_of db)
    → Held ids (queue_of (or_rollback db (complete now i status detail db)))
unfolding complete
complete-Held ids now i DeliveryStatus.delivered detail db other h =
    update_other-Held ids i (set_completed now DeliveryStatus.delivered []) db.deliveries
      db.delivery_seq other (λ d. refl) h
complete-Held ids now i DeliveryStatus.accepted detail db other h =
    update_other-Held ids i (set_completed now DeliveryStatus.accepted (take 1000 detail))
      db.deliveries db.delivery_seq other (λ d. refl) h
complete-Held ids now i _ detail db other h = h

replay-IsHeld :
    (ids : List ℕ) (now i : ℕ) (d : Delivery)
    → (d.id == i && is_dead d.status) ≡ true
    → IsHeld ids d
    → IsHeld ids (set_replayed now d)
unfolding is_dead
replay-IsHeld ids now i d e h hit = ground (arith, h hit)

apply-Held :
    (ids : List ℕ) (now : ℕ) (call : Call) (db : Db)
    → releases ids call ≡ false
    → Held ids (queue_of db)
    → Held ids (queue_of (apply now call db))
unfolding apply releases publish fail replay_dead set_state record_model_call claim_locked
    finish_job begin_job enqueue_ai_recovery cancel_ai_recovery
apply-Held ids now (Call.publish event channels) db r h =
    publish_all-Held ids event channels _ (record { rows = h.rows; below = h.below })
apply-Held ids now (Call.claim_due limit) db r h =
    mark_processing-Held ids (map claim_id (take limit (due_rows now db))) db.deliveries
      db.delivery_seq h
apply-Held ids now (Call.complete i status detail) db r h =
    complete-Held ids now i status detail db r h
apply-Held ids now (Call.fail i attempts error most) db r h =
    update_other-Held ids i
      (set_failed (failed_status most (attempts + 1)) (attempts + 1)
        (now + retry_delay (attempts + 1)) (take 1000 error))
      db.deliveries db.delivery_seq r (λ d. refl) h
apply-Held ids now (Call.replay_dead i) db r h =
    update-Held ids (λ d. d.id == i && is_dead d.status) (set_replayed now) db.deliveries
      db.delivery_seq (replay-IsHeld ids now i) h
apply-Held ids now (Call.recover_processing lost unknown) db r h = cc
apply-Held ids now (Call.request_job name actor) db r h =
    subst (Held ids) (sym (queue-request_job now name actor db)) h
apply-Held ids now (Call.claim_job_request j) db r h =
    subst (Held ids) (sym (queue-claim_job_request now j db)) h
apply-Held ids now (Call.enqueue_ai_recovery scope slot scheduled expires fingerprint call) db r h =
    subst (Held ids)
      (sym (
        queue-add_recovery
          (new_recovery (db.recovery_seq + 1) now scope slot scheduled expires fingerprint call)
          db))
      h
apply-Held ids now (Call.claim_ai_recovery j) db r h =
    subst (Held ids) (sym (queue-claim_ai_recovery now j db)) h
apply-Held ids now (Call.finish_ai_recovery j code detail) db r h =
    subst (Held ids) (sym (queue-finish_ai_recovery now j code detail db)) h
apply-Held ids now _ db r h = h

pub run-Held :
    (ids : List ℕ) (calls : List (ℕ × Call)) (db : Db)
    → All (λ c. releases ids c.1 ≡ false) calls
    → Held ids (queue_of db)
    → Held ids (queue_of (run calls db))
unfolding run
run-Held ids [] db r h = h
run-Held ids ((now, call) ∷ calls) db r h =
    run-Held ids calls (apply now call db) r.1 (apply-Held ids now call db r.0 h)
