-- ===== src/Gateway/Store/Claims/Recovery.antt =====
-- Proofs on claim_ai_recovery of okxquant_gateway/store.py: what a second claim gets.
use okxquant.Prelude.{
  ◌||◌, not, ℕ, ◌+◌, ◌≤◌, Text, Bool, true, false, ◌≡◌, refl, sym, subst, inl, inr, Option, none,
  some, List, [], ◌∷◌, arith, ◌==◌, Bool-cases, All, any_of,
}
use okxquant.Prelude.Table.{
  fetch_one-refused, update, fetch_one, All-update, All-updated, All-insert, fetch_one-none,
}
use okxquant.Gateway.Schema.{Recovery, Db, is_pending, is_running}
use okxquant.Gateway.Store.Call.{Call}
use okxquant.Gateway.Store.Jobs.{result_status, finish_job, begin_job}
use okxquant.Gateway.Store.Deliveries.{fail, replay_dead, claim_locked}
use okxquant.Gateway.Store.Settings.{set_state, record_model_call}
use okxquant.Gateway.Store.Recoveries.{
  same_slot, new_recovery, add_recovery, is_recorded, enqueue_ai_recovery, is_cancellable,
  set_cancelled, cancel_ai_recovery, is_unclaimed, set_recovering, start_recovery,
  claim_ai_recovery, is_recovering, set_recovered, close_recovery, finish_ai_recovery, set_lost,
  recover_recoveries,
}
use okxquant.Gateway.Store.Operations.{apply, run, recover_processing}
use okxquant.Gateway.Store.Frames.{
  recoveries_of, recoveries-publish, recoveries-complete, recoveries-request_job,
  recoveries-claim_job_request,
}

-- No row with this id can be claimed, and none will be added.
record Spent (i : ℕ) (t : List Recovery × ℕ) : Type 0 where
  rows : All (λ r. is_unclaimed i r ≡ false) t.0
  below : i ≤ t.1

-- An update after which a changed row cannot be claimed.
update-Spent :
    (i : ℕ) (p : Recovery → Bool) (f : Recovery → Recovery) (rows : List Recovery) (seq : ℕ)
    → ((r : Recovery) → p r ≡ true → is_unclaimed i (f r) ≡ false)
    → Spent i (rows, seq)
    → Spent i (update p f rows, seq)
update-Spent i p f rows seq closes h = record {
  rows = All-update (λ r. is_unclaimed i r ≡ false) p f (λ r e _. closes r e) rows h.rows;
  below = h.below;
}

closed_not_unclaimed :
    (i : ℕ) (r : Recovery) → is_pending r.status ≡ false → is_unclaimed i r ≡ false
unfolding is_unclaimed
closed_not_unclaimed i r h = ground arith

result-not_pending : (code : ℕ) → is_pending (result_status code) ≡ false
unfolding result_status is_pending
result-not_pending code = ground arith

other_id-not_unclaimed :
    (i seq : ℕ) (r : Recovery) → i ≤ seq → r.id ≡ seq + 1 → is_unclaimed i r ≡ false
unfolding is_unclaimed
other_id-not_unclaimed i seq r below e = ground arith

add_recovery-Spent :
    (i : ℕ) (row : Recovery) (db : Db)
    → row.id ≡ db.recovery_seq + 1
    → Spent i (recoveries_of db)
    → Spent i (recoveries_of (add_recovery row db))
unfolding add_recovery
add_recovery-Spent i row db fresh h =
    elim (Bool-cases (
      any_of (λ r. same_slot r row) db.recoveries
      || not (is_recorded row.original_model_call_id db))) [
        | inl e ↦ rw e h
        | inr e ↦ rw e record {
          rows =
              All-insert (λ r. is_unclaimed i r ≡ false) row db.recoveries h.rows
                (other_id-not_unclaimed i db.recovery_seq row h.below fresh);
          below = omega (arith, h.below);
        }
      ]

start_recovery-Spent :
    (i now j : ℕ) (db : Db) (found : Option Recovery)
    → Spent i (recoveries_of db)
    → Spent i (recoveries_of (start_recovery now j db found).1)
unfolding start_recovery
start_recovery-Spent i now j db none h = h
start_recovery-Spent i now j db (some row) h =
    update-Spent i (λ r. r.id == j) (set_recovering now (db.run_seq + 1)) db.recoveries
      db.recovery_seq
      (λ r _.
        closed_not_unclaimed i (set_recovering now (db.run_seq + 1) r) (unfold is_pending in refl))
      h

close_recovery-Spent :
    (i now j code : ℕ) (detail : Text) (db : Db) (found : Option Recovery)
    → Spent i (recoveries_of db)
    → Spent i (recoveries_of (close_recovery now j code detail db found))
unfolding close_recovery
close_recovery-Spent i now j code detail db none h = h
close_recovery-Spent i now j code detail db (some row) h =
    update-Spent i (λ r. r.id == j) (set_recovered now code detail) db.recoveries db.recovery_seq
      (λ r _. closed_not_unclaimed i (set_recovered now code detail r) (result-not_pending code)) h

apply-Spent :
    (i now : ℕ) (call : Call) (db : Db)
    → Spent i (recoveries_of db)
    → Spent i (recoveries_of (apply now call db))
unfolding apply fail replay_dead set_state record_model_call claim_locked finish_job begin_job
    recover_processing recover_recoveries cancel_ai_recovery enqueue_ai_recovery claim_ai_recovery
    finish_ai_recovery
apply-Spent i now (Call.publish event channels) db h =
    subst (Spent i) (sym (recoveries-publish event channels db)) h
apply-Spent i now (Call.complete j status detail) db h =
    subst (Spent i) (sym (recoveries-complete now j detail db status)) h
apply-Spent i now (Call.recover_processing lost unknown) db h =
    update-Spent i (λ r. is_running r.status) (set_lost now unknown) db.recoveries db.recovery_seq
      (λ r _. closed_not_unclaimed i (set_lost now unknown r) (unfold is_pending in refl)) h
apply-Spent i now (Call.request_job name actor) db h =
    subst (Spent i) (sym (recoveries-request_job now name actor db)) h
apply-Spent i now (Call.claim_job_request j) db h =
    subst (Spent i) (sym (recoveries-claim_job_request now j db)) h
apply-Spent i now (Call.enqueue_ai_recovery scope slot scheduled expires fingerprint call) db h =
    add_recovery-Spent i
      (new_recovery (db.recovery_seq + 1) now scope slot scheduled expires fingerprint call) db refl
      h
apply-Spent i now (Call.cancel_ai_recovery j detail) db h =
    update-Spent i (is_cancellable j) (set_cancelled now detail) db.recoveries db.recovery_seq
      (λ r _. closed_not_unclaimed i (set_cancelled now detail r) (unfold is_pending in refl)) h
apply-Spent i now (Call.claim_ai_recovery j) db h =
    start_recovery-Spent i now j db (fetch_one (is_unclaimed j) db.recoveries) h
apply-Spent i now (Call.finish_ai_recovery j code detail) db h =
    close_recovery-Spent i now j code detail db (fetch_one (is_recovering j) db.recoveries) h
apply-Spent i now _ db h = h

run-Spent :
    (i : ℕ) (calls : List (ℕ × Call)) (db : Db)
    → Spent i (recoveries_of db)
    → Spent i (recoveries_of (run calls db))
unfolding run
run-Spent i [] db h = h
run-Spent i ((now, call) ∷ calls) db h =
    run-Spent i calls (apply now call db) (apply-Spent i now call db h)

-- A claim of a stored id leaves a row that no later claim takes.
claimed-Spent :
    (now i : ℕ) (db : Db)
    → i ≤ db.recovery_seq
    → Spent i (recoveries_of (claim_ai_recovery now i db).1)
unfolding claim_ai_recovery
claimed-Spent now i db below = found (fetch_one (is_unclaimed i) db.recoveries) refl
  where
    taken : (r : Recovery) → (r.id == i) ≡ false → is_unclaimed i r ≡ false
    taken r e = unfold is_unclaimed in ground arith

    found :
        (o : Option Recovery)
        → fetch_one (is_unclaimed i) db.recoveries ≡ o
        → Spent i (recoveries_of (start_recovery now i db o).1)
    found none e =
        unfold start_recovery in
        record { rows = fetch_one-none (is_unclaimed i) db.recoveries e; below = below }
    found (some row) e =
        unfold start_recovery in
        record {
          rows =
              All-updated (λ r. is_unclaimed i r ≡ false) (λ r. r.id == i)
                (set_recovering now (db.run_seq + 1))
                (λ r _.
                  closed_not_unclaimed i (set_recovering now (db.run_seq + 1) r)
                    (unfold is_pending in refl))
                taken db.recoveries;
          below = below;
        }

-- Once claim_ai_recovery was called for a stored recovery, whether or not it returned the row, no
-- claim of that recovery returns a row again, whatever calls come in between.
pub claim_ai_recovery-once :
    (now later i : ℕ) (calls : List (ℕ × Call)) (db : Db)
    → i ≤ db.recovery_seq
    → (claim_ai_recovery later i (run calls (claim_ai_recovery now i db).1)).0 ≡ none
claim_ai_recovery-once now later i calls db below =
    let db' = run calls (claim_ai_recovery now i db).1 in
    let spent = run-Spent i calls (claim_ai_recovery now i db).1 (claimed-Spent now i db below) in
    unfold claim_ai_recovery start_recovery in
    rw (fetch_one-refused (is_unclaimed i) db'.recoveries spent.rows)
