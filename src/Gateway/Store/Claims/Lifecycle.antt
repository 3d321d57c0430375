-- ===== src/Gateway/Store/Claims/Lifecycle.antt =====
-- The life of an AI recovery row over any sequence of calls.
use okxquant.Prelude.{
  ◌||◌, not, ℕ, ◌+◌, Text, refl, sym, subst, inl, inr, some, List, [], ◌∷◌, Option-cases,
  Bool-cases, take, any_of,
}
use okxquant.Prelude.Table.{
  fetch_one, Grows, Grows-refl, Grows-trans, Grows-update, Grows-insert, update-found,
}
use okxquant.Gateway.Schema.{Recovery, JobStatus, Db, is_running}
use okxquant.Gateway.Store.Call.{Call}
use okxquant.Gateway.Store.Jobs.{result_status, begin_job, finish_job}
use okxquant.Gateway.Store.Deliveries.{fail, replay_dead, claim_locked}
use okxquant.Gateway.Store.Settings.{set_state, record_model_call}
use okxquant.Gateway.Store.Recoveries.{
  same_slot, new_recovery, add_recovery, is_recorded, enqueue_ai_recovery, is_cancellable,
  set_cancelled, cancel_ai_recovery, is_unclaimed, set_recovering, start_recovery,
  claim_ai_recovery, is_recovering, set_recovered, close_recovery, finish_ai_recovery, set_lost,
  recover_recoveries,
}
use okxquant.Gateway.Store.Operations.{apply, run, recover_processing}
use okxquant.Gateway.Store.Frames.{
  recoveries_of, recoveries-publish, recoveries-complete, recoveries-request_job,
  recoveries-claim_job_request,
}
use okxquant.Gateway.Store.Valid.{recovery_key, IsValid}
use okxquant.Gateway.Store.Valid.Run.{apply-IsValid}
use okxquant.Gateway.Store.Claims.Follows.{
  Follows, Follows-refl, Follows-trans, cancel-Follows, claim-Follows, close-Follows, rank-result,
  recovering_running, recovering_id, unclaimed_id,
}

-- The recoveries of `b` are those of `a`, each in its place or further on, and perhaps new ones.
abbrev pub Moved : List Recovery × ℕ → List Recovery × ℕ → Type 0
Moved a b = Grows Follows a.0 b.0

Moved-refl : (t : List Recovery × ℕ) → Moved t t
Moved-refl t = Grows-refl Follows Follows-refl t.0

start-Moved :
    (now i : ℕ) (db : Db)
    → IsValid db
    → Moved (recoveries_of db) (recoveries_of (claim_ai_recovery now i db).1)
unfolding claim_ai_recovery
start-Moved now i db v = elim (Option-cases (fetch_one (is_unclaimed i) db.recoveries)) [
  | inl e ↦ rw e (unfold start_recovery in Moved-refl (recoveries_of db))
  | inr (row, e) ↦
      let same =
        update-found recovery_key (is_unclaimed i) (set_recovering now (db.run_seq + 1)) i
          db.recoveries (unclaimed_id i) v.recoveries.keys.distinct e in
      rw e (
        unfold start_recovery in
        rw same (
          Grows-update Follows Follows-refl (is_unclaimed i) (set_recovering now (db.run_seq + 1))
            (claim-Follows now i (db.run_seq + 1)) db.recoveries))
]

finish-Moved :
    (now i code : ℕ) (detail : Text) (db : Db)
    → IsValid db
    → Moved (recoveries_of db) (recoveries_of (finish_ai_recovery now i code detail db))
unfolding finish_ai_recovery
finish-Moved now i code detail db v =
    elim (Option-cases (fetch_one (is_recovering i) db.recoveries)) [
      | inl e ↦ rw e (unfold close_recovery in Moved-refl (recoveries_of db))
      | inr (row, e) ↦
          let same =
            update-found recovery_key (is_recovering i) (set_recovered now code detail) i
              db.recoveries (recovering_id i) v.recoveries.keys.distinct e in
          rw e (
            unfold close_recovery in
            rw same (
              Grows-update Follows Follows-refl (is_recovering i) (set_recovered now code detail)
                (λ r hit.
                  close-Follows r (result_status code) (some now) (take 1000 detail)
                    (recovering_running i r hit) (rank-result code))
                db.recoveries))
    ]

add-Moved :
    (row : Recovery) (db : Db) → Moved (recoveries_of db) (recoveries_of (add_recovery row db))
unfolding add_recovery
add-Moved row db =
    elim (Bool-cases (
      any_of (λ r. same_slot r row) db.recoveries
      || not (is_recorded row.original_model_call_id db))) [
        | inl e ↦ rw e (Moved-refl (recoveries_of db))
        | inr e ↦ rw e (Grows-insert Follows Follows-refl row db.recoveries)
      ]

apply-Moved :
    (now : ℕ) (call : Call) (db : Db)
    → IsValid db
    → Moved (recoveries_of db) (recoveries_of (apply now call db))
unfolding apply fail replay_dead set_state record_model_call claim_locked finish_job begin_job
    recover_processing recover_recoveries cancel_ai_recovery enqueue_ai_recovery
apply-Moved now (Call.publish event channels) db v =
    subst (Moved (recoveries_of db)) (sym (recoveries-publish event channels db))
      (Moved-refl (recoveries_of db))
apply-Moved now (Call.complete j status detail) db v =
    subst (Moved (recoveries_of db)) (sym (recoveries-complete now j detail db status))
      (Moved-refl (recoveries_of db))
apply-Moved now (Call.recover_processing lost unknown) db v =
    Grows-update Follows Follows-refl (λ r. is_running r.status) (set_lost now unknown)
      (λ r e. close-Follows r JobStatus.failed (some now) unknown e refl) db.recoveries
apply-Moved now (Call.request_job name actor) db v =
    subst (Moved (recoveries_of db)) (sym (recoveries-request_job now name actor db))
      (Moved-refl (recoveries_of db))
apply-Moved now (Call.claim_job_request j) db v =
    subst (Moved (recoveries_of db)) (sym (recoveries-claim_job_request now j db))
      (Moved-refl (recoveries_of db))
apply-Moved now (Call.enqueue_ai_recovery scope slot scheduled expires fingerprint call) db v =
    add-Moved (new_recovery (db.recovery_seq + 1) now scope slot scheduled expires fingerprint call)
      db
apply-Moved now (Call.cancel_ai_recovery j detail) db v =
    Grows-update Follows Follows-refl (is_cancellable j) (set_cancelled now detail)
      (cancel-Follows now j detail) db.recoveries
apply-Moved now (Call.claim_ai_recovery j) db v = start-Moved now j db v
apply-Moved now (Call.finish_ai_recovery j code detail) db v = finish-Moved now j code detail db v
apply-Moved now _ db v = Moved-refl (recoveries_of db)

-- From a database that satisfies the constraints, whatever calls commit: every recovery row is
-- still there, in its place; it is for the same account and slot, it has not gone back from running
-- to pending or from closed to either, it has not lost an attempt; a closed row has not changed at
-- all, and a running one has kept its run.
pub run-Moved :
    (calls : List (ℕ × Call)) (db : Db)
    → IsValid db
    → Grows Follows db.recoveries (run calls db).recoveries
unfolding run
run-Moved [] db v = Moved-refl (recoveries_of db)
run-Moved ((now, call) ∷ calls) db v =
    let db' = apply now call db in
    Grows-trans Follows Follows-trans db.recoveries db'.recoveries (run calls db').recoveries
      (apply-Moved now call db v) (run-Moved calls db' (apply-IsValid now call db v))
