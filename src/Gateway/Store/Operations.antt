-- ===== src/Gateway/Store/Operations.antt =====
-- recover_processing, and the run of any sequence of calls: all that a process does to the database.
use okxquant.Prelude.{ℕ, Text, List, [], ◌∷◌, Result, ok, err}
use okxquant.Gateway.Schema.{Db}
use okxquant.Gateway.Store.Call.{Call}
use okxquant.Gateway.Store.Deliveries.{
  publish, claim_locked, complete, fail, replay_dead, recover_deliveries,
}
use okxquant.Gateway.Store.Jobs.{
  request_job, claim_job_request, begin_job, finish_job, recover_jobs,
}
use okxquant.Gateway.Store.Recoveries.{
  enqueue_ai_recovery, cancel_ai_recovery, claim_ai_recovery, finish_ai_recovery,
  recover_recoveries,
}
use okxquant.Gateway.Store.Settings.{set_state, record_model_call}

-- recover_processing: `lost` and `unknown` are its two fixed texts.
unfoldable pub recover_processing : ℕ → Text → Text → Db → Db
unfolding recover_deliveries recover_jobs recover_recoveries
recover_processing now lost unknown db =
    recover_recoveries now unknown (recover_jobs now lost (recover_deliveries db))

-- An exception rolls the transaction back.
abbrev pub or_rollback : Db → Result Db → Db
or_rollback db (ok db') = db'
or_rollback db (err e) = db

abbrev pub result_db {ℓ} : {A : Type ℓ} → Db → Result (A × Db) → Db
result_db db (ok (a, db')) = db'
result_db db (err e) = db

-- One call, made when the clock reads `now`. claim_due changes the database only in its second
-- transaction, which is the call here.
unfoldable pub apply : ℕ → Call → Db → Db
apply now (Call.publish event channels) db = publish event channels db
apply now (Call.claim_due limit) db = (claim_locked now limit db).1
apply now (Call.complete i status detail) db = or_rollback db (complete now i status detail db)
apply now (Call.fail i attempts error most) db = fail now i attempts error most db
apply now (Call.replay_dead i) db = (replay_dead now i db).0
apply now (Call.recover_processing lost unknown) db = recover_processing now lost unknown db
apply now (Call.request_job name actor) db = result_db db (request_job now name actor db)
apply now (Call.claim_job_request i) db = (claim_job_request now i db).1
apply now (Call.begin_job name) db = (begin_job now name db).1
apply now (Call.finish_job run code detail) db = finish_job now run code detail db
apply now (Call.enqueue_ai_recovery scope slot scheduled expires fingerprint call) db =
    (enqueue_ai_recovery now scope slot scheduled expires fingerprint call db).1
apply now (Call.cancel_ai_recovery i detail) db = cancel_ai_recovery now i detail db
apply now (Call.claim_ai_recovery i) db = (claim_ai_recovery now i db).1
apply now (Call.finish_ai_recovery i code detail) db = finish_ai_recovery now i code detail db
apply now (Call.set_state key value) db = set_state key value db
apply now (Call.record_model_call call diagnostics) db = (record_model_call call diagnostics db).1

-- Calls of any number of processes, in the order in which they commit.
unfoldable pub run : List (ℕ × Call) → Db → Db
run [] db = db
run ((now, call) ∷ calls) db = run calls (apply now call db)
