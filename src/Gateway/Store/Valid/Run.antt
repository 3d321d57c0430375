-- ===== src/Gateway/Store/Valid/Run.antt =====
-- Proofs on sequences of calls of okxquant_gateway/store.py under the invariant.
use okxquant.Prelude.{ℕ, ◌+◌, ◌&&◌, refl, List, [], ◌∷◌, ◌==◌, take}
use okxquant.Gateway.Schema.{Db, empty}
use okxquant.Gateway.Store.Call.{Call}
use okxquant.Gateway.Store.Deliveries.{
  fail, set_failed, replay_dead, set_replayed, failed_status, retry_delay, is_dead,
}
use okxquant.Gateway.Store.Settings.{set_state, record_model_call}
use okxquant.Gateway.Store.Operations.{apply, run}
use okxquant.Gateway.Store.Valid.{IsValid}
use okxquant.Gateway.Store.Valid.Queue.{publish-IsValid}
use okxquant.Gateway.Store.Valid.Recoveries.{enqueue-IsValid}
use okxquant.Gateway.Store.Valid.Calls.{
  update_deliveries-IsValid, claim_locked-IsValid, complete-IsValid, request_job-IsValid,
  claim_job_request-IsValid, begin_job-IsValid, finish_job-IsValid, cancel_ai_recovery-IsValid,
  claim_ai_recovery-IsValid, finish_ai_recovery-IsValid, recover_processing-IsValid,
}

pub empty-IsValid : IsValid empty
empty-IsValid = record {
  queue = record {
    keys = record { bounded = tt; distinct = tt };
    events_once = tt;
    routes_once = tt;
    routed = tt;
  };
  runs = record { bounded = tt; distinct = tt };
  requests = record { keys = record { bounded = tt; distinct = tt }; open_once = tt; manual = tt };
  recoveries = record {
    keys = record { bounded = tt; distinct = tt };
    slots_once = tt;
    stages = tt;
  };
}

-- Every call that commits keeps the invariant.
pub apply-IsValid : (now : ℕ) (call : Call) (db : Db) → IsValid db → IsValid (apply now call db)
unfolding apply fail replay_dead set_state record_model_call
apply-IsValid now (Call.publish event channels) db v = publish-IsValid event channels db v
apply-IsValid now (Call.claim_due limit) db v = claim_locked-IsValid now limit db v
apply-IsValid now (Call.complete i status detail) db v = complete-IsValid now i status detail db v
apply-IsValid now (Call.fail i attempts error most) db v =
    update_deliveries-IsValid (λ d. d.id == i)
      (set_failed (failed_status most (attempts + 1)) (attempts + 1)
        (now + retry_delay (attempts + 1)) (take 1000 error))
      (λ d. refl) (λ d. refl) (λ d. refl) db v
apply-IsValid now (Call.replay_dead i) db v =
    update_deliveries-IsValid (λ d. d.id == i && is_dead d.status) (set_replayed now) (λ d. refl)
      (λ d. refl) (λ d. refl) db v
apply-IsValid now (Call.recover_processing lost unknown) db v =
    recover_processing-IsValid now lost unknown db v
apply-IsValid now (Call.request_job name actor) db v = request_job-IsValid now name actor db v
apply-IsValid now (Call.claim_job_request i) db v = claim_job_request-IsValid now i db v
apply-IsValid now (Call.begin_job name) db v = begin_job-IsValid now name db v
apply-IsValid now (Call.finish_job i code detail) db v = finish_job-IsValid now i code detail db v
apply-IsValid now (Call.enqueue_ai_recovery scope slot scheduled expires fingerprint call) db v =
    enqueue-IsValid now scope slot scheduled expires fingerprint call db v
apply-IsValid now (Call.cancel_ai_recovery i detail) db v =
    cancel_ai_recovery-IsValid now i detail db v
apply-IsValid now (Call.claim_ai_recovery i) db v = claim_ai_recovery-IsValid now i db v
apply-IsValid now (Call.finish_ai_recovery i code detail) db v =
    finish_ai_recovery-IsValid now i code detail db v
apply-IsValid now (Call.set_state key value) db v = record {
  queue = v.queue;
  runs = v.runs;
  requests = v.requests;
  recoveries = v.recoveries;
}
apply-IsValid now (Call.record_model_call call diagnostics) db v = record {
  queue = v.queue;
  runs = v.runs;
  requests = v.requests;
  recoveries = v.recoveries;
}

-- From a database that satisfies the invariant, whatever calls any processes commit in whatever
-- order, the ids, events, routes, open requests and recovery slots stay unique, every delivery has
-- its event, every request is for a manual job, and every recovery was attempted at most once, by a
-- run exactly when it was claimed.
pub run-IsValid : (calls : List (ℕ × Call)) (db : Db) → IsValid db → IsValid (run calls db)
unfolding run
run-IsValid [] db v = v
run-IsValid ((now, call) ∷ calls) db v =
    run-IsValid calls (apply now call db) (apply-IsValid now call db v)
