-- ===== src/Gateway/Scheduler/Special/Tests.antt =====
-- Runs of _execute_manual and _execute_recovery at concrete inputs.
use okxquant.Prelude.{◌+◌, false, ◌≡◌, refl, none, some, [], ◌∷◌, All, ok}
use okxquant.Prelude.Table.{fetch_one, update}
use okxquant.Gateway.Schema.{Request, Recovery, JobStatus, empty}
use okxquant.Gateway.Store.Jobs.{
  is_manual, is_run_of, claim_job_request, start_request, is_claimable,
}
use okxquant.Gateway.Store.Recoveries.{
  claim_ai_recovery, start_recovery, is_unclaimed, is_recovering,
}
use okxquant.Gateway.Scheduler.Jobs.{review_job}
use okxquant.Gateway.Scheduler.State.{
  Scheduler, completed, timed_out, spec_same, opt_same, times_same,
}
use okxquant.Gateway.Scheduler.Special.{in_jobs, execute_manual, Notes, execute_recovery}
use okxquant.Gateway.Scheduler.Special.Closing.{execute_manual-closes, execute_recovery-closes}
use okxquant.Gateway.Scheduler.Tests.{env_at, slot, waiting, with_recovery}

-- A request for a review.
abbrev requested : Request
requested = record {
  request_id = 1;
  job_name = "self_improvement";
  actor = [];
  status = JobStatus.pending;
  created_at = 1800000000;
  finished_at = none;
  run_id = none;
}

abbrev with_request : Scheduler
with_request = record {
  db = record empty { requests = requested ∷ []; request_seq = 1 };
  running = [];
  retry_after = [];
  pending_completions = [];
}

abbrev begun_request : Request
begun_request = record requested { status = JobStatus.running; run_id = some 1 }

execute_manual-closes_example :
    (after : Scheduler) × (execute_manual
        (env_at slot)
        review_job
        1
        none
        (timed_out (116 ∷ []))
        with_request
      ≡ ok after)
    × All (λ r. is_run_of 1 r ≡ false) after.db.requests
unfolding is_manual in_jobs spec_same opt_same times_same claim_job_request start_request
    is_claimable fetch_one
execute_manual-closes_example =
    execute_manual-closes (env_at slot) review_job 1 1 none (timed_out (116 ∷ [])) with_request
      begun_request refl refl refl refl refl refl

abbrev notes : Notes
notes = record {
  disabled = 100 ∷ [];
  recovered = 114 ∷ [];
  undecided = 117 ∷ [];
  key = λ i. "ai_recovery.model_success.1";
}

abbrev begun : Recovery
begun = record waiting {
  status = JobStatus.running;
  started_at = some 1800000061;
  attempts = 1;
  run_id = some 1;
}

execute_recovery-closes_example :
    All
      (λ r. is_recovering 1 r ≡ false)
      (execute_recovery
        (env_at (slot + 61000000))
        notes
        1
        (λ db. db)
        (completed 0 [] [])
        with_recovery).db.recoveries
unfolding claim_ai_recovery start_recovery is_unclaimed fetch_one update
execute_recovery-closes_example =
    execute_recovery-closes (env_at (slot + 61000000)) notes 1 (λ db. db) (completed 0 [] [])
      with_recovery begun refl
