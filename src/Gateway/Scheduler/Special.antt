-- ===== src/Gateway/Scheduler/Special.antt =====
-- GatewayScheduler._execute_manual and _execute_recovery: the runs that no schedule asked for.
pub mod Closing
mod Tests
use okxquant.Prelude.{
  ℕ, String, Text, Bool, true, false, ◌&&◌, ◌||◌, not, Option, none, some, List, [], ◌∷◌, ◌==◌,
  if◌then◌else◌, take_last, any_of, Result, Error, ok, err, value_error,
}
use okxquant.Gateway.Schema.{Request, Recovery, Db}
use okxquant.Gateway.Store.Jobs.{is_manual, claim_job_request}
use okxquant.Gateway.Store.Recoveries.{claim_ai_recovery, finish_ai_recovery}
use okxquant.Gateway.Store.Settings.{successful_recovery_call}
use okxquant.Gateway.Scheduler.Jobs.{JobSpec, all_jobs}
use okxquant.Gateway.Scheduler.Due.{seconds}
use okxquant.Gateway.Scheduler.State.{
  Scheduler, Env, Outcome, completed, timed_out, not_started, lost_contact, run_job, spec_same,
  find_job,
}

-- int(request["run_id"]) of the claimed row, which has one.
unfoldable pub run_claimed : Env → JobSpec → Outcome → Option ℕ → Scheduler → Scheduler
unfolding run_job
run_claimed env spec outcome none s = s
run_claimed env spec outcome (some run) s = run_job env spec run true [] outcome s

unfoldable pub run_request : Env → JobSpec → Outcome → Option Request → Scheduler → Scheduler
unfolding run_claimed
run_request env spec outcome none s = s
run_request env spec outcome (some row) s = run_claimed env spec outcome row.run_id s

-- spec in JOBS
unfoldable pub in_jobs : JobSpec → Bool
unfolding spec_same
in_jobs spec = any_of (spec_same spec) all_jobs

-- The call of the store, where SQLite has not refused it: then its error is not caught, and the
-- transaction is rolled back.
unfoldable pub claim_and_run :
    Env → JobSpec → ℕ → Option Error → Outcome → Scheduler → Result Scheduler
unfolding claim_job_request run_request
claim_and_run env spec request_id (some e) outcome s = err e
claim_and_run env spec request_id none outcome s =
    let (row, db) = claim_job_request (seconds env.now) request_id s.db in
    ok (run_request env spec outcome row (record s { db = db }))

-- _execute_manual; `refused` is the error that SQLite raises in claim_job_request, if it does.
unfoldable pub execute_manual :
    Env → JobSpec → ℕ → Option Error → Outcome → Scheduler → Result Scheduler
unfolding is_manual in_jobs claim_and_run
execute_manual env spec request_id refused outcome s =
    if not (is_manual spec.name) || not (in_jobs spec)
    then err value_error
    else claim_and_run env spec request_id refused outcome s

-- The fixed texts of _execute_recovery, and the spelling of a state key.
pub record Notes : Type 0 where
  pub disabled : Text
  pub recovered : Text
  pub undecided : Text
  pub key : ℕ → String

-- detail or default
unfoldable pub or_text : Text → Text → Text
or_text [] d = d
or_text (c ∷ rest) d = c ∷ rest

-- How the trader's process ended for the recovery `i`, and what the model had recorded by then.
unfoldable pub finish_recovery : Env → Notes → ℕ → Outcome → Db → Db
unfolding or_text successful_recovery_call finish_ai_recovery
finish_recovery env notes i (completed code out errors) db =
    let detail = take_last 2000 (if code == 0 then out else errors) in
    if code == 0 && successful_recovery_call notes.key i db
    then finish_ai_recovery (seconds env.now) i 0 (or_text detail notes.recovered) db
    else finish_ai_recovery (seconds env.now) i (if code == 0 then 1 else code)
        (or_text detail notes.undecided) db
finish_recovery env notes i (timed_out detail) db =
    finish_ai_recovery (seconds env.now) i 124 detail db
finish_recovery env notes i (not_started detail) db =
    finish_ai_recovery (seconds env.now) i 1 detail db
finish_recovery env notes i (lost_contact detail) db =
    finish_ai_recovery (seconds env.now) i 1 detail db

unfoldable pub recover_with : Env → Notes → ℕ → (Db → Db) → Outcome → Option JobSpec → Db → Db
unfolding finish_recovery finish_ai_recovery
recover_with env notes i others outcome none db =
    finish_ai_recovery (seconds env.now) i 1 notes.disabled db
recover_with env notes i others outcome (some trader) db =
    finish_recovery env notes i outcome (others db)

unfoldable pub recover_claimed : Env → Notes → ℕ → (Db → Db) → Outcome → Option Recovery → Db → Db
unfolding recover_with find_job
recover_claimed env notes i others outcome none db = db
recover_claimed env notes i others outcome (some row) db =
    recover_with env notes i others outcome (find_job "trader" env.jobs) db

-- _execute_recovery; `others` is what the trader's process and others commit while it runs. The
-- store's own calls do not fail here.
unfoldable pub execute_recovery : Env → Notes → ℕ → (Db → Db) → Outcome → Scheduler → Scheduler
unfolding claim_ai_recovery recover_claimed
execute_recovery env notes i others outcome s =
    let (row, db) = claim_ai_recovery (seconds env.now) i s.db in
    record s { db = recover_claimed env notes i others outcome row db }
