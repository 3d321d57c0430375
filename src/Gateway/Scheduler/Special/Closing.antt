-- ===== src/Gateway/Scheduler/Special/Closing.antt =====
-- Proofs on _execute_manual and _execute_recovery: what they leave running.
use okxquant.Prelude.{
  ℕ, Text, Bool, true, false, ◌≡◌, refl, inl, inr, Option, none, some, [], Bool-cases, ◌==◌, ◌&&◌,
  ◌||◌, not, if◌then◌else◌, take_last, All, ok, err, value_error, Result, Error,
}
use okxquant.Gateway.Schema.{Request, Recovery, Db}
use okxquant.Gateway.Store.Jobs.{is_manual, is_run_of, claim_job_request}
use okxquant.Gateway.Store.Recoveries.{claim_ai_recovery, is_recovering}
use okxquant.Gateway.Store.Settings.{successful_recovery_call}
use okxquant.Gateway.Store.Claims.Request.{finish_job-closes}
use okxquant.Gateway.AiRecovery.Authority.{finished_stopped}
use okxquant.Gateway.Scheduler.Jobs.{JobSpec}
use okxquant.Gateway.Scheduler.Due.{seconds}
use okxquant.Gateway.Scheduler.State.{
  Scheduler, Env, Outcome, completed, timed_out, not_started, lost_contact, run_job, finish_run,
  find_job,
}
use okxquant.Gateway.Scheduler.Special.{
  run_claimed, run_request, in_jobs, execute_manual, claim_and_run, Notes, or_text, finish_recovery,
  recover_with, recover_claimed, execute_recovery,
}

finish_run-closes :
    (env : Env) (run code : ℕ) (detail : Text) (s : Scheduler)
    → env.can_finish run ≡ true
    → All (λ r. is_run_of run r ≡ false) (finish_run env run code detail s).db.requests
unfolding finish_run
finish_run-closes env run code detail s can =
    rw can (finish_job-closes (seconds env.now) run code detail s.db)

run_job-closes :
    (env : Env) (spec : JobSpec) (run : ℕ) (o : Outcome) (s : Scheduler)
    → env.can_finish run ≡ true
    → All (λ r. is_run_of run r ≡ false) (run_job env spec run true [] o s).db.requests
unfolding run_job
run_job-closes env spec run (completed code out errors) s can =
    finish_run-closes env run code (take_last 2000 (if code == 0 then out else errors)) s can
run_job-closes env spec run (timed_out detail) s can = finish_run-closes env run 124 detail s can
run_job-closes env spec run (not_started detail) s can = finish_run-closes env run 1 detail s can
run_job-closes env spec run (lost_contact detail) s can = finish_run-closes env run 1 detail s can

allowed :
    (a b : Bool) (r : Result Scheduler)
    → a ≡ true
    → b ≡ true
    → (if not a || not b then err value_error else r) ≡ r
allowed a b r h k = rw (h, k) refl

-- An allowed manual run whose claim SQLite does not refuse, which finds its request, and whose
-- completion the store takes, does not raise, and leaves no running request of its run, however the
-- process ended.
pub execute_manual-closes :
    (env : Env) (spec : JobSpec) (i run : ℕ) (refused : Option Error) (o : Outcome) (s : Scheduler)
    (row : Request)
    → is_manual spec.name ≡ true
    → in_jobs spec ≡ true
    → refused ≡ none
    → (claim_job_request (seconds env.now) i s.db).0 ≡ some row
    → row.run_id ≡ some run
    → env.can_finish run ≡ true
    → (after : Scheduler) × (execute_manual env spec i refused o s ≡ ok after)
      × All (λ r. is_run_of run r ≡ false) after.db.requests
unfolding execute_manual claim_and_run run_request run_claimed
execute_manual-closes env spec i run refused o s row manual known unrefused claimed numbered can =
    let begun : Scheduler = record s { db = (claim_job_request (seconds env.now) i s.db).1 } in
    (
      run_job env spec run true [] o begun,
      rw (unrefused, claimed, numbered)
          (allowed (is_manual spec.name) (in_jobs spec) (ok (run_job env spec run true [] o begun))
            manual known),
      run_job-closes env spec run o begun can,
    )

finish_recovery-closes :
    (env : Env) (notes : Notes) (i : ℕ) (o : Outcome) (db : Db)
    → All (λ r. is_recovering i r ≡ false) (finish_recovery env notes i o db).recoveries
unfolding finish_recovery
finish_recovery-closes env notes i (completed code out errors) db =
    let detail = take_last 2000 (if code == 0 then out else errors) in
    elim (Bool-cases (code == 0 && successful_recovery_call notes.key i db)) [
      | inl e ↦ rw e (finished_stopped (seconds env.now) i 0 (or_text detail notes.recovered) db)
      | inr e ↦ rw e (
          finished_stopped (seconds env.now) i (if code == 0 then 1 else code)
            (or_text detail notes.undecided) db)
    ]
finish_recovery-closes env notes i (timed_out detail) db =
    finished_stopped (seconds env.now) i 124 detail db
finish_recovery-closes env notes i (not_started detail) db =
    finished_stopped (seconds env.now) i 1 detail db
finish_recovery-closes env notes i (lost_contact detail) db =
    finished_stopped (seconds env.now) i 1 detail db

-- A recovery that _execute_recovery has claimed is not running when it returns, whether the trader
-- was disabled, its process failed to start, ran out of time or ended, and whatever it committed.
pub execute_recovery-closes :
    (env : Env) (notes : Notes) (i : ℕ) (others : Db → Db) (o : Outcome) (s : Scheduler)
    (row : Recovery)
    → (claim_ai_recovery (seconds env.now) i s.db).0 ≡ some row
    → All (λ r. is_recovering i r ≡ false) (execute_recovery env notes i others o s).db.recoveries
unfolding execute_recovery recover_claimed
execute_recovery-closes env notes i others o s row claimed =
    let db = (claim_ai_recovery (seconds env.now) i s.db).1 in
    rw claimed (go (find_job "trader" env.jobs) db)
  where
    go :
        (trader : Option JobSpec) (db : Db)
        → All
            (λ r. is_recovering i r ≡ false)
            (recover_with env notes i others o trader db).recoveries
    go none db = unfold recover_with in finished_stopped (seconds env.now) i 1 notes.disabled db
    go (some trader) db = unfold recover_with in finish_recovery-closes env notes i o (others db)
