-- ===== src/Gateway/Scheduler/Tests.antt =====
-- Runs of okxquant_gateway/scheduler.py at concrete inputs. The slot of the trader begins at
-- 1800000000 seconds; times are in microseconds.
use okxquant.Prelude.{
  List, ℕ, ◌+◌, ◌/◌, String, Text, true, false, ◌≡◌, refl, Option, none, some, [], ◌∷◌, arith,
  any_of,
}
use okxquant.Scripts.RuntimeFeatures.{status, unreadable}
use okxquant.Gateway.Schema.{Recovery, JobStatus, empty}
use okxquant.Gateway.Store.Recoveries.{due_ai_recoveries}
use okxquant.Gateway.Store.Settings.{get_state}
use okxquant.Gateway.Scheduler.Jobs.{all_jobs, trader_job, guard_job, review_job, current_jobs}
use okxquant.Gateway.Scheduler.Due.{
  ScheduleValue, Probes, due, due_every, due_in_slot, due_review, window_open, seconds, newer_slot,
}
use okxquant.Gateway.Scheduler.State.{
  Scheduler, Env, completed, not_started, has_key, is_current, spec_same, opt_same, times_same,
  find_job, last_at, execute, flush_completions,
}
use okxquant.Gateway.Scheduler.Tick.{
  Texts, tick, reap, launch_due_recovery, launch_recoveries, judge, in_window, follow,
  trader_enabled,
}
use okxquant.Gateway.Scheduler.Runs.{
  was_started, execute_once, execute_rolled_back, finish_all, flush_completions-all,
}
use okxquant.Gateway.Scheduler.Fresh.{tick-Launches}
use okxquant.Gateway.Scheduler.Launches.{Launches}
use okxquant.Gateway.Scheduler.Reaped.{StaysBusy}
use okxquant.Gateway.Scheduler.Launch.{is_fit, launch_due_recovery-safe}
use okxquant.Gateway.Scheduler.Timing.{
  window_open-safe, review_caught_up, listed, protection_always_listed,
}

abbrev probes : Probes
probes = record { ledger_should_run = λ last now. true; quality_should_run = λ last now. false }

abbrev unset : String → Option ScheduleValue
unset name = none

abbrev written : ℕ → Text
written t = t ∷ []

abbrev read_back : Text → Option ℕ
read_back [] = none
read_back (t ∷ rest) = some t

abbrev pub slot : ℕ
slot = 1800000000000000

abbrev pub env_at : ℕ → Env
env_at now = record {
  now = now;
  monotonic = now;
  iso = written;
  parse_iso = read_back;
  schedule = unset;
  jobs = all_jobs;
  probes = probes;
  raises = λ name. false;
  can_finish = λ run. true;
}

abbrev idle : Scheduler
idle = record { db = empty; running = []; retry_after = []; pending_completions = [] }

abbrev texts : Texts
texts = record {
  exception = 101 ∷ [];
  trader_disabled = 102 ∷ [];
  window_expired = 103 ∷ [];
  already_decided = 104 ∷ [];
}

-- A recovery of the running slot.
abbrev pub waiting : Recovery
waiting = record {
  id = 1;
  account_scope = [];
  slot_start = 1800000000;
  status = JobStatus.pending;
  scheduled_at = 1800000060;
  expires_at = 1800000600;
  created_at = 1800000010;
  started_at = none;
  finished_at = none;
  attempts = 0;
  failure_fingerprint = [];
  original_model_call_id = none;
  run_id = none;
  detail = [];
}

abbrev pub with_recovery : Scheduler
with_recovery = record {
  db = record empty { recoveries = waiting ∷ []; recovery_seq = 1 };
  running = [];
  retry_after = [];
  pending_completions = [];
}

abbrev retained : Scheduler
retained = record {
  db = empty;
  running = [];
  retry_after = [];
  pending_completions = (4, 0, []) ∷ (5, 1, 101 ∷ []) ∷ [];
}

execute_once_example :
    execute
      (env_at (slot + 600000000))
      trader_job
      none
      (completed 0 [] [])
      (execute (env_at slot) trader_job none (completed 1 [] []) idle)
    ≡ execute (env_at slot) trader_job none (completed 1 [] []) idle
unfolding was_started is_current spec_same opt_same times_same find_job last_at get_state due
    due_every due_in_slot newer_slot
execute_once_example =
    execute_once (env_at slot) (env_at (slot + 600000000)) none none (completed 1 [] [])
      (completed 0 [] []) idle refl refl refl refl

launch_due_recovery-safe_example :
    let env = env_at (slot + 61000000) in
    (trader_enabled env ≡ true)
    × (has_key "trader" with_recovery.running ≡ false)
    × (any_of (is_fit env with_recovery.db 1) (due_ai_recoveries (seconds env.now) with_recovery.db)
        ≡ true)
unfolding launch_due_recovery launch_recoveries judge in_window follow
launch_due_recovery-safe_example =
    launch_due_recovery-safe (env_at (slot + 61000000)) texts 1 with_recovery refl

-- A review is asked for, the trader's recovery is due, and the scheduled jobs are too.
abbrev asked : Scheduler
asked = record with_recovery {
  db = record with_recovery.db {
    requests =
        record {
          request_id = 1;
          job_name = "self_improvement";
          actor = [];
          status = JobStatus.pending;
          created_at = 1800000000;
          finished_at = none;
          run_id = none;
        }
        ∷ [];
    request_seq = 1;
  };
}

abbrev ticked : List String × Scheduler
ticked = tick (env_at (slot + 61000000)) texts asked

tick-Launches_example :
    Launches ticked.0
      (reap
        (env_at (slot + 61000000))
        texts
        (flush_completions (env_at (slot + 61000000)) asked)).running
      ticked.1.running
    × StaysBusy asked.running ticked.1.running
tick-Launches_example = tick-Launches (env_at (slot + 61000000)) texts asked

flush_completions-all_example :
    ((flush_completions (env_at slot) retained).pending_completions ≡ [])
    × ((flush_completions (env_at slot) retained).db
        ≡ finish_all 1800000000 ((4, 0, []) ∷ (5, 1, 101 ∷ []) ∷ []) empty)
flush_completions-all_example = flush_completions-all (env_at slot) retained (λ run. refl)

execute_rolled_back_example :
    last_at
      (env_at slot)
      (execute (env_at slot) guard_job none (not_started (110 ∷ [])) idle).db
      "position_guard"
    ≡ last_at (env_at slot) empty "position_guard"
execute_rolled_back_example = execute_rolled_back (env_at slot) guard_job none (110 ∷ []) idle

-- The slot begins at 16:00 in Beijing: 15:00 has passed since a run at 14:00.
review_caught_up_example : due_review (180 ∷ 900 ∷ []) slot (some 1799992800000000) ≡ true
review_caught_up_example =
    review_caught_up (180 ∷ 900 ∷ []) slot 1799992800000000 900 refl (omega arith) (omega arith)
      (omega arith)

window_open-safe_example :
    (false ≡ false) × ((seconds slot + review_job.timeout_seconds + 60) / 900 ≡ seconds slot / 900)
unfolding window_open
window_open-safe_example = window_open-safe false slot review_job refl

protection_always_listed_example :
    let jobs = current_jobs false (status none unreadable) none in
    (listed "position_guard" jobs ≡ true)
    × (listed "ledger_sync" jobs ≡ true)
    × (listed "evidence_sync" jobs ≡ true)
    × (listed "execution_quality" jobs ≡ true)
    × (listed "macro_data" jobs ≡ true)
    × (listed "news" jobs ≡ true)
    × (listed "daily_briefing" jobs ≡ true)
protection_always_listed_example = protection_always_listed false (status none unreadable) none
