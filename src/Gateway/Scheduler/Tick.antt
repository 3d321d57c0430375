-- ===== src/Gateway/Scheduler/Tick.antt =====
-- GatewayScheduler.tick and _launch_due_recovery. What a submitted job does runs later, in
-- Gateway/Scheduler/State; a submission only adds a task to self.running.
use okxquant.Prelude.{
  ℕ, ◌+◌, ◌*◌, String, Text, Bool, true, false, ◌&&◌, ◌||◌, not, Option, none, some, List, [], ◌∷◌,
  ◌++◌, ltb, leb, str_eq, if◌then◌else◌, any_of,
}
use text.Mathlib.Text.{starts_with}
use okxquant.Gateway.Schema.{Db, Recovery, Request}
use okxquant.Gateway.Store.Jobs.{is_manual, pending_job_requests}
use okxquant.Gateway.Store.Recoveries.{due_ai_recoveries, cancel_ai_recovery}
use okxquant.Gateway.Store.Settings.{set_state, successful_model_call_in_slot}
use okxquant.Gateway.Scheduler.Jobs.{JobSpec, all_jobs, backup_prefix}
use okxquant.Gateway.Scheduler.Due.{due, seconds, window_open}
use okxquant.Gateway.Scheduler.State.{
  Lane, general, guard, ledger, backup, trader, busy, finished, broken, Task, Scheduler, Env,
  has_key, look, store_key, error_key, last_at, flush_completions, retry_at, find_job,
}

-- The texts that the code writes: the name of an exception's type, and the reasons of _launch_due_recovery.
pub record Texts : Type 0 where
  pub exception : Text
  pub trader_disabled : Text
  pub window_expired : Text
  pub already_decided : Text

unfoldable pub note_failure : Env → Texts → String → Scheduler → Scheduler
unfolding set_state store_key
note_failure env texts name s = record s {
  db = set_state (error_key name) texts.exception s.db;
  retry_after = store_key name (retry_at env.monotonic) s.retry_after;
}

unfoldable pub reaped : Env → Texts → String → Task → Scheduler → Scheduler
unfolding note_failure
reaped env texts name task s = elim task.future [
  | busy ↦ record s { running = s.running ++ ((name, task) ∷ []) }
  | finished ↦ s
  | broken ↦ note_failure env texts name s
]

unfoldable pub reap_each : Env → Texts → List (String × Task) → Scheduler → Scheduler
unfolding reaped
reap_each env texts [] s = s
reap_each env texts ((name, task) ∷ rest) s =
    reap_each env texts rest (reaped env texts name task s)

-- for name, future in list(self.running.items()): a done future is popped.
unfoldable pub reap : Env → Texts → Scheduler → Scheduler
unfolding reap_each
reap env texts s = reap_each env texts s.running (record s { running = [] })

-- The executor of a job.
unfoldable pub lane_of : JobSpec → Lane
lane_of spec =
    if starts_with spec.schedule_key backup_prefix
    then backup
    else if str_eq spec.name "position_guard"
    then guard
    else if str_eq spec.name "ledger_sync"
    then ledger
    else if str_eq spec.name "trader"
    then trader
    else general

unfoldable pub is_busy : Option Task → Bool
is_busy none = false
is_busy (some task) = elim task.future [ busy ↦ true | _ ↦ false ]

-- self._self_improvement_window_open(now, spec)
unfoldable pub review_may_start : Env → JobSpec → Scheduler → Bool
unfolding find_job look is_busy window_open
review_may_start env spec s =
    window_open (find_job "trader" env.jobs) (is_busy (look "trader" s.running)) env.now spec

unfoldable pub retry_time : Option ℕ → ℕ
retry_time none = 0
retry_time (some t) = t

-- Running already, or failed a moment ago.
unfoldable pub is_blocked : Env → String → Scheduler → Bool
unfolding has_key look retry_time
is_blocked env name s =
    has_key name s.running || ltb env.monotonic (retry_time (look name s.retry_after))

unfoldable pub submit : String → Lane → Scheduler → Scheduler
unfolding store_key
submit name lane s = record s {
  running = store_key name (record { lane = lane; future = busy }) s.running;
}

-- One round of the loop over the jobs: whether the job was launched, and the new state. `lasts` is
-- the bulk-fetched last run of each job.
unfoldable pub launch_job :
    Env → Texts → (String → Option ℕ) → JobSpec → Scheduler → Bool × Scheduler
unfolding is_blocked review_may_start lane_of submit note_failure due
launch_job env texts lasts spec s =
    if is_blocked env spec.name s
    then (false, s)
    else if env.raises spec.name
    then (false, note_failure env texts spec.name s)
    else if not (due env.probes env.schedule spec env.now (lasts spec.name))
    then (false, s)
    else if str_eq spec.name "self_improvement" && not (review_may_start env spec s)
    then (false, s)
    else (true, submit spec.name (lane_of spec) s)

unfoldable pub launch_jobs :
    Env → Texts → (String → Option ℕ) → List JobSpec → Scheduler → List String × Scheduler
unfolding launch_job
launch_jobs env texts lasts [] s = ([], s)
launch_jobs env texts lasts (spec ∷ specs) s =
    let (launched, s') = launch_job env texts lasts spec s in
    let (names, s'') = launch_jobs env texts lasts specs s' in
    (if launched then spec.name ∷ names else names, s'')

-- What becomes of one due recovery: cancelled, for a reason; left for later; or launched.
pub data Verdict : Type 0 where
  cancel : Text → Verdict
  wait : Verdict
  launch : Verdict

abbrev pub slot_micros : ℕ → ℕ
slot_micros slot = slot * 1000000

-- slot <= now < slot_end, and not now >= expires.
unfoldable pub in_window : ℕ → Recovery → Bool
in_window now r =
    ltb now (r.expires_at * 1000000)
    && (leb (r.slot_start * 1000000) now && ltb now ((r.slot_start + 15 * 60) * 1000000))

unfoldable pub judge : Env → Texts → Bool → Bool → Recovery → Db → Verdict
unfolding in_window successful_model_call_in_slot
judge env texts enabled trader_busy r db =
    if not enabled
    then cancel texts.trader_disabled
    else if not (in_window env.now r)
    then cancel texts.window_expired
    else if successful_model_call_in_slot r.slot_start (r.slot_start + 15 * 60) db
    then cancel texts.already_decided
    else if trader_busy
    then wait
    else launch

-- One round of the loop; `next` is the rest of it.
unfoldable pub follow :
    Env → Recovery → (Scheduler → Option ℕ × Scheduler) → Verdict → Scheduler → Option ℕ × Scheduler
unfolding cancel_ai_recovery submit
follow env r next (cancel reason) s =
    next (record s { db = cancel_ai_recovery (seconds env.now) r.id reason s.db })
follow env r next wait s = next s
follow env r next launch s = (some r.id, submit "trader" trader s)

-- The loop of _launch_due_recovery: the id of the recovery that was launched, if any. The times of
-- a row are valid, since they are numbers here.
unfoldable pub launch_recoveries :
    Env → Texts → Bool → Bool → List Recovery → Scheduler → Option ℕ × Scheduler
unfolding judge follow
launch_recoveries env texts enabled trader_busy [] s = (none, s)
launch_recoveries env texts enabled trader_busy (r ∷ rest) s =
    follow env r (launch_recoveries env texts enabled trader_busy rest)
      (judge env texts enabled trader_busy r s.db) s

-- any(job.name == "trader" for job in current_jobs())
unfoldable pub trader_enabled : Env → Bool
trader_enabled env = any_of (λ j. str_eq j.name "trader") env.jobs

unfoldable pub launch_due_recovery : Env → Texts → Scheduler → Option ℕ × Scheduler
unfolding launch_recoveries has_key due_ai_recoveries trader_enabled
launch_due_recovery env texts s =
    launch_recoveries env texts (trader_enabled env) (has_key "trader" s.running)
      (due_ai_recoveries (seconds env.now) s.db) s

unfoldable pub manual_spec_starts : Env → Option JobSpec → Scheduler → Bool
unfolding review_may_start
manual_spec_starts env none s = false
manual_spec_starts env (some spec) s =
    not (str_eq spec.name "self_improvement" && not (review_may_start env spec s))

-- The loop over the pending manual requests. A manual name is in JOBS, so `next` finds its spec.
unfoldable pub launch_requests : Env → List Request → Scheduler → List String × Scheduler
unfolding is_manual has_key manual_spec_starts find_job submit
launch_requests env [] s = ([], s)
launch_requests env (r ∷ rest) s =
    let starts =
      is_manual r.job_name
      && (not (has_key r.job_name s.running)
          && manual_spec_starts env (find_job r.job_name all_jobs) s) in
    let (names, s') =
      launch_requests env rest (if starts then submit r.job_name general s else s) in
    (if starts then r.job_name ∷ names else names, s')

abbrev pub recovery_names : Option ℕ → List String
recovery_names none = []
recovery_names (some i) = "trader_recovery" ∷ []

-- tick: the names of what was launched, in order.
unfoldable pub tick : Env → Texts → Scheduler → List String × Scheduler
unfolding flush_completions reap last_at launch_jobs launch_due_recovery pending_job_requests
    launch_requests
tick env texts s0 =
    let s1 = reap env texts (flush_completions env s0) in
    let (scheduled, s2) = launch_jobs env texts (last_at env s1.db) env.jobs s1 in
    let (recovery, s3) = launch_due_recovery env texts s2 in
    let (manual, s4) = launch_requests env (pending_job_requests s3.db) s3 in
    (scheduled ++ (recovery_names recovery ++ manual), s4)
