-- ===== src/Gateway/Scheduler/State.antt =====
-- GatewayScheduler: its state, _last_at, _finish_job, _flush_completions, _run_job and _execute.
use Prim.Native.String
use okxquant.Prelude.{
  ℕ, ◌+◌, ◌*◌, String, Text, Bool, true, false, ◌&&◌, ◌||◌, Option, none, some, List, [], ◌∷◌, ◌==◌,
  str_eq, if◌then◌else◌, take_last,
}
use okxquant.Gateway.Schema.{Db}
use okxquant.Gateway.Store.Jobs.{begin_job, finish_job}
use okxquant.Gateway.Store.Settings.{get_state, set_state}
use okxquant.Gateway.Scheduler.Jobs.{JobSpec}
use okxquant.Gateway.Scheduler.Due.{ScheduleValue, Probes, due, seconds}

-- The executors: one worker each but for `general`.
pub data Lane : Type 0 where
  general guard ledger backup trader : Lane

-- A future: not done; done; or done with an exception.
pub data Future : Type 0 where
  busy finished broken : Future

pub record Task : Type 0 where
  pub lane : Lane
  pub future : Future

-- The store, self.running in insertion order, self.retry_after and self.pending_completions.
pub record Scheduler : Type 0 where
  pub db : Db
  pub running : List (String × Task)
  pub retry_after : List (String × ℕ)
  pub pending_completions : List (ℕ × ℕ × Text)

-- What a call reads from outside: the clocks (`now` and `monotonic` in microseconds), datetime's
-- isoformat and fromisoformat (`none` for ValueError), the schedule, the current jobs, the two
-- probes, whether a job's check or submission raises, and whether a job's completion can be written.
pub record Env : Type 0 where
  pub now : ℕ
  pub monotonic : ℕ
  pub iso : ℕ → Text
  pub parse_iso : Text → Option ℕ
  pub schedule : String → Option ScheduleValue
  pub jobs : List JobSpec
  pub probes : Probes
  pub raises : String → Bool
  pub can_finish : ℕ → Bool

unfoldable pub has_key {ℓ} : {A : Type ℓ} → String → List (String × A) → Bool
has_key name [] = false
has_key name ((k, v) ∷ rest) = str_eq k name || has_key name rest

unfoldable pub look {ℓ} : {A : Type ℓ} → String → List (String × A) → Option A
look name [] = none
look name ((k, v) ∷ rest) = if str_eq k name then some v else look name rest

-- d[name] = v
unfoldable pub store_key {ℓ} : {A : Type ℓ} → String → A → List (String × A) → List (String × A)
store_key name v [] = (name, v) ∷ []
store_key name v ((k, w) ∷ rest) =
    if str_eq k name then (k, v) ∷ rest else (k, w) ∷ store_key name v rest

abbrev pub last_key : String → String
last_key name = String.◌++◌ "job.last." name

abbrev pub error_key : String → String
error_key name = String.◌++◌ "job.error." name

abbrev pub parse_last : (Text → Option ℕ) → Text → Option ℕ
parse_last parse [] = none
parse_last parse (c ∷ rest) = parse (c ∷ rest)

-- _last_at
unfoldable pub last_at : Env → Db → String → Option ℕ
unfolding get_state
last_at env db name = parse_last env.parse_iso (get_state (last_key name) [] db)

-- self.pending_completions.pop(run_id, None)
unfoldable pub without_run : ℕ → List (ℕ × ℕ × Text) → List (ℕ × ℕ × Text)
without_run run [] = []
without_run run ((i, c, t) ∷ rest) =
    let others = without_run run rest in if i == run then others else (i, c, t) ∷ others

-- self.pending_completions[run_id] = completion
unfoldable pub put_run : ℕ → ℕ × Text → List (ℕ × ℕ × Text) → List (ℕ × ℕ × Text)
put_run run (code, detail) [] = (run, code, detail) ∷ []
put_run run (code, detail) ((i, c, t) ∷ rest) =
    if i == run then (i, code, detail) ∷ rest else (i, c, t) ∷ put_run run (code, detail) rest

-- _finish_job: kept in memory until the store takes it.
unfoldable pub finish_run : Env → ℕ → ℕ → Text → Scheduler → Scheduler
unfolding without_run put_run finish_job
finish_run env run code detail s =
    if env.can_finish run
    then record s {
      db = finish_job (seconds env.now) run code detail s.db;
      pending_completions = without_run run s.pending_completions;
    }
    else record s { pending_completions = put_run run (code, detail) s.pending_completions }

unfoldable pub flush_each : Env → List (ℕ × ℕ × Text) → Scheduler → Scheduler
unfolding finish_run
flush_each env [] s = s
flush_each env ((run, code, detail) ∷ rest) s =
    flush_each env rest (finish_run env run code detail s)

-- _flush_completions, over a copy of the items.
unfoldable pub flush_completions : Env → Scheduler → Scheduler
unfolding flush_each
flush_completions env s = flush_each env s.pending_completions s

-- How the subprocess ended: its return code and output; a timeout; no process could be started; or
-- the communication with it failed.
pub data Outcome : Type 0 where
  completed : ℕ → Text → Text → Outcome
  timed_out : Text → Outcome
  not_started : Text → Outcome
  lost_contact : Text → Outcome

abbrev pub retry_at : ℕ → ℕ
retry_at monotonic = monotonic + 30 * 1000000

-- _run_job
unfoldable pub run_job : Env → JobSpec → ℕ → Bool → Text → Outcome → Scheduler → Scheduler
unfolding finish_run set_state store_key
run_job env spec run manual previous (completed code out errors) s =
    finish_run env run code (take_last 2000 (if code == 0 then out else errors)) s
run_job env spec run manual previous (timed_out detail) s = finish_run env run 124 detail s
run_job env spec run manual previous (not_started detail) s = finish_run env run 1 detail (
    if manual then s else record s {
      db = set_state (last_key spec.name) previous s.db;
      retry_after = store_key spec.name (retry_at env.monotonic) s.retry_after;
    })
run_job env spec run manual previous (lost_contact detail) s = finish_run env run 1 detail s

unfoldable pub opt_same : Option ℕ → Option ℕ → Bool
opt_same none none = true
opt_same (some a) (some b) = a == b
opt_same _ _ = false

unfoldable pub times_same : List ℕ → List ℕ → Bool
times_same [] [] = true
times_same (a ∷ rest) (b ∷ others) = a == b && times_same rest others
times_same _ _ = false

-- active == spec, on the frozen dataclass.
unfoldable pub spec_same : JobSpec → JobSpec → Bool
unfolding opt_same times_same
spec_same a b =
    str_eq a.name b.name
    && (str_eq a.script b.script
        && (opt_same a.interval_seconds b.interval_seconds
            && (a.timeout_seconds == b.timeout_seconds
                && (str_eq a.schedule_key b.schedule_key
                    && (times_same a.default_times b.default_times
                        && opt_same a.phase_seconds b.phase_seconds)))))

-- next((job for job in current_jobs() if job.name == name), None)
unfoldable pub find_job : String → List JobSpec → Option JobSpec
find_job name [] = none
find_job name (j ∷ jobs) = if str_eq j.name name then some j else find_job name jobs

unfoldable pub is_current : JobSpec → Option JobSpec → Bool
unfolding spec_same
is_current spec none = false
is_current spec (some active) = spec_same active spec

-- The recorded start of _execute: begin_job, then the new last run.
unfoldable pub start_job : Env → JobSpec → Scheduler → ℕ × Scheduler
unfolding begin_job set_state
start_job env spec s =
    let (run, db) = begin_job (seconds env.now) spec.name s.db in
    (run, record s { db = set_state (last_key spec.name) (env.iso env.now) db })

-- The checks of _execute, run by an executor at env.now; the trader is checked against that time,
-- any other job against the time at which it was submitted.
unfoldable pub may_start : Env → JobSpec → Option ℕ → Scheduler → Bool
unfolding is_current find_job due last_at
may_start env spec scheduled_at s =
    let eligible =
      if str_eq spec.name "trader"
      then env.now
      else elim scheduled_at [ none ↦ env.now | some t ↦ t ] in
    is_current spec (find_job spec.name env.jobs)
    && due env.probes env.schedule spec eligible (last_at env s.db spec.name)

-- _execute
unfoldable pub execute : Env → JobSpec → Option ℕ → Outcome → Scheduler → Scheduler
unfolding may_start start_job run_job get_state
execute env spec scheduled_at outcome s =
    if may_start env spec scheduled_at s
    then (let previous = get_state (last_key spec.name) [] s.db in
        let (run, s') = start_job env spec s in run_job env spec run false previous outcome s')
    else s
