-- ===== src/Gateway/Scheduler/Timing.antt =====
-- When `due` of okxquant_gateway/scheduler.py starts a job, and how often.
use okxquant.Prelude.{
  ℕ, ◌+◌, ◌*◌, ◌/◌, ◌%◌, ◌≤◌, ◌<◌, String, Bool, true, false, ◌≡◌, ◌↔◌, refl, Option, some, List,
  [], ◌∷◌, ◌++◌, arith, ◌==◌, str_eq, any_of,
}
use okxquant.Prelude.Table.{select}
use okxquant.Scripts.RuntimeFeatures.{Status}
use okxquant.Gateway.Scheduler.Jobs.{
  JobSpec, guard_job, trader_job, factor_job, observations_job, macro_job, is_on, all_jobs,
  BackupJob, backup_job_specs, current_jobs,
}
use okxquant.Gateway.Scheduler.Due.{
  seconds, local, local_day, day_micros, minute_of_day, ScheduleValue, past_slots, latest, missed,
  due_review, other_minute, due_daily, Probes, due, window_open,
}

module _ (probes : Probes) (schedule : String → Option ScheduleValue) where
  -- The trader is started only within the first ten seconds of a 15-minute slot, and only if its
  -- last run, if any, began in an earlier slot.
  pub trader_window :
      (now last : ℕ)
      → due probes schedule trader_job now (some last) ≡ true
      → (seconds now % 900 < 10) × (seconds last / 900 < seconds now / 900)
  unfolding due
  trader_window now last h = ground arith

  -- Once the trader's start is recorded, it is not due again in the same slot.
  pub trader_once :
      (ran later : ℕ)
      → seconds later / 900 ≡ seconds ran / 900
      → due probes schedule trader_job later (some ran) ≡ false
  unfolding due
  trader_once ran later h = ground arith

  -- The position guard is due exactly when a minute has passed since its last run; nothing else,
  -- no setting and no time of the day, holds it back.
  pub guard_due_iff :
      (now last : ℕ)
      → (due probes schedule guard_job now (some last) ≡ true) ↔ (last + 60000000 ≤ now)
  unfolding due
  guard_due_iff now last = (λ h. ground arith, λ h. ground arith)

  -- The staggered research jobs are never due while the trader is: whatever their last runs.
  pub research_staggered :
      (now : ℕ) (last other : Option ℕ)
      → due probes schedule trader_job now last ≡ true
      → (due probes schedule factor_job now other ≡ false)
        × (due probes schedule observations_job now other ≡ false)
        × (due probes schedule macro_job now other ≡ false)
  unfolding due
  research_staggered now last other h =
      let start : seconds now % 900 < 10 = ground arith in
      (ground arith, ground arith, ground arith)

-- A review that may start beside the trader has time to run to its limit, and a minute more, before
-- the trader's next slot; and the trader is not running.
pub window_open-safe :
    (busy : Bool) (now : ℕ) (spec : JobSpec)
    → window_open (some trader_job) busy now spec ≡ true
    → (busy ≡ false) × ((seconds now + spec.timeout_seconds + 60) / 900 ≡ seconds now / 900)
unfolding window_open
window_open-safe busy now spec h = (ground arith, ground arith)

latest-le : (now : ℕ) (times : List ℕ) → latest (past_slots now times) ≤ local now
unfolding latest past_slots
latest-le now [] = omega arith
latest-le now (m ∷ times) = ground (arith, latest-le now times)

missed-recent :
    (last : ℕ) (slots : List ℕ) → latest slots ≤ local last → missed (some last) slots ≡ false
unfolding missed
missed-recent last [] h = refl
missed-recent last (s ∷ slots) h = ground arith

-- A review that is recorded at `ran` is not due again until another of its times has passed.
pub review_once :
    (times : List ℕ) (ran later : ℕ)
    → past_slots later times ≡ past_slots ran times
    → due_review times later (some ran) ≡ false
unfolding due_review
review_once times ran later same =
    rw same (missed-recent ran (past_slots ran times) (latest-le ran times))

in_past_slots :
    (now m : ℕ) (times : List ℕ)
    → any_of (λ t. t == m) times ≡ true
    → m < 1440
    → local_day now * day_micros + m * 60000000 ≤ local now
    → local_day now * day_micros + m * 60000000 ≤ latest (past_slots now times)
unfolding latest past_slots
in_past_slots now m [] listed valid past = cc
in_past_slots now m (t ∷ times) listed valid past = ground (arith, in_past_slots now m times)

missed-old :
    (last : ℕ) (slots : List ℕ) → local last < latest slots → missed (some last) slots ≡ true
unfolding missed latest
missed-old last [] h = absurd (omega arith)
missed-old last (s ∷ slots) h = ground arith

-- A missed review is caught up at any later time of the day: if one of its times has passed and the
-- last run was before it, the review is due.
pub review_caught_up :
    (times : List ℕ) (now last m : ℕ)
    → any_of (λ t. t == m) times ≡ true
    → m < 1440
    → local_day now * day_micros + m * 60000000 ≤ local now
    → local last < local_day now * day_micros + m * 60000000
    → due_review times now (some last) ≡ true
unfolding due_review
review_caught_up times now last m listed valid past before =
    let slot = in_past_slots now m times listed valid past in
    missed-old last (past_slots now times) (omega arith)

-- A daily job that is recorded is not due again in the same minute of the same day.
pub daily_once :
    (times : List ℕ) (ran later : ℕ)
    → local_day later ≡ local_day ran
    → minute_of_day later ≡ minute_of_day ran
    → due_daily times later (some ran) ≡ false
unfolding due_daily other_minute
daily_once times ran later day minute = ground arith

abbrev pub listed : String → List JobSpec → Bool
listed name jobs = any_of (λ j. str_eq j.name name) jobs

listed-append :
    (name : String) (xs ys : List JobSpec) → listed name xs ≡ true → listed name (xs ++ ys) ≡ true
listed-append name [] ys h = cc
listed-append name (x ∷ xs) ys h = ground (arith, listed-append name xs ys)

-- Whatever the pause, the features and the backups are set to, and also when the backups cannot be
-- read, the position guard, the ledger, the evidence and the execution jobs, the macro data, the
-- news and the briefing are scheduled.
pub protection_always_listed :
    (automatic : Bool) (features : Status) (backups : Option (List BackupJob))
    → let jobs = current_jobs automatic features backups in
      (listed "position_guard" jobs ≡ true)
      × (listed "ledger_sync" jobs ≡ true)
      × (listed "evidence_sync" jobs ≡ true)
      × (listed "execution_quality" jobs ≡ true)
      × (listed "macro_data" jobs ≡ true)
      × (listed "news" jobs ≡ true)
      × (listed "daily_briefing" jobs ≡ true)
unfolding current_jobs is_on
protection_always_listed automatic features backups =
    let always =
      λ (name : String) (h : listed name (select (is_on automatic features) all_jobs) ≡ true).
        listed-append name (select (is_on automatic features) all_jobs) (backup_job_specs backups)
          h in
    (
      always "position_guard" (unfold select is_on in ground arith),
      always "ledger_sync" (unfold select is_on in ground arith),
      always "evidence_sync" (unfold select is_on in ground arith),
      always "execution_quality" (unfold select is_on in ground arith),
      always "macro_data" (unfold select is_on in ground arith),
      always "news" (unfold select is_on in ground arith),
      always "daily_briefing" (unfold select is_on in ground arith),
    )
