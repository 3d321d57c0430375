-- ===== src/Gateway/Scheduler/Due.antt =====
-- GatewayScheduler._parse_last_at, _scheduled_times, due and _self_improvement_window_open.
-- An instant is a number of microseconds since the epoch, from which int(timestamp()) and the
-- Beijing calendar (UTC+8, no daylight saving) are computed.
use text.Mathlib.Text.{starts_with}
use okxquant.Prelude.{
  ℕ, ◌+◌, ◌-◌, ◌*◌, ◌/◌, ◌%◌, String, Bool, true, false, ◌&&◌, ◌||◌, not, Option, none, some, List,
  [], ◌∷◌, ltb, leb, ◌==◌, str_eq, if◌then◌else◌, any_of, max,
}
use okxquant.Gateway.Scheduler.Jobs.{JobSpec, backup_prefix}

abbrev pub micros : ℕ
micros = 1000000

-- int(t.timestamp())
abbrev pub seconds : ℕ → ℕ
seconds t = t / 1000000

-- Microseconds of local time since 1970-01-01 00:00 in Beijing's zone.
abbrev pub local : ℕ → ℕ
local t = t + 28800 * 1000000

abbrev pub day_micros : ℕ
day_micros = 86400 * 1000000

abbrev pub local_day : ℕ → ℕ
local_day t = local t / day_micros

-- strftime("%H:%M"), as minutes after midnight.
abbrev pub minute_of_day : ℕ → ℕ
minute_of_day t = (local t % day_micros) / (60 * 1000000)

-- A value of the schedule: a list of times or one time.
pub data ScheduleValue : Type 0 where
  many : List ℕ → ScheduleValue
  one : ℕ → ScheduleValue

unfoldable pub times_of : List ℕ → Option ScheduleValue → List ℕ
times_of d none = d
times_of d (some (many times)) = times
times_of d (some (one time)) = time ∷ []

-- _scheduled_times; `schedule` is schedule.get.
unfoldable pub scheduled_times : JobSpec → (String → Option ScheduleValue) → List ℕ
unfolding times_of
scheduled_times spec schedule =
    if starts_with spec.schedule_key backup_prefix
    then spec.default_times
    else times_of spec.default_times (schedule spec.schedule_key)

-- slot > last_slot, with a last slot of -1 where there was no run.
unfoldable pub newer_slot : ℕ → Option ℕ → Bool
newer_slot slot none = true
newer_slot slot (some last) = ltb last slot

abbrev pub map_last : (ℕ → ℕ) → Option ℕ → Option ℕ
map_last f none = none
map_last f (some t) = some (f t)

-- The trader's branch: a new slot, within its first ten seconds.
unfoldable pub due_in_slot : ℕ → ℕ → Option ℕ → Bool
unfolding newer_slot
due_in_slot interval now last =
    newer_slot (seconds now / interval) (map_last (λ t. seconds t / interval) last)
    && ltb (seconds now % interval) 10

-- The branch of a phase. The source floors a difference that is negative only before the phase of
-- 1970; one interval more keeps it from that and moves both slots alike (no phase is longer).
unfoldable pub due_in_phase : ℕ → ℕ → ℕ → Option ℕ → Bool
unfolding newer_slot
due_in_phase interval phase now last =
    let shifted = λ (t : ℕ). seconds t + interval - phase in
    newer_slot (shifted now / interval) (map_last (λ t. shifted t / interval) last)
    && ltb (shifted now % interval) 10

-- not last or (now - last).total_seconds() >= spec.interval_seconds
unfoldable pub due_after : ℕ → ℕ → Option ℕ → Bool
due_after interval now none = true
due_after interval now (some last) = leb (last + interval * 1000000) now

-- The start of today's slot, in local microseconds; an hour past 23 is skipped.
unfoldable pub past_slots : ℕ → List ℕ → List ℕ
past_slots now [] = []
past_slots now (m ∷ times) =
    let rest = past_slots now times in
    let slot = local_day now * day_micros + m * (60 * 1000000) in
    if ltb m 1440 && leb slot (local now) then slot ∷ rest else rest

unfoldable pub latest : List ℕ → ℕ
latest [] = 0
latest (slot ∷ slots) = max slot (latest slots)

unfoldable pub missed : Option ℕ → List ℕ → Bool
unfolding latest
missed last [] = false
missed none (slot ∷ slots) = true
missed (some last) (slot ∷ slots) = ltb (local last) (latest (slot ∷ slots))

-- self_improvement: a slot of today has begun and no run was recorded since.
unfoldable pub due_review : List ℕ → ℕ → Option ℕ → Bool
unfolding missed past_slots
due_review times now last = missed last (past_slots now times)

unfoldable pub other_minute : ℕ → Option ℕ → Bool
other_minute now none = true
other_minute now (some last) =
    not (local_day last == local_day now) || not (minute_of_day last == minute_of_day now)

-- A daily job: the minute is one of its times, and it was not run in this very minute.
unfoldable pub due_daily : List ℕ → ℕ → Option ℕ → Bool
unfolding other_minute
due_daily times now last = any_of (λ m. m == minute_of_day now) times && other_minute now last

-- The should_run functions of scripts/ledger_monitor.py and scripts/execution_quality.py, on the
-- last run (the epoch, if there is none) and now.
pub record Probes : Type 0 where
  pub ledger_should_run : ℕ → ℕ → Bool
  pub quality_should_run : ℕ → ℕ → Bool

abbrev pub or_epoch : Option ℕ → ℕ
or_epoch none = 0
or_epoch (some t) = t

unfoldable pub due_every : JobSpec → ℕ → ℕ → Option ℕ → Bool
unfolding due_in_slot due_in_phase due_after
due_every spec interval now last =
    if str_eq spec.name "trader" then due_in_slot interval now last else elim spec.phase_seconds [
      | some phase ↦ due_in_phase interval phase now last
      | none ↦ due_after interval now last
    ]

unfoldable pub due : Probes → (String → Option ScheduleValue) → JobSpec → ℕ → Option ℕ → Bool
unfolding due_every due_review due_daily scheduled_times
due probes schedule spec now last =
    if str_eq spec.name "ledger_sync"
    then probes.ledger_should_run (or_epoch last) now
    else if str_eq spec.name "execution_quality"
    then probes.quality_should_run (or_epoch last) now
    else elim spec.interval_seconds [
      | some interval ↦ due_every spec interval now last
      | none ↦
          if str_eq spec.name "self_improvement"
          then due_review (scheduled_times spec schedule) now last
          else due_daily (scheduled_times spec schedule) now last
    ]

-- _self_improvement_window_open: the trader among the current jobs, whether its future is still
-- running, and the review's spec.
unfoldable pub window_open : Option JobSpec → Bool → ℕ → JobSpec → Bool
window_open none busy now spec = true
window_open (some trader) busy now spec = elim trader.interval_seconds [
  | none ↦ not busy
  | some interval ↦
      not busy
      && (interval == 0 || ltb (spec.timeout_seconds + 60) (interval - seconds now % interval))
]
