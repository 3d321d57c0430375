-- ===== src/Gateway/Scheduler/Jobs.antt =====
-- JobSpec, JOBS, backup_job_specs and current_jobs.
use okxquant.Prelude.{
  ℕ, ◌*◌, String, Bool, ◌&&◌, ◌||◌, not, Option, none, some, List, [], ◌∷◌, ◌++◌, str_eq,
  if◌then◌else◌,
}
use okxquant.Prelude.Table.{select}
use Prim.Native.String
use okxquant.Scripts.RuntimeFeatures.{Status}

-- A time of the day, 'HH:MM', as minutes after midnight; the texts are canonical, so that equal
-- minutes are equal texts.
pub record JobSpec : Type 0 where
  pub name : String
  pub script : String
  pub interval_seconds : Option ℕ
  pub timeout_seconds : ℕ
  pub schedule_key : String
  pub default_times : List ℕ
  pub phase_seconds : Option ℕ

abbrev pub every : String → String → ℕ → ℕ → JobSpec
every name script interval timeout = record {
  name = name;
  script = script;
  interval_seconds = some interval;
  timeout_seconds = timeout;
  schedule_key = "";
  default_times = [];
  phase_seconds = none;
}

abbrev pub phased : ℕ → JobSpec → JobSpec
phased phase spec = record spec { phase_seconds = some phase }

abbrev pub at_times : String → String → ℕ → String → List ℕ → JobSpec
at_times name script timeout key times = record {
  name = name;
  script = script;
  interval_seconds = none;
  timeout_seconds = timeout;
  schedule_key = key;
  default_times = times;
  phase_seconds = none;
}

abbrev pub hour : ℕ → ℕ
hour h = h * 60

abbrev pub guard_job : JobSpec
guard_job = every "position_guard" "position_guard.py" 60 240

abbrev pub trader_job : JobSpec
trader_job = every "trader" "ai_factor_trader.py" (15 * 60) 840

abbrev pub factor_job : JobSpec
factor_job = phased 25 (every "factor_library" "factor_library.py" 60 55)

abbrev pub observations_job : JobSpec
observations_job = phased 45 (every "market_observations" "market_observations.py" 60 55)

abbrev pub macro_job : JobSpec
macro_job = phased 120 (every "macro_data" "macro_market.py" 300 120)

abbrev pub review_job : JobSpec
review_job =
    at_times "self_improvement" "self_improvement_engine.py" 480 "self_improvement_time"
      (hour 2 ∷ hour 8 ∷ hour 14 ∷ hour 20 ∷ [])

-- JOBS
abbrev pub all_jobs : List JobSpec
all_jobs =
    guard_job
    ∷ every "evidence_sync" "evidence_sync.py" 300 60
    ∷ every "execution_quality" "execution_quality.py" 5 20
    ∷ every "ledger_sync" "ledger_monitor.py" 60 50
    ∷ trader_job
    ∷ factor_job
    ∷ observations_job
    ∷ macro_job
    ∷ every "news" "news_sentiment_harvester.py" (10 * 60) 300
    ∷ at_times "daily_briefing" "daily_summary_and_backup.py" 600 "briefing_times"
        (hour 8 ∷ hour 20 ∷ [])
    ∷ review_job
    ∷ []

-- A backup job of the store: id, enabled, and schedule_times, if given.
pub record BackupJob : Type 0 where
  pub id : String
  pub enabled : Bool
  pub schedule_times : Option (List ℕ)

abbrev pub backup_prefix : String
backup_prefix = "backup_job:"

unfoldable pub backup_spec : BackupJob → JobSpec
backup_spec job =
    at_times
      (if str_eq job.id "nightly-default" then "nightly_backup" else String.◌++◌ "backup:" job.id)
      "nightly_backup_and_clean.py" 1800 (String.◌++◌ backup_prefix job.id)
      (elim job.schedule_times [ none ↦ hour 2 ∷ [] | some times ↦ times ])

-- backup_job_specs: `none` where list_backup_jobs raised.
unfoldable pub backup_job_specs : Option (List BackupJob) → List JobSpec
unfolding backup_spec
backup_job_specs none = []
backup_job_specs (some []) = []
backup_job_specs (some (job ∷ jobs)) =
    let rest = backup_job_specs (some jobs) in if job.enabled then backup_spec job ∷ rest else rest

-- job.name not in disabled_jobs, and the pause of the trader.
unfoldable pub is_on : Bool → Status → JobSpec → Bool
is_on automatic features spec =
    (automatic || not (str_eq spec.name "trader"))
    && (not (str_eq spec.name "factor_library" && not (features.enabled "factor_snapshots"))
        && (not (
              str_eq spec.name "market_observations"
              && not (features.enabled "market_observations"))
            && not
                (str_eq spec.name "self_improvement" && not (features.enabled "automatic_review"))))

-- current_jobs: `automatic` is OKXQUANT_AUTOTRADE_ENABLED == "1".
unfoldable pub current_jobs : Bool → Status → Option (List BackupJob) → List JobSpec
unfolding is_on select backup_job_specs
current_jobs automatic features backups =
    select (is_on automatic features) all_jobs ++ backup_job_specs backups
