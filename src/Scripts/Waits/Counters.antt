-- ===== src/Scripts/Waits/Counters.antt =====
-- advance and advance_failure of scripts/wait_counters.py. A decision is what they read of a row.
use okxquant.Prelude.{
  ℕ, ◌+◌, String, Bool, true, false, ◌&&◌, ◌||◌, not, Option, none, some, List, [], ◌∷◌, ◌==◌, ltb,
  str_eq, any_of, if◌then◌else◌, Result, ok, err, value_error,
}
use okxquant.Prelude.Table.{count_where}

pub data ModelAction : Type 0 where
  wait buy_long sell_short no_action : ModelAction

pub data DecisionStatus : Type 0 where
  incomplete audited_wait execution_rejected other_status : DecisionStatus

-- `plans` is the number of plans of a catalog that is complete and without error.
pub record Decision : Type 0 where
  pub plans : Option ℕ
  pub action : ModelAction
  pub status : DecisionStatus
  pub contract_valid : Bool
  pub corrected : Bool

-- A value of the stored JSON: None, a count, or what is neither.
pub data Count : Type 0 where
  no_count : Count
  count : ℕ → Count
  bad_count : Count

-- KEYS
pub record Streaks : Type 0 where
  pub no_program_plans : Count
  pub model_all_wait : Count
  pub audit_incomplete : Count
  pub audited_wait_with_plans : Count

pub record LastCycle : Type 0 where
  pub program_plans : Option ℕ
  pub model_entry_proposals : Option ℕ
  pub incomplete_rows : Option ℕ
  pub audited_waits : ℕ
  pub repair_corrected : ℕ
  pub failed : Bool

pub record WaitState : Type 0 where
  pub version : String
  pub since : ℕ
  pub observed_rounds : Count
  pub streaks : Streaks
  pub failed_rounds_total : ℕ
  pub last_cycle : Option LastCycle

unfoldable pub is_bad : Count → Bool
is_bad bad_count = true
is_bad _ = false

unfoldable pub is_count : Count → Bool
is_count (count n) = true
is_count _ = false

unfoldable pub is_stored : WaitState → Bool
unfolding is_bad is_count
is_stored s =
    str_eq s.version "wait-diagnostics-v2"
    && (not (is_bad s.streaks.no_program_plans)
        && (not (is_bad s.streaks.model_all_wait)
            && (not (is_bad s.streaks.audit_incomplete)
                && (not (is_bad s.streaks.audited_wait_with_plans) && is_count s.observed_rounds))))

abbrev pub no_rounds : ℕ → WaitState
no_rounds now = record {
  version = "wait-diagnostics-v2";
  since = now;
  observed_rounds = count 0;
  streaks = record {
    no_program_plans = count 0;
    model_all_wait = count 0;
    audit_incomplete = count 0;
    audited_wait_with_plans = count 0;
  };
  failed_rounds_total = 0;
  last_cycle = none;
}

unfoldable pub some_row : List Decision → Bool
some_row [] = false
some_row (d ∷ ds) = true

-- sum(len(c['plans'])), where every catalog is known.
unfoldable pub sum_plans : List Decision → Option ℕ
sum_plans [] = some 0
sum_plans (d ∷ ds) = elim d.plans [
  | none ↦ none
  | some n ↦ elim (sum_plans ds) [ none ↦ none | some m ↦ some (n + m) ]
]

unfoldable pub program_plans_of : List Decision → Option ℕ
unfolding some_row sum_plans
program_plans_of ds = if some_row ds then sum_plans ds else none

unfoldable pub is_wait : ModelAction → Bool
is_wait wait = true
is_wait _ = false

unfoldable pub is_entry : ModelAction → Bool
is_entry buy_long = true
is_entry sell_short = true
is_entry _ = false

unfoldable pub model_known : List Decision → Bool
unfolding some_row is_wait is_entry
model_known ds = some_row ds && not (any_of (λ d. not (is_wait d.action || is_entry d.action)) ds)

unfoldable pub is_audited : Decision → Bool
is_audited d = elim d.status [ audited_wait ↦ true | _ ↦ false ]

unfoldable pub is_incomplete : Decision → Bool
is_incomplete d = elim d.status [
  | incomplete ↦ true
  | execution_rejected ↦ false
  | _ ↦ not d.contract_valid
]

unfoldable pub all_audited_wait : List Decision → Bool
unfolding some_row is_audited
all_audited_wait ds = some_row ds && not (any_of (λ d. not (is_audited d && d.contract_valid)) ds)

-- outcomes, with `none` for None.
pub record Outcomes : Type 0 where
  pub no_program_plans : Option Bool
  pub model_all_wait : Option Bool
  pub audit_incomplete : Option Bool
  pub audited_wait_with_plans : Option Bool

unfoldable pub outcomes_of : List Decision → Outcomes
unfolding program_plans_of model_known is_wait is_incomplete all_audited_wait count_where
outcomes_of ds = record {
  no_program_plans = elim (program_plans_of ds) [ none ↦ none | some n ↦ some (n == 0) ];
  model_all_wait =
      if model_known ds then some (not (any_of (λ d. not (is_wait d.action)) ds)) else none;
  audit_incomplete = some (ltb 0 (count_where is_incomplete ds));
  audited_wait_with_plans = elim (program_plans_of ds) [
    | none ↦ none
    | some n ↦ some (ltb 0 n && all_audited_wait ds)
  ];
}

-- old or 0
unfoldable pub or_zero_count : Count → ℕ
or_zero_count (count n) = n
or_zero_count _ = 0

unfoldable pub next_streak : Count → Option Bool → Count
unfolding or_zero_count
next_streak old none = no_count
next_streak old (some hit) = if hit then count (or_zero_count old + 1) else count 0

unfoldable pub next_streaks : Outcomes → Streaks → Streaks
unfolding next_streak
next_streaks o s = record {
  no_program_plans = next_streak s.no_program_plans o.no_program_plans;
  model_all_wait = next_streak s.model_all_wait o.model_all_wait;
  audit_incomplete = next_streak s.audit_incomplete o.audit_incomplete;
  audited_wait_with_plans = next_streak s.audited_wait_with_plans o.audited_wait_with_plans;
}

unfoldable pub last_cycle_of : List Decision → LastCycle
unfolding program_plans_of model_known is_entry is_incomplete is_audited count_where
last_cycle_of ds = record {
  program_plans = program_plans_of ds;
  model_entry_proposals =
      if model_known ds then some (count_where (λ d. is_entry d.action) ds) else none;
  incomplete_rows = some (count_where is_incomplete ds);
  audited_waits = count_where is_audited ds;
  repair_corrected = count_where (λ d. d.corrected) ds;
  failed = false;
}

unfoldable pub advanced : List Decision → WaitState → WaitState
unfolding next_streaks outcomes_of last_cycle_of or_zero_count
advanced ds s = record s {
  observed_rounds = count (or_zero_count s.observed_rounds + 1);
  streaks = next_streaks (outcomes_of ds) s.streaks;
  last_cycle = some (last_cycle_of ds);
}

unfoldable pub advance : Option WaitState → List Decision → ℕ → Result WaitState
unfolding advanced is_stored
advance none ds now = ok (advanced ds (no_rounds now))
advance (some previous) ds now =
    if is_stored previous then ok (advanced ds previous) else err value_error

-- (previous or {}).get('streaks', {}).get('audit_incomplete') or 0
unfoldable pub incomplete_before : Option WaitState → ℕ
unfolding or_zero_count
incomplete_before none = 0
incomplete_before (some previous) = or_zero_count previous.streaks.audit_incomplete

unfoldable pub failed_before : Option WaitState → ℕ
failed_before none = 0
failed_before (some previous) = previous.failed_rounds_total

unfoldable pub failed_cycle : Option LastCycle → Option LastCycle
failed_cycle none = none
failed_cycle (some l) = some (record l {
  program_plans = none;
  model_entry_proposals = none;
  incomplete_rows = none;
  audited_waits = 0;
  failed = true;
})

-- The updates of advance_failure, from the audits and the failures before it.
unfoldable pub failed_after : ℕ → ℕ → Result WaitState → Result WaitState
unfolding failed_cycle
failed_after audits failures (err e) = err e
failed_after audits failures (ok s) = ok (record s {
  streaks = record {
    no_program_plans = no_count;
    model_all_wait = no_count;
    audit_incomplete = count (audits + 1);
    audited_wait_with_plans = no_count;
  };
  failed_rounds_total = failures + 1;
  last_cycle = failed_cycle s.last_cycle;
})

unfoldable pub advance_failure : Option WaitState → ℕ → Result WaitState
unfolding advance incomplete_before failed_before failed_after
advance_failure previous now =
    failed_after (incomplete_before previous) (failed_before previous) (advance previous [] now)
