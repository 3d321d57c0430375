-- ===== src/Scripts/Waits/Streaks.antt =====
-- Proofs on scripts/wait_counters.py: the streaks of a history of cycles.
use okxquant.Prelude.{
  ℕ, suc, ◌+◌, Bool, true, false, ◌≡◌, refl, ap, ◌∙◌, Option, none, some, List, [], ◌∷◌, map, arith,
  length, Result, ok, err, eq_iff,
}
use okxquant.Prelude.Table.{count_where}
use okxquant.Scripts.Waits.Counters.{
  Decision, Count, no_count, count, Streaks, WaitState, is_bad, is_count, is_stored, no_rounds,
  Outcomes, outcomes_of, or_zero_count, next_streak, next_streaks, advanced, advance,
  incomplete_before, failed_before, failed_cycle, failed_after, advance_failure,
}

-- A cycle of the trader, and a history of them from the last one back, each with its time.
pub data Cycle : Type 0 where
  parsed_cycle : List Decision → Cycle
  failed_cycle_of : Cycle

unfoldable pub observe : Option WaitState → Cycle → ℕ → Result WaitState
observe previous (parsed_cycle ds) now = advance previous ds now
observe previous failed_cycle_of now = advance_failure previous now

unfoldable pub observe_all : List (ℕ × Cycle) → Result (Option WaitState)
unfolding observe
observe_all [] = ok none
observe_all ((now, cycle) ∷ earlier) = elim (observe_all earlier) [
  | err e ↦ err e
  | ok previous ↦ elim (observe previous cycle now) [ err e ↦ err e | ok s ↦ ok (some s) ]
]

-- What a cycle says to each key; a cycle that failed says that the audit is incomplete.
unfoldable pub said : Cycle → Outcomes
said (parsed_cycle ds) = outcomes_of ds
said failed_cycle_of = record {
  no_program_plans = none;
  model_all_wait = none;
  audit_incomplete = some true;
  audited_wait_with_plans = none;
}

unfoldable pub is_failed : Cycle → Bool
is_failed (parsed_cycle ds) = false
is_failed failed_cycle_of = true

-- The number of cycles in a row, back from the last one, that said yes.
unfoldable pub run_length : List (Option Bool) → ℕ
run_length (some true ∷ earlier) = suc (run_length earlier)
run_length _ = 0

unfoldable pub streak_of : List (Option Bool) → Count
unfolding run_length
streak_of (none ∷ earlier) = no_count
streak_of history = count (run_length history)

abbrev pub streaks_of : List Outcomes → Streaks
streaks_of os = record {
  no_program_plans = streak_of (map (λ (o : Outcomes). o.no_program_plans) os);
  model_all_wait = streak_of (map (λ (o : Outcomes). o.model_all_wait) os);
  audit_incomplete = streak_of (map (λ (o : Outcomes). o.audit_incomplete) os);
  audited_wait_with_plans = streak_of (map (λ (o : Outcomes). o.audited_wait_with_plans) os);
}

abbrev pub said_all : List (ℕ × Cycle) → List Outcomes
said_all cycles = map (λ (c : ℕ × Cycle). said c.1) cycles

abbrev pub failures : List (ℕ × Cycle) → ℕ
failures cycles = count_where (λ (c : ℕ × Cycle). is_failed c.1) cycles

or_zero_streak :
    (history : List (Option Bool)) → or_zero_count (streak_of history) ≡ run_length history
unfolding or_zero_count streak_of run_length
or_zero_streak [] = refl
or_zero_streak (none ∷ earlier) = refl
or_zero_streak (some true ∷ earlier) = refl
or_zero_streak (some false ∷ earlier) = refl

next_streak-streak_of :
    (said_now : Option Bool) (history : List (Option Bool))
    → next_streak (streak_of history) said_now ≡ streak_of (said_now ∷ history)
unfolding next_streak streak_of run_length
next_streak-streak_of none history = refl
next_streak-streak_of (some true) history =
    rw (or_zero_streak history) (ap (λ n. count n) (omega arith))
next_streak-streak_of (some false) history = refl

-- The state tells the history.
pub record IsTold (cycles : List (ℕ × Cycle)) (s : WaitState) : Type 0 where
  pub version : s.version ≡ "wait-diagnostics-v2"
  pub streaks : s.streaks ≡ streaks_of (said_all cycles)
  pub rounds : s.observed_rounds ≡ count (length cycles)
  pub failed : s.failed_rounds_total ≡ failures cycles

no_rounds-IsTold : (now : ℕ) → IsTold [] (no_rounds now)
unfolding streak_of run_length count_where
no_rounds-IsTold now = record { version = refl; streaks = refl; rounds = refl; failed = refl }

streak_of-is_bad : (history : List (Option Bool)) → is_bad (streak_of history) ≡ false
unfolding is_bad streak_of
streak_of-is_bad [] = refl
streak_of-is_bad (none ∷ earlier) = refl
streak_of-is_bad (some b ∷ earlier) = refl

told-is_stored : (cycles : List (ℕ × Cycle)) (s : WaitState) → IsTold cycles s → is_stored s ≡ true
unfolding is_stored is_count
told-is_stored cycles s h =
    let version = (eq_iff s.version "wait-diagnostics-v2").1 h.version in
    rw
      (
        version,
        h.streaks,
        h.rounds,
        streak_of-is_bad (map (λ (o : Outcomes). o.no_program_plans) (said_all cycles)),
        streak_of-is_bad (map (λ (o : Outcomes). o.model_all_wait) (said_all cycles)),
        streak_of-is_bad (map (λ (o : Outcomes). o.audit_incomplete) (said_all cycles)),
        streak_of-is_bad (map (λ (o : Outcomes). o.audited_wait_with_plans) (said_all cycles)),
      )
      refl

next_streaks-streaks_of :
    (o : Outcomes) (os : List Outcomes) → next_streaks o (streaks_of os) ≡ streaks_of (o ∷ os)
unfolding next_streaks
next_streaks-streaks_of o os = cc (
  next_streak-streak_of o.no_program_plans (map (λ (x : Outcomes). x.no_program_plans) os),
  next_streak-streak_of o.model_all_wait (map (λ (x : Outcomes). x.model_all_wait) os),
  next_streak-streak_of o.audit_incomplete (map (λ (x : Outcomes). x.audit_incomplete) os),
  next_streak-streak_of o.audited_wait_with_plans
      (map (λ (x : Outcomes). x.audited_wait_with_plans) os),
)

advanced-IsTold :
    (now : ℕ) (ds : List Decision) (earlier : List (ℕ × Cycle)) (s : WaitState)
    → IsTold earlier s
    → IsTold ((now, parsed_cycle ds) ∷ earlier) (advanced ds s)
unfolding advanced said is_failed count_where or_zero_count
advanced-IsTold now ds earlier s h = record {
  version = h.version;
  streaks =
      ap (next_streaks (outcomes_of ds)) h.streaks
      ∙ next_streaks-streaks_of (outcomes_of ds) (said_all earlier);
  rounds = rw h.rounds (ap (λ n. count n) (omega arith));
  failed = h.failed ∙ omega arith;
}

-- What a history leaves: nothing before the first cycle.
abbrev IsLeft : List (ℕ × Cycle) → Option WaitState → Type 0
IsLeft cycles none = cycles ≡ []
IsLeft cycles (some s) = IsTold cycles s

abbrev base : Option WaitState → ℕ → WaitState
base none now = no_rounds now
base (some s) now = s

base-IsTold :
    (cycles : List (ℕ × Cycle)) (previous : Option WaitState) (now : ℕ)
    → IsLeft cycles previous
    → IsTold cycles (base previous now)
base-IsTold cycles none now h = rw h (no_rounds-IsTold now)
base-IsTold cycles (some s) now h = h

advance_ok :
    (cycles : List (ℕ × Cycle)) (previous : Option WaitState) (ds : List Decision) (now : ℕ)
    → IsLeft cycles previous
    → advance previous ds now ≡ ok (advanced ds (base previous now))
unfolding advance
advance_ok cycles none ds now h = refl
advance_ok cycles (some s) ds now h = rw (told-is_stored cycles s h) refl

before_failure :
    (previous : Option WaitState) (now : ℕ)
    → (incomplete_before previous ≡ or_zero_count (base previous now).streaks.audit_incomplete)
      × (failed_before previous ≡ (base previous now).failed_rounds_total)
unfolding incomplete_before failed_before or_zero_count
before_failure none now = (refl, refl)
before_failure (some s) now = (refl, refl)

abbrev failed_streaks : ℕ → Streaks
failed_streaks n = record {
  no_program_plans = no_count;
  model_all_wait = no_count;
  audit_incomplete = count n;
  audited_wait_with_plans = no_count;
}

-- The state after a failed cycle.
abbrev failed_state : Option WaitState → ℕ → WaitState
failed_state previous now = record (advanced [] (base previous now)) {
  streaks = failed_streaks (incomplete_before previous + 1);
  failed_rounds_total = failed_before previous + 1;
  last_cycle = failed_cycle (advanced [] (base previous now)).last_cycle;
}

failed_state-IsTold :
    (cycles : List (ℕ × Cycle)) (previous : Option WaitState) (now : ℕ)
    → IsTold cycles (base previous now)
    → IsTold ((now, failed_cycle_of) ∷ cycles) (failed_state previous now)
unfolding advanced said streak_of run_length is_failed count_where or_zero_count
failed_state-IsTold cycles previous now h =
    let (incomplete, failed) = before_failure previous now in
    let audit = map (λ (o : Outcomes). o.audit_incomplete) (said_all cycles) in
    let runs : or_zero_count (base previous now).streaks.audit_incomplete ≡ run_length audit =
      ap (λ (s : Streaks). or_zero_count s.audit_incomplete) h.streaks ∙ or_zero_streak audit in
    let counted_audit : incomplete_before previous + 1 ≡ suc (run_length audit) =
      omega (arith, incomplete, runs) in
    record {
      version = h.version;
      streaks = ap (failed_streaks) counted_audit;
      rounds = rw h.rounds (ap (λ n. count n) (omega arith));
      failed = omega (arith, failed, h.failed);
    }

advance_failure_ok :
    (cycles : List (ℕ × Cycle)) (previous : Option WaitState) (now : ℕ)
    → IsLeft cycles previous
    → advance_failure previous now ≡ ok (failed_state previous now)
unfolding advance_failure
advance_failure_ok cycles previous now h =
    ap (failed_after (incomplete_before previous) (failed_before previous))
      (advance_ok cycles previous [] now h)
    ∙ unfold failed_after in refl

observe-IsTold :
    (cycles : List (ℕ × Cycle)) (previous : Option WaitState) (c : Cycle) (now : ℕ)
    → IsLeft cycles previous
    → (s : WaitState) × (observe previous c now ≡ ok s) × IsTold ((now, c) ∷ cycles) s
unfolding observe
observe-IsTold cycles previous (parsed_cycle ds) now h = (
  advanced ds (base previous now),
  advance_ok cycles previous ds now h,
  advanced-IsTold now ds cycles (base previous now) (base-IsTold cycles previous now h),
)
observe-IsTold cycles previous failed_cycle_of now h = (
  failed_state previous now,
  advance_failure_ok cycles previous now h,
  failed_state-IsTold cycles previous now (base-IsTold cycles previous now h),
)

-- Any history of cycles, parsed or failed, is taken in without an exception, and the state tells it:
-- a streak is the number of cycles in a row, back from the last, that said yes, and None where the
-- last one could not say; the rounds and the failed rounds are the numbers of cycles.
pub observe_all-IsTold :
    (now : ℕ) (c : Cycle) (earlier : List (ℕ × Cycle))
    → (s : WaitState) × (observe_all ((now, c) ∷ earlier) ≡ ok (some s))
      × IsTold ((now, c) ∷ earlier) s
unfolding observe_all
observe_all-IsTold now c earlier = go (left earlier)
  where
    go :
        (previous : Option WaitState) × (observe_all earlier ≡ ok previous)
          × IsLeft earlier previous
        → (s : WaitState) × (observe_all ((now, c) ∷ earlier) ≡ ok (some s))
          × IsTold ((now, c) ∷ earlier) s
    go (previous, seen, h) =
        let (s, e, k) = observe-IsTold earlier previous c now h in (s, rw (seen, e) refl, k)

    left :
        (cycles : List (ℕ × Cycle))
        → (previous : Option WaitState) × (observe_all cycles ≡ ok previous)
          × IsLeft cycles previous
    left [] = (none, refl, refl)
    left ((t, d) ∷ cycles) =
        let (previous, seen, h) = left cycles in
        let (s, e, k) = observe-IsTold cycles previous d t h in (some s, rw (seen, e) refl, k)
