-- ===== src/Scripts/Waits/Tests.antt =====
-- Runs of scripts/wait_counters.py at concrete inputs: two cycles that wait, and one that fails.
use okxquant.Prelude.{ℕ, ◌≡◌, true, false, some, List, [], ◌∷◌, ok}
use okxquant.Scripts.Waits.Counters.{Decision, wait, audited_wait, WaitState}
use okxquant.Scripts.Waits.Streaks.{
  Cycle, parsed_cycle, failed_cycle_of, observe_all, IsTold, observe_all-IsTold,
}

abbrev waiting : Decision
waiting = record {
  plans = some 2;
  action = wait;
  status = audited_wait;
  contract_valid = true;
  corrected = false;
}

abbrev cycles : List (ℕ × Cycle)
cycles = (60, parsed_cycle (waiting ∷ [])) ∷ (0, failed_cycle_of) ∷ []

observe_all-IsTold_example :
    (s : WaitState) × (observe_all ((120, parsed_cycle (waiting ∷ [])) ∷ cycles) ≡ ok (some s))
    × IsTold ((120, parsed_cycle (waiting ∷ [])) ∷ cycles) s
observe_all-IsTold_example = observe_all-IsTold 120 (parsed_cycle (waiting ∷ [])) cycles
