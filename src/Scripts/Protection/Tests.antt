-- ===== src/Scripts/Protection/Tests.antt =====
-- Runs of scripts/protection_policy.py at concrete inputs: one order of a long position, and its stop.
use okxquant.Prelude.{
  ℕ, ◌<◌, ◌≡◌, true, refl, none, some, List, [], ◌∷◌, str_eq, if◌then◌else◌, All, arith, ◌⊎◌,
}
use okxquant.Prelude.Table.{Distinct}
use okxquant.Scripts.Protection.Coverage.{
  Reader, OrderRow, AlgoRow, order, positive, total_size, oco_coverage, Coverage,
}
use okxquant.Scripts.Protection.Stop.{rounded_stop, IsMoved, rounded_stop-IsTighter}
use okxquant.Scripts.Protection.Scanned.{same_algo, IsTold, IsProven}
use okxquant.Scripts.Protection.Proven.{Read, Agrees, oco_coverage-IsProven}

abbrev reader : Reader
reader = record {
  read = λ s.
      if str_eq s "5"
      then some 5
      else if str_eq s "90"
      then some 90
      else if str_eq s "97"
      then some 97
      else if str_eq s "120"
      then some 120
      else none;
  lower = λ s. if str_eq s "True" then "true" else s;
  is_blank = λ s. str_eq s "";
}

abbrev oco : OrderRow
oco = record {
  pos_side = some "long";
  side = some "sell";
  state = some "live";
  algo_id = some "a1";
  ord_type = some "oco";
  reduce_only = some "True";
  sz = some "5";
  tp_trigger_px = some "120";
  sl_trigger_px = some "90";
  actual_sz = none;
  rest = "";
}

abbrev rows : List AlgoRow
rows = order oco ∷ order oco ∷ order (record oco { state = some "canceled" }) ∷ []

-- An order that comes twice with different sizes is left out; another one is still proven.
abbrev disputed : List AlgoRow
disputed =
    order oco
    ∷ order (record oco { algo_id = some "a2" })
    ∷ order (record oco { sz = some "90" })
    ∷ []

abbrev covered : Coverage
covered = oco_coverage reader (some disputed) "long" (some "97") none

oco_coverage-IsProven_example :
    All (IsProven (Read disputed) reader "long" (some "97") none) covered.orders
    × Distinct same_algo covered.orders
    × All (λ o. All (Agrees "long" o) disputed) covered.orders
    × (covered.size ≡ total_size reader covered.orders)
    × ((covered.unknown ≡ true) ⊎ All (IsTold "long" covered.orders) disputed)
oco_coverage-IsProven_example = oco_coverage-IsProven reader "long" (some "97") none disputed

disputed_left_out : covered.size ≡ 5
unfolding oco_coverage
disputed_left_out = refl

rows_covered : (oco_coverage reader (some rows) "long" (some "97") none).size ≡ 5
unfolding oco_coverage
rows_covered = refl

stop_moved : rounded_stop reader "long" (some "97") (some "90") (some "120") (some "5") ≡ some 95
unfolding rounded_stop
stop_moved = refl

tick_positive : (n : ℕ) → positive reader (some "5") ≡ some n → 0 < n
unfolding positive
tick_positive n h = ground arith

rounded_stop-IsTighter_example :
    (proposed : ℕ) × (old : ℕ) × (current : ℕ) × (tick : ℕ) × (positive reader (some "97")
      ≡ some proposed)
    × (positive reader (some "90") ≡ some old)
    × (positive reader (some "120") ≡ some current)
    × (positive reader (some "5") ≡ some tick)
    × IsMoved true proposed old current tick 95
rounded_stop-IsTighter_example =
    rounded_stop-IsTighter reader "long" (some "97") (some "90") (some "120") (some "5") 95
      tick_positive stop_moved
