-- ===== src/Scripts/Fills/Reconcile.antt =====
-- The second half of reconcile of scripts/fill_accounting.py: volumes, inventory and fees.
use okxquant.Prelude.{
  ℕ, String, Text, Bool, true, false, ◌&&◌, ◌||◌, not, Option, none, some, List, [], ◌∷◌, length,
  str_eq, if◌then◌else◌,
}
use okxquant.Prelude.Table.{order_by}
use okxquant.Prelude.Int.{ℤ, pos, ◌+ℤ◌, ◌-ℤ◌, leb_ℤ, ltb_ℤ, eq_ℤ}
use okxquant.Scripts.Fills.Records.{
  Decimals, tolerance, archive_status, unsupported_instrument_or_position_mode,
  unsupported_receipt_currency, no_lifecycle_fills, unsupported_or_missing_fee_currency,
  invalid_fill_side, missing_opening_inventory, incomplete_or_excess_lifecycle_volume,
  fee_total_mismatch, Outcome, unknown, known, Fill, Receipt, ActivePosition, FillArchive,
  unavailable, available, to_number, interval, is_value, blank_or, is_swap,
}
use okxquant.Scripts.Fills.Match.{siblings, check_positions, match_fills, of_instrument}

-- defaultdict(lambda: Decimal(0)) by time.
unfoldable pub bump : ℤ → ℤ → List (ℤ × ℤ) → List (ℤ × ℤ)
unfolding ◌+ℤ◌ eq_ℤ
bump t change [] = (t, change) ∷ []
bump t change ((s, total) ∷ rest) =
    let later = bump t change rest in
    if eq_ℤ s t then (s, total +ℤ change) ∷ rest else (s, total) ∷ later

pub record Volumes : Type 0 where
  pub open_size : ℤ
  pub close_size : ℤ
  pub open_fee : ℤ
  pub close_fee : ℤ
  pub movements : List (ℤ × ℤ)

abbrev pub no_volumes : Volumes
no_volumes = record {
  open_size = pos 0;
  close_size = pos 0;
  open_fee = pos 0;
  close_fee = pos 0;
  movements = [];
}

unfoldable pub opening_side : String → String
opening_side direction = if str_eq direction "long" then "buy" else "sell"

unfoldable pub count_volume : Bool → ℤ → ℤ → ℤ → Volumes → Volumes
unfolding bump ◌+ℤ◌ ◌-ℤ◌
count_volume true size fee t v = record v {
  open_size = v.open_size +ℤ size;
  open_fee = v.open_fee +ℤ fee;
  movements = bump t size v.movements;
}
count_volume false size fee t v = record v {
  close_size = v.close_size +ℤ size;
  close_fee = v.close_fee +ℤ fee;
  movements = bump t (pos 0 -ℤ size) v.movements;
}

unfoldable pub add_fill : Decimals → String → ℕ → Fill → Volumes → Outcome Volumes
unfolding is_value to_number count_volume opening_side
add_fill d direction count f v =
    if not (is_value "USDT" f.fee_ccy)
    then unknown unsupported_or_missing_fee_currency count
    else if not (is_value "buy" f.side || is_value "sell" f.side)
    then unknown invalid_fill_side count
    else elim (to_number d true false f.fill_sz) [
      | unknown r n ↦ unknown r n
      | known size ↦ elim (to_number d false false f.fee) [
        | unknown r n ↦ unknown r n
        | known fee ↦ elim (to_number d true true f.ts) [
          | unknown r n ↦ unknown r n
          | known t ↦ known (count_volume (is_value (opening_side direction) f.side) size fee t v)
        ]
      ]
    ]

unfoldable pub add_fills : Decimals → String → ℕ → List (String × Fill) → Volumes → Outcome Volumes
unfolding add_fill
add_fills d direction count [] v = known v
add_fills d direction count ((id, f) ∷ rest) v = elim (add_fill d direction count f v) [
  | unknown r n ↦ unknown r n
  | known v' ↦ add_fills d direction count rest v'
]

unfoldable pub is_before : ℤ × ℤ → ℤ × ℤ → Bool
is_before (s, _) (t, _) = leb_ℤ s t

-- The inventory after each time, and `none` where it goes below zero.
unfoldable pub run_inventory : ℤ → List (ℤ × ℤ) → Option ℤ
unfolding ◌+ℤ◌
run_inventory running [] = some running
run_inventory running ((t, change) ∷ rest) =
    let later = run_inventory (running +ℤ change) rest in
    if ltb_ℤ (running +ℤ change) (pos 0) then none else later

unfoldable pub magnitude : ℤ → ℤ
unfolding ◌-ℤ◌
magnitude a = if ltb_ℤ a (pos 0) then pos 0 -ℤ a else a

-- The result of reconcile but for the two lists of ids, the names and the texts.
pub record Allocation : Type 0 where
  pub open_fee : ℤ
  pub close_fee : ℤ
  pub matched_fills : ℕ
  pub opening_size : ℤ
  pub closing_size : ℤ
  pub receipt_fee : ℤ
  pub allocated_fee : ℤ

unfoldable pub conclude : Decimals → ℤ → ℤ → ℕ → Volumes → Option ℤ → Outcome Allocation
unfolding magnitude tolerance ◌+ℤ◌ ◌-ℤ◌ eq_ℤ
conclude d target receipt_fee count v none = unknown missing_opening_inventory count
conclude d target receipt_fee count v (some running) =
    if not (eq_ℤ v.open_size target && (eq_ℤ v.close_size target && eq_ℤ running (pos 0)))
    then unknown incomplete_or_excess_lifecycle_volume count
    else if not (leb_ℤ (magnitude (v.open_fee +ℤ v.close_fee -ℤ receipt_fee)) (pos (tolerance d)))
    then unknown fee_total_mismatch count
    else known record {
      open_fee = v.open_fee;
      close_fee = v.close_fee;
      matched_fills = count;
      opening_size = v.open_size;
      closing_size = v.close_size;
      receipt_fee = receipt_fee;
      allocated_fee = v.open_fee +ℤ v.close_fee;
    }

unfoldable pub settle_volumes : Decimals → ℤ → ℤ → ℕ → Volumes → Outcome Allocation
unfolding conclude run_inventory is_before order_by
settle_volumes d target receipt_fee count v =
    conclude d target receipt_fee count v (run_inventory (pos 0) (order_by is_before v.movements))

-- From the matched fills on.
unfoldable pub account : Decimals → String → ℤ → ℤ → List (String × Fill) → Outcome Allocation
unfolding add_fills settle_volumes
account d direction target receipt_fee [] = unknown no_lifecycle_fills 0
account d direction target receipt_fee (m ∷ rest) =
    let matched = m ∷ rest in
    elim (add_fills d direction (length matched) matched no_volumes) [
      | unknown r n ↦ unknown r n
      | known v ↦ settle_volumes d target receipt_fee (length matched) v
    ]

-- From the receipt's numbers on: the overlaps, the fills, the account.
unfoldable pub allocate :
    Decimals
    → Receipt
    → List (Text × List Fill)
    → List Receipt
    → List ActivePosition
    → ℤ × ℤ
    → ℤ
    → ℤ
    → Outcome Allocation
unfolding siblings check_positions match_fills of_instrument account blank_or
allocate d history archive peers positions life target receipt_fee =
    if not (blank_or "USDT" history.ccy)
    then unknown unsupported_receipt_currency 0
    else elim (siblings d history life peers) [
      | unknown r n ↦ unknown r n
      | known others ↦ elim (check_positions d history life.1 positions) [
        | unknown r n ↦ unknown r n
        | known b ↦
            elim (match_fills d history.direction others life
              (of_instrument history.inst_id archive) []) [
                | unknown r n ↦ unknown r n
                | known matched ↦ account d history.direction target receipt_fee matched
              ]
      ]
    ]

unfoldable pub reconcile :
    Decimals → Receipt → FillArchive → List Receipt → List ActivePosition → Outcome Allocation
unfolding allocate interval to_number is_swap
reconcile d history (unavailable status) peers positions = unknown (archive_status status) 0
reconcile d history (available archive) peers positions =
    if not (
      is_swap history.inst_id
      && (str_eq history.direction "long" || str_eq history.direction "short"))
    then unknown unsupported_instrument_or_position_mode 0
    else elim (interval d history) [
      | unknown r n ↦ unknown r n
      | known life ↦ elim (to_number d true false history.close_total_pos) [
        | unknown r n ↦ unknown r n
        | known target ↦ elim (to_number d false false history.fee) [
          | unknown r n ↦ unknown r n
          | known receipt_fee ↦ allocate d history archive peers positions life target receipt_fee
        ]
      ]
    ]
