-- ===== src/Scripts/Fills/Records.antt =====
-- number, interval, lifecycle_key and the records of scripts/fill_accounting.py. A value of a dict is
-- its str(), and `none` where it is missing or None; a Decimal is an integer of a common unit.
use okxquant.Prelude.{
  ℕ, ◌+◌, ◌^◌, ◌%◌, String, Text, Bool, true, false, ◌&&◌, ◌||◌, not, Option, none, some, List, [],
  ◌∷◌, ◌==◌, str_eq, text_eq, take_last, length, if◌then◌else◌,
}
use okxquant.Prelude.Int.{ℤ, pos, negsuc, leb_ℤ, ltb_ℤ}

-- Decimal of a text, where it is a finite number that float takes too, in units of 10^-(8+places).
pub record Decimals : Type 0 where
  pub places : ℕ
  pub read : String → Option ℤ

-- FEE_TOLERANCE and 1, in units.
unfoldable pub tolerance : Decimals → ℕ
tolerance d = 10 ^ d.places

unfoldable pub unit : Decimals → ℕ
unit d = 10 ^ (8 + d.places)

pub data Reason : Type 0 where
  archive_status : String → Reason
  unsupported_instrument_or_position_mode : Reason
  unsupported_receipt_currency : Reason
  overlapping_active_position : Reason
  ambiguous_lifecycle_overlap : Reason
  unsupported_fill_position_mode : Reason
  missing_fill_identity : Reason
  conflicting_fill_identity : Reason
  no_lifecycle_fills : Reason
  unsupported_or_missing_fee_currency : Reason
  invalid_fill_side : Reason
  missing_opening_inventory : Reason
  incomplete_or_excess_lifecycle_volume : Reason
  fee_total_mismatch : Reason
  invalid_accounting_evidence : Reason

-- unknown(reason, count), or a value; an exception is `invalid_accounting_evidence`.
pub data Outcome {ℓ} (A : Type ℓ) : Type ℓ where
  unknown : Reason → ℕ → Outcome A
  known : A → Outcome A

pub record Fill : Type 0 where
  pub pos_side : Option String
  pub ts : Option String
  pub bill_id : Option String
  pub ord_id : Option String
  pub fee_ccy : Option String
  pub side : Option String
  pub fill_sz : Option String
  pub fee : Option String
  pub rest : String

-- A closed position's receipt.
pub record Receipt : Type 0 where
  pub inst_id : Text
  pub direction : String
  pub pos_id : String
  pub c_time : Option String
  pub u_time : Option String
  pub close_total_pos : Option String
  pub fee : Option String
  pub ccy : Option String

pub record ActivePosition : Type 0 where
  pub inst_id : Text
  pub pos_side : Option String
  pub size : Option String
  pub c_time : Option String

-- FillArchive
pub data FillArchive : Type 0 where
  unavailable : String → FillArchive
  available : List (Text × List Fill) → FillArchive

unfoldable pub is_whole : ℕ → ℤ → Bool
is_whole u (pos n) = n % u == 0
is_whole u (negsuc n) = (n + 1) % u == 0

unfoldable pub check_number : Decimals → Bool → Bool → ℤ → Outcome ℤ
unfolding is_whole unit
check_number d positive integer z =
    if positive && leb_ℤ z (pos 0)
    then unknown invalid_accounting_evidence 0
    else if integer && not (is_whole (unit d) z)
    then unknown invalid_accounting_evidence 0
    else known z

unfoldable pub read_value : Decimals → Option String → Option ℤ
read_value d none = none
read_value d (some s) = d.read s

unfoldable pub parsed : Decimals → Bool → Bool → Option ℤ → Outcome ℤ
unfolding check_number
parsed d positive integer none = unknown invalid_accounting_evidence 0
parsed d positive integer (some z) = check_number d positive integer z

-- number(value, positive=, integer=)
unfoldable pub to_number : Decimals → Bool → Bool → Option String → Outcome ℤ
unfolding parsed read_value
to_number d positive integer value = parsed d positive integer (read_value d value)

unfoldable pub interval : Decimals → Receipt → Outcome (ℤ × ℤ)
unfolding to_number
interval d h = elim (to_number d true true h.c_time) [
  | unknown r n ↦ unknown r n
  | known start ↦ elim (to_number d true true h.u_time) [
    | unknown r n ↦ unknown r n
    | known end ↦
        if ltb_ℤ end start then unknown invalid_accounting_evidence 0 else known (start, end)
  ]
]

-- Two values of a dict.
unfoldable pub same_value : Option String → Option String → Bool
same_value none none = true
same_value (some a) (some b) = str_eq a b
same_value _ _ = false

-- lifecycle_key(a) == lifecycle_key(b); a missing time is ''.
unfoldable pub same_lifecycle : Receipt → Receipt → Bool
unfolding same_value
same_lifecycle a b =
    text_eq a.inst_id b.inst_id
    && (str_eq a.direction b.direction
        && (str_eq a.pos_id b.pos_id
            && (same_value a.c_time b.c_time && same_value a.u_time b.u_time)))

unfoldable pub same_fill : Fill → Fill → Bool
unfolding same_value
same_fill a b =
    same_value a.pos_side b.pos_side
    && (same_value a.ts b.ts
        && (same_value a.bill_id b.bill_id
            && (same_value a.ord_id b.ord_id
                && (same_value a.fee_ccy b.fee_ccy
                    && (same_value a.side b.side
                        && (same_value a.fill_sz b.fill_sz
                            && (same_value a.fee b.fee && str_eq a.rest b.rest)))))))

-- value in (None, '', text), or value == text.
unfoldable pub is_value : String → Option String → Bool
is_value t none = false
is_value t (some s) = str_eq s t

unfoldable pub blank_or : String → Option String → Bool
blank_or t none = true
blank_or t (some s) = str_eq s "" || str_eq s t

-- '-USDT-SWAP', in code points, and str.endswith.
abbrev pub swap_suffix : Text
swap_suffix = 45 ∷ 85 ∷ 83 ∷ 68 ∷ 84 ∷ 45 ∷ 83 ∷ 87 ∷ 65 ∷ 80 ∷ []

unfoldable pub is_swap : Text → Bool
unfolding take_last text_eq
is_swap inst = text_eq (take_last (length swap_suffix) inst) swap_suffix
