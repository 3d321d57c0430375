-- ===== src/Scripts/Protection/Coverage.antt =====
-- positive, trigger_geometry and oco_coverage of scripts/protection_policy.py. A number is a multiple of
-- a common unit; a value of a row is its text (str of it), and `none` where it is missing.
use okxquant.Prelude.{
  ℕ, ◌+◌, String, Bool, true, false, ◌&&◌, ◌||◌, not, Option, none, some, List, [], ◌∷◌, ◌++◌, ltb,
  str_eq, any_of, is_some, if◌then◌else◌,
}
use okxquant.Prelude.Table.{select}

-- float of a text where it is finite and above zero, whether strip leaves nothing of a text, and a
-- text in lower case.
pub record Reader : Type 0 where
  pub read : String → Option ℕ
  pub lower : String → String
  pub is_blank : String → Bool

pub record OrderRow : Type 0 where
  pub pos_side : Option String
  pub side : Option String
  pub state : Option String
  pub algo_id : Option String
  pub ord_type : Option String
  pub reduce_only : Option String
  pub sz : Option String
  pub tp_trigger_px : Option String
  pub sl_trigger_px : Option String
  pub actual_sz : Option String
  pub rest : String

pub data AlgoRow : Type 0 where
  no_dict : AlgoRow
  order : OrderRow → AlgoRow

unfoldable pub positive : Reader → Option String → Option ℕ
positive rd none = none
positive rd (some s) = rd.read s

unfoldable pub first_of : Option ℕ → Option ℕ → Option ℕ
first_of none b = b
first_of (some a) b = some a

unfoldable pub around : String → ℕ → ℕ → Option ℕ → Bool
around side tp sl none = if str_eq side "long" then ltb sl tp else ltb tp sl
around side tp sl (some reference) =
    if str_eq side "long"
    then ltb sl reference && ltb reference tp
    else ltb tp reference && ltb reference sl

unfoldable pub is_side : String → Bool
is_side side = str_eq side "long" || str_eq side "short"

unfoldable pub geometry : String → Option ℕ → Option ℕ → Option ℕ → Bool
unfolding around is_side
geometry side (some tp) (some sl) reference = is_side side && around side tp sl reference
geometry side _ _ reference = false

unfoldable pub trigger_geometry :
    Reader → String → Option String → Option String → Option String → Option String → Bool
unfolding geometry positive first_of
trigger_geometry rd side tp sl mark_px entry_px =
    geometry side (positive rd tp) (positive rd sl)
      (first_of (positive rd mark_px) (positive rd entry_px))

pub record Coverage : Type 0 where
  pub size : ℕ
  pub orders : List (String × OrderRow)
  pub unknown : Bool

unfoldable pub has_text : Option String → String → Bool
has_text none t = false
has_text (some s) t = str_eq s t

unfoldable pub close_side : String → String
close_side side = if str_eq side "long" then "sell" else "buy"

unfoldable pub open_side : String → String
open_side side = if str_eq side "long" then "buy" else "sell"

unfoldable pub opposite : String → String
opposite side = if str_eq side "long" then "short" else "long"

-- The rows that the loop passes over.
unfoldable pub is_foreign : String → OrderRow → Bool
unfolding has_text opposite open_side
is_foreign side r =
    has_text r.pos_side (opposite side)
    || ((has_text r.pos_side "net" && has_text r.side (open_side side))
        || (has_text r.state "canceled" || has_text r.state "order_failed"))

-- str(value).lower() in ('true', '1'); a missing value says None.
unfoldable pub says_yes : Reader → Option String → Bool
says_yes rd none = false
says_yes rd (some s) = str_eq (rd.lower s) "true" || str_eq (rd.lower s) "1"

unfoldable pub is_oco : Reader → String → Option String → Option String → OrderRow → Bool
unfolding has_text says_yes close_side positive trigger_geometry
is_oco rd side mark_px entry_px r =
    has_text r.ord_type "oco"
    && (has_text r.state "live"
        && ((has_text r.pos_side side || has_text r.pos_side "net")
            && (has_text r.side (close_side side)
                && (says_yes rd r.reduce_only
                    && (is_some (positive rd r.sz)
                        && (trigger_geometry rd side r.tp_trigger_px r.sl_trigger_px mark_px
                              entry_px
                            && not (is_some (positive rd r.actual_sz))))))))

unfoldable pub same_text : Option String → Option String → Bool
same_text none none = true
same_text (some a) (some b) = str_eq a b
same_text _ _ = false

unfoldable pub same_row : OrderRow → OrderRow → Bool
unfolding same_text
same_row a b =
    same_text a.pos_side b.pos_side
    && (same_text a.side b.side
        && (same_text a.state b.state
            && (same_text a.algo_id b.algo_id
                && (same_text a.ord_type b.ord_type
                    && (same_text a.reduce_only b.reduce_only
                        && (same_text a.sz b.sz
                            && (same_text a.tp_trigger_px b.tp_trigger_px
                                && (same_text a.sl_trigger_px b.sl_trigger_px
                                    && (same_text a.actual_sz b.actual_sz
                                        && str_eq a.rest b.rest)))))))))

pub record Scan : Type 0 where
  pub candidates : List (String × OrderRow)
  pub seen : List (String × OrderRow)
  pub conflicts : List String
  pub unknown : Bool

abbrev pub no_scan : Scan
no_scan = record { candidates = []; seen = []; conflicts = []; unknown = false }

unfoldable pub find_row : String → List (String × OrderRow) → Option OrderRow
find_row id [] = none
find_row id ((key, r) ∷ rest) = if str_eq key id then some r else find_row id rest

unfoldable pub scan_new :
    Reader → String → Option String → Option String → String → OrderRow → Scan → Scan
unfolding is_oco
scan_new rd side mark_px entry_px id r s =
    if is_oco rd side mark_px entry_px r
    then record s { candidates = s.candidates ++ ((id, r) ∷ []); seen = (id, r) ∷ s.seen }
    else record s { seen = (id, r) ∷ s.seen; unknown = true }

unfoldable pub scan_seen :
    Reader
    → String
    → Option String
    → Option String
    → String
    → OrderRow
    → Scan
    → Option OrderRow
    → Scan
unfolding scan_new same_row
scan_seen rd side mark_px entry_px id r s none = scan_new rd side mark_px entry_px id r s
scan_seen rd side mark_px entry_px id r s (some old) =
    if same_row r old then s else record s { conflicts = id ∷ s.conflicts; unknown = true }

unfoldable pub scan_id :
    Reader → String → Option String → Option String → OrderRow → Scan → Option String → Scan
unfolding scan_seen find_row
scan_id rd side mark_px entry_px r s none = record s { unknown = true }
scan_id rd side mark_px entry_px r s (some id) =
    if rd.is_blank id
    then record s { unknown = true }
    else scan_seen rd side mark_px entry_px id r s (find_row id s.seen)

unfoldable pub scan_row : Reader → String → Option String → Option String → AlgoRow → Scan → Scan
unfolding scan_id is_foreign
scan_row rd side mark_px entry_px no_dict s = record s { unknown = true }
scan_row rd side mark_px entry_px (order r) s =
    if is_foreign side r then s else scan_id rd side mark_px entry_px r s r.algo_id

unfoldable pub scan_rows :
    Reader → String → Option String → Option String → List AlgoRow → Scan → Scan
unfolding scan_row
scan_rows rd side mark_px entry_px [] s = s
scan_rows rd side mark_px entry_px (row ∷ rows) s =
    scan_rows rd side mark_px entry_px rows (scan_row rd side mark_px entry_px row s)

unfoldable pub row_size : Reader → OrderRow → ℕ
unfolding positive
row_size rd r = elim (positive rd r.sz) [ none ↦ 0 | some n ↦ n ]

unfoldable pub total_size : Reader → List (String × OrderRow) → ℕ
unfolding row_size
total_size rd [] = 0
total_size rd ((id, r) ∷ rest) = row_size rd r + total_size rd rest

unfoldable pub is_agreed : List String → String × OrderRow → Bool
is_agreed conflicts (id, r) = not (any_of (str_eq id) conflicts)

unfoldable pub coverage_of : Reader → Scan → Coverage
unfolding total_size is_agreed select
coverage_of rd s =
    let proven = select (is_agreed s.conflicts) s.candidates in
    record { size = total_size rd proven; orders = proven; unknown = s.unknown }

-- `orders` is `none` where it is no list.
unfoldable pub oco_coverage :
    Reader → Option (List AlgoRow) → String → Option String → Option String → Coverage
unfolding coverage_of scan_rows is_side
oco_coverage rd none side mark_px entry_px = record { size = 0; orders = []; unknown = true }
oco_coverage rd (some orders) side mark_px entry_px =
    if is_side side
    then coverage_of rd (scan_rows rd side mark_px entry_px orders no_scan)
    else record { size = 0; orders = []; unknown = true }
