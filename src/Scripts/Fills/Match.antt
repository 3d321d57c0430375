-- ===== src/Scripts/Fills/Match.antt =====
-- The first half of reconcile of scripts/fill_accounting.py: the fills of the position's life.
use okxquant.Prelude.{
  String, Text, Bool, true, false, ◌&&◌, ◌||◌, not, Option, none, some, List, [], ◌∷◌, ◌++◌, str_eq,
  text_eq, any_of, if◌then◌else◌,
}
use okxquant.Prelude.Int.{ℤ, pos, leb_ℤ, eq_ℤ}
use okxquant.Scripts.Fills.Records.{
  Decimals, overlapping_active_position, ambiguous_lifecycle_overlap,
  unsupported_fill_position_mode, missing_fill_identity, conflicting_fill_identity, Outcome,
  unknown, known, Fill, Receipt, ActivePosition, to_number, interval, same_lifecycle, same_fill,
  is_value, blank_or,
}

-- max(start, lo) <= min(end, hi)
unfoldable pub overlap : ℤ × ℤ → ℤ × ℤ → Bool
overlap (start, end) (lo, hi) = leb_ℤ start end && (leb_ℤ start hi && (leb_ℤ lo end && leb_ℤ lo hi))

unfoldable pub is_peer : Receipt → Receipt → Bool
unfolding same_lifecycle
is_peer history other =
    text_eq other.inst_id history.inst_id
    && (str_eq other.direction history.direction && not (same_lifecycle other history))

-- The lives of the other receipts that overlap this one's.
unfoldable pub siblings : Decimals → Receipt → ℤ × ℤ → List Receipt → Outcome (List (ℤ × ℤ))
unfolding is_peer interval overlap
siblings d history life [] = known []
siblings d history life (other ∷ peers) =
    let rest = siblings d history life peers in
    if not (is_peer history other) then rest else elim (interval d other) [
      | unknown r n ↦ unknown r n
      | known window ↦ elim rest [
        | unknown r n ↦ unknown r n
        | known windows ↦ if overlap life window then known (window ∷ windows) else known windows
      ]
    ]

unfoldable pub check_position : Decimals → Receipt → ℤ → ActivePosition → Outcome Bool
unfolding is_value to_number
check_position d history end p =
    if not (
      text_eq p.inst_id history.inst_id
      && (is_value history.direction p.pos_side || is_value "net" p.pos_side))
    then known true
    else elim (to_number d false false p.size) [
      | unknown r n ↦ unknown r n
      | known size ↦
          if eq_ℤ size (pos 0) then known true else elim (to_number d true false p.c_time) [
            | unknown r n ↦ unknown r n
            | known opened ↦
                if leb_ℤ opened end then unknown overlapping_active_position 0 else known true
          ]
    ]

unfoldable pub check_positions : Decimals → Receipt → ℤ → List ActivePosition → Outcome Bool
unfolding check_position
check_positions d history end [] = known true
check_positions d history end (p ∷ rest) = elim (check_position d history end p) [
  | unknown r n ↦ unknown r n
  | known b ↦ check_positions d history end rest
]

unfoldable pub within : ℤ → ℤ × ℤ → Bool
within t (lo, hi) = leb_ℤ lo t && leb_ℤ t hi

unfoldable pub find_fill : String → List (String × Fill) → Option Fill
find_fill id [] = none
find_fill id ((key, f) ∷ rest) = if str_eq key id then some f else find_fill id rest

-- `if identity in matched and matched[identity] != fill`, and matched[identity] = fill.
unfoldable pub put_fill :
    String → Fill → List (String × Fill) → Option Fill → Outcome (List (String × Fill))
unfolding same_fill
put_fill id f matched none = known (matched ++ ((id, f) ∷ []))
put_fill id f matched (some old) =
    if same_fill old f then known matched else unknown conflicting_fill_identity 0

unfoldable pub identify :
    Option String → Option String → Fill → List (String × Fill) → Outcome (List (String × Fill))
unfolding put_fill find_fill
identify none ord f matched = unknown missing_fill_identity 0
identify (some id) none f matched = unknown missing_fill_identity 0
identify (some id) (some ord) f matched =
    if str_eq id "" || str_eq ord ""
    then unknown missing_fill_identity 0
    else put_fill id f matched (find_fill id matched)

unfoldable pub match_at :
    String → List (ℤ × ℤ) → ℤ × ℤ → Fill → List (String × Fill) → ℤ → Outcome (List (String × Fill))
unfolding within is_value identify
match_at direction others life f matched t =
    if not (within t life)
    then known matched
    else if any_of (within t) others
    then unknown ambiguous_lifecycle_overlap 0
    else if not (is_value direction f.pos_side)
    then unknown unsupported_fill_position_mode 0
    else identify f.bill_id f.ord_id f matched

unfoldable pub match_fill :
    Decimals
    → String
    → List (ℤ × ℤ)
    → ℤ × ℤ
    → Fill
    → List (String × Fill)
    → Outcome (List (String × Fill))
unfolding blank_or is_value to_number match_at
match_fill d direction others life f matched =
    if not (blank_or "net" f.pos_side || is_value direction f.pos_side)
    then known matched
    else elim (to_number d true true f.ts) [
      | unknown r n ↦ unknown r n
      | known t ↦ match_at direction others life f matched t
    ]

unfoldable pub match_fills :
    Decimals
    → String
    → List (ℤ × ℤ)
    → ℤ × ℤ
    → List Fill
    → List (String × Fill)
    → Outcome (List (String × Fill))
unfolding match_fill
match_fills d direction others life [] matched = known matched
match_fills d direction others life (f ∷ fills) matched =
    elim (match_fill d direction others life f matched) [
      | unknown r n ↦ unknown r n
      | known more ↦ match_fills d direction others life fills more
    ]

-- archive.by_instrument.get(inst, ())
unfoldable pub of_instrument : Text → List (Text × List Fill) → List Fill
of_instrument inst [] = []
of_instrument inst ((key, fills) ∷ rest) =
    if text_eq key inst then fills else of_instrument inst rest
