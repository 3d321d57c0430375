-- ===== src/Scripts/Protection/Proven.antt =====
-- Proofs on oco_coverage of scripts/protection_policy.py: what the proven orders are.
use okxquant.Prelude.{
  String, Bool, true, false, ◌≡◌, refl, inl, inr, Option, some, List, [], ◌∷◌, Bool-cases, All,
  All-map, Among, All-among, none, ◌⊎◌, any_of, str_eq, eq_iff,
}
use okxquant.Prelude.Table.{select, Distinct, All-select}
use okxquant.Scripts.Protection.Coverage.{
  Reader, OrderRow, AlgoRow, is_side, no_scan, scan_rows, total_size, is_agreed, coverage_of,
  oco_coverage, no_dict, order, is_foreign, has_text, same_row, Scan, find_row,
}
use okxquant.Scripts.Protection.Seen.{Judged}
use okxquant.Scripts.Protection.Scanned.{same_algo, IsTold, IsProven, Given, Scanned}
use okxquant.Scripts.Protection.Ended.{scan_rows-Ended}

-- A row does not contradict an order: it is not for this position, has another name, or is the same.
abbrev pub Agrees : String → String × OrderRow → AlgoRow → Type 0
Agrees side c no_dict = Unit
Agrees side c (order r) =
    (is_foreign side r ≡ true) ⊎ ((has_text r.algo_id c.0 ≡ false) ⊎ (same_row r c.1 ≡ true))

-- The row stands among those that were read.
abbrev pub Read : List AlgoRow → OrderRow → Type 0
Read rows r = Among (order r) rows

Given-all : (rows : List AlgoRow) → All (Given (Read rows)) rows
Given-all rows = All-among (Given (Read rows)) rows one
  where
    one : (row : AlgoRow) → Among row rows → Given (Read rows) row
    one no_dict k = tt
    one (order r) k = k

module _ (rd : Reader) (side : String) (mark entry : Option String) where
  no_scan-Scanned : (P : OrderRow → Type 0) → Scanned P rd side mark entry no_scan
  no_scan-Scanned P = record { proven = tt; apart = tt; met = tt; calm = λ e. refl; kept = λ e. tt }

  select-apart :
      (p : String × OrderRow → Bool) (xs : List (String × OrderRow))
      → Distinct same_algo xs
      → Distinct same_algo (select p xs)
  unfolding select
  select-apart p [] d = tt
  select-apart p (x ∷ xs) d = elim (Bool-cases (p x)) [
    | inl e ↦ rw e (
      All-map (λ y. (same_algo x y ≡ false) × (p y ≡ true)) (λ y. same_algo x y ≡ false)
          (λ y k. k.0) (select p xs) (All-select (λ y. same_algo x y ≡ false) p xs d.0),
      select-apart p xs d.1,
    )
    | inr e ↦ rw e (select-apart p xs d.1)
  ]

  select_agreed : (xs : List (String × OrderRow)) → select (is_agreed []) xs ≡ xs
  unfolding select is_agreed
  select_agreed [] = refl
  select_agreed (x ∷ xs) = rw (select_agreed xs) refl

  -- A candidate that is not in dispute agrees with each row that was judged.
  agreed_row :
      (s : Scan) (c : String × OrderRow)
      → rd.is_blank c.0 ≡ false
      → find_row c.0 s.seen ≡ some c.1
      → is_agreed s.conflicts c ≡ true
      → (row : AlgoRow) → Judged rd side s row
      → Agrees side c row
  unfolding is_agreed has_text
  agreed_row s c filled met calm no_dict h = tt
  agreed_row s c filled met calm (order r) (inl e) = inl e
  agreed_row s c filled met calm (order r) (inr h) = inr (by_name r.algo_id refl)
    where
      judged :
          ((old : OrderRow) × (find_row c.0 s.seen ≡ some old) × (same_row r old ≡ true))
            ⊎ (any_of (str_eq c.0) s.conflicts ≡ true)
          → same_row r c.1 ≡ true
      judged (inl (old, found, same)) = let one : old ≡ c.1 = cc (found, met) in rw (← one) same
      judged (inr k) = absurd (cc (rw k at calm))

      by_name :
          (o : Option String) → r.algo_id ≡ o → (has_text o c.0 ≡ false) ⊎ (same_row r c.1 ≡ true)
      by_name none n = inl refl
      by_name (some a) n = elim (Bool-cases (str_eq a c.0)) [
        | inr e ↦ inl e
        | inl e ↦ let same = (eq_iff a c.0).0 e in inr (judged (h c.0 (rw same at n) filled))
      ]

  -- The orders of a coverage are live OCO orders among the rows that were read, which close the
  -- position, one for each algoId; no row that was read for this position shows another content
  -- under the algoId of one of them; the size is the sum of theirs; and the coverage is unknown, or
  -- every row that was read is an order that is not for this position, or one of them.
  pub oco_coverage-IsProven :
      (orders : List AlgoRow)
      → let c = oco_coverage rd (some orders) side mark entry in
        All (IsProven (Read orders) rd side mark entry) c.orders
        × Distinct same_algo c.orders
        × All (λ o. All (Agrees side o) orders) c.orders
        × (c.size ≡ total_size rd c.orders)
        × ((c.unknown ≡ true) ⊎ All (IsTold side c.orders) orders)
  unfolding oco_coverage coverage_of
  oco_coverage-IsProven orders = elim (Bool-cases (is_side side)) [
    | inr e ↦ rw e (tt, tt, tt, unfold total_size in refl, inl refl)
    | inl e ↦
        let end =
          scan_rows-Ended (Read orders) rd side mark entry orders no_scan (Given-all orders)
            (no_scan-Scanned (Read orders)) in
        let s = scan_rows rd side mark entry orders no_scan in
        let proven = IsProven (Read orders) rd side mark entry in
        rw e (
          All-map (λ c. proven c × (is_agreed s.conflicts c ≡ true)) proven (λ c k. k.0)
              (select (is_agreed s.conflicts) s.candidates)
              (All-select proven (is_agreed s.conflicts) s.candidates end.scanned.proven),
          select-apart (is_agreed s.conflicts) s.candidates end.scanned.apart,
          agreed_all s end.judged s.candidates end.scanned.proven end.scanned.met,
          refl,
          elim (Bool-cases s.unknown) [
            | inl u ↦ inl u
            | inr u ↦
                let whole : select (is_agreed s.conflicts) s.candidates ≡ s.candidates =
                  rw (end.scanned.calm u) (select_agreed s.candidates) in
                inr (rw whole (end.told u))
          ],
        )
  ]
    where
      agreed_all :
          (s : Scan)
          → All (Judged rd side s) orders
          → (cs : List (String × OrderRow)) → All (IsProven (Read orders) rd side mark entry) cs
          → All (λ c. find_row c.0 s.seen ≡ some c.1) cs
          → All (λ o. All (Agrees side o) orders) (select (is_agreed s.conflicts) cs)
      agreed_all s judged [] h met = unfold select in tt
      agreed_all s judged (c ∷ cs) h met = elim (Bool-cases (is_agreed s.conflicts c)) [
        | inr e ↦ unfold select in rw e (agreed_all s judged cs h.1 met.1)
        | inl e ↦
            unfold select in
            rw e (
              All-map (Judged rd side s) (Agrees side c) (agreed_row s c h.0.filled met.0 e) orders
                  judged,
              agreed_all s judged cs h.1 met.1,
            )
      ]
