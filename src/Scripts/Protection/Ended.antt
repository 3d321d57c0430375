-- ===== src/Scripts/Protection/Ended.antt =====
-- Proofs on the loop of oco_coverage of scripts/protection_policy.py: one row after another.
use okxquant.Prelude.{
  String, Bool, true, false, ◌≡◌, refl, inl, inr, Option, none, some, List, [], ◌∷◌, arith,
  Bool-cases, All, any_of, str_eq, eq_iff,
}
use okxquant.Scripts.Protection.Coverage.{
  Reader, OrderRow, AlgoRow, no_dict, order, is_foreign, same_row, Scan, find_row, scan_seen,
  scan_id, scan_row, scan_rows,
}
use okxquant.Scripts.Protection.Seen.{seen_kept, Grown, Grown-refl, Judged, Judged-more}
use okxquant.Scripts.Protection.Scanned.{IsTold, Given, Scanned, Step, doubt-Step, scan_new-Step}

module _ (P : OrderRow → Type 0) (rd : Reader) (side : String) (mark entry : Option String) where
  scan_seen-Step :
      (id : String) (r : OrderRow) (s : Scan) (o : Option OrderRow)
      → P r
      → rd.is_blank id ≡ false
      → r.algo_id ≡ some id
      → is_foreign side r ≡ false
      → find_row id s.seen ≡ o
      → Scanned P rd side mark entry s
      → Step P rd side mark entry (order r) s (scan_seen rd side mark entry id r s o)
  unfolding scan_seen
  scan_seen-Step id r s none given filled named own found h =
      scan_new-Step P rd side mark entry id r s given filled named own found h
  scan_seen-Step id r s (some old) given filled named own found h =
      elim (Bool-cases (same_row r old)) [
        | inl e ↦ rw e (record {
          scanned = h;
          quiet = λ q. q;
          told = λ q. inr (seen_kept id old r s.candidates s.seen found e (h.kept q));
          grown = Grown-refl s;
          judged = inr (λ k n b. inl (old, at_name k n, e));
          more = λ q k. k;
        })
        | inr e ↦ rw e (
            doubt-Step P rd side mark entry (order r) s
              (record s { conflicts = id ∷ s.conflicts; unknown = true }) refl refl
              (record { finds = λ k o q. q; disputes = λ k q. ground arith })
              (inr (λ k n b. inr (disputed k n))) h)
      ]
    where
      at_name : (k : String) → r.algo_id ≡ some k → find_row k s.seen ≡ some old
      at_name k n = let same : id ≡ k = cc (n, named) in rw (← same) found

      disputed : (k : String) → r.algo_id ≡ some k → any_of (str_eq k) (id ∷ s.conflicts) ≡ true
      disputed k n =
          let same : k ≡ id = cc (n, named) in let self = (eq_iff k id).1 same in rw self refl

  doubted :
      (row : AlgoRow) (s : Scan)
      → Judged rd side s row
      → Scanned P rd side mark entry s
      → Step P rd side mark entry row s (record s { unknown = true })
  doubted row s judged h =
      doubt-Step P rd side mark entry row s (record s { unknown = true }) refl refl
        (record { finds = λ k o q. q; disputes = λ k q. q }) judged h

  scan_row-Step :
      (row : AlgoRow) (s : Scan)
      → Given P row
      → Scanned P rd side mark entry s
      → Step P rd side mark entry row s (scan_row rd side mark entry row s)
  unfolding scan_row scan_id
  scan_row-Step no_dict s given h = doubted no_dict s tt h
  scan_row-Step (order r) s given h = elim (Bool-cases (is_foreign side r)) [
    | inl e ↦ rw e (record {
      scanned = h;
      quiet = λ q. q;
      told = λ q. inl e;
      grown = Grown-refl s;
      judged = inl e;
      more = λ q k. k;
    })
    | inr e ↦ rw e (go r.algo_id refl e)
  ]
    where
      go :
          (o : Option String)
          → r.algo_id ≡ o
          → is_foreign side r ≡ false
          → Step P rd side mark entry (order r) s (scan_id rd side mark entry r s o)
      go none named own = doubted (order r) s (inr (λ k n b. absurd (cc (n, named)))) h
      go (some id) named own = elim (Bool-cases (rd.is_blank id)) [
        | inl b ↦ rw b (
            doubted (order r) s
              (inr (λ k n q. let same : k ≡ id = cc (n, named) in absurd (cc (rw same at q, b)))) h)
        | inr b ↦ rw b (scan_seen-Step id r s (find_row id s.seen) given b named own refl h)
      ]

  IsTold-more :
      (row : AlgoRow) (xs ys : List (String × OrderRow))
      → ((q : String × OrderRow → Bool) → any_of q xs ≡ true → any_of q ys ≡ true)
      → IsTold side xs row
      → IsTold side ys row
  IsTold-more no_dict xs ys more h = h
  IsTold-more (order r) xs ys more (inl h) = inl h
  IsTold-more (order r) xs ys more (inr h) = inr (more (λ c. same_row r c.1) h)

  -- All rows: what the loop ends with.
  pub record Ended (rows : List AlgoRow) (s t : Scan) : Type 0 where
    pub scanned : Scanned P rd side mark entry t
    pub quiet : t.unknown ≡ false → s.unknown ≡ false
    pub told : t.unknown ≡ false → All (IsTold side t.candidates) rows
    pub grown : Grown s t
    pub judged : All (Judged rd side t) rows
    pub more :
        (q : String × OrderRow → Bool) → any_of q s.candidates ≡ true → any_of q t.candidates ≡ true

  pub scan_rows-Ended :
      (rows : List AlgoRow) (s : Scan)
      → All (Given P) rows
      → Scanned P rd side mark entry s
      → Ended rows s (scan_rows rd side mark entry rows s)
  unfolding scan_rows
  scan_rows-Ended [] s given h = record {
    scanned = h;
    quiet = λ q. q;
    told = λ q. tt;
    grown = Grown-refl s;
    judged = tt;
    more = λ q k. k;
  }
  scan_rows-Ended (row ∷ rows) s given h =
      let t = scan_row rd side mark entry row s in
      let one = scan_row-Step row s given.0 h in
      let rest = scan_rows-Ended rows t given.1 one.scanned in
      record {
        scanned = rest.scanned;
        quiet = λ q. one.quiet (rest.quiet q);
        told = λ q. (IsTold-more row _ _ rest.more (one.told (rest.quiet q)), rest.told q);
        grown = record {
          finds = λ k o q. rest.grown.finds k o (one.grown.finds k o q);
          disputes = λ k q. rest.grown.disputes k (one.grown.disputes k q);
        };
        judged = (
          Judged-more rd side t (scan_rows rd side mark entry rows t) row rest.grown one.judged,
          rest.judged,
        );
        more = λ q k. rest.more q (one.more q k);
      }
