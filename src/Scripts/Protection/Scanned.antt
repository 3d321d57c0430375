-- ===== src/Scripts/Protection/Scanned.antt =====
-- Proofs on the loop of oco_coverage of scripts/protection_policy.py: what it has after some rows.
use okxquant.Prelude.{
  String, Bool, true, false, ◌≡◌, refl, ◌⊎◌, inl, inr, Option, none, some, List, [], ◌∷◌, ◌++◌,
  Bool-cases, All, All-map, All-append, any_of, str_eq, eq_iff,
}
use okxquant.Prelude.Table.{Distinct, Distinct-append}
use okxquant.Scripts.Protection.Coverage.{
  Reader, OrderRow, AlgoRow, no_dict, order, is_foreign, is_oco, same_row, Scan, find_row, scan_new,
}
use okxquant.Scripts.Protection.Seen.{
  same_row_refl, any_of-append_left, any_of-append_last, Grown, find_row-new, find_row-first,
  Judged,
}

abbrev pub same_algo : String × OrderRow → String × OrderRow → Bool
same_algo (a, _) (b, _) = str_eq a b

-- A row is told by some orders: it is not for this position, or it is one of them.
abbrev pub IsTold : String → List (String × OrderRow) → AlgoRow → Type 0
IsTold side orders no_dict = ⊥
IsTold side orders (order r) =
    (is_foreign side r ≡ true) ⊎ (any_of (λ c. same_row r c.1) orders ≡ true)

-- A live order of this position that closes it, by either trigger, among those given by P, and with
-- a name.
pub record IsProven (P : OrderRow → Type 0) (rd : Reader) (side : String)
    (mark entry : Option String) (c : String × OrderRow) : Type 0 where
  pub taken : P c.1
  pub filled : rd.is_blank c.0 ≡ false
  pub named : c.1.algo_id ≡ some c.0
  pub own : is_foreign side c.1 ≡ false
  pub oco : is_oco rd side mark entry c.1 ≡ true

-- A row is given by P, where it is an object.
abbrev pub Given : (OrderRow → Type 0) → AlgoRow → Type 0
Given P no_dict = Unit
Given P (order r) = P r

module _ (P : OrderRow → Type 0) (rd : Reader) (side : String) (mark entry : Option String) where
  -- What the loop has so far.
  pub record Scanned (s : Scan) : Type 0 where
    pub proven : All (IsProven P rd side mark entry) s.candidates
    pub apart : Distinct same_algo s.candidates
    pub met : All (λ c. find_row c.0 s.seen ≡ some c.1) s.candidates
    pub calm : s.unknown ≡ false → s.conflicts ≡ []
    pub kept :
        s.unknown ≡ false
        → All
            (λ k.
              (r : OrderRow)
              → same_row r k.1 ≡ true
              → any_of (λ c. same_row r c.1) s.candidates ≡ true)
            s.seen

  -- One row.
  pub record Step (row : AlgoRow) (s t : Scan) : Type 0 where
    pub scanned : Scanned t
    pub quiet : t.unknown ≡ false → s.unknown ≡ false
    pub told : t.unknown ≡ false → IsTold side t.candidates row
    pub grown : Grown s t
    pub judged : Judged rd side t row
    pub more :
        (q : String × OrderRow → Bool) → any_of q s.candidates ≡ true → any_of q t.candidates ≡ true

  new_apart :
      (id : String) (r : OrderRow) (s : Scan)
      → find_row id s.seen ≡ none
      → Scanned s
      → All (λ c. same_algo c (id, r) ≡ false) s.candidates
  new_apart id r s fresh h =
      All-map (λ c. find_row c.0 s.seen ≡ some c.1) (λ c. same_algo c (id, r) ≡ false)
        (λ c met. elim (Bool-cases (str_eq c.0 id)) [
          | inl e ↦ let same = (eq_iff c.0 id).0 e in absurd (cc (rw same at met, fresh))
          | inr e ↦ e
        ])
        s.candidates h.met

  -- The whole scan is doubtful from here on.
  doubt-Scanned :
      (s t : Scan)
      → t.candidates ≡ s.candidates
      → t.unknown ≡ true
      → Grown s t
      → Scanned s
      → Scanned t
  doubt-Scanned s t same doubt grown h = record {
    proven = rw same h.proven;
    apart = rw same h.apart;
    met = rw same (
        All-map (λ c. find_row c.0 s.seen ≡ some c.1) (λ c. find_row c.0 t.seen ≡ some c.1)
          (λ c. grown.finds c.0 c.1) s.candidates h.met);
    calm = λ e. absurd (cc (e, doubt));
    kept = λ e. absurd (cc (e, doubt));
  }

  pub doubt-Step :
      (row : AlgoRow) (s t : Scan)
      → t.candidates ≡ s.candidates
      → t.unknown ≡ true
      → Grown s t
      → Judged rd side t row
      → Scanned s
      → Step row s t
  doubt-Step row s t same doubt grown judged h = record {
    scanned = doubt-Scanned s t same doubt grown h;
    quiet = λ e. absurd (cc (e, doubt));
    told = λ e. absurd (cc (e, doubt));
    grown = grown;
    judged = judged;
    more = λ q k. rw same k;
  }

  pub scan_new-Step :
      (id : String) (r : OrderRow) (s : Scan)
      → P r
      → rd.is_blank id ≡ false
      → r.algo_id ≡ some id
      → is_foreign side r ≡ false
      → find_row id s.seen ≡ none
      → Scanned s
      → Step (order r) s (scan_new rd side mark entry id r s)
  unfolding scan_new
  scan_new-Step id r s given filled named own new h =
      elim (Bool-cases (is_oco rd side mark entry r)) [
        | inr e ↦ rw e (
            doubt-Step (order r) s (record s { seen = (id, r) ∷ s.seen; unknown = true }) refl refl
              (record { finds = λ k old. find_row-new id k r old s.seen new; disputes = λ k q. q })
              (inr (λ k n b. inl (r, first k n, same_row_refl r))) h)
        | inl e ↦
            let last : any_of (λ c. same_row r c.1) (s.candidates ++ ((id, r) ∷ [])) ≡ true =
              any_of-append_last (λ c. same_row r c.1) s.candidates (id, r) (same_row_refl r) in
            rw e (record {
              scanned = record {
                proven =
                    All-append (IsProven P rd side mark entry) s.candidates ((id, r) ∷ []) h.proven
                      (
                        record {
                          taken = given;
                          filled = filled;
                          named = named;
                          own = own;
                          oco = e;
                        },
                        tt,
                      );
                apart =
                    Distinct-append same_algo (id, r) s.candidates h.apart (new_apart id r s new h);
                met =
                    All-append (λ c. find_row c.0 ((id, r) ∷ s.seen) ≡ some c.1) s.candidates
                      ((id, r) ∷ [])
                      (All-map (λ c. find_row c.0 s.seen ≡ some c.1)
                        (λ c. find_row c.0 ((id, r) ∷ s.seen) ≡ some c.1)
                        (λ c. find_row-new id c.0 r c.1 s.seen new) s.candidates h.met)
                      (find_row-first id r s.seen, tt);
                calm = h.calm;
                kept = λ q. (
                  λ x k. any_of-append_last (λ c. same_row x c.1) s.candidates (id, r) k,
                  All-map _ _
                      (λ k g x m.
                        any_of-append_left (λ c. same_row x c.1) s.candidates ((id, r) ∷ [])
                          (g x m))
                      s.seen (h.kept q),
                );
              };
              quiet = λ q. q;
              told = λ q. inr last;
              grown = record {
                finds = λ k old. find_row-new id k r old s.seen new;
                disputes = λ k q. q;
              };
              judged = inr (λ k n b. inl (r, first k n, same_row_refl r));
              more = λ q k. any_of-append_left q s.candidates ((id, r) ∷ []) k;
            })
      ]
    where
      first : (k : String) → r.algo_id ≡ some k → find_row k ((id, r) ∷ s.seen) ≡ some r
      first k n = let same : id ≡ k = cc (n, named) in rw (← same) (find_row-first id r s.seen)
