-- ===== src/Scripts/Protection/Seen.antt =====
-- Proofs on the loop of oco_coverage of scripts/protection_policy.py: the rows that it has seen.
use okxquant.Prelude.{
  String, Bool, true, false, ◌≡◌, refl, ◌⊎◌, inl, inr, Option, none, some, List, [], ◌∷◌, ◌++◌,
  arith, Bool-cases, All, any_of, str_eq, eq_iff,
}
use okxquant.Scripts.Protection.Coverage.{
  Reader, OrderRow, AlgoRow, no_dict, order, is_foreign, same_text, same_row, Scan, find_row,
}

same_text_refl : (a : Option String) → same_text a a ≡ true
unfolding same_text
same_text_refl none = refl
same_text_refl (some a) = (eq_iff a a).1 refl

pub same_row_refl : (r : OrderRow) → same_row r r ≡ true
unfolding same_row
same_row_refl r =
    rw
      (
        same_text_refl r.pos_side,
        same_text_refl r.side,
        same_text_refl r.state,
        same_text_refl r.algo_id,
        same_text_refl r.ord_type,
        same_text_refl r.reduce_only,
        same_text_refl r.sz,
        same_text_refl r.tp_trigger_px,
        same_text_refl r.sl_trigger_px,
        same_text_refl r.actual_sz,
        (eq_iff r.rest r.rest).1 refl,
      )
      refl

pub any_of-append_left {ℓ} :
    {A : Type ℓ} (q : A → Bool) (xs ys : List A) → any_of q xs ≡ true → any_of q (xs ++ ys) ≡ true
any_of-append_left q [] ys h = absurd (cc h)
any_of-append_left q (x ∷ xs) ys h = ground (arith, any_of-append_left q xs ys)

pub any_of-append_last {ℓ} :
    {A : Type ℓ} (q : A → Bool) (xs : List A) (x : A)
    → q x ≡ true
    → any_of q (xs ++ (x ∷ [])) ≡ true
any_of-append_last q [] x h = rw h refl
any_of-append_last q (y ∷ xs) x h = ground (arith, any_of-append_last q xs x h)

pub seen_kept :
    (id : String) (old r : OrderRow) (orders seen : List (String × OrderRow))
    → find_row id seen ≡ some old
    → same_row r old ≡ true
    → All
        (λ k. (x : OrderRow) → same_row x k.1 ≡ true → any_of (λ c. same_row x c.1) orders ≡ true)
        seen
    → any_of (λ c. same_row r c.1) orders ≡ true
unfolding find_row
seen_kept id old r orders [] found same h = absurd (cc found)
seen_kept id old r orders ((key, x) ∷ seen) found same h = elim (Bool-cases (str_eq key id)) [
  | inl e ↦ let one : x ≡ old = cc (rw e at found) in h.0 r (rw one same)
  | inr e ↦ seen_kept id old r orders seen (rw e at found) same h.1
]

-- What was seen is kept: the first row of each name, and the names in dispute.
pub record Grown (s t : Scan) : Type 0 where
  pub finds :
      (id : String) (old : OrderRow) → find_row id s.seen ≡ some old → find_row id t.seen ≡ some old
  pub disputes :
      (id : String) → any_of (str_eq id) s.conflicts ≡ true → any_of (str_eq id) t.conflicts ≡ true

pub Grown-refl : (s : Scan) → Grown s s
Grown-refl s = record { finds = λ id old h. h; disputes = λ id h. h }

pub find_row-new :
    (id k : String) (r old : OrderRow) (seen : List (String × OrderRow))
    → find_row id seen ≡ none
    → find_row k seen ≡ some old
    → find_row k ((id, r) ∷ seen) ≡ some old
unfolding find_row
find_row-new id k r old seen new h = elim (Bool-cases (str_eq id k)) [
  | inl e ↦ let same = (eq_iff id k).0 e in absurd (cc (rw same at new, h))
  | inr e ↦ rw e h
]

pub find_row-first :
    (id : String) (r : OrderRow) (seen : List (String × OrderRow))
    → find_row id ((id, r) ∷ seen) ≡ some r
unfolding find_row
find_row-first id r seen = let self = (eq_iff id id).1 refl in rw self refl

-- A named row of this position is the first of its name, or the name is in dispute.
abbrev pub Judged : Reader → String → Scan → AlgoRow → Type 0
Judged rd side t no_dict = Unit
Judged rd side t (order r) =
    (is_foreign side r ≡ true)
    ⊎ ((id : String)
        → r.algo_id ≡ some id
        → rd.is_blank id ≡ false
        → ((old : OrderRow) × (find_row id t.seen ≡ some old) × (same_row r old ≡ true))
          ⊎ (any_of (str_eq id) t.conflicts ≡ true))

pub Judged-more :
    (rd : Reader) (side : String) (s t : Scan) (row : AlgoRow)
    → Grown s t
    → Judged rd side s row
    → Judged rd side t row
Judged-more rd side s t no_dict grown h = tt
Judged-more rd side s t (order r) grown (inl h) = inl h
Judged-more rd side s t (order r) grown (inr h) = inr (λ id named filled. elim (h id named filled) [
  | inl (old, found, same) ↦ inl (old, grown.finds id old found, same)
  | inr k ↦ inr (grown.disputes id k)
])
