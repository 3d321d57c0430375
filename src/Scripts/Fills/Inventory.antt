-- ===== src/Scripts/Fills/Inventory.antt =====
-- Proofs on the movements of reconcile of scripts/fill_accounting.py: the inventory at any time.
use okxquant.Prelude.{
  Bool, true, false, ◌≡◌, refl, ◌∙◌, inl, inr, some, List, [], ◌∷◌, arith, Bool-cases, All,
}
use okxquant.Prelude.Table.{order_by, insert_ordered, IsOrdered, order_by-IsOrdered}
use okxquant.Prelude.Int.{ℤ, pos, ◌+ℤ◌, ◌≤ℤ◌, leb_ℤ, ltb_ℤ, eq_ℤ, eq_ℤ-eq, int_laws}
use okxquant.Scripts.Fills.Reconcile.{bump, is_before, run_inventory}

abbrev pub counted : Bool → ℤ → ℤ
counted true c = c
counted false c = pos 0

-- What came in less what went out until a time.
unfoldable pub until : ℤ → List (ℤ × ℤ) → ℤ
until t [] = pos 0
until t ((s, change) ∷ rest) = counted (leb_ℤ s t) change +ℤ until t rest

counted_add : (b : Bool) (x y : ℤ) → counted b (x +ℤ y) ≡ counted b x +ℤ counted b y
counted_add true x y = refl
counted_add false x y = omega int_laws

pub until-bump :
    (t s change : ℤ) (ms : List (ℤ × ℤ))
    → until t (bump s change ms) ≡ until t ms +ℤ counted (leb_ℤ s t) change
unfolding until bump
until-bump t s change [] = omega int_laws
until-bump t s change ((r, total) ∷ ms) = elim (Bool-cases (eq_ℤ r s)) [
  | inl e ↦
      let same = eq_ℤ-eq r s e in
      let split = counted_add (leb_ℤ s t) total change in rw (e, same, split) (omega int_laws)
  | inr e ↦ rw (e, until-bump t s change ms) (omega int_laws)
]

until-insert_ordered :
    (t : ℤ) (m : ℤ × ℤ) (ms : List (ℤ × ℤ))
    → until t (insert_ordered is_before m ms) ≡ counted (leb_ℤ m.0 t) m.1 +ℤ until t ms
unfolding until insert_ordered
until-insert_ordered t m [] = refl
until-insert_ordered t m (x ∷ ms) = elim (Bool-cases (is_before m x)) [
  | inl e ↦ rw e refl
  | inr e ↦ rw (e, until-insert_ordered t m ms) (omega int_laws)
]

pub until-order_by : (t : ℤ) (ms : List (ℤ × ℤ)) → until t (order_by is_before ms) ≡ until t ms
unfolding until order_by
until-order_by t [] = refl
until-order_by t (m ∷ ms) =
    until-insert_ordered t m (order_by is_before ms) ∙ rw (until-order_by t ms) refl

pub movements-IsOrdered : (ms : List (ℤ × ℤ)) → IsOrdered is_before (order_by is_before ms)
unfolding is_before
movements-IsOrdered ms = order_by-IsOrdered (λ x y h. ground arith) (λ x y z h k. ground arith) ms

until_later :
    (t s change : ℤ) (ms : List (ℤ × ℤ))
    → leb_ℤ s t ≡ false
    → All (λ m. is_before (s, change) m ≡ true) ms
    → until t ms ≡ pos 0
unfolding until is_before
until_later t s change [] late h = refl
until_later t s change ((r, c) ∷ ms) late h =
    let no : leb_ℤ r t ≡ false = let k = h.0 in ground arith in
    rw (no, until_later t s change ms late h.1) (omega int_laws)

-- Where the inventory never goes below zero, it is not below zero at any time.
pub run_inventory-until :
    (t running last : ℤ) (ms : List (ℤ × ℤ))
    → IsOrdered is_before ms
    → pos 0 ≤ℤ running
    → run_inventory running ms ≡ some last
    → pos 0 ≤ℤ running +ℤ until t ms
unfolding until run_inventory
run_inventory-until t running last [] sorted fine h = omega int_laws
run_inventory-until t running last ((s, change) ∷ ms) sorted fine h =
    elim (Bool-cases (ltb_ℤ (running +ℤ change) (pos 0))) [
      | inl e ↦ absurd (cc (rw e at h))
      | inr e ↦
          let step : pos 0 ≤ℤ running +ℤ change = ground arith in
          let rest = run_inventory-until t (running +ℤ change) last ms sorted.1 step (rw e at h) in
          elim (Bool-cases (leb_ℤ s t)) [
            | inl k ↦ rw k (omega (int_laws, rest))
            | inr k ↦ rw (k, until_later t s change ms k sorted.0) (omega int_laws)
          ]
    ]
