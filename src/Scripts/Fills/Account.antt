-- ===== src/Scripts/Fills/Account.antt =====
-- Proofs on the account of reconcile of scripts/fill_accounting.py: its sums and its checks.
use okxquant.Prelude.{
  ℕ, String, true, ◌&&◌, not, ◌≡◌, refl, sym, ap, ◌∙◌, inl, inr, Option, none, some, List, [], ◌∷◌,
  length, arith, Bool-cases,
}
use okxquant.Prelude.Table.{order_by}
use okxquant.Prelude.Int.{ℤ, pos, ◌+ℤ◌, ◌-ℤ◌, ◌≤ℤ◌, leb_ℤ, eq_ℤ, eq_ℤ-eq, int_laws}
use okxquant.Scripts.Fills.Records.{Decimals, tolerance, Outcome, unknown, known, Fill}
use okxquant.Scripts.Fills.Reconcile.{
  Volumes, no_volumes, add_fills, is_before, run_inventory, magnitude, Allocation, conclude,
  settle_volumes, account,
}
use okxquant.Scripts.Fills.Inventory.{
  until, until-order_by, movements-IsOrdered, run_inventory-until,
}
use okxquant.Scripts.Fills.Sums.{
  is_opening, sum_of, sizes, fees, sizes_until, IsSummed, add_fills-IsSummed,
}

-- The account of some fills: the sums of an allocation, and what was checked of them.
pub record IsAccount (d : Decimals) (direction : String) (target receipt_fee : ℤ)
    (m : List (String × Fill)) (a : Allocation) : Type 0 where
  pub opened : sum_of (sizes d (is_opening direction)) m ≡ target
  pub closed : sum_of (sizes d (λ f. not (is_opening direction f))) m ≡ target
  pub open_fee : a.open_fee ≡ sum_of (fees d (is_opening direction)) m
  pub close_fee : a.close_fee ≡ sum_of (fees d (λ f. not (is_opening direction f))) m
  pub sizes_told : (a.opening_size ≡ target) × (a.closing_size ≡ target)
  pub fee_total : magnitude (a.open_fee +ℤ a.close_fee -ℤ receipt_fee) ≤ℤ pos (tolerance d)
  pub never_short :
      (t : ℤ)
      → sum_of (sizes_until d (λ f. not (is_opening direction f)) t) m
        ≤ℤ sum_of (sizes_until d (is_opening direction) t) m
  pub count : a.matched_fills ≡ length m

sum_of_difference :
    (p q : Fill → ℤ) (m : List (String × Fill))
    → sum_of (λ f. p f -ℤ q f) m ≡ sum_of p m -ℤ sum_of q m
unfolding sum_of
sum_of_difference p q [] = omega int_laws
sum_of_difference p q ((id, f) ∷ m) = rw (sum_of_difference p q m) (omega int_laws)

-- What conclude has checked when it concludes.
concluded :
    (d : Decimals) (target receipt_fee : ℤ) (count : ℕ) (v : Volumes) (o : Option ℤ)
    (a : Allocation)
    → conclude d target receipt_fee count v o ≡ known a
    → ((last : ℤ) × (o ≡ some last))
      × (v.open_size ≡ target)
      × (v.close_size ≡ target)
      × (magnitude (v.open_fee +ℤ v.close_fee -ℤ receipt_fee) ≤ℤ pos (tolerance d))
      × (a ≡ record {
        open_fee = v.open_fee;
        close_fee = v.close_fee;
        matched_fills = count;
        opening_size = v.open_size;
        closing_size = v.close_size;
        receipt_fee = receipt_fee;
        allocated_fee = v.open_fee +ℤ v.close_fee;
      })
unfolding conclude
concluded d target receipt_fee count v none a h = absurd (cc h)
concluded d target receipt_fee count v (some last) a h =
    elim (Bool-cases (eq_ℤ v.open_size target && (eq_ℤ v.close_size target && eq_ℤ last (pos 0)))) [
      | inr e ↦ absurd (cc (rw e at h))
      | inl e ↦
          elim (Bool-cases
            (leb_ℤ (magnitude (v.open_fee +ℤ v.close_fee -ℤ receipt_fee)) (pos (tolerance d)))) [
              | inr k ↦ absurd (cc (rw (e, k) at h))
              | inl k ↦
                  let opened : eq_ℤ v.open_size target ≡ true = ground arith in
                  let closed : eq_ℤ v.close_size target ≡ true = ground arith in
                  (
                    (last, refl),
                    eq_ℤ-eq v.open_size target opened,
                    eq_ℤ-eq v.close_size target closed,
                    ground arith,
                    sym (cc (rw (e, k) at h)),
                  )
            ]
    ]

zero_left : (b : ℤ) → pos 0 +ℤ b ≡ b
zero_left b = omega int_laws

from_zero : (a b : ℤ) → a ≡ pos 0 +ℤ b → a ≡ b
from_zero a b h = h ∙ zero_left b

-- The inventory that the run saw, as the two sums.
covered :
    (d : Decimals) (direction : String) (m : List (String × Fill)) (v : Volumes)
    → IsSummed d direction m no_volumes v
    → (last : ℤ) → run_inventory (pos 0) (order_by is_before v.movements) ≡ some last
    → (t : ℤ)
    → sum_of (sizes_until d (λ f. not (is_opening direction f)) t) m
      ≤ℤ sum_of (sizes_until d (is_opening direction) t) m
unfolding until
covered d direction m v s last ran t =
    let fine =
      run_inventory-until t (pos 0) last (order_by is_before v.movements)
        (movements-IsOrdered v.movements) (omega arith) ran in
    let split =
      sum_of_difference (sizes_until d (is_opening direction) t)
        (sizes_until d (λ f. not (is_opening direction f)) t) m in
    let whole = until-order_by t v.movements ∙ from_zero _ _ (s.inventory t) ∙ split in
    let told = rw whole at fine in omega (int_laws, told)

pub account-IsAccount :
    (d : Decimals) (direction : String) (target receipt_fee : ℤ) (m : List (String × Fill))
    (a : Allocation)
    → account d direction target receipt_fee m ≡ known a
    → IsAccount d direction target receipt_fee m a
unfolding account
account-IsAccount d direction target receipt_fee [] a h = absurd (cc h)
account-IsAccount d direction target receipt_fee (x ∷ xs) a h =
    go (add_fills d direction (length m) m no_volumes) refl h
  where
    m : List (String × Fill)
    m = x ∷ xs

    summed :
        (v : Volumes)
        → IsSummed d direction m no_volumes v
        → settle_volumes d target receipt_fee (length m) v ≡ known a
        → IsAccount d direction target receipt_fee m a
    summed v s k =
        let ((last, ran), opened, closed, near, told) =
          concluded d target receipt_fee (length m) v
            (run_inventory (pos 0) (order_by is_before v.movements)) a
            (unfold settle_volumes in k) in
        record {
          opened = sym (from_zero _ _ s.open_size) ∙ opened;
          closed = sym (from_zero _ _ s.close_size) ∙ closed;
          open_fee = ap (λ (b : Allocation). b.open_fee) told ∙ from_zero _ _ s.open_fee;
          close_fee = ap (λ (b : Allocation). b.close_fee) told ∙ from_zero _ _ s.close_fee;
          sizes_told = (
            ap (λ (b : Allocation). b.opening_size) told ∙ opened,
            ap (λ (b : Allocation). b.closing_size) told ∙ closed,
          );
          fee_total = rw told near;
          never_short = λ t. covered d direction m v s last ran t;
          count = ap (λ (b : Allocation). b.matched_fills) told;
        }

    go :
        (o : Outcome Volumes)
        → add_fills d direction (length m) m no_volumes ≡ o
        → elim o as (λ _. Outcome Allocation) [
          | unknown r n ↦ unknown r n
          | known v ↦ settle_volumes d target receipt_fee (length m) v
        ]
          ≡ known a
        → IsAccount d direction target receipt_fee m a
    go (unknown r n) e k = absurd (cc k)
    go (known v) e k = summed v (add_fills-IsSummed d direction (length m) m no_volumes v e) k
