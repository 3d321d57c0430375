-- ===== src/Prelude/Table/Order.antt =====
-- ORDER BY: a stable insertion sort, and LIMIT with it.
use Prim.Native.Nat.{ℕ, zero, suc, ◌+◌, ◌≤◌}
use mathlib.Core.Path.{◌≡◌, refl, ◌∙◌}
use mathlib.Core.Logic.{inl, inr}
use mathlib.Core.Bool.{Bool, true, false}
use mathlib.Core.List.{List, [], ◌∷◌}
use native.Mathlib.Omega.{arith}
use okxquant.Prelude.Tests.{if◌then◌else◌, Bool-cases}
use okxquant.Prelude.Table.Rows.{count_where}
use okxquant.Prelude.Lists.{All, length, take, All-map, All-take}

module _ {ℓ} {A : Type ℓ} where
  unfoldable pub insert_ordered : (A → A → Bool) → A → List A → List A
  insert_ordered before r [] = r ∷ []
  insert_ordered before r (x ∷ xs) =
      if before r x then r ∷ x ∷ xs else x ∷ insert_ordered before r xs

  unfoldable pub order_by : (A → A → Bool) → List A → List A
  unfolding insert_ordered
  order_by before [] = []
  order_by before (x ∷ xs) = insert_ordered before x (order_by before xs)

  -- Every row comes before each later one.
  abbrev pub IsOrdered : (A → A → Bool) → List A → Type 0
  IsOrdered before [] = Unit
  IsOrdered before (x ∷ xs) = All (λ y. before x y ≡ true) xs × IsOrdered before xs

module _ {ℓ κ} {A : Type ℓ} (P : A → Type κ) (before : A → A → Bool) where
  All-insert_ordered : (r : A) (xs : List A) → P r → All P xs → All P (insert_ordered before r xs)
  unfolding insert_ordered
  All-insert_ordered r [] k h = (k, tt)
  All-insert_ordered r (x ∷ xs) k h = elim (Bool-cases (before r x)) [
    | inl e ↦ rw e (k, h)
    | inr e ↦ rw e (h.0, All-insert_ordered r xs k h.1)
  ]

  pub All-order_by : (xs : List A) → All P xs → All P (order_by before xs)
  unfolding order_by
  All-order_by [] h = tt
  All-order_by (x ∷ xs) h = All-insert_ordered x (order_by before xs) h.0 (All-order_by xs h.1)

module _ {ℓ} {A : Type ℓ} (before : A → A → Bool) where
  length-insert_ordered :
      (r : A) (xs : List A) → length (insert_ordered before r xs) ≡ length xs + 1
  unfolding insert_ordered
  length-insert_ordered r [] = omega arith
  length-insert_ordered r (x ∷ xs) = ground (arith, length-insert_ordered r xs)

  pub length-order_by : (xs : List A) → length (order_by before xs) ≡ length xs
  unfolding order_by
  length-order_by [] = refl
  length-order_by (x ∷ xs) =
      omega (arith, length-order_by xs, length-insert_ordered x (order_by before xs))

module _ {ℓ} {A : Type ℓ} (before : A → A → Bool) (q : A → Bool) where
  count_where-insert_ordered :
      (r : A) (xs : List A) → count_where q (insert_ordered before r xs) ≡ count_where q (r ∷ xs)
  unfolding insert_ordered count_where
  count_where-insert_ordered r [] = refl
  count_where-insert_ordered r (x ∷ xs) = elim (Bool-cases (before r x)) [
    | inl e ↦ rw e refl
    | inr e ↦ rw e (ground (arith, count_where-insert_ordered r xs))
  ]

  pub count_where-order_by : (xs : List A) → count_where q (order_by before xs) ≡ count_where q xs
  unfolding order_by count_where
  count_where-order_by [] = refl
  count_where-order_by (x ∷ xs) =
      let h = count_where-order_by xs in
      count_where-insert_ordered x (order_by before xs) ∙ rw h refl

module _ {ℓ} {A : Type ℓ} (q : A → Bool) where
  pub count_where-take : (n : ℕ) (xs : List A) → count_where q (take n xs) ≤ count_where q xs
  unfolding count_where
  count_where-take zero xs = omega arith
  count_where-take (suc n) [] = omega arith
  count_where-take (suc n) (x ∷ xs) = ground (arith, count_where-take n xs)

module _ {ℓ} {A : Type ℓ} {before : A → A → Bool}
    (total : (x y : A) → before x y ≡ false → before y x ≡ true)
    (transitive : (x y z : A) → before x y ≡ true → before y z ≡ true → before x z ≡ true) where
  insert_ordered-IsOrdered :
      (r : A) (xs : List A) → IsOrdered before xs → IsOrdered before (insert_ordered before r xs)
  unfolding insert_ordered
  insert_ordered-IsOrdered r [] h = (tt, tt)
  insert_ordered-IsOrdered r (x ∷ xs) h = elim (Bool-cases (before r x)) [
    | inl e ↦ rw e (
      (
        e,
        All-map (λ y. before x y ≡ true) (λ y. before r y ≡ true) (λ y b. transitive r x y e b) xs
            h.0,
      ),
      h,
    )
    | inr e ↦ rw e (
      All-insert_ordered (λ y. before x y ≡ true) before r xs (total r x e) h.0,
      insert_ordered-IsOrdered r xs h.1,
    )
  ]

  pub order_by-IsOrdered : (xs : List A) → IsOrdered before (order_by before xs)
  unfolding order_by
  order_by-IsOrdered [] = tt
  order_by-IsOrdered (x ∷ xs) =
      insert_ordered-IsOrdered x (order_by before xs) (order_by-IsOrdered xs)

module _ {ℓ} {A : Type ℓ} (before : A → A → Bool) where
  pub IsOrdered-take : (n : ℕ) (xs : List A) → IsOrdered before xs → IsOrdered before (take n xs)
  IsOrdered-take zero xs h = tt
  IsOrdered-take (suc n) [] h = tt
  IsOrdered-take (suc n) (x ∷ xs) h =
      (All-take (λ y. before x y ≡ true) n xs h.0, IsOrdered-take n xs h.1)
