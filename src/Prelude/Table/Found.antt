-- ===== src/Prelude/Table/Found.antt =====
-- A row that a query finds, when rows come after it; and rows that a constraint keeps apart.
use Prim.Native.Nat.{◌≤◌}
use mathlib.Core.Path.{◌≡◌, refl}
use mathlib.Core.Logic.{inl, inr}
use mathlib.Core.Bool.{Bool, true, false}
use mathlib.Core.Option.{some}
use mathlib.Core.List.{List, [], ◌∷◌, ◌++◌}
use native.Mathlib.Omega.{arith}
use okxquant.Prelude.Tests.{Bool-cases}
use okxquant.Prelude.Lists.{All, All-append}
use okxquant.Prelude.Table.Rows.{fetch_one, insert_or_ignore, count_where}
use okxquant.Prelude.Table.Keyed.{Distinct}
use okxquant.Prelude.Lists.{any_of}

module _ {ℓ} {A : Type ℓ} where
  pub fetch_one-append :
      (p : A → Bool) (xs ys : List A) {r : A}
      → fetch_one p xs ≡ some r
      → fetch_one p (xs ++ ys) ≡ some r
  unfolding fetch_one
  fetch_one-append p [] ys e = cc
  fetch_one-append p (x ∷ xs) ys {r} e = elim (Bool-cases (p x)) [
    | inl t ↦ rw t (rw t at e)
    | inr t ↦ rw t (fetch_one-append p xs ys (rw t at e))
  ]

  pub fetch_one-insert_or_ignore :
      (p : A → Bool) (same : A → A → Bool) (n : A) (xs : List A) {r : A}
      → fetch_one p xs ≡ some r
      → fetch_one p (insert_or_ignore same n xs) ≡ some r
  unfolding insert_or_ignore
  fetch_one-insert_or_ignore p same n xs e = elim (Bool-cases (any_of (λ x. same x n) xs)) [
    | inl t ↦ rw t e
    | inr t ↦ rw t (fetch_one-append p xs (n ∷ []) e)
  ]

module _ {ℓ κ} {A : Type ℓ} (P : A → Type κ) where
  pub All-insert_or_ignore :
      (same : A → A → Bool) (n : A) (xs : List A)
      → All P xs
      → P n
      → All P (insert_or_ignore same n xs)
  unfolding insert_or_ignore
  All-insert_or_ignore same n xs h k = elim (Bool-cases (any_of (λ x. same x n) xs)) [
    | inl t ↦ rw t h
    | inr t ↦ rw t (All-append P xs (n ∷ []) h (k, tt))
  ]

-- A query whose rows are all the same to a UNIQUE constraint finds one at most.
module _ {ℓ κ} {A : Type ℓ} (P : A → Type κ) (same : A → A → Bool) (q : A → Bool)
    (join : (x y : A) → P x → P y → q x ≡ true → q y ≡ true → same x y ≡ true) where
  none_after :
      (x : A) (xs : List A)
      → P x
      → q x ≡ true
      → All P xs
      → All (λ y. same x y ≡ false) xs
      → count_where q xs ≡ 0
  unfolding count_where
  none_after x [] h t k d = refl
  none_after x (y ∷ ys) h t k d = elim (Bool-cases (q y)) [
    | inl e ↦ absurd (cc (join x y h k.0 t e, d.0))
    | inr e ↦ rw e (omega (arith, none_after x ys h t k.1 d.1))
  ]

  pub count_where-Distinct : (xs : List A) → All P xs → Distinct same xs → count_where q xs ≤ 1
  unfolding count_where
  count_where-Distinct [] k d = omega arith
  count_where-Distinct (x ∷ xs) k d = elim (Bool-cases (q x)) [
    | inl e ↦ let rest = none_after x xs k.0 e k.1 d.0 in rw (e, rest) (omega arith)
    | inr e ↦ rw e (omega (arith, count_where-Distinct xs k.1 d.1))
  ]
