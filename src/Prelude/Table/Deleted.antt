-- ===== src/Prelude/Table/Deleted.antt =====
-- DELETE, and one row of a table under an update.
use Prim.Native.Nat.{ℕ, ◌≤◌}
use mathlib.Core.Path.{◌≡◌, refl, ap}
use mathlib.Core.Logic.{inl, inr}
use mathlib.Core.Bool.{Bool, true, false}
use mathlib.Core.Option.{Option, none, some}
use mathlib.Core.List.{List, [], ◌∷◌}
use native.Mathlib.Omega.{arith}
use okxquant.Prelude.Tests.{◌==◌, if◌then◌else◌, Bool-cases}
use okxquant.Prelude.Lists.{All}
use okxquant.Prelude.Table.Rows.{update, fetch_one, insert}
use okxquant.Prelude.Table.Keyed.{Distinct, IsKeyed, same_id}

module _ {ℓ} {A : Type ℓ} where
  -- DELETE FROM t WHERE p.
  unfoldable pub delete : (A → Bool) → List A → List A
  delete p [] = []
  delete p (x ∷ xs) = if p x then delete p xs else x ∷ delete p xs

  -- Of the row that a query finds, after an update: `none` where there is none.
  abbrev pub updated : (A → Bool) → (A → A) → Option A → Option A
  updated p f none = none
  updated p f (some x) = some (if p x then f x else x)

  pub fetch_one-update :
      (q p : A → Bool) (f : A → A)
      → ((x : A) → q (f x) ≡ q x)
      → (xs : List A) → fetch_one q (update p f xs) ≡ updated p f (fetch_one q xs)
  unfolding fetch_one update
  fetch_one-update q p f keep [] = refl
  fetch_one-update q p f keep (x ∷ xs) = ground (arith, keep x, fetch_one-update q p f keep xs)

  pub All-deleted : (p : A → Bool) (xs : List A) → All (λ x. p x ≡ false) (delete p xs)
  unfolding delete
  All-deleted p [] = tt
  All-deleted p (x ∷ xs) = elim (Bool-cases (p x)) [
    | inl e ↦ rw e (All-deleted p xs)
    | inr e ↦ rw e (e, All-deleted p xs)
  ]

module _ {ℓ κ} {A : Type ℓ} (P : A → Type κ) where
  pub All-delete : (p : A → Bool) (xs : List A) → All P xs → All P (delete p xs)
  unfolding delete
  All-delete p [] h = tt
  All-delete p (x ∷ xs) h = elim (Bool-cases (p x)) [
    | inl e ↦ rw e (All-delete p xs h.1)
    | inr e ↦ rw e (h.0, All-delete p xs h.1)
  ]

  -- Rows that an update may change in the light of what is known of all of them.
  pub All-fetch_one :
      (p : A → Bool) (xs : List A) {r : A} → All P xs → fetch_one p xs ≡ some r → P r
  unfolding fetch_one
  All-fetch_one p [] h e = cc
  All-fetch_one p (x ∷ xs) {r} h e = elim (Bool-cases (p x)) [
    | inl t ↦ let same : x ≡ r = ground arith in rw (← same) h.0
    | inr t ↦ All-fetch_one p xs h.1 (ground arith)
  ]

module _ {ℓ} {A : Type ℓ} (same : A → A → Bool) where
  pub Distinct-delete :
      (p : A → Bool) (xs : List A) → Distinct same xs → Distinct same (delete p xs)
  unfolding delete
  Distinct-delete p [] h = tt
  Distinct-delete p (x ∷ xs) h = elim (Bool-cases (p x)) [
    | inl e ↦ rw e (Distinct-delete p xs h.1)
    | inr e ↦ rw e (All-delete (λ y. same x y ≡ false) p xs h.0, Distinct-delete p xs h.1)
  ]

pub IsKeyed-delete {ℓ} :
    {A : Type ℓ} (id : A → ℕ) (p : A → Bool) (seq : ℕ) (xs : List A)
    → IsKeyed id seq xs
    → IsKeyed id seq (delete p xs)
IsKeyed-delete id p seq xs h = record {
  bounded = All-delete (λ x. id x ≤ seq) p xs h.bounded;
  distinct = Distinct-delete (same_id id) p xs h.distinct;
}

module _ {ℓ} {A : Type ℓ} where
  -- A row that comes to a table in which a query finds nothing.
  pub fetch_one-insert :
      (p : A → Bool) (xs : List A) (r : A)
      → fetch_one p xs ≡ none
      → p r ≡ true
      → fetch_one p (insert r xs) ≡ some r
  unfolding fetch_one insert
  fetch_one-insert p [] r e h = rw h
  fetch_one-insert p (x ∷ xs) r e h = ground (arith, fetch_one-insert p xs r)

  -- Two queries find the same row, if the rows with its id are that row.
  pub fetch_one-only :
      (id : A → ℕ) (p q : A → Bool) (xs : List A) (r : A)
      → All (λ x. (id x == id r) ≡ true → x ≡ r) xs
      → fetch_one p xs ≡ some r
      → q r ≡ true
      → ((x : A) → q x ≡ true → (id x == id r) ≡ true)
      → fetch_one q xs ≡ some r
  unfolding fetch_one
  fetch_one-only id p q [] r only e h key = cc
  fetch_one-only id p q (x ∷ xs) r only e h key = elim (Bool-cases (q x)) [
    | inl t ↦ let same = only.0 (key x t) in rw t (ap (λ y. some y) same)
    | inr t ↦ elim (Bool-cases (p x)) [
      | inl k ↦ let same : x ≡ r = ground arith in absurd (cc (h, t, ap q same))
      | inr k ↦ rw t (fetch_one-only id p q xs r only.1 (ground arith) h key)
    ]
  ]
