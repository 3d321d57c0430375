-- ===== src/Prelude/Table/History.antt =====
-- A table after some statements against the table before: rows are kept, in order, and changed
-- only along a given relation; new rows come at the end.
use mathlib.Core.Path.{◌≡◌}
use mathlib.Core.Logic.{inl, inr}
use mathlib.Core.Bool.{Bool, true}
use mathlib.Core.List.{List, [], ◌∷◌, ◌++◌}
use okxquant.Prelude.Tests.{Bool-cases}
use okxquant.Prelude.Lists.{any_of}
use okxquant.Prelude.Table.Rows.{update, insert, insert_or_ignore}

module _ {ℓ} {A : Type ℓ} where
  abbrev pub Grows : (A → A → Type 0) → List A → List A → Type 0
  Grows R [] ys = Unit
  Grows R (x ∷ xs) [] = ⊥
  Grows R (x ∷ xs) (y ∷ ys) = R x y × Grows R xs ys

  -- The same rows, each changed along the relation.
  abbrev pub Pointwise : (A → A → Type 0) → List A → List A → Type 0
  Pointwise R [] [] = Unit
  Pointwise R [] (y ∷ ys) = ⊥
  Pointwise R (x ∷ xs) [] = ⊥
  Pointwise R (x ∷ xs) (y ∷ ys) = R x y × Pointwise R xs ys

module _ {ℓ} {A : Type ℓ} (R : A → A → Type 0) (reflexive : (x : A) → R x x) where
  pub Grows-refl : (xs : List A) → Grows R xs xs
  Grows-refl [] = tt
  Grows-refl (x ∷ xs) = (reflexive x, Grows-refl xs)

  pub Grows-append : (xs ys : List A) → Grows R xs (xs ++ ys)
  Grows-append [] ys = tt
  Grows-append (x ∷ xs) ys = (reflexive x, Grows-append xs ys)

  pub Grows-insert : (r : A) (xs : List A) → Grows R xs (insert r xs)
  unfolding insert
  Grows-insert r xs = Grows-append xs (r ∷ [])

  pub Grows-insert_or_ignore :
      (same : A → A → Bool) (r : A) (xs : List A) → Grows R xs (insert_or_ignore same r xs)
  unfolding insert_or_ignore
  Grows-insert_or_ignore same r xs = elim (Bool-cases (any_of (λ x. same x r) xs)) [
    | inl e ↦ rw e (Grows-refl xs)
    | inr e ↦ rw e (Grows-append xs (r ∷ []))
  ]

  pub Grows-update :
      (p : A → Bool) (f : A → A)
      → ((x : A) → p x ≡ true → R x (f x))
      → (xs : List A) → Grows R xs (update p f xs)
  unfolding update
  Grows-update p f step [] = tt
  Grows-update p f step (x ∷ xs) = elim (Bool-cases (p x)) [
    | inl e ↦ rw e (step x e, Grows-update p f step xs)
    | inr e ↦ rw e (reflexive x, Grows-update p f step xs)
  ]

module _ {ℓ} {A : Type ℓ} (R : A → A → Type 0) where
  pub Grows-trans :
      ((x y z : A) → R x y → R y z → R x z)
      → (xs ys zs : List A) → Grows R xs ys
      → Grows R ys zs
      → Grows R xs zs
  Grows-trans step [] ys zs g h = tt
  Grows-trans step (x ∷ xs) [] zs g h = absurd g
  Grows-trans step (x ∷ xs) (y ∷ ys) [] g h = absurd h
  Grows-trans step (x ∷ xs) (y ∷ ys) (z ∷ zs) g h =
      (step x y z g.0 h.0, Grows-trans step xs ys zs g.1 h.1)
