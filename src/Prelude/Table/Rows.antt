-- ===== src/Prelude/Table/Rows.antt =====
-- SELECT, UPDATE and INSERT over a list of rows, and what they keep.
use Prim.Native.Nat.{ℕ, ◌+◌}
use mathlib.Core.Path.{◌≡◌, refl}
use mathlib.Core.Logic.{inl, inr}
use mathlib.Core.Bool.{Bool, true, false}
use mathlib.Core.Option.{Option, none, some}
use mathlib.Core.List.{List, [], ◌∷◌, ◌++◌}
use native.Mathlib.Omega.{arith}
use okxquant.Prelude.Tests.{if◌then◌else◌, Bool-cases}
use okxquant.Prelude.Lists.{All, length, any_of, All-append}

module _ {ℓ} {A : Type ℓ} where
  -- SELECT * FROM t WHERE p, in row order.
  unfoldable pub select : (A → Bool) → List A → List A
  select p [] = []
  select p (x ∷ xs) = if p x then x ∷ select p xs else select p xs

  -- UPDATE t SET f WHERE p.
  unfoldable pub update : (A → Bool) → (A → A) → List A → List A
  update p f [] = []
  update p f (x ∷ xs) = (if p x then f x else x) ∷ update p f xs

  -- fetchone() of SELECT * FROM t WHERE p.
  unfoldable pub fetch_one : (A → Bool) → List A → Option A
  fetch_one p [] = none
  fetch_one p (x ∷ xs) = if p x then some x else fetch_one p xs

  -- INSERT INTO t.
  unfoldable pub insert : A → List A → List A
  insert r xs = xs ++ (r ∷ [])

  -- INSERT OR IGNORE INTO t, where `same` is the violated UNIQUE constraint.
  unfoldable pub insert_or_ignore : (A → A → Bool) → A → List A → List A
  insert_or_ignore same r xs = if any_of (λ x. same x r) xs then xs else xs ++ (r ∷ [])

  -- SELECT COUNT(*) FROM t WHERE p.
  unfoldable pub count_where : (A → Bool) → List A → ℕ
  count_where p [] = 0
  count_where p (x ∷ xs) = (if p x then 1 else 0) + count_where p xs

module _ {ℓ κ} {A : Type ℓ} (P : A → Type κ) where
  pub All-select :
      (p : A → Bool) (xs : List A) → All P xs → All (λ x. P x × (p x ≡ true)) (select p xs)
  unfolding select
  All-select p [] h = tt
  All-select p (x ∷ xs) h = elim (Bool-cases (p x)) [
    | inl e ↦ rw e ((h.0, e), All-select p xs h.1)
    | inr e ↦ rw e (All-select p xs h.1)
  ]

  pub All-update :
      (p : A → Bool) (f : A → A)
      → ((x : A) → p x ≡ true → P x → P (f x))
      → (xs : List A) → All P xs
      → All P (update p f xs)
  unfolding update
  All-update p f step [] h = tt
  All-update p f step (x ∷ xs) h = elim (Bool-cases (p x)) [
    | inl e ↦ rw e (step x e h.0, All-update p f step xs h.1)
    | inr e ↦ rw e (h.0, All-update p f step xs h.1)
  ]

  -- What an update gives to the rows that it changes, and the others had.
  pub All-updated :
      (p : A → Bool) (f : A → A)
      → ((x : A) → p x ≡ true → P (f x))
      → ((x : A) → p x ≡ false → P x)
      → (xs : List A) → All P (update p f xs)
  unfolding update
  All-updated p f hit miss [] = tt
  All-updated p f hit miss (x ∷ xs) = elim (Bool-cases (p x)) [
    | inl e ↦ rw e (hit x e, All-updated p f hit miss xs)
    | inr e ↦ rw e (miss x e, All-updated p f hit miss xs)
  ]

  pub All-insert : (r : A) (xs : List A) → All P xs → P r → All P (insert r xs)
  unfolding insert
  All-insert r xs h k = All-append P xs (r ∷ []) h (k, tt)

  pub fetch_one-holds :
      (p : A → Bool) (xs : List A) {r : A} → All P xs → fetch_one p xs ≡ some r → P r × (p r ≡ true)
  unfolding fetch_one
  fetch_one-holds p [] h e = cc
  fetch_one-holds p (x ∷ xs) {r} h e = elim (Bool-cases (p x)) [
    | inl t ↦ let same : x ≡ r = ground arith in rw (← same) (h.0, t)
    | inr t ↦ fetch_one-holds p xs h.1 (ground arith)
  ]

module _ {ℓ} {A : Type ℓ} where
  pub fetch_one-none :
      (p : A → Bool) (xs : List A) → fetch_one p xs ≡ none → All (λ x. p x ≡ false) xs
  unfolding fetch_one
  fetch_one-none p [] e = tt
  fetch_one-none p (x ∷ xs) e = (ground arith, fetch_one-none p xs (ground arith))

  pub fetch_one-refused :
      (p : A → Bool) (xs : List A) → All (λ x. p x ≡ false) xs → fetch_one p xs ≡ none
  unfolding fetch_one
  fetch_one-refused p [] h = refl
  fetch_one-refused p (x ∷ xs) h = rw h.0 (fetch_one-refused p xs h.1)

  pub length-update : (p : A → Bool) (f : A → A) (xs : List A) → length (update p f xs) ≡ length xs
  unfolding update
  length-update p f [] = refl
  length-update p f (x ∷ xs) = omega (arith, length-update p f xs)

  pub select-none : (p : A → Bool) (xs : List A) → All (λ x. p x ≡ false) xs → select p xs ≡ []
  unfolding select
  select-none p [] h = refl
  select-none p (x ∷ xs) h = rw h.0 (select-none p xs h.1)

  pub update-none :
      (p : A → Bool) (f : A → A) (xs : List A) → All (λ x. p x ≡ false) xs → update p f xs ≡ xs
  unfolding update
  update-none p f [] h = refl
  update-none p f (x ∷ xs) h = rw (h.0, update-none p f xs h.1)

  pub update-ext :
      (p q : A → Bool) (f : A → A) (xs : List A)
      → All (λ x. p x ≡ q x) xs
      → update p f xs ≡ update q f xs
  unfolding update
  update-ext p q f [] h = refl
  update-ext p q f (x ∷ xs) h = rw (h.0, update-ext p q f xs h.1)

  pub any_of-update :
      (q p : A → Bool) (f : A → A)
      → ((x : A) → q (f x) ≡ q x)
      → (xs : List A) → any_of q (update p f xs) ≡ any_of q xs
  unfolding update
  any_of-update q p f keep [] = refl
  any_of-update q p f keep (x ∷ xs) = elim (Bool-cases (p x)) [
    | inl e ↦ rw (e, keep x, any_of-update q p f keep xs)
    | inr e ↦ rw (e, any_of-update q p f keep xs)
  ]
