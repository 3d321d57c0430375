-- ===== src/Prelude/Table/Keyed.antt =====
-- PRIMARY KEY AUTOINCREMENT and UNIQUE constraints, and the statements that keep them.
use Prim.Native.Nat.{ℕ, ◌+◌, ◌≤◌}
use mathlib.Core.Path.{◌≡◌, ap}
use mathlib.Core.Logic.{inl, inr}
use mathlib.Core.Bool.{Bool, true, false}
use mathlib.Core.Option.{some}
use mathlib.Core.List.{List, [], ◌∷◌, ◌++◌}
use native.Mathlib.Omega.{arith}
use okxquant.Prelude.Tests.{Bool-cases, ◌==◌}
use okxquant.Prelude.Lists.{All, any_of, All-append, All-any_of, All-map, All-always}
use okxquant.Prelude.Table.Rows.{
  update, insert, insert_or_ignore, All-update, fetch_one, fetch_one-holds, update-ext,
}

module _ {ℓ} {A : Type ℓ} where
  -- No two rows of the table are the same to the constraint.
  abbrev pub Distinct : (A → A → Bool) → List A → Type 0
  Distinct same [] = Unit
  Distinct same (x ∷ xs) = All (λ y. same x y ≡ false) xs × Distinct same xs

module _ {ℓ} {A : Type ℓ} (same : A → A → Bool) where
  -- An update whose new rows violate nothing that the old rows did not.
  pub Distinct-update :
      (p : A → Bool) (f : A → A)
      → ((x y : A) → p y ≡ true → same x y ≡ false → same x (f y) ≡ false)
      → ((x y : A) → p x ≡ true → same x y ≡ false → same (f x) y ≡ false)
      → (xs : List A) → Distinct same xs
      → Distinct same (update p f xs)
  unfolding update
  Distinct-update p f right left [] h = tt
  Distinct-update p f right left (x ∷ xs) h =
      let later : All (λ y. same x y ≡ false) (update p f xs) =
        All-update (λ y. same x y ≡ false) p f (λ y. right x y) xs h.0 in
      elim (Bool-cases (p x)) [
        | inl e ↦ rw e (
          All-map (λ y. same x y ≡ false) (λ y. same (f x) y ≡ false) (λ y. left x y e)
              (update p f xs) later,
          Distinct-update p f right left xs h.1,
        )
        | inr e ↦ rw e (later, Distinct-update p f right left xs h.1)
      ]

  pub Distinct-append :
      (r : A) (xs : List A)
      → Distinct same xs
      → All (λ x. same x r ≡ false) xs
      → Distinct same (xs ++ (r ∷ []))
  Distinct-append r [] h k = (tt, tt)
  Distinct-append r (x ∷ xs) h k =
      (All-append (λ y. same x y ≡ false) xs (r ∷ []) h.0 (k.0, tt), Distinct-append r xs h.1 k.1)

  pub Distinct-insert_or_ignore :
      (r : A) (xs : List A) → Distinct same xs → Distinct same (insert_or_ignore same r xs)
  unfolding insert_or_ignore
  Distinct-insert_or_ignore r xs h = elim (Bool-cases (any_of (λ x. same x r) xs)) [
    | inl e ↦ rw e h
    | inr e ↦ rw e (Distinct-append r xs h (All-any_of (λ x. same x r) xs e))
  ]

  pub Distinct-insert :
      (r : A) (xs : List A)
      → Distinct same xs
      → All (λ x. same x r ≡ false) xs
      → Distinct same (insert r xs)
  unfolding insert
  Distinct-insert = Distinct-append

abbrev pub same_id {ℓ} : {A : Type ℓ} → (A → ℕ) → A → A → Bool
same_id id x y = id x == id y

-- The ids of the rows are distinct, and none is above the table's sequence number.
pub record IsKeyed {ℓ} {A : Type ℓ} (id : A → ℕ) (seq : ℕ) (xs : List A) : Type 0 where
  pub bounded : All (λ x. id x ≤ seq) xs
  pub distinct : Distinct (same_id id) xs

different {ℓ} :
    {A : Type ℓ} (id : A → ℕ) (x y r : A)
    → x ≡ r
    → same_id id x y ≡ false
    → (id y == id r) ≡ true
    → ⊥
different id x y r e other hit = let same : id x ≡ id r = ap id e in ground arith

different_all {ℓ} :
    {A : Type ℓ} (id : A → ℕ) (x r : A) → same_id id x r ≡ false → (id x == id r) ≡ true → ⊥
different_all id x r other hit = ground arith

module _ {ℓ} {A : Type ℓ} (id : A → ℕ) where
  pub IsKeyed-update :
      (p : A → Bool) (f : A → A)
      → ((x : A) → id (f x) ≡ id x)
      → (seq : ℕ) (xs : List A) → IsKeyed id seq xs
      → IsKeyed id seq (update p f xs)
  IsKeyed-update p f keep seq xs h = record {
    bounded = All-update (λ x. id x ≤ seq) p f (λ x _ b. rw (keep x) b) xs h.bounded;
    distinct =
        Distinct-update (same_id id) p f (λ x y _ e. rw (keep y) e) (λ x y _ e. rw (keep x) e) xs
          h.distinct;
  }

  above_seq :
      (seq : ℕ) (r : A) (xs : List A)
      → id r ≡ seq + 1
      → All (λ x. id x ≤ seq) xs
      → All (λ x. same_id id x r ≡ false) xs
  above_seq seq r [] e h = tt
  above_seq seq r (x ∷ xs) e h = (ground arith, above_seq seq r xs e h.1)

  raised : (seq : ℕ) (xs : List A) → All (λ x. id x ≤ seq) xs → All (λ x. id x ≤ seq + 1) xs
  raised seq xs h = All-map (λ x. id x ≤ seq) (λ x. id x ≤ seq + 1) (λ x b. omega arith) xs h

  -- A row inserted under the next sequence number.
  pub IsKeyed-insert :
      (seq : ℕ) (r : A) (xs : List A)
      → id r ≡ seq + 1
      → IsKeyed id seq xs
      → IsKeyed id (seq + 1) (insert r xs)
  unfolding insert
  IsKeyed-insert seq r xs e h = record {
    bounded =
        All-append (λ x. id x ≤ seq + 1) xs (r ∷ []) (raised seq xs h.bounded) (omega arith, tt);
    distinct = Distinct-append (same_id id) r xs h.distinct (above_seq seq r xs e h.bounded);
  }

  -- A row that a query found is the only one with its id.
  pub IsKeyed-only :
      (p : A → Bool) (xs : List A) {r : A}
      → Distinct (same_id id) xs
      → fetch_one p xs ≡ some r
      → All (λ x. (id x == id r) ≡ true → x ≡ r) xs
  unfolding fetch_one
  IsKeyed-only p [] h e = tt
  IsKeyed-only p (x ∷ xs) {r} h e = elim (Bool-cases (p x)) [
    | inl t ↦
        let same : x ≡ r = ground arith in
        (
          (λ _. same),
          All-map (λ y. same_id id x y ≡ false) (λ y. (id y == id r) ≡ true → y ≡ r)
              (λ y other hit. absurd (different id x y r same other hit)) xs h.0,
        )
    | inr t ↦
        let found : fetch_one p xs ≡ some r = ground arith in
        (
          (λ hit. absurd (
              different_all id x r (fetch_one-holds (λ y. same_id id x y ≡ false) p xs h.0 found).0
                hit)),
          IsKeyed-only p xs h.1 found,
        )
  ]

  agrees_at :
      (q : A → Bool) (i : ℕ) (r x : A)
      → id r ≡ i
      → q r ≡ true
      → (q x ≡ true → id x ≡ i)
      → ((id x == id r) ≡ true → x ≡ r)
      → (id x == i) ≡ q x
  agrees_at q i r x at holds key only = elim (Bool-cases (id x == i)) [
    | inl hit ↦ rw (hit, only (rw at hit), holds)
    | inr miss ↦ elim (Bool-cases (q x)) [
      | inl e ↦ let same : id x ≡ i = key e in ground arith
      | inr e ↦ rw (miss, e)
    ]
  ]

  -- An update by the id of a row that a query found updates that row alone, so the rows that
  -- satisfy the query's condition and have the id.
  pub update-found :
      (q : A → Bool) (f : A → A) (i : ℕ) (xs : List A) {r : A}
      → ((x : A) → q x ≡ true → id x ≡ i)
      → Distinct (same_id id) xs
      → fetch_one q xs ≡ some r
      → update (λ x. id x == i) f xs ≡ update q f xs
  update-found q f i xs {r} key h e =
      let holds : q r ≡ true =
        (fetch_one-holds (λ x. Unit {0}) q xs (All-always (λ x. Unit {0}) (λ x. tt) xs) e).1 in
      update-ext (λ x. id x == i) q f xs
        (All-map (λ x. (id x == id r) ≡ true → x ≡ r) (λ x. (id x == i) ≡ q x)
          (λ x. agrees_at q i r x (key r holds) holds (key x)) xs (IsKeyed-only q xs h e))
