-- ===== src/Backend/Admin/RulerRows.antt =====
-- Proofs on the rows of admin_users that an update leaves, for set_enabled of okxquant_backend/admin_auth.py.
use okxquant.Prelude.{
  ℕ, Bool, true, false, ◌≡◌, refl, inl, inr, List, [], ◌∷◌, arith, Bool-cases, All, any_of, ◌==◌,
}
use okxquant.Prelude.Table.{update, insert, count_where, Distinct}
use okxquant.Backend.Admin.Accounts.{User}
use okxquant.Prelude.{◌≤◌}
use okxquant.Prelude.Table.{update-none, same_id}
use okxquant.Backend.Admin.Valid.{user_id}

pub any_of-append :
    (q : User → Bool) (xs : List User) (r : User)
    → any_of q xs ≡ true
    → any_of q (insert r xs) ≡ true
unfolding insert
any_of-append q [] r h = cc
any_of-append q (x ∷ xs) r h = ground (arith, any_of-append q xs r)

-- An update that loses none of the rows in question.
pub any_of_kept :
    (q p : User → Bool) (f : User → User)
    → ((x : User) → q x ≡ true → q (f x) ≡ true)
    → (xs : List User) → any_of q xs ≡ true
    → any_of q (update p f xs) ≡ true
unfolding update
any_of_kept q p f keep [] h = cc
any_of_kept q p f keep (x ∷ xs) h = ground (arith, keep x, any_of_kept q p f keep xs)

any_of_counted : (q : User → Bool) (xs : List User) → 1 ≤ count_where q xs → any_of q xs ≡ true
unfolding count_where
any_of_counted q [] h = absurd (omega arith)
any_of_counted q (x ∷ xs) h = ground (arith, any_of_counted q xs)

others_differ :
    (i : ℕ) (x : User) (xs : List User)
    → (x.id == i) ≡ true
    → All (λ y. same_id user_id x y ≡ false) xs
    → All (λ y. (y.id == i) ≡ false) xs
others_differ i x [] e h = tt
others_differ i x (y ∷ xs) e h = (ground arith, others_differ i x xs e h.1)

-- Of two rows in question one is left when the row of one id is lost.
pub survivor :
    (q : User → Bool) (i : ℕ) (f : User → User) (xs : List User)
    → Distinct (same_id user_id) xs
    → 2 ≤ count_where q xs
    → any_of q (update (λ x. x.id == i) f xs) ≡ true
unfolding update count_where
survivor q i f [] d h = absurd (omega arith)
survivor q i f (x ∷ xs) d h = elim (Bool-cases (x.id == i)) [
  | inl e ↦
      let rest = update-none (λ x. x.id == i) f xs (others_differ i x xs e d.0) in
      let some_left = any_of_counted q xs (ground arith) in rw rest (ground arith)
  | inr e ↦ elim (Bool-cases (q x)) [
    | inl k ↦ rw (e, k) refl
    | inr k ↦ rw (e, k) (survivor q i f xs d.1 (ground arith))
  ]
]

-- Rows of the id are none in question.
pub untouched :
    (q : User → Bool) (i : ℕ) (f : User → User) (xs : List User)
    → All (λ x. (x.id == i) ≡ true → q x ≡ false) xs
    → any_of q xs ≡ true
    → any_of q (update (λ x. x.id == i) f xs) ≡ true
unfolding update
untouched q i f [] d h = cc
untouched q i f (x ∷ xs) d h = elim (Bool-cases (x.id == i)) [
  | inl e ↦
      let no = d.0 e in
      let rest : any_of q xs ≡ true = ground arith in ground (arith, untouched q i f xs d.1 rest)
  | inr e ↦ ground (arith, untouched q i f xs d.1)
]
