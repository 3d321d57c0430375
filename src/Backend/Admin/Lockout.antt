-- ===== src/Backend/Admin/Lockout.antt =====
-- Proofs on login of okxquant_backend/admin_auth.py: wrong passwords in a row.
use okxquant.Prelude.{
  ℕ, ◌+◌, Text, true, false, ◌≡◌, refl, inl, inr, Option, some, List, [], ◌∷◌, arith, Bool-cases,
  All, ◌==◌, ltb, leb,
}
use okxquant.Prelude.Table.{fetch_one}
use okxquant.Backend.Admin.Accounts.{User, AdminDb, Platform, is_named, strip}
use okxquant.Backend.Admin.Login.{
  matches_hash, set_failures, lock_until, fail_login, login_row, login,
}
use okxquant.Prelude.{◌⊎◌, ◌≤◌, ◌<◌, ◌/◌, ◌-◌, max, length, ◌∙◌}
use okxquant.Prelude.Table.{fetch_one-update}
use okxquant.Backend.Admin.Login.{refused, locked}

-- The row of a name, as login reads it.
abbrev pub named : Platform → Text → AdminDb → Option User
named p username db = fetch_one (is_named (strip p.is_space username)) db.users

-- Logins with one name, each with a time and a password (and no use of the token).
unfoldable pub guess : Platform → Text → List (ℕ × Text) → AdminDb → AdminDb
guess p username [] db = db
guess p username ((now, password) ∷ rest) db =
    guess p username rest (login p now username password [] db).1

-- Guesses in the quarter of an hour from `t` on, each of them wrong for the user's row.
abbrev pub IsWrong : Platform → ℕ → User → ℕ × Text → Type 0
IsWrong p t u (now, password) = (t ≤ now) × (now < t + 900) × (matches_hash p password u ≡ false)

-- The row after some guesses: the same hash, and enough failures or a lock.
record Watched (t left : ℕ) (u w : User) : Type 0 where
  hash : w.password_hash ≡ u.password_hash
  salt : w.salt ≡ u.salt
  iterations : w.iterations ≡ u.iterations
  enabled : w.enabled ≡ true
  closing :
      ((5 ≤ w.failed_attempts + left) × (w.locked_until ≤ t) × (1 ≤ left))
      ⊎ (t + 900 ≤ w.locked_until)

same_check :
    (p : Platform) (password : Text) (u w : User)
    → w.password_hash ≡ u.password_hash
    → w.salt ≡ u.salt
    → w.iterations ≡ u.iterations
    → matches_hash p password w ≡ matches_hash p password u
unfolding matches_hash
same_check p password u w a b c = rw (a, b, c) refl

lock_closing :
    (t now failures left : ℕ)
    → t ≤ now
    → 5 ≤ failures + left
    → ((5 ≤ failures + left) × (lock_until now failures ≤ t) × (1 ≤ left))
      ⊎ (t + 900 ≤ lock_until now failures)
unfolding lock_until
lock_closing t now failures left h k = elim (Bool-cases (leb 5 failures)) [
  | inl e ↦ rw e (inr (omega arith))
  | inr e ↦ rw e (inl (k, omega arith, ground arith))
]

-- The row after a failure.
failed-Watched :
    (t left now : ℕ) (u w : User)
    → t ≤ now
    → 5 ≤ w.failed_attempts + (left + 1)
    → Watched t (left + 1) u w
    → Watched t left u
        (set_failures now (w.failed_attempts + 1) (lock_until now (w.failed_attempts + 1)) w)
failed-Watched t left now u w h k v = record {
  hash = v.hash;
  salt = v.salt;
  iterations = v.iterations;
  enabled = v.enabled;
  closing = lock_closing t now (w.failed_attempts + 1) left h (omega arith);
}

named-failed :
    (p : Platform) (username : Text) (now : ℕ) (w : User) (db : AdminDb)
    → named p username db ≡ some w
    → named p username (fail_login now w db).1
      ≡ some (set_failures now (w.failed_attempts + 1) (lock_until now (w.failed_attempts + 1)) w)
unfolding fail_login
named-failed p username now w db e =
    let f = set_failures now (w.failed_attempts + 1) (lock_until now (w.failed_attempts + 1)) in
    fetch_one-update (is_named (strip p.is_space username)) (λ v. v.id == w.id) f
      (λ x. unfold is_named in refl) db.users
    ∙ rw e (let at : (w.id == w.id) ≡ true = ground arith in rw at refl)

still :
    (t left now : ℕ) (u w : User)
    → t ≤ now
    → ltb now w.locked_until ≡ true
    → Watched t (left + 1) u w
    → Watched t left u w
still t left now u w h l v = record {
  hash = v.hash;
  salt = v.salt;
  iterations = v.iterations;
  enabled = v.enabled;
  closing = elim v.closing [ inl c ↦ let open_now = c.1 in absurd (ground arith) | inr c ↦ inr c ];
}

unlocked_open :
    (t left now : ℕ) (u w : User)
    → now < t + 900
    → ltb now w.locked_until ≡ false
    → Watched t left u w
    → 5 ≤ w.failed_attempts + left
unlocked_open t left now u w h l v = elim v.closing [ inl c ↦ c.0 | inr c ↦ absurd (ground arith) ]

-- One wrong guess.
guessed :
    (p : Platform) (t left now : ℕ) (username password : Text) (u w : User) (db : AdminDb)
    → named p username db ≡ some w
    → IsWrong p t u (now, password)
    → Watched t (left + 1) u w
    → (x : User) × (named p username (login p now username password [] db).1 ≡ some x)
      × Watched t left u x
unfolding login login_row
guessed p t left now username password u w db e wrong h =
    let miss : matches_hash p password w ≡ false =
      same_check p password u w h.hash h.salt h.iterations ∙ wrong.2 in
    elim (Bool-cases (ltb now w.locked_until)) [
      | inl l ↦ rw (e, h.enabled, l) (w, e, still t left now u w wrong.0 l h)
      | inr l ↦
          rw (e, h.enabled, l, miss)
            (
              set_failures now (w.failed_attempts + 1) (lock_until now (w.failed_attempts + 1)) w,
              named-failed p username now w db e,
              failed-Watched t left now u w wrong.0 (unlocked_open t (left + 1) now u w wrong.1 l h)
                  h,
            )
    ]

guess-Watched :
    (p : Platform) (t : ℕ) (username : Text) (guesses : List (ℕ × Text)) (u w : User) (db : AdminDb)
    → named p username db ≡ some w
    → All (IsWrong p t u) guesses
    → Watched t (length guesses) u w
    → (x : User) × (named p username (guess p username guesses db) ≡ some x) × Watched t 0 u x
unfolding guess
guess-Watched p t username [] u w db e wrong h = (w, e, h)
guess-Watched p t username ((now, password) ∷ rest) u w db e wrong h =
    let more : Watched t (length rest + 1) u w = record {
      hash = h.hash;
      salt = h.salt;
      iterations = h.iterations;
      enabled = h.enabled;
      closing = elim h.closing [
        | inl c ↦ inl (omega (arith, c.0), c.1, omega (arith, c.2))
        | inr c ↦ inr c
      ];
    } in
    let (x, found, after) = guessed p t (length rest) now username password u w db e wrong.0 more in
    guess-Watched p t username rest u x (login p now username password [] db).1 found wrong.1 after

-- Nobody tries more than a few passwords on one account: if an enabled account that is not locked
-- at `t` gets one or more wrong passwords in the quarter of an hour from then on, five or more with
-- the failures that it already counts, and nothing else is called in between, then a further login
-- in that time is refused as locked, with the right password too, and changes nothing.
pub guess-locked :
    (p : Platform) (t later : ℕ) (username password token : Text) (guesses : List (ℕ × Text))
    (u : User) (db : AdminDb)
    → named p username db ≡ some u
    → u.enabled ≡ true
    → u.locked_until ≤ t
    → 1 ≤ length guesses
    → 5 ≤ u.failed_attempts + length guesses
    → All (IsWrong p t u) guesses
    → later < t + 900
    → let db' = guess p username guesses db in
      (minutes : ℕ) × (login p later username password token db' ≡ (refused (locked minutes), db'))
unfolding login login_row
guess-locked p t later username password token guesses u db e enabled free some_guess enough wrong
      soon =
    let (x, found, after) = guess-Watched p t username guesses u u db e wrong record {
      hash = refl;
      salt = refl;
      iterations = refl;
      enabled = enabled;
      closing = inl (enough, free, some_guess);
    } in
    let shut : ltb later x.locked_until ≡ true = elim after.closing [
      | inl c ↦ absurd (omega (arith, c.2))
      | inr c ↦ ground arith
    ] in
    ((max 1 (x.locked_until - later) + 59) / 60, rw (found, after.enabled, shut) refl)
