-- ===== src/Backend/Admin/Rulers.antt =====
-- Proofs on set_enabled and the other calls of okxquant_backend/admin_auth.py: the superadministrators.
use okxquant.Prelude.{
  ℕ, ◌+◌, Text, Bool, true, false, ◌≡◌, refl, inl, inr, Option, none, some, List, [], ◌∷◌, arith,
  Bool-cases, All, any_of, ◌==◌, not, ltb, leb, ◌&&◌,
}
use okxquant.Prelude.Table.{fetch_one, delete, count_where, Distinct}
use okxquant.Backend.Admin.Accounts.{
  Role, User, Session, AdminDb, Platform, is_named, is_super, is_ruler, password_valid, is_username,
  strip,
}
use okxquant.Backend.Admin.Login.{
  matches_hash, set_failures, set_logged_in, lock_until, fail_login, is_expired, has_token,
  open_session, login_row, login,
}
use okxquant.Backend.Admin.Sessions.{see, is_live, validate_session, logout, logout_user, is_blank}
use okxquant.Backend.Admin.Manage.{
  add_user, create_user, initialize_from_legacy, has_users, set_unlocked, unlock_found, unlock_user,
  set_password, change_password, set_user_enabled, write_enabled, enable_found, set_enabled,
}
use okxquant.Backend.Admin.Actions.{
  Action, create, initialize, enter, validate, leave, leave_all, unlock, change, enable, kept,
  kept_with, perform, perform_all,
}
use okxquant.Prelude.{All-map, All-always}
use okxquant.Prelude.Table.{same_id, IsKeyed-only, fetch_one-holds}
use okxquant.Backend.Admin.Valid.{IsSound, user_id}
use okxquant.Backend.Admin.Valid.Perform.{perform-IsSound}
use okxquant.Backend.Admin.RulerRows.{any_of-append, any_of_kept, survivor, untouched}

-- There is a superadministrator who is enabled.
abbrev pub IsRuled : AdminDb → Type 0
IsRuled db = any_of is_ruler db.users ≡ true

login-IsRuled :
    (p : Platform) (now : ℕ) (password token : Text) (db : AdminDb) (o : Option User)
    → IsRuled db
    → IsRuled (login_row p now password token db o).1
unfolding login_row
login-IsRuled p now password token db none h = h
login-IsRuled p now password token db (some u) h = elim (Bool-cases u.enabled) [
  | inr e ↦ rw e h
  | inl e ↦ rw e (elim (Bool-cases (ltb now u.locked_until)) [
    | inl l ↦ rw l h
    | inr l ↦ rw l (elim (Bool-cases (matches_hash p password u)) [
      | inr m ↦ rw m (
          unfold fail_login in
          any_of_kept is_ruler (λ v. v.id == u.id)
            (set_failures now (u.failed_attempts + 1) (lock_until now (u.failed_attempts + 1)))
            (λ x k. unfold is_ruler in k) db.users h)
      | inl m ↦ rw m (
          unfold open_session in
          elim (Bool-cases
            (any_of (has_token (p.sha256 token)) (delete (is_expired now) db.sessions))) [
              | inl t ↦ rw t h
              | inr t ↦ rw t (
                  any_of_kept is_ruler (λ v. v.id == u.id) (set_logged_in now)
                    (λ x k. unfold is_ruler in k) db.users h)
            ])
    ])
  ])
]

create-IsRuled :
    (p : Platform) (now : ℕ) (username password salt : Text) (role : Role) (db : AdminDb)
    → IsRuled db
    → IsRuled (kept_with db (create_user p now username password salt role db))
unfolding create_user add_user
create-IsRuled p now username password salt role db h =
    elim (Bool-cases (is_username (strip p.is_space username))) [
      | inr e ↦ rw e h
      | inl e ↦ rw e (elim (Bool-cases (password_valid p password)) [
        | inr k ↦ rw k h
        | inl k ↦ rw k (elim (Bool-cases (any_of (is_named (strip p.is_space username)) db.users)) [
          | inl t ↦ rw t h
          | inr t ↦ rw t (any_of-append is_ruler db.users _ h)
        ])
      ])
    ]

has_users-IsRuled :
    (users : List User) → any_of is_ruler users ≡ true → any_of (λ (u : User). true) users ≡ true
has_users-IsRuled [] h = h
has_users-IsRuled (u ∷ users) h = refl

see-IsRuled : (now : ℕ) (db : AdminDb) (o : Option Session) → IsRuled db → IsRuled (see now db o).1
unfolding see
see-IsRuled now db none h = h
see-IsRuled now db (some s) h = h

validate-IsRuled :
    (p : Platform) (now : ℕ) (token : Text) (db : AdminDb)
    → IsRuled db
    → IsRuled (validate_session p now token db).1
unfolding validate_session
validate-IsRuled p now token db h = elim (Bool-cases (is_blank token)) [
  | inl e ↦ rw e h
  | inr e ↦
      rw e (see-IsRuled now db (fetch_one (is_live now (p.sha256 token) db.users) db.sessions) h)
]

-- The rows of an id are the row that was found.
ids_found :
    (i : ℕ) (users : List User) (u : User)
    → Distinct (same_id user_id) users
    → fetch_one (λ w. w.id == i) users ≡ some u
    → All (λ x. (x.id == i) ≡ true → x ≡ u) users
ids_found i users u d e =
    let at : (u.id == i) ≡ true =
      (fetch_one-holds (λ (w : User). Unit {0}) (λ w. w.id == i) users
        (All-always (λ (w : User). Unit {0}) (λ w. tt) users) e).1 in
    All-map (λ (x : User). (x.id == u.id) ≡ true → x ≡ u) (λ x. (x.id == i) ≡ true → x ≡ u)
      (λ x only hit. only (ground arith)) users (IsKeyed-only user_id (λ w. w.id == i) users d e)

enable_found-IsRuled :
    (now i : ℕ) (enabled : Bool) (db : AdminDb) (o : Option User)
    → fetch_one (λ u. u.id == i) db.users ≡ o
    → IsSound db
    → IsRuled db
    → IsRuled (kept db (enable_found now i enabled db o))
unfolding enable_found
enable_found-IsRuled now i enabled db none e v h = h
enable_found-IsRuled now i true db (some u) e v h =
    unfold write_enabled in
    any_of_kept is_ruler (λ w. w.id == i) (set_user_enabled now true)
      (λ x k. unfold is_ruler in ground arith) db.users h
enable_found-IsRuled now i false db (some u) e v h = elim (Bool-cases (is_ruler u)) [
  | inl r ↦ elim (Bool-cases (leb (count_where is_ruler db.users) 1)) [
    | inl few ↦
        let both : (is_super u.role && u.enabled) ≡ true = unfold is_ruler in r in rw (both, few) h
    | inr more ↦
        let both : (is_super u.role && u.enabled) ≡ true = unfold is_ruler in r in
        rw (both, more)
          (unfold write_enabled in
            survivor is_ruler i (set_user_enabled now false) db.users v.user_keys.distinct
              (ground arith))
  ]
  | inr r ↦
      let both : (is_super u.role && u.enabled) ≡ false = unfold is_ruler in r in
      rw both (
        unfold write_enabled in
        untouched is_ruler i (set_user_enabled now false) db.users
          (All-map (λ x. (x.id == i) ≡ true → x ≡ u) (λ x. (x.id == i) ≡ true → is_ruler x ≡ false)
            (λ x same hit. rw (same hit) r) db.users
            (ids_found i db.users u v.user_keys.distinct e))
          h)
]

enable-IsRuled :
    (now i : ℕ) (enabled : Bool) (actor : ℕ) (db : AdminDb)
    → IsSound db
    → IsRuled db
    → IsRuled (kept db (set_enabled now i enabled actor db))
unfolding set_enabled
enable-IsRuled now i enabled actor db v h = elim (Bool-cases (i == actor && not enabled)) [
  | inl e ↦ rw e h
  | inr e ↦
      rw e (enable_found-IsRuled now i enabled db (fetch_one (λ u. u.id == i) db.users) refl v h)
]

unlock-IsRuled : (now i : ℕ) (db : AdminDb) → IsRuled db → IsRuled (kept db (unlock_user now i db))
unfolding unlock_user
unlock-IsRuled now i db h = go (fetch_one (λ u. u.id == i) db.users)
  where
    go : (o : Option User) → IsRuled (kept db (unlock_found now i db o))
    go none = unfold unlock_found in h
    go (some u) =
        unfold unlock_found in
        any_of_kept is_ruler (λ w. w.id == i) (set_unlocked now) (λ x k. unfold is_ruler in k)
          db.users h

change-IsRuled :
    (p : Platform) (now i : ℕ) (password salt : Text) (db : AdminDb)
    → IsRuled db
    → IsRuled (kept db (change_password p now i password salt db))
unfolding change_password
change-IsRuled p now i password salt db h = elim (Bool-cases (password_valid p password)) [
  | inr e ↦ rw e h
  | inl e ↦ rw e (
      any_of_kept is_ruler (λ w. w.id == i) (set_password now (p.pbkdf2 password salt 600000) salt)
        (λ x k. unfold is_ruler in k) db.users h)
]

perform-IsRuled :
    (p : Platform) (now : ℕ) (a : Action) (db : AdminDb)
    → IsSound db
    → IsRuled db
    → IsRuled (perform p now a db)
unfolding perform
perform-IsRuled p now (create username password salt role) db v h =
    create-IsRuled p now username password salt role db h
perform-IsRuled p now (initialize password salt) db v h =
    let some_user : has_users db ≡ true = unfold has_users in has_users-IsRuled db.users h in
    unfold initialize_from_legacy in rw some_user h
perform-IsRuled p now (enter username password token) db v h =
    unfold login in
    login-IsRuled p now password token db
      (fetch_one (is_named (strip p.is_space username)) db.users) h
perform-IsRuled p now (validate token) db v h = validate-IsRuled p now token db h
perform-IsRuled p now (leave token) db v h = unfold logout in h
perform-IsRuled p now (leave_all i) db v h = unfold logout_user in h
perform-IsRuled p now (unlock i) db v h = unlock-IsRuled now i db h
perform-IsRuled p now (change i password salt) db v h = change-IsRuled p now i password salt db h
perform-IsRuled p now (enable i enabled actor) db v h = enable-IsRuled now i enabled actor db v h

-- In a database that satisfies the constraints of SCHEMA and has an enabled superadministrator,
-- there is one after any calls: nobody can disable the last one, not even in several steps.
pub perform_all-IsRuled :
    (p : Platform) (actions : List (ℕ × Action)) (db : AdminDb)
    → IsSound db
    → IsRuled db
    → IsRuled (perform_all p actions db)
unfolding perform_all
perform_all-IsRuled p [] db v h = h
perform_all-IsRuled p ((now, a) ∷ actions) db v h =
    perform_all-IsRuled p actions (perform p now a db) (perform-IsSound p now a db v)
      (perform-IsRuled p now a db v h)
