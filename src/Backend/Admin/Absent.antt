-- ===== src/Backend/Admin/Absent.antt =====
-- Proofs on okxquant_backend/admin_auth.py: a token that no session has.
use okxquant.Prelude.{
  ℕ, ◌+◌, Text, Bool, true, false, ◌≡◌, refl, inl, inr, Option, none, some, List, [], ◌∷◌, arith,
  Bool-cases, All, any_of, ◌==◌, text_eq, not, ltb, leb, ◌&&◌,
}
use okxquant.Prelude.Table.{fetch_one, delete, count_where}
use okxquant.Backend.Admin.Accounts.{
  Role, User, Session, AdminDb, Platform, is_named, is_super, is_ruler, password_valid, strip,
}
use okxquant.Backend.Admin.Login.{
  matches_hash, fail_login, is_expired, has_token, new_session, open_session, login_row, login,
}
use okxquant.Backend.Admin.Sessions.{
  see, is_live, set_seen, validate_session, logout, owned_by, logout_user, is_blank,
}
use okxquant.Backend.Admin.Manage.{
  add_user, create_user, initialize_from_legacy, unlock_found, unlock_user, change_password,
  write_enabled, enable_found, set_enabled,
}
use okxquant.Backend.Admin.Actions.{
  Action, create, initialize, enter, validate, leave, leave_all, unlock, change, enable, kept,
  kept_with, perform, perform_all,
}
use okxquant.Prelude.{All-map}
use okxquant.Prelude.Table.{All-update, All-insert, All-delete, fetch_one-refused}

-- No session has this token.
abbrev pub IsAbsent : Text → AdminDb → Type 0
IsAbsent hash db = All (λ s. has_token hash s ≡ false) db.sessions

-- The calls that hand out a token with this hash.
unfoldable pub issues : Platform → Text → Action → Bool
issues p hash (enter username password token) = text_eq (p.sha256 token) hash
issues p hash _ = false

open-IsAbsent :
    (p : Platform) (now : ℕ) (hash token : Text) (u : User) (db : AdminDb)
    → text_eq (p.sha256 token) hash ≡ false
    → IsAbsent hash db
    → IsAbsent hash (open_session p now token u db).1
unfolding open_session
open-IsAbsent p now hash token u db other h =
    let alive = delete (is_expired now) db.sessions in
    elim (Bool-cases (any_of (has_token (p.sha256 token)) alive)) [
      | inl e ↦ rw e h
      | inr e ↦ rw e (
          All-insert (λ s. has_token hash s ≡ false)
            (new_session (db.session_seq + 1) now (p.sha256 token) u.id) alive
            (All-delete (λ s. has_token hash s ≡ false) (is_expired now) db.sessions h)
            (unfold new_session in unfold has_token in other))
    ]

login-IsAbsent :
    (p : Platform) (now : ℕ) (hash password token : Text) (db : AdminDb) (o : Option User)
    → text_eq (p.sha256 token) hash ≡ false
    → IsAbsent hash db
    → IsAbsent hash (login_row p now password token db o).1
unfolding login_row
login-IsAbsent p now hash password token db none other h = h
login-IsAbsent p now hash password token db (some u) other h = elim (Bool-cases u.enabled) [
  | inr e ↦ rw e h
  | inl e ↦ rw e (elim (Bool-cases (ltb now u.locked_until)) [
    | inl l ↦ rw l h
    | inr l ↦ rw l (elim (Bool-cases (matches_hash p password u)) [
      | inr m ↦ rw m (unfold fail_login in h)
      | inl m ↦ rw m (open-IsAbsent p now hash token u db other h)
    ])
  ])
]

validate-IsAbsent :
    (p : Platform) (now : ℕ) (hash token : Text) (db : AdminDb)
    → IsAbsent hash db
    → IsAbsent hash (validate_session p now token db).1
unfolding validate_session
validate-IsAbsent p now hash token db h = elim (Bool-cases (is_blank token)) [
  | inl e ↦ rw e h
  | inr e ↦ rw e (go (fetch_one (is_live now (p.sha256 token) db.users) db.sessions))
]
  where
    go : (o : Option Session) → IsAbsent hash (see now db o).1
    go none = unfold see in h
    go (some s) =
        unfold see in
        All-update (λ r. has_token hash r ≡ false) (λ r. r.id == s.id) (set_seen now)
          (λ r _ k. unfold has_token in k) db.sessions h

-- A call that changes no session.
create-sessions :
    (p : Platform) (now : ℕ) (username password salt : Text) (role : Role) (db : AdminDb)
    → (kept_with db (create_user p now username password salt role db)).sessions ≡ db.sessions
unfolding create_user add_user
create-sessions p now username password salt role db = ground arith

initialize-sessions :
    (p : Platform) (now : ℕ) (password salt : Text) (db : AdminDb)
    → (kept_with db (initialize_from_legacy p now password salt db)).sessions ≡ db.sessions
unfolding initialize_from_legacy create_user add_user
initialize-sessions p now password salt db = ground arith

unlock-sessions :
    (now i : ℕ) (db : AdminDb) → (kept db (unlock_user now i db)).sessions ≡ db.sessions
unfolding unlock_user unlock_found
unlock-sessions now i db = ground arith

pub kept_absent :
    (hash : Text) (xs ys : List Session)
    → xs ≡ ys
    → All (λ s. has_token hash s ≡ false) ys
    → All (λ s. has_token hash s ≡ false) xs
kept_absent hash xs ys e h = rw e h

owned-IsAbsent :
    (hash : Text) (i : ℕ) (sessions : List Session)
    → All (λ s. has_token hash s ≡ false) sessions
    → All (λ s. has_token hash s ≡ false) (delete (owned_by i) sessions)
owned-IsAbsent hash i sessions h =
    All-delete (λ s. has_token hash s ≡ false) (owned_by i) sessions h

change-IsAbsent :
    (p : Platform) (now i : ℕ) (hash password salt : Text) (db : AdminDb)
    → IsAbsent hash db
    → IsAbsent hash (kept db (change_password p now i password salt db))
unfolding change_password
change-IsAbsent p now i hash password salt db h = elim (Bool-cases (password_valid p password)) [
  | inr e ↦ rw e h
  | inl e ↦ rw e (owned-IsAbsent hash i db.sessions h)
]

enable-IsAbsent :
    (now i : ℕ) (enabled : Bool) (actor : ℕ) (hash : Text) (db : AdminDb)
    → IsAbsent hash db
    → IsAbsent hash (kept db (set_enabled now i enabled actor db))
unfolding set_enabled
enable-IsAbsent now i enabled actor hash db h = elim (Bool-cases (i == actor && not enabled)) [
  | inl e ↦ rw e h
  | inr e ↦ rw e (go enabled (fetch_one (λ u. u.id == i) db.users))
]
  where
    written : (b : Bool) → IsAbsent hash (write_enabled now i b db)
    written true = unfold write_enabled in h
    written false = unfold write_enabled in owned-IsAbsent hash i db.sessions h

    go : (b : Bool) (o : Option User) → IsAbsent hash (kept db (enable_found now i b db o))
    go b none = unfold enable_found in h
    go b (some u) =
        unfold enable_found in
        elim (Bool-cases
          ((not b && (is_super u.role && u.enabled)) && leb (count_where is_ruler db.users) 1)) [
            | inl e ↦ rw e h
            | inr e ↦ rw e (written b)
          ]

perform-IsAbsent :
    (p : Platform) (now : ℕ) (hash : Text) (a : Action) (db : AdminDb)
    → issues p hash a ≡ false
    → IsAbsent hash db
    → IsAbsent hash (perform p now a db)
unfolding perform issues
perform-IsAbsent p now hash (create username password salt role) db other h =
    kept_absent hash _ db.sessions (create-sessions p now username password salt role db) h
perform-IsAbsent p now hash (initialize password salt) db other h =
    kept_absent hash _ db.sessions (initialize-sessions p now password salt db) h
perform-IsAbsent p now hash (enter username password token) db other h =
    unfold login in
    login-IsAbsent p now hash password token db
      (fetch_one (is_named (strip p.is_space username)) db.users) other h
perform-IsAbsent p now hash (validate token) db other h = validate-IsAbsent p now hash token db h
perform-IsAbsent p now hash (leave token) db other h =
    unfold logout in
    All-delete (λ s. has_token hash s ≡ false) (has_token (p.sha256 token)) db.sessions h
perform-IsAbsent p now hash (leave_all i) db other h =
    unfold logout_user in owned-IsAbsent hash i db.sessions h
perform-IsAbsent p now hash (unlock i) db other h =
    kept_absent hash _ db.sessions (unlock-sessions now i db) h
perform-IsAbsent p now hash (change i password salt) db other h =
    change-IsAbsent p now i hash password salt db h
perform-IsAbsent p now hash (enable i enabled actor) db other h =
    enable-IsAbsent now i enabled actor hash db h

pub perform_all-IsAbsent :
    (p : Platform) (hash : Text) (actions : List (ℕ × Action)) (db : AdminDb)
    → All (λ a. issues p hash a.1 ≡ false) actions
    → IsAbsent hash db
    → IsAbsent hash (perform_all p actions db)
unfolding perform_all
perform_all-IsAbsent p hash [] db other h = h
perform_all-IsAbsent p hash ((now, a) ∷ actions) db other h =
    perform_all-IsAbsent p hash actions (perform p now a db) other.1
      (perform-IsAbsent p now hash a db other.0 h)

pub absent_rejected :
    (p : Platform) (now : ℕ) (token : Text) (db : AdminDb)
    → IsAbsent (p.sha256 token) db
    → (validate_session p now token db).0 ≡ none
unfolding validate_session
absent_rejected p now token db h = elim (Bool-cases (is_blank token)) [
  | inl e ↦ rw e refl
  | inr e ↦
      let refused = fetch_one-refused (is_live now (p.sha256 token) db.users) db.sessions (
        All-map (λ s. has_token (p.sha256 token) s ≡ false)
          (λ s. is_live now (p.sha256 token) db.users s ≡ false)
          (λ s k. unfold is_live in rw k refl) db.sessions h) in
      rw (e, refused) (unfold see in refl)
]
