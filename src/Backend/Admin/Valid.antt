-- ===== src/Backend/Admin/Valid.antt =====
-- Proofs on the calls of okxquant_backend/admin_auth.py under the constraints of its SCHEMA.
pub mod Perform
use okxquant.Prelude.{
  ℕ, ◌+◌, Text, Bool, true, false, ◌≡◌, refl, inl, inr, Option, none, some, List, [], ◌∷◌, arith,
  Bool-cases, Option-cases, All, All-any_of, any_of, ◌==◌, Result, ok, err, text_eq, not, ltb, leb,
  ◌&&◌, map,
}
use okxquant.Prelude.Table.{
  update, insert, fetch_one, delete, count_where, Distinct, IsKeyed, IsKeyed-update, IsKeyed-insert,
  IsKeyed-delete, Distinct-update, Distinct-insert, Distinct-delete,
}
use okxquant.Backend.Admin.Accounts.{
  Role, User, Session, AdminDb, Platform, same_name, is_named, no_users, is_super, is_ruler,
  password_valid, is_username, strip, superadmin,
}
use okxquant.Backend.Admin.Login.{
  matches_hash, set_failures, set_logged_in, lock_until, fail_login, is_expired, has_token,
  new_session, open_session, login_row, login,
}
use okxquant.Backend.Admin.Sessions.{
  see, is_live, set_seen, validate_session, logout, owned_by, logout_user, is_blank,
}
use okxquant.Backend.Admin.Manage.{
  new_user, add_user, create_user, admin_name, initialize_from_legacy, has_users, set_unlocked,
  unlock_found, unlock_user, set_password, change_password, set_user_enabled, write_enabled,
  enable_found, set_enabled,
}
use okxquant.Backend.Admin.Actions.{
  Action, create, initialize, enter, validate, leave, leave_all, unlock, change, enable, kept,
  kept_with, perform, perform_all,
}

abbrev pub user_id : User → ℕ
user_id u = u.id

abbrev pub session_id : Session → ℕ
session_id s = s.id

-- username TEXT NOT NULL UNIQUE COLLATE NOCASE
unfoldable pub same_username : User → User → Bool
unfolding same_name
same_username a b = same_name a.username b.username

-- token_hash TEXT NOT NULL UNIQUE
unfoldable pub same_token : Session → Session → Bool
same_token a b = text_eq a.token_hash b.token_hash

pub record IsSound (db : AdminDb) : Type 0 where
  pub user_keys : IsKeyed user_id db.user_seq db.users
  pub names_once : Distinct same_username db.users
  pub session_keys : IsKeyed session_id db.session_seq db.sessions
  pub tokens_once : Distinct same_token db.sessions

-- The tables of users and of sessions, apart.
pub record UsersSound (users : List User) (seq : ℕ) : Type 0 where
  pub keys : IsKeyed user_id seq users
  pub names : Distinct same_username users

pub record SessionsSound (sessions : List Session) (seq : ℕ) : Type 0 where
  pub keys : IsKeyed session_id seq sessions
  pub tokens : Distinct same_token sessions

pub users_of : {db : AdminDb} → IsSound db → UsersSound db.users db.user_seq
users_of v = record { keys = v.user_keys; names = v.names_once }

pub sessions_of : {db : AdminDb} → IsSound db → SessionsSound db.sessions db.session_seq
sessions_of v = record { keys = v.session_keys; tokens = v.tokens_once }

pub joined :
    {db : AdminDb}
    → UsersSound db.users db.user_seq
    → SessionsSound db.sessions db.session_seq
    → IsSound db
joined u s = record {
  user_keys = u.keys;
  names_once = u.names;
  session_keys = s.keys;
  tokens_once = s.tokens;
}

-- An update that keeps the id and the name of each user.
update-UsersSound :
    (p : User → Bool) (f : User → User)
    → ((u : User) → (f u).id ≡ u.id)
    → ((u : User) → (f u).username ≡ u.username)
    → (seq : ℕ) (users : List User) → UsersSound users seq
    → UsersSound (update p f users) seq
update-UsersSound p f id name seq users h = record {
  keys = IsKeyed-update user_id p f id seq users h.keys;
  names =
      Distinct-update same_username p f (λ x y _ e. unfold same_username in rw (name y) e)
        (λ x y _ e. unfold same_username in rw (name x) e) users h.names;
}

delete-SessionsSound :
    (p : Session → Bool) (seq : ℕ) (sessions : List Session)
    → SessionsSound sessions seq
    → SessionsSound (delete p sessions) seq
delete-SessionsSound p seq sessions h = record {
  keys = IsKeyed-delete session_id p seq sessions h.keys;
  tokens = Distinct-delete same_token p sessions h.tokens;
}

seen-SessionsSound :
    (p : Session → Bool) (now seq : ℕ) (sessions : List Session)
    → SessionsSound sessions seq
    → SessionsSound (update p (set_seen now) sessions) seq
seen-SessionsSound p now seq sessions h = record {
  keys = IsKeyed-update session_id p (set_seen now) (λ s. refl) seq sessions h.keys;
  tokens =
      Distinct-update same_token p (set_seen now) (λ x y _ e. unfold same_token in rw e)
        (λ x y _ e. unfold same_token in rw e) sessions h.tokens;
}

open-SessionsSound :
    (now seq : ℕ) (hash : Text) (owner : ℕ) (alive : List Session)
    → any_of (has_token hash) alive ≡ false
    → SessionsSound alive seq
    → SessionsSound (insert (new_session (seq + 1) now hash owner) alive) (seq + 1)
unfolding new_session
open-SessionsSound now seq hash owner alive fresh h = record {
  keys = IsKeyed-insert session_id seq (new_session (seq + 1) now hash owner) alive refl h.keys;
  tokens =
      Distinct-insert same_token (new_session (seq + 1) now hash owner) alive h.tokens
        (unfold same_token in unfold has_token in All-any_of (has_token hash) alive fresh);
}

fail_login-IsSound :
    (now : ℕ) (u : User) (db : AdminDb) → IsSound db → IsSound (fail_login now u db).1
unfolding fail_login
fail_login-IsSound now u db v =
    joined
      (update-UsersSound (λ w. w.id == u.id)
        (set_failures now (u.failed_attempts + 1) (lock_until now (u.failed_attempts + 1)))
        (λ w. refl) (λ w. refl) db.user_seq db.users (users_of v))
      (sessions_of v)

open_session-IsSound :
    (p : Platform) (now : ℕ) (token : Text) (u : User) (db : AdminDb)
    → IsSound db
    → IsSound (open_session p now token u db).1
unfolding open_session
open_session-IsSound p now token u db v =
    let alive = delete (is_expired now) db.sessions in
    elim (Bool-cases (any_of (has_token (p.sha256 token)) alive)) [
      | inl e ↦ rw e v
      | inr e ↦ rw e (
          joined
            (update-UsersSound (λ w. w.id == u.id) (set_logged_in now) (λ w. refl) (λ w. refl)
              db.user_seq db.users (users_of v))
            (open-SessionsSound now db.session_seq (p.sha256 token) u.id alive e
              (delete-SessionsSound (is_expired now) db.session_seq db.sessions (sessions_of v))))
    ]

login_row-IsSound :
    (p : Platform) (now : ℕ) (password token : Text) (db : AdminDb) (o : Option User)
    → IsSound db
    → IsSound (login_row p now password token db o).1
unfolding login_row
login_row-IsSound p now password token db none v = v
login_row-IsSound p now password token db (some u) v = elim (Bool-cases u.enabled) [
  | inr e ↦ rw e v
  | inl e ↦ rw e (elim (Bool-cases (ltb now u.locked_until)) [
    | inl l ↦ rw l v
    | inr l ↦ rw l (elim (Bool-cases (matches_hash p password u)) [
      | inl m ↦ rw m (open_session-IsSound p now token u db v)
      | inr m ↦ rw m (fail_login-IsSound now u db v)
    ])
  ])
]

see-IsSound : (now : ℕ) (db : AdminDb) (o : Option Session) → IsSound db → IsSound (see now db o).1
unfolding see
see-IsSound now db none v = v
see-IsSound now db (some s) v =
    joined (users_of v)
      (seen-SessionsSound (λ r. r.id == s.id) now db.session_seq db.sessions (sessions_of v))

validate_session-IsSound :
    (p : Platform) (now : ℕ) (token : Text) (db : AdminDb)
    → IsSound db
    → IsSound (validate_session p now token db).1
unfolding validate_session
validate_session-IsSound p now token db v = elim (Bool-cases (is_blank token)) [
  | inl e ↦ rw e v
  | inr e ↦
      rw e (see-IsSound now db (fetch_one (is_live now (p.sha256 token) db.users) db.sessions) v)
]

add_user-IsSound :
    (p : Platform) (now : ℕ) (name password salt : Text) (role : Role) (db : AdminDb)
    → IsSound db
    → IsSound (kept_with db (add_user p now name password salt role db))
unfolding add_user
add_user-IsSound p now name password salt role db v =
    let row = new_user p (db.user_seq + 1) now name password salt role in
    elim (Bool-cases (any_of (is_named name) db.users)) [
      | inl e ↦ rw e v
      | inr e ↦ rw e (
          joined
            (unfold new_user in
              record {
                keys = IsKeyed-insert user_id db.user_seq row db.users refl v.user_keys;
                names = Distinct-insert same_username row db.users v.names_once (
                    unfold same_username in
                    unfold is_named in All-any_of (is_named name) db.users e);
              })
            (sessions_of v))
    ]
