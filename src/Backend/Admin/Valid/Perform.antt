-- ===== src/Backend/Admin/Valid/Perform.antt =====
-- Proofs on sequences of calls of okxquant_backend/admin_auth.py: the constraints are kept.
use okxquant.Prelude.{
  ℕ, Text, Bool, true, false, ◌≡◌, refl, inl, inr, Option, none, some, List, [], ◌∷◌, Bool-cases,
  ◌==◌, Result, ok, err, not, leb, ◌&&◌,
}
use okxquant.Prelude.Table.{fetch_one, count_where}
use okxquant.Backend.Admin.Accounts.{
  Role, User, AdminDb, Platform, is_named, no_users, is_super, is_ruler, password_valid,
  is_username, strip, superadmin,
}
use okxquant.Backend.Admin.Login.{has_token, login}
use okxquant.Backend.Admin.Sessions.{logout, owned_by, logout_user, is_blank}
use okxquant.Backend.Admin.Manage.{
  create_user, admin_name, initialize_from_legacy, has_users, set_unlocked, unlock_found,
  unlock_user, set_password, change_password, set_user_enabled, write_enabled, enable_found,
  set_enabled,
}
use okxquant.Backend.Admin.Actions.{
  Action, create, initialize, enter, validate, leave, leave_all, unlock, change, enable, kept,
  kept_with, perform, perform_all,
}
use okxquant.Backend.Admin.Valid.{
  IsSound, users_of, sessions_of, joined, update-UsersSound, delete-SessionsSound,
  login_row-IsSound, validate_session-IsSound, add_user-IsSound,
}

create_user-IsSound :
    (p : Platform) (now : ℕ) (username password salt : Text) (role : Role) (db : AdminDb)
    → IsSound db
    → IsSound (kept_with db (create_user p now username password salt role db))
unfolding create_user
create_user-IsSound p now username password salt role db v =
    elim (Bool-cases (is_username (strip p.is_space username))) [
      | inr e ↦ rw e v
      | inl e ↦ rw e (elim (Bool-cases (password_valid p password)) [
        | inr k ↦ rw k v
        | inl k ↦ rw k (add_user-IsSound p now (strip p.is_space username) password salt role db v)
      ])
    ]

-- What is kept of an initialization is what is kept of the creation in it.
initialize_kept :
    (db : AdminDb) (r : Result (User × AdminDb))
    → kept_with db
        (elim r as (λ x. Result (Bool × AdminDb)) [ ok (u, db') ↦ ok (true, db') | err e ↦ err e ])
      ≡ kept_with db r
initialize_kept db (ok (u, db')) = refl
initialize_kept db (err e) = refl

initialize-IsSound :
    (p : Platform) (now : ℕ) (password salt : Text) (db : AdminDb)
    → IsSound db
    → IsSound (kept_with db (initialize_from_legacy p now password salt db))
unfolding initialize_from_legacy
initialize-IsSound p now password salt db v = elim (Bool-cases (has_users db)) [
  | inl e ↦ rw e v
  | inr e ↦ rw e (elim (Bool-cases (is_blank password)) [
    | inl k ↦ rw k v
    | inr k ↦
        rw (k, initialize_kept db (create_user p now admin_name password salt superadmin db))
          (create_user-IsSound p now admin_name password salt superadmin db v)
  ])
]

unlock-IsSound : (now i : ℕ) (db : AdminDb) → IsSound db → IsSound (kept db (unlock_user now i db))
unfolding unlock_user
unlock-IsSound now i db v = go (fetch_one (λ u. u.id == i) db.users)
  where
    go : (o : Option User) → IsSound (kept db (unlock_found now i db o))
    go none = unfold unlock_found in v
    go (some u) =
        unfold unlock_found in
        joined
          (update-UsersSound (λ w. w.id == i) (set_unlocked now) (λ w. refl) (λ w. refl) db.user_seq
            db.users (users_of v))
          (sessions_of v)

change-IsSound :
    (p : Platform) (now i : ℕ) (password salt : Text) (db : AdminDb)
    → IsSound db
    → IsSound (kept db (change_password p now i password salt db))
unfolding change_password
change-IsSound p now i password salt db v = elim (Bool-cases (password_valid p password)) [
  | inr e ↦ rw e v
  | inl e ↦ rw e (
      joined
        (update-UsersSound (λ w. w.id == i) (set_password now (p.pbkdf2 password salt 600000) salt)
          (λ w. refl) (λ w. refl) db.user_seq db.users (users_of v))
        (delete-SessionsSound (owned_by i) db.session_seq db.sessions (sessions_of v)))
]

write_enabled-IsSound :
    (now i : ℕ) (enabled : Bool) (db : AdminDb)
    → IsSound db
    → IsSound (write_enabled now i enabled db)
unfolding write_enabled
write_enabled-IsSound now i true db v =
    joined
      (update-UsersSound (λ w. w.id == i) (set_user_enabled now true) (λ w. refl) (λ w. refl)
        db.user_seq db.users (users_of v))
      (sessions_of v)
write_enabled-IsSound now i false db v =
    joined
      (update-UsersSound (λ w. w.id == i) (set_user_enabled now false) (λ w. refl) (λ w. refl)
        db.user_seq db.users (users_of v))
      (delete-SessionsSound (owned_by i) db.session_seq db.sessions (sessions_of v))

enable_found-IsSound :
    (now i : ℕ) (enabled : Bool) (db : AdminDb) (o : Option User)
    → IsSound db
    → IsSound (kept db (enable_found now i enabled db o))
unfolding enable_found
enable_found-IsSound now i enabled db none v = v
enable_found-IsSound now i enabled db (some u) v =
    elim (Bool-cases
      ((not enabled && (is_super u.role && u.enabled)) && leb (count_where is_ruler db.users) 1)) [
        | inl e ↦ rw e v
        | inr e ↦ rw e (write_enabled-IsSound now i enabled db v)
      ]

enable-IsSound :
    (now i : ℕ) (enabled : Bool) (actor : ℕ) (db : AdminDb)
    → IsSound db
    → IsSound (kept db (set_enabled now i enabled actor db))
unfolding set_enabled
enable-IsSound now i enabled actor db v = elim (Bool-cases (i == actor && not enabled)) [
  | inl e ↦ rw e v
  | inr e ↦ rw e (enable_found-IsSound now i enabled db (fetch_one (λ u. u.id == i) db.users) v)
]

pub no_users-IsSound : IsSound no_users
no_users-IsSound = record {
  user_keys = record { bounded = tt; distinct = tt };
  names_once = tt;
  session_keys = record { bounded = tt; distinct = tt };
  tokens_once = tt;
}

pub perform-IsSound :
    (p : Platform) (now : ℕ) (a : Action) (db : AdminDb) → IsSound db → IsSound (perform p now a db)
unfolding perform
perform-IsSound p now (create username password salt role) db v =
    create_user-IsSound p now username password salt role db v
perform-IsSound p now (initialize password salt) db v = initialize-IsSound p now password salt db v
perform-IsSound p now (enter username password token) db v =
    unfold login in
    login_row-IsSound p now password token db
      (fetch_one (is_named (strip p.is_space username)) db.users) v
perform-IsSound p now (validate token) db v = validate_session-IsSound p now token db v
perform-IsSound p now (leave token) db v =
    unfold logout in
    joined (users_of v)
      (delete-SessionsSound (has_token (p.sha256 token)) db.session_seq db.sessions (sessions_of v))
perform-IsSound p now (leave_all i) db v =
    unfold logout_user in
    joined (users_of v)
      (delete-SessionsSound (owned_by i) db.session_seq db.sessions (sessions_of v))
perform-IsSound p now (unlock i) db v = unlock-IsSound now i db v
perform-IsSound p now (change i password salt) db v = change-IsSound p now i password salt db v
perform-IsSound p now (enable i enabled actor) db v = enable-IsSound now i enabled actor db v

-- From a database that satisfies the constraints of SCHEMA, whatever calls are made, at
-- whatever times: no two administrators share an id or a name (upper and lower case are the
-- same), and no two sessions share an id or a token.
pub perform_all-IsSound :
    (p : Platform) (actions : List (ℕ × Action)) (db : AdminDb)
    → IsSound db
    → IsSound (perform_all p actions db)
unfolding perform_all
perform_all-IsSound p [] db v = v
perform_all-IsSound p ((now, a) ∷ actions) db v =
    perform_all-IsSound p actions (perform p now a db) (perform-IsSound p now a db v)
