-- ===== src/Backend/Admin/Manage.antt =====
-- AdminAuthStore.create_user, initialize_from_legacy, unlock_user, change_password and set_enabled.
use okxquant.Prelude.{
  ℕ, ◌+◌, Text, Bool, true, false, ◌&&◌, not, Option, none, some, [], ◌∷◌, leb, ◌==◌, any_of,
  if◌then◌else◌, Result, ok, err, value_error,
}
use okxquant.Prelude.Table.{update, insert, fetch_one, delete, count_where}
use okxquant.Backend.Admin.Accounts.{
  Role, superadmin, User, AdminDb, Platform, is_named, strip, is_username, password_valid, is_super,
  is_ruler,
}
use okxquant.Backend.Admin.Sessions.{owned_by, is_blank}

unfoldable pub new_user : Platform → ℕ → ℕ → Text → Text → Text → Role → User
new_user p id now name password salt role = record {
  id = id;
  username = name;
  password_hash = p.pbkdf2 password salt 600000;
  salt = salt;
  iterations = 600000;
  role = role;
  enabled = true;
  failed_attempts = 0;
  locked_until = 0;
  created_at = now;
  updated_at = now;
  last_login_at = none;
}

-- After the checks: the UNIQUE of username refuses a name that is there.
unfoldable pub add_user :
    Platform → ℕ → Text → Text → Text → Role → AdminDb → Result (User × AdminDb)
unfolding new_user is_named insert
add_user p now name password salt role db =
    let row = new_user p (db.user_seq + 1) now name password salt role in
    if any_of (is_named name) db.users
    then err value_error
    else ok (row, record db { users = insert row db.users; user_seq = db.user_seq + 1 })

-- create_user; a role is one of the two.
unfoldable pub create_user :
    Platform → ℕ → Text → Text → Text → Role → AdminDb → Result (User × AdminDb)
unfolding add_user strip is_username password_valid
create_user p now username password salt role db =
    let name = strip p.is_space username in
    if not (is_username name)
    then err value_error
    else if not (password_valid p password)
    then err value_error
    else add_user p now name password salt role db

unfoldable pub has_users : AdminDb → Bool
has_users db = any_of (λ (u : User). true) db.users

-- The name 'admin', in code points.
abbrev pub admin_name : Text
admin_name = 97 ∷ 100 ∷ 109 ∷ 105 ∷ 110 ∷ []

unfoldable pub initialize_from_legacy :
    Platform → ℕ → Text → Text → AdminDb → Result (Bool × AdminDb)
unfolding has_users is_blank create_user
initialize_from_legacy p now password salt db =
    if has_users db
    then ok (false, db)
    else if is_blank password
    then ok (false, db)
    else elim (create_user p now admin_name password salt superadmin db) [
      | ok (u, db') ↦ ok (true, db')
      | err e ↦ err e
    ]

abbrev pub set_unlocked : ℕ → User → User
set_unlocked now u = record u { failed_attempts = 0; locked_until = 0; updated_at = now }

unfoldable pub unlock_found : ℕ → ℕ → AdminDb → Option User → Result AdminDb
unfolding update
unlock_found now user_id db none = err value_error
unlock_found now user_id db (some u) =
    ok (record db { users = update (λ v. v.id == user_id) (set_unlocked now) db.users })

unfoldable pub unlock_user : ℕ → ℕ → AdminDb → Result AdminDb
unfolding unlock_found fetch_one
unlock_user now user_id db = unlock_found now user_id db (fetch_one (λ u. u.id == user_id) db.users)

abbrev pub set_password : ℕ → Text → Text → User → User
set_password now hash salt u = record u {
  password_hash = hash;
  salt = salt;
  iterations = 600000;
  updated_at = now;
}

unfoldable pub change_password : Platform → ℕ → ℕ → Text → Text → AdminDb → Result AdminDb
unfolding password_valid update owned_by delete
change_password p now user_id password salt db =
    if not (password_valid p password)
    then err value_error
    else ok (record db {
      users =
          update (λ u. u.id == user_id) (set_password now (p.pbkdf2 password salt 600000) salt)
            db.users;
      sessions = delete (owned_by user_id) db.sessions;
    })

abbrev pub set_user_enabled : ℕ → Bool → User → User
set_user_enabled now enabled u = record u { enabled = enabled; updated_at = now }

-- The two statements at the end of set_enabled.
unfoldable pub write_enabled : ℕ → ℕ → Bool → AdminDb → AdminDb
unfolding update owned_by delete
write_enabled now user_id enabled db = record db {
  users = update (λ u. u.id == user_id) (set_user_enabled now enabled) db.users;
  sessions = if enabled then db.sessions else delete (owned_by user_id) db.sessions;
}

unfoldable pub enable_found : ℕ → ℕ → Bool → AdminDb → Option User → Result AdminDb
unfolding write_enabled is_super is_ruler count_where
enable_found now user_id enabled db none = err value_error
enable_found now user_id enabled db (some u) =
    if (not enabled && (is_super u.role && u.enabled)) && leb (count_where is_ruler db.users) 1
    then err value_error
    else ok (write_enabled now user_id enabled db)

unfoldable pub set_enabled : ℕ → ℕ → Bool → ℕ → AdminDb → Result AdminDb
unfolding enable_found fetch_one
set_enabled now user_id enabled actor_id db =
    if user_id == actor_id && not enabled
    then err value_error
    else enable_found now user_id enabled db (fetch_one (λ u. u.id == user_id) db.users)
