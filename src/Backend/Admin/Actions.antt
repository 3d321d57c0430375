-- ===== src/Backend/Admin/Actions.antt =====
-- The calls of AdminAuthStore that change the file, as data, and any sequence of them.
use okxquant.Prelude.{ℕ, Text, Bool, List, [], ◌∷◌, Result, ok, err}
use okxquant.Backend.Admin.Accounts.{Role, AdminDb, Platform}
use okxquant.Backend.Admin.Login.{login}
use okxquant.Backend.Admin.Sessions.{validate_session, logout, logout_user}
use okxquant.Backend.Admin.Manage.{
  create_user, initialize_from_legacy, unlock_user, change_password, set_enabled,
}

pub data Action : Type 0 where
  create : Text → Text → Text → Role → Action
  initialize : Text → Text → Action
  enter : Text → Text → Text → Action
  validate : Text → Action
  leave : Text → Action
  leave_all : ℕ → Action
  unlock : ℕ → Action
  change : ℕ → Text → Text → Action
  enable : ℕ → Bool → ℕ → Action

-- An exception rolls the transaction back.
abbrev pub kept : AdminDb → Result AdminDb → AdminDb
kept db (ok db') = db'
kept db (err e) = db

abbrev pub kept_with {ℓ} : {A : Type ℓ} → AdminDb → Result (A × AdminDb) → AdminDb
kept_with db (ok (a, db')) = db'
kept_with db (err e) = db

unfoldable pub perform : Platform → ℕ → Action → AdminDb → AdminDb
perform p now (create username password salt role) db =
    kept_with db (create_user p now username password salt role db)
perform p now (initialize password salt) db =
    kept_with db (initialize_from_legacy p now password salt db)
perform p now (enter username password token) db = (login p now username password token db).1
perform p now (validate token) db = (validate_session p now token db).1
perform p now (leave token) db = logout p token db
perform p now (leave_all user_id) db = logout_user user_id db
perform p now (unlock user_id) db = kept db (unlock_user now user_id db)
perform p now (change user_id password salt) db =
    kept db (change_password p now user_id password salt db)
perform p now (enable user_id enabled actor_id) db =
    kept db (set_enabled now user_id enabled actor_id db)

unfoldable pub perform_all : Platform → List (ℕ × Action) → AdminDb → AdminDb
perform_all p [] db = db
perform_all p ((now, action) ∷ rest) db = perform_all p rest (perform p now action db)
