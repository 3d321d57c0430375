-- ===== src/Backend/Admin/Login.antt =====
-- AdminAuthStore.verify_password and login.
use okxquant.Prelude.{
  ℕ, ◌+◌, ◌-◌, ◌*◌, ◌/◌, max, Text, Bool, false, not, Option, none, some, ltb, leb, ◌==◌, any_of,
  if◌then◌else◌,
}
use okxquant.Prelude.Table.{update, insert, fetch_one, delete}
use okxquant.Prelude.{text_eq}
use okxquant.Backend.Admin.Accounts.{User, Session, AdminDb, Platform, is_named, strip}

-- hmac.compare_digest of the digest under the row's salt.
unfoldable pub matches_hash : Platform → Text → User → Bool
unfolding text_eq
matches_hash p password u = text_eq (p.pbkdf2 password u.salt u.iterations) u.password_hash

unfoldable pub verify_row : Platform → Text → Option User → Bool
unfolding matches_hash
verify_row p password none = false
verify_row p password (some u) = if not u.enabled then false else matches_hash p password u

unfoldable pub verify_password : Platform → ℕ → Text → AdminDb → Bool
unfolding verify_row fetch_one
verify_password p user_id password db =
    verify_row p password (fetch_one (λ u. u.id == user_id) db.users)

-- Why a login is refused: by the texts of PermissionError, with the minutes to wait or the tries left;
-- `taken` is the IntegrityError of a token that is there already.
pub data Refusal : Type 0 where
  disabled : Refusal
  locked : ℕ → Refusal
  wrong : ℕ → Refusal
  now_locked : Refusal
  unknown : Refusal
  taken : Refusal

pub data LoginResult : Type 0 where
  granted : Text → ℕ → Option User → LoginResult
  refused : Refusal → LoginResult

abbrev pub set_failures : ℕ → ℕ → ℕ → User → User
set_failures now failures until u = record u {
  failed_attempts = failures;
  locked_until = until;
  updated_at = now;
}

abbrev pub set_logged_in : ℕ → User → User
set_logged_in now u = record u {
  failed_attempts = 0;
  locked_until = 0;
  last_login_at = some now;
  updated_at = now;
}

-- The lock after so many failures.
unfoldable pub lock_until : ℕ → ℕ → ℕ
lock_until now failures = if leb 5 failures then now + 15 * 60 else 0

unfoldable pub fail_login : ℕ → User → AdminDb → LoginResult × AdminDb
unfolding lock_until update
fail_login now u db =
    let failures = u.failed_attempts + 1 in
    (
      refused (if lock_until now failures == 0 then wrong (5 - failures) else now_locked),
      record db {
        users =
            update (λ v. v.id == u.id) (set_failures now failures (lock_until now failures))
              db.users;
      },
    )

unfoldable pub is_expired : ℕ → Session → Bool
is_expired now s = leb s.expires_at now

unfoldable pub has_token : Text → Session → Bool
unfolding text_eq
has_token hash s = text_eq s.token_hash hash

unfoldable pub new_session : ℕ → ℕ → Text → ℕ → Session
new_session id now hash user_id = record {
  id = id;
  token_hash = hash;
  user_id = user_id;
  created_at = now;
  expires_at = now + 12 * 60 * 60;
  last_seen_at = now;
}

-- The branch of a right password; `token` is the fresh token. The UNIQUE of token_hash refuses one
-- that is there, and the transaction is rolled back.
unfoldable pub open_session : Platform → ℕ → Text → User → AdminDb → LoginResult × AdminDb
unfolding is_expired has_token new_session delete insert update fetch_one
open_session p now token u db =
    let alive = delete (is_expired now) db.sessions in
    let users = update (λ v. v.id == u.id) (set_logged_in now) db.users in
    if any_of (has_token (p.sha256 token)) alive then (refused taken, db) else (
      granted token (now + 12 * 60 * 60) (fetch_one (λ v. v.id == u.id) users),
      record db {
        users = users;
        sessions = insert (new_session (db.session_seq + 1) now (p.sha256 token) u.id) alive;
        session_seq = db.session_seq + 1;
      },
    )

unfoldable pub login_row :
    Platform → ℕ → Text → Text → AdminDb → Option User → LoginResult × AdminDb
unfolding matches_hash fail_login open_session
login_row p now password token db none = (refused unknown, db)
login_row p now password token db (some u) =
    if not u.enabled
    then (refused disabled, db)
    else if ltb now u.locked_until
    then (refused (locked ((max 1 (u.locked_until - now) + 59) / 60)), db)
    else if not (matches_hash p password u)
    then fail_login now u db
    else open_session p now token u db

-- login, in one transaction under BEGIN IMMEDIATE.
unfoldable pub login : Platform → ℕ → Text → Text → Text → AdminDb → LoginResult × AdminDb
unfolding login_row is_named strip fetch_one
login p now username password token db =
    login_row p now password token db (fetch_one (is_named (strip p.is_space username)) db.users)
