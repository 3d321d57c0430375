-- ===== src/Backend/Admin/Sessions.antt =====
-- AdminAuthStore.validate_session, logout and logout_user.
use okxquant.Prelude.{
  ℕ, Text, Bool, true, false, ◌&&◌, Option, none, some, List, [], ◌∷◌, ltb, ◌==◌, if◌then◌else◌,
}
use okxquant.Prelude.Table.{update, fetch_one, delete}
use okxquant.Backend.Admin.Accounts.{User, Session, AdminDb, Platform}
use okxquant.Backend.Admin.Login.{has_token}

-- The enabled user of a session's row.
unfoldable pub owner_of : ℕ → List User → Option User
unfolding fetch_one
owner_of user_id users = fetch_one (λ u. u.id == user_id && u.enabled) users

-- FROM admin_sessions s JOIN admin_users u WHERE s.token_hash=? AND s.expires_at>? AND u.enabled=1
unfoldable pub is_live : ℕ → Text → List User → Session → Bool
unfolding has_token owner_of
is_live now hash users s =
    has_token hash s
    && (ltb now s.expires_at && elim (owner_of s.user_id users) [ none ↦ false | some u ↦ true ])

abbrev pub set_seen : ℕ → Session → Session
set_seen now s = record s { last_seen_at = now }

unfoldable pub see : ℕ → AdminDb → Option Session → Option User × AdminDb
unfolding owner_of update
see now db none = (none, db)
see now db (some s) = (
  owner_of s.user_id db.users,
  record db { sessions = update (λ r. r.id == s.id) (set_seen now) db.sessions },
)

unfoldable pub is_blank : Text → Bool
is_blank [] = true
is_blank (c ∷ rest) = false

unfoldable pub validate_session : Platform → ℕ → Text → AdminDb → Option User × AdminDb
unfolding is_live see is_blank fetch_one
validate_session p now token db =
    if is_blank token
    then (none, db)
    else see now db (fetch_one (is_live now (p.sha256 token) db.users) db.sessions)

unfoldable pub logout : Platform → Text → AdminDb → AdminDb
unfolding has_token delete
logout p token db = record db { sessions = delete (has_token (p.sha256 token)) db.sessions }

unfoldable pub owned_by : ℕ → Session → Bool
owned_by user_id s = s.user_id == user_id

unfoldable pub logout_user : ℕ → AdminDb → AdminDb
unfolding owned_by delete
logout_user user_id db = record db { sessions = delete (owned_by user_id) db.sessions }
