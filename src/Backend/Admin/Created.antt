-- ===== src/Backend/Admin/Created.antt =====
-- Proofs on create_user and login of okxquant_backend/admin_auth.py: an account from its creation on.
use okxquant.Prelude.{
  ℕ, ◌+◌, ◌*◌, Text, true, false, ◌≡◌, refl, none, some, arith, All-any_of, any_of, ok,
  text_eq_refl, subst, map,
}
use okxquant.Prelude.Table.{insert, fetch_one, delete, fetch_one-insert, fetch_one-refused}
use okxquant.Backend.Admin.Accounts.{
  Role, User, AdminDb, Platform, is_named, strip, same_name, fold_case,
}
use okxquant.Backend.Admin.Login.{
  login, granted, set_logged_in, is_expired, has_token, open_session, matches_hash,
}
use okxquant.Backend.Admin.Manage.{create_user, add_user, new_user}
use okxquant.Backend.Admin.Actions.{create, kept_with, perform}
use okxquant.Backend.Admin.Valid.{IsSound}
use okxquant.Backend.Admin.Valid.Perform.{perform-IsSound}
use okxquant.Backend.Admin.Grant.{IsWelcome, welcomed, open_granted}

-- What a creation that succeeds has done.
record IsCreated (p : Platform) (now : ℕ) (name password salt : Text) (role : Role) (u : User)
    (db db' : AdminDb) : Type 0 where
  new : any_of (is_named name) db.users ≡ false
  row : u ≡ new_user p (db.user_seq + 1) now name password salt role
  users : db'.users ≡ insert u db.users
  sessions : db'.sessions ≡ db.sessions

create_user-IsCreated :
    (p : Platform) (now : ℕ) (username password salt : Text) (role : Role) (u : User)
    (db db' : AdminDb)
    → create_user p now username password salt role db ≡ ok (u, db')
    → IsCreated p now (strip p.is_space username) password salt role u db db'
unfolding create_user add_user
create_user-IsCreated p now username password salt role u db db' h = record {
  new = ground arith;
  row = ground arith;
  users = ground arith;
  sessions = ground arith;
}

created-IsSound :
    (p : Platform) (now : ℕ) (username password salt : Text) (role : Role) (u : User)
    (db db' : AdminDb)
    → IsSound db
    → create_user p now username password salt role db ≡ ok (u, db')
    → IsSound db'
created-IsSound p now username password salt role u db db' v h =
    let kept_sound : IsSound (kept_with db (create_user p now username password salt role db)) =
      unfold perform in perform-IsSound p now (create username password salt role) db v in
    subst (λ r. IsSound (kept_with db r)) h kept_sound

-- The row of a new account is found by its name and welcomes its password.
new_user_named :
    (p : Platform) (id now : ℕ) (name password salt : Text) (role : Role)
    → is_named name (new_user p id now name password salt role) ≡ true
unfolding is_named same_name new_user
new_user_named p id now name password salt role = text_eq_refl (map fold_case name)

new_user-IsWelcome :
    (p : Platform) (id now later : ℕ) (name password salt : Text) (role : Role)
    → IsWelcome p later password (new_user p id now name password salt role)
unfolding new_user matches_hash
new_user-IsWelcome p id now later name password salt role = record {
  enabled = refl;
  unlocked = ground arith;
  right = text_eq_refl (p.pbkdf2 password salt 600000);
}

-- From a database that satisfies the constraints of SCHEMA, an account that create_user made is
-- let in by login under the name and the password it was made with, at any time as long as the
-- database is as create_user left it, if no session that is still alive has the hash of the
-- fresh token: the answer is the token, good for twelve hours, and the new user's row.
pub create_user-login :
    (p : Platform) (now later : ℕ) (username password salt token : Text) (role : Role) (u : User)
    (db db' : AdminDb)
    → IsSound db
    → create_user p now username password salt role db ≡ ok (u, db')
    → any_of (has_token (p.sha256 token)) (delete (is_expired later) db'.sessions) ≡ false
    → (login p later username password token db').0
      ≡ granted token (later + 12 * 60 * 60) (some (set_logged_in later u))
create_user-login p now later username password salt token role u db db' v h fresh =
    let made = create_user-IsCreated p now username password salt role u db db' h in
    let name = strip p.is_space username in
    let before : fetch_one (is_named name) db.users ≡ none =
      fetch_one-refused (is_named name) db.users (All-any_of (is_named name) db.users made.new) in
    let named : is_named name u ≡ true =
      rw made.row (new_user_named p (db.user_seq + 1) now name password salt role) in
    let found : fetch_one (is_named name) db'.users ≡ some u =
      rw made.users (fetch_one-insert (is_named name) db.users u before named) in
    let welcome : IsWelcome p later password u =
      rw made.row (new_user-IsWelcome p (db.user_seq + 1) now later name password salt role) in
    let sound = created-IsSound p now username password salt role u db db' v h in
    let whole : login p later username password token db' ≡ open_session p later token u db' =
      unfold login in rw found (welcomed p later password token db' u welcome) in
    rw whole
      (open_granted p later later token (is_named name) u db' sound found welcome.enabled fresh)
