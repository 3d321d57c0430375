-- ===== src/Backend/Admin/Grant.antt =====
-- Proofs on login and validate_session of okxquant_backend/admin_auth.py: a session from its start on.
use okxquant.Prelude.{
  ℕ, ◌+◌, Text, Bool, true, false, ◌≡◌, refl, inl, inr, Option, none, some, List, arith, Bool-cases,
  All-any_of, any_of, ◌==◌, ltb, ◌&&◌,
}
use okxquant.Prelude.Table.{update, insert, fetch_one, delete, Distinct}
use okxquant.Backend.Admin.Accounts.{User, Session, AdminDb, Platform, is_named, strip}
use okxquant.Backend.Admin.Login.{
  matches_hash, set_logged_in, fail_login, is_expired, has_token, new_session, open_session,
  login_row, login,
}
use okxquant.Backend.Admin.Sessions.{see, is_live, validate_session, is_blank}
use okxquant.Prelude.{◌<◌, ◌*◌, ap, sym, ◌∙◌, All-map, text_eq_refl}
use okxquant.Prelude.Table.{
  fetch_one-refused, fetch_one-update, fetch_one-insert, fetch_one-only, same_id, IsKeyed-only,
}
use okxquant.Backend.Admin.Login.{LoginResult, granted}
use okxquant.Backend.Admin.Sessions.{owner_of}
use okxquant.Backend.Admin.Valid.{IsSound, user_id}

-- What must hold of the row for a login to be granted.
pub record IsWelcome (p : Platform) (now : ℕ) (password : Text) (u : User) : Type 0 where
  pub enabled : u.enabled ≡ true
  pub unlocked : ltb now u.locked_until ≡ false
  pub right : matches_hash p password u ≡ true

granted_row :
    (p : Platform) (now : ℕ) (password token t : Text) (expires : ℕ) (user : Option User)
    (db : AdminDb) (u : User)
    → (login_row p now password token db (some u)).0 ≡ granted t expires user
    → IsWelcome p now password u
      × (login_row p now password token db (some u) ≡ open_session p now token u db)
unfolding login_row fail_login
granted_row p now password token t expires user db u h = elim (Bool-cases u.enabled) [
  | inr e ↦ absurd (cc (rw e at h))
  | inl e ↦ elim (Bool-cases (ltb now u.locked_until)) [
    | inl l ↦ absurd (cc (rw (e, l) at h))
    | inr l ↦ elim (Bool-cases (matches_hash p password u)) [
      | inr m ↦ absurd (cc (rw (e, l, m) at h))
      | inl m ↦ (record { enabled = e; unlocked = l; right = m }, rw (e, l, m) refl)
    ]
  ]
]

pub welcomed :
    (p : Platform) (now : ℕ) (password token : Text) (db : AdminDb) (u : User)
    → IsWelcome p now password u
    → login_row p now password token db (some u) ≡ open_session p now token u db
unfolding login_row
welcomed p now password token db u w = rw (w.enabled, w.unlocked, w.right) refl

-- The row of the user under any query that only this row meets, after the login.
logged_in_found :
    (q r : User → Bool) (now : ℕ) (users : List User) (u : User)
    → Distinct (same_id user_id) users
    → fetch_one r users ≡ some u
    → q u ≡ true
    → ((x : User) → q x ≡ true → (x.id == u.id) ≡ true)
    → ((x : User) → q (set_logged_in now x) ≡ q x)
    → fetch_one q (update (λ v. v.id == u.id) (set_logged_in now) users)
      ≡ some (set_logged_in now u)
logged_in_found q r now users u d e holds key keep =
    let at : (u.id == u.id) ≡ true = ground arith in
    fetch_one-update q (λ v. v.id == u.id) (set_logged_in now) keep users
    ∙ rw (fetch_one-only user_id r q users u (IsKeyed-only user_id r users d e) e holds key)
        (rw at refl)

live_session :
    (later : ℕ) (hash : Text) (users : List User) (s : Session) (v : User)
    → has_token hash s ≡ true
    → later < s.expires_at
    → owner_of s.user_id users ≡ some v
    → is_live later hash users s ≡ true
unfolding is_live owner_of
live_session later hash users s v token soon owner =
    let on_time : ltb later s.expires_at ≡ true = ground arith in rw (token, on_time, owner) refl

seen_owner :
    (later : ℕ) (db : AdminDb) (s : Session) (v : User)
    → owner_of s.user_id db.users ≡ some v
    → (see later db (some s)).0 ≡ some v
unfolding see
seen_owner later db s v e = e

-- A row that a login found and welcomed, and a token that no session has.
module _ (p : Platform) (now later : ℕ) (token : Text) (r : User → Bool) (u : User) (db : AdminDb)
    (sound : IsSound db) (found : fetch_one r db.users ≡ some u) (enabled : u.enabled ≡ true)
    (fresh : any_of (has_token (p.sha256 token)) (delete (is_expired now) db.sessions)
      ≡ false) where
  pub open_granted :
      (open_session p now token u db).0
      ≡ granted token (now + 12 * 60 * 60) (some (set_logged_in now u))
  unfolding open_session
  open_granted = rw fresh (
      ap (λ (o : Option User). granted token (now + 12 * 60 * 60) o)
        (logged_in_found (λ v. v.id == u.id) r now db.users u sound.user_keys.distinct found
          (ground arith) (λ x h. h) (λ x. refl)))

  opened_owner :
      owner_of u.id (update (λ v. v.id == u.id) (set_logged_in now) db.users)
      ≡ some (set_logged_in now u)
  unfolding owner_of
  opened_owner =
      logged_in_found (λ v. v.id == u.id && v.enabled) r now db.users u sound.user_keys.distinct
        found (let at : (u.id == u.id) ≡ true = ground arith in rw (at, enabled) refl)
        (λ x h. ground arith) (λ x. refl)

  opened_validate :
      later < now + 12 * 60 * 60
      → is_blank token ≡ false
      → (validate_session p later token (open_session p now token u db).1).0
        ≡ some (set_logged_in now u)
  unfolding open_session validate_session
  opened_validate soon named_token =
      let users = update (λ v. v.id == u.id) (set_logged_in now) db.users in
      let alive = delete (is_expired now) db.sessions in
      let new = new_session (db.session_seq + 1) now (p.sha256 token) u.id in
      let hash = p.sha256 token in
      let before : fetch_one (is_live later hash users) alive ≡ none =
        fetch_one-refused (is_live later hash users) alive (
          All-map (λ s. has_token hash s ≡ false) (λ s. is_live later hash users s ≡ false)
            (λ s k. unfold is_live in rw k refl) alive (All-any_of (has_token hash) alive fresh)) in
      let same : has_token hash new ≡ true =
        unfold has_token in unfold new_session in text_eq_refl hash in
      let live : is_live later hash users new ≡ true =
        live_session later hash users new (set_logged_in now u) same (unfold new_session in soon)
          (unfold new_session in opened_owner) in
      rw (fresh, named_token, fetch_one-insert (is_live later hash users) alive new before live)
        (seen_owner later
          (record {
            users = users;
            user_seq = db.user_seq;
            sessions = insert new alive;
            session_seq = db.session_seq + 1;
          })
          new (set_logged_in now u) (unfold new_session in opened_owner))

refused_taken :
    (p : Platform) (now : ℕ) (token t : Text) (expires : ℕ) (user : Option User) (u : User)
    (db : AdminDb)
    → (open_session p now token u db).0 ≡ granted t expires user
    → any_of (has_token (p.sha256 token)) (delete (is_expired now) db.sessions) ≡ false
unfolding open_session
refused_taken p now token t expires user u db h =
    elim (Bool-cases (any_of (has_token (p.sha256 token)) (delete (is_expired now) db.sessions))) [
      | inl e ↦ absurd (cc (rw e at h))
      | inr e ↦ e
    ]

no_row :
    (p : Platform) (now : ℕ) (password token t : Text) (expires : ℕ) (user : Option User)
    (db : AdminDb)
    → (login_row p now password token db none).0 ≡ granted t expires user
    → ⊥
unfolding login_row
no_row p now password token t expires user db h = cc

-- In a database that satisfies the constraints of SCHEMA, a login is granted only for the right
-- password of an enabled account that is not locked; and then its token, if it is not empty, is
-- valid for twelve hours, as long as nothing else is called, and stands for that user.
pub login-validate_session :
    (p : Platform) (now later : ℕ) (username password token t : Text) (expires : ℕ)
    (user : Option User) (db : AdminDb)
    → IsSound db
    → (login p now username password token db).0 ≡ granted t expires user
    → later < now + 12 * 60 * 60
    → is_blank token ≡ false
    → (u : User) × (fetch_one (is_named (strip p.is_space username)) db.users ≡ some u)
      × (u.enabled ≡ true)
      × (ltb now u.locked_until ≡ false)
      × (matches_hash p password u ≡ true)
      × ((validate_session p later token (login p now username password token db).1).0
          ≡ some (set_logged_in now u))
login-validate_session p now later username password token t expires user db v h soon solid =
    go (fetch_one (is_named (strip p.is_space username)) db.users) refl (unfold login in h)
  where
    go :
        (o : Option User)
        → fetch_one (is_named (strip p.is_space username)) db.users ≡ o
        → (login_row p now password token db o).0 ≡ granted t expires user
        → (u : User) × (fetch_one (is_named (strip p.is_space username)) db.users ≡ some u)
          × (u.enabled ≡ true)
          × (ltb now u.locked_until ≡ false)
          × (matches_hash p password u ≡ true)
          × ((validate_session p later token (login p now username password token db).1).0
              ≡ some (set_logged_in now u))
    go none e k = absurd (no_row p now password token t expires user db k)
    go (some u) e k =
        let (welcome, opens) = granted_row p now password token t expires user db u k in
        let fresh = refused_taken p now token t expires user u db (ap (λ r. r.0) (sym opens) ∙ k) in
        let whole : login p now username password token db ≡ open_session p now token u db =
          unfold login in rw e opens in
        (
          u,
          e,
          welcome.enabled,
          welcome.unlocked,
          welcome.right,
          ap (λ (r : LoginResult × AdminDb). (validate_session p later token r.1).0) whole
              ∙ opened_validate p now later token (is_named (strip p.is_space username)) u db v e
                  welcome.enabled fresh soon solid,
        )
