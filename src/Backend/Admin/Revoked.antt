-- ===== src/Backend/Admin/Revoked.antt =====
-- Proofs on okxquant_backend/admin_auth.py: sessions that were ended.
use okxquant.Prelude.{
  ℕ, Text, true, false, ◌≡◌, inl, inr, none, some, List, [], ◌∷◌, arith, Bool-cases, All, ◌==◌, ok,
}
use okxquant.Prelude.Table.{fetch_one, delete, Distinct}
use okxquant.Backend.Admin.Accounts.{Session, AdminDb, Platform}
use okxquant.Backend.Admin.Login.{has_token}
use okxquant.Backend.Admin.Sessions.{validate_session, owned_by}
use okxquant.Backend.Admin.Manage.{change_password, write_enabled, enable_found, set_enabled}
use okxquant.Backend.Admin.Actions.{Action, perform_all}
use okxquant.Prelude.{◌⊎◌, ap, ◌∙◌, All-map, text_eq_join}
use okxquant.Prelude.Table.{All-delete}
use okxquant.Backend.Admin.Valid.{IsSound, same_token}
use okxquant.Backend.Admin.Absent.{issues, kept_absent, perform_all-IsAbsent, absent_rejected}

-- A token is that of one session at most, so that it goes with the sessions of that session's owner.
gone_with_owner :
    (hash : Text) (i : ℕ) (sessions : List Session) (s : Session)
    → Distinct same_token sessions
    → fetch_one (has_token hash) sessions ≡ some s
    → s.user_id ≡ i
    → All (λ r. has_token hash r ≡ false) (delete (owned_by i) sessions)
unfolding fetch_one delete owned_by
gone_with_owner hash i [] s d e own = tt
gone_with_owner hash i (x ∷ xs) s d e own = elim (Bool-cases (has_token hash x)) [
  | inl t ↦
      let same : x ≡ s = ground arith in
      let mine : (x.user_id == i) ≡ true =
        let at : x.user_id ≡ i = ap (λ (r : Session). r.user_id) same ∙ own in ground arith in
      rw mine (
        All-delete (λ r. has_token hash r ≡ false) (owned_by i) xs
          (All-map (λ y. same_token x y ≡ false) (λ y. has_token hash y ≡ false)
            (λ y other. elim (Bool-cases (has_token hash y)) [
              | inl k ↦
                  let both : same_token x y ≡ true =
                    unfold same_token in
                    text_eq_join x.token_hash y.token_hash hash (unfold has_token in t)
                      (unfold has_token in k) in
                  absurd (cc (other, both))
              | inr k ↦ k
            ])
            xs d.0))
  | inr t ↦
      let rest = gone_with_owner hash i xs s d.1 (ground arith) own in
      elim (Bool-cases (x.user_id == i)) [ inl m ↦ rw m rest | inr m ↦ rw m (t, rest) ]
]

ended_by_change :
    (p : Platform) (now i : ℕ) (password salt : Text) (db db' : AdminDb)
    → change_password p now i password salt db ≡ ok db'
    → db'.sessions ≡ delete (owned_by i) db.sessions
unfolding change_password
ended_by_change p now i password salt db db' h = ground arith

ended_by_disabling :
    (now i actor : ℕ) (db db' : AdminDb)
    → set_enabled now i false actor db ≡ ok db'
    → db'.sessions ≡ delete (owned_by i) db.sessions
unfolding set_enabled enable_found write_enabled
ended_by_disabling now i actor db db' h = ground arith

-- In a database that satisfies the constraints of SCHEMA, a new password or a disabled account
-- ends the sessions of the user for good: where one of these calls succeeds, a token that was
-- the user's is refused at any later time, whatever is called in between, as long as no login
-- hands out a token with the same hash.
pub revoked-validate_session :
    (p : Platform) (now later i actor : ℕ) (password salt token : Text) (s : Session)
    (actions : List (ℕ × Action)) (db db' : AdminDb)
    → IsSound db
    → fetch_one (has_token (p.sha256 token)) db.sessions ≡ some s
    → s.user_id ≡ i
    → (change_password p now i password salt db ≡ ok db')
      ⊎ (set_enabled now i false actor db ≡ ok db')
    → All (λ a. issues p (p.sha256 token) a.1 ≡ false) actions
    → (validate_session p later token (perform_all p actions db')).0 ≡ none
revoked-validate_session p now later i actor password salt token s actions db db' v found own ending
      other =
    let gone = gone_with_owner (p.sha256 token) i db.sessions s v.tokens_once found own in
    let ended : db'.sessions ≡ delete (owned_by i) db.sessions = elim ending [
      | inl h ↦ ended_by_change p now i password salt db db' h
      | inr h ↦ ended_by_disabling now i actor db db' h
    ] in
    absent_rejected p later token (perform_all p actions db') (
      perform_all-IsAbsent p (p.sha256 token) actions db' other
        (kept_absent (p.sha256 token) db'.sessions (delete (owned_by i) db.sessions) ended gone))
