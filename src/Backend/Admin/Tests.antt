-- ===== src/Backend/Admin/Tests.antt =====
-- Runs of okxquant_backend/admin_auth.py at concrete inputs: one superadministrator, amy.
use okxquant.Prelude.{
  ℕ, ◌+◌, ◌*◌, ◌≡◌, ◌≤◌, ◌<◌, Text, true, false, refl, inl, some, none, List, [], ◌∷◌, ◌++◌, ◌&&◌,
  leb, ltb, ◌==◌, arith, ok, text_eq, All,
}
use okxquant.Prelude.Table.{fetch_one, delete}
use okxquant.Backend.Admin.Accounts.{
  User, AdminDb, Platform, superadmin, admin, no_users, is_named, strip, is_ruler,
}
use okxquant.Backend.Admin.Login.{
  login, refused, locked, granted, set_logged_in, matches_hash, new_session, has_token,
}
use okxquant.Backend.Admin.Sessions.{is_blank, validate_session}
use okxquant.Backend.Admin.Manage.{new_user, set_password, create_user, change_password}
use okxquant.Backend.Admin.Actions.{Action, create, enter, enable, change, perform_all}
use okxquant.Backend.Admin.Valid.{IsSound}
use okxquant.Backend.Admin.Valid.Perform.{no_users-IsSound, perform_all-IsSound}
use okxquant.Backend.Admin.Rulers.{IsRuled, perform_all-IsRuled}
use okxquant.Backend.Admin.Lockout.{IsWrong, guess, guess-locked}
use okxquant.Backend.Admin.Absent.{issues}
use okxquant.Backend.Admin.Revoked.{revoked-validate_session}
use okxquant.Backend.Admin.Grant.{login-validate_session}
use okxquant.Backend.Admin.Created.{create_user-login}

-- A platform whose digests are the texts themselves.
abbrev plain : Platform
plain = record {
  pbkdf2 = λ password salt iterations. password ++ salt;
  sha256 = λ token. token;
  is_alpha = λ c. leb 97 c && leb c 122;
  is_digit = λ c. leb 48 c && leb c 57;
  is_space = λ c. c == 32;
}

abbrev amy : Text
amy = 97 ∷ 109 ∷ 121 ∷ []

abbrev bob : Text
bob = 98 ∷ 111 ∷ 98 ∷ []

abbrev secret : Text
secret = 97 ∷ 98 ∷ 99 ∷ 100 ∷ 101 ∷ 102 ∷ 103 ∷ 104 ∷ 105 ∷ 106 ∷ 107 ∷ 49 ∷ []

abbrev salt : Text
salt = 7 ∷ []

abbrev token : Text
token = 116 ∷ []

abbrev amy_row : User
amy_row = new_user plain 1 100 amy secret salt superadmin

abbrev one_user : AdminDb
one_user = record {
  users = amy_row ∷ [];
  user_seq = 1;
  sessions = new_session 1 100 token 1 ∷ [];
  session_seq = 1;
}

one_user-IsSound : IsSound one_user
unfolding new_user new_session
one_user-IsSound = record {
  user_keys = record { bounded = (ground arith, tt); distinct = (tt, tt) };
  names_once = (tt, tt);
  session_keys = record { bounded = (ground arith, tt); distinct = (tt, tt) };
  tokens_once = (tt, tt);
}

-- bob is added, amy is disabled in vain and changes the password.
abbrev calls : List (ℕ × Action)
calls =
    (200, create bob secret salt admin)
    ∷ (201, enable 1 false 2)
    ∷ (202, change 1 secret (8 ∷ []))
    ∷ (203, enter amy secret (9 ∷ []))
    ∷ []

perform_all-IsSound_example : IsSound (perform_all plain calls no_users)
perform_all-IsSound_example = perform_all-IsSound plain calls no_users no_users-IsSound

one_user-IsRuled : IsRuled one_user
unfolding is_ruler new_user
one_user-IsRuled = refl

perform_all-IsRuled_example : IsRuled (perform_all plain calls one_user)
perform_all-IsRuled_example =
    perform_all-IsRuled plain calls one_user one_user-IsSound one_user-IsRuled

abbrev guesses : List (ℕ × Text)
guesses = (1000, bob) ∷ (1001, []) ∷ (1002, bob) ∷ (1003, amy) ∷ (1004, bob) ∷ []

one_user_amy : fetch_one (is_named (strip plain.is_space amy)) one_user.users ≡ some amy_row
unfolding fetch_one is_named new_user strip
one_user_amy = refl

guesses-IsWrong : All (IsWrong plain 1000 amy_row) guesses
unfolding new_user matches_hash
guesses-IsWrong =
    let wrong_at : (n : ℕ) → 1000 ≤ n → n < 1900 → (1000 ≤ n) × (n < 1900) × (false ≡ false) =
      λ n a b. (a, b, refl) in
    (
      wrong_at 1000 (ground arith) (ground arith),
      (
        wrong_at 1001 (ground arith) (ground arith),
        (
          wrong_at 1002 (ground arith) (ground arith),
          (
            wrong_at 1003 (ground arith) (ground arith),
            (wrong_at 1004 (ground arith) (ground arith), tt),
          ),
        ),
      ),
    )

guess-locked_example :
    (minutes : ℕ) × (login plain 1100 amy secret token (guess plain amy guesses one_user)
      ≡ (refused (locked minutes), guess plain amy guesses one_user))
unfolding new_user
guess-locked_example =
    guess-locked plain 1000 1100 amy secret token guesses amy_row one_user one_user_amy refl
      (ground arith) (ground arith) (ground arith) guesses-IsWrong (ground arith)

-- The database when amy has changed her password.
abbrev changed : AdminDb
changed = record one_user {
  users = set_password 200 (secret ++ (8 ∷ [])) (8 ∷ []) amy_row ∷ [];
  sessions = [];
}

amy_changed : change_password plain 200 1 secret (8 ∷ []) one_user ≡ ok changed
unfolding change_password new_user new_session
amy_changed = refl

one_user_session : fetch_one (has_token token) one_user.sessions ≡ some (new_session 1 100 token 1)
unfolding fetch_one has_token new_session
one_user_session = refl

revoked-validate_session_example :
    (validate_session plain 300 token
      (perform_all plain ((250, enter amy secret bob) ∷ []) changed)).0
    ≡ none
unfolding new_session issues text_eq
revoked-validate_session_example =
    revoked-validate_session plain 200 300 1 2 secret (8 ∷ []) token (new_session 1 100 token 1)
      ((250, enter amy secret bob) ∷ []) one_user changed one_user-IsSound one_user_session refl
      (inl amy_changed) (refl, tt)

-- amy logs in at 200 and is seen at 300.
amy_granted :
    (login plain 200 amy secret bob one_user).0
    ≡ granted bob (200 + 12 * 60 * 60) (some (set_logged_in 200 amy_row))
unfolding login new_user
amy_granted = refl

login-validate_session_example :
    (u : User) × (fetch_one (is_named (strip plain.is_space amy)) one_user.users ≡ some u)
    × (u.enabled ≡ true)
    × (ltb 200 u.locked_until ≡ false)
    × (matches_hash plain secret u ≡ true)
    × ((validate_session plain 300 bob (login plain 200 amy secret bob one_user).1).0
        ≡ some (set_logged_in 200 u))
login-validate_session_example =
    login-validate_session plain 200 300 amy secret bob bob (200 + 12 * 60 * 60)
      (some (set_logged_in 200 amy_row)) one_user one_user-IsSound amy_granted (ground arith)
      (unfold is_blank in refl)

-- bob's account, made in an empty database.
abbrev bob_row : User
bob_row = new_user plain 1 100 bob secret salt admin

abbrev with_bob : AdminDb
with_bob = record no_users { users = bob_row ∷ []; user_seq = 1 }

bob_created : create_user plain 100 bob secret salt admin no_users ≡ ok (bob_row, with_bob)
unfolding create_user
bob_created = refl

create_user-login_example :
    (login plain 5000 bob secret token with_bob).0
    ≡ granted token (5000 + 12 * 60 * 60) (some (set_logged_in 5000 bob_row))
unfolding delete
create_user-login_example =
    create_user-login plain 100 5000 bob secret salt token admin bob_row no_users with_bob
      no_users-IsSound bob_created refl
