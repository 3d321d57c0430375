-- ===== src/Backend/Admin/Accounts.antt =====
-- SCHEMA of okxquant_backend/admin_auth.py, and the checks of names and passwords. Times are seconds
-- since the epoch; a salt is its bytes.
use okxquant.Prelude.{
  ℕ, ◌+◌, Text, Bool, true, false, ◌&&◌, ◌||◌, Option, List, [], ◌∷◌, leb, ◌==◌, any_of, length,
  map, if◌then◌else◌,
}
use okxquant.Prelude.{text_eq}

pub data Role : Type 0 where
  superadmin admin : Role

-- admin_users
pub record User : Type 0 where
  pub id : ℕ
  pub username : Text
  pub password_hash : Text
  pub salt : Text
  pub iterations : ℕ
  pub role : Role
  pub enabled : Bool
  pub failed_attempts : ℕ
  pub locked_until : ℕ
  pub created_at : ℕ
  pub updated_at : ℕ
  pub last_login_at : Option ℕ

-- admin_sessions
pub record Session : Type 0 where
  pub id : ℕ
  pub token_hash : Text
  pub user_id : ℕ
  pub created_at : ℕ
  pub expires_at : ℕ
  pub last_seen_at : ℕ

pub record AdminDb : Type 0 where
  pub users : List User
  pub user_seq : ℕ
  pub sessions : List Session
  pub session_seq : ℕ

abbrev pub no_users : AdminDb
no_users = record { users = []; user_seq = 0; sessions = []; session_seq = 0 }

-- hashlib's pbkdf2_hmac (password, salt, iterations) and sha256, and str's isalpha, isdigit and
-- isspace on a code point.
pub record Platform : Type 0 where
  pub pbkdf2 : Text → Text → ℕ → Text
  pub sha256 : Text → Text
  pub is_alpha : ℕ → Bool
  pub is_digit : ℕ → Bool
  pub is_space : ℕ → Bool

-- COLLATE NOCASE folds the ASCII letters.
unfoldable pub fold_case : ℕ → ℕ
fold_case c = if leb 65 c && leb c 90 then c + 32 else c

unfoldable pub same_name : Text → Text → Bool
unfolding fold_case text_eq
same_name a b = text_eq (map fold_case a) (map fold_case b)

unfoldable pub strip_left : (ℕ → Bool) → Text → Text
strip_left space [] = []
strip_left space (c ∷ rest) =
    let later = strip_left space rest in if space c then later else c ∷ rest

-- Of the rest of a text, without its last spaces.
unfoldable pub strip_right : (ℕ → Bool) → Text → Text
strip_right space [] = []
strip_right space (c ∷ rest) = elim (strip_right space rest) [
  | [] ↦ if space c then [] else c ∷ []
  | d ∷ more ↦ c ∷ d ∷ more
]

-- username.strip()
unfoldable pub strip : (ℕ → Bool) → Text → Text
unfolding strip_left strip_right
strip space t = strip_right space (strip_left space t)

unfoldable pub is_letter : ℕ → Bool
is_letter c = (leb 65 c && leb c 90) || (leb 97 c && leb c 122)

-- [A-Za-z0-9_.-]
unfoldable pub is_name_char : ℕ → Bool
unfolding is_letter
is_name_char c = is_letter c || ((leb 48 c && leb c 57) || (c == 95 || (c == 46 || c == 45)))

unfoldable pub all_of : (ℕ → Bool) → Text → Bool
all_of p [] = true
all_of p (c ∷ rest) = p c && all_of p rest

-- USERNAME_RE.fullmatch
unfoldable pub is_username : Text → Bool
unfolding is_letter is_name_char all_of
is_username [] = false
is_username (c ∷ rest) =
    is_letter c && (all_of is_name_char rest && (leb 2 (length rest) && leb (length rest) 31))

-- _password_valid
unfoldable pub password_valid : Platform → Text → Bool
password_valid p password =
    leb 12 (length password)
    && (leb (length password) 128 && (any_of p.is_alpha password && any_of p.is_digit password))

unfoldable pub is_named : Text → User → Bool
unfolding same_name
is_named name u = same_name u.username name

-- role='superadmin' AND enabled=1
unfoldable pub is_super : Role → Bool
is_super superadmin = true
is_super admin = false

unfoldable pub is_ruler : User → Bool
unfolding is_super
is_ruler u = is_super u.role && u.enabled
