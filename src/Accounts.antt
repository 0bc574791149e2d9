-- ===== src/Accounts.antt =====
-- Logins and the password reset of reporting-api/app/routers/auth.py. What
-- reporting-api/app/security.py computes of passwords and tokens is an interface, with the one law
-- that the routes rest on; `str.lower` and the random texts are arguments. Rows come in the order of
-- the table, where the queries leave the order open.
pub mod Reset
pub mod Sessions
use Prim.Native.String
use ntu_cloud_native.Prelude.{
  ℕ, ◌+◌, ◌*◌, String, Bool, true, false, not, ◌&&◌, ◌||◌, Option, none, some, List, [], ◌∷◌, ◌≡◌,
  any, find, is_some, is_none, if◌then◌else◌, ltb, ◌==◌, nat_eq, string_eq,
}
use ntu_cloud_native.Prelude.Text.{strip}
use ntu_cloud_native.Timestamp.{Timestamp, minute}
use ntu_cloud_native.Schema.{Employee, UserAccount, Database}
use ntu_cloud_native.Result.{Result, ok, err, Error, http_error}

pub record Security : Type 0 where
  -- Of a salt and a password.
  pub hash_password : String → String → String
  pub verify_password : String → Option String → Bool
  pub hash_reset_token : String → String
  pub verifies :
      (salt password : String)
      → verify_password password (some (hash_password salt password)) ≡ true

abbrev pub is_value : Option String → String → Bool
is_value none s = false
is_value (some t) s = t == s

-- The employee that the outer join finds for a user has the number asked for.
abbrev joined_employee_is : List Employee → Option String → String → Bool
joined_employee_is employees none login_id = false
joined_employee_is employees (some k) login_id =
    k == login_id && any (λ m. m.employee_id == k) employees

-- The WHERE of both queries for a login id.
unfoldable pub has_login : List Employee → String → UserAccount → Bool
has_login employees login_id user =
    user.username == login_id
    || is_value user.employee_id login_id
    || joined_employee_is employees user.employee_id login_id

-- The seconds of the two lifetimes of a session.
abbrev pub token_ttl : Bool → ℕ
token_ttl true = 60 * 60 * 24 * 30
token_ttl false = 60 * 60 * 8

-- What is done with the user that the query finds, or without one.
unfoldable pub login_as : Security → String → ℕ → Option UserAccount → Result (UserAccount × ℕ)
login_as sec password ttl none = err (http_error 401)
login_as sec password ttl (some user) =
    if not user.is_active || not (sec.verify_password password user.password_hash)
    then err (http_error 401)
    else ok (user, ttl)

-- `login` up to the session token: the user and the lifetime of the session.
unfoldable pub login : Security → String → String → Bool → Database → Result (UserAccount × ℕ)
unfolding login_as
login sec employee_id password remember_me db =
    login_as sec password (token_ttl remember_me)
      (find (has_login db.employees (strip employee_id)) db.users)

-- An UPDATE by the primary key.
unfoldable pub update_user : ℕ → (UserAccount → UserAccount) → List UserAccount → List UserAccount
update_user user_id change [] = []
update_user user_id change (user ∷ users) =
    let rest = update_user user_id change users in
    if user.user_id == user_id then change user ∷ rest else user ∷ rest

-- The answers to a request: the same message without a token when no account is found.
pub data ResetAnswer : Type 0 where
  perhaps_sent : (email : String) → ResetAnswer
  sent : (token email : String) → ResetAnswer

abbrev pub with_reset : Security → String → Timestamp → UserAccount → UserAccount
with_reset sec token now user = record user {
  password_reset_token_hash = some (sec.hash_reset_token token);
  password_reset_expires_at = some (now + 30 * minute);
  password_reset_used_at = none;
}

-- The WHERE of the query for a reset.
unfoldable pub may_reset : Database → String → UserAccount → Bool
unfolding has_login
may_reset db login_id user = user.is_active && has_login db.employees (strip login_id) user

-- What is done with the user that the query finds, or without one.
answer_reset :
    Security
    → (String → String)
    → String
    → Timestamp
    → String
    → Database
    → Option UserAccount
    → ResetAnswer × Database
answer_reset sec lower token now email db none = (perhaps_sent (lower (strip email)), db)
answer_reset sec lower token now email db (some user) = (
  sent token (lower (strip email)),
  record db { users = update_user user.user_id (with_reset sec token now) db.users },
)

-- `request_password_reset` at the time `now`, for the token that `create_password_reset_token` gives.
unfoldable pub request_password_reset :
    Security
    → (String → String)
    → String
    → Timestamp
    → String
    → String
    → Database
    → ResetAnswer × Database
unfolding may_reset answer_reset
request_password_reset sec lower token now login_id email db =
    answer_reset sec lower token now email db (find (may_reset db login_id) db.users)

abbrev pub is_before : Option Timestamp → Timestamp → Bool
is_before none now = true
is_before (some expires) now = ltb expires now

abbrev pub is_usable : Timestamp → UserAccount → Bool
is_usable now user =
    user.is_active
    && is_none user.password_reset_used_at
    && not (is_before user.password_reset_expires_at now)

abbrev pub with_password : Security → String → String → Timestamp → UserAccount → UserAccount
with_password sec salt password now user = record user {
  password_hash = some (sec.hash_password salt password);
  password_reset_used_at = some now;
  password_reset_token_hash = none;
  password_reset_expires_at = none;
}

-- `confirm_password_reset` at the time `now`, for the salt that `hash_password` draws.
unfoldable pub confirm_password_reset :
    Security → String → Timestamp → String → String → Database → Result Database
confirm_password_reset sec salt now token password db =
    if ltb (String.count (strip password)) 6
    then err (http_error 400)
    else elim (find
        (λ user. is_value user.password_reset_token_hash (sec.hash_reset_token (strip token)))
        db.users) [
          | none ↦ err (http_error 400)
          | some user ↦
              if is_usable now user
              then ok (record db {
                users =
                    update_user user.user_id (with_password sec salt (strip password) now) db.users;
              })
              else err (http_error 400)
        ]
