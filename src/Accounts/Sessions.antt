-- ===== src/Accounts/Sessions.antt =====
-- Passwords and session tokens of reporting-api/app/security.py, and the user of a request of
-- reporting-api/app/dependencies.py. HMAC, PBKDF2 and Base64 are an interface; bytes are texts of
-- their numbers here.
pub mod Tokens
pub mod User
use ntu_cloud_native.Prelude.Text.{strip, is_empty}
use ntu_cloud_native.Permissions.Departments.{◌>>=◌}
use ntu_cloud_native.Schema.{UserAccount, Database}
use ntu_cloud_native.Prelude.Decimal.{below_zero, read_int, lacks, natural, cut, decimal, Integer}
use Prim.Native.String
use Prim.Native.String.{String, ◌++◌ as ◌<>◌}
use Prim.Native.Char.{code}
use ntu_cloud_native.Prelude.{
  nat_eq, string_eq, starts_with, suc, ◌&&◌, is_some, ◌==◌, true, none, find, false, not, ltb, some,
  get_or, if◌then◌else◌, Bool, ◌+◌, ◌≡◌, Option, ℕ, List,
}
use ntu_cloud_native.Result.{Result, ok, err, http_error, lookup_error}

-- What the code has of Python's `hmac`, `hashlib` and `base64`, with what it rests on: Base64 reads
-- what it wrote, in letters, digits and `-`, `_`, `=` alone.
pub record Crypto : Type 0 where
  -- `hmac.new(app_secret_key, text, sha256).hexdigest()`
  pub sign : String → String
  -- The password, the salt and the count of iterations.
  pub pbkdf2 : String → String → Integer → Option String
  pub encode : String → String
  pub decode : String → Option String
  pub decode-encode : (text : String) → decode (encode text) ≡ some text
  pub encode-lacks_dollar : (text : String) → lacks b'$' (encode text) ≡ true
  -- A count above zero is accepted.
  pub pbkdf2-accepts :
      (password salt : String) (n : ℕ) → is_some (pbkdf2 password salt (natural (suc n))) ≡ true

-- `f"{a}:{b}"` and `f"{a}${b}"`
abbrev pub with_colon : String → String → String
with_colon a b = a <> String.◌∷◌ ":" b

abbrev pub with_dollar : String → String → String
with_dollar a b = a <> String.◌∷◌ "$" b

-- `s.split(":", 1)` and `s.split("$", 1)`
abbrev pub cut_colon : String → Option (String × String)
cut_colon s = cut b':' s

abbrev pub cut_dollar : String → Option (String × String)
cut_dollar s = cut b'$' s

-- `value < now`
abbrev pub is_past : Integer → ℕ → Bool
is_past (natural n) now = ltb n now
is_past (below_zero n) now = true

-- The token of a request: that of the header `Authorization: Bearer …`, else that of the cookie.
unfoldable pub bearer_token : (String → String) → Option String → Option String → Result String
bearer_token lower session_cookie none = ok (get_or session_cookie "")
bearer_token lower session_cookie (some authorization) =
    if not (is_empty authorization) && starts_with (lower authorization) "bearer "
    then elim (cut b' ' authorization) [ none ↦ err lookup_error | some p ↦ ok (strip p.1) ]
    else ok (get_or session_cookie "")

-- `db.get(UserAccount, user_id)`
abbrev pub account_of : Database → Integer → Option UserAccount
account_of db (natural n) = find (λ user. user.user_id == n) db.users
account_of db (below_zero n) = none

unfoldable pub active_or_401 : Option UserAccount → Result UserAccount
active_or_401 none = err (http_error 401)
active_or_401 (some user) = if user.is_active then ok user else err (http_error 401)

-- The user with the id of a token, or without one.
unfoldable pub user_with : Database → Option Integer → Result UserAccount
unfolding active_or_401
user_with db none = err (http_error 401)
user_with db (some user_id) = active_or_401 (account_of db user_id)

abbrev or_nobody : Result UserAccount → Result (Option UserAccount)
or_nobody (ok user) = ok (some user)
or_nobody (err e) = ok none

module _ (crypto : Crypto) where
  -- `create_session_token` at the second `now`.
  unfoldable pub create_session_token : ℕ → ℕ → ℕ → String
  create_session_token now user_id ttl_seconds =
      let payload = with_colon (decimal user_id) (decimal (now + ttl_seconds)) in
      crypto.encode (with_colon payload (crypto.sign payload))

  -- The three parts of a token.
  unfoldable pub parse_parts : ℕ → String → String → String → Option Integer
  parse_parts now user_id_text expires_at_text signature =
      if not (signature == crypto.sign (with_colon user_id_text expires_at_text)) then none else do
        expires_at ← read_int expires_at_text
        if is_past expires_at now then none else read_int user_id_text

  -- `parse_session_token` at the second `now`: every exception is answered with `None`.
  unfoldable pub parse_session_token : ℕ → String → Option Integer
  unfolding parse_parts
  parse_session_token now token = do
    decoded ← crypto.decode token
    first ← cut_colon decoded
    second ← cut_colon first.1
    parse_parts now first.0 second.0 second.1

  abbrev pub hashed : String → Option String → Option String
  hashed salt none = none
  hashed salt (some digest) = some (
      with_dollar "pbkdf2_sha256"
        (with_dollar (decimal 120_000) (with_dollar (crypto.encode salt) (crypto.encode digest))))

  -- `hash_password` with the salt that it draws.
  unfoldable pub hash_password : String → String → Option String
  hash_password password salt = hashed salt (crypto.pbkdf2 password salt (natural 120_000))

  unfoldable pub verify_parts : String → String → String → String → String → Option Bool
  verify_parts password algorithm iterations salt_text digest_text =
      if not (algorithm == "pbkdf2_sha256") then some false else do
        salt ← crypto.decode salt_text
        expected ← crypto.decode digest_text
        count ← read_int iterations
        actual ← crypto.pbkdf2 password salt count
        some (actual == expected)

  -- The body of the `try`; `none` is an exception.
  unfoldable pub verify_stored : String → String → Option Bool
  unfolding verify_parts
  verify_stored password stored_hash = do
    first ← cut_dollar stored_hash
    second ← cut_dollar first.1
    third ← cut_dollar second.1
    verify_parts password first.0 second.0 third.0 third.1

  -- `verify_password`
  unfoldable pub verify_password : String → Option String → Bool
  unfolding verify_stored
  verify_password password none = false
  verify_password password (some stored_hash) =
      if is_empty stored_hash then false else get_or (verify_stored password stored_hash) false

  unfoldable pub user_of_token : ℕ → Database → String → Result UserAccount
  unfolding user_with parse_session_token
  user_of_token now db token = user_with db (parse_session_token now token)

  abbrev pub user_of_result : ℕ → Database → Result String → Result UserAccount
  user_of_result now db (err e) = err e
  user_of_result now db (ok token) = user_of_token now db token

  -- `get_current_user`
  unfoldable pub get_current_user :
      (String → String) → ℕ → Database → Option String → Option String → Result UserAccount
  unfolding bearer_token user_of_token
  get_current_user lower now db session_cookie authorization =
      user_of_result now db (bearer_token lower session_cookie authorization)

  abbrev user_or_nobody : ℕ → Database → Result String → Result (Option UserAccount)
  user_or_nobody now db (err e) = err e
  user_or_nobody now db (ok token) = or_nobody (user_of_token now db token)

  -- `get_optional_current_user`
  unfoldable pub get_optional_current_user :
      (String → String) → ℕ → Database → Option String → Option String → Result (Option UserAccount)
  unfolding bearer_token user_of_token
  get_optional_current_user lower now db session_cookie authorization =
      user_or_nobody now db (bearer_token lower session_cookie authorization)
