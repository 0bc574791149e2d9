-- ===== src/Tests/Sessions.antt =====
-- Session tokens and passwords at concrete inputs.
use ntu_cloud_native.Accounts.Sessions.User.{
  get_current_user-IsSignedFor, IsSignedFor, login-get_current_user,
}
use ntu_cloud_native.Accounts.Sessions.Tokens.{
  verify_password-hash_password, security, parse_session_token-create_session_token,
}
use ntu_cloud_native.Prelude.Text.{strip}
use Prim.Native.String.{String}
use Prim.Native.Char.{code}
use text.Mathlib.TextEquality.{Char-path}
use ntu_cloud_native.Prelude.{
  Option, inr, sym, ◌∙◌, eqb_iff, inl, arith, refl, ◌↔◌, [], ap, Bool-cases, true, ◌∷◌, none, ◌≡◌,
  some, false, Bool, eqb, if◌then◌else◌,
}
use ntu_cloud_native.Prelude.Decimal.{read_int, cut, lacks, decimal, Integer}
use ntu_cloud_native.Schema.{UserAccount, Database}
use ntu_cloud_native.Result.{ok}
use ntu_cloud_native.Accounts.{has_login, login}
use ntu_cloud_native.Accounts.Sessions.{
  account_of, create_session_token, bearer_token, get_current_user, parse_session_token, Crypto,
  hash_password, verify_password,
}
use ntu_cloud_native.Tests.Data.{empty_db}

-- A code without the dollar sign, in place of Base64.
escape : String → String
escape String.[] = String.[]
escape (String.◌∷◌ c s) =
    let rest = escape s in
    if eqb (code c) b'$' then String.◌∷◌ "b" rest else String.◌∷◌ "a" (String.◌∷◌ c rest)

unescape : Bool → String → String
unescape plain String.[] = String.[]
unescape true (String.◌∷◌ c s) = String.◌∷◌ c (unescape false s)
unescape false (String.◌∷◌ c s) =
    let dollar = String.◌∷◌ "$" (unescape false s) in
    let plain = unescape true s in if eqb (code c) b'b' then dollar else plain

unescape-escape : (s : String) → unescape false (escape s) ≡ s
unfolding escape unescape
unescape-escape String.[] = refl
unescape-escape (String.◌∷◌ c s) = elim (Bool-cases (eqb (code c) b'$')) [
  | inl dollar ↦
      let same : c ≡ "$" = Char-path c "$" ((eqb_iff (code c) b'$').0 dollar) in
      rw dollar
        (ap (λ r. String.◌∷◌ "$" r) (unescape-escape s) ∙ ap (λ a. String.◌∷◌ a s) (sym same))
  | inr other ↦ rw other (ap (λ r. String.◌∷◌ c r) (unescape-escape s))
]

escape-lacks : (s : String) → lacks b'$' (escape s) ≡ true
unfolding escape
escape-lacks String.[] = refl
escape-lacks (String.◌∷◌ c s) = elim (Bool-cases (eqb (code c) b'$')) [
  | inl dollar ↦ rw (dollar, escape-lacks s)
  | inr other ↦ rw (other, other, escape-lacks s)
]

-- A signature that is the text behind a letter, and a digest that is the password.
abbrev crypto : Crypto
crypto = record {
  sign = λ text. String.◌∷◌ "s" text;
  pbkdf2 = λ password salt n. some password;
  encode = escape;
  decode = λ text. some (unescape false text);
  decode-encode = λ text. ap some (unescape-escape text);
  encode-lacks_dollar = escape-lacks;
  pbkdf2-accepts = λ password salt n. refl;
}

expired : parse_session_token crypto 401 (create_session_token crypto 100 7 300) ≡ none
expired = parse_session_token-create_session_token crypto 100 7 300 401

forged : parse_session_token crypto 400 (escape "7:500:s8:500") ≡ none
unfolding parse_session_token escape unescape cut
forged = refl

abbrev hash : String
hash = "pbkdf2_sha256$120000$a1a2$asaeacaraeat"

hash_is : hash_password crypto "secret" "12" ≡ some hash
unfolding hash_password decimal escape
hash_is = refl

verify_password-hash_password_example :
    (verify_password crypto "secret" (some hash) ≡ true)
    ↔ ◌≡◌ {A = Option String} (some "secret") (some "secret")
verify_password-hash_password_example =
    verify_password-hash_password crypto "secret" "secret" "12" hash hash_is

abbrev user : UserAccount
user = record {
  user_id = 7;
  username = "E7";
  email = none;
  password_hash = some hash;
  password_reset_token_hash = none;
  password_reset_expires_at = none;
  password_reset_used_at = none;
  role = "EMPLOYEE";
  employee_id = none;
  is_active = true;
}

abbrev accounts : Database
accounts = record empty_db { users = user ∷ [] }

logged_in : login (security crypto) " E7 " "secret" false accounts ≡ ok (user, 28_800)
unfolding login has_login strip security verify_password cut decimal escape unescape read_int
logged_in = refl

login-get_current_user_example :
    get_current_user crypto
      (λ s. s)
      28_900
      accounts
      (some (create_session_token crypto 100 7 28_800))
      none
    ≡ ok user
login-get_current_user_example =
    login-get_current_user crypto (security crypto) (λ s. s) accounts " E7 " "secret" false user
      28_800 100 28_900 (refl, tt) logged_in (omega arith)

get_current_user-IsSignedFor_example :
    (token : String) × (user_id : Integer) × (bearer_token
        (λ s. s)
        (some (create_session_token crypto 100 7 28_800))
        none
      ≡ ok token)
    × IsSignedFor crypto 28_900 token user_id
    × (account_of accounts user_id ≡ some user)
    × (user.is_active ≡ true)
get_current_user-IsSignedFor_example =
    get_current_user-IsSignedFor crypto (λ s. s) 28_900 accounts
      (some (create_session_token crypto 100 7 28_800)) none user login-get_current_user_example
