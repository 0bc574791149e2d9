-- ===== src/Accounts/Sessions/User.antt =====
-- The user of a request, of reporting-api/app/dependencies.py, and the login before it.
use ntu_cloud_native.Permissions.Departments.{none-not-some, ◌>>=◌, bind-some}
use ntu_cloud_native.Accounts.Sessions.Tokens.{parse_session_token-create_session_token}
use ntu_cloud_native.Prelude.Text.{strip}
use ntu_cloud_native.Accounts.Reset.{find-has_id, IsKeyed}
use ntu_cloud_native.Prelude.Decimal.{read_int, Integer}
use ntu_cloud_native.Schema.{Database, UserAccount}
use ntu_cloud_native.Accounts.{http_error, has_login, token_ttl, login, login_as, Security}
use ntu_cloud_native.Prelude.{
  string_eq, eq_of_==, if◌then◌else◌, ◌==◌, refl, ◌∙◌, sym, ap, inr, inl, arith, false, ltb, find,
  none, ◌+◌, ◌||◌, ◌≤◌, not, Bool-cases, Bool, true, some, ◌≡◌, Option, String, ℕ,
}
use ntu_cloud_native.Result.{ok-inj, err-not-ok, Result, ok, err}
use ntu_cloud_native.Accounts.Sessions.{
  is_past, with_colon, account_of, user_of_result, parse_session_token, parse_parts, cut_colon,
  user_with, create_session_token, user_of_token, bearer_token, get_current_user, active_or_401,
  Crypto,
}

login_as-ok :
    (sec : Security) (password : String) (ttl : ℕ) (o : Option UserAccount) (user : UserAccount)
    (ttl' : ℕ)
    → login_as sec password ttl o ≡ ok (user, ttl')
    → (o ≡ some user) × (user.is_active ≡ true) × (ttl ≡ ttl')
unfolding login_as
login_as-ok sec password ttl none user ttl' h = absurd (err-not-ok h)
login_as-ok sec password ttl (some found) user ttl' h =
    elim (Bool-cases
      (not found.is_active || not (sec.verify_password password found.password_hash))) [
        | inl refused ↦ absurd (err-not-ok (rw refused at h))
        | inr accepted ↦
            let e = ok-inj (rw accepted at h) in
            let active : found.is_active ≡ true = ground arith in
            (ap (λ z. some z.0) e, ap (λ z. z.0.is_active) (sym e) ∙ active, ap (λ z. z.1) e)
      ]

-- The user who a login answers is the one of the requests with its session cookie, for as long as the lifetime of the session: 30 days where the login asks to be remembered, else 8 hours; this where the ids of users are unique and the table of users did not change.
pub login-get_current_user :
    (crypto : Crypto) (sec : Security) (lower : String → String) (db : Database)
    (employee_id password : String) (remember_me : Bool) (user : UserAccount)
    (ttl_seconds now later : ℕ)
    → IsKeyed db.users
    → login sec employee_id password remember_me db ≡ ok (user, ttl_seconds)
    → later ≤ now + token_ttl remember_me
    → get_current_user crypto lower later db
        (some (create_session_token crypto now user.user_id ttl_seconds))
        none
      ≡ ok user
unfolding login get_current_user bearer_token user_of_token user_with active_or_401
login-get_current_user crypto sec lower db employee_id password remember_me user ttl_seconds now
      later keyed h le =
    let (found, active, ttl) =
      login_as-ok sec password (token_ttl remember_me)
        (find (has_login db.employees (strip employee_id)) db.users) user ttl_seconds h in
    let mine = find-has_id (has_login db.employees (strip employee_id)) db.users user keyed found in
    let alive : ltb (now + ttl_seconds) later ≡ false = ground arith in
    rw (
      parse_session_token-create_session_token crypto now user.user_id ttl_seconds later,
      alive,
      mine,
      active,
    )

-- A token that carries the signature of the service over the id of a user and an end of its lifetime,
-- which has not passed.
pub record IsSignedFor (crypto : Crypto) (now : ℕ) (token : String) (user_id : Integer)
    : Type 0 where
  pub decoded : String
  pub first : String × String
  pub second : String × String
  pub expires_at : Integer
  pub token_decodes : crypto.decode token ≡ some decoded
  pub first_parts : cut_colon decoded ≡ some first
  pub second_parts : cut_colon first.1 ≡ some second
  pub signature_is : second.1 ≡ crypto.sign (with_colon first.0 second.0)
  pub id_is : read_int first.0 ≡ some user_id
  pub end_is : read_int second.0 ≡ some expires_at
  pub not_past : is_past expires_at now ≡ false

active_or_401-ok :
    (o : Option UserAccount) (user : UserAccount)
    → active_or_401 o ≡ ok user
    → (o ≡ some user) × (user.is_active ≡ true)
unfolding active_or_401
active_or_401-ok none user h = absurd (err-not-ok h)
active_or_401-ok (some found) user h = elim (Bool-cases found.is_active) [
  | inl active ↦
      let chosen = ap (λ b. if b then ok found else err (http_error 401)) active in
      let e = ok-inj (sym chosen ∙ h) in (ap some e, ap (λ z. z.is_active) (sym e) ∙ active)
  | inr inactive ↦ absurd (err-not-ok (rw inactive at h))
]

parse_parts-IsSigned :
    (crypto : Crypto) (now : ℕ) (uid exp signature : String) (user_id : Integer)
    → parse_parts crypto now uid exp signature ≡ some user_id
    → (signature ≡ crypto.sign (with_colon uid exp))
      × (read_int uid ≡ some user_id)
      × ((expires_at : Integer) × (read_int exp ≡ some expires_at)
          × (is_past expires_at now ≡ false))
unfolding parse_parts
parse_parts-IsSigned crypto now uid exp signature user_id h =
    elim (Bool-cases (signature == crypto.sign (with_colon uid exp))) [
      | inr forged ↦ absurd (none-not-some (rw forged at h))
      | inl signed ↦
          let (expires_at, e, k) =
            bind-some (read_int exp)
              (λ expires_at. if is_past expires_at now then none else read_int uid) user_id
              (rw signed at h) in
          elim (Bool-cases (is_past expires_at now)) [
            | inl past ↦ absurd (none-not-some (rw past at k))
            | inr alive ↦ (
              eq_of_== signature (crypto.sign (with_colon uid exp)) signed,
              rw alive at k,
              (expires_at, e, alive),
            )
          ]
    ]

parse_session_token-IsSignedFor :
    (crypto : Crypto) (now : ℕ) (token : String) (user_id : Integer)
    → parse_session_token crypto now token ≡ some user_id
    → IsSignedFor crypto now token user_id
unfolding parse_session_token
parse_session_token-IsSignedFor crypto now token user_id h =
    let (decoded, e0, k0) =
      bind-some (crypto.decode token)
        (λ decoded. cut_colon decoded >>= (λ first.
          cut_colon first.1 >>= (λ second. parse_parts crypto now first.0 second.0 second.1)))
        user_id h in
    let (first, e1, k1) =
      bind-some (cut_colon decoded)
        (λ first.
          cut_colon first.1 >>= (λ second. parse_parts crypto now first.0 second.0 second.1))
        user_id k0 in
    let (second, e2, k2) =
      bind-some (cut_colon first.1) (λ second. parse_parts crypto now first.0 second.0 second.1)
        user_id k1 in
    let (signature, id, alive) =
      parse_parts-IsSigned crypto now first.0 second.0 second.1 user_id k2 in
    record {
      decoded = decoded;
      first = first;
      second = second;
      expires_at = alive.0;
      token_decodes = e0;
      first_parts = e1;
      second_parts = e2;
      signature_is = signature;
      id_is = id;
      end_is = alive.1;
      not_past = alive.2;
    }

user_with-ok :
    (crypto : Crypto) (now : ℕ) (token : String) (db : Database) (o : Option Integer)
    (user : UserAccount)
    → parse_session_token crypto now token ≡ o
    → user_with db o ≡ ok user
    → (user_id : Integer) × IsSignedFor crypto now token user_id
      × (account_of db user_id ≡ some user)
      × (user.is_active ≡ true)
unfolding user_with
user_with-ok crypto now token db none user e h = absurd (err-not-ok h)
user_with-ok crypto now token db (some user_id) user e h =
    let (found, active) = active_or_401-ok (account_of db user_id) user h in
    (user_id, parse_session_token-IsSignedFor crypto now token user_id e, found, active)

user_of_result-ok :
    (crypto : Crypto) (now : ℕ) (db : Database) (r : Result String) (user : UserAccount)
    → user_of_result crypto now db r ≡ ok user
    → (token : String) × (r ≡ ok token) × (user_of_token crypto now db token ≡ ok user)
user_of_result-ok crypto now db (err e) user h = absurd (err-not-ok h)
user_of_result-ok crypto now db (ok token) user h = (token, refl, h)

-- The current user of a request is an active account, found by the id in the token of the request, and that token carries the signature of the service over the id and an end of its lifetime that has not passed.
pub get_current_user-IsSignedFor :
    (crypto : Crypto) (lower : String → String) (now : ℕ) (db : Database)
    (session_cookie authorization : Option String) (user : UserAccount)
    → get_current_user crypto lower now db session_cookie authorization ≡ ok user
    → (token : String) × (user_id : Integer) × (bearer_token lower session_cookie authorization
        ≡ ok token)
      × IsSignedFor crypto now token user_id
      × (account_of db user_id ≡ some user)
      × (user.is_active ≡ true)
unfolding get_current_user user_of_token
get_current_user-IsSignedFor crypto lower now db session_cookie authorization user h =
    let (token, e, found) =
      user_of_result-ok crypto now db (bearer_token lower session_cookie authorization) user h in
    let (user_id, signed, account, active) =
      user_with-ok crypto now token db (parse_session_token crypto now token) user refl found in
    (token, user_id, e, signed, account, active)
