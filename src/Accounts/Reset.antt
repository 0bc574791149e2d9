-- ===== src/Accounts/Reset.antt =====
-- What a password reset of reporting-api/app/routers/auth.py does to the accounts.
use ntu_cloud_native.Accounts.{
  may_reset, answer_reset, is_usable, with_reset, with_password, sent, request_password_reset,
  is_value, confirm_password_reset, update_user, Security,
}
use ntu_cloud_native.Prelude.{
  and_left, ℕ, ◌+◌, ◌*◌, ◌≤◌, String, Bool, true, false, not, ◌&&◌, none, some, List, [], ◌∷◌, ◌≡◌,
  refl, arith, any, eq_of_==, find, Bool-cases, inl, inr, ltb, ◌==◌, nat_eq, string_eq, ==_refl, ap,
  ◌∙◌, sym, false≢true,
}
use Prim.Native.String
use ntu_cloud_native.Prelude.Text.{strip}
use ntu_cloud_native.Timestamp.{Timestamp, minute}
use ntu_cloud_native.Schema.{UserAccount, Database}
use ntu_cloud_native.Permissions.Departments.{none-not-some, some-inj}
use ntu_cloud_native.Result.{Result, ok, err, http_error}

-- No two users have one id.
abbrev pub IsKeyed : List UserAccount → Type 0
IsKeyed [] = Unit
IsKeyed (u ∷ us) = (any (λ v. v.user_id == u.user_id) us ≡ false) × IsKeyed us

pub find-passes {ℓ} :
    {A : Type ℓ} (p : A → Bool) (xs : List A) (a : A) → find p xs ≡ some a → p a ≡ true
find-passes p [] a h = absurd (none-not-some h)
find-passes p (x ∷ xs) a h = elim (Bool-cases (p x)) [
  | inl passes ↦ ap p (sym (some-inj (rw passes at h))) ∙ passes
  | inr fails ↦ find-passes p xs a (rw fails at h)
]

find-any {ℓ} :
    {A : Type ℓ} (p q : A → Bool) (xs : List A) (a : A)
    → find p xs ≡ some a
    → q a ≡ true
    → any q xs ≡ true
find-any p q [] a h k = absurd (none-not-some h)
find-any p q (x ∷ xs) a h k = elim (Bool-cases (p x)) [
  | inl passes ↦ let e = some-inj (rw passes at h) in ground (arith, ap q e)
  | inr fails ↦ ground (arith, find-any p q xs a (rw fails at h) k)
]

find-none {ℓ} : {A : Type ℓ} (p : A → Bool) (xs : List A) → any p xs ≡ false → find p xs ≡ none
find-none p [] h = refl
find-none p (x ∷ xs) h = ground (arith, find-none p xs)

abbrev pub has_id : ℕ → UserAccount → Bool
has_id i v = v.user_id == i

-- A user that some query finds is the one that its id finds.
pub find-has_id :
    (p : UserAccount → Bool) (users : List UserAccount) (u : UserAccount)
    → IsKeyed users
    → find p users ≡ some u
    → find (has_id u.user_id) users ≡ some u
find-has_id p [] u keyed h = absurd (none-not-some h)
find-has_id p (x ∷ users) u keyed h = elim (Bool-cases (p x)) [
  | inl passes ↦ let e = some-inj (rw passes at h) in rw (← e, ==_refl x.user_id)
  | inr fails ↦
      let rest : find p users ≡ some u = rw fails at h in
      let there = find-any p (has_id u.user_id) users u rest (==_refl u.user_id) in
      elim (Bool-cases (x.user_id == u.user_id)) [
        | inl same ↦
            let e : x.user_id ≡ u.user_id = eq_of_== x.user_id u.user_id same in
            absurd (false≢true (sym keyed.0 ∙ ap (λ i. any (has_id i) users) e ∙ there))
        | inr other ↦ rw other (find-has_id p users u keyed.1 rest)
      ]
]

module _ (change : UserAccount → UserAccount)
    (keeps : (u : UserAccount) → (change u).user_id ≡ u.user_id) where
  find-update_user :
      (i : ℕ) (users : List UserAccount) (u : UserAccount)
      → find (has_id i) users ≡ some u
      → find (has_id i) (update_user i change users) ≡ some (change u)
  unfolding update_user
  find-update_user i [] u h = absurd (none-not-some h)
  find-update_user i (x ∷ users) u h = elim (Bool-cases (x.user_id == i)) [
    | inl same ↦
        let e = some-inj (rw same at h) in
        let kept : has_id i (change x) ≡ true = ap (λ j. j == i) (keeps x) ∙ same in
        rw (same, kept) (ap (λ v. some (change v)) e)
    | inr other ↦ rw (other, other) (find-update_user i users u (rw other at h))
  ]

  -- A row that alone passes after the change is found by what it passes.
  find_by-update_user :
      (q : UserAccount → Bool) (i : ℕ) (users : List UserAccount) (u : UserAccount)
      → find (has_id i) users ≡ some u
      → any (λ v. q v && not (has_id i v)) users ≡ false
      → q (change u) ≡ true
      → find q (update_user i change users) ≡ some (change u)
  unfolding update_user
  find_by-update_user q i [] u h alone k = absurd (none-not-some h)
  find_by-update_user q i (x ∷ users) u h alone k = elim (Bool-cases (x.user_id == i)) [
    | inl same ↦
        let e = some-inj (rw same at h) in
        rw (same, ap (λ v. q (change v)) e ∙ k) (ap (λ v. some (change v)) e)
    | inr other ↦
        let skip : q x ≡ false = ground arith in
        rw (other, skip) (find_by-update_user q i users u (rw other at h) (ground arith) k)
  ]

  any-update_user :
      (q : UserAccount → Bool) (i : ℕ) (users : List UserAccount)
      → any (λ v. q v && not (has_id i v)) users ≡ false
      → ((v : UserAccount) → q (change v) ≡ false)
      → any q (update_user i change users) ≡ false
  unfolding update_user
  any-update_user q i [] alone k = refl
  any-update_user q i (x ∷ users) alone k =
      ground (arith, any-update_user q i users (ground arith) k, k x)

abbrev pub holds : Security → String → UserAccount → Bool
holds sec token user = is_value user.password_reset_token_hash (sec.hash_reset_token token)

-- Only the user's own row may hold the token.
abbrev pub IsHeldAlone : Security → String → UserAccount → List UserAccount → Type 0
IsHeldAlone sec token user users =
    any (λ v. holds sec token v && not (v.user_id == user.user_id)) users ≡ false

-- The accounts after a confirmation that succeeds.
confirmed-users :
    (sec : Security) (salt token password : String) (now : Timestamp) (db db' : Database)
    (user : UserAccount)
    → find (holds sec (strip token)) db.users ≡ some user
    → confirm_password_reset sec salt now token password db ≡ ok db'
    → update_user user.user_id (with_password sec salt (strip password) now) db.users ≡ db'.users
unfolding confirm_password_reset
confirmed-users sec salt token password now db db' user found done =
    elim (Bool-cases (ltb (String.count (strip password)) 6)) [
      | inl short ↦ absurd (raised (rw short at done))
      | inr long ↦ elim (Bool-cases (is_usable now user)) [
        | inl usable ↦ ap users_of (rw (long, found, usable) at done)
        | inr not_usable ↦ absurd (raised (rw (long, found, not_usable) at done))
      ]
    ]
  where
    raised : ◌≡◌ {A = Result Database} (err (http_error 400)) (ok db') → ⊥
    raised e = cc

    users_of : Result Database → List UserAccount
    users_of (ok d) = d.users
    users_of (err e) = []

-- A token that was used once is of no account any more: if it is of one account and a confirmation with it succeeds, each later one with it is refused with status 400.
pub confirm_password_reset_once :
    (sec : Security) (salt salt' token password password' : String) (now now' : Timestamp)
    (db db' : Database) (user : UserAccount)
    → find (holds sec (strip token)) db.users ≡ some user
    → IsHeldAlone sec (strip token) user db.users
    → confirm_password_reset sec salt now token password db ≡ ok db'
    → confirm_password_reset sec salt' now' token password' db' ≡ err (http_error 400)
unfolding confirm_password_reset
confirm_password_reset_once sec salt salt' token password password' now now' db db' user found alone
      done =
    let gone = find-none (holds sec (strip token)) db'.users (
      rw (← confirmed-users sec salt token password now db db' user found done) (
        any-update_user (with_password sec salt (strip password) now) (λ v. refl)
          (holds sec (strip token)) user.user_id db.users alone (λ v. refl))) in
    elim (Bool-cases (ltb (String.count (strip password')) 6)) [
      | inl short ↦ rw short
      | inr long ↦ rw (long, gone)
    ]

request_found :
    (sec : Security) (lower : String → String) (token login_id email : String) (now : Timestamp)
    (db : Database) (user : UserAccount)
    → find (may_reset db login_id) db.users ≡ some user
    → request_password_reset sec lower token now login_id email db ≡ (
      sent token (lower (strip email)),
      record db { users = update_user user.user_id (with_reset sec token now) db.users },
    )
unfolding request_password_reset answer_reset
request_found sec lower token login_id email now db user found =
    ap (answer_reset sec lower token now email db) found

confirm_found :
    (sec : Security) (salt token password : String) (now : Timestamp) (db : Database)
    (user : UserAccount)
    → find (holds sec (strip token)) db.users ≡ some user
    → ltb (String.count (strip password)) 6 ≡ false
    → is_usable now user ≡ true
    → confirm_password_reset sec salt now token password db
      ≡ ok (record db {
        users = update_user user.user_id (with_password sec salt (strip password) now) db.users;
      })
unfolding confirm_password_reset
confirm_found sec salt token password now db user found long usable = rw (long, found, usable)

-- Whoever knows a login id can set the password of its account: after a request with that login id and any email, a confirmation within 30 minutes with the token of the answer sets the password to the new one without the spaces around it, of at least 6 characters, and that one verifies; this where ids are unique, the token has no spaces around it and is of no other account.
pub reset_sets_password :
    (sec : Security) (lower : String → String) (salt token password login_id email : String)
    (now later : Timestamp) (db : Database) (user : UserAccount)
    → IsKeyed db.users
    → find (may_reset db login_id) db.users ≡ some user
    → strip token ≡ token
    → IsHeldAlone sec token user db.users
    → 6 ≤ String.count (strip password)
    → later ≤ now + 30 * minute
    → ((request_password_reset sec lower token now login_id email db).0
        ≡ sent token (lower (strip email)))
      × ((db' : Database) × (confirm_password_reset sec salt later token password
              (request_password_reset sec lower token now login_id email db).1
            ≡ ok db')
          × (find (λ v. v.user_id == user.user_id) db'.users
              ≡ some
                  (with_password sec salt (strip password) later (with_reset sec token now user))))
      × (sec.verify_password
            (strip password)
            (with_password sec salt
              (strip password)
              later
              (with_reset sec token now user)).password_hash
          ≡ true)
unfolding may_reset
reset_sets_password sec lower salt token password login_id email now later db user keyed found bare
      alone long soon =
    let p = may_reset db login_id in
    let active : user.is_active ≡ true = and_left _ _ (find-passes p db.users user found) in
    let mine = find-has_id p db.users user keyed found in
    let holder =
      find_by-update_user (with_reset sec token now) (λ v. refl) (holds sec token) user.user_id
        db.users user mine alone (==_refl (sec.hash_reset_token token)) in
    let mine_after =
      find-update_user (with_reset sec token now) (λ v. refl) user.user_id db.users user mine in
    let long_enough : ltb (String.count (strip password)) 6 ≡ false = ground arith in
    let usable : is_usable later (with_reset sec token now user) ≡ true = ground arith in
    let after : List UserAccount = update_user user.user_id (with_reset sec token now) db.users in
    let asked : request_password_reset sec lower token now login_id email db
        ≡ (sent token (lower (strip email)), record db { users = after }) =
      request_found sec lower token login_id email now db user found in
    let db' : Database = record db {
      users = update_user user.user_id (with_password sec salt (strip password) later) after;
    } in
    let confirmed : confirm_password_reset sec salt later token password
          (record db { users = after })
        ≡ ok db' =
      confirm_found sec salt token password later (record db { users = after })
        (with_reset sec token now user) (ap (λ t. find (holds sec t) after) bare ∙ holder)
        long_enough usable in
    (
      ap (λ r. r.0) asked,
      (
        db',
        ap (λ r. confirm_password_reset sec salt later token password r.1) asked ∙ confirmed,
        find-update_user (with_password sec salt (strip password) later) (λ v. refl) user.user_id
            after (with_reset sec token now user) mine_after,
      ),
      sec.verifies salt (strip password),
    )
