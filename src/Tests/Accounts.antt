-- ===== src/Tests/Accounts.antt =====
-- Password resets at concrete inputs.
use ntu_cloud_native.Prelude.{
  ◌≤◌, String, Bool, true, false, Option, none, some, [], ◌∷◌, ◌≡◌, refl, arith, find, ◌==◌, nat_eq,
  string_eq, ==_refl,
}
use Prim.Native.String
use ntu_cloud_native.Prelude.Text.{strip}
use ntu_cloud_native.Schema.{UserAccount, Database}
use ntu_cloud_native.Result.{ok, err, http_error}
use ntu_cloud_native.Accounts.{
  Security, is_value, has_login, may_reset, update_user, with_reset, with_password, sent,
  request_password_reset, confirm_password_reset, login,
}
use ntu_cloud_native.Accounts.Reset.{
  holds, IsHeldAlone, confirm_password_reset_once, reset_sets_password,
}
use ntu_cloud_native.Tests.Data.{empty_db}

abbrev verify : String → Option String → Bool
verify password stored = is_value stored password

-- Functions that keep the texts as they are.
abbrev plain : Security
plain = record {
  hash_password = λ salt password. password;
  verify_password = verify;
  hash_reset_token = λ token. token;
  verifies = λ salt password. ==_refl password;
}

abbrev account : UserAccount
account = record {
  user_id = 7;
  username = "E7";
  email = some "e7@example.com";
  password_hash = some "old password";
  password_reset_token_hash = none;
  password_reset_expires_at = none;
  password_reset_used_at = none;
  role = "EMPLOYEE";
  employee_id = none;
  is_active = true;
}

abbrev accounts : Database
accounts = record empty_db { users = account ∷ [] }

abbrev asked : Database
asked = record empty_db { users = with_reset plain "token" 1000 account ∷ [] }

abbrev changed : Database
changed = record empty_db {
  users = with_password plain "salt" "new one" 2000 (with_reset plain "token" 1000 account) ∷ [];
}

account-found : find (may_reset accounts "E7") accounts.users ≡ some account
unfolding may_reset has_login strip
account-found = refl

asked-found :
    find (holds plain (strip "token")) asked.users ≡ some (with_reset plain "token" 1000 account)
unfolding strip
asked-found = refl

asked-alone : IsHeldAlone plain (strip "token") (with_reset plain "token" 1000 account) asked.users
unfolding strip
asked-alone = refl

asked-changed : confirm_password_reset plain "salt" 2000 "token" "new one" asked ≡ ok changed
unfolding confirm_password_reset update_user strip
asked-changed = refl

confirm_password_reset_once_example :
    confirm_password_reset plain "other" 3000 "token" "another" changed ≡ err (http_error 400)
confirm_password_reset_once_example =
    confirm_password_reset_once plain "salt" "other" "token" "new one" "another" 2000 3000 asked
      changed (with_reset plain "token" 1000 account) asked-found asked-alone asked-changed

-- A password is stored without the spaces around it, and a login takes it as it is typed.
spaces_lock_out :
    (confirm_password_reset plain "salt" 2000 "token" " new one " asked ≡ ok changed)
    × (login plain "E7" " new one " false changed ≡ err (http_error 401))
unfolding confirm_password_reset update_user strip login has_login
spaces_lock_out = (refl, refl)

bare_token : strip "token" ≡ "token"
unfolding strip
bare_token = refl

long_enough : 6 ≤ String.count (strip "new one")
unfolding strip
long_enough = omega arith

reset_sets_password_example :
    ((request_password_reset plain (λ s. s) "token" 1000 "E7" "anyone@example.com" accounts).0
      ≡ sent "token" (strip "anyone@example.com"))
    × ((db' : Database) × (confirm_password_reset plain "salt" 2000 "token" "new one"
            (request_password_reset plain
              (λ s. s)
              "token"
              1000
              "E7"
              "anyone@example.com"
              accounts).1
          ≡ ok db')
        × (find (λ v. v.user_id == account.user_id) db'.users
            ≡ some (
                with_password plain "salt"
                  (strip "new one")
                  2000
                  (with_reset plain "token" 1000 account))))
    × (plain.verify_password
          (strip "new one")
          (with_password plain "salt"
            (strip "new one")
            2000
            (with_reset plain "token" 1000 account)).password_hash
        ≡ true)
reset_sets_password_example =
    reset_sets_password plain (λ s. s) "salt" "token" "new one" "E7" "anyone@example.com" 1000 2000
      accounts account (refl, tt) account-found bare_token refl long_enough (omega arith)
