-- ===== src/Result.antt =====
-- Python's exceptions as values. What a session has not committed is rolled back when an exception
-- leaves it, so a fallible operation returns either its value with the new database, or the error
-- alone.
use ntu_cloud_native.Prelude.{ap, false≢true, ℕ, Bool, true, false, Option, none, some, ◌≡◌, refl}

pub data Error : Type 0 where
  key_error value_error type_error overflow_error lookup_error data_error integrity_error
        operational_error :
      Error
  http_error : ℕ → Error

pub data Result {ℓ} (A : Type ℓ) : Type ℓ where
  ok : A → Result A
  err : Error → Result A

abbrev pub is_ok {ℓ} : {A : Type ℓ} → Result A → Bool
is_ok (ok a) = true
is_ok (err e) = false

infixl 5 ◌>>◌ ◌>>=◌
abbrev pub ◌>>=◌ {ℓ κ} : {A : Type ℓ} {B : Type κ} → Result A → (A → Result B) → Result B
ok value >>= next = next value
err raised >>= next = err raised

abbrev pub or_raise {ℓ} : {A : Type ℓ} → Option A → Error → Result A
or_raise none e = err e
or_raise (some a) e = ok a

abbrev pub ◌>>◌ {ℓ} : {B : Type ℓ} → Result (Unit {0}) → Result B → Result B
first >> second = first >>= λ _. second

-- `if not holds: raise e`
abbrev pub guard : Bool → Error → Result (Unit {0})
guard false raised = err raised
guard true raised = ok tt

-- What holds of the value, if there is one.
abbrev pub Ensures {ℓ κ} : {A : Type ℓ} → (A → Type κ) → Result A → Type κ
Ensures P (ok a) = P a
Ensures P (err e) = Unit

module _ {ℓ κ ι μ} {A : Type ℓ} {B : Type κ} where
  pub Ensures-bind :
      (P : A → Type ι) (Q : B → Type μ) (m : Result A) (f : A → Result B)
      → Ensures P m
      → ((a : A) → P a → Ensures Q (f a))
      → Ensures Q (m >>= f)
  Ensures-bind P Q (ok a) f h k = k a h
  Ensures-bind P Q (err e) f h k = tt

module _ {κ μ} {B : Type κ} where
  pub Ensures-guard :
      (Q : B → Type μ) (b : Bool) (e : Error) (m : Result B)
      → (b ≡ true → Ensures Q m)
      → Ensures Q (guard b e >> m)
  Ensures-guard Q true e m k = k refl
  Ensures-guard Q false e m k = tt

  pub Ensures-ok : (Q : B → Type μ) (m : Result B) {b : B} → Ensures Q m → m ≡ ok b → Q b
  Ensures-ok Q m {b} h e = rw e at h

pub ok-inj {ℓ} : {A : Type ℓ} {a b : A} → ok a ≡ ok b → a ≡ b
ok-inj {a = a} h = ap (λ r. elim r [ ok x ↦ x | err e ↦ a ]) h

pub err-not-ok {ℓ} : {A : Type ℓ} {e : Error} {a : A} → err e ≡ ok a → ⊥
err-not-ok h = false≢true (ap is_ok h)
