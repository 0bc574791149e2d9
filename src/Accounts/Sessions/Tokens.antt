-- ===== src/Accounts/Sessions/Tokens.antt =====
-- The tokens and passwords of reporting-api/app/security.py: what is written is read back, and what
-- is accepted was signed.
use ntu_cloud_native.Accounts.{Security}
use ntu_cloud_native.Prelude.Text.{is_empty}
use ntu_cloud_native.Permissions.Departments.{some-inj, none-not-some, ◌>>=◌}
use text.Mathlib.TextLemmas.{nil-append, append_assoc, cons-append}
use ntu_cloud_native.Prelude.{
  inr, is_some, inl, sym, eq_of_==, false≢true, Option-cases, ◌↔◌, get_or, false, Option, string_eq,
  ◌==◌, ==_refl, ◌+◌, none, ap, ltb, ◌∙◌, if◌then◌else◌,
}
use ntu_cloud_native.Prelude.Digits.{
  read_int-decimal, only_digits-decimal, cut-append, lacks-digits,
}
use ntu_cloud_native.Prelude.Decimal.{lacks, decimal}
use Prim.Native.String.{String, ◌++◌ as ◌<>◌}
use ntu_cloud_native.Prelude.{refl, some, true, ◌≡◌, ℕ}
use ntu_cloud_native.Accounts.Sessions.{
  hash_password, verify_password, hashed, natural, verify_parts, with_dollar, verify_stored,
  cut_dollar, cut_colon, create_session_token, parse_session_token, parse_parts, with_colon, Crypto,
}

with_colon_assoc : (a b c : String) → with_colon (with_colon a b) c ≡ with_colon a (with_colon b c)
with_colon_assoc a b c =
    append_assoc a (String.◌∷◌ ":" b) (String.◌∷◌ ":" c)
    ∙ ap (λ s. a <> s) (cons-append ":" b (String.◌∷◌ ":" c))

decimal-lacks_colon : (n : ℕ) → lacks b':' (decimal n) ≡ true
decimal-lacks_colon n = lacks-digits b':' (decimal n) refl (only_digits-decimal n)

cut_colon-with_colon :
    (n : ℕ) (t : String) → cut_colon (with_colon (decimal n) t) ≡ some (decimal n, t)
cut_colon-with_colon n t = cut-append ":" (decimal n) t (decimal-lacks_colon n)

is_empty-with_dollar : (a b : String) → is_empty (with_dollar a b) ≡ false
is_empty-with_dollar String.[] b = ap is_empty (nil-append (String.◌∷◌ "$" b))
is_empty-with_dollar (String.◌∷◌ c a) b = ap is_empty (cons-append c a (String.◌∷◌ "$" b))

equals_iff :
    (o : Option String) (digest : String)
    → (get_or (o >>= λ actual. some (actual == digest)) false ≡ true) ↔ (o ≡ some digest)
equals_iff none digest = ((λ h. absurd (false≢true h)), λ h. absurd (none-not-some h))
equals_iff (some actual) digest =
    ((λ h. ap some (eq_of_== actual digest h)), λ h. rw (some-inj h) (==_refl digest))

module _ (crypto : Crypto) where
  parse_parts-signed :
      (now user_id expires_at : ℕ)
      → parse_parts crypto now
          (decimal user_id)
          (decimal expires_at)
          (crypto.sign (with_colon (decimal user_id) (decimal expires_at)))
        ≡ (if ltb expires_at now then none else some (natural user_id))
  unfolding parse_parts
  parse_parts-signed now user_id expires_at = rw (
    ==_refl (crypto.sign (with_colon (decimal user_id) (decimal expires_at))),
    read_int-decimal expires_at,
    read_int-decimal user_id,
  )

  -- A session token that is read back is that of its user until its lifetime is over, and of nobody afterwards.
  pub parse_session_token-create_session_token :
      (now user_id ttl_seconds later : ℕ)
      → parse_session_token crypto later (create_session_token crypto now user_id ttl_seconds)
        ≡ (if ltb (now + ttl_seconds) later then none else some (natural user_id))
  unfolding parse_session_token create_session_token
  parse_session_token-create_session_token now user_id ttl_seconds later =
      let uid = decimal user_id in
      let exp = decimal (now + ttl_seconds) in
      let signature = crypto.sign (with_colon uid exp) in
      rw
        (
          crypto.decode-encode (with_colon (with_colon uid exp) signature),
          with_colon_assoc uid exp signature,
          cut_colon-with_colon user_id (with_colon exp signature),
          cut_colon-with_colon (now + ttl_seconds) signature,
        )
        (parse_parts-signed later user_id (now + ttl_seconds))

  decimal-lacks_dollar : (n : ℕ) → lacks b'$' (decimal n) ≡ true
  decimal-lacks_dollar n = lacks-digits b'$' (decimal n) refl (only_digits-decimal n)

  cut_dollar-algorithm :
      (t : String) → cut_dollar (with_dollar "pbkdf2_sha256" t) ≡ some ("pbkdf2_sha256", t)
  cut_dollar-algorithm t = cut-append "$" "pbkdf2_sha256" t refl

  cut_dollar-iterations :
      (t : String) → cut_dollar (with_dollar (decimal 120_000) t) ≡ some (decimal 120_000, t)
  cut_dollar-iterations t = cut-append "$" (decimal 120_000) t (decimal-lacks_dollar 120_000)

  cut_dollar-encode :
      (salt t : String)
      → cut_dollar (with_dollar (crypto.encode salt) t) ≡ some (crypto.encode salt, t)
  cut_dollar-encode salt t = cut-append "$" (crypto.encode salt) t (crypto.encode-lacks_dollar salt)

  verify_stored-hashed :
      (typed salt digest : String)
      → verify_stored crypto typed (
          with_dollar "pbkdf2_sha256" (
            with_dollar
              (decimal 120_000)
              (with_dollar (crypto.encode salt) (crypto.encode digest))))
        ≡ (crypto.pbkdf2 typed salt (natural 120_000) >>= λ actual. some (actual == digest))
  unfolding verify_stored verify_parts
  verify_stored-hashed typed salt digest = rw (
    cut_dollar-algorithm
        (with_dollar (decimal 120_000) (with_dollar (crypto.encode salt) (crypto.encode digest))),
    cut_dollar-iterations (with_dollar (crypto.encode salt) (crypto.encode digest)),
    cut_dollar-encode salt (crypto.encode digest),
    crypto.decode-encode salt,
    crypto.decode-encode digest,
    read_int-decimal 120_000,
  )

  verify_password-hashed :
      (typed salt : String) (o : Option String) (stored : String)
      → hashed crypto salt o ≡ some stored
      → (verify_password crypto typed (some stored) ≡ true)
        ↔ (crypto.pbkdf2 typed salt (natural 120_000) ≡ o)
  unfolding verify_password
  verify_password-hashed typed salt none stored h = absurd (none-not-some h)
  verify_password-hashed typed salt (some digest) stored h =
      let rest =
        with_dollar (decimal 120_000) (with_dollar (crypto.encode salt) (crypto.encode digest)) in
      let e : verify_password crypto typed (some stored)
          ≡ get_or
              (crypto.pbkdf2 typed salt (natural 120_000) >>= λ actual. some (actual == digest))
              false =
        ap (λ z. verify_password crypto typed (some z)) (sym (some-inj h))
        ∙ ap
            (λ b.
              if b
              then false
              else get_or (verify_stored crypto typed (with_dollar "pbkdf2_sha256" rest)) false)
            (is_empty-with_dollar "pbkdf2_sha256" rest)
        ∙ ap (λ o. get_or o false) (verify_stored-hashed typed salt digest) in
      let same = equals_iff (crypto.pbkdf2 typed salt (natural 120_000)) digest in
      ((λ v. same.0 (sym e ∙ v)), λ p. e ∙ same.1 p)

  -- A stored hash of a password verifies a typed one where PBKDF2 gives the same digest of both under its salt, and nowhere else.
  pub verify_password-hash_password :
      (typed password salt stored : String)
      → hash_password crypto password salt ≡ some stored
      → (verify_password crypto typed (some stored) ≡ true) ↔ (
          crypto.pbkdf2 typed salt (natural 120_000)
          ≡ crypto.pbkdf2 password salt (natural 120_000))
  unfolding hash_password
  verify_password-hash_password typed password salt stored h =
      verify_password-hashed typed salt (crypto.pbkdf2 password salt (natural 120_000)) stored h

  pub hashed-some :
      (password salt : String)
      → (stored : String) × (hash_password crypto password salt ≡ some stored)
  unfolding hash_password
  hashed-some password salt = elim (Option-cases (crypto.pbkdf2 password salt (natural 120_000))) [
    | inl refused ↦
        absurd (false≢true (sym (ap is_some refused) ∙ crypto.pbkdf2-accepts password salt 119_999))
    | inr (digest, e) ↦ (
      with_dollar "pbkdf2_sha256"
          (with_dollar (decimal 120_000) (with_dollar (crypto.encode salt) (crypto.encode digest))),
      ap (hashed crypto salt) e,
    )
  ]

  -- What the routes take of the passwords and tokens; `hash_reset_token` signs as `_sign` does.
  unfoldable pub security : Security
  security = record {
    hash_password = λ salt password. get_or (hash_password crypto password salt) "";
    verify_password = verify_password crypto;
    hash_reset_token = crypto.sign;
    verifies = λ salt password.
        let (stored, e) = hashed-some password salt in
        ap (λ o. verify_password crypto password (some (get_or o ""))) e
        ∙ (verify_password-hash_password password password salt stored e).1 refl;
  }
