-- ===== src/Prelude/Digits.antt =====
-- `int(str(n)) == n`, and the parts of a text that `str` wrote.
use ntu_cloud_native.Prelude.Text.{is_space, rstrip_cons, strip, lstrip, rstrip}
use ntu_cloud_native.Prelude.{
  not, inr, ltb→lt, inl, eqb, ◌∙◌, is_some, and_right, false≢true, ap, refl, and_left, ◌&&◌, ◌*◌,
  arith, false, some, true, ◌+◌, ◌≡◌, Bool, ◌<◌,
}
use Prim.Native.String.{String, ◌++◌ as ◌<>◌}
use Prim.Native.Nat.{ℕ, zero, suc, ◌/◌, ◌%◌}
use Prim.Native.Char.{Char, code}
use text.Mathlib.TextLemmas.{nil-append, cons-append}
use ntu_cloud_native.Prelude.Tests.{ltb, Bool-cases}
use ntu_cloud_native.Prelude.Decimal.{
  as_natural, natural, lacks, digit, cut, read_signed, is_digit, decimal_onto, read_digits, decimal,
  read_int,
}

digit-code : (d : ℕ) → d < 10 → code (digit d) ≡ b'0' + d
digit-code zero h = refl
digit-code (suc zero) h = refl
digit-code (suc (suc zero)) h = refl
digit-code (suc (suc (suc zero))) h = refl
digit-code (suc (suc (suc (suc zero)))) h = refl
digit-code (suc (suc (suc (suc (suc zero))))) h = refl
digit-code (suc (suc (suc (suc (suc (suc zero)))))) h = refl
digit-code (suc (suc (suc (suc (suc (suc (suc zero))))))) h = refl
digit-code (suc (suc (suc (suc (suc (suc (suc (suc zero)))))))) h = refl
digit-code (suc (suc (suc (suc (suc (suc (suc (suc (suc zero))))))))) h = refl
digit-code (suc (suc (suc (suc (suc (suc (suc (suc (suc (suc d)))))))))) h = absurd (omega arith)

is_digit-code : (c : ℕ) (d : ℕ) → d < 10 → c ≡ b'0' + d → is_digit c ≡ true
is_digit-code c d h e = ground arith

read-digit :
    (n d : ℕ) (between : Bool) (text : String)
    → d < 10
    → read_digits n between (String.◌∷◌ (digit d) text) ≡ read_digits (n * 10 + d) false text
unfolding read_digits
read-digit n d between text h =
    let e = digit-code d h in
    rw (is_digit-code (code (digit d)) d h e)
      (ap (λ k. read_digits (n * 10 + k) false text) (omega arith))

read-decimal_onto :
    (fuel n : ℕ) (text : String)
    → n < fuel
    → read_digits 0 true (decimal_onto fuel n text) ≡ read_digits n false text
unfolding decimal_onto
read-decimal_onto zero n text h = absurd (omega arith)
read-decimal_onto (suc fuel) n text h = elim (Bool-cases (ltb n 10)) [
  | inl short ↦ rw short (
      read-digit 0 n true text (ltb→lt n 10 short)
      ∙ ap (λ k. read_digits k false text) (omega arith))
  | inr long ↦ rw long (
      read-decimal_onto fuel (n / 10) (String.◌∷◌ (digit (n % 10)) text) (ground arith)
      ∙ read-digit (n / 10) (n % 10) false text (omega arith)
      ∙ ap (λ k. read_digits k false text) (omega arith))
]

abbrev only_digits : String → Bool
only_digits String.[] = true
only_digits (String.◌∷◌ c s) = is_digit (code c) && only_digits s

only_digits-decimal_onto :
    (fuel n : ℕ) (text : String)
    → only_digits text ≡ true
    → only_digits (decimal_onto fuel n text) ≡ true
unfolding decimal_onto
only_digits-decimal_onto zero n text h = h
only_digits-decimal_onto (suc fuel) n text h = elim (Bool-cases (ltb n 10)) [
  | inl short ↦
      let lt = ltb→lt n 10 short in
      rw (short, is_digit-code (code (digit n)) n lt (digit-code n lt)) h
  | inr long ↦
      let lt : n % 10 < 10 = omega arith in
      let here : is_digit (code (digit (n % 10))) ≡ true =
        is_digit-code (code (digit (n % 10))) (n % 10) lt (digit-code (n % 10) lt) in
      rw long
        (only_digits-decimal_onto fuel (n / 10) (String.◌∷◌ (digit (n % 10)) text) (rw here h))
]

not_space : (c : ℕ) → is_digit c ≡ true → is_space c ≡ false
not_space c h = ground arith

rstrip-digits : (s : String) → only_digits s ≡ true → rstrip s ≡ s
unfolding rstrip rstrip_cons
rstrip-digits String.[] h = refl
rstrip-digits (String.◌∷◌ c s) h =
    rw (not_space (code c) (and_left (is_digit (code c)) (only_digits s) h))
      (ap (λ r. String.◌∷◌ c r) (rstrip-digits s (and_right (is_digit (code c)) (only_digits s) h)))

lstrip-digits : (s : String) → only_digits s ≡ true → lstrip s ≡ s
unfolding lstrip
lstrip-digits String.[] h = refl
lstrip-digits (String.◌∷◌ c s) h =
    rw (not_space (code c) (and_left (is_digit (code c)) (only_digits s) h))

read_signed-digits :
    (s : String) (n : ℕ)
    → only_digits s ≡ true
    → read_digits 0 true s ≡ some n
    → read_signed s ≡ some (natural n)
unfolding read_signed read_digits
read_signed-digits String.[] n h e = absurd (false≢true (ap is_some e))
read_signed-digits (String.◌∷◌ c s) n h e =
    let d = and_left (is_digit (code c)) (only_digits s) h in
    let minus : eqb (code c) b'-' ≡ false = ground arith in
    let plus : eqb (code c) b'+' ≡ false = ground arith in rw (minus, plus) (ap as_natural e)

pub only_digits-decimal : (n : ℕ) → only_digits (decimal n) ≡ true
unfolding decimal
only_digits-decimal n = only_digits-decimal_onto (suc n) n String.[] refl

-- A number that is written is read back.
pub read_int-decimal : (n : ℕ) → read_int (decimal n) ≡ some (natural n)
unfolding read_int decimal strip
read_int-decimal n =
    let d = only_digits-decimal n in
    ap (λ s. read_signed (rstrip s)) (lstrip-digits (decimal n) d)
    ∙ ap read_signed (rstrip-digits (decimal n) d)
    ∙ read_signed-digits (decimal n) n d (read-decimal_onto (suc n) n String.[] (omega arith))

pub lacks-digits :
    (sep : ℕ) (s : String) → is_digit sep ≡ false → only_digits s ≡ true → lacks sep s ≡ true
lacks-digits sep String.[] h d = refl
lacks-digits sep (String.◌∷◌ c s) h d =
    let here = and_left (is_digit (code c)) (only_digits s) d in
    let rest = lacks-digits sep s h (and_right (is_digit (code c)) (only_digits s) d) in
    ground arith

cut-found : (c : Char) (t : String) → cut (code c) (String.◌∷◌ c t) ≡ some (String.[], t)
unfolding cut
cut-found c t = let same : eqb (code c) (code c) ≡ true = ground arith in rw same

cut-later :
    (sep : ℕ) (a : Char) (s left right : String)
    → eqb (code a) sep ≡ false
    → cut sep s ≡ some (left, right)
    → cut sep (String.◌∷◌ a s) ≡ some (String.◌∷◌ a left, right)
unfolding cut
cut-later sep a s left right h e = rw (h, e)

-- A text up to a separator that it lacks, and what is behind it.
pub cut-append :
    (c : Char) (s t : String)
    → lacks (code c) s ≡ true
    → cut (code c) (s <> String.◌∷◌ c t) ≡ some (s, t)
cut-append c String.[] t h = ap (cut (code c)) (nil-append (String.◌∷◌ c t)) ∙ cut-found c t
cut-append c (String.◌∷◌ a s) t h =
    let other : eqb (code a) (code c) ≡ false = ground arith in
    ap (cut (code c)) (cons-append a s (String.◌∷◌ c t))
    ∙ cut-later (code c) a (s <> String.◌∷◌ c t) s t other
        (cut-append c s t (and_right (not (eqb (code a) (code c))) (lacks (code c) s) h))
