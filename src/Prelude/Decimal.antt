-- ===== src/Prelude/Decimal.antt =====
-- `str` of a number, and `sorted` of a set of texts.
use Prim.Native.Char.{Char, code}
use ntu_cloud_native.Prelude.Text.{strip}
use ntu_cloud_native.Prelude.{
  false, ◌-◌, ◌+◌, ◌*◌, not, eqb, some, ◌&&◌, true, none, leb, Option, Bool,
}
use Prim.Native.String
use Prim.Native.String.{◌++◌ as ◌<>◌}
use Prim.Native.Nat.{ℕ, zero, suc, ◌/◌, ◌%◌, Ordering}
use mathlib.Core.List.{List, [], ◌∷◌}
use ntu_cloud_native.Prelude.Tests.{ltb, if◌then◌else◌}
use Prim.Native.String.{String}

abbrev pub digit : ℕ → Char
digit zero = "0"
digit (suc zero) = "1"
digit (suc (suc zero)) = "2"
digit (suc (suc (suc zero))) = "3"
digit (suc (suc (suc (suc zero)))) = "4"
digit (suc (suc (suc (suc (suc zero))))) = "5"
digit (suc (suc (suc (suc (suc (suc zero)))))) = "6"
digit (suc (suc (suc (suc (suc (suc (suc zero))))))) = "7"
digit (suc (suc (suc (suc (suc (suc (suc (suc zero)))))))) = "8"
digit _ = "9"

unfoldable pub decimal_onto : ℕ → ℕ → String → String
decimal_onto zero n text = text
decimal_onto (suc fuel) n text =
    let more = decimal_onto fuel (n / 10) (String.◌∷◌ (digit (n % 10)) text) in
    if ltb n 10 then String.◌∷◌ (digit n) text else more

-- `str(n)`: a number has no more digits than the count above it.
unfoldable pub decimal : ℕ → String
unfolding decimal_onto
decimal n = decimal_onto (suc n) n String.[]

-- Python's order of texts is that of their code points.
insert_text : String → List String → List String
insert_text s [] = s ∷ []
insert_text s (t ∷ ts) =
    let rest = insert_text s ts in
    elim (String.compare s t) [
      | Ordering.lt ↦ s ∷ t ∷ ts
      | Ordering.eq ↦ t ∷ ts
      | Ordering.gt ↦ t ∷ rest
    ]

-- `sorted(set(texts))`
unfoldable pub sorted_set : List String → List String
unfolding insert_text
sorted_set [] = []
sorted_set (s ∷ ss) = insert_text s (sorted_set ss)

-- The integers that a text can hold: a number, or one less than its negation.
pub data Integer : Type 0 where
  natural : ℕ → Integer
  below_zero : ℕ → Integer

abbrev pub is_digit : ℕ → Bool
is_digit c = leb b'0' c && leb c b'9'

-- The digits that are left, after the number so far; an underscore stands between two digits only.
unfoldable pub read_digits : ℕ → Bool → String → Option ℕ
read_digits n between String.[] = if between then none else some n
read_digits n between (String.◌∷◌ c s) =
    let digits = read_digits (n * 10 + (code c - b'0')) false s in
    let underscore = read_digits n true s in
    if is_digit (code c)
    then digits
    else if eqb (code c) b'_' && not between
    then underscore
    else none

abbrev pub negated : Option ℕ → Option Integer
negated none = none
negated (some zero) = some (natural 0)
negated (some (suc n)) = some (below_zero n)

abbrev pub as_natural : Option ℕ → Option Integer
as_natural none = none
as_natural (some n) = some (natural n)

unfoldable pub read_signed : String → Option Integer
unfolding read_digits
read_signed String.[] = none
read_signed (String.◌∷◌ c s) =
    if eqb (code c) b'-'
    then negated (read_digits 0 true s)
    else if eqb (code c) b'+'
    then as_natural (read_digits 0 true s)
    else as_natural (read_digits 0 true (String.◌∷◌ c s))

-- `int(text)`, where `none` is a ValueError; the digits of other scripts, which it reads too, are
-- left out.
unfoldable pub read_int : String → Option Integer
unfolding read_signed strip
read_int text = read_signed (strip text)

-- `s.split(sep, 1)` at one character: the parts before and behind the first one.
unfoldable pub cut : ℕ → String → Option (String × String)
cut sep String.[] = none
cut sep (String.◌∷◌ c s) =
    let rest = cut sep s in
    if eqb (code c) sep
    then some (String.[], s)
    else elim rest [ none ↦ none | some p ↦ some (String.◌∷◌ c p.0, p.1) ]

-- The character with a number is not in a text.
abbrev pub lacks : ℕ → String → Bool
lacks sep String.[] = true
lacks sep (String.◌∷◌ c s) = not (eqb (code c) sep) && lacks sep s
