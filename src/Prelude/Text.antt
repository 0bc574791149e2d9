-- ===== src/Prelude/Text.antt =====
-- The text operations that the program uses: `strip`, `split` and `replace` over the characters
-- of a native string.
use Prim.Native.Nat.{ℕ}
use Prim.Native.Char.{code}
use Prim.Native.String.{String, ◌++◌ as ◌<>◌}
use mathlib.Core.Bool.{Bool, true, false, ◌||◌, ◌&&◌}
use mathlib.Core.List.{List, [], ◌∷◌}
use ntu_cloud_native.Prelude.Tests.{eqb, leb, if◌then◌else◌}

abbrev pub is_empty : String → Bool
is_empty String.[] = true
is_empty (String.◌∷◌ c s) = false

-- What `str.strip()` removes: the characters with `str.isspace()`.
abbrev pub is_space : ℕ → Bool
is_space c =
    (leb 9 c && leb c 13)
    || (leb 28 c && leb c 32)
    || eqb c 0x85
    || eqb c 0xa0
    || eqb c 0x1680
    || (leb 0x2000 c && leb c 0x200a)
    || eqb c 0x2028
    || eqb c 0x2029
    || eqb c 0x202f
    || eqb c 0x205f
    || eqb c 0x3000

unfoldable pub lstrip : String → String
lstrip String.[] = String.[]
lstrip (String.◌∷◌ c s) = let rest = lstrip s in if is_space (code c) then rest else String.◌∷◌ c s

-- What is left of `c` and a stripped rest.
unfoldable pub rstrip_cons : Bool → Bool → String → String → String
rstrip_cons true true whole rest = rest
rstrip_cons _ _ whole rest = whole

unfoldable pub rstrip : String → String
unfolding rstrip_cons
rstrip String.[] = String.[]
rstrip (String.◌∷◌ c s) =
    let rest = rstrip s in rstrip_cons (is_space (code c)) (is_empty rest) (String.◌∷◌ c rest) rest

unfoldable pub strip : String → String
unfolding lstrip rstrip
strip s = rstrip (lstrip s)

-- Puts a character in front of the first part.
abbrev cons_first : String → List String → List String
cons_first c [] = c ∷ []
cons_first c (p ∷ ps) = (c <> p) ∷ ps

-- `s.split(sep)` at one character.
unfoldable pub split : ℕ → String → List String
split sep String.[] = String.[] ∷ []
split sep (String.◌∷◌ c s) =
    let rest = split sep s in
    if eqb (code c) sep then String.[] ∷ rest else cons_first (String.◌∷◌ c String.[]) rest

-- `s.replace(c, by)` of one character.
unfoldable pub replace : ℕ → String → String → String
replace old by String.[] = String.[]
replace old by (String.◌∷◌ c s) =
    let rest = replace old by s in if eqb (code c) old then by <> rest else String.◌∷◌ c rest
