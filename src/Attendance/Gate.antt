-- ===== src/Attendance/Gate.antt =====
-- Main gates in reporting-api/app/repositories.py: `_compile_like` turns an SQL LIKE pattern into a
-- regular expression, and `_gate_matches_main` matches a gate id against it. Patterns and gate ids
-- are lists of characters by their code points. A pattern with a backslash, which PostgreSQL reads
-- as an escape, is left out of the comparison.
use ntu_cloud_native.Prelude.{
  ◌∙◌, sym, ℕ, Bool, true, false, ◌&&◌, ◌||◌, not, Option, none, some, List, [], ◌∷◌, ◌++◌, ◌≡◌,
  ◌≢◌, ◌↔◌, refl, arith, All, eqb, if◌then◌else◌, Bool-cases, inl, inr, false≢true,
}

-- The parts of the regular expression between `^` and `$`: `.*`, `.`, and an escaped character.
pub data Part : Type 0 where
  any_run any_one : Part
  literal : ℕ → Part

unfoldable pub compile_like : List ℕ → List Part
compile_like [] = []
compile_like (ch ∷ pattern) =
    let parts = compile_like pattern in
    if eqb ch b'%'
    then any_run ∷ parts
    else if eqb ch b'_'
    then any_one ∷ parts
    else literal ch ∷ parts

abbrev pub newline : ℕ
newline = 10

-- `$` without MULTILINE: the end of the text, or a newline at the end.
abbrev at_end : List ℕ → Bool
at_end [] = true
at_end (c ∷ []) = eqb c newline
at_end (c ∷ d ∷ s) = false

-- `re.match` of the parts; `.` matches no newline.
unfoldable pub matches : List Part → List ℕ → Bool
matches [] s = at_end s
matches (any_run ∷ parts) [] = matches parts []
matches (any_run ∷ parts) (c ∷ s) =
    matches parts (c ∷ s) || (not (eqb c newline) && matches (any_run ∷ parts) s)
matches (any_one ∷ parts) [] = false
matches (any_one ∷ parts) (c ∷ s) = not (eqb c newline) && matches parts s
matches (literal l ∷ parts) [] = false
matches (literal l ∷ parts) (c ∷ s) = eqb l c && matches parts s

-- `_gate_matches_main`
unfoldable pub gate_matches_main : List ℕ → Option (List ℕ) → Bool
unfolding compile_like matches
gate_matches_main pattern none = false
gate_matches_main pattern (some gate_id) = matches (compile_like pattern) gate_id

-- What `text LIKE pattern` means in SQL.
pub data Like : List ℕ → List ℕ → Type 0 where
  done : Like [] []
  run_ends : {c : ℕ} {p s : List ℕ} → c ≡ b'%' → Like p s → Like (c ∷ p) s
  run_goes : {c : ℕ} {p s : List ℕ} (x : ℕ) → c ≡ b'%' → Like (c ∷ p) s → Like (c ∷ p) (x ∷ s)
  one : {c : ℕ} {p s : List ℕ} (x : ℕ) → c ≡ b'_' → Like p s → Like (c ∷ p) (x ∷ s)
  same :
      {c : ℕ} {p s : List ℕ} (x : ℕ) → c ≢ b'%' → c ≢ b'_' → c ≡ x → Like p s → Like (c ∷ p) (x ∷ s)

abbrev pub OneLine : List ℕ → Type 0
OneLine s = All (λ c. c ≢ newline) s

matches_of_Like : {p s : List ℕ} → OneLine s → Like p s → matches (compile_like p) s ≡ true
unfolding compile_like matches
matches_of_Like h done = refl
matches_of_Like h (run_ends {c = c} {p = p} {s = []} e l) = ground (arith, matches_of_Like h l)
matches_of_Like h (run_ends {c = c} {p = p} {s = x ∷ s} e l) = ground (arith, matches_of_Like h l)
matches_of_Like h (run_goes {c = c} {p = p} {s = s} x e l) = ground (arith, matches_of_Like h.1 l)
matches_of_Like h (one {c = c} {p = p} {s = s} x e l) = ground (arith, matches_of_Like h.1 l)
matches_of_Like h (same {c = c} {p = p} {s = s} x ne nu e l) = ground (arith, matches_of_Like h.1 l)

Like-of_matches : (p s : List ℕ) → OneLine s → matches (compile_like p) s ≡ true → Like p s
unfolding compile_like matches
Like-of_matches [] [] h m = done
Like-of_matches [] (c ∷ []) h m = absurd (h.0 (ground arith))
Like-of_matches [] (c ∷ d ∷ s) h m = absurd (false≢true m)
Like-of_matches (ch ∷ p) [] h m = elim (Bool-cases (eqb ch b'%')) [
  | inl run ↦ run_ends (ground arith) (Like-of_matches p [] h (ground arith))
  | inr no_run ↦ absurd (ground arith)
]
Like-of_matches (ch ∷ p) (x ∷ s) h m = elim (Bool-cases (eqb ch b'%')) [
  | inl run ↦ elim (Bool-cases (matches (compile_like p) (x ∷ s))) [
    | inl ends ↦ run_ends (ground arith) (Like-of_matches p (x ∷ s) h ends)
    | inr goes ↦ run_goes x (ground arith) (Like-of_matches (ch ∷ p) s h.1 (ground arith))
  ]
  | inr no_run ↦ elim (Bool-cases (eqb ch b'_')) [
    | inl any ↦ one x (ground arith) (Like-of_matches p s h.1 (ground arith))
    | inr no_one ↦
        same x (λ e. ground arith) (λ e. ground arith) (ground arith)
          (Like-of_matches p s h.1 (ground arith))
  ]
]

-- On a gate id of one line the Python match decides SQL's LIKE, for every pattern without a
-- backslash.
pub gate_matches_main_iff :
    (pattern gate_id : List ℕ)
    → OneLine gate_id
    → (gate_matches_main pattern (some gate_id) ≡ true) ↔ Like pattern gate_id
unfolding gate_matches_main
gate_matches_main_iff pattern gate_id h = (Like-of_matches pattern gate_id h, matches_of_Like h)

matches_before_newline :
    {p s : List ℕ} → OneLine s → Like p s → matches (compile_like p) (s ++ newline ∷ []) ≡ true
unfolding compile_like matches
matches_before_newline h done = refl
matches_before_newline h (run_ends {c = c} {p = p} {s = []} e l) =
    ground (arith, matches_before_newline h l)
matches_before_newline h (run_ends {c = c} {p = p} {s = x ∷ s} e l) =
    ground (arith, matches_before_newline h l)
matches_before_newline h (run_goes {c = c} {p = p} {s = s} x e l) =
    ground (arith, matches_before_newline h.1 l)
matches_before_newline h (one {c = c} {p = p} {s = s} x e l) =
    ground (arith, matches_before_newline h.1 l)
matches_before_newline h (same {c = c} {p = p} {s = s} x ne nu e l) =
    ground (arith, matches_before_newline h.1 l)

-- The last of `d ∷ s`.
abbrev pub last_or : ℕ → List ℕ → ℕ
last_or d [] = d
last_or d (x ∷ s) = last_or x s

last_or-append : (d x : ℕ) (s : List ℕ) → last_or d (s ++ x ∷ []) ≡ x
last_or-append d x [] = refl
last_or-append d x (y ∷ s) = last_or-append y x s

-- A pattern that ends in a character of its own matches texts that end in it.
last_of_Like :
    {p s : List ℕ} (d : ℕ)
    → last_or d p ≢ b'%'
    → last_or d p ≢ b'_'
    → Like p s
    → last_or d s ≡ last_or d p
last_of_Like d r o done = refl
last_of_Like d r o (run_ends {c = c} {p = p} {s = []} e l) =
    absurd (r (sym (last_of_Like c r o l) ∙ e))
last_of_Like d r o (run_ends {c = c} {p = p} {s = x ∷ s} e l) = last_of_Like c r o l
last_of_Like d r o (run_goes {c = c} {p = p} {s = s} x e l) = last_of_Like x r o l
last_of_Like d r o (one {c = c} {p = []} {s = s} x e l) = absurd (o e)
last_of_Like d r o (one {c = c} {p = y ∷ p} {s = s} x e l) = last_of_Like x r o l
last_of_Like d r o (same {c = c} {p = []} {s = s} x ne nu e l) =
    last_of_Like x (rw e at r) (rw e at o) l ∙ sym e
last_of_Like d r o (same {c = c} {p = y ∷ p} {s = s} x ne nu e l) = last_of_Like x r o l

-- Under a pattern that ends in a character of its own, as `%_A` does, the Python match also takes
-- every matching gate id of one line with a newline behind it, which LIKE refuses.
pub gate_matches_main-newline :
    (pattern gate_id : List ℕ)
    → OneLine gate_id
    → Like pattern gate_id
    → last_or newline pattern ≢ b'%'
    → last_or newline pattern ≢ b'_'
    → last_or newline pattern ≢ newline
    → (gate_matches_main pattern (some (gate_id ++ newline ∷ [])) ≡ true)
      × (¬ Like pattern (gate_id ++ newline ∷ []))
unfolding gate_matches_main
gate_matches_main-newline pattern gate_id h l r o n = (
  matches_before_newline h l,
  λ k. n (sym (last_of_Like newline r o k) ∙ last_or-append newline newline gate_id),
)
