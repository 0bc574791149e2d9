-- ===== src/Permissions/Departments.antt =====
-- `get_descendant_department_ids` of reporting-api/app/permissions.py: a recursive query (WITH
-- RECURSIVE … UNION ALL), evaluated as PostgreSQL documents it: the rows that the last round added
-- are the working table of the next, until a round adds none. It need not end, so it takes fuel.
use ntu_cloud_native.Prelude.{
  ap, ◌≡◌, refl, false≢true, is_some, get_or, ℕ, zero, suc, String, Bool, false, Option, none, some,
  List, [], ◌∷◌, ◌++◌, if◌then◌else◌, ◌==◌, string_eq,
}
use ntu_cloud_native.Schema.{Department}

infixl 5 ◌>>=◌
abbrev pub ◌>>=◌ {ℓ κ} : {A : Type ℓ} {B : Type κ} → Option A → (A → Option B) → Option B
none >>= f = none
some a >>= f = f a

pub none-not-some {ℓ} : {A : Type ℓ} {a : A} → ¬ (none ≡ some a)
none-not-some h = false≢true (ap is_some h)

pub some-inj {ℓ} : {A : Type ℓ} {a b : A} → some a ≡ some b → a ≡ b
some-inj {a = a} h = ap (λ o. get_or o a) h

-- A chain that gives a result is one whose first part does.
pub bind-some {ℓ κ} :
    {A : Type ℓ} {B : Type κ} (o : Option A) (f : A → Option B) (b : B)
    → (o >>= f) ≡ some b
    → (a : A) × (o ≡ some a) × (f a ≡ some b)
bind-some none f b h = absurd (none-not-some h)
bind-some (some a) f b h = (a, refl, h)

abbrev parent_is : Department → String → Bool
parent_is d w = elim d.parent_department_id [ none ↦ false | some p ↦ p == w ]

-- `select(Department.department_id).where(Department.parent_department_id == w)`
unfoldable pub children : List Department → String → List String
children [] w = []
children (d ∷ ds) w =
    let rest = children ds w in if parent_is d w then d.department_id ∷ rest else rest

-- The recursive part of the query, over a working table.
unfoldable pub children_of_all : List Department → List String → List String
children_of_all ds [] = []
children_of_all ds (w ∷ work) = children ds w ++ children_of_all ds work

-- The rounds from a working table on; `none` when rows are left and the fuel is not.
unfoldable pub rounds : ℕ → List Department → List String → Option (List String)
rounds fuel ds [] = some []
rounds zero ds (w ∷ work) = none
rounds (suc fuel) ds (w ∷ work) = do
  rest ← rounds fuel ds (children_of_all ds (w ∷ work))
  some (w ∷ work ++ rest)

unfoldable pub get_descendant_department_ids : ℕ → List Department → String → Option (List String)
unfolding rounds children
get_descendant_department_ids fuel ds department_id = rounds fuel ds (children ds department_id)
