-- ===== src/Prelude/Pages.antt =====
-- ORDER BY, LIMIT and OFFSET: lists in an order and their pages.
use Prim.Native.Nat.{ℕ}
use mathlib.Core.Bool.{Bool}
use mathlib.Core.Logic.{inl, inr}
use mathlib.Core.List.{List, [], ◌∷◌}
use ntu_cloud_native.Prelude.Tests.{if◌then◌else◌, Bool-cases}
use ntu_cloud_native.Prelude.Lists.{take, drop, All}

module _ {ℓ} {A : Type ℓ} where
  -- In front of the first one that it stands no later than; `first` says whether one may stand in
  -- front of another.
  unfoldable pub insert_by : (A → A → Bool) → A → List A → List A
  insert_by first x [] = x ∷ []
  insert_by first x (y ∷ ys) =
      let rest = insert_by first x ys in if first x y then x ∷ y ∷ ys else y ∷ rest

  unfoldable pub sort_by : (A → A → Bool) → List A → List A
  unfolding insert_by
  sort_by first [] = []
  sort_by first (x ∷ xs) = insert_by first x (sort_by first xs)

  unfoldable pub page : ℕ → ℕ → List A → List A
  page limit offset xs = take limit (drop offset xs)

  pub All-insert_by {κ} :
      (P : A → Type κ) (first : A → A → Bool) (x : A) (xs : List A)
      → P x
      → All P xs
      → All P (insert_by first x xs)
  unfolding insert_by
  All-insert_by P first x [] h k = (h, tt)
  All-insert_by P first x (y ∷ ys) h k = elim (Bool-cases (first x y)) [
    | inl here ↦ rw here (h, k)
    | inr later ↦ rw later (k.0, All-insert_by P first x ys h k.1)
  ]

  -- What holds of all rows holds of all in an order.
  pub All-sort_by {κ} :
      (P : A → Type κ) (first : A → A → Bool) (xs : List A) → All P xs → All P (sort_by first xs)
  unfolding sort_by
  All-sort_by P first [] h = tt
  All-sort_by P first (x ∷ xs) h =
      All-insert_by P first x (sort_by first xs) h.0 (All-sort_by P first xs h.1)
