-- ===== src/Prelude/Dict.antt =====
-- Python's `dict`: an association list in insertion order, over keys with a decided equality.
use Prim.Native.Nat.{suc}
use mathlib.Core.Path.{◌≡◌, refl}
use mathlib.Core.Bool.{Bool, true, false}
use mathlib.Core.Option.{Option, none, some}
use mathlib.Core.List.{List, [], ◌∷◌}
use native.Mathlib.Omega.{arith}
use ntu_cloud_native.Prelude.Tests.{if◌then◌else◌, get_or, is_some}
use ntu_cloud_native.Prelude.Equality.{Eq, ◌==◌, ==_refl}
use ntu_cloud_native.Prelude.Lists.{length, contains}

abbrev pub Dict {ℓ} : Type ℓ → Type ℓ → Type ℓ
Dict K V = List (K × V)

module _ {ℓ} {K V : Type ℓ} ⦃e : Eq K⦄ where
  -- `d.get(k)`
  abbrev pub lookup : K → Dict K V → Option V
  lookup k [] = none
  lookup k ((j, v) ∷ d) = if k == j then some v else lookup k d

  -- `d[k] = v`
  abbrev pub insert : K → V → Dict K V → Dict K V
  insert k v [] = (k, v) ∷ []
  insert k v (x ∷ d) = if k == x.0 then (k, v) ∷ d else x ∷ insert k v d

  -- `del d[k]`
  abbrev pub erase : K → Dict K V → Dict K V
  erase k [] = []
  erase k (x ∷ d) = if k == x.0 then d else x ∷ erase k d

  -- `k in d`
  abbrev pub has_key : K → Dict K V → Bool
  has_key k d = is_some (lookup k d)

  -- `d[k] = f(d[k])` over `defaultdict(lambda: initial)`
  abbrev pub update : K → V → (V → V) → Dict K V → Dict K V
  update k initial f d = insert k (f (get_or (lookup k d) initial)) d

module _ {ℓ} {K V : Type ℓ} where
  abbrev pub keys : Dict K V → List K
  keys [] = []
  keys (x ∷ d) = x.0 ∷ keys d

  abbrev pub values : Dict K V → List V
  values [] = []
  values (x ∷ d) = x.1 ∷ values d

module _ {ℓ} {K V : Type ℓ} ⦃e : Eq K⦄ where
  -- No key is listed twice.
  abbrev pub IsDict : Dict K V → Type ℓ
  IsDict [] = Unit
  IsDict ((k, v) ∷ d) = (lookup k d ≡ none) × IsDict d

  pub lookup-insert :
      (j k : K) (v : V) (d : Dict K V)
      → lookup j (insert k v d) ≡ (if j == k then some v else lookup j d)
  lookup-insert j k v [] = refl
  lookup-insert j k v ((i, w) ∷ d) =
      ground (arith, e.decides j k, e.decides k i, e.decides j i, lookup-insert j k v d)

  pub lookup-insert_self : (k : K) (v : V) (d : Dict K V) → lookup k (insert k v d) ≡ some v
  lookup-insert_self k v d = ground (arith, lookup-insert k k v d, ==_refl k)

  pub insert-IsDict : (k : K) (v : V) (d : Dict K V) → IsDict d → IsDict (insert k v d)
  insert-IsDict k v [] h = (refl, tt)
  insert-IsDict k v ((i, w) ∷ d) h =
      ground (arith, insert-IsDict k v d h.1, lookup-insert i k v d, e.decides i k, e.decides k i)

  pub lookup-erase_ne :
      (j k : K) (d : Dict K V) → (j == k) ≡ false → lookup j (erase k d) ≡ lookup j d
  lookup-erase_ne j k [] h = refl
  lookup-erase_ne j k ((i, w) ∷ d) h =
      ground (arith, lookup-erase_ne j k d h, e.decides j k, e.decides k i, e.decides j i)

  pub lookup-erase-none : (j k : K) (d : Dict K V) → lookup j d ≡ none → lookup j (erase k d) ≡ none
  lookup-erase-none j k [] h = refl
  lookup-erase-none j k ((i, w) ∷ d) h = ground (arith, lookup-erase-none j k d)

  pub erase-IsDict : (k : K) (d : Dict K V) → IsDict d → IsDict (erase k d)
  erase-IsDict k [] h = tt
  erase-IsDict k ((i, w) ∷ d) h = ground (arith, erase-IsDict k d h.1, lookup-erase-none i k d h.0)

  pub length-insert :
      (k : K) (v : V) (d : Dict K V)
      → length (insert k v d) ≡ (if has_key k d then length d else suc (length d))
  length-insert k v [] = refl
  length-insert k v ((i, w) ∷ d) = ground (arith, length-insert k v d)

  pub length-erase :
      (k : K) (d : Dict K V) → has_key k d ≡ true → suc (length (erase k d)) ≡ length d
  length-erase k [] h = ground arith
  length-erase k ((i, w) ∷ d) h = ground (arith, length-erase k d)

  pub contains-keys : (k : K) (d : Dict K V) → contains (keys d) k ≡ has_key k d
  contains-keys k [] = refl
  contains-keys k ((i, w) ∷ d) = ground (arith, contains-keys k d)
