-- ===== src/Permissions/Descendants.antt =====
-- The recursive department query of reporting-api/app/permissions.py against the relation "is a
-- department below": what it returns, when it ends, and when it never does.
use ntu_cloud_native.Prelude.{
  ◌↔◌, ap, ℕ, zero, suc, ◌≤◌, ◌<◌, String, true, false≢true, ◌⊎◌, inl, inr, none, some, List, [],
  ◌∷◌, ◌++◌, ◌≡◌, refl, arith, contains, contains-append, ◌==◌, string_eq, eq_of_==, ==_refl,
  Bool-cases,
}
use ntu_cloud_native.Schema.{Department}
use ntu_cloud_native.Permissions.Departments.{
  children, children_of_all, rounds, get_descendant_department_ids, none-not-some, some-inj,
  bind-some,
}

-- `c` lies below: it is a child, or lies below a child.
pub data Below (ds : List Department) (c : String) : String → Type 0 where
  child : {a : String} → contains (children ds a) c ≡ true → Below ds c a
  through :
      {a : String} (b : String) → contains (children ds a) b ≡ true → Below ds c b → Below ds c a

module _ (ds : List Department) where
  children_of_all-intro :
      (work : List String) (w c : String)
      → contains work w ≡ true
      → contains (children ds w) c ≡ true
      → contains (children_of_all ds work) c ≡ true
  unfolding children_of_all
  children_of_all-intro [] w c h k = absurd (false≢true h)
  children_of_all-intro (x ∷ work) w c h k = elim (Bool-cases (w == x)) [
    | inl same ↦
        let e : w ≡ x = eq_of_== w x same in
        ground (
          arith,
          contains-append (children ds x) (children_of_all ds work) c,
          ap (λ z. contains (children ds z) c) e,
        )
    | inr other ↦ ground (
      arith,
      contains-append (children ds x) (children_of_all ds work) c,
      children_of_all-intro work w c (rw other at h) k,
    )
  ]

  children_of_all-elim :
      (work : List String) (c : String)
      → contains (children_of_all ds work) c ≡ true
      → (w : String) × (contains work w ≡ true) × (contains (children ds w) c ≡ true)
  unfolding children_of_all
  children_of_all-elim [] c h = absurd (false≢true h)
  children_of_all-elim (x ∷ work) c h = elim (Bool-cases (contains (children ds x) c)) [
    | inl here ↦ (x, ground (arith, ==_refl x), here)
    | inr there ↦
        let (w, i, k) =
          children_of_all-elim work c
            (ground (arith, contains-append (children ds x) (children_of_all ds work) c)) in
        (w, ground arith, k)
  ]

  rounds-suc :
      (fuel : ℕ) (w : String) (work out : List String)
      → rounds (suc fuel) ds (w ∷ work) ≡ some out
      → (rest : List String) × (rounds fuel ds (children_of_all ds (w ∷ work)) ≡ some rest)
        × ((w ∷ work) ++ rest ≡ out)
  unfolding rounds
  rounds-suc fuel w work out h =
      let (rest, ends, same) =
        bind-some (rounds fuel ds (children_of_all ds (w ∷ work))) (λ rest. some (w ∷ work ++ rest))
          out h in
      (rest, ends, some-inj same)

  rounds-work :
      (fuel : ℕ) (work out : List String)
      → rounds fuel ds work ≡ some out
      → (x : String) → contains work x ≡ true
      → contains out x ≡ true
  unfolding rounds
  rounds-work fuel [] out e x h = absurd (false≢true h)
  rounds-work zero (w ∷ work) out e x h = absurd (none-not-some e)
  rounds-work (suc fuel) (w ∷ work) out e x h =
      let (rest, ends, same) = rounds-suc fuel w work out e in
      ground (arith, contains-append (w ∷ work) rest x, ap (λ z. contains z x) same)

  rounds_complete :
      (fuel : ℕ) (work out : List String)
      → rounds fuel ds work ≡ some out
      → (w x : String) → contains work w ≡ true
      → Below ds x w
      → contains out x ≡ true
  unfolding rounds
  rounds_complete fuel [] out e w x h b = absurd (false≢true h)
  rounds_complete zero (v ∷ work) out e w x h b = absurd (none-not-some e)
  rounds_complete (suc fuel) (v ∷ work) out e w x h (child k) =
      let (rest, ends, same) = rounds-suc fuel v work out e in
      let found =
        rounds-work fuel (children_of_all ds (v ∷ work)) rest ends x
          (children_of_all-intro (v ∷ work) w x h k) in
      ground (arith, contains-append (v ∷ work) rest x, ap (λ z. contains z x) same)
  rounds_complete (suc fuel) (v ∷ work) out e w x h (through b k below) =
      let (rest, ends, same) = rounds-suc fuel v work out e in
      let found =
        rounds_complete fuel (children_of_all ds (v ∷ work)) rest ends b x
          (children_of_all-intro (v ∷ work) w b h k) below in
      ground (arith, contains-append (v ∷ work) rest x, ap (λ z. contains z x) same)

  rounds_sound :
      (fuel : ℕ) (work out : List String)
      → rounds fuel ds work ≡ some out
      → (x : String) → contains out x ≡ true
      → (contains work x ≡ true) ⊎ ((w : String) × (contains work w ≡ true) × Below ds x w)
  unfolding rounds
  rounds_sound fuel [] out e x h = inl (ground (arith, ap (λ z. contains z x) (some-inj e)))
  rounds_sound zero (v ∷ work) out e x h = absurd (none-not-some e)
  rounds_sound (suc fuel) (v ∷ work) out e x h =
      let (rest, ends, same) = rounds-suc fuel v work out e in
      elim (Bool-cases (contains (v ∷ work) x)) [
        | inl here ↦ inl here
        | inr there ↦
            elim (rounds_sound fuel (children_of_all ds (v ∷ work)) rest ends x
              (ground (arith, contains-append (v ∷ work) rest x, ap (λ z. contains z x) same))) [
                | inl next ↦
                    let (w, i, k) = children_of_all-elim (v ∷ work) x next in inr (w, i, child k)
                | inr (b, next, below) ↦
                    let (w, i, k) = children_of_all-elim (v ∷ work) b next in
                    inr (w, i, through b k below)
              ]
      ]

-- Where the query ends, its rows are the departments below the one asked for, each of them and no other.
pub get_descendant_department_ids_iff_Below :
    (fuel : ℕ) (ds : List Department) (d : String) (out : List String)
    → get_descendant_department_ids fuel ds d ≡ some out
    → (x : String) → (contains out x ≡ true) ↔ Below ds x d
unfolding get_descendant_department_ids
get_descendant_department_ids_iff_Below fuel ds d out e x = (to, from)
  where
    to : contains out x ≡ true → Below ds x d
    to h = elim (rounds_sound ds fuel (children ds d) out e x h) [
      | inl k ↦ child k
      | inr (b, k, below) ↦ through b k below
    ]

    from : Below ds x d → contains out x ≡ true
    from (child k) = rounds-work ds fuel (children ds d) out e x k
    from (through b k below) = rounds_complete ds fuel (children ds d) out e b x k below

rounds-ends :
    (ds : List Department) (rank : String → ℕ)
    → ((w c : String) → contains (children ds w) c ≡ true → rank c < rank w)
    → (fuel : ℕ) (work : List String) → ((w : String) → contains work w ≡ true → rank w < fuel)
    → (out : List String) × (rounds fuel ds work ≡ some out)
unfolding rounds
rounds-ends ds rank falls fuel [] low = ([], refl)
rounds-ends ds rank falls zero (w ∷ work) low =
    absurd (omega (arith, low w (ground (arith, ==_refl w))))
rounds-ends ds rank falls (suc fuel) (w ∷ work) low =
    let (rest, e) = rounds-ends ds rank falls fuel (children_of_all ds (w ∷ work)) low_next in
    (w ∷ work ++ rest, rw e)
  where
    low_next : (c : String) → contains (children_of_all ds (w ∷ work)) c ≡ true → rank c < fuel
    low_next c h =
        let (v, i, k) = children_of_all-elim ds (w ∷ work) c h in
        omega (arith, low v i, falls v c k)

-- On departments that some rank orders, each child below its parent, the query ends, within the rank of the department it starts from.
pub get_descendant_department_ids_ends :
    (ds : List Department) (rank : String → ℕ)
    → ((w c : String) → contains (children ds w) c ≡ true → rank c < rank w)
    → (fuel : ℕ) (d : String) → rank d ≤ fuel
    → (out : List String) × (get_descendant_department_ids fuel ds d ≡ some out)
unfolding get_descendant_department_ids
get_descendant_department_ids_ends ds rank falls fuel d enough =
    rounds-ends ds rank falls fuel (children ds d) (λ w h. omega (arith, falls d w h))

rounds-spin :
    (ds : List Department) (a : String)
    → Below ds a a
    → (fuel : ℕ) (work : List String) (w : String) → contains work w ≡ true
    → Below ds a w
    → rounds fuel ds work ≡ none
unfolding rounds
rounds-spin ds a cycle fuel [] w h b = absurd (false≢true h)
rounds-spin ds a cycle zero (v ∷ work) w h b = refl
rounds-spin ds a cycle (suc fuel) (v ∷ work) w h (child k) = rw (
    rounds-spin ds a cycle fuel (children_of_all ds (v ∷ work)) a
      (children_of_all-intro ds (v ∷ work) w a h k) cycle)
rounds-spin ds a cycle (suc fuel) (v ∷ work) w h (through b k below) = rw (
    rounds-spin ds a cycle fuel (children_of_all ds (v ∷ work)) b
      (children_of_all-intro ds (v ∷ work) w b h k) below)

-- From a department above one that lies below itself, or from that one, the query never ends: it has rows left whatever the fuel.
pub get_descendant_department_ids_cycle :
    (ds : List Department) (a d : String)
    → Below ds a a
    → Below ds a d
    → (fuel : ℕ) → get_descendant_department_ids fuel ds d ≡ none
unfolding get_descendant_department_ids
get_descendant_department_ids_cycle ds a d cycle (child k) fuel =
    rounds-spin ds a cycle fuel (children ds d) a k cycle
get_descendant_department_ids_cycle ds a d cycle (through b k below) fuel =
    rounds-spin ds a cycle fuel (children ds d) b k below
