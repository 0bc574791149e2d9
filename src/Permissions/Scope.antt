-- ===== src/Permissions/Scope.antt =====
-- What the report queries of reporting-api/app/repositories.py show to whom: the scope rules of
-- reporting-api/app/permissions.py read as a relation, and the rows that pass them.
use ntu_cloud_native.Permissions.{
  narrow, requested_ids, visible_department_ids, or_own, own_employee, department_of,
  get_visible_department_ids, user_can_view_all_departments, Visible, scope_departments,
}
use ntu_cloud_native.Prelude.{
  is_nil, and_intro, sym, ap, ◌∙◌, ℕ, String, Bool, true, false, false≢true, ◌&&◌, ◌⊎◌, inl, inr,
  Option, some, List, [], ◌∷◌, ◌++◌, ◌≡◌, refl, arith, contains, contains-append, contains-keep,
  keep, ◌==◌, string_eq, nat_eq, eq_of_==, ==_refl, Bool-cases, and_left, and_right, if◌then◌else◌,
  ◌↔◌,
}
use ntu_cloud_native.Prelude.Text.{is_empty}
use ntu_cloud_native.Schema.{Department, UserAccount, UserDepartmentScope, Database}
use ntu_cloud_native.Permissions.Departments.{
  get_descendant_department_ids, ◌>>=◌, some-inj, bind-some,
}
use ntu_cloud_native.Permissions.Descendants.{Below, get_descendant_department_ids_iff_Below}
use ntu_cloud_native.Permissions.{Visible}

-- A scope of the list covers the department: it names it, or one above it with what is below.
pub data Covers (ds : List Department) (x : String) : List UserDepartmentScope → Type 0 where
  named :
      (s : UserDepartmentScope) (ss : List UserDepartmentScope)
      → s.department_id ≡ x
      → Covers ds x (s ∷ ss)
  inherited :
      (s : UserDepartmentScope) (ss : List UserDepartmentScope)
      → s.include_descendants ≡ true
      → Below ds x s.department_id
      → Covers ds x (s ∷ ss)
  later :
      (s : UserDepartmentScope) {ss : List UserDepartmentScope}
      → Covers ds x ss
      → Covers ds x (s ∷ ss)

abbrev pub scopes_of : Database → UserAccount → List UserDepartmentScope
scopes_of db user = keep (λ s. s.user_id == user.user_id) db.scopes

module _ (fuel : ℕ) (ds : List Department) where
  below_of : UserDepartmentScope → Option (List String)
  below_of s =
      if s.include_descendants
      then get_descendant_department_ids fuel ds s.department_id
      else some []

  scope_departments-cons :
      (s : UserDepartmentScope) (ss : List UserDepartmentScope) (out : List String)
      → scope_departments fuel ds (s ∷ ss) ≡ some out
      → (rest : List String) × (below : List String) × (scope_departments fuel ds ss ≡ some rest)
        × (below_of s ≡ some below)
        × (s.department_id ∷ (below ++ rest) ≡ out)
  unfolding scope_departments below_of
  scope_departments-cons s ss out e =
      let (rest, e_rest, k) =
        bind-some (scope_departments fuel ds ss)
          (λ rest. below_of s >>= (λ below. some (s.department_id ∷ (below ++ rest)))) out e in
      let (below, e_below, same) =
        bind-some (below_of s) (λ below. some (s.department_id ∷ (below ++ rest))) out k in
      (rest, below, e_rest, e_below, some-inj same)

  below_of_sound :
      (s : UserDepartmentScope) (below : List String) (x : String)
      → below_of s ≡ some below
      → contains below x ≡ true
      → (s.include_descendants ≡ true) × Below ds x s.department_id
  unfolding below_of
  below_of_sound s below x e h = elim (Bool-cases s.include_descendants) [
    | inl incl ↦ (
      incl,
      (get_descendant_department_ids_iff_Below fuel ds s.department_id below (rw incl at e) x).0 h,
    )
    | inr excl ↦
        let e' : some [] ≡ some below = rw excl at e in
        absurd (false≢true (ap (λ z. contains z x) (some-inj e') ∙ h))
  ]

  covers_sound :
      (ss : List UserDepartmentScope) (out : List String)
      → scope_departments fuel ds ss ≡ some out
      → (x : String) → contains out x ≡ true
      → Covers ds x ss
  unfolding scope_departments
  covers_sound [] out e x h = absurd (false≢true (ap (λ z. contains z x) (some-inj e) ∙ h))
  covers_sound (s ∷ ss) out e x h =
      let (rest, below, e_rest, e_below, same) = scope_departments-cons s ss out e in
      elim (Bool-cases (x == s.department_id)) [
        | inl here ↦ named s ss (sym (eq_of_== x s.department_id here))
        | inr other ↦ elim (Bool-cases (contains below x)) [
          | inl lower ↦
              let (incl, b) = below_of_sound s below x e_below lower in inherited s ss incl b
          | inr not_lower ↦ later s (
              covers_sound ss rest e_rest x
                (ground (arith, contains-append below rest x, ap (λ z. contains z x) same)))
        ]
      ]

  covers_complete :
      (x : String) (ss : List UserDepartmentScope) (out : List String)
      → Covers ds x ss
      → scope_departments fuel ds ss ≡ some out
      → contains out x ≡ true
  unfolding below_of
  covers_complete x _ out (named s ss k) e =
      let (rest, below, e_rest, e_below, same) = scope_departments-cons s ss out e in
      ground (arith, ap (λ z. contains z x) same, ==_refl x, k, ap (λ z. x == z) k)
  covers_complete x _ out (inherited s ss incl b) e =
      let (rest, below, e_rest, e_below, same) = scope_departments-cons s ss out e in
      let found =
        (get_descendant_department_ids_iff_Below fuel ds s.department_id below (rw incl at e_below)
            x).1
          b in
      ground (arith, contains-append below rest x, ap (λ z. contains z x) same)
  covers_complete x _ out (later s {ss} c) e =
      let (rest, below, e_rest, e_below, same) = scope_departments-cons s ss out e in
      let found = covers_complete x ss rest c e_rest in
      ground (arith, contains-append below rest x, ap (λ z. contains z x) same)

-- What a user may see, of the departments: all by role, else those that a scope of the user covers,
-- and the own one without a scope.
pub data MaySee (db : Database) (user : UserAccount) (x : String) : Type 0 where
  by_role : user_can_view_all_departments user ≡ true → MaySee db user x
  by_scope :
      user_can_view_all_departments user ≡ false
      → Covers db.departments x (scopes_of db user)
      → MaySee db user x
  by_default :
      user_can_view_all_departments user ≡ false
      → scopes_of db user ≡ []
      → contains (department_of (own_employee db user)) x ≡ true
      → MaySee db user x

unfoldable pub shows : Visible → String → Bool
shows Visible.everything x = true
shows (Visible.only ids) x = contains ids x

or_own-covers :
    (fuel : ℕ) (ds : List Department) (own : List String) (ss : List UserDepartmentScope)
    (out : List String)
    → scope_departments fuel ds ss ≡ some out
    → (x : String)
    → (contains (or_own own out) x ≡ true)
      ↔ (Covers ds x ss ⊎ ((ss ≡ []) × (contains own x ≡ true)))
unfolding or_own scope_departments
or_own-covers fuel ds own [] out e x =
    let nil = some-inj e in
    (
      (λ h. inr (refl, rw (← nil) at h)),
      λ d. elim d [
        | inl c ↦
            absurd (false≢true (ap (λ z. contains z x) nil ∙ covers_complete fuel ds x [] out c e))
        | inr (p, h) ↦ rw (← nil) h
      ],
    )
or_own-covers fuel ds own (s ∷ ss) out e x = (to, from)
  where
    filled : or_own own out ≡ out
    filled =
        let (rest, below, e_rest, e_below, same) = scope_departments-cons fuel ds s ss out e in
        rw (← same)

    to :
        contains (or_own own out) x ≡ true
        → Covers ds x (s ∷ ss) ⊎ ((s ∷ ss ≡ []) × (contains own x ≡ true))
    to h = inl (covers_sound fuel ds (s ∷ ss) out e x (rw filled at h))

    from :
        Covers ds x (s ∷ ss) ⊎ ((s ∷ ss ≡ []) × (contains own x ≡ true))
        → contains (or_own own out) x ≡ true
    from (inl c) = rw filled (covers_complete fuel ds x (s ∷ ss) out c e)
    from (inr (p, h)) = absurd (false≢true (ap is_nil p))

MaySee-local :
    (db : Database) (user : UserAccount) (x : String)
    → MaySee db user x
    → user_can_view_all_departments user ≡ false
    → Covers db.departments x (scopes_of db user)
      ⊎ ((scopes_of db user ≡ []) × (contains (department_of (own_employee db user)) x ≡ true))
MaySee-local db user x (by_role g) local = absurd (false≢true (sym local ∙ g))
MaySee-local db user x (by_scope l c) local = inl c
MaySee-local db user x (by_default l p h) local = inr (p, h)

-- Where the queries end, the departments shown to a user are those that the user may see, and no others.
pub get_visible_department_ids_iff_MaySee :
    (fuel : ℕ) (db : Database) (user : UserAccount) (visible : Visible)
    → get_visible_department_ids fuel db user ≡ some visible
    → (x : String) → (shows visible x ≡ true) ↔ MaySee db user x
unfolding get_visible_department_ids shows
get_visible_department_ids_iff_MaySee fuel db user visible e x =
    elim (Bool-cases (user_can_view_all_departments user)) [
      | inl global ↦
          let all_shown : some Visible.everything ≡ some visible = rw global at e in
          ((λ h. by_role global), λ m. rw (← some-inj all_shown))
      | inr local ↦ may_see_local local
    ]
  where
    may_see_local :
        user_can_view_all_departments user ≡ false → (shows visible x ≡ true) ↔ MaySee db user x
    may_see_local local =
        let (out, ends, same) =
          bind-some (scope_departments fuel db.departments (scopes_of db user))
            (λ out. some (Visible.only (or_own (department_of (own_employee db user)) out))) visible
            (rw local at e) in
        let k =
          or_own-covers fuel db.departments (department_of (own_employee db user))
            (scopes_of db user) out ends x in
        let shown : shows visible x
            ≡ contains (or_own (department_of (own_employee db user)) out) x =
          sym (ap (λ v. shows v x) (some-inj same)) in
        (
          (λ h. elim (k.0 (sym shown ∙ h)) [
            | inl c ↦ by_scope local c
            | inr (p, h) ↦ by_default local p h
          ]),
          λ m. shown ∙ k.1 (MaySee-local db user x m local),
        )

pub shows-narrow :
    (visible : Visible) (requested : List String) (x : String)
    → shows (narrow visible (some requested)) x ≡ (shows visible x && contains requested x)
unfolding shows narrow
shows-narrow Visible.everything requested x = refl
shows-narrow (Visible.only ids) requested x = contains-keep (λ d. contains ids d) requested x

-- With a department, the visible ones among those that are asked for.
pub visible_department_ids-parts :
    (fuel : ℕ) (db : Database) (user : UserAccount) (d : Option String) (visible : Visible)
    → visible_department_ids fuel db (some user) d ≡ some visible
    → (requested : Option (List String)) × (seen : Visible) × (requested_ids fuel db d
        ≡ some requested)
      × (get_visible_department_ids fuel db user ≡ some seen)
      × (narrow seen requested ≡ visible)
unfolding visible_department_ids
visible_department_ids-parts fuel db user d visible e =
    let (requested, e_requested, k) =
      bind-some (requested_ids fuel db d)
        (λ requested.
          get_visible_department_ids fuel db user >>= (λ seen. some (narrow seen requested)))
        visible e in
    let (seen, e_seen, same) =
      bind-some (get_visible_department_ids fuel db user) (λ seen. some (narrow seen requested))
        visible k in
    (requested, seen, e_requested, e_seen, some-inj same)

requested_ids-Below :
    (fuel : ℕ) (db : Database) (d : String) (requested : Option (List String))
    → is_empty d ≡ false
    → requested_ids fuel db (some d) ≡ some requested
    → (ids : List String) × (requested ≡ some ids)
      × ((x : String) → (contains ids x ≡ true) ↔ ((x ≡ d) ⊎ Below db.departments x d))
unfolding requested_ids
requested_ids-Below fuel db d requested given e =
    let (below, ends, same) =
      bind-some (get_descendant_department_ids fuel db.departments d)
        (λ below. some (some (d ∷ below))) requested (rw given at e) in
    (
      d ∷ below,
      sym (some-inj same),
      λ x. (
        (λ h. elim (Bool-cases (x == d)) [
          | inl here ↦ inl (eq_of_== x d here)
          | inr other ↦ inr (
              (get_descendant_department_ids_iff_Below fuel db.departments d below ends x).0
                (ground arith))
        ]),
        λ c. elim c [
          | inl p ↦ ground (arith, ==_refl x, p, ap (λ z. x == z) p)
          | inr b ↦
              let found =
                (get_descendant_department_ids_iff_Below fuel db.departments d below ends x).1 b in
              ground arith
        ],
      ),
    )

-- Where the queries end, a request for one department shows the departments that the user may see and that are the one asked for or below it, and no others.
pub visible_department_ids_narrows :
    (fuel : ℕ) (db : Database) (user : UserAccount) (d : String) (visible : Visible)
    → is_empty d ≡ false
    → visible_department_ids fuel db (some user) (some d) ≡ some visible
    → (x : String)
    → (shows visible x ≡ true) ↔ (MaySee db user x × ((x ≡ d) ⊎ Below db.departments x d))
visible_department_ids_narrows fuel db user d visible given e x =
    let (requested, seen, e_requested, e_seen, same) =
      visible_department_ids-parts fuel db user (some d) visible e in
    let (ids, e_ids, iff_ids) = requested_ids-Below fuel db d requested given e_requested in
    let may = get_visible_department_ids_iff_MaySee fuel db user seen e_seen x in
    let shown : shows visible x ≡ (shows seen x && contains ids x) =
      ap (λ v. shows v x) (sym same)
      ∙ ap (λ r. shows (narrow seen r) x) e_ids
      ∙ shows-narrow seen ids x in
    (
      (λ h.
          let both = sym shown ∙ h in
          (
            may.0 (and_left (shows seen x) (contains ids x) both),
            (iff_ids x).0 (and_right (shows seen x) (contains ids x) both),
          )),
      λ p. shown ∙ and_intro (shows seen x) (contains ids x) (may.1 p.0) ((iff_ids x).1 p.1),
    )
