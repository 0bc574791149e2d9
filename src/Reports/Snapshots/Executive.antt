-- ===== src/Reports/Snapshots/Executive.antt =====
-- The executive for whom reporting-api/app/repositories.py computes shared reports: the first active
-- one by id.
use ntu_cloud_native.Prelude.{
  refl, inr, none, leb, ap, some, inl, ◌∙◌, sym, false≢true, All-imp, arith, string_eq, [], ◌≤◌,
  false, true, ◌==◌, Bool-cases, All, ◌≡◌, ◌&&◌, ◌∷◌, Option, ◌++◌, Bool, List,
}
use ntu_cloud_native.Schema.{UserAccount}
use ntu_cloud_native.Reports.Snapshots.{lower_id, first_executive}

abbrev pub is_executive : UserAccount → Bool
is_executive u = u.is_active && u.role == "EXECUTIVE"

-- The account is a row of the table, an active executive, and no active executive has a lower id.
pub record IsFirstExecutive (users : List UserAccount) (ex : UserAccount) : Type 0 where
  pub before : List UserAccount
  pub after : List UserAccount
  pub is_listed : before ++ ex ∷ after ≡ users
  pub is_active_executive : is_executive ex ≡ true
  pub has_least_id : All (λ u. is_executive u ≡ true → ex.user_id ≤ u.user_id) users

-- What a search for it has found: it, or that there is none.
abbrev pub FoundExecutive : List UserAccount → Option UserAccount → Type 0
FoundExecutive users none = All (λ u. is_executive u ≡ false) users
FoundExecutive users (some ex) = IsFirstExecutive users ex

skips :
    (u : UserAccount) (users : List UserAccount) (o : Option UserAccount)
    → is_executive u ≡ false
    → FoundExecutive users o
    → FoundExecutive (u ∷ users) o
skips u users none other h = (other, h)
skips u users (some ex) other h = record {
  before = u ∷ h.before;
  after = h.after;
  is_listed = ap (λ xs. u ∷ xs) h.is_listed;
  is_active_executive = h.is_active_executive;
  has_least_id = ((λ chosen. absurd (false≢true (sym other ∙ chosen))), h.has_least_id);
}

takes :
    (u : UserAccount) (users : List UserAccount) (o : Option UserAccount)
    → is_executive u ≡ true
    → FoundExecutive users o
    → IsFirstExecutive (u ∷ users) (lower_id u o)
unfolding lower_id
takes u users none chosen h = record {
  before = [];
  after = users;
  is_listed = refl;
  is_active_executive = chosen;
  has_least_id =
      ((λ _. omega arith), All-imp _ _ users (λ x other k. absurd (false≢true (sym other ∙ k))) h);
}
takes u users (some ex) chosen h = elim (Bool-cases (leb u.user_id ex.user_id)) [
  | inl lower ↦ rw lower (record {
    before = [];
    after = users;
    is_listed = refl;
    is_active_executive = chosen;
    has_least_id = (
      (λ _. omega arith),
      All-imp _ _ users (λ x least k. let l : ex.user_id ≤ x.user_id = least k in ground arith)
          h.has_least_id,
    );
  })
  | inr higher ↦ rw higher (record {
    before = u ∷ h.before;
    after = h.after;
    is_listed = ap (λ xs. u ∷ xs) h.is_listed;
    is_active_executive = h.is_active_executive;
    has_least_id = ((λ _. ground arith), h.has_least_id);
  })
]

pub first_executive-FoundExecutive :
    (users : List UserAccount) → FoundExecutive users (first_executive users)
unfolding first_executive
first_executive-FoundExecutive [] = tt
first_executive-FoundExecutive (u ∷ users) = elim (Bool-cases (is_executive u)) [
  | inl chosen ↦
      rw chosen
        (takes u users (first_executive users) chosen (first_executive-FoundExecutive users))
  | inr other ↦
      rw other (skips u users (first_executive users) other (first_executive-FoundExecutive users))
]
