-- ===== src/Reports/Snapshots/Audience.antt =====
-- Whose report a request to the report center of reporting-api/app/repositories.py is answered with.
use ntu_cloud_native.Reports.Snapshots.Executive.{
  first_executive-FoundExecutive, is_executive, IsFirstExecutive, FoundExecutive,
}
use ntu_cloud_native.Reports.Snapshots.Center.{get_through_snapshots}
use ntu_cloud_native.Reports.Snapshots.Answers.{as_hit}
use ntu_cloud_native.Reports.Snapshots.Keys.{IsUnique}
use ntu_cloud_native.Reports.Snapshots.Served.{get_through_snapshots_again}
use ntu_cloud_native.Result.{ok, Result}
use ntu_cloud_native.Reports.Snapshots.Table.{read-is_for}
use ntu_cloud_native.Permissions.Departments.{some-inj, bind-some}
use ntu_cloud_native.Timestamp.{Timestamp}
use ntu_cloud_native.Permissions.{only_own}
use ntu_cloud_native.Schema.{Database, UserAccount}
use ntu_cloud_native.Reports.Snapshots.Requests.{
  alone, LiveRequest, or_any_department, read_for_request,
}
use ntu_cloud_native.Reports.Snapshots.{
  target_id_of, own_scope_key, user_key, can_use_shared, lookup_user_key, lookup_user_id, or_user,
  scope_key, compute_user, first_executive, snapshot_lookup,
}
use ntu_cloud_native.Prelude.{
  All, ◌⊎◌, inr, inl, ap, sym, ◌∙◌, string_eq, arith, eq_of_==, refl, false, none, true, Option,
  some, ◌≡◌, ℕ, String, List,
}
use ntu_cloud_native.Reports.Snapshots.Store.{read, is_for, Lookup, Report, Snapshot}

-- The lookup of a department that is shared is the same for all users.
pub snapshot_lookup-shared :
    (quoted sha256 : String → String) (fuel : ℕ) (db : Database) (user other : Option UserAccount)
    (preset : String) (d : String) (from to : Timestamp) (limit : ℕ)
    → can_use_shared fuel db user (some d) ≡ some true
    → can_use_shared fuel db other (some d) ≡ some true
    → snapshot_lookup quoted sha256 fuel db user preset (some d) from to limit
      ≡ snapshot_lookup quoted sha256 fuel db other preset (some d) from to limit
unfolding snapshot_lookup scope_key lookup_user_id lookup_user_key
snapshot_lookup-shared quoted sha256 fuel db user other preset d from to limit h k = rw (h, k)

scope_key-own :
    (quoted sha256 : String → String) (fuel : ℕ) (db : Database) (user : Option UserAccount)
    (d : Option String)
    → scope_key quoted sha256 fuel db user d false ≡ own_scope_key quoted sha256 fuel db user d
unfolding scope_key
scope_key-own quoted sha256 fuel db user none = refl
scope_key-own quoted sha256 fuel db user (some d) = refl

lookup_user_key-own :
    (quoted sha256 : String → String) (user : Option UserAccount) (d : Option String)
    → lookup_user_key quoted sha256 false user d ≡ user_key user
unfolding lookup_user_key
lookup_user_key-own quoted sha256 user none = refl
lookup_user_key-own quoted sha256 user (some d) = refl

only_exact :
    {A D : Type 0} (l : Lookup) (rows : List (Snapshot A D)) (o : Option (Snapshot A D))
    (s : Snapshot A D)
    → or_any_department l rows false o ≡ some s
    → o ≡ some s
only_exact l rows none s h = h
only_exact l rows (some r) s h = h

is_for-key :
    (l row : Lookup)
    → is_for l row ≡ true
    → (row.cache_user_key ≡ l.cache_user_key) × (row.scope_hash ≡ l.scope_hash)
unfolding is_for
is_for-key l row h = (
  eq_of_== row.cache_user_key l.cache_user_key (ground arith),
  eq_of_== row.scope_hash l.scope_hash (ground arith),
)

-- A stored report that a user without the shared one is answered with was stored for that user, under the digest of what the user may see.
pub read_for_request-own :
    {A D : Type 0} (quoted sha256 : String → String) (fuel : ℕ) (db : Database)
    (user : Option UserAccount) (preset : String) (d : Option String) (from to : Timestamp)
    (limit : ℕ) (l : Lookup) (rows : List (Snapshot A D)) (s : Snapshot A D)
    → can_use_shared fuel db user d ≡ some false
    → snapshot_lookup quoted sha256 fuel db user preset d from to limit ≡ some l
    → read_for_request fuel db user d l rows ≡ some (some s)
    → (s.lookup.cache_user_key ≡ user_key user)
      × ((key : String) × (own_scope_key quoted sha256 fuel db user d ≡ some key)
          × (s.lookup.scope_hash ≡ sha256 key))
unfolding snapshot_lookup read_for_request
read_for_request-own quoted sha256 fuel db user preset d from to limit l rows s h e r =
    let (key, e_key, same) =
      bind-some (scope_key quoted sha256 fuel db user d false)
        (λ key. some (record {
          cache_user_key = lookup_user_key quoted sha256 false user d;
          user_id = lookup_user_id quoted sha256 false user;
          range_preset = preset;
          target_type = "department";
          target_id = target_id_of quoted sha256 d;
          scope_hash = sha256 key;
          scope_key = key;
          period_from = from;
          period_to = to;
          preview_limit = limit;
        }))
        l (rw h at e) in
    let found = only_exact l rows (read l rows) s (some-inj (rw h at r)) in
    let (p, q) = is_for-key l s.lookup (read-is_for l s.payload s.generated_at rows s found) in
    let is_l = some-inj same in
    (
      p ∙ sym (ap (λ z. z.cache_user_key) is_l) ∙ lookup_user_key-own quoted sha256 user d,
      (
        key,
        sym (scope_key-own quoted sha256 fuel db user d) ∙ e_key,
        q ∙ sym (ap (λ z. z.scope_hash) is_l),
      ),
    )

shared_user :
    (users : List UserAccount) (user : UserAccount) (o : Option UserAccount)
    → FoundExecutive users o
    → ((ex : UserAccount) × (or_user o (some user) ≡ some ex)
        × IsFirstExecutive users ex
        × (only_own (some ex) ≡ none))
      ⊎ ((or_user o (some user) ≡ some user) × All (λ u. is_executive u ≡ false) users)
unfolding or_user only_own
shared_user users user none h = inr (refl, h)
shared_user users user (some ex) h =
    let is : ex.role ≡ "EXECUTIVE" =
      eq_of_== ex.role "EXECUTIVE" (ground (arith, h.is_active_executive)) in
    inl (ex, refl, h, rw is)

-- The report of a department of which a user may see all that is below it is computed for the active executive with the lowest id, whom no restriction to the own events holds for, whatever the role of the user who asks; for that user only where no account is an active executive.
pub compute_user-shared :
    (fuel : ℕ) (db : Database) (user : UserAccount) (d : String)
    → can_use_shared fuel db (some user) (some d) ≡ some true
    → ((ex : UserAccount) × (compute_user fuel db (some user) (some d) ≡ some (some ex))
        × IsFirstExecutive db.users ex
        × (only_own (some ex) ≡ none))
      ⊎ ((compute_user fuel db (some user) (some d) ≡ some (some user))
          × All (λ u. is_executive u ≡ false) db.users)
unfolding compute_user
compute_user-shared fuel db user d h =
    elim (shared_user db.users user (first_executive db.users)
      (first_executive-FoundExecutive db.users)) [
        | inl (ex, found, first, free) ↦ inl (ex, rw h (ap some found), first, free)
        | inr (found, no_one) ↦ inr (rw h (ap some found), no_one)
      ]

-- Where two users may see all of a department and what is below it, the second one who asks for its report of a window is answered with the report of the first, with `hit` set, whatever would be computed by then, if no other session writes to the table of stored reports.
pub get_through_snapshots_shared :
    {A D : Type 0} (quoted sha256 : String → String)
    (compute_live other : Database → LiveRequest → Option (Result (Report A D))) (fuel : ℕ)
    (db : Database) (now stored_at now' stored_at' : Timestamp) (t : List (Snapshot A D))
    (user other_user : UserAccount) (preset d : String) (limit : ℕ) (window : Timestamp × Timestamp)
    (answer : Report A D) (t' : List (Snapshot A D))
    → can_use_shared fuel db (some user) (some d) ≡ some true
    → can_use_shared fuel db (some other_user) (some d) ≡ some true
    → IsUnique t
    → get_through_snapshots quoted sha256 compute_live fuel
        (alone db now stored_at t)
        (some user)
        preset
        (some d)
        limit
        window
      ≡ some (ok (answer, t'))
    → get_through_snapshots quoted sha256 other fuel
        (alone db now' stored_at' t')
        (some other_user)
        preset
        (some d)
        limit
        window
      ≡ some (ok (as_hit answer, t'))
get_through_snapshots_shared quoted sha256 compute_live other fuel db now stored_at now' stored_at'
      t user other_user preset d limit window answer t' h k u e =
    get_through_snapshots_again quoted sha256 compute_live fuel db now stored_at now' stored_at' t
      (some user) (some other_user) preset (some d) limit window answer t' other (k ∙ sym h)
      (snapshot_lookup-shared quoted sha256 fuel db (some other_user) (some user) preset d window.0
        window.1 limit k h)
      u e
