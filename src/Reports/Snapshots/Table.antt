-- ===== src/Reports/Snapshots/Table.antt =====
-- The table `report_center_snapshots` under `_store_report_center_snapshot` of
-- reporting-api/app/repositories.py: its unique key, and what is read after a store.
use ntu_cloud_native.Reports.Snapshots.Keys.{is_for_refl, some_of, IsUnique}
use ntu_cloud_native.Reports.Snapshots.Rows.{
  latest-append_other, latest-update_row_other, any_of_latest-none, update_row-IsUnique,
  latest-append, read-update_row, append-IsUnique, latest-is_for,
}
use ntu_cloud_native.Timestamp.{Timestamp}
use ntu_cloud_native.Prelude.{
  is_some, refl, some, Option, nat_eq, string_eq, none, true, false, ◌≡◌, List,
}
use ntu_cloud_native.Reports.Snapshots.Store.{
  store_found, commit_found, read, store, commit_row, without_snapshot, new_row, refreshed,
  update_row, latest, is_for, Lookup, Report, Snapshot,
}

-- What is read under the key of a report that was stored.
abbrev pub IsStored :
    {A D : Type 0} → Lookup → Report A D → Timestamp → Option (Snapshot A D) → Type 0
IsStored l payload now none = ⊥
IsStored l payload now (some s) =
    (is_for l s.lookup ≡ true) × (s.payload ≡ payload) × (s.generated_at ≡ now)

module _ {A D : Type 0} (l : Lookup) (payload : Report A D) (now : Timestamp) where
  pub read-is_for :
      (rows : List (Snapshot A D)) (s : Snapshot A D)
      → read l rows ≡ some s
      → is_for l s.lookup ≡ true
  unfolding read
  read-is_for rows s h = latest-is_for l payload now rows s h

  commit_found-IsUnique :
      (rows : List (Snapshot A D)) (o : Option (Snapshot A D))
      → read l rows ≡ o
      → IsUnique rows
      → IsUnique (commit_found l payload now rows o).1
  unfolding commit_found read
  commit_found-IsUnique rows none free u =
      append-IsUnique l payload now rows u (any_of_latest-none l payload now (is_for l) rows free)
  commit_found-IsUnique rows (some s) taken u = update_row-IsUnique l payload now rows u

  read-refreshed :
      (rows : List (Snapshot A D)) (s : Snapshot A D)
      → IsUnique rows
      → latest (is_for l) rows ≡ some s
      → IsStored l payload now (latest (is_for l) (update_row l payload now rows))
  unfolding refreshed is_for
  read-refreshed rows s u taken =
      rw (read-update_row l payload now rows s u taken)
        (latest-is_for l payload now rows s taken, refl, refl)

  read-commit_found :
      (rows : List (Snapshot A D)) (o : Option (Snapshot A D))
      → read l rows ≡ o
      → IsUnique rows
      → IsStored l payload now (read l (commit_found l payload now rows o).1)
        × ((m : Lookup)
            → is_for m l ≡ false
            → read m (commit_found l payload now rows o).1 ≡ read m rows)
  unfolding commit_found read
  read-commit_found rows none free u = (
    rw (latest-append l payload now (is_for l) rows (new_row l payload now) free (is_for_refl l))
        (is_for_refl l, refl, refl),
    λ m h. latest-append_other l payload now (is_for m) rows (new_row l payload now) h,
  )
  read-commit_found rows (some s) taken u =
      (read-refreshed rows s u taken, λ m h. latest-update_row_other l payload now m rows h)

  store_found-IsUnique :
      (rows : List (Snapshot A D)) (o : Option (Snapshot A D))
      → IsUnique rows
      → IsUnique (store_found l payload now rows o).1
  unfolding store_found commit_row
  store_found-IsUnique rows none u = commit_found-IsUnique rows (read l rows) refl u
  store_found-IsUnique rows (some s) u = update_row-IsUnique l payload now rows u

  read-store_found :
      (rows : List (Snapshot A D)) (o : Option (Snapshot A D))
      → IsUnique rows
      → (is_some o ≡ true → is_some (read l rows) ≡ true)
      → IsStored l payload now (read l (store_found l payload now rows o).1)
        × ((m : Lookup)
            → is_for m l ≡ false
            → read m (store_found l payload now rows o).1 ≡ read m rows)
  unfolding store_found commit_row read
  read-store_found rows none u kept = read-commit_found rows (read l rows) refl u
  read-store_found rows (some s) u kept =
      let (r, there) = some_of (latest (is_for l) rows) (kept refl) in
      (read-refreshed rows r u there, λ m h. latest-update_row_other l payload now m rows h)

module _ {A D : Type 0} (l : Lookup) (payload : Report A D) (now : Timestamp) where
  -- Storing a report, on whatever other sessions committed between its first read and its commit, leaves at most one row for each key.
  pub store-IsUnique :
      (seen rows : List (Snapshot A D)) → IsUnique rows → IsUnique (store l payload now seen rows).1
  unfolding store
  store-IsUnique seen rows u =
      store_found-IsUnique l (without_snapshot payload) now rows (read l seen) u

  -- A report that is stored is read back under its key, without the part `snapshot` and with the time of the store, if no row of the key was deleted between the first read and the commit; under every other key is read what was read before.
  pub read-store :
      (seen rows : List (Snapshot A D))
      → IsUnique rows
      → (is_some (read l seen) ≡ true → is_some (read l rows) ≡ true)
      → IsStored l (without_snapshot payload) now (read l (store l payload now seen rows).1)
        × ((m : Lookup)
            → is_for m l ≡ false
            → read m (store l payload now seen rows).1 ≡ read m rows)
  unfolding store
  read-store seen rows u kept =
      read-store_found l (without_snapshot payload) now rows (read l seen) u kept
