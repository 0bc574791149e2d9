-- ===== src/Reports/Attendance/Conservation.antt =====
-- How the totals of `_compute_report_center_attendance` agree with those of its departments.
use ntu_cloud_native.Prelude.{
  inr, inl, is_some, Option-cases, ℕ, ◌+◌, ◌≤◌, String, Option, none, some, List, [], ◌∷◌, ◌++◌,
  ◌≡◌, refl, arith, length, count_if, length-append, get_or, string_eq,
}
use ntu_cloud_native.Prelude.Dict.{Dict, values, lookup, insert, update}
use ntu_cloud_native.Reports.Attendance.{
  group_rows, EventRow, Group, DepartmentStat, Tally, no_stat, no_tally, count_group, tally_group,
  tally_groups, stays_with, work_hours, is_normal, is_anomaly, is_attended, total,
}

-- The sum of a figure over the departments.
abbrev pub sum_of : (DepartmentStat → ℕ) → Dict String DepartmentStat → ℕ
sum_of f [] = 0
sum_of f ((d, stat) ∷ stats) = f stat + sum_of f stats

sum_of-insert :
    (f : DepartmentStat → ℕ) (k : String) (v : DepartmentStat) (stats : Dict String DepartmentStat)
    → f no_stat ≡ 0
    → sum_of f (insert k v stats) + f (get_or (lookup k stats) no_stat) ≡ sum_of f stats + f v
sum_of-insert f k v [] z = omega (arith, z)
sum_of-insert f k v ((d, stat) ∷ stats) z = ground (arith, sum_of-insert f k v stats z)

-- The totals are the sums of the departments' figures, each group is a normal day or an anomaly, and
-- no more groups are normal than attended.
pub record IsBalanced (t : Tally) : Type 0 where
  pub rows_add_up : sum_of (λ s. s.total_rows) t.departments ≡ t.total_rows
  pub normal_add_up : sum_of (λ s. s.normal_rows) t.departments ≡ t.normal_rows
  pub hours_add_up : sum_of (λ s. s.total_hours) t.departments ≡ total t.stay_hours
  pub days_add_up : sum_of (λ s. s.work_days) t.departments ≡ length t.stay_hours
  pub normal_or_anomaly : t.normal_rows + t.anomaly_days ≡ t.total_rows
  pub normal_le_attended : t.normal_rows ≤ t.attended_rows
  pub attended_le_total : t.attended_rows ≤ t.total_rows

total-append : (xs ys : List ℕ) → total (xs ++ ys) ≡ total xs + total ys
total-append [] ys = omega arith
total-append (x ∷ xs) ys = omega (arith, total-append xs ys)

-- A figure of which a group adds a fixed amount grows by it.
sum_of-update :
    (f : DepartmentStat → ℕ) (g : DepartmentStat → DepartmentStat) (n : ℕ) (k : String)
    (stats : Dict String DepartmentStat)
    → f no_stat ≡ 0
    → ((s : DepartmentStat) → f (g s) ≡ f s + n)
    → sum_of f (update k no_stat g stats) ≡ sum_of f stats + n
sum_of-update f g n k stats z grows =
    let old = get_or (lookup k stats) no_stat in
    omega (arith, sum_of-insert f k (g old) stats z, grows old)

stay_total : Option ℕ → ℕ
stay_total none = 0
stay_total (some stay) = stay

module _ (group : Group) where
  count_group-rows : (s : DepartmentStat) → (count_group group s).total_rows ≡ s.total_rows + 1
  unfolding count_group
  count_group-rows s = elim (Option-cases (work_hours group)) [
    | inl p ↦ rw p
    | inr (stay, p) ↦ rw p
  ]

  count_group-normal :
      (s : DepartmentStat)
      → (count_group group s).normal_rows ≡ s.normal_rows + count_if (is_normal group)
  unfolding count_group
  count_group-normal s = elim (Option-cases (work_hours group)) [
    | inl p ↦ rw p
    | inr (stay, p) ↦ rw p
  ]

  count_group-hours :
      (s : DepartmentStat)
      → (count_group group s).total_hours ≡ s.total_hours + stay_total (work_hours group)
  unfolding count_group stay_total
  count_group-hours s = elim (Option-cases (work_hours group)) [
    | inl p ↦ rw p (omega arith)
    | inr (stay, p) ↦ rw p
  ]

  count_group-days :
      (s : DepartmentStat)
      → (count_group group s).work_days ≡ s.work_days + count_if (is_some (work_hours group))
  unfolding count_group
  count_group-days s = elim (Option-cases (work_hours group)) [
    | inl p ↦ rw p (omega arith)
    | inr (stay, p) ↦ rw p
  ]

total-stays_with :
    (stays : List ℕ) (o : Option ℕ) → total (stays_with stays o) ≡ total stays + stay_total o
unfolding stay_total
total-stays_with stays none = omega arith
total-stays_with stays (some stay) = omega (arith, total-append stays (stay ∷ []))

length-stays_with :
    (stays : List ℕ) (o : Option ℕ)
    → length (stays_with stays o) ≡ length stays + count_if (is_some o)
length-stays_with stays none = omega arith
length-stays_with stays (some stay) = omega (arith, length-append stays (stay ∷ []))

normal_or_anomaly-group :
    (group : Group) → count_if (is_normal group) + count_if (is_anomaly group) ≡ 1
normal_or_anomaly-group group = elim (Option-cases group.first_in) [
  | inl p ↦ rw p (ground arith)
  | inr (t, p) ↦ elim (Option-cases group.last_out) [
    | inl q ↦ rw (p, q) (ground arith)
    | inr (u, q) ↦ rw (p, q) (ground arith)
  ]
]

normal_le_attended-group :
    (group : Group) → count_if (is_normal group) ≤ count_if (is_attended group)
normal_le_attended-group group = ground arith

attended_le_one : (group : Group) → count_if (is_attended group) ≤ 1
attended_le_one group = ground arith

tally_group-IsBalanced :
    (t : Tally) (group : Group) → IsBalanced t → IsBalanced (tally_group t group)
unfolding tally_group
tally_group-IsBalanced t group h =
    let stays = work_hours group in
    record {
      rows_add_up = omega (
        arith,
        h.rows_add_up,
        sum_of-update (λ s. s.total_rows) (count_group group) 1 group.department_id t.departments
            refl (count_group-rows group),
      );
      normal_add_up = omega (
        arith,
        h.normal_add_up,
        sum_of-update (λ s. s.normal_rows) (count_group group) (count_if (is_normal group))
            group.department_id t.departments refl (count_group-normal group),
      );
      hours_add_up = omega (
        arith,
        h.hours_add_up,
        total-stays_with t.stay_hours stays,
        sum_of-update (λ s. s.total_hours) (count_group group) (stay_total stays)
            group.department_id t.departments refl (count_group-hours group),
      );
      days_add_up = omega (
        arith,
        h.days_add_up,
        length-stays_with t.stay_hours stays,
        sum_of-update (λ s. s.work_days) (count_group group) (count_if (is_some stays))
            group.department_id t.departments refl (count_group-days group),
      );
      normal_or_anomaly = omega (arith, h.normal_or_anomaly, normal_or_anomaly-group group);
      normal_le_attended = omega (arith, h.normal_le_attended, normal_le_attended-group group);
      attended_le_total = omega (arith, h.attended_le_total, attended_le_one group);
    }

tally_groups-continue :
    (t : Tally) (groups : List Group) → IsBalanced t → IsBalanced (tally_groups t groups)
unfolding tally_groups
tally_groups-continue t [] h = h
tally_groups-continue t (group ∷ groups) h =
    tally_groups-continue (tally_group t group) groups (tally_group-IsBalanced t group h)

-- For any rows, the totals of the report are balanced: the rows, normal rows, stay hours and work days of the departments add up to the totals, each group is either normal or an anomaly day, no more groups are normal than attended, and no more are attended than there are.
pub tally_groups-IsBalanced :
    (rows : List EventRow) → IsBalanced (tally_groups no_tally (values (group_rows [] rows)))
tally_groups-IsBalanced rows = tally_groups-continue no_tally (values (group_rows [] rows)) record {
  rows_add_up = refl;
  normal_add_up = refl;
  hours_add_up = refl;
  days_add_up = refl;
  normal_or_anomaly = refl;
  normal_le_attended = omega arith;
  attended_le_total = omega arith;
}
