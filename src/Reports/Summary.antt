-- ===== src/Reports/Summary.antt =====
-- `get_access_summary` of reporting-api/app/repositories.py: the figures of the dashboard.
use ntu_cloud_native.Prelude.Decimal.{negated, below_zero, as_natural, natural, Integer}
use ntu_cloud_native.Prelude.{
  and_left, and_right, ◌&&◌, suc, inr, inl, count_where-le, Bool-cases, All-keep_of, ℕ, ◌+◌, ◌-◌,
  Bool, true, Option, none, some, List, [], ◌∷◌, ◌≡◌, refl, arith, All, length, count_where,
  count_if, if◌then◌else◌, ltb, ◌==◌, string_eq, eq_of_==,
}
use ntu_cloud_native.Timestamp.{Timestamp}
use ntu_cloud_native.Schema.{
  shared_columns_fit, other_columns_fit, is_decision, is_decision, Employee, AccessEvent,
  UserAccount, Database, event_is_accepted,
}
use ntu_cloud_native.Permissions.{Visible, scoped_events, scoped_employees}
use ntu_cloud_native.Reports.Rounding.{rounded_quotient}

pub record AccessSummary : Type 0 where
  pub total_events : ℕ
  pub granted_events : ℕ
  pub denied_events : ℕ
  pub known_employees : ℕ
  pub employees_inside : ℕ
  pub employees_outside : ℕ
  -- In hundredths of a millisecond.
  pub avg_latency_ms : Option Integer
  pub last_updated_at : Option Timestamp

abbrev pub is_granted : AccessEvent → Bool
is_granted e = e.decision == "GRANTED"

abbrev pub is_refused : AccessEvent → Bool
is_refused e = e.decision == "DENIED"

abbrev pub is_inside : Employee → Bool
is_inside m = m.last_known_state == "IN"

abbrev pub plus : Integer → Integer → Integer
plus (natural m) (natural n) = natural (m + n)
plus (below_zero m) (below_zero n) = below_zero (suc (m + n))
plus (natural m) (below_zero n) = if ltb n m then natural (m - suc n) else below_zero (n - m)
plus (below_zero m) (natural n) = if ltb m n then natural (n - suc m) else below_zero (m - n)

-- `func.sum(latency_ms)` and `func.max(occurred_at)`.
abbrev pub total_latency : List AccessEvent → Integer
total_latency [] = natural 0
total_latency (e ∷ es) = plus e.latency_ms (total_latency es)

-- The rounding to hundredths, which is the same on both sides of zero.
abbrev pub rounded_average : Integer → ℕ → Option Integer
rounded_average (natural n) count = as_natural (rounded_quotient n count)
rounded_average (below_zero n) count = negated (rounded_quotient (suc n) count)

abbrev pub later_of : Timestamp → Option Timestamp → Option Timestamp
later_of t none = some t
later_of t (some u) = if ltb u t then some t else some u

abbrev pub last_event_at : List AccessEvent → Option Timestamp
last_event_at [] = none
last_event_at (e ∷ es) = later_of e.occurred_at (last_event_at es)

unfoldable pub summarize : List AccessEvent → List Employee → AccessSummary
unfolding rounded_quotient
summarize events employees = record {
  total_events = length events;
  granted_events = count_where is_granted events;
  denied_events = count_where is_refused events;
  known_employees = length employees;
  employees_inside = count_where is_inside employees;
  employees_outside = length employees - count_where is_inside employees;
  avg_latency_ms = rounded_average (total_latency events) (length events);
  last_updated_at = last_event_at events;
}

-- `get_access_summary`, on the departments that `_visible_department_ids` gives.
unfoldable pub get_access_summary :
    Database → Option UserAccount → Visible → Option Timestamp → Option Timestamp → AccessSummary
unfolding scoped_events scoped_employees summarize
get_access_summary db user visible from to =
    summarize (scoped_events db user visible from to) (scoped_employees db user visible)

decision_is_accepted :
    (e : AccessEvent) → event_is_accepted e ≡ true → is_decision e.decision ≡ true
unfolding event_is_accepted
decision_is_accepted e h =
    and_left (is_decision e.decision) (other_columns_fit e)
      (and_right (shared_columns_fit e) (is_decision e.decision && other_columns_fit e) h)

refused_is_not_granted :
    (e : AccessEvent)
    → event_is_accepted e ≡ true
    → count_if (is_granted e) + count_if (is_refused e) ≡ 1
refused_is_not_granted e h = elim (Bool-cases (e.decision == "GRANTED")) [
  | inl granted ↦ rw (eq_of_== e.decision "GRANTED" granted) refl
  | inr other ↦
      let refused : is_refused e ≡ true = rw other at (decision_is_accepted e h) in
      rw (other, refused) refl
]

decisions_add_up :
    (events : List AccessEvent)
    → All (λ e. event_is_accepted e ≡ true) events
    → count_where is_granted events + count_where is_refused events ≡ length events
decisions_add_up [] h = refl
decisions_add_up (e ∷ events) h =
    omega (arith, refused_is_not_granted e h.0, decisions_add_up events h.1)

-- On tables whose events fit their constraints, the summary's granted and denied events add up to all of them, and the employees inside and outside to those known, for every user, scope and window.
pub get_access_summary_adds_up :
    (db : Database) (user : Option UserAccount) (visible : Visible) (from to : Option Timestamp)
    → All (λ e. event_is_accepted e ≡ true) db.events
    → let s = get_access_summary db user visible from to in
      (s.granted_events + s.denied_events ≡ s.total_events)
      × (s.employees_inside + s.employees_outside ≡ s.known_employees)
unfolding get_access_summary summarize scoped_events
get_access_summary_adds_up db user visible from to fits = (
  decisions_add_up (scoped_events db user visible from to)
      (All-keep_of (λ e. event_is_accepted e ≡ true) _ db.events fits),
  omega (arith, count_where-le is_inside (scoped_employees db user visible)),
)
