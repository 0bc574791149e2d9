-- ===== src/Reports/Precompute/Retry.antt =====
-- `run_migrations_with_retry` of reporting-api/app/report_precompute_worker.py.
use ntu_cloud_native.Reports.Precompute.{run_migrations_with_retry, attempt_then, attempt_from}
use ntu_cloud_native.Prelude.{
  zero, sym, ◌∙◌, ◌-◌, arith, refl, ◌≤◌, ap, false≢true, true, ◌≡◌, ◌+◌, suc, not, ◌<◌, Bool, ℕ,
}
use ntu_cloud_native.Result.{is_ok, Result, ok, err, Error}

abbrev pub failed : Result (Unit {0}) → Bool
failed r = not (is_ok r)

failed-err : (r : Result (Unit {0})) → failed r ≡ true → (raised : Error) × (r ≡ err raised)
failed-err (ok done) h = absurd (false≢true h)
failed-err (err raised) h = (raised, refl)

attempt_from-err :
    (left done : ℕ) (run : ℕ → Result (Unit {0}))
    → failed (run (suc done)) ≡ true
    → attempt_from (suc (suc left)) done run
      ≡ ((attempt_from (suc left) (suc done) run).0, suc (attempt_from (suc left) (suc done) run).1)
unfolding attempt_from attempt_then
attempt_from-err left done run h =
    let (raised, e) = failed-err (run (suc done)) h in
    ap (λ r. attempt_then (suc left) r (attempt_from (suc left) (suc done) run)) e

-- With `k` failed attempts ahead.
attempt_from_first :
    (k left done : ℕ) (run : ℕ → Result (Unit {0}))
    → ((j : ℕ) → j < k → failed (run (suc (done + j))) ≡ true)
    → run (suc (done + k)) ≡ ok tt
    → attempt_from (suc (k + left)) done run ≡ (ok tt, k)
unfolding attempt_from attempt_then
attempt_from_first zero left done run before h =
    ap (λ n. attempt_from (suc n) done run) (omega arith)
    ∙ ap (λ r. attempt_then left r (attempt_from left (suc done) run))
        (ap (λ n. run (suc n)) (omega arith) ∙ h)
attempt_from_first (suc k) left done run before h =
    let step =
      attempt_from-err (k + left) done run
        (ap (λ n. failed (run (suc n))) (omega arith) ∙ before 0 (omega arith)) in
    let rest =
      attempt_from_first k left (suc done) run
        (λ j lt. ap (λ n. failed (run (suc n))) (omega arith) ∙ before (suc j) (omega arith))
        (ap run (omega arith) ∙ h) in
    let shift : suc k + left ≡ suc (k + left) = omega arith in
    ap (λ n. attempt_from (suc n) done run) shift ∙ step ∙ ap (λ z. (z.0, suc z.1)) rest

attempt_from_last :
    (left done : ℕ) (run : ℕ → Result (Unit {0}))
    → ((j : ℕ) → j ≤ left → failed (run (suc (done + j))) ≡ true)
    → attempt_from (suc left) done run ≡ (run (suc (done + left)), left)
unfolding attempt_from attempt_then
attempt_from_last zero done run h =
    let (raised, e) =
      failed-err (run (suc done))
        (ap (λ n. failed (run (suc n))) (omega arith) ∙ h 0 (omega arith)) in
    ap (λ r. attempt_then 0 r (attempt_from 0 (suc done) run)) e
    ∙ ap (λ r. (r, 0)) (sym e ∙ ap (λ n. run (suc n)) (omega arith))
attempt_from_last (suc left) done run h =
    attempt_from-err left done run
      (ap (λ n. failed (run (suc n))) (omega arith) ∙ h 0 (omega arith))
    ∙ ap (λ z. (z.0, suc z.1))
        (attempt_from_last left (suc done) run
          (λ j le. ap (λ n. failed (run (suc n))) (omega arith) ∙ h (suc j) (omega arith)))
    ∙ ap (λ n. (run (suc n), suc left)) (omega arith)

zero_plus : (n : ℕ) → 0 + n ≡ n
zero_plus n = omega arith

one_less : (n : ℕ) → n ≡ suc n - 1
one_less n = omega arith

pair_of : {m n k l : ℕ} → m ≡ n → k ≡ l → ◌≡◌ {A = ℕ × ℕ} (m, k) (n, l)
pair_of p q = λ i. (p i, q i)

-- With a bound of at least one attempt, the migrations are finished after the first attempt that does not raise, with as many pauses as attempts before it, and if every attempt raises, the worker raises what the last one did.
pub run_migrations_with_retry_first :
    (max_attempts : ℕ) (run : ℕ → Result (Unit {0}))
    → 1 ≤ max_attempts
    → ((k : ℕ)
        → k < max_attempts
        → ((j : ℕ) → j < k → failed (run (suc j)) ≡ true)
        → run (suc k) ≡ ok tt
        → run_migrations_with_retry max_attempts run ≡ (ok tt, k))
      × (((j : ℕ) → j < max_attempts → failed (run (suc j)) ≡ true)
          → run_migrations_with_retry max_attempts run ≡ (run max_attempts, max_attempts - 1))
unfolding run_migrations_with_retry
run_migrations_with_retry_first zero run h = absurd (omega arith)
run_migrations_with_retry_first (suc left) run h = (
  λ k lt before done.
      ap (λ n. attempt_from (suc n) 0 run) (omega arith)
      ∙ attempt_from_first k (left - k) 0 run
          (λ j l. ap (λ n. failed (run (suc n))) (omega arith) ∙ before j l)
          (ap (λ n. run (suc n)) (omega arith) ∙ done),
  λ all.
      attempt_from_last left 0 run
        (λ j le. ap (λ n. failed (run (suc n))) (omega arith) ∙ all j (omega arith))
      ∙ ap (λ n. (run (suc n.0), n.1)) (pair_of (zero_plus left) (one_less left)),
)
