-- ===== src/Reports/Cache.antt =====
-- `_store_report_center_cache` of reporting-api/app/repositories.py: a dict of results by their keys,
-- each with the time it was stored at, of which the oldest makes room for a new one.
use ntu_cloud_native.Prelude.{
  ap, ◌∙◌, ℕ, suc, ◌≤◌, true, not, ◌&&◌, some, [], ◌∷◌, ◌≡◌, refl, arith, length, if◌then◌else◌,
  ltb, leb, Eq, ◌==◌, ==_refl, Bool-cases, ◌⊎◌, inl, inr,
}
use ntu_cloud_native.Prelude.Dict.{
  Dict, lookup, insert, erase, has_key, length-insert, length-erase, lookup-insert_self,
}

-- `_REPORT_CENTER_CACHE_MAX`
abbrev pub cache_max : ℕ
cache_max = 128

module _ {K V : Type 0} ⦃e : Eq K⦄ where
  -- `min(cache, key=lambda key: cache[key][0])`: the first of the oldest, from one on.
  abbrev oldest_from : K → ℕ → Dict K (ℕ × V) → K
  oldest_from best t [] = best
  oldest_from best t ((k, (u, v)) ∷ d) = if ltb u t then oldest_from k u d else oldest_from best t d

  abbrev evict : Dict K (ℕ × V) → Dict K (ℕ × V)
  evict [] = []
  evict ((k, (t, v)) ∷ d) = erase (oldest_from k t d) ((k, (t, v)) ∷ d)

  unfoldable pub store_report_center_cache : K → ℕ → V → Dict K (ℕ × V) → Dict K (ℕ × V)
  store_report_center_cache key now result cache =
      insert key (now, result)
        (if leb cache_max (length cache) && not (has_key key cache) then evict cache else cache)

  has_key-more :
      (j : K) (x : K × (ℕ × V)) (d : Dict K (ℕ × V)) → has_key j d ≡ true → has_key j (x ∷ d) ≡ true
  has_key-more j x d h = elim (Bool-cases (j == x.0)) [
    | inl same ↦ rw same refl
    | inr other ↦ rw other h
  ]

  oldest_from-cases :
      (best : K) (t : ℕ) (d : Dict K (ℕ × V))
      → (oldest_from best t d ≡ best) ⊎ (has_key (oldest_from best t d) d ≡ true)
  oldest_from-cases best t [] = inl refl
  oldest_from-cases best t ((k, (u, v)) ∷ d) = elim (Bool-cases (ltb u t)) [
    | inl sooner ↦
        let step : oldest_from best t ((k, (u, v)) ∷ d) ≡ oldest_from k u d = rw sooner refl in
        let here : has_key k ((k, (u, v)) ∷ d) ≡ true = rw (==_refl k) refl in
        inr (elim (oldest_from-cases k u d) [
          | inl same ↦ ap (λ j. has_key j ((k, (u, v)) ∷ d)) (step ∙ same) ∙ here
          | inr there ↦
              ap (λ j. has_key j ((k, (u, v)) ∷ d)) step
              ∙ has_key-more (oldest_from k u d) (k, (u, v)) d there
        ])
    | inr later ↦
        let step : oldest_from best t ((k, (u, v)) ∷ d) ≡ oldest_from best t d = rw later refl in
        elim (oldest_from-cases best t d) [
          | inl same ↦ inl (step ∙ same)
          | inr there ↦ inr (
              ap (λ j. has_key j ((k, (u, v)) ∷ d)) step
              ∙ has_key-more (oldest_from best t d) (k, (u, v)) d there)
        ]
  ]

  length-evict : (n : ℕ) (d : Dict K (ℕ × V)) → length d ≤ suc n → length (evict d) ≤ n
  length-evict n [] h = omega arith
  length-evict n ((k, (t, v)) ∷ d) h =
      let listed : has_key (oldest_from k t d) ((k, (t, v)) ∷ d) ≡ true =
        elim (oldest_from-cases k t d) [
          | inl same ↦ rw (same, ==_refl k)
          | inr there ↦ has_key-more (oldest_from k t d) (k, (t, v)) d there
        ] in
      omega (arith, length-erase (oldest_from k t d) ((k, (t, v)) ∷ d) listed)

  -- A cache within its bound of 128 entries is within it after a result is stored, and the result is found under its key with the time it was stored at.
  pub store_report_center_cache_bounded :
      (key : K) (now : ℕ) (result : V) (cache : Dict K (ℕ × V))
      → length cache ≤ cache_max
      → (length (store_report_center_cache key now result cache) ≤ cache_max)
        × (lookup key (store_report_center_cache key now result cache) ≡ some (now, result))
  unfolding store_report_center_cache
  store_report_center_cache_bounded key now result cache h =
      let kept =
        if leb cache_max (length cache) && not (has_key key cache) then evict cache else cache in
      (
        elim (Bool-cases (has_key key cache)) [
          | inl old ↦ ground (arith, length-insert key (now, result) cache)
          | inr new ↦ elim (Bool-cases (leb cache_max (length cache))) [
            | inl full ↦
                rw (full, new)
                  (ground (
                    arith,
                    length-insert key (now, result) (evict cache),
                    length-evict 127 cache h,
                  ))
            | inr free ↦ ground (arith, length-insert key (now, result) cache)
          ]
        ],
        lookup-insert_self key (now, result) kept,
      )
