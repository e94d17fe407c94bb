-- ===== src/Startup/Batch.antt =====
-- The loop that the two reconciliations share: the candidates of a query, each of which is updated only
-- as it was read (packages/database/src/reliability-reconciliation.repository.ts).
use cloudshield_enterprise.Prelude.{
  ℕ, zero, suc, ◌+◌, ◌≡◌, refl, sym, ◌∙◌, ◌≤◌, inl, inr, Bool, true, false, List, [], ◌∷◌, map, any,
  filter, length, All, All-map, if◌then◌else◌, arith, Bool-cases,
}

pub record Reconciled {ℓ} (A : Type ℓ) : Type ℓ where
  pub rows : List A
  pub examined : ℕ
  pub reconciled : ℕ

-- `take`
abbrev pub take {ℓ} : {A : Type ℓ} → ℕ → List A → List A
take zero xs = []
take (suc n) [] = []
take (suc n) (x ∷ xs) = x ∷ take n xs

abbrev pub update {ℓ} : {A : Type ℓ} → (A → A → Bool) → (A → A → A) → A → A → A
update is_as_read fail candidate r = if is_as_read candidate r then fail candidate r else r

module _ {A : Type 0} (is_as_read : A → A → Bool) (fail : A → A → A)
    (others : List A → List A) where
  -- The conditional updates of the candidates; the count of each is added up.
  abbrev pub update_all : List A → List A → List A × ℕ
  update_all [] rows = (rows, 0)
  update_all (c ∷ cs) rows =
      let found = others rows in
      let rest = update_all cs (map (update is_as_read fail c) found) in
      (rest.0, length (filter (is_as_read c) found) + rest.1)

  unfoldable pub reconcile_stale : (A → Bool) → ℕ → List A → Reconciled A
  reconcile_stale is_stale limit rows =
      let candidates = take limit (filter is_stale rows) in
      let result = update_all candidates rows in
      record { rows = result.0; examined = length candidates; reconciled = result.1 }

pub take-all {ℓ} : {A : Type ℓ} (n : ℕ) (xs : List A) → length xs ≤ n → take n xs ≡ xs
take-all zero [] h = refl
take-all zero (x ∷ xs) h = ground (arith, h)
take-all (suc n) [] h = refl
take-all (suc n) (x ∷ xs) h = rw (take-all n xs (omega (arith, h))) refl

All-mapped {ℓ κ} :
    {A : Type ℓ} (P : A → Type κ) (g : A → A)
    → ((x : A) → P x → P (g x))
    → (xs : List A) → All P xs
    → All P (map g xs)
All-mapped P g keep [] h = tt
All-mapped P g keep (x ∷ xs) (p, h) = (keep x p, All-mapped P g keep xs h)

module _ {ℓ} {A : Type ℓ} where
  All-take : (P : A → Type 0) (n : ℕ) (xs : List A) → All P xs → All P (take n xs)
  All-take P zero xs h = tt
  All-take P (suc n) [] h = tt
  All-take P (suc n) (x ∷ xs) (p, h) = (p, All-take P n xs h)

  map-same : (xs : List A) → map (λ x. x) xs ≡ xs
  map-same [] = refl
  map-same (x ∷ xs) = rw (map-same xs) refl

  map-twice :
      (f g h : A → A) → ((x : A) → f (g x) ≡ h x) → (xs : List A) → map f (map g xs) ≡ map h xs
  map-twice f g h e [] = refl
  map-twice f g h e (x ∷ xs) = rw (e x, map-twice f g h e xs) refl

  map-agree : (f g : A → A) (xs : List A) → All (λ x. f x ≡ g x) xs → map f xs ≡ map g xs
  map-agree f g [] h = refl
  map-agree f g (x ∷ xs) (e, h) = rw (e, map-agree f g xs h) refl

-- A candidate is found as it was read only where the row is still stale, and a failed row is not stale.
module _ {A : Type 0} (is_stale : A → Bool) (is_as_read : A → A → Bool) (fail : A → A → A)
    (still : (c r : A) → is_stale c ≡ true → is_as_read c r ≡ true → is_stale r ≡ true)
    (itself : (r : A) → is_as_read r r ≡ true) (settled : (c r : A) → is_stale (fail c r) ≡ false)
    (alike : (c r : A) → is_as_read c r ≡ true → fail c r ≡ fail r r) where
  abbrev is_read : List A → A → Bool
  is_read cs r = any (λ c. is_as_read c r) cs

  abbrev failed_by : List A → A → A
  failed_by cs r = if is_read cs r then fail r r else r

  not_read :
      (cs : List A) (r : A)
      → All (λ c. is_stale c ≡ true) cs
      → is_stale r ≡ false
      → is_read cs r ≡ false
  not_read [] r h e = refl
  not_read (c ∷ cs) r (p, h) e = ground (arith, still c r p, not_read cs r h e)

  failed_by-update :
      (c : A) (cs : List A) (r : A)
      → All (λ d. is_stale d ≡ true) cs
      → failed_by cs (update is_as_read fail c r) ≡ failed_by (c ∷ cs) r
  failed_by-update c cs r h = elim (Bool-cases (is_as_read c r)) [
    | inl e ↦ rw (e, not_read cs (fail c r) h (settled c r)) (alike c r e)
    | inr e ↦ rw e refl
  ]

  update_all-rows :
      (cs rows : List A)
      → All (λ c. is_stale c ≡ true) cs
      → (update_all is_as_read fail (λ rs. rs) cs rows).0 ≡ map (failed_by cs) rows
  update_all-rows [] rows h = sym (map-same rows)
  update_all-rows (c ∷ cs) rows (p, h) =
      update_all-rows cs (map (update is_as_read fail c) rows) h
      ∙ map-twice (failed_by cs) (update is_as_read fail c) (failed_by (c ∷ cs))
          (λ r. failed_by-update c cs r h) rows

  stale_candidates : (rows : List A) → All (λ c. is_stale c ≡ true) (filter is_stale rows)
  stale_candidates [] = tt
  stale_candidates (r ∷ rs) = elim (Bool-cases (is_stale r)) [
    | inl e ↦ rw e (e, stale_candidates rs)
    | inr e ↦ rw e (stale_candidates rs)
  ]

  any-filter_behind :
      (p : A → Bool) (r : A) (rs : List A)
      → any p (filter is_stale rs) ≡ true
      → any p (filter is_stale (r ∷ rs)) ≡ true
  any-filter_behind p r rs h = elim (Bool-cases (is_stale r)) [
    | inl e ↦ rw e (ground arith)
    | inr e ↦ rw e h
  ]

  -- Every row that is stale is a candidate that finds itself.
  stale_read :
      (rows : List A) → All (λ r. is_stale r ≡ true → is_read (filter is_stale rows) r ≡ true) rows
  stale_read [] = tt
  stale_read (r ∷ rs) = (
    λ e. rw (e, itself r) refl,
    All-map (λ x h k. any-filter_behind (λ c. is_as_read c x) r rs (h k)) rs (stale_read rs),
  )

  -- Where the limit lets all stale rows be candidates and nobody else writes, exactly these rows fail.
  pub reconcile_stale-rows :
      (limit : ℕ) (rows : List A)
      → length (filter is_stale rows) ≤ limit
      → (reconcile_stale is_as_read fail (λ rs. rs) is_stale limit rows).rows
        ≡ map (λ r. if is_stale r then fail r r else r) rows
  unfolding reconcile_stale
  reconcile_stale-rows limit rows h =
      let all_ = filter is_stale rows in
      rw (take-all limit all_ h) (
        update_all-rows all_ rows (stale_candidates rows)
        ∙ map-agree (failed_by all_) (λ r. if is_stale r then fail r r else r) rows
            (All-map
              (λ r k. elim (Bool-cases (is_stale r)) [
                | inl e ↦ rw (e, k e) refl
                | inr e ↦ rw (e, not_read all_ r (stale_candidates rows) e) refl
              ])
              rows (stale_read rows)))

  -- Whatever others write in between, what they keep and the failing of a stale row keeps is kept.
  module _ {κ} (P : A → Type κ) (others : List A → List A)
      (keep : (rows : List A) → All P rows → All P (others rows))
      (fails : (c r : A) → is_stale r ≡ true → P r → P (fail c r)) where
    update_all-All :
        (cs rows : List A)
        → All (λ c. is_stale c ≡ true) cs
        → All P rows
        → All P (update_all is_as_read fail others cs rows).0
    update_all-All [] rows h k = k
    update_all-All (c ∷ cs) rows (p, h) k =
        update_all-All cs (map (update is_as_read fail c) (others rows)) h (
          All-mapped P (update is_as_read fail c)
            (λ r q. elim (Bool-cases (is_as_read c r)) [
              | inl e ↦ rw e (fails c r (still c r p e) q)
              | inr e ↦ rw e q
            ])
            (others rows) (keep rows k))

    pub reconcile_stale-All :
        (limit : ℕ) (rows : List A)
        → All P rows
        → All P (reconcile_stale is_as_read fail others is_stale limit rows).rows
    unfolding reconcile_stale
    reconcile_stale-All limit rows k =
        update_all-All (take limit (filter is_stale rows)) rows
          (All-take (λ c. is_stale c ≡ true) limit (filter is_stale rows) (stale_candidates rows)) k
