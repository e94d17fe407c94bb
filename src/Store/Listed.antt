-- ===== src/Store/Listed.antt =====
-- A table as the list of its rows, for code that finds a row by other columns than its key. `findFirst`
-- comes upon the rows in the order of the list; the row that is found is updated by its primary key.
use cloudshield_enterprise.Prelude.{
  ◌≡◌, refl, inl, inr, Bool, true, List, [], ◌∷◌, ◌++◌, any, if◌then◌else◌, arith, Bool-cases,
}

-- `findFirst`, and the update of the row that it finds.
unfoldable pub update_first {ℓ} : {A : Type ℓ} → (A → Bool) → (A → A) → List A → List A
update_first where_ write [] = []
update_first where_ write (r ∷ rs) =
    let rest = update_first where_ write rs in if where_ r then write r ∷ rs else r ∷ rest

module _ {ℓ} {A : Type ℓ} (p : A → Bool) where
  pub any-append : (fs gs : List A) → any p fs ≡ true → any p (fs ++ gs) ≡ true
  any-append [] gs h = cc
  any-append (f ∷ fs) gs h = elim (Bool-cases (p f)) [
    | inl e ↦ rw e refl
    | inr e ↦ rw e (any-append fs gs (ground arith))
  ]

  pub any-append_last : (fs : List A) (g : A) → p g ≡ true → any p (fs ++ (g ∷ [])) ≡ true
  any-append_last [] g h = rw h refl
  any-append_last (f ∷ fs) g h = ground (arith, any-append_last fs g h)

  pub any-behind : (f : A) (fs : List A) → any p fs ≡ true → any p (f ∷ fs) ≡ true
  any-behind f fs h = ground arith

  module _ (where_ : A → Bool) (write : A → A) where
    -- An update that keeps the test keeps that some row passes it.
    pub any-update_first :
        (fs : List A)
        → ((f : A) → p f ≡ true → p (write f) ≡ true)
        → any p fs ≡ true
        → any p (update_first where_ write fs) ≡ true
    unfolding update_first
    any-update_first [] keep h = h
    any-update_first (f ∷ fs) keep h = elim (Bool-cases (where_ f)) [
      | inl e ↦ rw e (ground (arith, keep f))
      | inr e ↦ rw e (ground (arith, any-update_first fs keep))
    ]

    -- The row that is found passes the test that the update makes true.
    pub any-updated :
        (fs : List A)
        → ((f : A) → where_ f ≡ true → p (write f) ≡ true)
        → any where_ fs ≡ true
        → any p (update_first where_ write fs) ≡ true
    unfolding update_first
    any-updated [] make h = cc
    any-updated (f ∷ fs) make h = elim (Bool-cases (where_ f)) [
      | inl e ↦ rw e (rw (make f e) refl)
      | inr e ↦ rw e (ground (arith, any-updated fs make (rw e at h)))
    ]
