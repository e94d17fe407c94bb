-- ===== src/Store/Model.antt =====
-- A table as a function from keys to rows: the laws can be met, and the witnesses run on it.
use mathlib.Core.Path.{subst}
use cloudshield_enterprise.Prelude.{
  String, ◌≡◌, refl, inl, inr, Bool, Option, none, some, if◌then◌else◌, ◌==◌, string_eq, Bool-cases,
  arith, eq_iff,
}
use cloudshield_enterprise.Store.{Table, matches, rewritten}

abbrev pub Rows : Type 0 → Type 0
Rows Row = String → Option Row

module _ {Row : Type 0} (key : Row → String) where
  -- Only a row that stands under its own key is found.
  abbrev pub under : String → Option Row → Option Row
  under id none = none
  under id (some r) = if key r == id then some r else none

  abbrev pub update_rows : Rows Row → String → (Row → Bool) → (Row → Row) → Rows Row
  update_rows s id where_ write j =
      if id == j then rewritten where_ write (under id (s id)) else s j

  pub under-key : (id : String) (o : Option Row) (r : Row) → under id o ≡ some r → key r ≡ id
  under-key id none r e = cc
  under-key id (some q) r e = ground (arith, eq_iff (key q) id)

  under-rewritten :
      (id : String) (where_ : Row → Bool) (write : Row → Row) (o : Option Row)
      → ((r : Row) → key (write r) ≡ key r)
      → under id (rewritten where_ write (under id o)) ≡ rewritten where_ write (under id o)
  under-rewritten id where_ write none fixed = refl
  under-rewritten id where_ write (some q) fixed = elim (Bool-cases (key q == id)) [
    | inr other ↦ rw other refl
    | inl own ↦ elim (Bool-cases (where_ q)) [
      | inl met ↦ rw (own, met, fixed q, own) refl
      | inr unmet ↦ rw (own, unmet, own) refl
    ]
  ]

  pub find-update-rows :
      (s : Rows Row) (id : String) (where_ : Row → Bool) (write : Row → Row) (j : String)
      → ((r : Row) → key (write r) ≡ key r)
      → under j (update_rows s id where_ write j)
        ≡ (if id == j then rewritten where_ write (under id (s id)) else under j (s j))
  find-update-rows s id where_ write j fixed = elim (Bool-cases (id == j)) [
    | inr other ↦ rw other refl
    | inl same ↦
        let e : id ≡ j = ground (arith, eq_iff id j) in
        rw same (
          subst
            (λ (k : String).
              under k (rewritten where_ write (under id (s id)))
              ≡ rewritten where_ write (under id (s id)))
            e (under-rewritten id where_ write (s id) fixed))
  ]

abbrev pub rows : (Row : Type 0) (key : Row → String) → Table Row key
rows Row key = record {
  State = Rows Row;
  find = λ s id. under key id (s id);
  update = update_rows key;
  count = λ s id where_. if matches where_ (under key id (s id)) then 1 else 0;
  find-key = λ s id r e. under-key key id (s id) r e;
  find-update = find-update-rows key;
  count-eq = λ s id where_. refl;
}
