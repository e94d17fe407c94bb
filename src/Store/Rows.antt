-- ===== src/Store/Rows.antt =====
-- What holds of every row of a table, and the writes that keep it.
use mathlib.Core.Path.{subst}
use text.Mathlib.TextPositions.{eq_refl}
use cloudshield_enterprise.Prelude.{
  String, refl, ◌∙◌, ◌≡◌, sym, ap, inl, inr, Bool, true, Option, none, some, if◌then◌else◌, ◌==◌,
  string_eq, Bool-cases, arith, eq_iff,
}
use cloudshield_enterprise.Store.{Table, rewritten}

module _ {Row : Type 0} (P : Row → Type 0) where
  abbrev pub Holds : Option Row → Type 0
  Holds none = Unit
  Holds (some r) = P r

  Holds-rewritten :
      (where_ : Row → Bool) (write : Row → Row) (o : Option Row)
      → ((r : Row) → o ≡ some r → where_ r ≡ true → P r → P (write r))
      → Holds o
      → Holds (rewritten where_ write o)
  Holds-rewritten where_ write none keep h = h
  Holds-rewritten where_ write (some r) keep h = elim (Bool-cases (where_ r)) [
    | inl e ↦
        subst (λ (c : Bool). Holds (some (if c then write r else r))) (sym e) (keep r refl e h)
    | inr e ↦ subst (λ (c : Bool). Holds (some (if c then write r else r))) (sym e) h
  ]

module _ {Row : Type 0} {key : Row → String} (P : Row → Type 0) where
  -- A write keeps what holds of the row under one key.
  pub Holds-update :
      (t : Table Row key) (s : t.State) (id : String) (where_ : Row → Bool) (write : Row → Row)
      (j : String)
      → ((r : Row) → key (write r) ≡ key r)
      → ((r : Row) → t.find s id ≡ some r → where_ r ≡ true → P r → P (write r))
      → Holds P (t.find s j)
      → Holds P (t.find (t.update s id where_ write) j)
  Holds-update t s id where_ write j fixed keep h =
      let choice : Bool → Option Row =
        λ c. if c then rewritten where_ write (t.find s id) else t.find s j in
      subst (Holds P) (sym (t.find-update s id where_ write j fixed)) (elim (Bool-cases (id == j)) [
        | inl e ↦
            let same : j ≡ id = ground (arith, eq_iff id j) in
            subst (λ (c : Bool). Holds P (choice c)) (sym e)
              (Holds-rewritten P where_ write (t.find s id) keep
                (subst (λ (k : String). Holds P (t.find s k)) same h))
        | inr e ↦ subst (λ (c : Bool). Holds P (choice c)) (sym e) h
      ])

  -- Every stored row has the property.
  abbrev pub Every : (t : Table Row key) → t.State → Type 0
  Every t s = (j : String) → Holds P (t.find s j)

  pub Every-update :
      (t : Table Row key) (s : t.State) (id : String) (where_ : Row → Bool) (write : Row → Row)
      → ((r : Row) → key (write r) ≡ key r)
      → ((r : Row) → t.find s id ≡ some r → where_ r ≡ true → P r → P (write r))
      → Every t s
      → Every t (t.update s id where_ write)
  Every-update t s id where_ write fixed keep h j =
      Holds-update t s id where_ write j fixed keep (h j)

pub find-updated :
    {Row : Type 0} {key : Row → String} (t : Table Row key) (s : t.State) (id : String)
    (where_ : Row → Bool) (write : Row → Row)
    → ((r : Row) → key (write r) ≡ key r)
    → t.find (t.update s id where_ write) id ≡ rewritten where_ write (t.find s id)
find-updated t s id where_ write fixed =
    t.find-update s id where_ write id fixed
    ∙ ap (λ (c : Bool). if c then rewritten where_ write (t.find s id) else t.find s id)
        (eq_refl id)
