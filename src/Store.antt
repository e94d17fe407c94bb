-- ===== src/Store.antt =====
-- The database as the services use it. Prisma and PostgreSQL are not part of the repository: a table
-- is a parameter, with the documented behaviour of `findUnique`, of `updateMany` whose `where` names
-- the primary key, and of the row count that it returns.
pub mod Model
pub mod Rows
pub mod Listed
use cloudshield_enterprise.Prelude.{
  String, ℕ, ◌≡◌, refl, ap, ◌∙◌, nat_eq, nat_beq, Bool, Option, none, some, if◌then◌else◌, ◌==◌,
  string_eq,
}

-- Whether the row is there and meets the rest of the `where`.
abbrev pub matches {ℓ} : {A : Type ℓ} → (A → Bool) → Option A → Bool
matches where_ none = Bool.false
matches where_ (some row) = where_ row

abbrev pub rewritten {ℓ} : {A : Type ℓ} → (A → Bool) → (A → A) → Option A → Option A
rewritten where_ write none = none
rewritten where_ write (some row) = some (if where_ row then write row else row)

-- `key` is the column of the primary key, which no write changes.
pub record Table (Row : Type 0) (key : Row → String) : Type 1 where
  pub State : Type 0
  pub find : State → String → Option Row
  pub update : State → String → (Row → Bool) → (Row → Row) → State
  pub count : State → String → (Row → Bool) → ℕ
  pub find-key : (s : State) (id : String) (r : Row) → find s id ≡ some r → key r ≡ id
  pub find-update :
      (s : State) (id : String) (where_ : Row → Bool) (write : Row → Row) (j : String)
      → ((r : Row) → key (write r) ≡ key r)
      → find (update s id where_ write) j
        ≡ (if id == j then rewritten where_ write (find s id) else find s j)
  pub count-eq :
      (s : State) (id : String) (where_ : Row → Bool)
      → count s id where_ ≡ (if matches where_ (find s id) then 1 else 0)

one_or_none : (m : Bool) → nat_beq (if m then 1 else 0) 1 ≡ m
one_or_none Bool.true = refl
one_or_none Bool.false = refl

-- `count === 1` tells whether the row was there and met the `where`.
pub counted :
    {Row : Type 0} {key : Row → String} (t : Table Row key) (s : t.State) (id : String)
    (where_ : Row → Bool)
    → (t.count s id where_ == 1) ≡ matches where_ (t.find s id)
counted t s id where_ =
    ap (λ (n : ℕ). n == 1) (t.count-eq s id where_) ∙ one_or_none (matches where_ (t.find s id))
