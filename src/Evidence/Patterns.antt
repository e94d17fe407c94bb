-- ===== src/Evidence/Patterns.antt =====
-- The regular expressions for the ids of an instance, an account and a region (packages/utils/src/index.ts).
use Prim.Native.Char.{code}
use Prim.Native.String.{[], ◌∷◌}
use cloudshield_enterprise.Prelude.{
  String, ℕ, suc, ◌+◌, Bool, true, false, ◌&&◌, ◌||◌, if◌then◌else◌, leb, ◌==◌, nat_eq,
}

abbrev is_digit : ℕ → Bool
is_digit n = leb 48 n && leb n 57

abbrev is_lower : ℕ → Bool
is_lower n = leb 97 n && leb n 122

abbrev is_hex : ℕ → Bool
is_hex n = is_digit n || leb 97 n && leb n 102

abbrev chars : String → ℕ
chars [] = 0
chars (_ ∷ s) = suc (chars s)

abbrev every : (ℕ → Bool) → String → Bool
every p [] = true
every p (c ∷ s) = p (code c) && every p s

-- `/^i-[0-9a-f]{8,17}$/`
unfoldable pub is_instance_id : String → Bool
is_instance_id [] = false
is_instance_id (_ ∷ []) = false
is_instance_id (i ∷ dash ∷ s) =
    code i == 105 && (code dash == 45 && (every is_hex s && (leb 8 (chars s) && leb (chars s) 17)))

-- `/^\d{12}$/`
unfoldable pub is_account_id : String → Bool
is_account_id s = every is_digit s && chars s == 12

-- What follows the first two letters: groups of a dash and letters or digits, the last of which is one
-- digit. `groups` are those that are complete, `size` and `digit` tell of the one that is being read.
abbrev region_groups : ℕ → ℕ → Bool → String → Bool
region_groups groups size digit [] = leb 1 groups && (size == 1 && digit)
region_groups groups size digit (c ∷ s) =
    let dashed = region_groups (groups + 1) 0 false s in
    let continued = region_groups groups (size + 1) (is_digit (code c)) s in
    if code c == 45
    then leb 1 size && dashed
    else (is_lower (code c) || is_digit (code c)) && continued

abbrev region_rest : String → Bool
region_rest [] = false
region_rest (dash ∷ s) = code dash == 45 && region_groups 0 0 false s

-- `/^[a-z]{2}(?:-[a-z0-9]+)+-\d$/`
unfoldable pub is_region : String → Bool
is_region [] = false
is_region (_ ∷ []) = false
is_region (a ∷ b ∷ s) = is_lower (code a) && (is_lower (code b) && region_rest s)
