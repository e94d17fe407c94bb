-- ===== src/Worker/Text.antt =====
-- The string operations of JavaScript that the worker's tag checks use, on the scalar values of a text.
use Prim.Native.Char.{code}
use Prim.Native.String.{[], ◌∷◌}
use cloudshield_enterprise.Prelude.{
  String, ℕ, ◌+◌, Bool, true, false, ◌&&◌, ◌||◌, if◌then◌else◌, leb, ◌==◌, nat_eq,
}

-- `s.length`, which counts a scalar value above the basic plane twice
unfoldable pub utf16_length : String → ℕ
utf16_length [] = 0
utf16_length (c ∷ s) = (if leb 65536 (code c) then 2 else 1) + utf16_length s

-- The white space that `trim` removes.
abbrev pub is_white : ℕ → Bool
is_white n =
    (leb 9 n && leb n 13)
    || n == 32
    || n == 160
    || n == 5760
    || (leb 8192 n && leb n 8202)
    || n == 8232
    || n == 8233
    || n == 8239
    || n == 8287
    || n == 12288
    || n == 65279

-- `s.trim() === ""`
unfoldable pub is_blank_text : String → Bool
is_blank_text [] = true
is_blank_text (c ∷ s) = is_white (code c) && is_blank_text s

-- `s.toLowerCase() === t` for one ASCII letter `t`, given by its number
abbrev is_letter : ℕ → ℕ → Bool
is_letter t n = n == t || n + 32 == t

-- `s.toLowerCase().startsWith("aws:")`
unfoldable pub is_aws_reserved : String → Bool
is_aws_reserved (a ∷ w ∷ s ∷ colon ∷ _) =
    is_letter 97 (code a) && is_letter 119 (code w) && is_letter 115 (code s) && code colon == 58
is_aws_reserved (_ ∷ _ ∷ _ ∷ []) = false
is_aws_reserved (_ ∷ _ ∷ []) = false
is_aws_reserved (_ ∷ []) = false
is_aws_reserved [] = false

-- `s.split("/").pop()`, where `segment` is what follows the last slash so far
abbrev last_segment_from : String → String → String
last_segment_from segment [] = segment
last_segment_from segment (c ∷ s) = last_segment_from (if code c == 47 then s else segment) s

unfoldable pub last_segment : String → String
last_segment s = last_segment_from s s
