-- ===== src/Text.antt =====
-- What the source uses of the packages strings and strconv, on bytes.
pub mod Numbers
use minecraft_operator.Prelude.{
  drop, ◌+◌, ◌-◌, length, map, take, ◌*◌, ℕ, Bool, true, false, not, ◌&&◌, List, [], ◌∷◌, Option,
  none, some, if◌then◌else◌, leb, ltb, eqb, all, is_empty,
}
use minecraft_operator.Prelude.Bytes.{◌==◌, has_prefix, Bytes}

unfoldable pub is_digit_byte : ℕ → Bool
is_digit_byte c = leb b'0' c && leb c b'9'

-- A text of one digit or more.
unfoldable pub is_number : Bytes → Bool
is_number s = not (is_empty s) && all is_digit_byte s

-- The number that the digits of a text stand for, behind those read before.
unfoldable pub digits_from : ℕ → Bytes → ℕ
digits_from acc [] = acc
digits_from acc (c ∷ s) = digits_from (acc * 10 + (c - b'0')) s

-- `strconv.Atoi` of a text of digits; `none` for a number that an int does not hold.
unfoldable pub atoi : Bytes → Option ℕ
atoi s = if ltb (digits_from 0 s) 9223372036854775808 then some (digits_from 0 s) else none

-- `strings.Cut` at a byte: the text before its first occurrence and the text behind, if there is one.
unfoldable pub cut_at : ℕ → Bytes → Option (Bytes × Bytes)
cut_at b [] = none
cut_at b (c ∷ s) = let rest = cut_at b s in if eqb c b then some ([], s) else longer c rest
  where
    longer : ℕ → Option (Bytes × Bytes) → Option (Bytes × Bytes)
    longer c none = none
    longer c (some (before, behind)) = some (c ∷ before, behind)

-- `strings.Split` at a byte.
unfoldable pub split_at : ℕ → Bytes → List Bytes
split_at b [] = [] ∷ []
split_at b (c ∷ s) = let rest = split_at b s in if eqb c b then [] ∷ rest else onto c rest
  where
    onto : ℕ → List Bytes → List Bytes
    onto c [] = (c ∷ []) ∷ []
    onto c (part ∷ parts) = (c ∷ part) ∷ parts

-- `strings.ToLower` on ASCII.
abbrev pub to_lower : Bytes → Bytes
to_lower s = map (λ c. if leb b'A' c && leb c b'Z' then c + 32 else c) s

-- `strings.HasSuffix` and `strings.TrimPrefix`.
unfoldable pub has_suffix : Bytes → Bytes → Bool
has_suffix s p = leb (length p) (length s) && drop (length s - length p) s == p

unfoldable pub trim_prefix : Bytes → Bytes → Bytes
trim_prefix s p = if has_prefix s p then drop (length p) s else s

unfoldable pub trim_suffix : Bytes → Bytes → Bytes
trim_suffix s p = if has_suffix s p then take (length s - length p) s else s
