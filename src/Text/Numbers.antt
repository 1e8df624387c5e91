-- ===== src/Text/Numbers.antt =====
-- A number that is printed is read back.
use minecraft_operator.Text.{is_digit_byte, is_number, digits_from, atoi, cut_at}
use minecraft_operator.Prelude.{
  ℕ, zero, suc, ◌+◌, ◌-◌, ◌*◌, ◌/◌, ◌%◌, ◌<◌, Bool, true, false, not, ◌&&◌, [], ◌∷◌, ◌++◌, some,
  if◌then◌else◌, ltb, eqb, all, is_empty, ◌≡◌, refl, inl, inr, Bool-cases, arith, eqb_refl,
}
use minecraft_operator.Prelude.Bytes.{Bytes, decimal, decimal_on}

-- How many numbers have at most so many digits.
abbrev numbers_of : ℕ → ℕ
numbers_of zero = 1
numbers_of (suc n) = 10 * numbers_of n

digits_from-append :
    (acc : ℕ) (s : Bytes) (c : ℕ)
    → digits_from acc (s ++ (c ∷ [])) ≡ digits_from acc s * 10 + (c - b'0')
unfolding digits_from
digits_from-append acc [] c = refl
digits_from-append acc (d ∷ s) c = digits_from-append (acc * 10 + (d - b'0')) s c

all-append : (p : ℕ → Bool) (s t : Bytes) → all p (s ++ t) ≡ (all p s && all p t)
all-append p [] t = refl
all-append p (c ∷ s) t = ground (arith, all-append p s t)

-- What is printed of a number with enough digits.
digits_from-decimal_on : (fuel n : ℕ) → n < numbers_of fuel → digits_from 0 (decimal_on fuel n) ≡ n
unfolding digits_from decimal_on
digits_from-decimal_on zero n h = omega arith
digits_from-decimal_on (suc fuel) n h = elim (Bool-cases (ltb n 10)) [
  | inl e ↦ rw e (omega arith)
  | inr e ↦ rw e (
      rw
        (
          digits_from-append 0 (decimal_on fuel (n / 10)) (b'0' + n % 10),
          digits_from-decimal_on fuel (n / 10) (omega arith),
        )
        (omega arith))
]

digit_byte : (n : ℕ) → n < 10 → is_digit_byte (b'0' + n) ≡ true
unfolding is_digit_byte
digit_byte n h = ground arith

all-decimal_on : (fuel n : ℕ) → all is_digit_byte (decimal_on fuel n) ≡ true
unfolding decimal_on
all-decimal_on zero n = refl
all-decimal_on (suc fuel) n = elim (Bool-cases (ltb n 10)) [
  | inl e ↦ rw e (rw (digit_byte n (ground arith)) refl)
  | inr e ↦ rw e (
      rw
        (
          all-append is_digit_byte (decimal_on fuel (n / 10)) ((b'0' + n % 10) ∷ []),
          all-decimal_on fuel (n / 10),
          digit_byte (n % 10) (omega arith),
        )
        refl)
]

is_empty-snoc : (s : Bytes) (c : ℕ) → is_empty (s ++ (c ∷ [])) ≡ false
is_empty-snoc [] c = refl
is_empty-snoc (d ∷ s) c = refl

pub all-decimal : (n : ℕ) → all is_digit_byte (decimal n) ≡ true
unfolding decimal
all-decimal n = all-decimal_on 20 n

pub is_empty-decimal : (n : ℕ) → is_empty (decimal n) ≡ false
unfolding decimal decimal_on
is_empty-decimal n = go (ltb n 10)
  where
    go :
        (b : Bool)
        → is_empty (if b then (b'0' + n) ∷ [] else decimal_on 19 (n / 10) ++ ((b'0' + n % 10) ∷ []))
          ≡ false
    go true = refl
    go false = is_empty-snoc (decimal_on 19 (n / 10)) (b'0' + n % 10)

pub is_number-decimal : (n : ℕ) → is_number (decimal n) ≡ true
unfolding is_number
is_number-decimal n = rw (is_empty-decimal n, all-decimal n) refl

-- `strconv.Atoi` of what `%d` prints of an int.
pub atoi-decimal : (n : ℕ) → n < 9223372036854775808 → atoi (decimal n) ≡ some n
unfolding atoi decimal
atoi-decimal n h = rw (digits_from-decimal_on 20 n (omega arith)) (ground arith)

-- A text without the byte ends at its first occurrence.
pub cut_at-append :
    (b : ℕ) (s t : Bytes) → all (λ c. not (eqb c b)) s ≡ true → cut_at b (s ++ b ∷ t) ≡ some (s, t)
unfolding cut_at
cut_at-append b [] t h = rw (eqb_refl b) refl
cut_at-append b (c ∷ s) t h = rw (other (ground arith), cut_at-append b s t (ground arith)) refl
  where
    other : not (eqb c b) ≡ true → eqb c b ≡ false
    other g = ground arith

pub digits_from-decimal : (n : ℕ) → n < 18446744073709551616 → digits_from 0 (decimal n) ≡ n
unfolding decimal
digits_from-decimal n h = digits_from-decimal_on 20 n (omega arith)
