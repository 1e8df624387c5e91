-- ===== src/Prelude/Bytes.antt =====
-- Go's strings are sequences of bytes. Equality, prefixes and suffixes as Go computes them.
use Prim.Native.Char.{code}
use Prim.Native.Nat.{ℕ, zero, suc, ◌+◌, ◌/◌, ◌%◌}
use Prim.Native.String.{String}
use mathlib.Core.Path.{◌≡◌, refl, ap, sym, ◌∙◌}
use mathlib.Core.Logic.{◌↔◌}
use mathlib.Core.Bool.{Bool, true, false, ◌&&◌}
use mathlib.Core.List.{List, [], ◌∷◌, ◌++◌}
use native.Mathlib.Omega.{arith}
use minecraft_operator.Prelude.Tests.{if◌then◌else◌, eqb, eqb_iff, leb, ltb}
use minecraft_operator.Prelude.Lists.{
  length, take, drop, take-append-drop, take-length-append, length-append,
}

-- A Go string. Each element is a byte.
abbrev pub Bytes : Type 0
Bytes = List ℕ

-- A literal; the source's are ASCII.
abbrev pub bytes : String → Bytes
bytes String.[] = []
bytes (String.◌∷◌ c s) = code c ∷ bytes s

infix 50 ◌==◌
unfoldable pub ◌==◌ : Bytes → Bytes → Bool
[] == [] = true
[] == (y ∷ ys) = false
(x ∷ xs) == [] = false
(x ∷ xs) == (y ∷ ys) = eqb x y && xs == ys

pub eq→≡ : (a b : Bytes) → (a == b) ≡ true → a ≡ b
unfolding ◌==◌
eq→≡ [] [] h = refl
eq→≡ [] (y ∷ ys) h = cc
eq→≡ (x ∷ xs) [] h = cc
eq→≡ (x ∷ xs) (y ∷ ys) h = cc ((eqb_iff x y).0 (ground arith), eq→≡ xs ys (ground arith))

pub eq_refl : (a : Bytes) → (a == a) ≡ true
unfolding ◌==◌
eq_refl [] = refl
eq_refl (x ∷ xs) = rw ((eqb_iff x x).1 refl, eq_refl xs)

pub eq_iff : (a b : Bytes) → ((a == b) ≡ true) ↔ (a ≡ b)
eq_iff a b = (eq→≡ a b, λ e. rw e (eq_refl b))

-- `strings.HasPrefix(s, p)`: `len(s) >= len(p) && s[:len(p)] == p`.
unfoldable pub has_prefix : Bytes → Bytes → Bool
has_prefix s p = leb (length p) (length s) && take (length p) s == p

pub has_prefix_sound : (s p : Bytes) → has_prefix s p ≡ true → p ++ drop (length p) s ≡ s
unfolding has_prefix
has_prefix_sound s p h =
    let e : take (length p) s ≡ p = eq→≡ _ _ (ground arith) in
    ap (λ (q : Bytes). q ++ drop (length p) s) (sym e) ∙ take-append-drop (length p) s

pub has_prefix_complete : (p rest : Bytes) → has_prefix (p ++ rest) p ≡ true
unfolding has_prefix
has_prefix_complete p rest =
    rw (take-length-append p rest, eq_refl p) (ground (arith, length-append p rest))

-- `%d` of a number of at most 20 digits, as any 64-bit one is.
unfoldable pub decimal_on : ℕ → ℕ → Bytes
decimal_on zero n = []
decimal_on (suc fuel) n =
    let rest = decimal_on fuel (n / 10) in
    if ltb n 10 then (b'0' + n) ∷ [] else rest ++ ((b'0' + n % 10) ∷ [])

unfoldable pub decimal : ℕ → Bytes
unfolding decimal_on
decimal n = decimal_on 20 n
