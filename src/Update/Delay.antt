-- ===== src/Update/Delay.antt =====
-- shouldApplyUpdate and shouldApplyNow: the update delay and the apply-now annotation.
pub mod Ready
use minecraft_operator.Prelude.{
  ℕ, suc, zero, ◌+◌, ◌*◌, ◌-◌, Bool, true, false, not, ◌&&◌, ◌||◌, List, [], ◌∷◌, Option, none,
  some, if◌then◌else◌, leb, ltb, eqb, Bool-cases, ◌≡◌, arith, sym, inl, inr,
}
use minecraft_operator.Prelude.Bytes.{Bytes, bytes, ◌==◌}
use minecraft_operator.Prelude.Int.{ℤ, pos, negsuc, ltb_ℤ, ◌+ℤ◌, ◌-ℤ◌, ◌*ℤ◌, ◌≤ℤ◌}
use minecraft_operator.Clock.{
  Time, Duration, max_duration, minutes, seconds, sub_time, sub_duration,
}
use minecraft_operator.Api.{PaperMcServer, AvailableUpdate}

-- The two optional values that the test needs, and the test.
apply_delay : Time → Option AvailableUpdate → Option Duration → Bool × Duration
apply_delay now none delay = (true, pos 0)
apply_delay now (some update) none = (true, pos 0)
apply_delay now (some update) (some delay) =
    let time_since_release = sub_time now update.released_at in
    if not (ltb_ℤ time_since_release delay)
    then (true, pos 0)
    else (false, sub_duration delay time_since_release)

-- Whether to apply, and the delay that remains.
unfoldable pub should_apply_update : Time → PaperMcServer → Bool × Duration
unfolding apply_delay
should_apply_update now server =
    apply_delay now server.status.available_update server.spec.update_delay

abbrev pub annotation_apply_now : Bytes
annotation_apply_now = bytes "mc.k8s.lex.la/apply-now"

-- A map read at a key.
unfoldable pub lookup {ℓ} : {A : Type ℓ} → Bytes → List (Bytes × A) → Option A
lookup k [] = none
lookup k ((j, v) ∷ m) = if j == k then some v else lookup k m

abbrev pub apply_now_max_age : Duration
apply_now_max_age = minutes 5

is_digit : ℕ → Bool
is_digit c = leb b'0' c && leb c b'9'

-- The digits in front of a text, read in base 10 behind the digits read so far; `none` if there are
-- none at all. The rest of the text is not read.
scan_digits : Option ℕ → Bytes → Option ℕ
scan_digits acc [] = acc
scan_digits acc (c ∷ s) =
    let rest = scan_digits (some (elim acc [ none ↦ c - b'0' | some n ↦ n * 10 + (c - b'0') ])) s in
    if is_digit c then rest else acc

skip_spaces : Bytes → Bytes
skip_spaces [] = []
skip_spaces (c ∷ s) = let rest = skip_spaces s in if eqb c b' ' || eqb c 9 then rest else c ∷ s

abbrev in_int64 : Bool → Option ℕ → Option ℤ
in_int64 negative none = none
in_int64 false (some n) = if ltb n 9223372036854775808 then some (pos n) else none
in_int64 true (some zero) = some (pos zero)
in_int64 true (some (suc n)) = if ltb n 9223372036854775808 then some (negsuc n) else none

signed : Bytes → Option ℤ
signed [] = none
signed (c ∷ s) =
    if eqb c b'-'
    then in_int64 true (scan_digits none s)
    else if eqb c b'+'
    then in_int64 false (scan_digits none s)
    else in_int64 false (scan_digits none (c ∷ s))

-- `fmt.Sscanf(s, "%d", &ts)` on one line.
unfoldable pub scan_int : Bytes → Option ℤ
unfolding signed skip_spaces scan_digits is_digit
scan_int s = signed (skip_spaces s)

in_int64-bounded :
    (negative : Bool) (o : Option ℕ) (ts : ℤ) → in_int64 negative o ≡ some ts → ts ≤ℤ max_duration
in_int64-bounded negative none ts h = cc
in_int64-bounded false (some n) ts h = elim (Bool-cases (ltb n 9223372036854775808)) [
  | inl e ↦
      let chosen : some (pos n) ≡ some ts = rw e at h in
      let same : pos n ≡ ts = cc in rw (sym same) (ground (arith, e))
  | inr e ↦ let clash : none ≡ some ts = rw e at h in cc
]
in_int64-bounded true (some zero) ts h =
    let same : pos zero ≡ ts = cc in rw (sym same) (omega arith)
in_int64-bounded true (some (suc n)) ts h = elim (Bool-cases (ltb n 9223372036854775808)) [
  | inl e ↦
      let chosen : some (negsuc n) ≡ some ts = rw e at h in
      let same : negsuc n ≡ ts = cc in rw (sym same) (omega arith)
  | inr e ↦ let clash : none ≡ some ts = rw e at h in cc
]

signed-bounded : (s : Bytes) (ts : ℤ) → signed s ≡ some ts → ts ≤ℤ max_duration
unfolding signed
signed-bounded [] ts h = cc
signed-bounded (c ∷ s) ts h = elim (Bool-cases (eqb c b'-')) [
  | inl e ↦ in_int64-bounded true (scan_digits none s) ts (rw e at h)
  | inr e ↦ elim (Bool-cases (eqb c b'+')) [
    | inl f ↦ in_int64-bounded false (scan_digits none s) ts (rw (e, f) at h)
    | inr f ↦ in_int64-bounded false (scan_digits none (c ∷ s)) ts (rw (e, f) at h)
  ]
]

-- A number that is read fits an int64.
pub scan_int-bounded : (s : Bytes) (ts : ℤ) → scan_int s ≡ some ts → ts ≤ℤ max_duration
unfolding scan_int
scan_int-bounded s ts h = signed-bounded (skip_spaces s) ts h

-- Seconds from the zero time to 1970.
abbrev pub unix_to_internal : ℤ
unix_to_internal = pos 62135596800

-- The sum of an int64 and `unix_to_internal` in an int64: it wraps around at the upper end alone.
unfoldable pub internal_seconds : ℤ → ℤ
internal_seconds ts =
    let sum = ts +ℤ unix_to_internal in
    if ltb_ℤ max_duration sum then sum -ℤ pos 18446744073709551616 else sum

-- `time.Unix(ts, 0)` of an int64.
unfoldable pub unix_time : ℤ → Time
unfolding internal_seconds
unix_time ts = internal_seconds ts *ℤ seconds 1

is_fresh : Time → Option ℤ → Bool
is_fresh now none = false
is_fresh now (some ts) = not (ltb_ℤ apply_now_max_age (sub_time now (unix_time ts)))

scanned : Option Bytes → Option ℤ
scanned none = none
scanned (some s) = scan_int s

unfoldable pub should_apply_now : Time → PaperMcServer → Bool
unfolding is_fresh scanned
should_apply_now now server =
    is_fresh now (scanned (lookup annotation_apply_now server.annotations))
