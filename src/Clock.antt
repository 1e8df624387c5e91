-- ===== src/Clock.antt =====
-- Go's time.Time and time.Duration as the source uses them. An instant is the number of nanoseconds
-- since the zero time of Go (January 1 of year 1), and a duration a number of nanoseconds.
use minecraft_operator.Prelude.{ℕ, ◌+◌, ◌-◌, ◌*◌, ◌/◌, ◌≡◌, Bool, true, arith, if◌then◌else◌, eqb}
use minecraft_operator.Prelude.Int.{ℤ, pos, negsuc, pos_part, neg_part, ltb_ℤ, ◌+ℤ◌, ◌-ℤ◌, ◌≤ℤ◌}

abbrev pub Time : Type 0
Time = ℤ

abbrev pub Duration : Type 0
Duration = ℤ

-- `time.Time{}`.
abbrev pub zero_time : Time
zero_time = pos 0

abbrev pub seconds : ℕ → Duration
seconds n = pos (n * 1000000000)

abbrev pub minutes : ℕ → Duration
minutes n = seconds (n * 60)

abbrev pub hours : ℕ → Duration
hours n = minutes (n * 60)

-- `t.Before(u)` and `t.Equal(u)`; `t.After(u)` is `before u t`.
abbrev pub before : Time → Time → Bool
before t u = ltb_ℤ t u

abbrev pub same_time : Time → Time → Bool
same_time t u = eqb (pos_part t + neg_part u) (pos_part u + neg_part t)

abbrev pub is_zero : Time → Bool
is_zero t = same_time t zero_time

-- The greatest and the least int64.
abbrev pub max_duration : Duration
max_duration = pos 9223372036854775807

abbrev pub min_duration : Duration
min_duration = negsuc 9223372036854775807

clamp : ℤ → Duration
clamp d =
    if ltb_ℤ max_duration d then max_duration else if ltb_ℤ d min_duration then min_duration else d

-- `t.Sub(u)` returns the nearest duration that an int64 holds.
unfoldable pub sub_time : Time → Time → Duration
unfolding clamp
sub_time t u = clamp (t -ℤ u)

-- `d - e` of two durations, which wraps around at the ends of int64.
unfoldable pub sub_duration : Duration → Duration → Duration
sub_duration d e =
    let x = d -ℤ e in
    if ltb_ℤ max_duration x
    then x -ℤ pos 18446744073709551616
    else if ltb_ℤ x min_duration
    then x +ℤ pos 18446744073709551616
    else x

-- `t.Add(-d)`: the least int64 is its own negation.
abbrev pub add_negated : Time → Duration → Time
add_negated t d = t +ℤ sub_duration (pos 0) d

-- A `metav1.Time` behind the API server: the seconds alone are written.
unfoldable pub stored_time : Time → Time
stored_time (pos n) = pos (n / 1000000000 * 1000000000)
stored_time (negsuc n) = negsuc ((n / 1000000000 + 1) * 1000000000 - 1)

clamp_lt :
    (x d : ℤ) → d ≤ℤ max_duration → ltb_ℤ min_duration d ≡ true → ltb_ℤ (clamp x) d ≡ ltb_ℤ x d
unfolding clamp
clamp_lt x d h k = ground arith

-- A delay that fits an int64 is reached by the clamped difference exactly if it is by the true one.
pub sub_time-lt :
    (t u : Time) (d : Duration)
    → d ≤ℤ max_duration
    → ltb_ℤ min_duration d ≡ true
    → ltb_ℤ (sub_time t u) d ≡ ltb_ℤ (t -ℤ u) d
unfolding sub_time
sub_time-lt t u d h k = clamp_lt (t -ℤ u) d h k

clamp_gt :
    (x d : ℤ) → min_duration ≤ℤ d → ltb_ℤ d max_duration ≡ true → ltb_ℤ d (clamp x) ≡ ltb_ℤ d x
unfolding clamp
clamp_gt x d h k = ground arith

pub sub_time-gt :
    (t u : Time) (d : Duration)
    → min_duration ≤ℤ d
    → ltb_ℤ d max_duration ≡ true
    → ltb_ℤ d (sub_time t u) ≡ ltb_ℤ d (t -ℤ u)
unfolding sub_time
sub_time-gt t u d h k = clamp_gt (t -ℤ u) d h k
