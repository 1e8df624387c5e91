-- ===== src/Update/Delay/Ready.antt =====
-- When an available update is applied.
use minecraft_operator.Prelude.{
  ◌*◌, not, ◌∙◌, sym, Bool-cases, false≢true, ◌↔◌, ◌⊎◌, ◌≡◌, some, refl, true, false, inl, inr,
  arith,
}
use minecraft_operator.Update.Delay.{
  internal_seconds, scan_int-bounded, unix_to_internal, apply_now_max_age, unix_time,
  should_apply_now, scan_int, annotation_apply_now, lookup, apply_delay, should_apply_update,
}
use minecraft_operator.Clock.{
  seconds, sub_time-gt, minutes, sub_time-lt, min_duration, max_duration, Duration, Time,
  sub_duration, sub_time,
}
use minecraft_operator.Prelude.Int.{
  int_laws, neg_part, pos_part, ◌*ℤ◌, pos, ltb_ℤ, ◌-ℤ◌, ◌≤ℤ◌, ℤ, ◌+ℤ◌,
}
use minecraft_operator.Api.{AvailableUpdate, PaperMcServer}
use minecraft_operator.Prelude.Bytes.{Bytes}

le_of_not_lt : (a b : ℤ) → ltb_ℤ a b ≡ false → b ≤ℤ a
le_of_not_lt a b h = ground arith

lt_of_lt : (a b : ℤ) → ltb_ℤ a b ≡ true → a +ℤ pos 1 ≤ℤ b
unfolding ◌+ℤ◌
lt_of_lt a b h = ground arith

not_lt_of_le : (a b : ℤ) → b ≤ℤ a → ltb_ℤ a b ≡ false
not_lt_of_le a b h = ground arith

-- The delay is over: it does not exceed the time since the release.
abbrev pub IsOver : Time → Time → Duration → Type 0
IsOver now released_at delay = delay ≤ℤ now -ℤ released_at

IsOver-iff :
    (now released_at : Time) (delay : Duration)
    → delay ≤ℤ max_duration
    → ltb_ℤ min_duration delay ≡ true
    → (ltb_ℤ (sub_time now released_at) delay ≡ false) ↔ IsOver now released_at delay
IsOver-iff now released_at delay h k =
    rw (sub_time-lt now released_at delay h k)
      (le_of_not_lt (now -ℤ released_at) delay, not_lt_of_le (now -ℤ released_at) delay)

apply_lem :
    (now : Time) (update : AvailableUpdate) (delay : Duration)
    → ((ltb_ℤ (sub_time now update.released_at) delay ≡ false)
        × (apply_delay now (some update) (some delay) ≡ (true, pos 0)))
      ⊎ ((ltb_ℤ (sub_time now update.released_at) delay ≡ true)
          × (apply_delay now (some update) (some delay)
              ≡ (false, sub_duration delay (sub_time now update.released_at))))
unfolding apply_delay
apply_lem now update delay = elim (Bool-cases (ltb_ℤ (sub_time now update.released_at) delay)) [
  | inl e ↦ inr (e, rw e)
  | inr e ↦ inl (e, rw e)
]

remaining_positive :
    (delay since : Duration)
    → delay ≤ℤ max_duration
    → pos 0 ≤ℤ since
    → ltb_ℤ since delay ≡ true
    → pos 1 ≤ℤ sub_duration delay since
unfolding sub_duration ◌-ℤ◌ ◌+ℤ◌
remaining_positive delay since h k e = ground arith

since_nonneg : (now released_at : Time) → released_at ≤ℤ now → pos 0 ≤ℤ sub_time now released_at
unfolding sub_time ◌-ℤ◌
since_nonneg now released_at h = ground arith

-- With an update available that is not released in the future, and a delay that an int64 holds, the
-- update is applied exactly if its release lies the delay or longer back. If it is not applied, the
-- delay that remains is positive.
pub should_apply_update_iff :
    (now : Time) (server : PaperMcServer) (update : AvailableUpdate) (delay : Duration)
    → server.status.available_update ≡ some update
    → server.spec.update_delay ≡ some delay
    → delay ≤ℤ max_duration
    → ltb_ℤ min_duration delay ≡ true
    → update.released_at ≤ℤ now
    → (((should_apply_update now server).0 ≡ true) ↔ IsOver now update.released_at delay)
      × (((should_apply_update now server).0 ≡ true)
          ⊎ (pos 1 ≤ℤ (should_apply_update now server).1))
unfolding should_apply_update
should_apply_update_iff now server update delay u d h k past =
    let (sound, complete) = IsOver-iff now update.released_at delay h k in
    rw (u, d)
      (elim (apply_lem now update delay) [
        | inl (e, f) ↦ rw f ((λ _. sound e, λ _. refl), inl refl)
        | inr (e, f) ↦ rw f (
          (λ t. absurd (false≢true t), λ over. absurd (false≢true (sym (complete over) ∙ e))),
          inr (
              remaining_positive delay (sub_time now update.released_at) h
                (since_nonneg now update.released_at past) e),
        )
      ])

fresh_lem :
    (now t : Time) → ltb_ℤ apply_now_max_age (sub_time now t) ≡ ltb_ℤ apply_now_max_age (now -ℤ t)
fresh_lem now t = sub_time-gt now t apply_now_max_age (omega arith) refl

not_iff : (a b : ℤ) → (not (ltb_ℤ a b) ≡ true) ↔ (b ≤ℤ a)
not_iff a b = (λ h. le_of_not_lt a b (ground arith), λ h. rw (not_lt_of_le a b h))

-- The time that a number of seconds names, on a clock without bounds.
abbrev pub named_time : ℤ → Time
named_time ts = (ts +ℤ unix_to_internal) *ℤ seconds 1

-- The last second that `time.Unix` does not carry over the end of an int64.
abbrev pub last_second : ℤ
last_second = pos 9223371974719179007

seconds_parts :
    (a : ℤ)
    → (pos_part (a *ℤ seconds 1) ≡ pos_part a * 1000000000)
      × (neg_part (a *ℤ seconds 1) ≡ neg_part a * 1000000000)
unfolding ◌*ℤ◌
seconds_parts a = ground arith

carried :
    (ts : ℤ)
    → ltb_ℤ max_duration (ts +ℤ unix_to_internal) ≡ true
    → unix_time ts ≡ (ts +ℤ unix_to_internal -ℤ pos 18446744073709551616) *ℤ seconds 1
unfolding unix_time internal_seconds
carried ts e = rw e

kept : (ts : ℤ) → ltb_ℤ max_duration (ts +ℤ unix_to_internal) ≡ false → unix_time ts ≡ named_time ts
unfolding unix_time internal_seconds
kept ts e = rw e

wrapped_lem :
    (now : Time) (ts : ℤ)
    → pos 0 ≤ℤ now
    → ts ≤ℤ max_duration
    → (now -ℤ unix_time ts ≤ℤ minutes 5)
      ↔ ((now -ℤ named_time ts ≤ℤ minutes 5) × (ts ≤ℤ last_second))
wrapped_lem now ts past small =
    let sum = ts +ℤ unix_to_internal in
    elim (Bool-cases (ltb_ℤ max_duration sum)) [
      | inl e ↦
          let over = lt_of_lt max_duration sum e in
          rw (carried ts e)
            ((λ h. omega (int_laws, seconds_parts)), (λ h. omega (int_laws, seconds_parts)))
      | inr e ↦
          let within = le_of_not_lt max_duration sum e in
          rw (kept ts e) ((λ h. (h, omega (int_laws, seconds_parts))), λ h. h.0)
    ]

-- An apply-now annotation that holds a number of seconds is obeyed, from the zero time on, exactly if
-- the time that it names is at most five minutes past and the number is one that time.Unix does not
-- carry over the end of an int64. A time to come is obeyed up to that number, and refused behind it.
pub should_apply_now_iff :
    (now : Time) (server : PaperMcServer) (value : Bytes) (ts : ℤ)
    → pos 0 ≤ℤ now
    → lookup annotation_apply_now server.annotations ≡ some value
    → scan_int value ≡ some ts
    → (should_apply_now now server ≡ true)
      ↔ ((now -ℤ named_time ts ≤ℤ minutes 5) × (ts ≤ℤ last_second))
unfolding should_apply_now
should_apply_now_iff now server value ts past found scanned_ts =
    let small = scan_int-bounded value ts scanned_ts in
    let obeyed = not_iff apply_now_max_age (now -ℤ unix_time ts) in
    let named = wrapped_lem now ts past small in
    let both : (not (ltb_ℤ apply_now_max_age (now -ℤ unix_time ts)) ≡ true)
        ↔ ((now -ℤ named_time ts ≤ℤ minutes 5) × (ts ≤ℤ last_second)) =
      (λ h. named.0 (obeyed.0 h), λ h. obeyed.1 (named.1 h)) in
    rw (found, scanned_ts, fresh_lem now (unix_time ts)) both
