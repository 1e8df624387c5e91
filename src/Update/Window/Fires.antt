-- ===== src/Update/Window/Fires.antt =====
-- The window is open exactly within an hour after the schedule fires; a schedule that never fires
-- keeps the loop running for ever.
use minecraft_operator.Prelude.{
  ap, ◌↔◌, Bool, is_empty, Option, sym, false≢true, Bool-cases, ◌∙◌, ◌⊎◌, ◌<◌, ℕ, ◌≡◌, none, some,
  refl, true, false, inl, inr, zero, suc, arith,
}
use minecraft_operator.Clock.{is_zero, zero_time, before, Time}
use minecraft_operator.Update.Window.{
  within_or_stuck, is_in_maintenance_window, is_within, maintenance_window_duration, lookback,
  find_last_cron_trigger, walk, Schedule,
}
use minecraft_operator.Prelude.Int.{ -ℤ_parts, +ℤ_parts, ◌-ℤ◌, pos, ◌≤ℤ◌, ◌+ℤ◌}
use minecraft_operator.Prelude.Bytes.{Bytes}
use minecraft_operator.Api.{MaintenanceWindow}

-- The times at which a schedule fires.
abbrev pub IsFiring : Schedule → Time → Type 0
IsFiring next t = (c : Time) × (t ≡ next c)

-- The documented behaviour of `Next` for an expression that fires again and again: the first firing
-- after the given time.
pub record IsSchedule (next : Schedule) : Type 0 where
  pub next_later : (c : Time) → before c (next c) ≡ true
  pub next_first : (c t : Time) → IsFiring next t → before c t ≡ true → next c ≤ℤ t

before→lt : (a b : Time) → before a b ≡ true → a +ℤ pos 1 ≤ℤ b
unfolding ◌+ℤ◌
before→lt a b h = ground arith

not_before→le : (a b : Time) → before a b ≡ false → b ≤ℤ a
not_before→le a b h = ground arith

le→not_before : (a b : Time) → b ≤ℤ a → before a b ≡ false
le→not_before a b h = ground arith

lt→before : (a b : Time) → a +ℤ pos 1 ≤ℤ b → before a b ≡ true
unfolding ◌+ℤ◌
lt→before a b h = ground arith

module _ (next : Schedule) (now : Time) where
  -- One round of the loop, by its test.
  walk_stop :
      (fuel : ℕ) (c last : Time)
      → before now (next c) ≡ true
      → walk (suc fuel) next now c last ≡ some last
  unfolding walk
  walk_stop fuel c last e = rw (e, walk)

  walk_step :
      (fuel : ℕ) (c last : Time)
      → before now (next c) ≡ false
      → walk (suc fuel) next now c last ≡ walk fuel next now (next c) (next c)
  unfolding walk
  walk_step fuel c last e = rw (e, walk)

  -- Of a schedule for which `Next` finds nothing the loop takes the zero time for a firing, round
  -- after round: no fuel is enough, so the reconciliation never returns.
  pub never_firing_loops :
      ((c : Time) → next c ≡ zero_time)
      → zero_time ≤ℤ now
      → (fuel : ℕ) → find_last_cron_trigger fuel next now ≡ none
  unfolding find_last_cron_trigger
  never_firing_loops never h fuel = loops fuel (now -ℤ lookback) zero_time
    where
      loops : (n : ℕ) (c last : Time) → walk n next now c last ≡ none
      loops zero c last = unfold walk in refl
      loops (suc n) c last =
          walk_step n c last (rw (never c) (le→not_before now zero_time h))
          ∙ loops n (next c) (next c)

  -- Within the hour after a firing.
  abbrev pub JustFired : Type 0
  JustFired =
      (t : Time) × IsFiring next t
      × (t ≤ℤ now)
      × (before now (t +ℤ maintenance_window_duration) ≡ true)

  module _ (laws : IsSchedule next) where
    start_past : (c : Time) → now ≤ℤ c +ℤ pos 0 → now +ℤ pos 1 ≤ℤ next c
    start_past c h = omega (
      arith,
      before→lt c (next c) (laws.next_later c),
      +ℤ_parts c (pos 0),
      +ℤ_parts c (pos 1),
      +ℤ_parts now (pos 1),
    )

    closer : (c : Time) (n : ℕ) → now ≤ℤ c +ℤ pos (suc n) → now ≤ℤ next c +ℤ pos n
    closer c n h = omega (
      arith,
      before→lt c (next c) (laws.next_later c),
      +ℤ_parts c (pos (suc n)),
      +ℤ_parts c (pos 1),
      +ℤ_parts (next c) (pos n),
    )

    -- The end of the loop: a firing, or the zero time that it began with, not past now, and no
    -- earlier than any firing behind the candidate.
    record Ends (c last final : Time) : Type 0 where
      source : (final ≡ zero_time) ⊎ (IsFiring next final × (final ≤ℤ now))
      grows : last ≡ c → c ≤ℤ final
      latest : (t : Time) → IsFiring next t → before c t ≡ true → t ≤ℤ now → t ≤ℤ final

    Ends-here :
        (c last : Time)
        → before now (next c) ≡ true
        → c ≤ℤ now
        → (last ≡ zero_time) ⊎ (IsFiring next last × (last ≡ c))
        → Ends c last last
    Ends-here c last e past h = record {
      source = elim h [ inl z ↦ inl z | inr (f, same) ↦ inr (f, rw same past) ];
      grows = λ same. rw same (omega arith);
      latest = λ t f after in_past.
          absurd (omega (arith, before→lt now (next c) e, next_le t f after, +ℤ_parts now (pos 1)));
    }
      where
        next_le : (t : Time) → IsFiring next t → before c t ≡ true → next c ≤ℤ t
        next_le t f after = laws.next_first c t f after

    Ends-later : (c last final : Time) → Ends (next c) (next c) final → Ends c last final
    Ends-later c last final later = record {
      source = later.source;
      grows = λ _.
          omega
            (arith, later.grows refl, before→lt c (next c) (laws.next_later c), +ℤ_parts c (pos 1));
      latest = λ t f after in_past. elim (Bool-cases (before (next c) t)) [
        | inl e ↦ later.latest t f e in_past
        | inr e ↦ omega (arith, not_before→le (next c) t e, later.grows refl)
      ];
    }

    walk_lem :
        (fuel n : ℕ) (c last : Time)
        → n < fuel
        → now ≤ℤ c +ℤ pos n
        → c ≤ℤ now
        → (last ≡ zero_time) ⊎ (IsFiring next last × (last ≡ c))
        → (final : Time) × (walk fuel next now c last ≡ some final) × Ends c last final
    walk_lem zero n c last h close past source = elim h [ ]
    walk_lem (suc fuel) zero c last h close past source = (
      last,
      walk_stop fuel c last (lt→before now (next c) (start_past c close)),
      Ends-here c last (lt→before now (next c) (start_past c close)) past source,
    )
    walk_lem (suc fuel) (suc n) c last h close past source =
        elim (Bool-cases (before now (next c))) [
          | inl e ↦ (last, walk_stop fuel c last e, Ends-here c last e past source)
          | inr e ↦
              let (final, found, ends) =
                walk_lem fuel n (next c) (next c) (omega arith) (closer c n close)
                  (not_before→le now (next c) e) (inr ((c, refl), refl)) in
              (final, walk_step fuel c last e ∙ found, Ends-later c last final ends)
        ]

    within_sound :
        (final : Time)
        → Ends (now -ℤ lookback) zero_time final
        → is_within now final ≡ true
        → JustFired
    unfolding is_within
    within_sound final ends h = elim ends.source [
      | inl z ↦ absurd (false≢true (sym (not_within_zero final z) ∙ h))
      | inr (f, past) ↦ (final, f, past, ground arith)
    ]
      where
        not_within_zero : (t : Time) → t ≡ zero_time → is_within now t ≡ false
        not_within_zero t z = rw z

    within_intro :
        (final : Time)
        → is_zero final ≡ false
        → final ≤ℤ now
        → before now (final +ℤ maintenance_window_duration) ≡ true
        → is_within now final ≡ true
    unfolding is_within
    within_intro final nonzero past hour = rw (nonzero, le→not_before now final past, hour)

    positive : (t : Time) → pos 1 ≤ℤ t → is_zero t ≡ false
    positive t h = ground arith

    within_complete :
        (final : Time)
        → lookback ≤ℤ now
        → Ends (now -ℤ lookback) zero_time final
        → JustFired
        → is_within now final ≡ true
    within_complete final late ends (t, f, past, hour) =
        let recent : now +ℤ pos 1 ≤ℤ t +ℤ maintenance_window_duration = before→lt now _ hour in
        let after : before (now -ℤ lookback) t ≡ true = lt→before (now -ℤ lookback) t (
          omega (
            arith,
            recent,
            +ℤ_parts now (pos 1),
            +ℤ_parts t maintenance_window_duration,
            -ℤ_parts now lookback,
            +ℤ_parts (now -ℤ lookback) (pos 1),
          )) in
        let reached : t ≤ℤ final = ends.latest t f after past in
        let nonzero : pos 1 ≤ℤ final = omega (
          arith,
          recent,
          reached,
          late,
          +ℤ_parts now (pos 1),
          +ℤ_parts t maintenance_window_duration,
        ) in
        within_intro final (positive final nonzero)
          (elim ends.source [ inl z ↦ absurd (not_zero final z nonzero) | inr (_, p) ↦ p ])
          (lt→before now _ (
            omega (
              arith,
              recent,
              reached,
              +ℤ_parts now (pos 1),
              +ℤ_parts t maintenance_window_duration,
              +ℤ_parts final maintenance_window_duration,
            )))
      where
        not_zero : (u : Time) → u ≡ zero_time → pos 1 ≤ℤ u → ⊥
        not_zero u z h = ground arith

    trigger_lem :
        (fuel : ℕ)
        → 604800000000000 < fuel
        → (final : Time) × (find_last_cron_trigger fuel next now ≡ some final)
          × Ends (now -ℤ lookback) zero_time final
    unfolding find_last_cron_trigger
    trigger_lem fuel enough =
        walk_lem fuel 604800000000000 (now -ℤ lookback) zero_time enough
          (omega (arith, -ℤ_parts now lookback, +ℤ_parts (now -ℤ lookback) (pos 604800000000000)))
          (omega (arith, -ℤ_parts now lookback)) (inl refl)

    window_lem :
        (fuel : ℕ) (parse : Bytes → Option Schedule) (mw : MaintenanceWindow)
        → mw.enabled ≡ true
        → is_empty mw.cron ≡ false
        → parse mw.cron ≡ some next
        → is_in_maintenance_window fuel parse now mw
          ≡ within_or_stuck now (find_last_cron_trigger fuel next now)
    unfolding is_in_maintenance_window
    window_lem fuel parse mw on given parsed = ground arith

    -- With a window enabled, for a valid expression that fires again and again, and a clock past the
    -- first week of year 1: with one round of fuel for each nanosecond of the seven days looked back
    -- the loop ends, and the window is found open exactly if the schedule fired within the last hour.
    pub is_in_maintenance_window_iff :
        (fuel : ℕ) (parse : Bytes → Option Schedule) (mw : MaintenanceWindow)
        → mw.enabled ≡ true
        → is_empty mw.cron ≡ false
        → parse mw.cron ≡ some next
        → lookback ≤ℤ now
        → 604800000000000 < fuel
        → (open_now : Bool) × (is_in_maintenance_window fuel parse now mw ≡ some open_now)
          × ((open_now ≡ true) ↔ JustFired)
    is_in_maintenance_window_iff fuel parse mw on given parsed late enough =
        let (final, found, ends) = trigger_lem fuel enough in
        (
          is_within now final,
          window_lem fuel parse mw on given parsed ∙ ap (within_or_stuck now) found,
          (within_sound final ends, within_complete final late ends),
        )
