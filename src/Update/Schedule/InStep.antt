-- ===== src/Update/Schedule/InStep.antt =====
-- The registry knows the scheduler's jobs, one for each server at most.
use mathlib.Core.Path.{subst}
use minecraft_operator.Update.Schedule.{
  Scheduler, IsScheduler, CronEntryInfo, Registry, server_key, without, removed, remove_cron_job,
  added, add_job, with_existing, manage_cron_schedule,
}
use minecraft_operator.Update.Delay.{lookup}
use minecraft_operator.Api.{Condition, PaperMcServer}
use minecraft_operator.Prelude.{
  ℕ, eqb, eqb_refl, Bool, true, false, not, List, [], ◌∷◌, Option, none, some, if◌then◌else◌, keep,
  map, All, All-map, ◌≡◌, ◌⊎◌, refl, sym, ap, ◌∙◌, inl, inr, Bool-cases, arith,
}
use minecraft_operator.Prelude.Bytes.{Bytes, ◌==◌, eq→≡, eq_refl}

abbrev Entry : Type 0
Entry = Bytes × CronEntryInfo

abbrev job_of : Entry → ℕ × Bytes
job_of x = (x.1.id, x.1.spec)

-- Two entries with keys and numbers of their own.
abbrev Apart : Entry → Entry → Type 0
Apart x y = ((y.0 == x.0) ≡ false) × (eqb y.1.id x.1.id ≡ false)

abbrev AllApart : List Entry → Type 0
AllApart [] = Unit
AllApart (x ∷ xs) = All (Apart x) xs × AllApart xs

keep-all : {A : Type 0} (p : A → Bool) (xs : List A) → All (λ x. p x ≡ true) xs → keep p xs ≡ xs
keep-all p [] h = refl
keep-all p (x ∷ xs) h = rw (h.0, keep-all p xs h.1) refl

All-without :
    (P : Entry → Type 0) (key : Bytes) (xs : List Entry) → All P xs → All P (without key xs)
All-without P key [] h = tt
All-without P key (x ∷ xs) h = go (not (x.0 == key)) (All-without P key xs h.1)
  where
    go :
        (b : Bool)
        → All P (without key xs)
        → All P (if b then x ∷ without key xs else without key xs)
    go true k = (h.0, k)
    go false k = k

eqb_sym : (a b : ℕ) → eqb b a ≡ false → eqb a b ≡ false
eqb_sym a b h = ground arith

AllApart-without : (key : Bytes) (xs : List Entry) → AllApart xs → AllApart (without key xs)
AllApart-without key [] h = tt
AllApart-without key (x ∷ xs) h = go (not (x.0 == key)) (AllApart-without key xs h.1)
  where
    go :
        (b : Bool)
        → AllApart (without key xs)
        → AllApart (if b then x ∷ without key xs else without key xs)
    go true k = (All-without (Apart x) key xs h.0, k)
    go false k = k

lookup-without : (key : Bytes) (xs : List Entry) → lookup key (without key xs) ≡ none
unfolding lookup
lookup-without key [] = refl
lookup-without key (x ∷ xs) = elim (Bool-cases (x.0 == key)) [
  | inl e ↦ rw e (lookup-without key xs)
  | inr e ↦ rw e (rw e (lookup-without key xs))
]

absent : (key : Bytes) (xs : List Entry) → lookup key xs ≡ none → All (λ x. (x.0 == key) ≡ false) xs
unfolding lookup
absent key [] h = tt
absent key (x ∷ xs) h = elim (Bool-cases (x.0 == key)) [
  | inl e ↦ let g : ◌≡◌ {A = Option CronEntryInfo} (some x.1) none = rw e at h in cc
  | inr e ↦ (e, absent key xs (rw e at h))
]

lookup-All :
    (n : ℕ) (key : Bytes) (xs : List Entry) (e : CronEntryInfo)
    → All (λ y. eqb y.1.id n ≡ false) xs
    → lookup key xs ≡ some e
    → eqb e.id n ≡ false
unfolding lookup
lookup-All n key [] e a h = cc
lookup-All n key (x ∷ xs) e a h = elim (Bool-cases (x.0 == key)) [
  | inl t ↦
      let g : some x.1 ≡ some e = rw t at h in
      ap (λ i. eqb i n) (sym (ap CronEntryInfo.id (some_injective g))) ∙ a.0
  | inr t ↦ lookup-All n key xs e a.1 (rw t at h)
]
  where
    some_injective : {d f : CronEntryInfo} → some d ≡ some f → d ≡ f
    some_injective g = cc

same_key :
    (key other k : Bytes) → (other == k) ≡ false → (k == key) ≡ true → not (other == key) ≡ true
same_key key other k h t =
    let e : k ≡ key = eq→≡ k key t in rw (sym (ap (λ z. other == z) e) ∙ h) refl

-- The jobs of entries that all have other numbers.
jobs-keep :
    (n : ℕ) (xs : List Entry)
    → All (λ y. eqb y.1.id n ≡ false) xs
    → keep (λ j. not (eqb j.0 n)) (map job_of xs) ≡ map job_of xs
jobs-keep n [] h = refl
jobs-keep n (x ∷ xs) h = rw (h.0, jobs-keep n xs h.1) refl

-- Of entries apart, those without a key have the jobs without the key's number.
jobs-without :
    (key : Bytes) (xs : List Entry) (e : CronEntryInfo)
    → AllApart xs
    → lookup key xs ≡ some e
    → map job_of (without key xs) ≡ keep (λ j. not (eqb j.0 e.id)) (map job_of xs)
unfolding lookup
jobs-without key [] e a h = cc
jobs-without key (x ∷ xs) e a h = elim (Bool-cases (x.0 == key)) [
  | inl t ↦
      subst
        (λ d.
          map job_of (without key (x ∷ xs)) ≡ keep (λ j. not (eqb j.0 d.id)) (map job_of (x ∷ xs)))
        (first (rw t at h)) (here t)
  | inr t ↦
      rw (t, other (rw t at h)) (ap (λ js. job_of x ∷ js) (jobs-without key xs e a.1 (rw t at h)))
]
  where
    first : some x.1 ≡ some e → x.1 ≡ e
    first g = cc

    here :
        (x.0 == key) ≡ true
        → map job_of (without key (x ∷ xs)) ≡ keep (λ j. not (eqb j.0 x.1.id)) (map job_of (x ∷ xs))
    here t =
        rw (t, eqb_refl x.1.id)
          (ap (map job_of) (
              keep-all (λ y. not (y.0 == key)) xs
                (All-map (λ y q. same_key key y.0 x.0 q.0 t) xs a.0))
            ∙ sym (jobs-keep x.1.id xs (All-map (λ y q. q.1) xs a.0)))

    other : lookup key xs ≡ some e → eqb x.1.id e.id ≡ false
    other g = eqb_sym x.1.id e.id (lookup-All x.1.id key xs e (All-map (λ y q. q.1) xs a.0) g)

module _ {S : Type 0} (scheduler : Scheduler S) (laws : IsScheduler scheduler)
    (set_condition : Condition → List Condition → List Condition) (message : Bytes → Bytes) where
  -- The scheduler has the jobs of the entries and no others, and no two entries share a key or a number.
  abbrev pub IsInStep : Registry S → Type 0
  IsInStep r = (scheduler.jobs r.cron ≡ map job_of r.entries) × AllApart r.entries

  removed-IsInStep :
      (key : Bytes) (r : Registry S) (o : Option CronEntryInfo)
      → lookup key r.entries ≡ o
      → IsInStep r
      → IsInStep (removed scheduler set_condition message key r o)
        × (lookup key (removed scheduler set_condition message key r o).entries ≡ none)
  unfolding removed
  removed-IsInStep key r none e h = (h, e)
  removed-IsInStep key r (some info) e (j, a) = (
    (
      laws.jobs-remove info.id r.cron
          ∙ ap (λ js. keep (λ i. not (eqb i.0 info.id)) js) j
          ∙ sym (jobs-without key r.entries info a e),
      AllApart-without key r.entries a,
    ),
    lookup-without key r.entries,
  )

  All-jobs :
      (id : ℕ) (xs : List Entry)
      → All (λ j. eqb j.0 id ≡ false) (map job_of xs)
      → All (λ y. eqb y.1.id id ≡ false) xs
  All-jobs id [] h = tt
  All-jobs id (x ∷ xs) h = (h.0, All-jobs id xs h.1)

  both_all :
      (P Q : Entry → Type 0) (xs : List Entry) → All P xs → All Q xs → All (λ x. P x × Q x) xs
  both_all P Q [] h k = tt
  both_all P Q (x ∷ xs) h k = ((h.0, k.0), both_all P Q xs h.1 k.1)

  -- What is scheduled for a server: its expression, or nothing, since the scheduler does not accept it.
  abbrev pub IsScheduled : Bytes → Bytes → Registry S → Type 0
  IsScheduled key spec r =
      ((e : CronEntryInfo) × (lookup key r.entries ≡ some e) × (e.spec ≡ spec))
      ⊎ ((lookup key r.entries ≡ none) × ((s : S) × (scheduler.add_func spec s ≡ none)))

  added-IsInStep :
      (key spec : Bytes) (r : Registry S) (o : Option (ℕ × S)) (conditions : List Condition)
      → scheduler.add_func spec r.cron ≡ o
      → lookup key r.entries ≡ none
      → IsInStep r
      → IsInStep (added scheduler set_condition message key spec r o conditions).0
        × IsScheduled key spec (added scheduler set_condition message key spec r o conditions).0
  unfolding added lookup
  added-IsInStep key spec r none conditions e n h = (h, inr (n, (r.cron, e)))
  added-IsInStep key spec r (some (id, after)) conditions e n (j, a) =
      let (k, fresh) = laws.jobs-add_func spec r.cron id after e in
      (
        (
          k ∙ ap (λ js. (id, spec) ∷ js) j,
          (
            both_all _ _ r.entries (absent key r.entries n)
                (All-jobs id r.entries (subst (λ js. All (λ i. eqb i.0 id ≡ false) js) j fresh)),
            a,
          ),
        ),
        inl (record { id = id; spec = spec }, rw (eq_refl key) refl, refl),
      )

  add_job-IsInStep :
      (key spec : Bytes) (r : Registry S) (conditions : List Condition)
      → lookup key r.entries ≡ none
      → IsInStep r
      → IsInStep (add_job scheduler set_condition message key spec r conditions).0
        × IsScheduled key spec (add_job scheduler set_condition message key spec r conditions).0
  unfolding add_job
  add_job-IsInStep key spec r conditions n h = added-IsInStep key spec r _ conditions refl n h

  remove_cron_job-IsInStep :
      (key : Bytes) (r : Registry S)
      → IsInStep r
      → IsInStep (remove_cron_job scheduler set_condition message key r)
        × (lookup key (remove_cron_job scheduler set_condition message key r).entries ≡ none)
  unfolding remove_cron_job
  remove_cron_job-IsInStep key r h = removed-IsInStep key r (lookup key r.entries) refl h

  with_existing-IsInStep :
      (key spec : Bytes) (r : Registry S) (o : Option CronEntryInfo) (conditions : List Condition)
      → lookup key r.entries ≡ o
      → IsInStep r
      → IsInStep (with_existing scheduler set_condition message key spec r o conditions).0
        × IsScheduled key spec
            (with_existing scheduler set_condition message key spec r o conditions).0
  unfolding with_existing
  with_existing-IsInStep key spec r none conditions e h = add_job-IsInStep key spec r conditions e h
  with_existing-IsInStep key spec r (some info) conditions e h =
      elim (Bool-cases (info.spec == spec)) [
        | inl t ↦ rw t (h, inl (info, e, eq→≡ info.spec spec t))
        | inr t ↦
            let (again, n) = remove_cron_job-IsInStep key r h in
            rw t (
              add_job-IsInStep key spec (remove_cron_job scheduler set_condition message key r)
                conditions n again)
      ]

  -- Nothing is scheduled for a disabled window, and for another its own expression, or nothing if the
  -- scheduler does not accept that.
  abbrev pub AsAsked : Bool → Bytes → Bytes → Registry S → Type 0
  AsAsked enabled key spec r =
      ((enabled ≡ false) × (lookup key r.entries ≡ none))
      ⊎ ((enabled ≡ true) × IsScheduled key spec r)

  -- While the scheduler has exactly the jobs of the entries, with a key and a number of its own for each, it
  -- has them behind the management of a server's schedule too; and then nothing is scheduled for a
  -- server whose window is disabled, and for another its own expression, or nothing if the scheduler does
  -- not accept that.
  pub manage_cron_schedule-IsInStep :
      (server : PaperMcServer) (r : Registry S)
      → IsInStep r
      → let after = (manage_cron_schedule scheduler set_condition message server r).0 in
        IsInStep after
        × AsAsked server.spec.maintenance_window.enabled
            (server_key server)
            server.spec.maintenance_window.cron
            after
  unfolding manage_cron_schedule
  manage_cron_schedule-IsInStep server r h = go server.spec.maintenance_window.enabled
    where
      key : Bytes
      key = server_key server

      spec : Bytes
      spec = server.spec.maintenance_window.cron

      go :
          (b : Bool)
          → let after =
              (if not b
                then (
                  remove_cron_job scheduler set_condition message key r,
                  server.status.conditions,
                )
                else with_existing scheduler set_condition message key spec r
                    (lookup key r.entries)
                    server.status.conditions).0 in
            IsInStep after × AsAsked b key spec after
      go false = let (again, n) = remove_cron_job-IsInStep key r h in (again, inl (refl, n))
      go true =
          let (again, n) = with_existing-IsInStep key spec r _ server.status.conditions refl h in
          (again, inr (refl, n))
