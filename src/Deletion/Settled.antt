-- ===== src/Deletion/Settled.antt =====
-- The finalizer goes only when no JAR is left behind that could still be deleted.
use minecraft_operator.Deletion.{
  asked_for, is_dropped, is_absent, World, Deleting, Answer, succeeded, not_found, failed,
  DeletionError, ◌>>=◌, step_on, lookup, set_deleted, is_stale, still_there, update_status,
  saved_status, or_fail, counted, got, mark_jar_as_deleted, new_entry,
}
use minecraft_operator.Deletion.Stores.{is_free, without_jar}
use minecraft_operator.Selection.{Selecting, SelectorError, find_matching_servers}
use minecraft_operator.Selection.Symmetry.{In}
use minecraft_operator.Clock.{Time}
use minecraft_operator.Api.{DeletionProgressEntry, PaperMcServer, Plugin}
use minecraft_operator.Prelude.{
  ℕ, Bool, true, false, ◌&&◌, List, [], ◌∷◌, Option, none, some, keep, map, is_empty, Result, ok,
  err, ◌≡◌, ◌⊎◌, inl, inr, refl, sym, ap, ◌∙◌, Bool-cases, arith, if◌then◌else◌,
}
use minecraft_operator.Prelude.Bytes.{Bytes, ◌==◌, eq→≡}

abbrev pub Post :
    {X : Type 0} → (X → World → Type 0) → (World → Type 0) → Result DeletionError X × World → Type 0
Post Q R (ok x, w) = Q x w
Post Q R (err e, w) = R w

abbrev pub Triple :
    {X : Type 0} → (World → Type 0) → Deleting X → (X → World → Type 0) → (World → Type 0) → Type 0
Triple P m Q R = (w : World) → P w → Post Q R (m w)

pub seq-Triple :
    {X Y : Type 0} (P R : World → Type 0) (m : Deleting X) (k : X → Deleting Y)
    (Q : X → World → Type 0) (Q2 : Y → World → Type 0)
    → Triple P m Q R
    → ((x : X) → Triple (Q x) (k x) Q2 R)
    → Triple P (m >>= k) Q2 R
unfolding ◌>>=◌ step_on
seq-Triple {X = X} P R m k Q Q2 first next w p = go (m w) (first w p)
  where
    go : (r : Result DeletionError X × World) → Post Q R r → Post Q2 R (step_on k r)
    go (ok x, after) q = next x after q
    go (err e, after) q = q

module _ (selecting : Selecting) (answer : ℕ → Answer) (now : Time) (plugin : Plugin) where
  abbrev pub entries_of : {E : Type 0} → Result E (List PaperMcServer) → List DeletionProgressEntry
  entries_of (ok servers) = map (new_entry selecting answer now plugin) servers
  entries_of (err e) = []

  -- The plugin's servers, as a search that reaches the API server finds them.
  abbrev pub searched : List PaperMcServer → Result SelectorError (List PaperMcServer)
  searched servers =
      find_matching_servers selecting plugin.spec.instance_selector
        (some (keep (λ server. server.namespace == plugin.namespace) servers))

  -- What the plugin's deletion waits for: the progress as it is stored, or the entries of a new one.
  abbrev pub tracked : World → List DeletionProgressEntry
  tracked w = if is_empty w.progress then entries_of (searched w.servers) else w.progress

  -- An entry that nothing need wait for: the JAR is deleted, or the request is older than the timeout, or
  -- the server is not there, or it has no JAR of the plugin.
  abbrev pub IsSettled : List PaperMcServer → DeletionProgressEntry → Type 0
  IsSettled servers e =
      (e.jar_deleted ≡ true)
      ⊎ (is_stale now e.deletion_requested_at ≡ true)
      ⊎ (is_free plugin servers e.server_name e.namespace ≡ true)

  module _ (before : List PaperMcServer) (e : DeletionProgressEntry) where
    abbrev pub IsKept : List DeletionProgressEntry → Type 0
    IsKept entries = IsSettled before e ⊎ In e entries

    abbrev pub Serves : List PaperMcServer → Type 0
    Serves servers =
        (name namespace : Bytes)
        → is_free plugin servers name namespace ≡ is_free plugin before name namespace

    -- What every step keeps up to the last one.
    abbrev pub Keeps : World → Type 0
    Keeps w = (w.finalizer ≡ true) × Serves w.servers × IsKept w.progress

    abbrev pub Fails : World → Type 0
    Fails w = w.finalizer ≡ true

    abbrev pub Steady : {X : Type 0} → Deleting X → Type 0
    Steady m = Triple Keeps m (λ _. Keeps) Fails

    pub update_status-Steady : Steady (update_status selecting answer now plugin)
    unfolding update_status saved_status
    update_status-Steady w k = go (answer w.calls)
      where
        go :
            (a : Answer)
            → Post
                (λ _. Keeps)
                Fails
                (saved_status selecting answer now plugin a (counted selecting answer now plugin w))
        go succeeded = k
        go not_found = k
        go failed = k

    pub or_fail-Steady :
        (f : DeletionError) (a : Answer) → Steady (or_fail selecting answer now plugin f a)
    unfolding or_fail
    or_fail-Steady f succeeded w k = k
    or_fail-Steady f not_found w k = k.0
    or_fail-Steady f failed w k = k.0

    pub stored-Steady :
        (f : DeletionError)
        → Steady
            (update_status selecting answer now plugin >>= or_fail selecting answer now plugin f)
    stored-Steady f =
        seq-Triple Keeps Fails _ _ (λ _. Keeps) (λ _. Keeps) update_status-Steady (or_fail-Steady f)

    set_deleted-In :
        (name namespace : Bytes) (es : List DeletionProgressEntry)
        → is_free plugin before name namespace ≡ true
        → In e es
        → IsKept (set_deleted now name namespace es)
    unfolding set_deleted
    set_deleted-In name namespace [] h k = elim k [ ]
    set_deleted-In name namespace (x ∷ xs) h k =
        elim (Bool-cases (x.server_name == name && x.namespace == namespace)) [
          | inl t ↦ rw t (first t k)
          | inr t ↦ rw t (later (set_deleted-In name namespace xs h) k)
        ]
      where
        first :
            (x.server_name == name && x.namespace == namespace) ≡ true
            → In e (x ∷ xs)
            → IsKept (record x { jar_deleted = true; deleted_at = some now } ∷ xs)
        first t (inl same) = inl (
            inr (
              inr (
                rw
                  (
                    sym same,
                    eq→≡ x.server_name name (ground arith),
                    eq→≡ x.namespace namespace (ground arith),
                  )
                  h)))
        first t (inr i) = inr (inr i)

        later :
            (In e xs → IsKept (set_deleted now name namespace xs))
            → In e (x ∷ xs)
            → IsKept (x ∷ set_deleted now name namespace xs)
        later ih (inl same) = inr (inl same)
        later ih (inr i) = elim (ih i) [ inl s ↦ inl s | inr j ↦ inr (inr j) ]

    pub IsKept-map :
        (es fs : List DeletionProgressEntry) → (In e es → IsKept fs) → IsKept es → IsKept fs
    IsKept-map es fs f (inl s) = inl s
    IsKept-map es fs f (inr i) = f i

    pub mark_jar-Steady :
        (name namespace : Bytes)
        → is_free plugin before name namespace ≡ true
        → Steady (mark_jar_as_deleted selecting answer now plugin name namespace)
    unfolding mark_jar_as_deleted
    mark_jar-Steady name namespace free w (f, s, k) =
        stored-Steady _ _ (f, s, IsKept-map _ _ (set_deleted-In name namespace w.progress free) k)

    asked_for-Same :
        (x : DeletionProgressEntry) (w : World)
        → let after = asked_for selecting answer now plugin x w in
          (after.finalizer ≡ w.finalizer)
          × (after.servers ≡ w.servers)
          × (after.progress ≡ w.progress)
    unfolding asked_for
    asked_for-Same x w = go x.jar_deleted
      where
        go :
            (b : Bool)
            → let after = (if b then w else counted selecting answer now plugin w) in
              (after.finalizer ≡ w.finalizer)
              × (after.servers ≡ w.servers)
              × (after.progress ≡ w.progress)
        go true = (refl, refl, refl)
        go false = (refl, refl, refl)

    pub still_there-Same :
        (es : List DeletionProgressEntry) (w : World)
        → let after = (still_there selecting answer now plugin es w).1 in
          (after.finalizer ≡ w.finalizer)
          × (after.servers ≡ w.servers)
          × (after.progress ≡ w.progress)
    unfolding still_there
    still_there-Same [] w = (refl, refl, refl)
    still_there-Same (x ∷ xs) w =
        let (f, s, p) = still_there-Same xs (asked_for selecting answer now plugin x w) in
        let (g, t, q) = asked_for-Same x w in (f ∙ g, s ∙ t, p ∙ q)

    dropped-is_free :
        (a : Answer) (o : Option PaperMcServer)
        → is_absent selecting answer now plugin (got selecting answer now plugin a o) ≡ true
        → without_jar plugin o ≡ true
    unfolding got
    dropped-is_free succeeded none h = refl
    dropped-is_free not_found none h = refl
    dropped-is_free succeeded (some s) h = cc
    dropped-is_free not_found (some s) h = cc
    dropped-is_free failed o h = cc

    -- The cleanup drops an entry only if its server is not there.
    pub still_there-In :
        (es : List DeletionProgressEntry) (w : World)
        → Serves w.servers
        → In e es
        → IsKept (still_there selecting answer now plugin es w).0
    unfolding still_there is_dropped
    still_there-In [] w s i = elim i [ ]
    still_there-In (x ∷ xs) w s i = go i (
        still_there-In xs (asked_for selecting answer now plugin x w)
          (λ n m. ap (λ ss. is_free plugin ss n m) (asked_for-Same x w).1 ∙ s n m))
      where
        rest : List DeletionProgressEntry
        rest =
            (still_there selecting answer now plugin xs
              (asked_for selecting answer now plugin x w)).0

        settled : x ≡ e → is_dropped selecting answer now plugin x w ≡ true → IsSettled before e
        settled same d = inr (
            inr (
              rw (sym same) (
                sym (s x.server_name x.namespace)
                ∙ dropped-is_free (answer w.calls) (lookup x.server_name x.namespace w.servers)
                    (ground arith))))

        go :
            In e (x ∷ xs)
            → (In e xs → IsKept rest)
            → IsKept (if is_dropped selecting answer now plugin x w then rest else x ∷ rest)
        go (inl same) ih = elim (Bool-cases (is_dropped selecting answer now plugin x w)) [
          | inl d ↦ inl (settled same d)
          | inr d ↦ rw d (inr (inl same))
        ]
        go (inr j) ih = elim (Bool-cases (is_dropped selecting answer now plugin x w)) [
          | inl d ↦ rw d (ih j)
          | inr d ↦ rw d (
              IsKept-map xs (x ∷ rest) (λ k. elim (ih k) [ inl t ↦ inl t | inr l ↦ inr (inr l) ])
                (inr j))
        ]
