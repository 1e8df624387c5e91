-- ===== src/Deletion/Ending.antt =====
-- A deletion that the API server does not hold up ends with the timeout.
use mathlib.Core.Path.{subst}
use minecraft_operator.Deletion.{
  cleanup_failed, progress_failed, World, Deleting, Answer, succeeded, DeletionError, Outcome,
  finished, ◌>>=◌, lookup, set_deleted, is_stale, asked_for, is_dropped, still_there, update_status,
  saved_status, or_fail, counted, cleanup_deleted_servers, got, mark_jar_as_deleted,
  init_deletion_progress_if_needed, stored_server, mark_server, mark_found, get_server, mark_entry,
  mark_all, mark_plugin_for_deletion_on_servers, marked, entry_for, has_no_jar, is_updated,
  force_complete, force_complete_stale_deletions, all_jars_deleted, updated_plugin,
  remove_finalizer, conclude, deletion_steps, reconcile_delete,
}
use minecraft_operator.Deletion.Settled.{Post, Triple, seq-Triple}
use minecraft_operator.Selection.{Selecting}
use minecraft_operator.Clock.{Time}
use minecraft_operator.Api.{DeletionProgressEntry, PaperMcServer, Plugin}
use minecraft_operator.Prelude.{
  ℕ, Bool, true, false, ◌&&◌, ◌||◌, not, List, [], ◌∷◌, Option, none, some, length, eqb, map, All,
  all, is_empty, Result, ok, err, ◌≡◌, refl, sym, ap, ◌∙◌, inl, inr, Bool-cases, arith, false≢true,
  if◌then◌else◌,
}
use minecraft_operator.Prelude.Bytes.{Bytes, ◌==◌}

module _ (selecting : Selecting) (answer : ℕ → Answer) (now : Time) (plugin : Plugin)
    (up : (n : ℕ) → answer n ≡ succeeded) where
  -- Deleted, or requested more than ten minutes ago.
  abbrev pub is_due : DeletionProgressEntry → Bool
  is_due e = e.jar_deleted || is_stale now e.deletion_requested_at

  abbrev pub AllDue : World → Type 0
  AllDue w = All (λ e. is_due e ≡ true) w.progress

  -- A step that does not fail, and leaves no entry behind that is not due.
  abbrev Advances : {X : Type 0} → Deleting X → Type 0
  Advances m = Triple AllDue m (λ _. AllDue) (λ _. ⊥)

  stored-Advances :
      (f : DeletionError)
      → Advances
          (update_status selecting answer now plugin >>= or_fail selecting answer now plugin f)
  unfolding update_status saved_status or_fail ◌>>=◌
  stored-Advances f w h = rw (up w.calls) h

  All-set_deleted :
      (name namespace : Bytes) (es : List DeletionProgressEntry)
      → All (λ e. is_due e ≡ true) es
      → All (λ e. is_due e ≡ true) (set_deleted now name namespace es)
  unfolding set_deleted
  All-set_deleted name namespace [] h = tt
  All-set_deleted name namespace (e ∷ es) h =
      elim (Bool-cases (e.server_name == name && e.namespace == namespace)) [
        | inl b ↦ rw b (refl, h.1)
        | inr b ↦ rw b (h.0, All-set_deleted name namespace es h.1)
      ]

  All-still_there :
      (es : List DeletionProgressEntry) (w : World)
      → All (λ e. is_due e ≡ true) es
      → All (λ e. is_due e ≡ true) (still_there selecting answer now plugin es w).0
  unfolding still_there
  All-still_there [] w h = tt
  All-still_there (e ∷ es) w h =
      go (is_dropped selecting answer now plugin e w) (All-still_there es _ h.1)
    where
      rest : List DeletionProgressEntry
      rest =
          (still_there selecting answer now plugin es (asked_for selecting answer now plugin e w)).0

      go :
          (b : Bool)
          → All (λ e. is_due e ≡ true) rest
          → All (λ e. is_due e ≡ true) (if b then rest else e ∷ rest)
      go true k = k
      go false k = (h.0, k)

  progress-still_there :
      (es : List DeletionProgressEntry) (w : World)
      → (still_there selecting answer now plugin es w).1.progress ≡ w.progress
  unfolding still_there asked_for
  progress-still_there [] w = refl
  progress-still_there (e ∷ es) w = progress-still_there es _ ∙ asked e.jar_deleted
    where
      asked :
          (b : Bool)
          → (if b then w else counted selecting answer now plugin w).progress ≡ w.progress
      asked true = refl
      asked false = refl

  cleanup-Advances : Advances (cleanup_deleted_servers selecting answer now plugin)
  unfolding cleanup_deleted_servers
  cleanup-Advances w h =
      go (eqb (length (still_there selecting answer now plugin w.progress w).0) (length w.progress))
    where
      after : List DeletionProgressEntry × World
      after = still_there selecting answer now plugin w.progress w

      go :
          (b : Bool)
          → Post
              (λ _. AllDue)
              (λ _. ⊥)
              (if b
                then (ok tt, after.1)
                else (update_status selecting answer now plugin
                      >>= or_fail selecting answer now plugin cleanup_failed)
                    (record (after.1) { progress = after.0 }))
      go true =
          subst (λ ps. All (λ e. is_due e ≡ true) ps) (sym (progress-still_there w.progress w)) h
      go false = stored-Advances cleanup_failed _ (All-still_there w.progress w h)

  mark_jar-Advances :
      (name namespace : Bytes)
      → Advances (mark_jar_as_deleted selecting answer now plugin name namespace)
  unfolding mark_jar_as_deleted
  mark_jar-Advances name namespace w h =
      stored-Advances progress_failed _ (All-set_deleted name namespace w.progress h)

  mark_found-Advances :
      (e : DeletionProgressEntry) (o : Option PaperMcServer)
      → Advances (mark_found selecting answer now plugin e o)
  unfolding mark_found mark_server stored_server
  mark_found-Advances e none w h = mark_jar-Advances e.server_name e.namespace w h
  mark_found-Advances e (some server) w h =
      go (has_no_jar (entry_for plugin server.status.plugins))
        (is_updated (entry_for plugin server.status.plugins))
    where
      go :
          (b c : Bool)
          → Post
              (λ _. AllDue)
              (λ _. ⊥)
              (if b
                then mark_jar_as_deleted selecting answer now plugin e.server_name e.namespace w
                else if c
                then stored_server selecting answer now plugin
                    (marked plugin server)
                    (answer w.calls)
                    (counted selecting answer now plugin w)
                else (ok tt, w))
      go true c = mark_jar-Advances e.server_name e.namespace w h
      go false true = rw (up w.calls) h
      go false false = h

  mark_entry-Advances :
      (e : DeletionProgressEntry) → Advances (mark_entry selecting answer now plugin e)
  unfolding mark_entry get_server got ◌>>=◌
  mark_entry-Advances e w h = go e.jar_deleted
    where
      go :
          (b : Bool)
          → Post
              (λ _. AllDue)
              (λ _. ⊥)
              (if b
                then (ok tt, w)
                else (get_server selecting answer now plugin e
                      >>= mark_found selecting answer now plugin e)
                    w)
      go true = h
      go false = rw (up w.calls) (
          mark_found-Advances e (lookup e.server_name e.namespace w.servers)
            (counted selecting answer now plugin w) h)

  mark_all-Advances :
      (es : List DeletionProgressEntry) → Advances (mark_all selecting answer now plugin es)
  unfolding mark_all
  mark_all-Advances [] w h = h
  mark_all-Advances (e ∷ es) w h =
      seq-Triple AllDue (λ _. ⊥) _ _ (λ _. AllDue) (λ _. AllDue) (mark_entry-Advances e)
        (λ _. mark_all-Advances es) w h

  marking-Advances : Advances (mark_plugin_for_deletion_on_servers selecting answer now plugin)
  unfolding mark_plugin_for_deletion_on_servers
  marking-Advances w h = mark_all-Advances w.progress w h

  -- Behind the forced completion every entry is deleted.
  all-force_complete :
      (es : List DeletionProgressEntry)
      → All (λ e. is_due e ≡ true) es
      → all (λ e. e.jar_deleted) (map (force_complete selecting answer now plugin) es) ≡ true
  unfolding force_complete
  all-force_complete [] h = refl
  all-force_complete (e ∷ es) h = rw (all-force_complete es h.1) (one h.0)
    where
      one :
          is_due e ≡ true
          → ((force_complete selecting answer now plugin e).jar_deleted && true) ≡ true
      one d = elim (Bool-cases (not e.jar_deleted && is_stale now e.deletion_requested_at)) [
        | inl b ↦ rw b refl
        | inr b ↦ rw b (ground arith)
      ]

  abbrev Completed : World → Type 0
  Completed w = all_jars_deleted selecting answer now plugin w ≡ true

  forcing :
      Triple AllDue
        (force_complete_stale_deletions selecting answer now plugin)
        (λ _. Completed)
        (λ _. ⊥)
  unfolding force_complete_stale_deletions all_jars_deleted
  forcing w h = all-force_complete w.progress h

  concluding :
      Triple Completed
        (update_status selecting answer now plugin >>= conclude selecting answer now plugin)
        (λ outcome w. (outcome ≡ finished) × (w.finalizer ≡ false))
        (λ _. ⊥)
  unfolding update_status saved_status conclude remove_finalizer updated_plugin all_jars_deleted
      ◌>>=◌
  concluding w h =
      rw (up w.calls, h) (rw (up (counted selecting answer now plugin w).calls) (refl, refl))

  init-Advances :
      Triple
        (λ w. (is_empty w.progress ≡ false) × AllDue w)
        (init_deletion_progress_if_needed selecting answer now plugin)
        (λ _. AllDue)
        (λ _. ⊥)
  unfolding init_deletion_progress_if_needed
  init-Advances w (n, h) = rw n h

  abbrev HasEnded : Outcome → World → Type 0
  HasEnded outcome w = (outcome ≡ finished) × (w.finalizer ≡ false)

  steps-HasEnded :
      Triple
        (λ w. (is_empty w.progress ≡ false) × AllDue w)
        (deletion_steps selecting answer now plugin)
        HasEnded
        (λ _. ⊥)
  unfolding deletion_steps
  steps-HasEnded =
      seq-Triple _ (λ _. ⊥) _ _ (λ _. AllDue) HasEnded init-Advances
        (λ _.
          seq-Triple AllDue (λ _. ⊥) _ _ (λ _. AllDue) HasEnded cleanup-Advances
            (λ _.
              seq-Triple AllDue (λ _. ⊥) _ _ (λ _. AllDue) HasEnded marking-Advances
                (λ _.
                  seq-Triple AllDue (λ _. ⊥) _ _ (λ _. Completed) HasEnded forcing
                    (λ _. concluding))))

  -- While the API server answers every call, a reconciliation of the deletion of a plugin ends without an
  -- error and takes the finalizer away, if it finds entries and each is deleted or was requested more
  -- than ten minutes ago.
  pub reconcile_delete_ends :
      (w : World)
      → w.finalizer ≡ true
      → is_empty w.progress ≡ false
      → AllDue w
      → ((reconcile_delete selecting answer now plugin w).0 ≡ ok finished)
        × ((reconcile_delete selecting answer now plugin w).1.finalizer ≡ false)
  unfolding reconcile_delete
  reconcile_delete_ends w f n h = ended w.finalizer f
    where
      reached :
          (r : Result DeletionError Outcome × World)
          → Post HasEnded (λ _. ⊥) r
          → (r.0 ≡ ok finished) × (r.1.finalizer ≡ false)
      reached (ok x, u) (q, g) = (ap ok q, g)
      reached (err x, u) q = absurd q

      ended :
          (b : Bool)
          → b ≡ true
          → let r =
              (if b then deletion_steps selecting answer now plugin w else (ok finished, w)) in
            (r.0 ≡ ok finished) × (r.1.finalizer ≡ false)
      ended true e = reached _ (steps-HasEnded w (n, h))
      ended false e = absurd (false≢true e)
