-- ===== src/Deletion/Guarding.antt =====
-- The steps of reconcileDelete, one by one, and the whole.
use mathlib.Core.Path.{subst}
use minecraft_operator.Deletion.{
  deletion_steps, Outcome, finished, reconcile_delete, mark_plugin_for_deletion_on_servers,
  DeletionError, init_with, listed, init_failed, World, Deleting, Answer, succeeded, not_found,
  failed, ◌>>=◌, lookup, still_there, counted, cleanup_deleted_servers, cleanup_failed, got,
  stored_server, mark_server, mark_found, get_server, mark_entry, mark_all,
  init_deletion_progress_if_needed, force_complete, force_complete_stale_deletions,
  all_jars_deleted, conclude, remove_finalizer, updated_plugin, is_stale, marked, entry_for,
  has_no_jar, is_updated,
}
use minecraft_operator.Deletion.Stores.{
  is_free, without_jar, is_free-store, is_server-≡, lookup-key,
}
use minecraft_operator.Deletion.Settled.{
  Triple, update_status-Steady, entries_of, searched, Post, seq-Triple, IsKept, Serves, Keeps,
  IsSettled, tracked, Steady, stored-Steady, IsKept-map, mark_jar-Steady, still_there-Same,
  still_there-In,
}
use minecraft_operator.Selection.{Selecting, SelectorError, find_matching_servers}
use minecraft_operator.Selection.Symmetry.{In}
use minecraft_operator.Clock.{Time}
use minecraft_operator.Api.{DeletionProgressEntry, PaperMcServer, Plugin}
use minecraft_operator.Prelude.{
  ℕ, Bool, true, false, List, [], ◌∷◌, Option, none, some, length, eqb, if◌then◌else◌, Result, err,
  is_empty, ok, ◌≡◌, refl, sym, ap, ◌∙◌, false≢true, not, ◌&&◌, all, map, arith, inl, inr,
  Bool-cases,
}

module _ (selecting : Selecting) (answer : ℕ → Answer) (now : Time) (plugin : Plugin)
    (before : List PaperMcServer) (e : DeletionProgressEntry) where
  -- What every step keeps up to the last one.
  abbrev Keeping : World → Type 0
  Keeping = Keeps selecting answer now plugin before e

  abbrev IsSteady : {X : Type 0} → Deleting X → Type 0
  IsSteady m = Steady selecting answer now plugin before e m

  cleanup-IsSteady : IsSteady (cleanup_deleted_servers selecting answer now plugin)
  unfolding cleanup_deleted_servers
  cleanup-IsSteady w (f, s, k) =
      let (g, t, q) = still_there-Same selecting answer now plugin before e w.progress w in
      let serves : Serves selecting answer now plugin before e
          (still_there selecting answer now plugin w.progress w).1.servers =
        λ n m. ap (λ ss. is_free plugin ss n m) t ∙ s n m in
      elim (Bool-cases (
        eqb (length (still_there selecting answer now plugin w.progress w).0)
          (length w.progress))) [
            | inl b ↦
                rw b (g ∙ f, serves, subst (IsKept selecting answer now plugin before e) (sym q) k)
            | inr b ↦ rw b (
                stored-Steady selecting answer now plugin before e cleanup_failed _ (
                  g ∙ f,
                  serves,
                  IsKept-map selecting answer now plugin before e _ _
                      (still_there-In selecting answer now plugin before e w.progress w s) k,
                ))
          ]

  get-Steady :
      (x : DeletionProgressEntry) (w : World)
      → Keeping w
      → Post
          (λ o u. (o ≡ lookup x.server_name x.namespace u.servers) × Keeping u)
          (λ u. u.finalizer ≡ true)
          (get_server selecting answer now plugin x w)
  unfolding get_server got
  get-Steady x w k = go (answer w.calls)
    where
      go :
          (a : Answer)
          → Post
              (λ o u. (o ≡ lookup x.server_name x.namespace u.servers) × Keeping u)
              (λ u. u.finalizer ≡ true)
              (
                got selecting answer now plugin a (lookup x.server_name x.namespace w.servers),
                counted selecting answer now plugin w,
              )
      go succeeded = (refl, k)
      go not_found = (refl, k)
      go failed = k.0

  free_there :
      (x : DeletionProgressEntry) (w : World)
      → Keeping w
      → without_jar plugin (lookup x.server_name x.namespace w.servers) ≡ true
      → is_free plugin before x.server_name x.namespace ≡ true
  free_there x w (f, s, k) h = sym (s x.server_name x.namespace) ∙ h

  stored_server-Steady :
      (server : PaperMcServer) (a : Answer) (w : World)
      → lookup server.name server.namespace w.servers ≡ some server
      → Keeping w
      → Post
          (λ _. Keeping)
          (λ u. u.finalizer ≡ true)
          (stored_server selecting answer now plugin (marked plugin server) a w)
  unfolding stored_server
  stored_server-Steady server succeeded w h (f, s, k) =
      (f, (λ n m. is_free-store plugin n m server w.servers h ∙ s n m), k)
  stored_server-Steady server not_found w h (f, s, k) = f
  stored_server-Steady server failed w h (f, s, k) = f

  mark_found-Steady :
      (x : DeletionProgressEntry) (o : Option PaperMcServer) (w : World)
      → (o ≡ lookup x.server_name x.namespace w.servers) × Keeping w
      → Post (λ _. Keeping) (λ u. u.finalizer ≡ true) (mark_found selecting answer now plugin x o w)
  unfolding mark_found mark_server
  mark_found-Steady x none w (h, k) =
      mark_jar-Steady selecting answer now plugin before e x.server_name x.namespace
        (free_there x w k (ap (without_jar plugin) (sym h))) w k
  mark_found-Steady x (some server) w (h, k) =
      elim (Bool-cases (has_no_jar (entry_for plugin server.status.plugins))) [
        | inl b ↦ rw b (
            mark_jar-Steady selecting answer now plugin before e x.server_name x.namespace
              (free_there x w k (ap (without_jar plugin) (sym h) ∙ b)) w k)
        | inr b ↦ rw b (behind (is_updated (entry_for plugin server.status.plugins)))
      ]
    where
      at_key : lookup server.name server.namespace w.servers ≡ some server
      at_key =
          let (n, m) =
            is_server-≡ x.server_name x.namespace server
              (lookup-key x.server_name x.namespace w.servers server (sym h)) in
          ap (λ a. lookup a server.namespace w.servers) n
          ∙ ap (λ b. lookup x.server_name b w.servers) m
          ∙ sym h

      behind :
          (b : Bool)
          → Post
              (λ _. Keeping)
              (λ u. u.finalizer ≡ true)
              (if b
                then stored_server selecting answer now plugin
                    (marked plugin server)
                    (answer w.calls)
                    (counted selecting answer now plugin w)
                else (ok tt, w))
      behind true =
          stored_server-Steady server (answer w.calls) (counted selecting answer now plugin w)
            at_key k
      behind false = k

  mark_entry-IsSteady :
      (x : DeletionProgressEntry) → IsSteady (mark_entry selecting answer now plugin x)
  unfolding mark_entry
  mark_entry-IsSteady x w k = go x.jar_deleted
    where
      go :
          (b : Bool)
          → Post
              (λ _. Keeping)
              (λ u. u.finalizer ≡ true)
              (if b
                then (ok tt, w)
                else (get_server selecting answer now plugin x
                      >>= mark_found selecting answer now plugin x)
                    w)
      go true = k
      go false =
          seq-Triple Keeping (λ u. u.finalizer ≡ true) _ _
            (λ o u. (o ≡ lookup x.server_name x.namespace u.servers) × Keeping u) (λ _. Keeping)
            (get-Steady x) (mark_found-Steady x) w k

  mark_all-IsSteady :
      (xs : List DeletionProgressEntry) → IsSteady (mark_all selecting answer now plugin xs)
  unfolding mark_all
  mark_all-IsSteady [] w k = k
  mark_all-IsSteady (x ∷ xs) w k =
      seq-Triple Keeping (λ u. u.finalizer ≡ true) _ _ (λ _. Keeping) (λ _. Keeping)
        (mark_entry-IsSteady x) (λ _. mark_all-IsSteady xs) w k

  init-IsSteady :
      (w : World)
      → w.finalizer ≡ true
      → w.servers ≡ before
      → In e (tracked selecting answer now plugin w)
      → Post
          (λ _. Keeping)
          (λ u. u.finalizer ≡ true)
          (init_deletion_progress_if_needed selecting answer now plugin w)
  unfolding init_deletion_progress_if_needed init_with listed find_matching_servers
  init-IsSteady w f s i = go (is_empty w.progress) i
    where
      serves : Serves selecting answer now plugin before e w.servers
      serves n m = ap (λ ss. is_free plugin ss n m) s

      with_servers :
          (r : Result SelectorError (List PaperMcServer))
          → In e (entries_of selecting answer now plugin r)
          → Post
              (λ _. Keeping)
              (λ u. u.finalizer ≡ true)
              (init_with selecting answer now plugin r (counted selecting answer now plugin w))
      with_servers (err x) j = f
      with_servers (ok servers) j =
          stored-Steady selecting answer now plugin before e init_failed _ (f, serves, inr j)

      asked :
          (a : Answer)
          → In e (
              entries_of selecting answer now plugin
                (searched selecting answer now plugin w.servers))
          → Post
              (λ _. Keeping)
              (λ u. u.finalizer ≡ true)
              (init_with selecting answer now plugin
                (find_matching_servers selecting plugin.spec.instance_selector
                  (listed selecting answer now plugin a w.servers))
                (counted selecting answer now plugin w))
      asked succeeded j = with_servers _ j
      asked not_found j = f
      asked failed j = f

      go :
          (b : Bool)
          → In e (
              if b
              then entries_of selecting answer now plugin
                  (searched selecting answer now plugin w.servers)
              else w.progress)
          → Post
              (λ _. Keeping)
              (λ u. u.finalizer ≡ true)
              (if b
                then init_with selecting answer now plugin
                    (find_matching_servers selecting plugin.spec.instance_selector
                      (listed selecting answer now plugin (answer w.calls) w.servers))
                    (counted selecting answer now plugin w)
                else (ok tt, w))
      go true j = asked (answer w.calls) j
      go false j = (f, serves, inr j)

  force_complete-In :
      (xs : List DeletionProgressEntry)
      → In e xs
      → IsKept selecting answer now plugin before e
          (map (force_complete selecting answer now plugin) xs)
  unfolding force_complete
  force_complete-In [] i = elim i [ ]
  force_complete-In (x ∷ xs) (inl same) =
      elim (Bool-cases (not x.jar_deleted && is_stale now x.deletion_requested_at)) [
        | inl b ↦ inl (inr (inl (rw (sym same) (ground arith))))
        | inr b ↦ rw b (inr (inl same))
      ]
  force_complete-In (x ∷ xs) (inr i) = elim (force_complete-In xs i) [
    | inl s ↦ inl s
    | inr j ↦ inr (inr j)
  ]

  force-IsSteady : IsSteady (force_complete_stale_deletions selecting answer now plugin)
  unfolding force_complete_stale_deletions
  force-IsSteady w (f, s, k) =
      (f, s, IsKept-map selecting answer now plugin before e _ _ (force_complete-In w.progress) k)

  all_deleted :
      (xs : List DeletionProgressEntry)
      → all (λ x. x.jar_deleted) xs ≡ true
      → IsKept selecting answer now plugin before e xs
      → IsSettled selecting answer now plugin before e
  all_deleted xs h (inl s) = s
  all_deleted (x ∷ xs) h (inr (inl same)) = inl (rw (sym same) (ground arith))
  all_deleted (x ∷ xs) h (inr (inr i)) = all_deleted xs (ground arith) (inr i)
  all_deleted [] h (inr i) = elim i [ ]

  -- What the last steps promise.
  abbrev Releases : World → Type 0
  Releases u = u.finalizer ≡ false → IsSettled selecting answer now plugin before e

  holding : (u : World) → u.finalizer ≡ true → Releases u
  holding u h g = absurd (false≢true (sym g ∙ h))

  conclude-Releases :
      (a : Answer) (w : World)
      → Keeping w
      → Post (λ _. Releases) (λ u. u.finalizer ≡ true) (conclude selecting answer now plugin a w)
  unfolding updated_plugin conclude remove_finalizer all_jars_deleted
  conclude-Releases failed w (f, s, k) = f
  conclude-Releases not_found w (f, s, k) = holding w f
  conclude-Releases succeeded w (f, s, k) =
      elim (Bool-cases (all (λ x. x.jar_deleted) w.progress)) [
        | inl b ↦ rw b (go (answer w.calls) (all_deleted w.progress b k))
        | inr b ↦ rw b (holding w f)
      ]
    where
      go :
          (a : Answer)
          → IsSettled selecting answer now plugin before e
          → Post
              (λ _. Releases)
              (λ u. u.finalizer ≡ true)
              (updated_plugin selecting answer now plugin a (counted selecting answer now plugin w))
      go succeeded settled = λ _. settled
      go not_found settled = f
      go failed settled = f

  chained :
      {X Y : Type 0} (P : World → Type 0) (m : Deleting X) (k : X → Deleting Y)
      (Q : Y → World → Type 0)
      → Triple P m (λ _. Keeping) (λ u. u.finalizer ≡ true)
      → ((x : X) → Triple Keeping (k x) Q (λ u. u.finalizer ≡ true))
      → Triple P (m >>= k) Q (λ u. u.finalizer ≡ true)
  chained P m k Q h next = seq-Triple P (λ u. u.finalizer ≡ true) m k (λ _. Keeping) Q h next

  marking-IsSteady : IsSteady (mark_plugin_for_deletion_on_servers selecting answer now plugin)
  unfolding mark_plugin_for_deletion_on_servers
  marking-IsSteady w k = mark_all-IsSteady w.progress w k

  deletion_steps-Triple :
      Triple
        (λ u.
          (u.servers ≡ before)
          × (u.finalizer ≡ true)
          × In e (tracked selecting answer now plugin u))
        (deletion_steps selecting answer now plugin)
        (λ _. Releases)
        (λ u. u.finalizer ≡ true)
  unfolding deletion_steps
  deletion_steps-Triple =
      chained _ _ _ (λ _. Releases) (λ u q. init-IsSteady u q.1 q.0 q.2)
        (λ _.
          chained Keeping _ _ (λ _. Releases) cleanup-IsSteady
            (λ _.
              chained Keeping _ _ (λ _. Releases) marking-IsSteady
                (λ _.
                  chained Keeping _ _ (λ _. Releases) force-IsSteady
                    (λ _.
                      chained Keeping _ _ (λ _. Releases)
                        (update_status-Steady selecting answer now plugin before e)
                        conclude-Releases))))

  reconcile_delete-Releases :
      (w : World)
      → w.servers ≡ before
      → w.finalizer ≡ true
      → In e (tracked selecting answer now plugin w)
      → Releases (reconcile_delete selecting answer now plugin w).1
  unfolding reconcile_delete
  reconcile_delete-Releases w s f i = go w.finalizer
    where
      unwrapped :
          (r : Result DeletionError Outcome × World)
          → Post (λ _. Releases) (λ u. u.finalizer ≡ true) r
          → Releases r.1
      unwrapped (ok x, u) h = h
      unwrapped (err x, u) h = holding u h

      go :
          (b : Bool)
          → Releases
              (if b then deletion_steps selecting answer now plugin w else (ok finished, w)).1
      go true = unwrapped _ (deletion_steps-Triple w (s, f, i))
      go false = holding w f

module _ (selecting : Selecting) (answer : ℕ → Answer) (now : Time) (plugin : Plugin) where
  -- If a reconciliation of the deletion takes the finalizer away, then every entry that it had to wait for
  -- is deleted already, or was requested more than ten minutes ago, or is for a server that is not there or
  -- that has no JAR of the plugin. The entries are those stored, or with none those of the matching servers.
  pub reconcile_delete-IsSettled :
      (w : World) (e : DeletionProgressEntry)
      → w.finalizer ≡ true
      → (reconcile_delete selecting answer now plugin w).1.finalizer ≡ false
      → In e (tracked selecting answer now plugin w)
      → IsSettled selecting answer now plugin w.servers e
  reconcile_delete-IsSettled w e f g i =
      reconcile_delete-Releases selecting answer now plugin w.servers e w refl f i g
