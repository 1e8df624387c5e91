-- ===== src/Update/Flow/Guarded/Steps.antt =====
-- The backup as the guard of an update, and the steps behind it.
use minecraft_operator.Effects.{
  write_backup_status, reading, create_snapshot, SnapshotRequest, and_then, pre_hook_failed,
  no_client, pvc_not_found, snapshot_failed, Failure, create_client, get_pvc, Log, attempt, Action,
  Script, Outside, ◌>>=◌,
}
use minecraft_operator.Prelude.{
  ◌∷◌, Result, Bool-cases, ◌≡◌, if◌then◌else◌, Bool, none, refl, true, inl, inr, ok, err, arith,
}
use minecraft_operator.Backup.{
  persist_backup_status, failed_backup, create_new_snapshot, or_record, perform_backup,
  take_snapshot, with_rcon,
}
use minecraft_operator.Update.Flow.{wants_backup, is_snapshot_crd_missing, backup_before_update}
use minecraft_operator.Update.Flow.Guarded.{
  has_snapshot, close_at_end-Keeps, post_snapshot_hook-Keeps, list_all-Keeps,
  pre_snapshot_hook-Keeps, delete_old_snapshots-Keeps, attempted-Keeps, chain, connect_client-Keeps,
  allow-Guarded, allow-Saved, persist-Keeps, harmless_call, Guarded, Saved, Keeps, harmless,
}
use minecraft_operator.Effects.Triples.{
  deferring-Triple, Post, wrapped-Triple, on_error-Triple, seq-Triple, Triple,
}
use minecraft_operator.Clock.{Time}
use minecraft_operator.Prelude.Bytes.{Bytes}
use minecraft_operator.Api.{PaperMcServer}
use minecraft_operator.Rcon.{RconClient}

module _ (o : Outside) where
  guard : (a : Action) → harmless o a ≡ true → (log : Log) → Guarded o log → Guarded o (a ∷ log)
  guard a h = allow-Guarded o a h

  save : (a : Action) → harmless o a ≡ true → (log : Log) → Saved o log → Saved o (a ∷ log)
  save a h = allow-Saved o a

  -- A script that makes the snapshot, if it succeeds.
  abbrev pub Saves : {X : Type 0} → Script X → Type 0
  Saves m = Triple (Guarded o) m (λ _. Saved o) (Guarded o)

  before-Saves :
      {X Y : Type 0} (m : Script X) (k : X → Script Y)
      → Keeps o (Guarded o) m
      → ((x : X) → Saves (k x))
      → Saves (m >>= k)
  before-Saves m k h next =
      seq-Triple (Guarded o) m k (λ _. Guarded o) (λ _. Saved o) (Guarded o) h next

  -- A failed backup may be recorded at any time.
  failure-Keeps :
      (now : Time) (trigger : Bytes)
      → Keeps o (Guarded o) (persist_backup_status o (failed_backup now trigger) none)
  unfolding harmless
  failure-Keeps now trigger =
      persist-Keeps o (Guarded o) guard (failed_backup now trigger) none
        (guard (write_backup_status (failed_backup now trigger) none) refl)

  or_record-Saves :
      {X : Type 0} (now : Time) (trigger : Bytes) (m : Script X)
      → Saves m
      → Saves (or_record o now trigger m)
  unfolding or_record
  or_record-Saves now trigger m h =
      on_error-Triple (Guarded o) m _ (λ _. Saved o) (Guarded o) (Guarded o) h
        (failure-Keeps now trigger)

  or_record-Keeps :
      {X : Type 0} (now : Time) (trigger : Bytes) (m : Script X)
      → Keeps o (Guarded o) m
      → Keeps o (Guarded o) (or_record o now trigger m)
  unfolding or_record
  or_record-Keeps now trigger m h =
      on_error-Triple (Guarded o) m _ (λ _. Guarded o) (Guarded o) (Guarded o) h
        (failure-Keeps now trigger)

  create_new_snapshot-Saves : (request : SnapshotRequest) → Saves (create_new_snapshot o request)
  unfolding reading create_new_snapshot attempt ◌>>=◌ and_then has_snapshot Guarded
  create_new_snapshot-Saves request log g =
      elim (Bool-cases (o.answers log (create_snapshot request))) [
        | inl e ↦ rw e (ground arith, g)
        | inr e ↦ rw e g
      ]

  -- A script that fails where only `Guarded` is known, though more is.
  saved→guarded :
      {X : Type 0} (m : Script X)
      → Keeps o (Saved o) m
      → Triple (Saved o) m (λ _. Saved o) (Guarded o)
  saved→guarded {X = X} m h log p = go (m log) (h log p)
    where
      go :
          (r : Result Failure X × Log)
          → Post (λ _. Saved o) (Saved o) r
          → Post (λ _. Saved o) (Guarded o) r
      go (ok x, after) q = q
      go (err e, after) q = q.1

  take_snapshot-Saves :
      (now done : Time) (server : PaperMcServer) (trigger : Bytes)
      → Saves (take_snapshot o now done server trigger)
  unfolding take_snapshot
  take_snapshot-Saves now done server trigger =
      seq-Triple (Guarded o) _ _ (λ _. Saved o) (λ _. Saved o) (Guarded o)
        (or_record-Saves now trigger _ (
          wrapped-Triple (Guarded o) snapshot_failed _ (λ _. Saved o) (Guarded o)
            (create_new_snapshot-Saves _)))
        (λ name. saved→guarded _ (
          chain o (Saved o) _ _
            (attempted-Keeps o (Saved o) save _ (delete_old_snapshots-Keeps o (Saved o) save _))
            (λ _.
              chain o (Saved o) _ _
                (attempted-Keeps o (Saved o) save _ (list_all-Keeps o (Saved o) save))
                (λ remaining. persist-Keeps o (Saved o) save _ _ (allow-Saved o _)))))

  with_rcon-Saves :
      (rcon : RconClient) (now : Time) (trigger : Bytes) (body : Script (Unit {0}))
      → Saves body
      → Saves (with_rcon o rcon now trigger body)
  unfolding with_rcon harmless
  with_rcon-Saves rcon now trigger body h =
      before-Saves _ _
        (or_record-Keeps now trigger _
          (harmless_call o (Guarded o) guard create_client no_client refl))
        (λ _.
          before-Saves _ _
            (or_record-Keeps now trigger _ (connect_client-Keeps o (Guarded o) guard rcon))
            (λ c.
              deferring-Triple (Guarded o) _ _ (Saved o) (Guarded o) (Saved o) (Guarded o)
                (before-Saves _ _
                  (on_error-Triple (Guarded o) _ _ (λ _. Guarded o) (Guarded o) (Guarded o)
                    (wrapped-Triple (Guarded o) pre_hook_failed _ (λ _. Guarded o) (Guarded o)
                      (pre_snapshot_hook-Keeps o (Guarded o) guard c))
                    (chain o (Guarded o) _ _
                      (attempted-Keeps o (Guarded o) guard _
                        (post_snapshot_hook-Keeps o (Guarded o) guard c))
                      (λ _. failure-Keeps now trigger)))
                  (λ _.
                    deferring-Triple (Guarded o) body _ (Saved o) (Guarded o) (Saved o) (Guarded o)
                      h (post_snapshot_hook-Keeps o (Saved o) save c)
                      (post_snapshot_hook-Keeps o (Guarded o) guard c)))
                (close_at_end-Keeps o (Saved o) save c) (close_at_end-Keeps o (Guarded o) guard c)))

  chosen-Saves :
      {X : Type 0} (b : Bool) (m n : Script X) → Saves m → Saves n → Saves (if b then m else n)
  chosen-Saves b m n h k = elim (Bool-cases b) [ inl e ↦ rw e h | inr e ↦ rw e k ]

  pub perform_backup-Saves :
      (rcon : RconClient) (now done : Time) (server : PaperMcServer) (trigger : Bytes)
      → Saves (perform_backup o rcon now done server trigger)
  unfolding perform_backup harmless
  perform_backup-Saves rcon now done server trigger =
      before-Saves _ _
        (or_record-Keeps now trigger _
          (harmless_call o (Guarded o) guard get_pvc pvc_not_found refl))
        (λ _.
          chosen-Saves server.spec.rcon_enabled _ _
            (with_rcon-Saves rcon now trigger _ (take_snapshot-Saves now done server trigger))
            (take_snapshot-Saves now done server trigger))

  when-Saves :
      (b : Bool) (m n : Script (Unit {0})) → b ≡ true → Saves m → Saves (if b then m else n)
  when-Saves b m n e h = rw e h

  pub backup_before_update-Saves :
      (rcon : RconClient) (now done : Time) (server : PaperMcServer)
      → wants_backup server.spec.backup ≡ true
      → Saves (backup_before_update o rcon now done server)
  unfolding reading backup_before_update is_snapshot_crd_missing
  backup_before_update-Saves rcon now done server h =
      when-Saves (wants_backup server.spec.backup) _ _ h (
        before-Saves _ _
          (chain o (Guarded o) _ _
            (attempted-Keeps o (Guarded o) guard _ (list_all-Keeps o (Guarded o) guard))
            (λ _ log q. q))
          (λ missing.
            chosen-Saves missing _ _ (λ log q. q) (perform_backup-Saves rcon now done server _)))
