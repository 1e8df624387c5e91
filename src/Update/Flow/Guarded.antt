-- ===== src/Update/Flow/Guarded.antt =====
-- The backup in front of an update: nothing in the pod or the cluster is touched without a snapshot.
pub mod Steps
pub mod Plugins
pub mod Updates
pub mod Backups
use minecraft_operator.Effects.{
  reading, delete_snapshot, Snapshot, command_failed, dial_failed, write_backup_status,
  close_failed, connect, execute, get_server, call_failed, check_context, close, cancelled,
  list_snapshots, attempted, wait, attempt, delete_pod, Failure, update_image, Action, Script,
  create_snapshot, exec_in_pod, Log, Outside, ◌>>=◌,
}
use minecraft_operator.Prelude.{
  ◌⊎◌, not, Option, length, Bool-cases, leb, if◌then◌else◌, refl, inl, inr, zero, suc, arith, ◌||◌,
  ◌≡◌, Bool, true, false, ℕ, List, [], ◌∷◌,
}
use minecraft_operator.Effects.Triples.{attempted-Triple, attempt-Triple, Triple, seq-Triple}
use minecraft_operator.Rcon.{
  RconClient, close_client, close_at_end, connect_client, send_command, send_now,
}
use minecraft_operator.Backup.{
  delete_first, delete_old_snapshots, list_all, persist_backup_status, post_snapshot_hook,
  pre_snapshot_hook,
}
use minecraft_operator.Api.{BackupRecord}
use minecraft_operator.Prelude.Bytes.{Bytes, bytes}

module _ (o : Outside) where
  -- A snapshot has been asked for, and the API server has taken it.
  pub has_snapshot : Log → Bool
  has_snapshot [] = false
  has_snapshot (create_snapshot request ∷ log) =
      let before = has_snapshot log in o.answers log (create_snapshot request) || before
  has_snapshot (a ∷ log) = has_snapshot log

  -- Each command in the pod, each new image, each deleted pod and each backup recorded as successful has
  -- a snapshot before it.
  unfoldable pub Guarded : Log → Type 0
  unfolding has_snapshot
  Guarded [] = Unit {0}
  Guarded (exec_in_pod command ∷ log) = (has_snapshot log ≡ true) × Guarded log
  Guarded (update_image image ∷ log) = (has_snapshot log ≡ true) × Guarded log
  Guarded (delete_pod name ∷ log) = (has_snapshot log ≡ true) × Guarded log
  Guarded (write_backup_status written count ∷ log) =
      ((written.successful ≡ false) ⊎ (has_snapshot log ≡ true)) × Guarded log
  Guarded (a ∷ log) = Guarded log

  abbrev pub Saved : Log → Type 0
  Saved log = (has_snapshot log ≡ true) × Guarded log

  -- Scripts of calls that touch nothing, and scripts that may touch all behind a snapshot.
  abbrev pub Keeps : {X : Type 0} → (Log → Type 0) → Script X → Type 0
  Keeps P m = Triple P m (λ _. P) P

  call :
      (P : Log → Type 0) (a : Action) (e : Failure)
      → ((log : Log) → P log → P (a ∷ log))
      → Keeps P (attempt o a e)
  call P a e h = attempt-Triple P o a e P P h h

  chain :
      {X Y : Type 0} (P : Log → Type 0) (m : Script X) (k : X → Script Y)
      → Keeps P m
      → ((x : X) → Keeps P (k x))
      → Keeps P (m >>= k)
  chain P m k h next = seq-Triple P m k (λ _. P) (λ _. P) P h next

  pub harmless : Action → Bool
  harmless (exec_in_pod command) = false
  harmless (update_image image) = false
  harmless (delete_pod name) = false
  harmless (write_backup_status written count) = not written.successful
  harmless a = true

  unrecorded : (written : BackupRecord) → not written.successful ≡ true → written.successful ≡ false
  unrecorded written h = ground arith

  pub allow-Guarded :
      (a : Action) → harmless a ≡ true → (log : Log) → Guarded log → Guarded (a ∷ log)
  unfolding Guarded harmless
  allow-Guarded (exec_in_pod command) h log g = cc
  allow-Guarded (update_image image) h log g = cc
  allow-Guarded (delete_pod name) h log g = cc
  allow-Guarded (write_backup_status written count) h log g = (inl (unrecorded written h), g)
  allow-Guarded a h log g = g

  allow-Saved : (a : Action) → (log : Log) → Saved log → Saved (a ∷ log)
  unfolding Guarded has_snapshot
  allow-Saved (exec_in_pod command) log g = (g.0, g)
  allow-Saved (update_image image) log g = (g.0, g)
  allow-Saved (delete_pod name) log g = (g.0, g)
  allow-Saved (create_snapshot request) log g = (ground arith, g.1)
  allow-Saved (write_backup_status written count) log g = (g.0, (inr g.0, g.1))
  allow-Saved a log g = g

  module _ (P : Log → Type 0)
      (allow : (a : Action) → harmless a ≡ true → (log : Log) → P log → P (a ∷ log)) where
    harmless_call : (a : Action) (e : Failure) → harmless a ≡ true → Keeps P (attempt o a e)
    harmless_call a e h = call P a e (allow a h)

    attempted-Keeps : {X : Type 0} (m : Script X) → Keeps P m → Keeps P (attempted m)
    attempted-Keeps m h = attempted-Triple P m P P h

    persist-Keeps :
        (written : BackupRecord) (count : Option ℕ)
        → ((log : Log) → P log → P (write_backup_status written count ∷ log))
        → Keeps P (persist_backup_status o written count)
    unfolding persist_backup_status harmless
    persist-Keeps written count recorded =
        chain P _ _
          (attempted-Keeps _ (
            chain P _ _ (harmless_call get_server call_failed refl)
              (λ _. call P (write_backup_status written count) call_failed recorded)))
          (λ _ log h. h)

    list_all-Keeps : Keeps P (list_all o)
    unfolding reading list_all harmless
    list_all-Keeps = chain P _ _ (harmless_call list_snapshots call_failed refl) (λ _ log h. h)

    delete_first-Keeps : (n : ℕ) (snapshots : List Snapshot) → Keeps P (delete_first o n snapshots)
    unfolding delete_first harmless
    delete_first-Keeps zero snapshots = λ log h. h
    delete_first-Keeps (suc n) [] = λ log h. h
    delete_first-Keeps (suc n) (snap ∷ snapshots) =
        chain P _ _ (harmless_call (delete_snapshot snap.name) call_failed refl)
          (λ _. delete_first-Keeps n snapshots)

    either-Keeps :
        {X : Type 0} (b : Bool) (m n : Script X)
        → Keeps P m
        → Keeps P n
        → Keeps P (if b then m else n)
    either-Keeps b m n h k = elim (Bool-cases b) [ inl e ↦ rw e h | inr e ↦ rw e k ]

    delete_old_snapshots-Keeps : (max_count : ℕ) → Keeps P (delete_old_snapshots o max_count)
    unfolding delete_old_snapshots
    delete_old_snapshots-Keeps max_count = chain P _ _ list_all-Keeps (λ snapshots.
        either-Keeps (leb (length snapshots) max_count) _ _ (λ log h. h)
          (chain P _ _ (delete_first-Keeps _ _) (λ _ log h. h)))

    send_now-Keeps : (c : RconClient) (command : Bytes) → Keeps P (send_now o c command)
    unfolding send_now harmless
    send_now-Keeps c command =
        either-Keeps c.connected _ _ (harmless_call (execute command) (command_failed command) refl)
          (λ log h. h)

    send_command-Keeps : (c : RconClient) (command : Bytes) → Keeps P (send_command o c command)
    unfolding send_command harmless
    send_command-Keeps c command =
        chain P _ _ (harmless_call check_context cancelled refl) (λ _. send_now-Keeps c command)

    wait-Keeps : Keeps P (attempt o wait cancelled)
    unfolding harmless
    wait-Keeps = harmless_call wait cancelled refl

    pre_snapshot_hook-Keeps : (c : RconClient) → Keeps P (pre_snapshot_hook o c)
    unfolding pre_snapshot_hook harmless
    pre_snapshot_hook-Keeps c = chain P _ _ (harmless_call check_context cancelled refl) (λ _.
        chain P _ _ (send_command-Keeps c _)
          (λ _. chain P _ _ wait-Keeps (λ _. send_command-Keeps c _)))

    post_snapshot_hook-Keeps : (c : RconClient) → Keeps P (post_snapshot_hook o c)
    unfolding post_snapshot_hook
    post_snapshot_hook-Keeps c = send_now-Keeps c (bytes "save-on")

    connect_client-Keeps : (c : RconClient) → Keeps P (connect_client o c)
    unfolding connect_client harmless
    connect_client-Keeps c =
        chain P _ _ (harmless_call check_context cancelled refl)
          (λ _. chain P _ _ (harmless_call connect dial_failed refl) (λ _ log h. h))

    close_at_end-Keeps : (c : RconClient) → Keeps P (close_at_end o c)
    unfolding close_at_end close_client harmless
    close_at_end-Keeps c = elim (Bool-cases c.connected) [
      | inl e ↦ rw e (harmless_call close close_failed refl)
      | inr e ↦ rw e (λ log h. h)
    ]
