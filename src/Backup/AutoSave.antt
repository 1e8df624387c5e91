-- ===== src/Backup/AutoSave.antt =====
-- The server's auto-save as the commands of a backup leave it, and the scripts that do not touch it.
use minecraft_operator.Effects.{
  reading, snapshot_failed, delete_snapshot, write_backup_status, Snapshot, attempted, call_failed,
  list_snapshots, Script, get_server, command_failed, attempt, Failure, create_snapshot, execute,
  Action, Log, Outside, ◌>>=◌,
}
use minecraft_operator.Prelude.{
  not, ◌&&◌, ◌⊎◌, length, leb, Bool-cases, none, inl, inr, zero, suc, Option, if◌then◌else◌, ◌≡◌,
  Bool, true, false, ℕ, List, [], ◌∷◌,
}
use minecraft_operator.Backup.{
  failed_backup, create_new_snapshot, delete_first, delete_old_snapshots, list_all, or_record,
  take_snapshot, persist_backup_status,
}
use minecraft_operator.Rcon.{RconClient, send_now}
use minecraft_operator.Api.{PaperMcServer, BackupRecord}
use minecraft_operator.Effects.Triples.{
  attempt_answered-Triple, wrapped-Triple, attempted-Triple, on_error-Triple, seq-Triple,
  attempt-Triple, Triple,
}
use minecraft_operator.Prelude.Bytes.{bytes, Bytes, ◌==◌}
use minecraft_operator.Clock.{Time}

-- What is known of the server's auto-save: a command that fails may have reached the server or not.
pub data AutoSave : Type 0 where
  on off unsure : AutoSave

-- What is known behind a failed command to set it: nothing, unless it was so already.
abbrev unless_on : AutoSave → AutoSave
unless_on on = on
unless_on off = unsure
unless_on unsure = unsure

-- What is known at a point: the state, or that it is on unless the last command was a lost "save-on".
pub data Phase : Type 0 where
  exactly : AutoSave → Phase
  restored : Phase

abbrev pub Holds : Phase → AutoSave → Bool → Type 0
Holds (exactly state) now lost = now ≡ state
Holds restored now lost = (now ≡ on) ⊎ (lost ≡ true)

module _ (o : Outside) where
  -- Auto-save after the commands sent, of which the newest stands first, with their answers.
  unfoldable pub auto_save : Log → AutoSave
  auto_save [] = on
  auto_save (execute command ∷ log) =
      let before = auto_save log in
      if command == bytes "save-off"
      then (if o.answers log (execute command) then off else unsure)
      else if command == bytes "save-on"
      then (if o.answers log (execute command) then on else unless_on before)
      else before
  auto_save (a ∷ log) = auto_save log

  -- The newest command is "save-on", and it failed.
  unfoldable pub lost_save_on : Log → Bool
  lost_save_on [] = false
  lost_save_on (execute command ∷ log) =
      command == bytes "save-on" && not (o.answers log (execute command))
  lost_save_on (a ∷ log) = lost_save_on log

  -- Each snapshot was asked for while auto-save was off.
  unfoldable pub Quiet : Log → Type 0
  unfolding auto_save
  Quiet [] = Unit {0}
  Quiet (create_snapshot request ∷ log) = (auto_save log ≡ off) × Quiet log
  Quiet (a ∷ log) = Quiet log

  abbrev pub At : Phase → Log → Type 0
  At phase log = Holds phase (auto_save log) (lost_save_on log) × Quiet log

  -- The calls that neither send a command nor take a snapshot.
  abbrev pub IsNeutral : Action → Type 0
  IsNeutral a = (phase : Phase) (log : Log) → At phase log → At phase (a ∷ log)

  pub neutral :
      (a : Action) (e : Failure) (phase : Phase)
      → IsNeutral a
      → Triple (At phase) (attempt o a e) (λ _. At phase) (At phase)
  neutral a e phase h = attempt-Triple (At phase) o a e (At phase) (At phase) (h phase) (h phase)

  -- A command on a client that is connected, with what the outside answers.
  pub send_now-Triple :
      (c : RconClient) (command : Bytes) (P Q R : Log → Type 0)
      → c.connected ≡ true
      → ((log : Log) → P log → o.answers log (execute command) ≡ true → Q (execute command ∷ log))
      → ((log : Log) → P log → o.answers log (execute command) ≡ false → R (execute command ∷ log))
      → Triple P (send_now o c command) (λ _. Q) R
  unfolding send_now
  send_now-Triple c command P Q R up won lost =
      rw up (attempt_answered-Triple P o (execute command) (command_failed command) Q R won lost)

  -- Scripts that leave auto-save as it is, and take snapshots only while it is off.
  abbrev pub IsCalm : {X : Type 0} → Phase → Script X → Type 0
  IsCalm phase m = Triple (At phase) m (λ _. At phase) (At phase)

  pub seq-IsCalm :
      {X Y : Type 0} (phase : Phase) (m : Script X) (k : X → Script Y)
      → IsCalm phase m
      → ((x : X) → IsCalm phase (k x))
      → IsCalm phase (m >>= k)
  seq-IsCalm phase m k h next =
      seq-Triple (At phase) m k (λ _. At phase) (λ _. At phase) (At phase) h next

  pub attempted-IsCalm :
      {X : Type 0} (phase : Phase) (m : Script X) → IsCalm phase m → IsCalm phase (attempted m)
  attempted-IsCalm phase m h = attempted-Triple (At phase) m (At phase) (At phase) h

  pub persist-IsCalm :
      (written : BackupRecord) (count : Option ℕ) (phase : Phase)
      → IsCalm phase (persist_backup_status o written count)
  unfolding persist_backup_status auto_save lost_save_on Quiet
  persist-IsCalm written count phase =
      seq-IsCalm phase _ _
        (attempted-IsCalm phase _ (
          seq-IsCalm phase _ _ (neutral get_server call_failed phase (λ _ log h. h))
            (λ _. neutral (write_backup_status written count) call_failed phase (λ _ log h. h))))
        (λ _ log h. h)

  pub or_record-Triple :
      {X : Type 0} (now : Time) (trigger : Bytes) (m : Script X) (P : Log → Type 0)
      (Q : X → Log → Type 0) (phase : Phase)
      → Triple P m Q (At phase)
      → Triple P (or_record o now trigger m) Q (At phase)
  unfolding or_record
  or_record-Triple now trigger m P Q phase h =
      on_error-Triple P m _ Q (At phase) (At phase) h
        (persist-IsCalm (failed_backup now trigger) none phase)

  list_all-IsCalm : (phase : Phase) → IsCalm phase (list_all o)
  unfolding reading list_all auto_save lost_save_on Quiet
  list_all-IsCalm phase =
      seq-IsCalm phase _ _ (neutral list_snapshots call_failed phase (λ _ log h. h)) (λ _ log h. h)

  delete_first-IsCalm :
      (n : ℕ) (snapshots : List Snapshot) (phase : Phase)
      → IsCalm phase (delete_first o n snapshots)
  unfolding delete_first auto_save lost_save_on Quiet
  delete_first-IsCalm zero snapshots phase = λ log h. h
  delete_first-IsCalm (suc n) [] phase = λ log h. h
  delete_first-IsCalm (suc n) (snap ∷ snapshots) phase =
      seq-IsCalm phase _ _ (neutral (delete_snapshot snap.name) call_failed phase (λ _ log h. h))
        (λ _. delete_first-IsCalm n snapshots phase)

  delete_old_snapshots-IsCalm :
      (max_count : ℕ) (phase : Phase) → IsCalm phase (delete_old_snapshots o max_count)
  unfolding delete_old_snapshots
  delete_old_snapshots-IsCalm max_count phase =
      seq-IsCalm phase _ _ (list_all-IsCalm phase) (λ snapshots.
        elim (Bool-cases (leb (length snapshots) max_count)) [
          | inl e ↦ rw e (λ log h. h)
          | inr e ↦ rw e (seq-IsCalm phase _ _ (delete_first-IsCalm _ _ phase) (λ _ log h. h))
        ])

  -- With auto-save off a snapshot may be taken.
  pub take_snapshot-IsCalm :
      (now done : Time) (server : PaperMcServer) (trigger : Bytes)
      → IsCalm (exactly off) (take_snapshot o now done server trigger)
  unfolding reading take_snapshot create_new_snapshot auto_save lost_save_on Quiet
  take_snapshot-IsCalm now done server trigger =
      seq-IsCalm (exactly off) _ _
        (or_record-Triple now trigger _ (At (exactly off)) (λ _. At (exactly off)) (exactly off)
          (wrapped-Triple (At (exactly off)) snapshot_failed _ (λ _. At (exactly off))
            (At (exactly off))
            (seq-IsCalm (exactly off) _ _
              (attempt-Triple (At (exactly off)) o _ call_failed (At (exactly off))
                (At (exactly off)) (λ log h. (h.0, h)) (λ log h. (h.0, h)))
              (λ _ log h. h))))
        (λ name.
          seq-IsCalm (exactly off) _ _
            (attempted-IsCalm (exactly off) _ (delete_old_snapshots-IsCalm _ (exactly off)))
            (λ _.
              seq-IsCalm (exactly off) _ _
                (attempted-IsCalm (exactly off) _ (list_all-IsCalm (exactly off)))
                (λ remaining. persist-IsCalm _ _ (exactly off))))
