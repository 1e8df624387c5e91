-- ===== src/Backup/Saving.antt =====
-- performBackup and the server's auto-save: off while a snapshot is taken, switched on again behind it.
use minecraft_operator.Effects.{
  close_failed, deferring, pvc_not_found, close, dial_failed, get_pvc, no_client, pre_hook_failed,
  connect, create_client, wrapped, on_error, wait, cancelled, attempted, check_context, Script,
  attempt, Failure, execute, Action, Log, Outside, ◌>>=◌,
}
use minecraft_operator.Prelude.{
  ◌⊎◌, none, refl, inl, inr, if◌then◌else◌, ◌≡◌, Bool, true, false, ◌∷◌,
}
use minecraft_operator.Backup.{
  perform_backup, with_rcon, failed_backup, or_record, post_snapshot_hook, persist_backup_status,
  pre_snapshot_hook,
}
use minecraft_operator.Rcon.{close_client, close_at_end, connect_client, send_command, RconClient}
use minecraft_operator.Api.{PaperMcServer}
use minecraft_operator.Effects.Triples.{
  failing-Triple, deferring-Triple, after-Triple, wrapped-Triple, attempted-Triple, on_error-Triple,
  seq-Triple, Triple,
}
use minecraft_operator.Prelude.Bytes.{bytes, Bytes, ◌==◌}
use minecraft_operator.Clock.{Time}
use minecraft_operator.Backup.AutoSave.{
  or_record-Triple, take_snapshot-IsCalm, neutral, persist-IsCalm, send_now-Triple, exactly, off,
  on, restored, At, IsCalm, IsNeutral, Quiet, auto_save, lost_save_on,
}

module _ (o : Outside) where
  -- A step on a server whose auto-save is on, with less kept of its failures.
  eased : (log : Log) → At o (exactly on) log → At o restored log
  eased log (now_on, quiet) = (inl now_on, quiet)

  -- A call after whose failure only the snapshots are known to be right.
  relaxed :
      (a : Action) (e : Failure)
      → IsNeutral o a
      → Triple (At o (exactly on)) (attempt o a e) (λ _. At o (exactly on)) (Quiet o)
  relaxed a e h =
      failing-Triple (At o (exactly on)) (attempt o a e) (λ _. At o (exactly on))
        (At o (exactly on)) (Quiet o) (neutral o a e (exactly on) h) (λ log q. q.1)

  send_command-Triple :
      (c : RconClient) (command : Bytes) (Q : Log → Type 0)
      → c.connected ≡ true
      → ((log : Log)
          → At o (exactly on) log
          → o.answers log (execute command) ≡ true
          → Q (execute command ∷ log))
      → ((log : Log) → Quiet o log → Quiet o (execute command ∷ log))
      → Triple (At o (exactly on)) (send_command o c command) (λ _. Q) (Quiet o)
  unfolding send_command auto_save lost_save_on Quiet
  send_command-Triple c command Q up won lost =
      seq-Triple (At o (exactly on)) _ _ (λ _. At o (exactly on)) (λ _. Q) (Quiet o)
        (relaxed check_context cancelled (λ _ log h. h))
        (λ _.
          send_now-Triple o c command (At o (exactly on)) Q (Quiet o) up won
            (λ log h _. lost log h.1))

  switched_off :
      (log : Log)
      → o.answers log (execute (bytes "save-off")) ≡ true
      → auto_save o (execute (bytes "save-off") ∷ log) ≡ off
  unfolding auto_save ◌==◌
  switched_off log h = rw h

  pre_snapshot_hook-Triple :
      (c : RconClient)
      → c.connected ≡ true
      → Triple (At o (exactly on)) (pre_snapshot_hook o c) (λ _. At o (exactly off)) (Quiet o)
  unfolding pre_snapshot_hook auto_save lost_save_on Quiet ◌==◌
  pre_snapshot_hook-Triple c up =
      seq-Triple (At o (exactly on)) _ _ (λ _. At o (exactly on)) (λ _. At o (exactly off))
        (Quiet o) (relaxed check_context cancelled (λ _ log h. h))
        (λ _.
          seq-Triple (At o (exactly on)) _ _ (λ _. At o (exactly on)) (λ _. At o (exactly off))
            (Quiet o)
            (send_command-Triple c (bytes "save-all") (At o (exactly on)) up (λ log h _. h)
              (λ log h. h))
            (λ _.
              seq-Triple (At o (exactly on)) _ _ (λ _. At o (exactly on)) (λ _. At o (exactly off))
                (Quiet o) (relaxed wait cancelled (λ _ log h. h))
                (λ _.
                  send_command-Triple c (bytes "save-off") (At o (exactly off)) up
                    (λ log h won. (switched_off log won, h.1)) (λ log h. h))))

  switched_on :
      (log : Log)
      → o.answers log (execute (bytes "save-on")) ≡ true
      → auto_save o (execute (bytes "save-on") ∷ log) ≡ on
  unfolding auto_save ◌==◌
  switched_on log h = rw h

  command_lost :
      (log : Log)
      → o.answers log (execute (bytes "save-on")) ≡ false
      → lost_save_on o (execute (bytes "save-on") ∷ log) ≡ true
  unfolding lost_save_on ◌==◌
  command_lost log h = rw h

  -- After the hook behind the snapshot auto-save is on whatever it was before, or the command was lost.
  post_snapshot_hook-Triple :
      (c : RconClient)
      → c.connected ≡ true
      → Triple (Quiet o) (post_snapshot_hook o c) (λ _. At o restored) (At o restored)
  unfolding post_snapshot_hook Quiet
  post_snapshot_hook-Triple c up =
      send_now-Triple o c (bytes "save-on") (Quiet o) (At o restored) (At o restored) up
        (λ log h won. (inl (switched_on log won), h))
        (λ log h lost. (inr (command_lost log lost), h))

  IsUp : RconClient → Log → Type 0
  IsUp c log = (c.connected ≡ true) × At o (exactly on) log

  connect_client-Triple :
      (c : RconClient) → Triple (At o (exactly on)) (connect_client o c) IsUp (At o (exactly on))
  unfolding connect_client IsUp auto_save lost_save_on Quiet
  connect_client-Triple c =
      seq-Triple (At o (exactly on)) _ _ (λ _. At o (exactly on)) IsUp (At o (exactly on))
        (neutral o check_context cancelled (exactly on) (λ _ log h. h))
        (λ _.
          seq-Triple (At o (exactly on)) _ _ (λ _. At o (exactly on)) IsUp (At o (exactly on))
            (neutral o connect dial_failed (exactly on) (λ _ log h. h)) (λ _ log h. (refl, h)))

  close_at_end-IsCalm : (c : RconClient) → c.connected ≡ true → IsCalm o restored (close_at_end o c)
  unfolding close_at_end close_client auto_save lost_save_on Quiet
  close_at_end-IsCalm c up = rw up (neutral o close close_failed restored (λ _ log h. h))

  -- From a server whose auto-save is on to one on which it is on again, or the last command was lost.
  abbrev Restores : {X : Type 0} → Script X → Type 0
  Restores m = Triple (At o (exactly on)) m (λ _. At o restored) (At o restored)

  -- The hooks around a body that is calm while auto-save is off.
  hooks-Restores :
      (c : RconClient) (now : Time) (trigger : Bytes) (body : Script (Unit {0}))
      → c.connected ≡ true
      → IsCalm o (exactly off) body
      → Restores (
          on_error (wrapped pre_hook_failed (pre_snapshot_hook o c)) (
            attempted (post_snapshot_hook o c) >>= λ _.
            persist_backup_status o (failed_backup now trigger) none)
          >>= λ _. deferring body (post_snapshot_hook o c))
  hooks-Restores c now trigger body up h =
      let again = post_snapshot_hook-Triple c up in
      seq-Triple (At o (exactly on)) _ _ (λ _. At o (exactly off)) (λ _. At o restored)
        (At o restored)
        (on_error-Triple (At o (exactly on)) _ _ (λ _. At o (exactly off)) (Quiet o) (At o restored)
          (wrapped-Triple (At o (exactly on)) pre_hook_failed _ (λ _. At o (exactly off)) (Quiet o)
            (pre_snapshot_hook-Triple c up))
          (seq-Triple (Quiet o) _ _ (λ _. At o restored) (λ _. At o restored) (At o restored)
            (attempted-Triple (Quiet o) _ (At o restored) (At o restored) again)
            (λ _. persist-IsCalm o _ none restored)))
        (λ _.
          deferring-Triple (At o (exactly off)) body _ (At o (exactly off)) (At o (exactly off))
            (At o restored) (At o restored) h (λ log q. again log q.1) (λ log q. again log q.1))

  -- A first step that leaves auto-save alone, and is recorded if it fails.
  recorded_first :
      {X Y : Type 0} (now : Time) (trigger : Bytes) (m : Script X) (k : X → Script Y)
      (Q : X → Log → Type 0)
      → Triple (At o (exactly on)) m Q (At o (exactly on))
      → ((x : X) → Triple (Q x) (k x) (λ _. At o restored) (At o restored))
      → Restores (or_record o now trigger m >>= k)
  recorded_first now trigger m k Q h next =
      seq-Triple (At o (exactly on)) _ k Q (λ _. At o restored) (At o restored)
        (failing-Triple (At o (exactly on)) _ Q (At o (exactly on)) (At o restored)
          (or_record-Triple o now trigger m (At o (exactly on)) Q (exactly on) h) eased)
        next

  with_rcon-Restores :
      (rcon : RconClient) (now : Time) (trigger : Bytes) (body : Script (Unit {0}))
      → IsCalm o (exactly off) body
      → Restores (with_rcon o rcon now trigger body)
  unfolding with_rcon IsUp auto_save lost_save_on Quiet
  with_rcon-Restores rcon now trigger body h =
      recorded_first now trigger _ _ (λ _. At o (exactly on))
        (neutral o create_client no_client (exactly on) (λ _ log h. h))
        (λ _. recorded_first now trigger _ _ IsUp (connect_client-Triple rcon) (λ c log (up, q).
          deferring-Triple (At o (exactly on)) _ _ (At o restored) (At o restored) (At o restored)
            (At o restored) (hooks-Restores c now trigger body up h) (close_at_end-IsCalm c up)
            (close_at_end-IsCalm c up) log q))

  chosen-Restores :
      (b : Bool) (m n : Script (Unit {0})) → b ≡ true → Restores m → Restores (if b then m else n)
  chosen-Restores b m n e h = rw e h

-- With RCON enabled, and auto-save known to be on before: behind a backup, however it ends, auto-save is
-- on, or the last command sent was a "save-on" that failed. A command that fails may have reached the
-- server or not. Each snapshot asked for, before and by this backup, was asked for behind a "save-off"
-- that succeeded and before any "save-on".
pub perform_backup_keeps_saving :
    (o : Outside) (rcon : RconClient) (now done : Time) (server : PaperMcServer) (trigger : Bytes)
    (log : Log)
    → server.spec.rcon_enabled ≡ true
    → auto_save o log ≡ on
    → Quiet o log
    → let after = (perform_backup o rcon now done server trigger log).1 in
      ((auto_save o after ≡ on) ⊎ (lost_save_on o after ≡ true)) × Quiet o after
unfolding perform_backup auto_save lost_save_on Quiet
perform_backup_keeps_saving o rcon now done server trigger log enabled saving quiet =
    after-Triple (At o (exactly on)) _ (At o restored)
      (recorded_first o now trigger _ _ (λ _. At o (exactly on))
        (neutral o get_pvc pvc_not_found (exactly on) (λ _ log h. h))
        (λ _. chosen-Restores o server.spec.rcon_enabled _ _ enabled (
          with_rcon-Restores o rcon now trigger _
            (take_snapshot-IsCalm o now done server trigger))))
      log (saving, quiet)
