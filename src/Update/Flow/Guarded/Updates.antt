-- ===== src/Update/Flow/Guarded/Updates.antt =====
-- The shutdown and the restart, and the two updates whole.
use minecraft_operator.Effects.{
  timed_out, shutdown_failed, backup_failed, delete_pod, get_secret, cancelled, check_context,
  get_pod, step_failed, update_image, call_failed, get_stateful_set, wait, wrapped, Failure, Log,
  Script, Outside, ◌>>=◌,
}
use minecraft_operator.Prelude.{
  is_empty, ◌∷◌, ◌≡◌, List, Result, ℕ, Bool, zero, suc, true, ok, err, [],
}
use minecraft_operator.Update.Flow.{
  warnings, backup_before_update, new_image, wants_backup, execute_graceful_shutdown,
  wait_for_pod_ready, create_rcon_client, delete_server_pod, poll, update_stateful_set_image,
  perform_combined_update, perform_plugin_only_update,
}
use minecraft_operator.Rcon.{send_command, RconClient, graceful_shutdown, send_warnings}
use minecraft_operator.Update.Flow.Downloads.{pod_name}
use minecraft_operator.Update.Flow.Guarded.{
  close_at_end-Keeps, connect_client-Keeps, Guarded, send_command-Keeps, Saved, Keeps,
}
use minecraft_operator.Clock.{Time}
use minecraft_operator.Prelude.Bytes.{Bytes}
use minecraft_operator.Effects.Triples.{
  seq-Triple, deferring-Triple, after-Triple, Post, wrapped-Triple,
}
use minecraft_operator.Api.{PaperMcServer}
use minecraft_operator.Update.Flow.Guarded.Steps.{backup_before_update-Saves}
use minecraft_operator.Update.Flow.Guarded.Plugins.{
  apply_plugin_updates-Free, delete_marked_plugins-Free, reading-Free, any_call, attempted-Free,
  either-Free, save, wrapped-Free, Free, seq-Free,
}

module _ (o : Outside) where
  send_command-Free : (c : RconClient) (command : Bytes) → Free o (send_command o c command)
  send_command-Free c command = send_command-Keeps o (Saved o) (save o) c command

  send_warnings-Free : (c : RconClient) (ws : List Bytes) → Free o (send_warnings o c ws)
  unfolding send_warnings
  send_warnings-Free c [] = (λ log p. p)
  send_warnings-Free c (w ∷ ws) =
      seq-Free o _ _
        (seq-Free o _ _ (any_call o check_context cancelled) (λ _.
          seq-Free o _ _ (send_command-Free c _)
            (λ _. either-Free o (is_empty ws) _ _ (λ log p. p) (any_call o wait cancelled))))
        (λ _. send_warnings-Free c ws)

  graceful_shutdown-Free : (c : RconClient) (ws : List Bytes) → Free o (graceful_shutdown o c ws)
  unfolding graceful_shutdown
  graceful_shutdown-Free c ws =
      either-Free o c.connected _ _
        (seq-Free o _ _ (send_warnings-Free c ws) (λ _.
          seq-Free o _ _ (send_command-Free c _)
            (λ _. seq-Free o _ _ (any_call o wait cancelled) (λ _. send_command-Free c _))))
        (λ log p. p)

  shut_down-Free :
      (server : PaperMcServer)
      → Free o (create_rcon_client o server >>= λ c. execute_graceful_shutdown o c)
  unfolding create_rcon_client execute_graceful_shutdown
  shut_down-Free server =
      seq-Free o _ _
        (seq-Free o _ _ (any_call o get_pod call_failed) (λ _.
          seq-Free o _ _ (reading-Free o _) (λ _. seq-Free o _ _ (reading-Free o _) (λ host.
            seq-Free o _ _ (any_call o get_secret call_failed)
              (λ _. seq-Free o _ _ (reading-Free o _) (λ password. reading-Free o _))))))
        (λ c. seq-Free o _ _ (connect_client-Keeps o (Saved o) (save o) c) (λ connected.
          deferring-Triple (Saved o) _ _ (Saved o) (Saved o) (Saved o) (Saved o)
            (wrapped-Free o shutdown_failed _ (graceful_shutdown-Free connected warnings))
            (close_at_end-Keeps o (Saved o) (save o) connected)
            (close_at_end-Keeps o (Saved o) (save o) connected)))

  update_stateful_set_image-Free : (image : Bytes) → Free o (update_stateful_set_image o image)
  unfolding update_stateful_set_image
  update_stateful_set_image-Free image =
      seq-Free o _ _ (any_call o get_stateful_set call_failed)
        (λ _. seq-Free o _ _ (reading-Free o _) (λ _. any_call o (update_image image) call_failed))

  poll-Free : (rounds : ℕ) → Free o (poll rounds o)
  unfolding poll
  poll-Free zero = (λ log p. p)
  poll-Free (suc rounds) = seq-Free o _ _ (any_call o wait timed_out) (λ _.
      seq-Free o _ _ (attempted-Free o _ (any_call o get_pod call_failed)) (λ found.
        seq-Free o _ _ (reading-Free o _)
          (λ ready. either-Free o ready _ _ (λ log p. p) (poll-Free rounds))))

  restart-Free :
      (server : PaperMcServer)
      → Free o (
          wrapped step_failed (delete_server_pod o server) >>= λ _.
          wrapped step_failed (wait_for_pod_ready o))
  unfolding delete_server_pod wait_for_pod_ready
  restart-Free server =
      seq-Free o _ _
        (wrapped-Free o step_failed _ (
          seq-Free o _ _ (any_call o get_pod call_failed)
            (λ _. any_call o (delete_pod (pod_name server)) call_failed)))
        (λ _. wrapped-Free o step_failed _ (poll-Free 120))

  -- A backup that is asked for, and steps behind it.
  Guarded-by_backup :
      {X : Type 0} (rcon : RconClient) (now done : Time) (server : PaperMcServer) (rest : Script X)
      → wants_backup server.spec.backup ≡ true
      → Free o rest
      → Keeps o
          (Guarded o)
          (wrapped backup_failed (backup_before_update o rcon now done server) >>= λ _. rest)
  Guarded-by_backup rcon now done server rest wanted h =
      seq-Triple (Guarded o) _ _ (λ _. Saved o) (λ _. Guarded o) (Guarded o)
        (wrapped-Triple (Guarded o) backup_failed _ (λ _. Saved o) (Guarded o)
          (backup_before_update-Saves o rcon now done server wanted))
        (λ _ log p. weakened (rest log) (h log p))
    where
      weakened :
          {X : Type 0} (r : Result Failure X × Log)
          → Post (λ _. Saved o) (Saved o) r
          → Post (λ _. Guarded o) (Guarded o) r
      weakened (ok x, after) q = q.1
      weakened (err e, after) q = q.1

-- With a backup reconciler, if the spec asks for a backup before updates, an update of Paper and the
-- plugins runs no command in the pod, sets no image, deletes no pod and records no backup as successful
-- before the API server has taken a snapshot, whatever fails on the way.
pub perform_combined_update-Guarded :
    (o : Outside) (rcon : RconClient) (now done : Time) (valid : Bytes → Bool)
    (server : PaperMcServer) (log : Log)
    → wants_backup server.spec.backup ≡ true
    → Guarded o log
    → Guarded o (perform_combined_update o rcon now done valid server log).1
unfolding perform_combined_update
perform_combined_update-Guarded o rcon now done valid server log wanted g =
    after-Triple (Guarded o) _ (Guarded o)
      (Guarded-by_backup o rcon now done server _ wanted (
        seq-Free o _ _ (wrapped-Free o step_failed _ (delete_marked_plugins-Free o now server))
          (λ _.
            seq-Free o _ _ (wrapped-Free o step_failed _ (apply_plugin_updates-Free o valid server))
              (λ _.
                seq-Free o _ _
                  (either-Free o server.spec.rcon_enabled _ _
                    (wrapped-Free o step_failed _ (shut_down-Free o server)) (λ log p. p))
                  (λ _.
                    seq-Free o _ _
                      (wrapped-Free o step_failed _
                        (update_stateful_set_image-Free o (new_image server)))
                      (λ _. restart-Free o server))))))
      log g

-- With a backup reconciler, if the spec asks for a backup before updates, an update of the plugins alone
-- runs no command in the pod, deletes no pod and records no backup as successful before the API server
-- has taken a snapshot, whatever fails on the way.
pub perform_plugin_only_update-Guarded :
    (o : Outside) (rcon : RconClient) (now done : Time) (valid : Bytes → Bool)
    (server : PaperMcServer) (log : Log)
    → wants_backup server.spec.backup ≡ true
    → Guarded o log
    → Guarded o (perform_plugin_only_update o rcon now done valid server log).1
unfolding perform_plugin_only_update
perform_plugin_only_update-Guarded o rcon now done valid server log wanted g =
    after-Triple (Guarded o) _ (Guarded o)
      (Guarded-by_backup o rcon now done server _ wanted (
        seq-Free o _ _ (wrapped-Free o step_failed _ (delete_marked_plugins-Free o now server))
          (λ _.
            seq-Free o _ _ (wrapped-Free o step_failed _ (apply_plugin_updates-Free o valid server))
              (λ _.
                seq-Free o _ _
                  (either-Free o server.spec.rcon_enabled _ _
                    (attempted-Free o _ (shut_down-Free o server)) (λ log p. p))
                  (λ _. restart-Free o server)))))
      log g
