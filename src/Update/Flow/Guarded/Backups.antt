-- ===== src/Update/Flow/Guarded/Backups.antt =====
-- What performBackup records, and what it has done when it succeeds.
use minecraft_operator.Prelude.{Result, ◌⊎◌, ◌≡◌, refl, true, inl, inr, ok, err, []}
use minecraft_operator.Update.Flow.Guarded.{Saved, has_snapshot, Guarded}
use minecraft_operator.Effects.{Log, Failure, Outside}
use minecraft_operator.Rcon.{RconClient}
use minecraft_operator.Clock.{Time}
use minecraft_operator.Api.{PaperMcServer}
use minecraft_operator.Prelude.Bytes.{Bytes}
use minecraft_operator.Backup.{perform_backup}
use minecraft_operator.Effects.Triples.{Post}
use minecraft_operator.Update.Flow.Guarded.Steps.{perform_backup-Saves}

-- A backup, started on an empty log of calls, whatever the outside answers: if it succeeds, the API
-- server has taken a snapshot; and each status that it writes with a successful backup is written behind
-- a snapshot that the API server has taken.
pub perform_backup_records_snapshots :
    (o : Outside) (rcon : RconClient) (now done : Time) (server : PaperMcServer) (trigger : Bytes)
    → let (result, after) = perform_backup o rcon now done server trigger [] in
      (((result ≡ ok tt) × (has_snapshot o after ≡ true)) ⊎ ((e : Failure) × (result ≡ err e)))
      × Guarded o after
unfolding Guarded
perform_backup_records_snapshots o rcon now done server trigger =
    go (perform_backup o rcon now done server trigger [])
      (perform_backup-Saves o rcon now done server trigger [] tt)
  where
    go :
        (r : Result Failure (Unit {0}) × Log)
        → Post (λ _. Saved o) (Guarded o) r
        → (((r.0 ≡ ok tt) × (has_snapshot o r.1 ≡ true)) ⊎ ((e : Failure) × (r.0 ≡ err e)))
          × Guarded o r.1
    go (ok done_so, after) q = (inl (refl, q.0), q.1)
    go (err e, after) q = (inr (e, refl), q)
