-- ===== src/Examples/Deleting.antt =====
-- A plugin that is deleted while one of its two servers still has its JAR.
use minecraft_operator.Examples.{plugin, server, status}
use minecraft_operator.Api.{DeletionProgressEntry, Plugin, PaperMcServer, ServerPluginStatus}
use minecraft_operator.Clock.{Time, minutes, sub_time}
use minecraft_operator.Selection.{Selecting}
use minecraft_operator.Deletion.{World, Answer, succeeded, finished, reconcile_delete}
use minecraft_operator.Deletion.Guarding.{reconcile_delete-IsSettled}
use minecraft_operator.Deletion.Ending.{reconcile_delete_ends}
use minecraft_operator.Deletion.Settled.{IsSettled}
use minecraft_operator.Prelude.{ℕ, true, false, [], ◌∷◌, none, some, ok, ◌≡◌, refl, inl}
use minecraft_operator.Prelude.Bytes.{bytes}
use minecraft_operator.Prelude.Int.{◌-ℤ◌}

abbrev selecting : Selecting
selecting selector = some (λ labels. true)

abbrev up : ℕ → Answer
up n = succeeded

abbrev now : Time
now = minutes 30

abbrev leaving : Plugin
leaving = plugin (bytes "latest") [] []

abbrev installed : ServerPluginStatus
installed = record {
  plugin_ref = record { name = bytes "map"; namespace = bytes "games" };
  resolved_version = bytes "1";
  current_version = bytes "1";
  desired_version = bytes "1";
  compatible = true;
  source = bytes "hangar";
  pending_deletion = true;
  installed_jar_name = bytes "map.jar";
}

abbrev lobby : PaperMcServer
lobby = record (server (bytes "auto")) { status = record status { plugins = installed ∷ [] } }

-- Asked for 29 minutes ago.
abbrev waiting : DeletionProgressEntry
waiting = record {
  server_name = bytes "lobby";
  namespace = bytes "games";
  jar_deleted = false;
  deleted_at = none;
  deletion_requested_at = some (minutes 1);
}

abbrev gone : DeletionProgressEntry
gone = record waiting { server_name = bytes "arena" }

abbrev world : World
world = record {
  progress = waiting ∷ gone ∷ [];
  saved = waiting ∷ gone ∷ [];
  finalizer = true;
  servers = lobby ∷ [];
  calls = 0;
}

reconcile_delete_ends_example :
    ((reconcile_delete selecting up now leaving world).0 ≡ ok finished)
    × ((reconcile_delete selecting up now leaving world).1.finalizer ≡ false)
unfolding sub_time ◌-ℤ◌
reconcile_delete_ends_example =
    reconcile_delete_ends selecting up now leaving (λ n. refl) world refl refl (refl, (refl, tt))

finalizer_taken : (reconcile_delete selecting up now leaving world).1.finalizer ≡ false
unfolding sub_time ◌-ℤ◌
finalizer_taken =
    (reconcile_delete_ends selecting up now leaving (λ n. refl) world refl refl
      (refl, (refl, tt))).1

reconcile_delete-IsSettled_example : IsSettled selecting up now leaving (lobby ∷ []) waiting
reconcile_delete-IsSettled_example =
    reconcile_delete-IsSettled selecting up now leaving world waiting refl finalizer_taken
      (inl refl)
