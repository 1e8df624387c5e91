-- ===== src/Update/Outcome/Recorded.antt =====
-- What a finished update leaves behind.
use minecraft_operator.Prelude.{
  List-cases, arith, ◌∷◌, map, ◌&&◌, is_empty, any, not, All, ◌≡◌, List, none, some, refl, true,
  false, [],
}
use minecraft_operator.Api.{PaperMcServerStatus, ServerPluginStatus}
use minecraft_operator.Update.Outcome.{installed, has_pending_plugin_updates, update_server_status}
use minecraft_operator.Clock.{Time}
use minecraft_operator.Prelude.Bytes.{eq_iff, ◌==◌}

installed_settled :
    (p : ServerPluginStatus)
    → p.desired_version ≡ p.resolved_version
    → (not (is_empty (installed p).desired_version)
        && not ((installed p).desired_version == (installed p).current_version))
      ≡ false
installed_settled p h =
    ground (arith, eq_iff p.desired_version p.resolved_version, List-cases p.desired_version)

plugins_settled :
    (ps : List ServerPluginStatus)
    → All (λ p. p.desired_version ≡ p.resolved_version) ps
    → any
        (λ p. not (is_empty p.desired_version) && not (p.desired_version == p.current_version))
        (map installed ps)
      ≡ false
plugins_settled [] h = refl
plugins_settled (p ∷ ps) (e, h) = rw (installed_settled p e, plugins_settled ps h)

-- After a successful update whose plugins want the versions resolved for them there is nothing left
-- to do: no available update, no pending plugin, and the current version and build are the desired
-- ones. After a failed one all of this is as it was, and only the history says that it failed.
pub update_server_status_settles :
    (now : Time) (status : PaperMcServerStatus)
    → All (λ p. p.desired_version ≡ p.resolved_version) status.plugins
    → ((update_server_status now true status).available_update ≡ none)
      × (has_pending_plugin_updates (update_server_status now true status) ≡ false)
      × ((update_server_status now true status).current_version ≡ status.desired_version)
      × ((update_server_status now true status).current_build ≡ status.desired_build)
      × (update_server_status now false status ≡ record status {
        last_update = some (record {
          applied_at = now;
          previous_version = status.current_version;
          successful = false;
        });
      })
unfolding update_server_status has_pending_plugin_updates
update_server_status_settles now status h =
    (refl, plugins_settled status.plugins h, refl, refl, refl)
