-- ===== src/Webhook.antt =====
-- api/v1beta1/papermcserver_webhook.go: what is admitted of a server's update strategy and backup schedule.
-- The parser of cron expressions is a parameter.
pub mod Admitted
use minecraft_operator.Prelude.{
  ℕ, Bool, true, false, not, ◌&&◌, ◌||◌, List, [], ◌∷◌, ◌++◌, Option, none, some, if◌then◌else◌,
  is_empty,
}
use minecraft_operator.Prelude.Bytes.{Bytes, bytes, ◌==◌}
use minecraft_operator.Effects.{is_some}
use minecraft_operator.Api.{BackupSpec, PaperMcServer}
use minecraft_operator.Solver.{
  update_strategy_latest, update_strategy_auto, update_strategy_pin, update_strategy_build_pin,
}

-- An entry of a `field.ErrorList`, with the path below the spec.
pub data FieldError : Type 0 where
  required invalid not_supported : Bytes → FieldError

abbrev require : Bool → Bytes → List FieldError
require true field = []
require false field = required field ∷ []

unfoldable pub validate_server_strategy : PaperMcServer → List FieldError
validate_server_strategy server =
    let strategy = server.spec.update_strategy in
    let version = require (not (is_empty server.spec.version)) (bytes "version") in
    if strategy == update_strategy_latest || strategy == update_strategy_auto
    then []
    else if strategy == update_strategy_pin
    then version
    else if strategy == update_strategy_build_pin
    then version ++ require (is_some server.spec.build) (bytes "build")
    else not_supported (bytes "updateStrategy") ∷ []

backup_errors : (Bytes → Bool) → Option BackupSpec → List FieldError
backup_errors parses none = []
backup_errors parses (some backup) =
    if not backup.enabled
    then []
    else if is_empty backup.schedule || parses backup.schedule
    then []
    else invalid (bytes "backup.schedule") ∷ []

unfoldable pub validate_backup : (Bytes → Bool) → PaperMcServer → List FieldError
unfolding backup_errors
validate_backup parses server = backup_errors parses server.spec.backup
