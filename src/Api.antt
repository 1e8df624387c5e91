-- ===== src/Api.antt =====
-- api/v1beta1: the custom resources, with the fields that the modelled code reads or writes. A Go
-- pointer that may be nil is an `Option`; an int is a natural number where the source gives none
-- below 0; a map is an association list.
use minecraft_operator.Prelude.{ℕ, Bool, List, Option}
use minecraft_operator.Prelude.Bytes.{Bytes}
use minecraft_operator.Clock.{Time, Duration}

-- metav1.LabelSelector and metav1.Condition, which the resources embed.
pub record LabelRequirement : Type 0 where
  pub key : Bytes
  pub operator : Bytes
  pub values : List Bytes

pub record LabelSelector : Type 0 where
  pub match_labels : List (Bytes × Bytes)
  pub match_expressions : List LabelRequirement

pub data ConditionStatus : Type 0 where
  condition_true condition_false condition_unknown : ConditionStatus

pub record Condition : Type 0 where
  pub kind : Bytes
  pub status : ConditionStatus
  pub reason : Bytes
  pub message : Bytes

pub record CompatibilityOverride : Type 0 where
  pub enabled : Bool
  pub minecraft_versions : List Bytes

pub record PluginSource : Type 0 where
  pub source_type : Bytes
  pub project : Bytes
  pub url : Bytes
  pub checksum : Bytes

pub record PluginSpec : Type 0 where
  pub source : PluginSource
  pub update_strategy : Bytes
  pub version : Bytes
  pub update_delay : Option Duration
  pub instance_selector : LabelSelector
  pub compatibility_override : Option CompatibilityOverride

pub record PluginVersionInfo : Type 0 where
  pub version : Bytes
  pub minecraft_versions : List Bytes
  pub download_url : Bytes
  pub hash : Bytes
  pub cached_at : Time
  pub released_at : Time

pub record DeletionProgressEntry : Type 0 where
  pub server_name : Bytes
  pub namespace : Bytes
  pub jar_deleted : Bool
  pub deleted_at : Option Time
  pub deletion_requested_at : Option Time

pub record PluginStatus : Type 0 where
  pub available_versions : List PluginVersionInfo
  pub repository_status : Bytes
  pub deletion_progress : List DeletionProgressEntry
  pub conditions : List Condition

pub record Plugin : Type 0 where
  pub name : Bytes
  pub namespace : Bytes
  pub spec : PluginSpec
  pub status : PluginStatus

pub record PluginRef : Type 0 where
  pub name : Bytes
  pub namespace : Bytes

pub record ServerPluginStatus : Type 0 where
  pub plugin_ref : PluginRef
  pub resolved_version : Bytes
  pub current_version : Bytes
  pub desired_version : Bytes
  pub compatible : Bool
  pub source : Bytes
  pub pending_deletion : Bool
  pub installed_jar_name : Bytes

pub record PluginVersionPair : Type 0 where
  pub plugin_ref : PluginRef
  pub version : Bytes

pub record AvailableUpdate : Type 0 where
  pub version : Bytes
  pub build : ℕ
  pub released_at : Time
  pub plugins : List PluginVersionPair
  pub found_at : Time

pub record UpdateHistory : Type 0 where
  pub applied_at : Time
  pub previous_version : Bytes
  pub successful : Bool

pub record BlockedByInfo : Type 0 where
  pub plugin : Bytes
  pub version : Bytes

pub record UpdateBlockedStatus : Type 0 where
  pub blocked : Bool
  pub reason : Bytes
  pub blocked_by : Option BlockedByInfo

pub record BackupRecord : Type 0 where
  pub snapshot_name : Bytes
  pub started_at : Time
  pub completed_at : Option Time
  pub successful : Bool
  pub trigger : Bytes

pub record BackupStatus : Type 0 where
  pub last_backup : Option BackupRecord
  pub backup_count : ℕ

pub record MaintenanceWindow : Type 0 where
  pub enabled : Bool
  pub cron : Bytes

pub record BackupSpec : Type 0 where
  pub enabled : Bool
  pub schedule : Bytes
  pub before_update : Option Bool
  pub volume_snapshot_class_name : Bytes
  pub max_count : ℕ

pub record PaperMcServerSpec : Type 0 where
  pub update_strategy : Bytes
  pub version : Bytes
  pub build : Option ℕ
  pub update_delay : Option Duration
  pub maintenance_window : MaintenanceWindow
  pub graceful_shutdown_timeout : Duration
  pub rcon_enabled : Bool
  pub rcon_port : ℕ
  pub backup : Option BackupSpec

pub record PaperMcServerStatus : Type 0 where
  pub current_version : Bytes
  pub current_build : ℕ
  pub desired_version : Bytes
  pub desired_build : ℕ
  pub plugins : List ServerPluginStatus
  pub available_update : Option AvailableUpdate
  pub last_update : Option UpdateHistory
  pub update_blocked : Option UpdateBlockedStatus
  pub backup : Option BackupStatus
  pub conditions : List Condition

pub record PaperMcServer : Type 0 where
  pub name : Bytes
  pub namespace : Bytes
  pub labels : List (Bytes × Bytes)
  pub annotations : List (Bytes × Bytes)
  pub resource_version : ℕ
  pub spec : PaperMcServerSpec
  pub status : PaperMcServerStatus
