-- ===== src/Server/Equality.antt =====
-- serverStatusEqual: whether a status has changed, and with that whether it is written.
pub mod Unchanged
use minecraft_operator.Prelude.{
  ℕ, eqb, Bool, true, false, not, ◌&&◌, ◌||◌, List, [], ◌∷◌, Option, none, some, if◌then◌else◌,
  length,
}
use minecraft_operator.Prelude.Bytes.{Bytes, ◌==◌}
use minecraft_operator.Clock.{Time, same_time}
use minecraft_operator.Api.{
  AvailableUpdate, BackupRecord, BackupStatus, BlockedByInfo, Condition, ConditionStatus,
  condition_true, condition_false, condition_unknown, PaperMcServerStatus, PluginVersionPair,
  ServerPluginStatus, UpdateBlockedStatus, UpdateHistory,
}
use minecraft_operator.Effects.{is_some}
use minecraft_operator.Server.PluginVersions.{status_key}

-- Two pointers: both nil, or neither and what they point to the same.
unfoldable pub same_option : {A : Type 0} → (A → A → Bool) → Option A → Option A → Bool
same_option same none none = true
same_option same none (some b) = false
same_option same (some a) none = false
same_option same (some a) (some b) = same a b

abbrev pub same_bool : Bool → Bool → Bool
same_bool true b = b
same_bool false b = not b

-- A map that is filled from a list, read at a key: the last element of that key.
unfoldable pub last_of : {A : Type 0} → (A → Bytes) → Bytes → List A → Option A
last_of key k [] = none
last_of key k (x ∷ xs) =
    let later = last_of key k xs in
    if is_some later then later else if key x == k then some x else none

unfoldable pub is_same_as : {A : Type 0} → (A → A → Bool) → A → Option A → Bool
is_same_as same x none = false
is_same_as same x (some prev) = same prev x

-- Every element of the second list has one of its key in the first that is the same.
unfoldable pub all_found : {A : Type 0} → (A → Bytes) → (A → A → Bool) → List A → List A → Bool
unfolding last_of is_same_as
all_found key same a [] = true
all_found key same a (x ∷ xs) = is_same_as same x (last_of key (key x) a) && all_found key same a xs

unfoldable pub same_slice : {A : Type 0} → (A → Bytes) → (A → A → Bool) → List A → List A → Bool
unfolding all_found
same_slice key same a b = if not (eqb (length a) (length b)) then false else all_found key same a b

abbrev same_condition_status : ConditionStatus → ConditionStatus → Bool
same_condition_status condition_true condition_true = true
same_condition_status condition_false condition_false = true
same_condition_status condition_unknown condition_unknown = true
same_condition_status _ _ = false

abbrev pub same_condition : Condition → Condition → Bool
same_condition a b =
    same_condition_status a.status b.status && a.reason == b.reason && a.message == b.message

unfoldable pub conditions_equal : List Condition → List Condition → Bool
conditions_equal a b = same_slice (λ c. c.kind) same_condition a b

abbrev pub same_plugin_status : ServerPluginStatus → ServerPluginStatus → Bool
same_plugin_status a b =
    a.resolved_version == b.resolved_version
    && same_bool a.compatible b.compatible
    && a.current_version == b.current_version
    && a.desired_version == b.desired_version
    && a.source == b.source
    && same_bool a.pending_deletion b.pending_deletion
    && a.installed_jar_name == b.installed_jar_name

unfoldable pub plugin_status_slice_equal : List ServerPluginStatus → List ServerPluginStatus → Bool
plugin_status_slice_equal a b = same_slice (λ p. status_key p.plugin_ref) same_plugin_status a b

same_pairs : List PluginVersionPair → List PluginVersionPair → Bool
same_pairs [] [] = true
same_pairs [] (q ∷ qs) = false
same_pairs (p ∷ ps) [] = false
same_pairs (p ∷ ps) (q ∷ qs) =
    p.plugin_ref.name == q.plugin_ref.name
    && p.plugin_ref.namespace == q.plugin_ref.namespace
    && p.version == q.version
    && same_pairs ps qs

same_update : AvailableUpdate → AvailableUpdate → Bool
unfolding same_pairs
same_update a b = a.version == b.version && eqb a.build b.build && same_pairs a.plugins b.plugins

unfoldable pub available_update_equal : Option AvailableUpdate → Option AvailableUpdate → Bool
unfolding same_option same_update
available_update_equal a b = same_option same_update a b

abbrev same_history : UpdateHistory → UpdateHistory → Bool
same_history a b =
    same_bool a.successful b.successful
    && a.previous_version == b.previous_version
    && same_time a.applied_at b.applied_at

unfoldable pub update_history_equal : Option UpdateHistory → Option UpdateHistory → Bool
unfolding same_option
update_history_equal a b = same_option same_history a b

abbrev same_record : BackupRecord → BackupRecord → Bool
same_record a b =
    a.snapshot_name == b.snapshot_name
    && same_bool a.successful b.successful
    && a.trigger == b.trigger
    && same_time a.started_at b.started_at
    && same_option same_time a.completed_at b.completed_at

abbrev same_backup : BackupStatus → BackupStatus → Bool
same_backup a b =
    eqb a.backup_count b.backup_count && same_option same_record a.last_backup b.last_backup

unfoldable pub backup_status_equal : Option BackupStatus → Option BackupStatus → Bool
unfolding same_option
backup_status_equal a b = same_option same_backup a b

abbrev same_blocker : BlockedByInfo → BlockedByInfo → Bool
same_blocker a b = a.plugin == b.plugin && a.version == b.version

abbrev same_blocked : UpdateBlockedStatus → UpdateBlockedStatus → Bool
same_blocked a b =
    same_bool a.blocked b.blocked
    && a.reason == b.reason
    && same_option same_blocker a.blocked_by b.blocked_by

unfoldable pub server_status_equal : PaperMcServerStatus → PaperMcServerStatus → Bool
unfolding plugin_status_slice_equal available_update_equal update_history_equal backup_status_equal
    conditions_equal same_option
server_status_equal a b =
    a.current_version == b.current_version
    && eqb a.current_build b.current_build
    && a.desired_version == b.desired_version
    && eqb a.desired_build b.desired_build
    && same_option same_blocked a.update_blocked b.update_blocked
    && plugin_status_slice_equal a.plugins b.plugins
    && available_update_equal a.available_update b.available_update
    && update_history_equal a.last_update b.last_update
    && backup_status_equal a.backup b.backup
    && conditions_equal a.conditions b.conditions
