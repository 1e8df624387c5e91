-- ===== src/Examples.antt =====
-- Concrete versions, plugins, servers and schedules: each theorem is applied to a case of these in the
-- modules below.
pub mod Versions
pub mod Solving
pub mod Updating
pub mod Outside
pub mod Caching
pub mod Servers
pub mod Deleting
pub mod Scheduling
pub mod Addresses
pub mod Admission
use minecraft_operator.Prelude.{
  arith, ℕ, ◌-◌, Bool, true, false, List, [], ◌∷◌, Option, none, some, if◌then◌else◌, leb, ltb,
  ◌&&◌,
}
use minecraft_operator.Prelude.Bytes.{Bytes, bytes}
use minecraft_operator.Prelude.Int.{ℤ, pos, negsuc, ltb_ℤ}
use minecraft_operator.Clock.{Time, zero_time}
use minecraft_operator.Version.SemanticVersion.{Semver, IsSemver}
use minecraft_operator.Api.{
  Plugin, PluginSpec, PluginSource, PluginStatus, PluginVersionInfo, LabelSelector, PaperMcServer,
  PaperMcServerSpec, PaperMcServerStatus, MaintenanceWindow,
}

-- Versions of one digit.
abbrev read_digit : Bytes → Option ℕ
read_digit [] = none
read_digit (c ∷ []) = if leb b'0' c && leb c b'9' then some (c - b'0') else none
read_digit (c ∷ d ∷ s) = none

abbrev compare_digits : ℕ → ℕ → ℤ
compare_digits a b = if ltb a b then negsuc 0 else if ltb b a then pos 1 else pos 0

abbrev pub digits : Semver ℕ
digits = record {
  new_version = read_digit;
  compare = compare_digits;
  greater_than = λ a b. ltb b a;
}

pub digits-IsSemver : IsSemver digits
digits-IsSemver = record {
  compare_range = λ a b. ground arith;
  compare_swap = λ a b. ground arith;
  greater_than_iff = λ a b. ground arith;
  greater_than_split = λ a b c h. ground arith;
}

abbrev pub plugin : Bytes → Bytes → List PluginVersionInfo → Plugin
plugin strategy version infos = record {
  name = bytes "map";
  namespace = bytes "games";
  spec = record {
    source = record {
      source_type = bytes "hangar";
      project = bytes "map";
      url = [];
      checksum = [];
    };
    update_strategy = strategy;
    version = version;
    update_delay = none;
    instance_selector = record { match_labels = []; match_expressions = [] };
    compatibility_override = none;
  };
  status = record {
    available_versions = infos;
    repository_status = bytes "available";
    deletion_progress = [];
    conditions = [];
  };
}

abbrev pub info : List Bytes → PluginVersionInfo
info minecraft_versions = record {
  version = bytes "1";
  minecraft_versions = minecraft_versions;
  download_url = [];
  hash = [];
  cached_at = zero_time;
  released_at = zero_time;
}

abbrev pub status : PaperMcServerStatus
status = record {
  current_version = bytes "1";
  current_build = 4;
  desired_version = bytes "2";
  desired_build = 7;
  plugins = [];
  available_update = none;
  last_update = none;
  update_blocked = none;
  backup = none;
  conditions = [];
}

abbrev pub server : Bytes → PaperMcServer
server strategy = record {
  name = bytes "lobby";
  namespace = bytes "games";
  labels = [];
  annotations = [];
  resource_version = 3;
  spec = record {
    update_strategy = strategy;
    version = bytes "2";
    build = none;
    update_delay = some (pos 10);
    maintenance_window = record { enabled = true; cron = bytes "@hourly" };
    graceful_shutdown_timeout = pos 0;
    rcon_enabled = true;
    rcon_port = 25575;
    backup = none;
  };
  status = status;
}
