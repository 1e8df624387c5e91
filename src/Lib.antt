-- ===== src/Lib.antt =====
-- Verification library of the Minecraft operator, a Kubernetes operator that keeps PaperMC servers
-- and their plugins up to date. It models the operator's own decisions: which version to install,
-- whether an update may run now, and what is written down when it has run.
--
-- The program's parts. The two custom resources are the Go types of api/v1beta1; Api holds them,
-- with the fields that the modelled code reads or writes. pkg/version compares and matches
-- versions; Version holds ParseVersion, CompareVersions, Compare, IsDowngrade, FindMaxVersion,
-- FilterByUpdateDelay, MatchesVersionPattern and ContainsVersion. The semver library is the
-- parameter Semver of Version.SemanticVersion, with its documented order as IsSemver. pkg/solver
-- searches for the best plugin version and the best Paper version; Solver holds
-- FindBestPluginVersion, FindBestPaperVersion and their helpers, and Solver.Sort the exchange
-- sorts sortVersionsDesc and sortPaperVersionsDesc. pkg/plugins/cache.go, the cache in front of a
-- plugin repository, is Cache. The plugin and the server controllers call the solver and write
-- what it finds into the resources.
--
-- internal/controller/update_controller.go decides when an update runs and records its outcome.
-- Update.Window holds isInMaintenanceWindow and findLastCronTrigger, Update.Delay
-- shouldApplyUpdate and shouldApplyNow, Update.Outcome updateServerStatus,
-- hasPendingPluginUpdates, getPluginsToDelete and updateStatusWithRetry. Update.Schedule holds
-- manageCronSchedule and removeCronJob over the registry of jobs and the scheduler of robfig/cron,
-- a parameter with its laws, and Update.Reconcile what Reconcile decides before an update starts.
-- Update.Flow holds the update itself, with the validation of an address as an argument,
-- performCombinedUpdate and performPluginOnlyUpdate with their steps; its child Downloads the work
-- in the pod. pkg/rcon is Rcon, and Backup holds pkg/backup with performBackup and the triggers of
-- internal/controller/backup_controller.go; the update flow calls performBackup before it touches
-- anything.
--
-- internal/controller/papermcserver_controller.go decides which version a server should run.
-- Server holds checkDowngrade, checkCompatibility and the block that they write, Server.Tags
-- findLatestVersionFromTags, Server.Available findAvailableUpdate, Server.Resolution
-- resolveDesiredPaperVersion and updateDesiredVersion, Server.PluginVersions
-- resolvePluginVersionForServer and buildPluginStatus, Server.Image detectCurrentPaperVersion, and
-- Server.Equality serverStatusEqual with its helpers. A resolution is a step on the server's
-- status, which a failing step may have changed; Server.Steps has the rules for conditions on it.
-- The registry and the Paper API are a Catalogue of answers. pkg/selector is Selection, with the
-- selectors of apimachinery as a parameter. Of internal/controller/plugin_controller.go, Deletion
-- holds reconcileDelete with all its steps, over a World that has the servers of the API server,
-- and Selection findPluginsForServer. pkg/plugins/url.go is Address: ValidateDownloadURL,
-- isBlockedHost and the spellings of an address that these know, with net and net/url as a
-- parameter. api/v1beta1/papermcserver_webhook.go admits a server before any controller sees it;
-- Webhook holds validateServerStrategy and validateBackup. Text has what these use of the packages
-- strings and strconv.
--
-- What leaves the operator (API calls, RCON commands, commands in a pod, waits, a context that may
-- be cancelled) is an Action of Effects. A script keeps the log of its calls, and the outside
-- answers each call depending on all calls before it, so that every combination of failures is
-- covered. Effects.Triples has the rules for conditions on the log. The two hooks run in one
-- goroutine under a mutex, so a run is one script.
--
-- The clock is an argument everywhere, the parser of cron expressions and its Next are parameters,
-- and so is the API server, a state with its replies.
--
-- Go's values. A string is a list of bytes, an int a natural number where the source gives none
-- below 0, an instant the nanoseconds since Go's zero time, a duration a 64-bit number of
-- nanoseconds with the clamping of Sub and the wrap-around of the subtraction, of the negation and
-- of time.Unix written out (Clock, Update.Delay). A time that the API server has stored is cut to
-- its seconds. A pointer that may be nil is an option, a map an association list, an error a
-- constructor of a data type. Logging, metrics and contexts are left out. In updateStatusWithRetry
-- the object read anew is a value of its own, as the cached client delivers it.
--
-- Fuel. The loop of findLastCronTrigger runs on fuel, since it need not end; one round for each
-- nanosecond of the seven days looked back is enough for a schedule that fires again and again.
-- The sorts run on the length of the list, and the loops of the deletion and of the tags over
-- their lists. A number is printed with at most 20 digits, as any 64-bit one is. waitForPodReady
-- asks 120 times, every five seconds for ten minutes, unless its context ends before.
--
-- Not modelled: the Reconcile functions of the server, plugin and backup controllers around these
-- parts, what the update controller's Reconcile composes behind its decision, the cron registry of
-- the backups, the metadata cache of the plugin controller, and the other rules of the webhooks.
-- Nor are the assembly of Kubernetes objects (StatefulSets, Services, routes, network policies,
-- config files), the calls of HTTP services (Hangar, PaperMC, the registry), the streams to pods,
-- the web interface and the REST handlers.
--
-- Prelude holds what all parts share; Examples applies each theorem to a concrete case.
pub mod Prelude
pub mod Text
pub mod Clock
pub mod Version
pub mod Api
pub mod Solver
pub mod Effects
pub mod Cache
pub mod Rcon
pub mod Backup
pub mod Server
pub mod Selection
pub mod Deletion
pub mod Update
pub mod Address
pub mod Webhook
pub mod Examples
