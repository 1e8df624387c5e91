-- ===== src/Selection.antt =====
-- pkg/selector/matcher.go: which plugins are for which servers. `metav1.LabelSelectorAsSelector` and the
-- `Matches` of its result are a parameter.
pub mod Symmetry
use minecraft_operator.Prelude.{
  Bool, true, false, List, [], ◌∷◌, Option, none, some, if◌then◌else◌, keep, Result, ok, err,
}
use minecraft_operator.Prelude.Bytes.{Bytes, ◌==◌}
use minecraft_operator.Api.{LabelSelector, PaperMcServer, Plugin, PluginRef}

abbrev pub Labels : Type 0
Labels = List (Bytes × Bytes)

-- The test that a selector stands for, `none` for one that is not well-formed.
abbrev pub Selecting : Type 0
Selecting = LabelSelector → Option (Labels → Bool)

pub data SelectorError : Type 0 where
  list_failed : SelectorError
  invalid_selector : LabelSelector → SelectorError

module _ (selecting : Selecting) where
  -- `MatchesSelector`; `none` is its error.
  unfoldable pub matches_selector : Labels → LabelSelector → Option Bool
  matches_selector labels selector = elim (selecting selector) [
    | none ↦ none
    | some test ↦ some (test labels)
  ]

  matching :
      LabelSelector
      → Option (Labels → Bool)
      → List PaperMcServer
      → Result SelectorError (List PaperMcServer)
  matching selector none servers = err (invalid_selector selector)
  matching selector (some test) servers = ok (keep (λ server. test server.labels) servers)

  -- `FindMatchingServers`, from the servers of the namespace as they are listed, `none` if that fails.
  unfoldable pub find_matching_servers :
      LabelSelector → Option (List PaperMcServer) → Result SelectorError (List PaperMcServer)
  unfolding matching
  find_matching_servers selector none = err list_failed
  find_matching_servers selector (some servers) = matching selector (selecting selector) servers

  onto :
      Plugin → Option Bool → Result SelectorError (List Plugin) → Result SelectorError (List Plugin)
  onto plugin none rest = err (invalid_selector plugin.spec.instance_selector)
  onto plugin (some b) (err e) = err e
  onto plugin (some true) (ok plugins) = ok (plugin ∷ plugins)
  onto plugin (some false) (ok plugins) = ok plugins

  matching_plugins : Labels → List Plugin → Result SelectorError (List Plugin)
  unfolding onto
  matching_plugins labels [] = ok []
  matching_plugins labels (plugin ∷ plugins) =
      onto plugin (matches_selector labels plugin.spec.instance_selector)
        (matching_plugins labels plugins)

  -- `FindMatchingPlugins`: one selector that is not well-formed fails the whole search.
  unfoldable pub find_matching_plugins :
      Labels → Option (List Plugin) → Result SelectorError (List Plugin)
  unfolding matching_plugins
  find_matching_plugins labels none = err list_failed
  find_matching_plugins labels (some plugins) = matching_plugins labels plugins

  abbrev pub request_for : Plugin → PluginRef
  request_for plugin = record { name = plugin.name; namespace = plugin.namespace }

  request_if : Plugin → Option Bool → List PluginRef → List PluginRef
  request_if plugin (some true) rest = request_for plugin ∷ rest
  request_if plugin (some false) rest = rest
  request_if plugin none rest = rest

  requests_for : PaperMcServer → List Plugin → List PluginRef
  unfolding request_if
  requests_for server [] = []
  requests_for server (plugin ∷ plugins) =
      request_if plugin (matches_selector server.labels plugin.spec.instance_selector)
        (requests_for server plugins)

  -- `findPluginsForServer` of the plugin controller: a selector that is not well-formed is passed over.
  unfoldable pub find_plugins_for_server : PaperMcServer → Option (List Plugin) → List PluginRef
  unfolding requests_for
  find_plugins_for_server server none = []
  find_plugins_for_server server (some plugins) = requests_for server plugins
