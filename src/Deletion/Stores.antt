-- ===== src/Deletion/Stores.antt =====
-- Marking a plugin in the status of a server moves no JAR.
use minecraft_operator.Deletion.{
  is_server, lookup, names, mark_pending, entry_for, has_no_jar, marked, store_server,
}
use minecraft_operator.Prelude.{
  if◌then◌else◌, Bool, true, false, List, [], ◌∷◌, Option, none, some, ◌≡◌, refl, sym, ap, ◌∙◌, inl,
  inr, Bool-cases, arith,
}
use minecraft_operator.Prelude.Bytes.{Bytes, eq→≡, eq_refl}
use minecraft_operator.Api.{PaperMcServer, Plugin, ServerPluginStatus}

abbrev pub without_jar : Plugin → Option PaperMcServer → Bool
without_jar plugin none = true
without_jar plugin (some server) = has_no_jar (entry_for plugin server.status.plugins)

-- No server of that key has a JAR of the plugin, as its status tells.
abbrev pub is_free : Plugin → List PaperMcServer → Bytes → Bytes → Bool
is_free plugin servers name namespace = without_jar plugin (lookup name namespace servers)

pub is_server-≡ :
    (name namespace : Bytes) (server : PaperMcServer)
    → is_server name namespace server ≡ true
    → (server.name ≡ name) × (server.namespace ≡ namespace)
is_server-≡ name namespace server h = (eq→≡ _ _ (ground arith), eq→≡ _ _ (ground arith))

has_no_jar-mark_pending :
    (plugin : Plugin) (ss : List ServerPluginStatus)
    → has_no_jar (entry_for plugin (mark_pending plugin ss)) ≡ has_no_jar (entry_for plugin ss)
unfolding mark_pending entry_for
has_no_jar-mark_pending plugin [] = refl
has_no_jar-mark_pending plugin (s ∷ ss) = elim (Bool-cases (names plugin s)) [
  | inl e ↦ rw e (rw e refl)
  | inr e ↦ rw e (rw e (has_no_jar-mark_pending plugin ss))
]

pub lookup-key :
    (name namespace : Bytes) (servers : List PaperMcServer) (server : PaperMcServer)
    → lookup name namespace servers ≡ some server
    → is_server name namespace server ≡ true
unfolding lookup
lookup-key name namespace [] server h = cc
lookup-key name namespace (s ∷ ss) server h = elim (Bool-cases (is_server name namespace s)) [
  | inl e ↦ let h' : some s ≡ some server = rw e at h in cc (h', e)
  | inr e ↦ lookup-key name namespace ss server (rw e at h)
]

-- What is found behind a store: the server stored, or what was found before.
lookup-store_same :
    (stored server : PaperMcServer) (servers : List PaperMcServer)
    → lookup stored.name stored.namespace servers ≡ some server
    → lookup stored.name stored.namespace (store_server stored servers) ≡ some stored
unfolding lookup
lookup-store_same stored server [] h = cc
lookup-store_same stored server (s ∷ ss) h =
    elim (Bool-cases (is_server stored.name stored.namespace s)) [
      | inl e ↦ rw e (rw (eq_refl stored.name, eq_refl stored.namespace) refl)
      | inr e ↦ rw e (rw e (lookup-store_same stored server ss (rw e at h)))
    ]

other_key :
    (name namespace : Bytes) (stored s : PaperMcServer)
    → is_server name namespace stored ≡ false
    → is_server stored.name stored.namespace s ≡ true
    → is_server name namespace s ≡ false
other_key name namespace stored s h e =
    let (n, m) = is_server-≡ stored.name stored.namespace s e in rw (n, m) h

lookup-store_other :
    (name namespace : Bytes) (stored : PaperMcServer) (servers : List PaperMcServer)
    → is_server name namespace stored ≡ false
    → lookup name namespace (store_server stored servers) ≡ lookup name namespace servers
unfolding lookup
lookup-store_other name namespace stored [] h = refl
lookup-store_other name namespace stored (s ∷ ss) h =
    elim (Bool-cases (is_server stored.name stored.namespace s)) [
      | inl e ↦ rw e (
          rw (h, other_key name namespace stored s h e)
            (lookup-store_other name namespace stored ss h))
      | inr e ↦ rw e (
          ap (λ r. if is_server name namespace s then some s else r)
            (lookup-store_other name namespace stored ss h))
    ]

pub is_free-store :
    (plugin : Plugin) (name namespace : Bytes) (server : PaperMcServer)
    (servers : List PaperMcServer)
    → lookup server.name server.namespace servers ≡ some server
    → is_free plugin (store_server (marked plugin server) servers) name namespace
      ≡ is_free plugin servers name namespace
is_free-store plugin name namespace server servers h =
    elim (Bool-cases (is_server name namespace server)) [
      | inl e ↦
          let (n, m) = is_server-≡ name namespace server e in
          let found : lookup name namespace servers ≡ some server = rw (sym n, sym m) h in
          let again : lookup name namespace (store_server (marked plugin server) servers)
              ≡ some (marked plugin server) =
            rw (sym n, sym m) (lookup-store_same (marked plugin server) server servers h) in
          ap (without_jar plugin) again
          ∙ has_no_jar-mark_pending plugin server.status.plugins
          ∙ sym (ap (without_jar plugin) found)
      | inr e ↦
          ap (without_jar plugin)
            (lookup-store_other name namespace (marked plugin server) servers e)
    ]
