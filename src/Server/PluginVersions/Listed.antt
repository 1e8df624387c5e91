-- ===== src/Server/PluginVersions/Listed.antt =====
-- The version that is resolved for a plugin is one that it lists.
use minecraft_operator.Server.PluginVersions.{
  no_answer, pinned_not_set, pinned_not_found, all_too_recent, PluginError, to_plugin_version,
  first_named, converted_back, delayed, solved, resolve_plugin_version_for_server,
}
use minecraft_operator.Solver.{
  PluginVersion, SolverError, is_pinning, or_latest, check_pinned_plugin_version,
  find_best_plugin_version,
}
use minecraft_operator.Solver.PluginSearch.{find_best_plugin_version_cases}
use minecraft_operator.Version.{VersionInfo}
use minecraft_operator.Version.SemanticVersion.{Semver, IsSemver}
use minecraft_operator.Clock.{Duration, Time}
use minecraft_operator.Api.{PaperMcServer, Plugin, PluginVersionInfo}
use minecraft_operator.Prelude.{
  Bool, true, false, List, [], ◌∷◌, ◌++◌, Option, none, some, if◌then◌else◌, is_empty, any, any→Any,
  Any, Any-map, map, Result, ok, err, ◌≡◌, ◌⊎◌, refl, sym, ap, ◌∙◌, inl, inr, Bool-cases,
  List-cases, false≢true,
}
use minecraft_operator.Prelude.Bytes.{Bytes, ◌==◌, eq→≡}

Any-first : {A : Type 0} (P : A → Type 0) (xs ys : List A) → Any P (xs ++ ys) → Any P xs ⊎ Any P ys
Any-first P [] ys h = inr h
Any-first P (x ∷ xs) ys (inl p) = inl (inl p)
Any-first P (x ∷ xs) ys (inr h) = elim (Any-first P xs ys h) [ inl k ↦ inl (inr k) | inr k ↦ inr k ]

Any-unmap :
    {A B : Type 0} (P : B → Type 0) (f : A → B) (xs : List A)
    → Any P (map f xs)
    → Any (λ x. P (f x)) xs
Any-unmap P f [] h = elim h [ ]
Any-unmap P f (x ∷ xs) (inl p) = inl p
Any-unmap P f (x ∷ xs) (inr h) = inr (Any-unmap P f xs h)

Any-first_named :
    (P : PluginVersion → Type 0) (name : Bytes) (vs : List PluginVersion)
    → Any P (first_named name vs)
    → Any P vs
unfolding first_named
Any-first_named P name [] h = elim h [ ]
Any-first_named P name (v ∷ vs) h = go (v.version == name) (Any-first_named P name vs) h
  where
    only : Any P (v ∷ []) → Any P (v ∷ vs)
    only (inl p) = inl p
    only (inr k) = elim k [ ]

    go :
        (b : Bool)
        → (Any P (first_named name vs) → Any P vs)
        → Any P (if b then v ∷ [] else first_named name vs)
        → Any P (v ∷ vs)
    go true later k = only k
    go false later k = inr (later k)

Any-converted_back :
    (P : PluginVersion → Type 0) (fs : List VersionInfo) (vs : List PluginVersion)
    → Any P (converted_back fs vs)
    → Any P vs
unfolding converted_back
Any-converted_back P [] vs h = elim h [ ]
Any-converted_back P (f ∷ fs) vs h =
    elim (Any-first P (first_named f.version vs) (converted_back fs vs) h) [
      | inl k ↦ Any-first_named P f.version vs k
      | inr k ↦ Any-converted_back P fs vs k
    ]

Any-delayed :
    (P : PluginVersion → Type 0) (now : Time) (delay : Option Duration) (vs : List PluginVersion)
    → Any P (delayed now delay vs)
    → Any P vs
unfolding delayed
Any-delayed P now none vs h = h
Any-delayed P now (some delay) vs h = Any-converted_back P _ vs h

-- A version among those that a plugin lists.
abbrev pub IsListed : Plugin → Bytes → Type 0
IsListed plugin v = Any (λ info. info.version ≡ v) plugin.status.available_versions

module _ {V : Type 0} (sv : Semver V) (laws : IsSemver sv) (now : Time) where
  solved-≡ : (r : Result SolverError Bytes) (v : Bytes) → solved r ≡ ok v → r ≡ ok v
  unfolding solved
  solved-≡ (err e) v h = cc
  solved-≡ (ok w) v h = elim (Bool-cases (is_empty w)) [
    | inl e ↦ let g : ◌≡◌ {A = Result PluginError Bytes} (err no_answer) (ok v) = rw e at h in cc
    | inr e ↦ let g : ◌≡◌ {A = Result PluginError Bytes} (ok w) (ok v) = rw e at h in cc
  ]

  check_unpinned :
      (plugin : Plugin)
      → is_pinning plugin.spec.update_strategy ≡ false
      → is_empty (check_pinned_plugin_version plugin) ≡ true
  unfolding check_pinned_plugin_version
  check_unpinned plugin h = rw h refl

  found-IsListed :
      (server : PaperMcServer) (plugin : Plugin) (v : Bytes) (filtered : List PluginVersion)
      → ((P : PluginVersion → Type 0)
          → Any P filtered
          → Any P (map to_plugin_version plugin.status.available_versions))
      → is_empty filtered ≡ false
      → is_pinning plugin.spec.update_strategy ≡ false
      → find_best_plugin_version sv now plugin (server ∷ []) filtered ≡ ok v
      → IsListed plugin v
  found-IsListed server plugin v filtered back n p h =
      elim (find_best_plugin_version_cases sv laws now plugin (server ∷ []) filtered n refl
        (check_unpinned plugin p)) [
          | inl (answer, e, best) ↦
              let same : answer.version ≡ v = cc in
              Any-unmap (λ pv. pv.version ≡ v) to_plugin_version plugin.status.available_versions
                (back (λ pv. pv.version ≡ v)
                  (Any-map (λ w q. ap PluginVersion.version q.0 ∙ same) filtered best.listed))
          | inr (inl (e, _)) ↦ cc
          | inr (inr (e, _)) ↦ cc
        ]

  -- The version that is resolved for a plugin on a server is one that the plugin lists; only where it lists
  -- none the result is the empty text.
  pub resolve_plugin_version_for_server-IsListed :
      (server : PaperMcServer) (plugin : Plugin) (v : Bytes)
      → resolve_plugin_version_for_server sv now server plugin ≡ ok v
      → ((plugin.status.available_versions ≡ []) × (v ≡ [])) ⊎ IsListed plugin v
  unfolding resolve_plugin_version_for_server
  resolve_plugin_version_for_server-IsListed server plugin v h =
      go (is_empty infos) (is_pinning plugin.spec.update_strategy) (is_empty pinned)
        (any (λ w. w.version == pinned) (map to_plugin_version infos)) (is_empty filtered) refl refl
        refl refl h
    where
      infos : List PluginVersionInfo
      infos = plugin.status.available_versions

      pinned : Bytes
      pinned = plugin.spec.version

      filtered : List PluginVersion
      filtered = delayed now plugin.spec.update_delay (map to_plugin_version infos)

      named :
          pinned ≡ v
          → any (λ w. w.version == pinned) (map to_plugin_version infos) ≡ true
          → IsListed plugin v
      named same k =
          Any-unmap (λ w. w.version ≡ v) to_plugin_version infos
            (Any-map (λ w q. eq→≡ w.version pinned q ∙ same) _ (any→Any _ _ k))

      go :
          (b c d e f : Bool)
          → is_empty infos ≡ b
          → is_pinning plugin.spec.update_strategy ≡ c
          → any (λ w. w.version == pinned) (map to_plugin_version infos) ≡ e
          → is_empty filtered ≡ f
          → (if b
              then ok []
              else if c
              then (if d
                  then err (pinned_not_set (or_latest plugin.spec.update_strategy))
                  else if e
                  then ok pinned
                  else err (pinned_not_found pinned))
              else if f
              then err all_too_recent
              else solved (find_best_plugin_version sv now plugin (server ∷ []) filtered))
            ≡ ok v
          → ((infos ≡ []) × (v ≡ [])) ⊎ IsListed plugin v
      go true c d e f hb hc he hf k = elim (List-cases infos) [
        | inl n ↦ inl (n, cc)
        | inr n ↦ absurd (false≢true (sym n ∙ hb))
      ]
      go false true true e f hb hc he hf k = cc
      go false true false true f hb hc he hf k = let same : pinned ≡ v = cc in inr (named same he)
      go false true false false f hb hc he hf k = cc
      go false false d e true hb hc he hf k = cc
      go false false d e false hb hc he hf k = inr (
          found-IsListed server plugin v filtered
            (λ P. Any-delayed P now plugin.spec.update_delay (map to_plugin_version infos)) hf hc
            (solved-≡ (find_best_plugin_version sv now plugin (server ∷ []) filtered) v k))
