-- ===== src/Cache/Freshness.antt =====
-- What the cache answers behind a call, and behind ClearProject.
use minecraft_operator.Prelude.{
  ◌∙◌, Bool-cases, ap, ◌∷◌, List, Option, arith, none, some, inl, inr, [], ◌≡◌, true, false, refl,
}
use minecraft_operator.Cache.{
  answer_versions, no_compat, versions_key, Cache, CacheEntry, PluginClient, belongs_to,
  store_versions, clear_project, put, usable, get_versions,
}
use minecraft_operator.Update.Delay.{lookup}
use minecraft_operator.Prelude.Bytes.{◌==◌, eq_refl, Bytes}
use minecraft_operator.Clock.{before, Time, Duration}
use minecraft_operator.Solver.{PluginVersion}
use minecraft_operator.Prelude.Int.{◌+ℤ◌}

lookup-put : (k : Bytes) (v : CacheEntry) (m : Cache) → lookup k (put k v m) ≡ some v
unfolding lookup put
lookup-put k v m = rw (eq_refl k)

other_key : (p j : Bytes) → belongs_to p j ≡ false → (j == versions_key p) ≡ false
unfolding belongs_to
other_key p j h = ground arith

lookup-clear :
    (project : Bytes) (m : Cache) → lookup (versions_key project) (clear_project project m) ≡ none
unfolding lookup clear_project
lookup-clear project [] = refl
lookup-clear project (e ∷ m) = elim (Bool-cases (belongs_to project e.0)) [
  | inl h ↦ rw h (lookup-clear project m)
  | inr h ↦ rw (h, other_key project e.0 h) (lookup-clear project m)
]

abbrev fetched : List PluginVersion → Time → CacheEntry
fetched versions expires = record {
  versions = versions;
  compat = no_compat;
  expires_at = expires;
  is_versions = true;
}

module _ (client : PluginClient) (ttl : Duration) (now later : Time) (m : Cache)
    (project : Bytes) where
  first_call :
      (versions : List PluginVersion)
      → client.get_versions project ≡ some versions
      → lookup (versions_key project) m ≡ none
      → get_versions client ttl now later m project
        ≡ (some versions, put (versions_key project) (fetched versions (later +ℤ ttl)) m)
  unfolding get_versions answer_versions usable store_versions
  first_call versions h absent =
      ap (λ o. answer_versions client (later +ℤ ttl) m project (usable true now o)) absent
      ∙ ap (store_versions (versions_key project) (later +ℤ ttl) m) h

  hit :
      (e : CacheEntry)
      → lookup (versions_key project) m ≡ some e
      → e.is_versions ≡ true
      → before now e.expires_at ≡ true
      → get_versions client ttl now later m project ≡ (some e.versions, m)
  unfolding get_versions answer_versions
  hit e found kind fresh =
      ap (λ o. answer_versions client (later +ℤ ttl) m project (usable true now o)) found
      ∙ ap (answer_versions client (later +ℤ ttl) m project) (usable_lem e kind fresh)
    where
      usable_lem :
          (e : CacheEntry)
          → e.is_versions ≡ true
          → before now e.expires_at ≡ true
          → usable true now (some e) ≡ some e
      usable_lem e kind fresh = unfold usable in rw (kind, fresh)

-- Versions that a call has fetched, for a project without an entry, are the answer of every call for that
-- project before their time has run out, whatever the repository would answer by then, and the cache stays
-- as it is.
pub fetched_versions_are_served :
    (client other : PluginClient) (ttl : Duration) (now later next after : Time) (m : Cache)
    (project : Bytes) (versions : List PluginVersion)
    → client.get_versions project ≡ some versions
    → lookup (versions_key project) m ≡ none
    → before next (later +ℤ ttl) ≡ true
    → get_versions other ttl next after (get_versions client ttl now later m project).1 project
      ≡ (some versions, (get_versions client ttl now later m project).1)
fetched_versions_are_served client other ttl now later next after m project versions h absent
      fresh =
    rw (first_call client ttl now later m project versions h absent) (
      hit other ttl next after _ project (fetched versions (later +ℤ ttl))
        (lookup-put (versions_key project) _ m) refl fresh)

-- Behind ClearProject the versions of the project come from the repository: the answer is the repository's.
pub cleared_versions_are_fetched :
    (client : PluginClient) (ttl : Duration) (now later : Time) (m : Cache) (project : Bytes)
    → (get_versions client ttl now later (clear_project project m) project).0
      ≡ client.get_versions project
unfolding get_versions answer_versions usable
cleared_versions_are_fetched client ttl now later m project =
    ap
      (λ o.
        (answer_versions client (later +ℤ ttl) (clear_project project m) project
          (usable true now o)).0)
      (lookup-clear project m)
    ∙ answer (client.get_versions project)
  where
    answer :
        (a : Option (List PluginVersion))
        → (store_versions (versions_key project) (later +ℤ ttl) (clear_project project m) a).0 ≡ a
    answer none = unfold store_versions in refl
    answer (some versions) = unfold store_versions in refl
