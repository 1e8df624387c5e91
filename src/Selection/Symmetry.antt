-- ===== src/Selection/Symmetry.antt =====
-- The two directions of the search agree.
use minecraft_operator.Selection.{
  Selecting, Labels, matching, find_matching_servers, matches_selector, onto, matching_plugins,
  find_matching_plugins, request_for, request_if, requests_for, find_plugins_for_server,
}
use minecraft_operator.Prelude.{
  Bool, true, false, List, [], ◌∷◌, Option, none, some, if◌then◌else◌, keep, Result, ok, err, ◌≡◌,
  ◌↔◌, map, refl, Any, Any-keep, Bool-cases, inl, inr, Any-map, ◌∙◌, sym, ap,
}
use minecraft_operator.Api.{LabelSelector, PaperMcServer, Plugin}

abbrev pub In : {A : Type 0} → A → List A → Type 0
In x xs = Any (λ y. y ≡ x) xs

In-keep :
    {A : Type 0} (p : A → Bool) (x : A) (xs : List A) → In x (keep p xs) ↔ (In x xs × (p x ≡ true))
In-keep p x xs = (forth, λ q. back xs q.0 q.1)
  where
    fact : (ys : List _) → Any (λ y. (y ≡ x) × (p y ≡ true)) ys → p x ≡ true
    fact (y ∷ ys) (inl (e, t)) = ap p (sym e) ∙ t
    fact (y ∷ ys) (inr h) = fact ys h
    fact [] h = elim h [ ]

    forth : In x (keep p xs) → In x xs × (p x ≡ true)
    forth h =
        let found = Any-keep (λ y. y ≡ x) p xs h in (Any-map (λ y q. q.0) xs found, fact xs found)

    back : (ys : List _) → In x ys → p x ≡ true → In x (keep p ys)
    back (y ∷ ys) (inl e) t = rw (ap p e ∙ t) (inl e)
    back (y ∷ ys) (inr h) t = elim (Bool-cases (p y)) [
      | inl e ↦ rw e (inr (back ys h t))
      | inr e ↦ rw e (back ys h t)
    ]
    back [] h t = elim h [ ]

abbrev yields : Option Bool → Bool
yields none = false
yields (some b) = b

module _ (selecting : Selecting) where
  abbrev is_match : Labels → LabelSelector → Bool
  is_match labels selector = yields (matches_selector selecting labels selector)

  onto-keep :
      (labels : Labels) (plugin : Plugin) (plugins found : List Plugin) (o : Option Bool)
      (r : Result _ (List Plugin))
      → ((rest : List Plugin) → r ≡ ok rest → rest ≡ plugins)
      → onto selecting plugin o r ≡ ok found
      → found ≡ (if yields o then plugin ∷ plugins else plugins)
  unfolding onto
  onto-keep labels plugin plugins found none r ih h = cc
  onto-keep labels plugin plugins found (some b) (err e) ih h = cc
  onto-keep labels plugin plugins found (some true) (ok rest) ih h = cc (h, ih rest refl)
  onto-keep labels plugin plugins found (some false) (ok rest) ih h = cc (h, ih rest refl)

  matching_plugins-keep :
      (labels : Labels) (plugins found : List Plugin)
      → matching_plugins selecting labels plugins ≡ ok found
      → found ≡ keep (λ plugin. is_match labels plugin.spec.instance_selector) plugins
  unfolding matching_plugins
  matching_plugins-keep labels [] found h = cc
  matching_plugins-keep labels (plugin ∷ plugins) found h =
      onto-keep labels plugin _ found
        (matches_selector selecting labels plugin.spec.instance_selector)
        (matching_plugins selecting labels plugins) (matching_plugins-keep labels plugins) h

  matching-keep :
      (selector : LabelSelector) (servers found : List PaperMcServer)
      → matching selecting selector (selecting selector) servers ≡ ok found
      → found ≡ keep (λ server. is_match server.labels selector) servers
  unfolding matching matches_selector
  matching-keep selector servers found h = go (selecting selector) h
    where
      go :
          (o : Option (Labels → Bool))
          → matching selecting selector o servers ≡ ok found
          → found
            ≡ keep
                (λ server. yields (elim o [ none ↦ none | some test ↦ some (test server.labels) ]))
                servers
      go none e = cc
      go (some test) e = cc

  -- Where both searches succeed, a plugin finds a server of the cluster exactly when the server finds the plugin.
  pub find_matching_symmetric :
      (server : PaperMcServer) (servers found_servers : List PaperMcServer) (plugin : Plugin)
      (plugins found_plugins : List Plugin)
      → find_matching_servers selecting plugin.spec.instance_selector (some servers)
        ≡ ok found_servers
      → find_matching_plugins selecting server.labels (some plugins) ≡ ok found_plugins
      → In server servers
      → In plugin plugins
      → In server found_servers ↔ In plugin found_plugins
  unfolding find_matching_servers find_matching_plugins
  find_matching_symmetric server servers found_servers plugin plugins found_plugins hs hp s p =
      let es = matching-keep plugin.spec.instance_selector servers found_servers hs in
      let ep = matching_plugins-keep server.labels plugins found_plugins hp in
      let is = In-keep (λ x. is_match x.labels plugin.spec.instance_selector) server servers in
      let ip = In-keep (λ x. is_match server.labels x.spec.instance_selector) plugin plugins in
      rw (es, ep) ((λ h. ip.1 (p, (is.0 h).1)), λ h. is.1 (s, (ip.0 h).1))

  -- Unless a selector fails the search, the plugins requested for a server are those that match it.
  pub find_plugins_for_server_agrees :
      (server : PaperMcServer) (plugins found : List Plugin)
      → find_matching_plugins selecting server.labels (some plugins) ≡ ok found
      → find_plugins_for_server selecting server (some plugins) ≡ map (request_for selecting) found
  unfolding find_matching_plugins matching_plugins find_plugins_for_server requests_for
  find_plugins_for_server_agrees server [] found h = cc
  find_plugins_for_server_agrees server (plugin ∷ plugins) found h =
      go (matches_selector selecting server.labels plugin.spec.instance_selector)
        (matching_plugins selecting server.labels plugins)
        (find_plugins_for_server_agrees server plugins) h
    where
      go :
          (o : Option Bool) (r : Result _ (List Plugin))
          → ((rest : List Plugin)
              → r ≡ ok rest
              → requests_for selecting server plugins ≡ map (request_for selecting) rest)
          → onto selecting plugin o r ≡ ok found
          → request_if selecting plugin o (requests_for selecting server plugins)
            ≡ map (request_for selecting) found
      go none r ih e = cc
      go (some b) (err f) ih e = cc
      go (some true) (ok rest) ih e = cc (e, ih rest refl)
      go (some false) (ok rest) ih e = cc (e, ih rest refl)
