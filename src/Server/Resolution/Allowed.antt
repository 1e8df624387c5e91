-- ===== src/Server/Resolution/Allowed.antt =====
-- A version that is resolved is allowed: no downgrade, and admitted by every plugin.
use minecraft_operator.Server.{
  check_compatibility, check_candidate, compatibility_verdict, admits, set_update_blocked,
  downgrade_verdict, check_downgrade, check_plugin_compatibility, Catalogue, SetCondition,
}
use minecraft_operator.Server.Steps.{Unmoved, Triple, Post, seq-Triple}
use minecraft_operator.Prelude.{
  ap, ◌∙◌, sym, ◌||◌, is_empty, refl, Bool-cases, All, inl, inr, Bool, true, false, List, [], ◌∷◌,
  ◌≡◌, ◌⊎◌, Result, ok, err, Option, none, some,
}
use minecraft_operator.Version.SemanticVersion.{Semver}
use minecraft_operator.Solver.{SolverError}
use minecraft_operator.Prelude.Bytes.{eq_iff, ◌==◌, Bytes}
use minecraft_operator.Clock.{Time}
use minecraft_operator.Api.{PaperMcServerStatus, Plugin}
use minecraft_operator.Version.{VersionError, is_downgrade, latest}

module _ {V : Type 0} (sv : Semver V) where
  -- The version may replace the current one, and every plugin admits it.
  abbrev pub IsAllowed : Bytes → List Plugin → Bytes → Type 0
  IsAllowed current plugins candidate =
      ((current ≡ []) ⊎ (current ≡ latest) ⊎ (is_downgrade sv current candidate ≡ ok false))
      × All (λ plugin. admits candidate plugin ≡ true) plugins

module _ {V : Type 0} (sv : Semver V) (set_condition : SetCondition) (cat : Catalogue)
    (message : SolverError → Bytes) (now : Time) where
  abbrev IsNoDowngrade : Bytes → Bytes → Type 0
  IsNoDowngrade current candidate =
      (current ≡ []) ⊎ (current ≡ latest) ⊎ (is_downgrade sv current candidate ≡ ok false)

  verdict-Post :
      (before status : PaperMcServerStatus) (candidate : Bytes) (d : Result VersionError Bool)
      → is_downgrade sv before.current_version candidate ≡ d
      → Unmoved before status
      → Post
          (λ _ after. Unmoved before after × IsNoDowngrade before.current_version candidate)
          (Unmoved before)
          (downgrade_verdict sv set_condition cat candidate d status)
  unfolding downgrade_verdict set_update_blocked
  verdict-Post before status candidate (err e) h u = u
  verdict-Post before status candidate (ok true) h u = u
  verdict-Post before status candidate (ok false) h u = (u, inr (inr h))

  unresolved :
      (current : Bytes)
      → (is_empty current || current == latest) ≡ true
      → (current ≡ []) ⊎ (current ≡ latest)
  unresolved [] h = inl refl
  unresolved (c ∷ cs) h = inr ((eq_iff (c ∷ cs) latest).0 h)

  check_downgrade-Triple :
      (before : PaperMcServerStatus) (candidate : Bytes)
      → Triple
          (Unmoved before)
          (check_downgrade sv set_condition cat candidate)
          (λ _ status. Unmoved before status × IsNoDowngrade before.current_version candidate)
          (Unmoved before)
  unfolding check_downgrade
  check_downgrade-Triple before candidate status u =
      elim (Bool-cases (is_empty status.current_version || status.current_version == latest)) [
        | inl e ↦ rw e (
          u,
          elim (unresolved status.current_version e) [
            | inl f ↦ inl (sym u.0 ∙ f)
            | inr f ↦ inr (inl (sym u.0 ∙ f))
          ],
        )
        | inr e ↦ rw e (
            verdict-Post before status candidate (is_downgrade sv status.current_version candidate)
              (ap (λ v. is_downgrade sv v candidate) (sym u.0)) u)
      ]

  admits_all :
      (candidate : Bytes) (plugins : List Plugin)
      → check_plugin_compatibility candidate plugins ≡ none
      → All (λ plugin. admits candidate plugin ≡ true) plugins
  unfolding check_plugin_compatibility
  admits_all candidate [] h = tt
  admits_all candidate (p ∷ ps) h = elim (Bool-cases (admits candidate p)) [
    | inl e ↦ (e, admits_all candidate ps (rw e at h))
    | inr e ↦ (let impossible = rw e at h in cc)
  ]

  compatibility-Post :
      (before status : PaperMcServerStatus) (candidate : Bytes) (plugins : List Plugin)
      (c : Option (Bytes × Bytes))
      → check_plugin_compatibility candidate plugins ≡ c
      → Unmoved before status
      → IsNoDowngrade before.current_version candidate
      → Post
          (λ _ after. Unmoved before after × IsAllowed sv before.current_version plugins candidate)
          (Unmoved before)
          (compatibility_verdict sv set_condition cat plugins c status)
  unfolding compatibility_verdict set_update_blocked
  compatibility-Post before status candidate plugins none h u n =
      (u, (n, admits_all candidate plugins h))
  compatibility-Post before status candidate plugins (some (name, reason)) h u n = u

  pub check_candidate-Triple :
      (before : PaperMcServerStatus) (candidate : Bytes) (plugins : List Plugin)
      → Triple
          (Unmoved before)
          (check_candidate sv set_condition cat candidate plugins)
          (λ _ status.
            Unmoved before status × IsAllowed sv before.current_version plugins candidate)
          (Unmoved before)
  unfolding check_candidate check_compatibility
  check_candidate-Triple before candidate plugins =
      seq-Triple (Unmoved before) (Unmoved before) _ _
        (λ _ status. Unmoved before status × IsNoDowngrade before.current_version candidate)
        (λ _ status. Unmoved before status × IsAllowed sv before.current_version plugins candidate)
        (check_downgrade-Triple before candidate)
        (λ _ status (u, n).
          compatibility-Post before status candidate plugins
            (check_plugin_compatibility candidate plugins) refl u n)
