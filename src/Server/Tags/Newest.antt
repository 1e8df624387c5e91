-- ===== src/Server/Tags/Newest.antt =====
-- What findLatestVersionFromTags finds is the newest of the tags.
use minecraft_operator.Server.Tags.{
  is_release, with_build, tag_parts, parse_tag, better_of, improve_tag, latest_from,
  find_latest_version_from_tags,
}
use minecraft_operator.Version
use minecraft_operator.Version.{latest, VersionError}
use minecraft_operator.Version.SemanticVersion.{
  Semver, IsSemver, newer, is_valid, newer_asymm, newer_split, newer_irrefl,
}
use minecraft_operator.Text.{atoi, cut_at, is_number, split_at}
use minecraft_operator.Prelude.{
  ℕ, Bool, true, false, not, ◌&&◌, ◌||◌, List, [], ◌∷◌, Option, none, some, if◌then◌else◌, ltb, ok,
  ◌≡◌, ◌⊎◌, refl, sym, ap, ◌∙◌, inl, inr, All, Bool-cases, arith, false≢true,
}
use minecraft_operator.Prelude.Bytes.{Bytes, ◌==◌, eq→≡}
use minecraft_operator.Prelude.Int.{pos, negsuc}

module _ {V : Type 0} (sv : Semver V) (laws : IsSemver sv) where
  -- A release and build that comes behind another in the order of the versions, and then of the builds.
  unfoldable pub is_ahead : Bytes × ℕ → Bytes × ℕ → Bool
  is_ahead x y = newer sv x.0 y.0 || (not (newer sv y.0 x.0) && ltb y.1 x.1)

  -- A tag that is no release, or one whose version is valid.
  abbrev pub IsReadable : Bytes → Type 0
  IsReadable tag = (w : Bytes) (c : ℕ) → parse_tag tag ≡ some (w, c) → is_valid sv w ≡ true

  compare_cases :
      (w v : Bytes)
      → is_valid sv w ≡ true
      → is_valid sv v ≡ true
      → (w == latest) ≡ false
      → (v == latest) ≡ false
      → ((Version.compare sv w v ≡ ok (pos 1)) × (newer sv w v ≡ true))
        ⊎ ((Version.compare sv w v ≡ ok (pos 0)) × (newer sv w v ≡ false) × (newer sv v w ≡ false))
        ⊎ ((Version.compare sv w v ≡ ok (negsuc 0))
            × (newer sv w v ≡ false)
            × (newer sv v w ≡ true))
  unfolding Version.compare newer is_valid
  compare_cases w v hw hv lw lv =
      let (a, ea) = valid_some w hw in
      let (b, eb) = valid_some v hv in
      elim (laws.compare_range a b) [
        | inl e ↦ inr (
            inr (
              rw (lw, lv, ea, eb, e) refl,
              rw (ea, eb) (greater_false a b (λ f. ground (arith, e, f))),
              rw (ea, eb) ((laws.greater_than_iff b a).1 ((laws.compare_swap b a).1 e)),
            ))
        | inr (inl e) ↦ inr (
            inl (
              rw (lw, lv, ea, eb, e) refl,
              rw (ea, eb) (greater_false a b (λ f. ground (arith, e, f))),
              rw (ea, eb) (greater_false b a (λ f. ground (arith, e, (laws.compare_swap b a).0 f))),
            ))
        | inr (inr e) ↦
            inl (rw (lw, lv, ea, eb, e) refl, rw (ea, eb) ((laws.greater_than_iff a b).1 e))
      ]
    where
      valid_some : (u : Bytes) → is_valid sv u ≡ true → (a : V) × (sv.new_version u ≡ some a)
      valid_some u h = go (sv.new_version u) refl h
        where
          go :
              (o : Option V)
              → sv.new_version u ≡ o
              → is_valid sv u ≡ true
              → (a : V) × (sv.new_version u ≡ some a)
          go none e k = ground arith
          go (some a) e k = (a, e)

      greater_false : (a b : V) → (sv.compare a b ≡ pos 1 → ⊥) → sv.greater_than a b ≡ false
      greater_false a b h = elim (Bool-cases (sv.greater_than a b)) [
        | inl e ↦ absurd (h ((laws.greater_than_iff a b).0 e))
        | inr e ↦ e
      ]

  front : (b c : Bool) → (b || c) ≡ false → b ≡ false
  front true c h = h
  front false c h = refl

  -- A version and build that `parse_tag` reads.
  abbrev IsFair : Bytes × ℕ → Type 0
  IsFair x = (is_valid sv x.0 ≡ true) × ((x.0 == latest) ≡ false)

  -- The better one is not behind the candidate, nor behind what the best so far is not behind.
  abbrev Improves : Bytes × ℕ → Bytes × ℕ → Bytes × ℕ → Type 0
  Improves candidate best new =
      IsFair new
      × (is_ahead candidate new ≡ false)
      × ((x : Bytes × ℕ) → IsFair x → is_ahead x best ≡ false → is_ahead x new ≡ false)

  better_of-Improves :
      (candidate best : Bytes × ℕ)
      → IsFair candidate
      → IsFair best
      → Improves candidate best
          (better_of sv (Version.compare sv candidate.0 best.0) candidate best)
  unfolding better_of is_ahead
  better_of-Improves candidate best fc fb =
      elim (compare_cases candidate.0 best.0 fc.0 fb.0 fc.1 fb.1) [
        | inl (e, n) ↦ rw e (newer_wins n)
        | inr (inl (e, n, m)) ↦ rw e (builds_decide n m)
        | inr (inr (e, n, m)) ↦ rw e (best_stays n m)
      ]
    where
      newer_wins : newer sv candidate.0 best.0 ≡ true → Improves candidate best candidate
      newer_wins n = (
        fc,
        ground (arith, newer_irrefl sv laws candidate.0),
        λ x fx h.
            let above : newer sv candidate.0 x.0 ≡ true =
              elim (newer_split sv laws candidate.0 x.0 best.0 n fx.0) [
                | inl e ↦ e
                | inr e ↦ absurd (false≢true (sym (front (newer sv x.0 best.0) _ h) ∙ e))
              ] in
            rw (newer_asymm sv laws candidate.0 x.0 above, above) refl,
      )

      best_stays :
          newer sv candidate.0 best.0 ≡ false
          → newer sv best.0 candidate.0 ≡ true
          → Improves candidate best best
      best_stays n m = (fb, rw (n, m) refl, λ x fx h. h)

      builds_decide :
          newer sv candidate.0 best.0 ≡ false
          → newer sv best.0 candidate.0 ≡ false
          → Improves candidate best
              (if true && ltb best.1 candidate.1 then (best.0, candidate.1) else best)
      builds_decide n m = elim (Bool-cases (ltb best.1 candidate.1)) [
        | inl e ↦ rw e (fb, ground arith, λ x fx h. ground arith)
        | inr e ↦ rw e (fb, rw (n, m) e, λ x fx h. h)
      ]

  pub release_not_latest : (w : Bytes) → is_release w ≡ true → (w == latest) ≡ false
  unfolding is_release split_at is_number
  release_not_latest w h = elim (Bool-cases (w == latest)) [
    | inl e ↦ absurd (false≢true (ap is_release (sym (eq→≡ w latest e)) ∙ h))
    | inr e ↦ e
  ]

  parse_tag-is_release : (tag w : Bytes) (c : ℕ) → parse_tag tag ≡ some (w, c) → is_release w ≡ true
  unfolding parse_tag tag_parts with_build
  parse_tag-is_release tag w c h = go (cut_at b'-' tag) h
    where
      named : (v : Bytes) (n : ℕ) → ◌≡◌ {A = Option (Bytes × ℕ)} (some (v, n)) (some (w, c)) → v ≡ w
      named v n e = cc

      read :
          (v : Bytes)
          → is_release v ≡ true
          → (o : Option ℕ) → with_build v o ≡ some (w, c)
          → is_release w ≡ true
      read v r none e = cc
      read v r (some n) e = rw (sym (named v n e)) r

      go : (o : Option (Bytes × Bytes)) → tag_parts o ≡ some (w, c) → is_release w ≡ true
      go none e = cc
      go (some (v, b)) e = elim (Bool-cases (is_release v && is_number b)) [
        | inl t ↦ read v (ground arith) (atoi b) (rw t at e)
        | inr t ↦ let g : ◌≡◌ {A = Option (Bytes × ℕ)} none (some (w, c)) = rw t at e in cc
      ]

  abbrev pub NotAhead : Bytes × ℕ → Bytes → Type 0
  NotAhead best tag = (x : Bytes × ℕ) → parse_tag tag ≡ some x → is_ahead x best ≡ false

  fair : (tag : Bytes) → IsReadable tag → (x : Bytes × ℕ) → parse_tag tag ≡ some x → IsFair x
  fair tag h x e = (h x.0 x.1 e, release_not_latest x.0 (parse_tag-is_release tag x.0 x.1 e))

  improve_tag-Improves :
      (best : Bytes × ℕ) (o : Option (Bytes × ℕ))
      → IsFair best
      → ((x : Bytes × ℕ) → o ≡ some x → IsFair x)
      → (new : Bytes × ℕ) × (improve_tag sv (some best) o ≡ some new)
        × IsFair new
        × ((x : Bytes × ℕ) → o ≡ some x → is_ahead x new ≡ false)
        × ((x : Bytes × ℕ) → IsFair x → is_ahead x best ≡ false → is_ahead x new ≡ false)
  unfolding improve_tag
  improve_tag-Improves best none f h = (best, refl, f, (λ x e. cc), λ x fx k. k)
  improve_tag-Improves best (some c) f h =
      let (g, n, k) = better_of-Improves c best (h c refl) f in
      (
        better_of sv (Version.compare sv c.0 best.0) c best,
        refl,
        g,
        (λ x e.
            let q : c ≡ x = cc in
            ap (λ y. is_ahead y (better_of sv (Version.compare sv c.0 best.0) c best)) (sym q) ∙ n),
        k,
      )

  -- The rest of the loop, from a best so far.
  latest_from-Newest :
      (best : Bytes × ℕ) (tags : List Bytes)
      → IsFair best
      → All IsReadable tags
      → (r : Bytes × ℕ) × (latest_from sv (some best) tags ≡ some r)
        × ((x : Bytes × ℕ) → IsFair x → is_ahead x best ≡ false → is_ahead x r ≡ false)
        × All (NotAhead r) tags
  unfolding latest_from
  latest_from-Newest best [] f h = (best, refl, (λ x fx k. k), tt)
  latest_from-Newest best (tag ∷ tags) f h =
      let (new, e, g, own, kept) = improve_tag-Improves best (parse_tag tag) f (fair tag h.0) in
      let (r, q, later, rest) = latest_from-Newest new tags g h.1 in
      (
        r,
        ap (λ o. latest_from sv o tags) e ∙ q,
        (λ x fx k. later x fx (kept x fx k)),
        ((λ x p. later x (fair tag h.0 x p) (own x p)), rest),
      )

  is_ahead_irrefl : (x : Bytes × ℕ) → is_ahead x x ≡ false
  unfolding is_ahead
  is_ahead_irrefl x = ground (arith, newer_irrefl sv laws x.0)

  -- Where every release among the tags is a valid version, either no tag is a release with a build, and
  -- nothing is found, or the version and build that are found have no release of the tags ahead of
  -- them, in the order of the versions and, for equal versions, of the builds.
  pub find_latest_version_from_tags_newest :
      (tags : List Bytes)
      → All IsReadable tags
      → ((find_latest_version_from_tags sv tags ≡ none) × All (λ tag. parse_tag tag ≡ none) tags)
        ⊎ ((r : Bytes × ℕ) × (find_latest_version_from_tags sv tags ≡ some r)
            × All (NotAhead r) tags)
  unfolding find_latest_version_from_tags latest_from improve_tag
  find_latest_version_from_tags_newest [] h = inl (refl, tt)
  find_latest_version_from_tags_newest (tag ∷ tags) h =
      go (parse_tag tag) refl (find_latest_version_from_tags_newest tags h.1)
    where
      go :
          (o : Option (Bytes × ℕ))
          → parse_tag tag ≡ o
          → ((latest_from sv none tags ≡ none) × All (λ tag. parse_tag tag ≡ none) tags)
            ⊎ ((r : Bytes × ℕ) × (latest_from sv none tags ≡ some r) × All (NotAhead r) tags)
          → ((latest_from sv (improve_tag sv none o) tags ≡ none)
              × ((parse_tag tag ≡ none) × All (λ tag. parse_tag tag ≡ none) tags))
            ⊎ ((r : Bytes × ℕ) × (latest_from sv (improve_tag sv none o) tags ≡ some r)
                × (NotAhead r tag × All (NotAhead r) tags))
      go none e (inl (f, a)) = inl (f, (e, a))
      go none e (inr (r, f, a)) = inr (r, f, ((λ x p. let g : none ≡ some x = sym e ∙ p in cc), a))
      go (some c) e ih =
          let (r, q, later, rest) = latest_from-Newest c tags (fair tag h.0 c e) h.1 in
          inr (
            r,
            q,
            (
              (λ x p.
                  let g : c ≡ x = cc in
                  later x (fair tag h.0 x p) (ap (λ y. is_ahead y c) (sym g) ∙ is_ahead_irrefl c)),
              rest,
            ),
          )
