-- ===== src/Solver/Sort/Search.antt =====
-- The first element of a sorted list that passes a test is a best one of all that pass it.
use minecraft_operator.Prelude.{
  ◌∙◌, sym, false≢true, Any-perm, All-map, All-perm, Any, Bool-cases, if◌then◌else◌, All, ◌∷◌, ◌⊎◌,
  Option, ◌≡◌, List, Bool, none, some, refl, true, false, inl, inr, [],
}
use minecraft_operator.Version.SemanticVersion.{newer_irrefl, newer, IsSemver, Semver}
use minecraft_operator.Prelude.Bytes.{Bytes}
use minecraft_operator.Solver.Sort.Order.{sort_desc-IsDescending, sort_desc-perm, IsDescending}
use minecraft_operator.Solver.Sort.{sort_desc}

unfoldable pub find_first : {A : Type 0} → (A → Bool) → List A → Option A
find_first p [] = none
find_first p (x ∷ xs) = let rest = find_first p xs in if p x then some x else rest

module _ {V A : Type 0} (sv : Semver V) (laws : IsSemver sv) (key : A → Bytes) (p : A → Bool) where
  -- `x` passes the test, and no element of the list that passes it is newer.
  pub record IsBest (xs : List A) (x : A) : Type 0 where
    pub passes : p x ≡ true
    pub newest : All (λ w. p w ≡ true → newer sv (key w) (key x) ≡ false) xs
    pub member : Any (λ w. w ≡ x) xs

  find_first_sorted :
      (xs : List A)
      → IsDescending sv key xs
      → ((x : A) × (find_first p xs ≡ some x) × IsBest xs x)
        ⊎ ((find_first p xs ≡ none) × All (λ w. p w ≡ false) xs)
  unfolding find_first
  find_first_sorted [] h = inr (refl, tt)
  find_first_sorted (x ∷ xs) (below, h) = elim (Bool-cases (p x)) [
    | inl e ↦ inl (
      x,
      rw e,
      record {
        passes = e;
        newest = ((λ _. newer_irrefl sv laws (key x)), All-map (λ w n _. n) xs below);
        member = inl refl;
      },
    )
    | inr e ↦ elim (find_first_sorted xs h) [
      | inl (y, f, best) ↦ inl (
        y,
        rw e f,
        record {
          passes = best.passes;
          newest = ((λ t. absurd (false≢true (sym e ∙ t))), best.newest);
          member = inr best.member;
        },
      )
      | inr (f, none_passes) ↦ inr (rw e f, (e, none_passes))
    ]
  ]

  -- The search through the sorted list, told of the list before it was sorted.
  pub find_first-sort_desc :
      (xs : List A)
      → ((x : A) × (find_first p (sort_desc sv key xs) ≡ some x) × IsBest xs x)
        ⊎ ((find_first p (sort_desc sv key xs) ≡ none) × All (λ w. p w ≡ false) xs)
  find_first-sort_desc xs =
      let perm = sort_desc-perm sv key xs in
      elim (find_first_sorted (sort_desc sv key xs) (sort_desc-IsDescending sv key laws xs)) [
        | inl (x, f, best) ↦ inl (
          x,
          f,
          record {
            passes = best.passes;
            newest = All-perm (λ w. p w ≡ true → newer sv (key w) (key x) ≡ false) perm best.newest;
            member = Any-perm (λ w. w ≡ x) perm best.member;
          },
        )
        | inr (f, none_passes) ↦ inr (f, All-perm (λ w. p w ≡ false) perm none_passes)
      ]
