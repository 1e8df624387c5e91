-- ===== src/Solver/Sort.antt =====
-- `sortVersionsDesc` and `sortPaperVersionsDesc` of simple_solver.go: the same exchange sort on two
-- element types, here over the text `key` of an element.
pub mod Order
pub mod Search
use minecraft_operator.Prelude.{ℕ, zero, suc, ◌-◌, List, [], ◌∷◌, length, if◌then◌else◌}
use minecraft_operator.Prelude.Bytes.{Bytes}
use minecraft_operator.Version.SemanticVersion.{Semver, newer}

module _ {V A : Type 0} (sv : Semver V) (key : A → Bytes) where
  -- The inner loop at one `i`: `x` is `sorted[i]`, the list is `sorted[i+1:]`. A later element that is
  -- newer is exchanged with it. The result is the new `sorted[i]` and the new `sorted[i+1:]`.
  pub exchange : A → List A → A × List A
  exchange x [] = (x, [])
  exchange x (y ∷ ys) =
      let swap = newer sv (key y) (key x) in
      let (top, rest) = exchange (if swap then y else x) ys in (top, (if swap then x else y) ∷ rest)

  -- The outer loop, with the rounds that are left.
  pub sort_rounds : ℕ → List A → List A
  sort_rounds zero xs = xs
  sort_rounds (suc n) [] = []
  sort_rounds (suc n) (x ∷ xs) = let (top, rest) = exchange x xs in top ∷ sort_rounds n rest

  -- `i` runs from 0 below `len(sorted) - 1`.
  unfoldable pub sort_desc : List A → List A
  unfolding exchange sort_rounds
  sort_desc xs = sort_rounds (length xs - 1) xs
