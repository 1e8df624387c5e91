-- ===== src/Solver/Sort/Order.antt =====
-- The exchange sort returns a permutation in which no element is newer than one before it.
use mathlib.Core.List.{Permᴰ}
use mathlib.Core.List.Permᴰ
use minecraft_operator.Prelude.{
  length-perm, All-perm, Bool-cases, ◌+◌, ◌-◌, ◌≤◌, ◌⊎◌, All, if◌then◌else◌, length, ℕ, ◌∷◌, ◌≡◌,
  Bool, List, refl, true, false, inl, inr, zero, suc, [], arith,
}
use minecraft_operator.Version.SemanticVersion.{
  not_newer_of_newer, newer_trans, newer_asymm, newer_irrefl, newer, IsSemver, Semver,
}
use minecraft_operator.Prelude.Bytes.{Bytes}
use minecraft_operator.Solver.Sort.{exchange, sort_desc, sort_rounds}

module _ {V A : Type 0} (sv : Semver V) (key : A → Bytes) where
  abbrev pub IsDescending : List A → Type 0
  IsDescending [] = Unit
  IsDescending (x ∷ xs) = All (λ y. newer sv (key y) (key x) ≡ false) xs × IsDescending xs

  swap_perm :
      (b : Bool) (x y : A) (ys : List A)
      → Permᴰ ((if b then x else y) ∷ (if b then y else x) ∷ ys) (x ∷ y ∷ ys)
  swap_perm true x y ys = Permᴰ.refl _
  swap_perm false x y ys = Permᴰ.swap refl refl

  -- One round of the inner loop, by its test.
  exchange_swap :
      (x y : A) (ys : List A)
      → newer sv (key y) (key x) ≡ true
      → exchange sv key x (y ∷ ys) ≡ ((exchange sv key y ys).0, x ∷ (exchange sv key y ys).1)
  unfolding exchange
  exchange_swap x y ys e = rw e

  exchange_stay :
      (x y : A) (ys : List A)
      → newer sv (key y) (key x) ≡ false
      → exchange sv key x (y ∷ ys) ≡ ((exchange sv key x ys).0, y ∷ (exchange sv key x ys).1)
  unfolding exchange
  exchange_stay x y ys e = rw e

  exchange-perm :
      (x : A) (xs : List A) → Permᴰ ((exchange sv key x xs).0 ∷ (exchange sv key x xs).1) (x ∷ xs)
  unfolding exchange
  exchange-perm x [] = Permᴰ.refl _
  exchange-perm x (y ∷ ys) =
      let swap = newer sv (key y) (key x) in
      Permᴰ.trans (Permᴰ.swap refl refl) (
        Permᴰ.trans (Permᴰ.cons refl (exchange-perm (if swap then y else x) ys))
          (swap_perm swap x y ys))

  sort_rounds-perm : (n : ℕ) (xs : List A) → Permᴰ (sort_rounds sv key n xs) xs
  unfolding sort_rounds
  sort_rounds-perm zero xs = Permᴰ.refl xs
  sort_rounds-perm (suc n) [] = Permᴰ.refl []
  sort_rounds-perm (suc n) (x ∷ xs) =
      Permᴰ.trans (Permᴰ.cons refl (sort_rounds-perm n (exchange sv key x xs).1))
        (exchange-perm x xs)

  -- The sorted list is a permutation of the list given.
  pub sort_desc-perm : (xs : List A) → Permᴰ (sort_desc sv key xs) xs
  unfolding sort_desc
  sort_desc-perm xs = sort_rounds-perm (length xs - 1) xs

  module _ (laws : IsSemver sv) where
    -- The element that ends in front is the first one, or newer than it.
    exchange_top :
        (x : A) (xs : List A)
        → ((exchange sv key x xs).0 ≡ x) ⊎ (newer sv (key (exchange sv key x xs).0) (key x) ≡ true)
    unfolding exchange
    exchange_top x [] = inl refl
    exchange_top x (y ∷ ys) = elim (Bool-cases (newer sv (key y) (key x))) [
      | inl e ↦ rw e (elim (exchange_top y ys) [
        | inl f ↦ inr (rw f e)
        | inr g ↦ inr (newer_trans sv laws _ (key y) _ g e)
      ])
      | inr e ↦ rw e (exchange_top x ys)
    ]

    exchange-first : (x : A) (xs : List A) → newer sv (key x) (key (exchange sv key x xs).0) ≡ false
    exchange-first x xs = elim (exchange_top x xs) [
      | inl e ↦ rw e (newer_irrefl sv laws (key x))
      | inr g ↦ newer_asymm sv laws _ (key x) g
    ]

    -- None of the others is newer than the element in front.
    exchange-max :
        (x : A) (xs : List A)
        → All
            (λ y. newer sv (key y) (key (exchange sv key x xs).0) ≡ false)
            (exchange sv key x xs).1
    exchange-max x [] = unfold exchange in tt
    exchange-max x (y ∷ ys) = elim (Bool-cases (newer sv (key y) (key x))) [
      | inl e ↦
          rw (exchange_swap x y ys e) (below_newer x y ys e (exchange_top y ys), exchange-max y ys)
      | inr e ↦
          rw (exchange_stay x y ys e) (below_older x y ys e (exchange_top x ys), exchange-max x ys)
    ]
      where
        below_newer :
            (x y : A) (ys : List A)
            → newer sv (key y) (key x) ≡ true
            → ((exchange sv key y ys).0 ≡ y)
              ⊎ (newer sv (key (exchange sv key y ys).0) (key y) ≡ true)
            → newer sv (key x) (key (exchange sv key y ys).0) ≡ false
        below_newer x y ys e (inl f) = rw f (newer_asymm sv laws (key y) (key x) e)
        below_newer x y ys e (inr g) =
            newer_asymm sv laws _ (key x) (newer_trans sv laws _ (key y) (key x) g e)

        below_older :
            (x y : A) (ys : List A)
            → newer sv (key y) (key x) ≡ false
            → ((exchange sv key x ys).0 ≡ x)
              ⊎ (newer sv (key (exchange sv key x ys).0) (key x) ≡ true)
            → newer sv (key y) (key (exchange sv key x ys).0) ≡ false
        below_older x y ys e (inl f) = rw f e
        below_older x y ys e (inr g) = not_newer_of_newer sv laws (key y) _ (key x) g e

    sort_rounds-IsDescending :
        (n : ℕ) (xs : List A) → length xs ≤ n + 1 → IsDescending (sort_rounds sv key n xs)
    unfolding sort_rounds
    sort_rounds-IsDescending zero [] h = tt
    sort_rounds-IsDescending zero (x ∷ []) h = (tt, tt)
    sort_rounds-IsDescending zero (x ∷ y ∷ ys) h = absurd (omega arith)
    sort_rounds-IsDescending (suc n) [] h = tt
    sort_rounds-IsDescending (suc n) (x ∷ xs) h = (
      All-perm _ (Permᴰ.symm (sort_rounds-perm n (exchange sv key x xs).1)) (exchange-max x xs),
      sort_rounds-IsDescending n (exchange sv key x xs).1
          (omega (arith, length-perm (exchange-perm x xs))),
    )

    -- In the sorted list no element is newer than one that stands before it.
    pub sort_desc-IsDescending : (xs : List A) → IsDescending (sort_desc sv key xs)
    unfolding sort_desc
    sort_desc-IsDescending xs = sort_rounds-IsDescending (length xs - 1) xs (omega arith)
