-- ===== src/Server/Equality/Unchanged.antt =====
-- What a status that counts as unchanged has kept.
use minecraft_operator.Server.Equality.{
  last_of, is_same_as, all_found, same_slice, conditions_equal, same_condition, same_plugin_status,
  plugin_status_slice_equal, server_status_equal,
}
use minecraft_operator.Server.PluginVersions.{status_key}
use minecraft_operator.Effects.{is_some}
use minecraft_operator.Api.{PaperMcServerStatus}
use minecraft_operator.Prelude.{
  eqb, eqb_iff, Bool, true, List, [], ◌∷◌, Option, none, some, if◌then◌else◌, length, All, Any, ◌≡◌,
  refl, sym, ap, ◌∙◌, inl, inr, Bool-cases, arith, false≢true,
}
use minecraft_operator.Prelude.Bytes.{Bytes, ◌==◌, eq→≡}

module _ {A : Type 0} (key : A → Bytes) (same : A → A → Bool) where
  -- An element of the first list that has the key and is the same as the second's.
  abbrev pub IsFound : List A → A → Type 0
  IsFound a x = Any (λ y. (key y ≡ key x) × (same y x ≡ true)) a

  last_of_sound :
      (k : Bytes) (xs : List A) (y : A)
      → last_of key k xs ≡ some y
      → Any (λ z. (z ≡ y) × (key z ≡ k)) xs
  unfolding last_of
  last_of_sound k [] y h = cc
  last_of_sound k (x ∷ xs) y h = go (last_of key k xs) (last_of_sound k xs y) h
    where
      go :
          (o : Option A)
          → (o ≡ some y → Any (λ z. (z ≡ y) × (key z ≡ k)) xs)
          → (if is_some o then o else if key x == k then some x else none) ≡ some y
          → Any (λ z. (z ≡ y) × (key z ≡ k)) (x ∷ xs)
      go (some z) later e = inr (later e)
      go none later e = elim (Bool-cases (key x == k)) [
        | inl t ↦ inl (named (rw t at e), eq→≡ (key x) k t)
        | inr t ↦ let g : ◌≡◌ {A = Option A} none (some y) = rw t at e in cc
      ]
        where
          named : some x ≡ some y → x ≡ y
          named g = cc

  Any-IsFound :
      (k : Bytes) (x y : A) (xs : List A)
      → key x ≡ k
      → same y x ≡ true
      → Any (λ z. (z ≡ y) × (key z ≡ k)) xs
      → IsFound xs x
  Any-IsFound k x y [] e s h = elim h [ ]
  Any-IsFound k x y (z ∷ zs) e s (inl (p, q)) = inl (q ∙ sym e, ap (λ u. same u x) p ∙ s)
  Any-IsFound k x y (z ∷ zs) e s (inr h) = inr (Any-IsFound k x y zs e s h)

  is_same_as-IsFound :
      (a : List A) (x : A) → is_same_as same x (last_of key (key x) a) ≡ true → IsFound a x
  unfolding is_same_as
  is_same_as-IsFound a x h = go (last_of key (key x) a) refl h
    where
      go : (o : Option A) → last_of key (key x) a ≡ o → is_same_as same x o ≡ true → IsFound a x
      go none e s = absurd (false≢true s)
      go (some y) e s = Any-IsFound (key x) x y a refl s (last_of_sound (key x) a y e)

  all_found-IsFound : (a b : List A) → all_found key same a b ≡ true → All (IsFound a) b
  unfolding all_found
  all_found-IsFound a [] h = tt
  all_found-IsFound a (x ∷ xs) h =
      (is_same_as-IsFound a x (ground arith), all_found-IsFound a xs (ground arith))

  same_slice-IsFound :
      (a b : List A) → same_slice key same a b ≡ true → (length a ≡ length b) × All (IsFound a) b
  unfolding same_slice
  same_slice-IsFound a b h = elim (Bool-cases (eqb (length a) (length b))) [
    | inl e ↦ ((eqb_iff (length a) (length b)).0 e, all_found-IsFound a b (rw e at h))
    | inr e ↦ absurd (false≢true (rw e at h))
  ]

-- A status that counts as unchanged has kept the current and the desired version and build; its plugins and
-- its conditions are as many as before, and each has one of its key among those before that is the same
-- in every field that is compared.
pub server_status_equal_sound :
    (a b : PaperMcServerStatus)
    → server_status_equal a b ≡ true
    → (a.current_version ≡ b.current_version)
      × (a.current_build ≡ b.current_build)
      × (a.desired_version ≡ b.desired_version)
      × (a.desired_build ≡ b.desired_build)
      × (length a.plugins ≡ length b.plugins)
      × All (IsFound (λ p. status_key p.plugin_ref) same_plugin_status a.plugins) b.plugins
      × (length a.conditions ≡ length b.conditions)
      × All (IsFound (λ c. c.kind) same_condition a.conditions) b.conditions
unfolding server_status_equal plugin_status_slice_equal conditions_equal
server_status_equal_sound a b h =
    let plugins =
      same_slice-IsFound (λ p. status_key p.plugin_ref) same_plugin_status a.plugins b.plugins
        (ground arith) in
    let conditions =
      same_slice-IsFound (λ c. c.kind) same_condition a.conditions b.conditions (ground arith) in
    (
      eq→≡ _ _ (ground arith),
      (eqb_iff _ _).0 (ground arith),
      eq→≡ _ _ (ground arith),
      (eqb_iff _ _).0 (ground arith),
      plugins.0,
      plugins.1,
      conditions.0,
      conditions.1,
    )
