-- ===== src/Base/Sort.antt =====
-- `slices.Sort` and `slices.SortFunc`, as insertion sort by a Boolean order.
use mathlib.Core.Path.{◌≡◌, refl, ◌∙◌, ap}
use mathlib.Core.Logic.{◌≢◌, inl, inr}
use mathlib.Core.Bool.{Bool, true, false, ◌||◌, ◌&&◌}
use mathlib.Core.List.{List, [], ◌∷◌, ◌++◌}
use native.Mathlib.Omega.{arith}
use go_fsm.Base.Tests.{if◌then◌else◌, Bool-cases}
use go_fsm.Base.Keys.{Eq, ◌==◌, beq_comm}
use go_fsm.Base.Lists.{contains, All, All-map, All-keep, All-append, IsUnique, keep}

-- An order that sorting may use.
pub record IsTotalOrder {ℓ} {A : Type ℓ} (le : A → A → Bool) : Type ℓ where
  pub total : (x y : A) → le x y ≡ false → le y x ≡ true
  pub trans : (x y z : A) → le x y ≡ true → le y z ≡ true → le x z ≡ true

module _ {ℓ} {A : Type ℓ} (le : A → A → Bool) where
  unfoldable pub insert_sorted : A → List A → List A
  insert_sorted a [] = a ∷ []
  insert_sorted a (x ∷ xs) = if le a x then a ∷ x ∷ xs else x ∷ insert_sorted a xs

  unfoldable pub sort : List A → List A
  unfolding insert_sorted
  sort [] = []
  sort (x ∷ xs) = insert_sorted x (sort xs)

  -- Each element is at most every later one.
  abbrev pub IsSorted : List A → Type 0
  IsSorted [] = Unit
  IsSorted (x ∷ xs) = All (λ y. le x y ≡ true) xs × IsSorted xs

  All-insert_sorted {κ} :
      (P : A → Type κ) (a : A) (xs : List A) → P a → All P xs → All P (insert_sorted a xs)
  unfolding insert_sorted
  All-insert_sorted P a [] h k = (h, tt)
  All-insert_sorted P a (x ∷ xs) h k = elim (Bool-cases (le a x)) [
    | inl e ↦ rw e (h, k)
    | inr e ↦ rw e (k.0, All-insert_sorted P a xs h k.1)
  ]

  pub All-sort {κ} : (P : A → Type κ) (xs : List A) → All P xs → All P (sort xs)
  unfolding sort
  All-sort P [] h = tt
  All-sort P (x ∷ xs) h = All-insert_sorted P x (sort xs) h.0 (All-sort P xs h.1)

  insert_sorted-IsSorted :
      (o : IsTotalOrder le) (a : A) (xs : List A) → IsSorted xs → IsSorted (insert_sorted a xs)
  unfolding insert_sorted
  insert_sorted-IsSorted o a [] s = (tt, tt)
  insert_sorted-IsSorted o a (x ∷ xs) s = elim (Bool-cases (le a x)) [
    | inl e ↦ rw e ((e, All-map (λ y h. o.trans a x y e h) xs s.0), s)
    | inr e ↦ rw e (
      All-insert_sorted (λ y. le x y ≡ true) a xs (o.total a x e) s.0,
      insert_sorted-IsSorted o a xs s.1,
    )
  ]

  pub sort-IsSorted : IsTotalOrder le → (xs : List A) → IsSorted (sort xs)
  unfolding sort
  sort-IsSorted o [] = tt
  sort-IsSorted o (x ∷ xs) = insert_sorted-IsSorted o x (sort xs) (sort-IsSorted o xs)

  pub nil_of_sort : (xs : List A) → sort xs ≡ [] → xs ≡ []
  unfolding sort insert_sorted
  nil_of_sort [] h = refl
  nil_of_sort (x ∷ xs) h = absurd (not_nil (sort xs) h)
    where
      not_nil : (ys : List A) → insert_sorted x ys ≢ []
      not_nil [] q = cc
      not_nil (y ∷ ys) q = ground arith

  -- An element that is below all others goes first.
  pub insert_sorted_least :
      (a : A) (xs : List A) → All (λ y. le a y ≡ true) xs → insert_sorted a xs ≡ a ∷ xs
  unfolding insert_sorted
  insert_sorted_least a [] h = refl
  insert_sorted_least a (x ∷ xs) h = rw h.0

-- `x` comes strictly before `y`.
abbrev pub Before {ℓ} : {A : Type ℓ} → (A → A → Bool) → A → A → Type 0
Before le x y = (le x y ≡ true) × (le y x ≡ false)

-- Strictly ascending.
abbrev pub IsAscending {ℓ} : {A : Type ℓ} → (A → A → Bool) → List A → Type 0
IsAscending le [] = Unit
IsAscending le (x ∷ xs) = All (Before le x) xs × IsAscending le xs

module _ {ℓ} {A : Type ℓ} (le : A → A → Bool) where
  sort_least :
      (x : A) (ps qs : List A)
      → All (Before le x) ps
      → All (Before le x) qs
      → sort le (ps ++ x ∷ qs) ≡ x ∷ sort le (ps ++ qs)
  unfolding sort
  sort_least x [] qs hp hq =
      insert_sorted_least le x (sort le qs)
        (All-map (λ y h. h.0) (sort le qs) (All-sort le (Before le x) qs hq))
  sort_least x (p ∷ ps) qs hp hq =
      rw (sort_least x ps qs hp.1 hq) (unfold insert_sorted in rw hp.0.1)

  -- Two disjoint parts of an ascending list, sorted together, are the list that both keep.
  pub sort-keep :
      (p q : A → Bool) (xs : List A)
      → ((x : A) → (p x && q x) ≡ false)
      → IsAscending le xs
      → sort le (keep p xs ++ keep q xs) ≡ keep (λ x. p x || q x) xs
  unfolding sort
  sort-keep p q [] apart s = refl
  sort-keep p q (x ∷ xs) apart s =
      let ps = All-keep (Before le x) p xs s.0 in
      let qs = All-keep (Before le x) q xs s.0 in
      let rest = ap (λ l. x ∷ l) (sort-keep p q xs apart s.1) in
      elim (Bool-cases (p x)) [
        | inl hp ↦
            let hq : q x ≡ false = ground (arith, apart x) in
            rw (hp, hq)
              (sort_least x [] (keep p xs ++ keep q xs) tt
                  (All-append (Before le x) (keep p xs) (keep q xs) ps qs)
                ∙ rest)
        | inr hp ↦ elim (Bool-cases (q x)) [
          | inl hq ↦ rw (hp, hq) (sort_least x (keep p xs) (keep q xs) ps qs ∙ rest)
          | inr hq ↦ rw (hp, hq) (sort-keep p q xs apart s.1)
        ]
      ]

module _ {ℓ} {A : Type ℓ} ⦃e : Eq A⦄ (le : A → A → Bool) where
  contains-insert_sorted :
      (a : A) (xs : List A) (b : A) → contains (insert_sorted le a xs) b ≡ (a == b || contains xs b)
  unfolding insert_sorted contains
  contains-insert_sorted a [] b = refl
  contains-insert_sorted a (x ∷ xs) b = ground (arith, contains-insert_sorted a xs b)

  pub contains-sort : (xs : List A) (b : A) → contains (sort le xs) b ≡ contains xs b
  unfolding sort contains
  contains-sort [] b = refl
  contains-sort (x ∷ xs) b =
      contains-insert_sorted x (sort le xs) b ∙ ap (λ t. x == b || t) (contains-sort xs b)

  insert_sorted-IsUnique :
      (a : A) (xs : List A) → contains xs a ≡ false → IsUnique xs → IsUnique (insert_sorted le a xs)
  unfolding insert_sorted contains
  insert_sorted-IsUnique a [] h u = (refl, tt)
  insert_sorted-IsUnique a (x ∷ xs) h u = elim (Bool-cases (le a x)) [
    | inl q ↦ rw q (h, u)
    | inr q ↦ rw q (
      contains-insert_sorted a xs x ∙ ground (arith, beq_comm a x),
      insert_sorted-IsUnique a xs (ground arith) u.1,
    )
  ]

  pub sort-IsUnique : (xs : List A) → IsUnique xs → IsUnique (sort le xs)
  unfolding sort
  sort-IsUnique [] u = tt
  sort-IsUnique (x ∷ xs) u =
      insert_sorted-IsUnique x (sort le xs) (contains-sort xs x ∙ u.0) (sort-IsUnique xs u.1)
