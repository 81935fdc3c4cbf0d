-- ===== src/Base/Lists.antt =====
-- `slices.Contains`, filtering by a test, and sets kept as lists without duplicates.
use Prim.Native.Nat.{ℕ, suc}
use mathlib.Core.Path.{◌≡◌, refl, ◌∙◌, subst}
use mathlib.Core.Logic.{inl, inr}
use mathlib.Core.Bool.{Bool, true, false, ◌&&◌, ◌||◌}
use mathlib.Core.List.{List, [], ◌∷◌, ◌++◌}
use native.Mathlib.Omega.{arith}
use go_fsm.Base.Tests.{if◌then◌else◌, Bool-cases}
use go_fsm.Base.Keys.{Eq, ◌==◌, beq_refl, beq_cases, beq_comm}

-- A predicate of every element.
abbrev pub All {ℓ κ} : {A : Type ℓ} → (A → Type κ) → List A → Type κ
All P [] = Unit
All P (x ∷ xs) = P x × All P xs

abbrev pub length {ℓ} : {A : Type ℓ} → List A → ℕ
length [] = 0
length (x ∷ xs) = suc (length xs)

module _ {ℓ} {A : Type ℓ} where
  -- The elements that pass a test, in order.
  abbrev pub keep : (A → Bool) → List A → List A
  keep p [] = []
  keep p (x ∷ xs) = if p x then x ∷ keep p xs else keep p xs

  pub keep-append : (p : A → Bool) (xs ys : List A) → keep p (xs ++ ys) ≡ keep p xs ++ keep p ys
  keep-append p [] ys = refl
  keep-append p (x ∷ xs) ys = ground (arith, keep-append p xs ys)

  pub keep-keep_comm : (p q : A → Bool) (xs : List A) → keep p (keep q xs) ≡ keep q (keep p xs)
  keep-keep_comm p q [] = refl
  keep-keep_comm p q (x ∷ xs) = ground (arith, keep-keep_comm p q xs)

  pub keep-keep : (p q : A → Bool) (xs : List A) → keep p (keep q xs) ≡ keep (λ x. p x && q x) xs
  keep-keep p q [] = refl
  keep-keep p q (x ∷ xs) = ground (arith, keep-keep p q xs)

  -- Two tests that agree on every element keep the same elements.
  pub keep-congr : (p q : A → Bool) (xs : List A) → All (λ x. p x ≡ q x) xs → keep p xs ≡ keep q xs
  keep-congr p q [] h = refl
  keep-congr p q (x ∷ xs) h = ground (arith, keep-congr p q xs h.1)

  pub All_of_all {κ} : (P : A → Type κ) → ((x : A) → P x) → (xs : List A) → All P xs
  All_of_all P h [] = tt
  All_of_all P h (x ∷ xs) = (h x, All_of_all P h xs)

  pub keep_all : (p : A → Bool) (xs : List A) → All (λ x. p x ≡ true) xs → keep p xs ≡ xs
  keep_all p [] h = refl
  keep_all p (x ∷ xs) h = ground (arith, keep_all p xs h.1)

  pub All-keep {κ} : (P : A → Type κ) (p : A → Bool) (xs : List A) → All P xs → All P (keep p xs)
  All-keep P p [] h = tt
  All-keep P p (x ∷ xs) h = elim (Bool-cases (p x)) [
    | inl e ↦ rw e (h.0, All-keep P p xs h.1)
    | inr e ↦ rw e (All-keep P p xs h.1)
  ]

  pub All-append {κ} : (P : A → Type κ) (xs ys : List A) → All P xs → All P ys → All P (xs ++ ys)
  All-append P [] ys h k = k
  All-append P (x ∷ xs) ys h k = (h.0, All-append P xs ys h.1 k)

  pub nil_of_append : (xs ys : List A) → xs ++ ys ≡ [] → (xs ≡ []) × (ys ≡ [])
  nil_of_append [] ys h = (refl, h)
  nil_of_append (x ∷ xs) ys h = absurd (cc)

  pub All-map {κ μ} :
      {P : A → Type κ} {Q : A → Type μ} (f : (x : A) → P x → Q x) (xs : List A)
      → All P xs
      → All Q xs
  All-map f [] h = tt
  All-map f (x ∷ xs) h = (f x h.0, All-map f xs h.1)

module _ {ℓ} {A : Type ℓ} ⦃e : Eq A⦄ where
  -- `slices.Contains`
  unfoldable pub contains : List A → A → Bool
  contains [] a = false
  contains (x ∷ xs) a = x == a || contains xs a

  pub contains-append :
      (xs ys : List A) (a : A) → contains (xs ++ ys) a ≡ (contains xs a || contains ys a)
  unfolding contains
  contains-append [] ys a = refl
  contains-append (x ∷ xs) ys a = ground (arith, contains-append xs ys a)

  -- What holds of every element holds of one that is contained.
  pub All-at {κ} : (P : A → Type κ) (xs : List A) (a : A) → All P xs → contains xs a ≡ true → P a
  unfolding contains
  All-at P [] a h c = absurd (cc)
  All-at P (x ∷ xs) a h c = elim (beq_cases x a) [
    | inl (q, _) ↦ subst P q h.0
    | inr n ↦ All-at P xs a h.1 (ground arith)
  ]

  pub All_of_contains {κ} :
      (P : A → Type κ) (xs : List A) → ((a : A) → contains xs a ≡ true → P a) → All P xs
  unfolding contains
  All_of_contains P [] h = tt
  All_of_contains P (x ∷ xs) h =
      (h x (ground (arith, beq_refl x)), All_of_contains P xs (λ a k. h a (ground arith)))

  pub nil_of_contains : (xs : List A) → ((a : A) → contains xs a ≡ false) → xs ≡ []
  unfolding contains
  nil_of_contains [] h = refl
  nil_of_contains (x ∷ xs) h = absurd (ground (arith, h x, beq_refl x))

  pub contains-keep :
      (p : A → Bool) (xs : List A) (a : A) → contains (keep p xs) a ≡ (p a && contains xs a)
  unfolding contains
  contains-keep p [] a = ground arith
  contains-keep p (x ∷ xs) a = elim (beq_cases x a) [
    | inl (q, h) ↦ rw q (ground (arith, contains-keep p xs a, beq_refl a))
    | inr n ↦ ground (arith, contains-keep p xs a)
  ]

  -- No element stands twice.
  abbrev pub IsUnique : List A → Type 0
  IsUnique [] = Unit
  IsUnique (x ∷ xs) = (contains xs x ≡ false) × IsUnique xs

  -- `set[a] = struct{}{}` on a `map[A]struct{}`
  unfoldable pub set_add : List A → A → List A
  set_add s a = if contains s a then s else s ++ a ∷ []

  pub contains-set_add :
      (s : List A) (a b : A) → contains (set_add s a) b ≡ (contains s b || a == b)
  unfolding set_add
  contains-set_add s a b = elim (Bool-cases (contains s a)) [
    | inl h ↦ rw h (elim (beq_cases a b) [
      | inl (q, k) ↦ rw k (ground (arith, subst (λ x. contains s x ≡ true) q h))
      | inr n ↦ ground arith
    ])
    | inr h ↦ rw h (rw contains-append (unfold contains in ground arith))
  ]

  pub IsUnique-snoc :
      (s : List A) (a : A) → IsUnique s → contains s a ≡ false → IsUnique (s ++ a ∷ [])
  unfolding contains
  IsUnique-snoc [] a u h = (refl, tt)
  IsUnique-snoc (x ∷ s) a u h = (
    contains-append s (a ∷ []) x ∙ ground (arith, beq_comm a x),
    IsUnique-snoc s a u.1 (ground arith),
  )

  pub set_add-IsUnique : (s : List A) (a : A) → IsUnique s → IsUnique (set_add s a)
  unfolding set_add
  set_add-IsUnique s a u = elim (Bool-cases (contains s a)) [
    | inl h ↦ rw h u
    | inr h ↦ rw h (IsUnique-snoc s a u h)
  ]
