-- ===== src/Base/Maps.antt =====
-- Go's `map` as an association list. The list's order stands for one order of iteration.
use mathlib.Core.Path.{◌≡◌, ◌∙◌, refl, ap, subst}
use mathlib.Core.Logic.{inl, inr}
use mathlib.Core.Bool.{Bool, true, false}
use mathlib.Core.Option.{Option, none, some}
use mathlib.Core.List.{List, [], ◌∷◌}
use native.Mathlib.Omega.{arith}
use go_fsm.Base.Tests.{if◌then◌else◌, Bool-cases}
use go_fsm.Base.Keys.{Eq, ◌==◌, beq_refl, beq_cases, beq_comm}
use go_fsm.Base.Lists.{contains, IsUnique}

abbrev pub Map {ℓ κ} : Type ℓ → Type κ → Type (ℓ ⊔ κ)
Map K V = List (K × V)

abbrev pub is_some {ℓ} : {A : Type ℓ} → Option A → Bool
is_some none = false
is_some (some _) = true

module _ {ℓ κ} {K : Type ℓ} {V : Type κ} where
  abbrev pub keys : Map K V → List K
  keys [] = []
  keys ((k, v) ∷ m) = k ∷ keys m

  -- `for k := range m { m[k] = f(m[k]) }`
  abbrev pub map_values : (V → V) → Map K V → Map K V
  map_values f [] = []
  map_values f ((k, v) ∷ m) = (k, f v) ∷ map_values f m

module _ {ℓ κ} {K : Type ℓ} {V : Type κ} ⦃e : Eq K⦄ where
  -- `v, ok := m[k]`
  unfoldable pub lookup : K → Map K V → Option V
  lookup k [] = none
  lookup k ((j, v) ∷ rest) = if j == k then some v else lookup k rest

  abbrev pub has_key : K → Map K V → Bool
  has_key k m = is_some (lookup k m)

  -- `m[k] = v`
  unfoldable pub insert : K → V → Map K V → Map K V
  insert k v [] = (k, v) ∷ []
  insert k v ((j, w) ∷ rest) = if j == k then (k, v) ∷ rest else (j, w) ∷ insert k v rest

  -- `delete(m, k)`
  unfoldable pub erase : K → Map K V → Map K V
  erase k [] = []
  erase k ((j, w) ∷ m) = if j == k then erase k m else (j, w) ∷ erase k m

  pub lookup-insert :
      (k j : K) (v : V) (map : Map K V)
      → lookup j (insert k v map) ≡ (if k == j then some v else lookup j map)
  unfolding insert lookup
  lookup-insert k j v [] = refl
  lookup-insert k j v ((i, w) ∷ m) = elim (beq_cases i k) [
    | inl (q, h) ↦ rw h (rw q (ground arith))
    | inr n ↦ rw n (elim (beq_cases i j) [
      | inl (q, h) ↦ rw (← q) (ground (arith, beq_refl i, beq_comm k i))
      | inr o ↦ rw o (lookup-insert k j v m)
    ])
  ]

  pub lookup-erase :
      (k j : K) (m : Map K V) → lookup j (erase k m) ≡ (if k == j then none else lookup j m)
  unfolding lookup erase
  lookup-erase k j [] = ground arith
  lookup-erase k j ((i, w) ∷ m) = elim (beq_cases i k) [
    | inl (q, h) ↦ rw h (rw q (ground (arith, lookup-erase k j m)))
    | inr n ↦ rw n (elim (beq_cases i j) [
      | inl (q, h) ↦ rw (← q) (ground (arith, beq_refl i, beq_comm k i))
      | inr o ↦ rw o (lookup-erase k j m)
    ])
  ]

  pub contains-keys : (m : Map K V) (k : K) → contains (keys m) k ≡ has_key k m
  unfolding lookup contains
  contains-keys [] k = refl
  contains-keys ((j, v) ∷ m) k = ground (arith, contains-keys m k)

  -- `m[k]`, the zero value `d` where the key is missing
  unfoldable pub get_or : V → K → Map K V → V
  get_or d k m = elim (lookup k m) [ none ↦ d | some v ↦ v ]

  pub get_or-insert :
      (d : V) (k j : K) (v : V) (m : Map K V)
      → get_or d j (insert k v m) ≡ (if k == j then v else get_or d j m)
  unfolding get_or
  get_or-insert d k j v m = rw (lookup-insert, get_or) (ground arith)

  pub get_or_missing : (d : V) (k : K) (m : Map K V) → has_key k m ≡ false → get_or d k m ≡ d
  unfolding get_or
  get_or_missing d k m h = ground arith

  lookup-map_values :
      (f : V → V) (k : K) (m : Map K V)
      → lookup k (map_values f m) ≡ elim (lookup k m) [ none ↦ none | some v ↦ some (f v) ]
  unfolding lookup
  lookup-map_values f k [] = refl
  lookup-map_values f k ((j, v) ∷ m) = ground (arith, lookup-map_values f k m)

  pub get_or-map_values :
      (f : V → V) (d : V) (k : K) (m : Map K V)
      → f d ≡ d
      → get_or d k (map_values f m) ≡ f (get_or d k m)
  unfolding get_or
  get_or-map_values f d k m h = rw (lookup-map_values f k m, get_or) (ground arith)

  pub insert-IsUnique :
      (k : K) (v : V) (m : Map K V) → IsUnique (keys m) → IsUnique (keys (insert k v m))
  unfolding insert
  insert-IsUnique k v [] u = (unfold contains in refl, tt)
  insert-IsUnique k v ((j, w) ∷ m) u = elim (beq_cases j k) [
    | inl (q, h) ↦ rw h (subst (λ i. contains (keys m) i ≡ false) q u.0, u.1)
    | inr n ↦ rw n (
      contains-keys (insert k v m) j
          ∙ ap is_some (lookup-insert k j v m)
          ∙ ground (arith, beq_comm k j, contains-keys m j, u.0),
      insert-IsUnique k v m u.1,
    )
  ]

  pub erase-IsUnique : (k : K) (m : Map K V) → IsUnique (keys m) → IsUnique (keys (erase k m))
  unfolding erase
  erase-IsUnique k [] u = tt
  erase-IsUnique k ((j, w) ∷ m) u = elim (Bool-cases (j == k)) [
    | inl h ↦ rw h (erase-IsUnique k m u.1)
    | inr n ↦ rw n (
      contains-keys (erase k m) j
          ∙ ap is_some (lookup-erase k j m)
          ∙ ground (arith, beq_comm k j, contains-keys m j, u.0),
      erase-IsUnique k m u.1,
    )
  ]
