-- ===== src/Base/Keys.antt =====
-- Go's `==` on the types that the program compares.
use Prim.Native.Nat.{ℕ}
use Prim.Native.String.{String}
use text.Mathlib.Text.{◌==◌ as str_eq}
use text.Mathlib.TextEquality.{eq_iff}
use mathlib.Core.Path.{◌≡◌, refl, sym}
use mathlib.Core.Logic.{◌↔◌, ◌⊎◌, inl, inr}
use mathlib.Core.Bool.{Bool, true, false}
use go_fsm.Base.Tests.{nat_beq, nat_beq_iff, Bool-cases, Bool-ext}

-- A comparable type: `==` answers whether two values are the same.
pub record Eq {ℓ} (A : Type ℓ) : Type ℓ where
  pub equals : A → A → Bool
  pub equals_iff : (x y : A) → (equals x y ≡ true) ↔ (x ≡ y)

infix 50 ◌==◌
abbrev pub ◌==◌ {ℓ} : {A : Type ℓ} ⦃e : Eq A⦄ → A → A → Bool
◌==◌ ⦃e⦄ = e.equals

instance abbrev pub string_eq : Eq String
string_eq = record { equals = str_eq; equals_iff = eq_iff }

instance abbrev pub nat_eq : Eq ℕ
nat_eq = record { equals = nat_beq; equals_iff = nat_beq_iff }

module _ {ℓ} {A : Type ℓ} ⦃e : Eq A⦄ where
  pub beq_refl : (a : A) → (a == a) ≡ true
  beq_refl a = (e.equals_iff a a).1 refl

  pub beq→eq : (a b : A) → (a == b) ≡ true → a ≡ b
  beq→eq a b = (e.equals_iff a b).0

  pub beq_comm : (a b : A) → (a == b) ≡ (b == a)
  beq_comm a b =
      Bool-ext (a == b) (b == a) (λ h. (e.equals_iff b a).1 (sym (beq→eq a b h)))
        (λ h. (e.equals_iff a b).1 (sym (beq→eq b a h)))

  pub beq_cases : (a b : A) → ((a ≡ b) × ((a == b) ≡ true)) ⊎ ((a == b) ≡ false)
  beq_cases a b = elim (Bool-cases (a == b)) [ inl h ↦ inl (beq→eq a b h, h) | inr h ↦ inr h ]
