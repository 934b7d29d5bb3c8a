-- ===== src/Base/Equality.antt =====
-- Python's `==` and `in`, for each type whose equality the program tests.
use Prim.Native.Nat.{ℕ}
use Prim.Native.String.{String}
use mathlib.Core.Path.{◌≡◌, refl}
use mathlib.Core.Logic.{◌↔◌}
use mathlib.Core.Bool.{Bool, true, false, ◌&&◌, ◌||◌}
use mathlib.Core.Option.{Option, none, some}
use mathlib.Core.List.{List, [], ◌∷◌}
use native.Mathlib.Omega.{arith}
use text.Mathlib.Text.{◌==◌ as str_eq}
use text.Mathlib.TextEquality.{eq_iff}
use sentinelx_cloud_core.Base.Tests.{nat_beq, nat_beq_iff}

-- A type whose `==` is decided by a test: `agrees`, true for equal values alone.
pub record PyEq {ℓ} (V : Type ℓ) : Type ℓ where
  pub agrees : V → V → Bool
  pub agrees_iff : (x y : V) → (agrees x y ≡ true) ↔ (x ≡ y)

instance abbrev pub string_eq : PyEq String
string_eq = record { agrees = str_eq; agrees_iff = λ s t. eq_iff s t }

instance abbrev pub nat_eq : PyEq ℕ
nat_eq = record { agrees = nat_beq; agrees_iff = λ m n. nat_beq_iff m n }

infix 50 ◌==◌
abbrev pub ◌==◌ {ℓ} : {V : Type ℓ} ⦃c : PyEq V⦄ → V → V → Bool
◌==◌ ⦃c⦄ x y = c.agrees x y

module _ {ℓ} {A : Type ℓ} ⦃e : PyEq A⦄ where
  -- `a in xs`
  abbrev pub contains : List A → A → Bool
  contains [] wanted = false
  contains (first ∷ more) wanted = wanted == first || contains more wanted

  abbrev pub option_beq : Option A → Option A → Bool
  option_beq none none = true
  option_beq none (some b) = false
  option_beq (some a) none = false
  option_beq (some a) (some b) = a == b

  pub option_beq_iff : (a b : Option A) → (option_beq a b ≡ true) ↔ (a ≡ b)
  option_beq_iff none none = (λ _. refl, λ _. refl)
  option_beq_iff none (some b) = (λ h. cc, λ h. cc)
  option_beq_iff (some a) none = (λ h. cc, λ h. cc)
  option_beq_iff (some a) (some b) = ground (arith, e.agrees_iff a b)

  abbrev pub list_beq : List A → List A → Bool
  list_beq [] [] = true
  list_beq [] (y ∷ ys) = false
  list_beq (x ∷ xs) [] = false
  list_beq (x ∷ xs) (y ∷ ys) = x == y && list_beq xs ys

  pub list_beq_iff : (xs ys : List A) → (list_beq xs ys ≡ true) ↔ (xs ≡ ys)
  list_beq_iff [] [] = (λ _. refl, λ _. refl)
  list_beq_iff [] (y ∷ ys) = (λ h. cc, λ h. cc)
  list_beq_iff (x ∷ xs) [] = (λ h. cc, λ h. cc)
  list_beq_iff (x ∷ xs) (y ∷ ys) = ground (arith, e.agrees_iff x y, list_beq_iff xs ys)

  instance abbrev pub option_eq : PyEq (Option A)
  option_eq = record { agrees = option_beq; agrees_iff = option_beq_iff }

  instance abbrev pub list_eq : PyEq (List A)
  list_eq = record { agrees = list_beq; agrees_iff = list_beq_iff }
