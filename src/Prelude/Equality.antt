-- ===== src/Prelude/Equality.antt =====
-- Boolean equality as an interface, with instances for numbers, integers and texts.
use Prim.Native.Nat.{ℕ}
use Prim.Native.String.{String}
use mathlib.Core.Path.{◌≡◌}
use mathlib.Core.Logic.{◌↔◌}
use mathlib.Core.Bool.{Bool, true, false, ◌&&◌}
use mathlib.Core.Path.{refl, ap}
use mathlib.Core.List.{List, [], ◌∷◌}
use native.Mathlib.Omega.{arith}
use text.Mathlib.Text.{◌==◌ as str_beq}
use text.Mathlib.TextEquality.{eq_iff}
use netvantage.Prelude.Tests.{nat_beq, nat_beq_iff}
use netvantage.Prelude.Int.{ℤ, int_beq, int_beq_iff}

pub record Eq {ℓ} (A : Type ℓ) : Type ℓ where
  pub beq : A → A → Bool
  pub beq_iff : (x y : A) → (beq x y ≡ true) ↔ (x ≡ y)

instance abbrev pub int_eq : Eq ℤ
int_eq = record { beq = int_beq; beq_iff = int_beq_iff }

instance abbrev pub string_eq : Eq String
string_eq = record { beq = str_beq; beq_iff = eq_iff }

infix 50 ◌==◌
abbrev pub ◌==◌ {ℓ} : {A : Type ℓ} ⦃known : Eq A⦄ → A → A → Bool
◌==◌ ⦃known⦄ x y = known.beq x y

instance abbrev pub nat_eq : Eq ℕ
nat_eq = record { beq = nat_beq; beq_iff = nat_beq_iff }

module _ {ℓ} {A : Type ℓ} ⦃known : Eq A⦄ where
  abbrev pub list_beq : List A → List A → Bool
  list_beq [] [] = true
  list_beq [] (y ∷ ys) = false
  list_beq (x ∷ xs) [] = false
  list_beq (x ∷ xs) (y ∷ ys) = x == y && list_beq xs ys

  pub list_beq_iff : (xs ys : List A) → (list_beq xs ys ≡ true) ↔ (xs ≡ ys)
  list_beq_iff [] [] = (λ e. refl, λ e. refl)
  list_beq_iff [] (y ∷ ys) = (λ e. cc, λ e. cc)
  list_beq_iff (x ∷ xs) [] = (λ e. cc, λ e. cc)
  list_beq_iff (x ∷ xs) (y ∷ ys) = ground (arith, known.beq_iff x y, list_beq_iff xs ys)

  instance abbrev pub list_eq : Eq (List A)
  list_eq = record { beq = list_beq; beq_iff = list_beq_iff }

-- A test is kept by an injective function.
pub beq-injective {ℓ κ} :
    {A : Type ℓ} {B : Type κ} ⦃eq_a : Eq A⦄ ⦃eq_b : Eq B⦄ (f : A → B)
    → ((x y : A) → f x ≡ f y → x ≡ y)
    → (x y : A) → eq_b.beq (f x) (f y) ≡ eq_a.beq x y
beq-injective ⦃eq_a⦄ ⦃eq_b⦄ f injective x y =
    ground (arith, eq_b.beq_iff (f x) (f y), eq_a.beq_iff x y, injective x y, ap f)
