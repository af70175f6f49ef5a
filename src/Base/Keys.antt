-- ===== src/Base/Keys.antt =====
-- Decidable equality of keys, as an interface.
use Prim.Native.Nat.{ℕ}
use mathlib.Core.Path.{◌≡◌, refl}
use mathlib.Core.Logic.{◌↔◌, ◌⊎◌, inl, inr}
use mathlib.Core.Bool.{Bool, true, false, ◌&&◌}
use mathlib.Core.List.{List, [], ◌∷◌}
use native.Mathlib.Omega.{arith}
use yanshi_shield.Base.Tests.{nat_beq, nat_beq_iff, Bool-cases}

-- A Boolean test and what it tests.
pub record Eq {κ} (K : Type κ) : Type κ where
  pub equal : K → K → Bool
  pub equal_iff : (j k : K) → (equal j k ≡ true) ↔ (j ≡ k)

instance abbrev pub nat_eq : Eq ℕ
nat_eq = record { equal = nat_beq; equal_iff = nat_beq_iff }

module _ {κ} {K : Type κ} ⦃eq : Eq K⦄ where
  infix 50 ◌==◌
  abbrev pub ◌==◌ : K → K → Bool
  j == k = eq.equal j k

module _ {ℓ} {A : Type ℓ} ⦃e : Eq A⦄ where
  pub beq_refl : (a : A) → (a == a) ≡ true
  beq_refl a = (e.equal_iff a a).1 refl

  -- The test decides: it passes and the values are equal, or it fails and they differ.
  pub beq-cases : (a b : A) → ((a == b) ≡ true) × (a ≡ b) ⊎ ((a == b) ≡ false) × ¬ (a ≡ b)
  beq-cases a b = elim (Bool-cases (a == b)) [
    | inl h ↦ inl (h, (e.equal_iff a b).0 h)
    | inr h ↦ inr (h, λ p. ground (arith, (e.equal_iff a b).1 p))
  ]

-- Two keys, as a named tuple of the program.
pub pair_beq_iff {ℓ κ} :
    {A : Type ℓ} {B : Type κ} ⦃e : Eq A⦄ ⦃f : Eq B⦄ (p q : A × B)
    → ((p.0 == q.0 && p.1 == q.1) ≡ true) ↔ (p ≡ q)
pair_beq_iff ⦃e⦄ ⦃f⦄ (a, b) (c, d) = ground (arith, e.equal_iff a c, f.equal_iff b d)

instance abbrev pub pair_eq {ℓ κ} : {A : Type ℓ} {B : Type κ} ⦃e : Eq A⦄ ⦃f : Eq B⦄ → Eq (A × B)
pair_eq = record { equal = λ p q. p.0 == q.0 && p.1 == q.1; equal_iff = pair_beq_iff }

-- Two lists, one name after the other
abbrev pub list_beq {κ} : {A : Type κ} ⦃e : Eq A⦄ → List A → List A → Bool
list_beq [] [] = true
list_beq (a ∷ xs) (b ∷ ys) = a == b && list_beq xs ys
list_beq _ _ = false

pub list_beq_iff {κ} :
    {A : Type κ} ⦃e : Eq A⦄ (xs ys : List A) → (list_beq xs ys ≡ true) ↔ (xs ≡ ys)
list_beq_iff [] [] = ground arith
list_beq_iff [] (b ∷ ys) = ground arith
list_beq_iff (a ∷ xs) [] = ground arith
list_beq_iff ⦃e⦄ (a ∷ xs) (b ∷ ys) = ground (arith, e.equal_iff a b, list_beq_iff xs ys)

instance abbrev pub list_eq {κ} : {A : Type κ} ⦃e : Eq A⦄ → Eq (List A)
list_eq = record { equal = list_beq; equal_iff = list_beq_iff }
