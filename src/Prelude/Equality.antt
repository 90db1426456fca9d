-- ===== src/Prelude/Equality.antt =====
-- Types whose equality is decided by a Boolean test: numbers, byte strings and pairs.
use Prim.Native.Nat.{ℕ}
use mathlib.Core.Path.{◌≡◌, refl}
use mathlib.Core.Logic.{◌↔◌}
use mathlib.Core.Bool.{Bool, true, false, ◌&&◌}
use mathlib.Core.List.{List, [], ◌∷◌}
use native.Mathlib.Omega.{arith}
use g_kms.Prelude.Tests.{◌==◌, ==_iff}

pub record Eq {κ} (K : Type κ) : Type κ where
  pub beq : K → K → Bool
  pub beq_iff : (j k : K) → (beq j k ≡ true) ↔ (j ≡ k)

infix 50 ◌=?◌
abbrev pub ◌=?◌ {ℓ} : {A : Type ℓ} ⦃e : Eq A⦄ → A → A → Bool
◌=?◌ ⦃e⦄ = e.beq

instance abbrev pub nat_eq : Eq ℕ
nat_eq = record { beq = ◌==◌; beq_iff = ==_iff }

pub =?-refl {ℓ} : {A : Type ℓ} ⦃e : Eq A⦄ (a : A) → (a =? a) ≡ true
=?-refl ⦃e⦄ a = (e.beq_iff a a).1 refl

-- Strings are their UTF-8 bytes, as they are compared and hashed.
abbrev pub Bytes : Type 0
Bytes = List ℕ

abbrev pub beq_bytes : Bytes → Bytes → Bool
beq_bytes [] [] = true
beq_bytes [] (y ∷ ys) = false
beq_bytes (x ∷ xs) [] = false
beq_bytes (x ∷ xs) (y ∷ ys) = x == y && beq_bytes xs ys

pub beq_bytes_iff : (xs ys : Bytes) → (beq_bytes xs ys ≡ true) ↔ (xs ≡ ys)
beq_bytes_iff [] [] = ground arith
beq_bytes_iff [] (y ∷ ys) = ground arith
beq_bytes_iff (x ∷ xs) [] = ground arith
beq_bytes_iff (x ∷ xs) (y ∷ ys) = ground (arith, beq_bytes_iff xs ys)

instance abbrev pub bytes_eq : Eq Bytes
bytes_eq = record { beq = beq_bytes; beq_iff = beq_bytes_iff }
