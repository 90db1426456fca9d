-- ===== src/Prelude/Maps.antt =====
-- Hash maps as association lists. Their order, which the hash decides, is that of the last insertion.
use mathlib.Core.Path.{◌≡◌, refl, subst₂}
use mathlib.Core.Logic.{◌≢◌, inl, inr}
use mathlib.Core.List.{List, [], ◌∷◌}
use mathlib.Core.Option.{Option, none, some}
use native.Mathlib.Omega.{arith}
use g_kms.Prelude.Tests.{if◌then◌else◌, unwrap_or, Bool-cases}
use g_kms.Prelude.Lists.{All}
use g_kms.Prelude.Equality.{Eq, ◌=?◌}

abbrev pub Map {ℓ κ} : Type ℓ → Type κ → Type (ℓ ⊔ κ)
Map K V = List (K × V)

abbrev pub values {ℓ κ} : {K : Type ℓ} {V : Type κ} → Map K V → List V
values [] = []
values ((k, v) ∷ m) = v ∷ values m

module _ {ℓ κ} {K : Type ℓ} {V : Type κ} ⦃e : Eq K⦄ where
  unfoldable pub lookup : K → Map K V → Option V
  lookup k [] = none
  lookup k ((j, v) ∷ m) = if j =? k then some v else lookup k m

  unfoldable pub erase : K → Map K V → Map K V
  erase k [] = []
  erase k ((j, w) ∷ m) = let rest = erase k m in if j =? k then rest else (j, w) ∷ rest

  unfoldable pub insert : K → V → Map K V → Map K V
  unfolding erase
  insert k v m = (k, v) ∷ erase k m

  -- `entry(k).or_default()`.
  abbrev pub get_or_default : V → K → Map K V → V
  get_or_default d k m = unwrap_or d (lookup k m)

  pub lookup-erase_ne : (k j : K) (m : Map K V) → k ≢ j → lookup j (erase k m) ≡ lookup j m
  unfolding lookup erase
  lookup-erase_ne k j [] h = refl
  lookup-erase_ne k j ((i, w) ∷ m) h =
      ground (arith, e.beq_iff i k, e.beq_iff i j, lookup-erase_ne k j m h)

  pub lookup-erase_self : (k : K) (m : Map K V) → lookup k (erase k m) ≡ none
  unfolding lookup erase
  lookup-erase_self k [] = refl
  lookup-erase_self k ((i, w) ∷ m) = ground (arith, lookup-erase_self k m)

  pub lookup-insert :
      (k j : K) (v : V) (m : Map K V)
      → lookup j (insert k v m) ≡ (if k =? j then some v else lookup j m)
  unfolding lookup insert
  lookup-insert k j v m = ground (arith, e.beq_iff k j, lookup-erase_ne k j m)

  pub lookup-insert_self : (k : K) (v : V) (m : Map K V) → lookup k (insert k v m) ≡ some v
  lookup-insert_self k v m = ground (arith, lookup-insert k k v m, e.beq_iff k k)

  -- What holds of every entry holds of the one that is found.
  pub All-lookup {μ} :
      (P : K → V → Type μ) (k : K) (m : Map K V) {v : V}
      → All (λ t. P t.0 t.1) m
      → lookup k m ≡ some v
      → P k v
  unfolding lookup
  All-lookup P k [] h q = cc
  All-lookup P k ((j, w) ∷ m) {v} h q = elim (Bool-cases (j =? k)) [
    | inl same ↦ subst₂ P ((e.beq_iff j k).0 same) (ground arith) h.0
    | inr other ↦ All-lookup P k m h.1 (ground arith)
  ]

  -- Erasing a key keeps a property that is only known of the other keys.
  pub All-erase {μ ν} :
      (P : K × V → Type μ) (Q : K × V → Type ν) (k : K) (m : Map K V)
      → ((j : K) (v : V) → k ≢ j → P (j, v) → Q (j, v))
      → All P m
      → All Q (erase k m)
  unfolding erase
  All-erase P Q k [] f h = tt
  All-erase P Q k ((j, w) ∷ m) f h = ground (arith, e.beq_iff j k, f j w, All-erase P Q k m f h.1)
