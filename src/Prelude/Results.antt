-- ===== src/Prelude/Results.antt =====
-- Rust's `Result`, with the error first, and its chains.
use mathlib.Core.Path.{◌≡◌, refl, sym, ap, ◌∙◌}
use mathlib.Core.Logic.{◌⊎◌, inl, inr}
use mathlib.Core.Bool.{Bool, true, false}
use mathlib.Core.Option.{Option, none, some}

pub data Result {ℓ κ} (E : Type ℓ) (A : Type κ) : Type (ℓ ⊔ κ) where
  ok : A → Result E A
  err : E → Result E A

abbrev pub is_ok {ℓ κ} : {E : Type ℓ} {A : Type κ} → Result E A → Bool
is_ok (ok a) = true
is_ok (err e) = false

pub Result-cases {ℓ κ} :
    {E : Type ℓ} {A : Type κ} (r : Result E A) → ((a : A) × (r ≡ ok a)) ⊎ ((e : E) × (r ≡ err e))
Result-cases (ok a) = inl (a, refl)
Result-cases (err e) = inr (e, refl)

-- `o.ok_or(e)?`.
abbrev pub ok_or {ℓ κ} : {E : Type ℓ} {A : Type κ} → Option A → E → Result E A
ok_or none e = err e
ok_or (some a) e = ok a

-- `if !b { return Err(e) }`.
abbrev pub ensure {ℓ} : {E : Type ℓ} → Bool → E → Result E (Unit {0})
ensure false failure = err failure
ensure true failure = ok tt

module _ {ℓ κ μ} {E : Type ℓ} {A : Type κ} {B : Type μ} where
  infixl 5 ◌>>=◌
  abbrev pub ◌>>=◌ : Result E A → (A → Result E B) → Result E B
  err failure >>= next = err failure
  ok value >>= next = next value

  infixl 5 ◌>>◌
  abbrev pub ◌>>◌ : Result E A → Result E B → Result E B
  first >> next = first >>= λ _. next

  -- A chain that succeeds has succeeded at its first step.
  pub >>=-eq-ok :
      (first : Result E A) (next : A → Result E B) {b : B}
      → (first >>= next) ≡ ok b
      → (a : A) × (first ≡ ok a) × (next a ≡ ok b)
  >>=-eq-ok (err failure) next h = cc
  >>=-eq-ok (ok value) next h = (value, refl, h)

-- The rest of a chain whose first step is known.
pub >>=_rest {ℓ κ μ} :
    {E : Type ℓ} {A : Type κ} {B : Type μ} (first : Result E A) (next : A → Result E B) {a : A}
    {b : B}
    → first ≡ ok a
    → (first >>= next) ≡ ok b
    → next a ≡ ok b
>>=_rest first next known h = sym (ap (λ r. r >>= next) known) ∙ h

-- `r.map_err(f)`.
abbrev pub map_err {ℓ κ μ} :
    {E : Type ℓ} {F : Type κ} {A : Type μ} → (E → F) → Result E A → Result F A
map_err f (ok a) = ok a
map_err f (err e) = err (f e)

-- The steps of a chain that has succeeded: what it required, and what it read.
module _ {ℓ κ} {E : Type ℓ} {B : Type κ} where
  pub ensure_step :
      (b : Bool) (e : E) (next : Result E B) {r : B}
      → (ensure b e >> next) ≡ ok r
      → (b ≡ true) × (next ≡ ok r)
  ensure_step false e next h = cc
  ensure_step true e next h = (refl, h)

  pub ok_or_step {μ} :
      {A : Type μ} (o : Option A) (e : E) (next : A → Result E B) {r : B}
      → (ok_or o e >>= next) ≡ ok r
      → (a : A) × (o ≡ some a) × (next a ≡ ok r)
  ok_or_step none e next h = cc
  ok_or_step (some a) e next h = (a, refl, h)

  pub map_err_step {μ ν} :
      {D : Type ν} {A : Type μ} (f : D → E) (o : Result D A) (next : A → Result E B) {r : B}
      → (map_err f o >>= next) ≡ ok r
      → (a : A) × (o ≡ ok a) × (next a ≡ ok r)
  map_err_step f (err e) next h = cc
  map_err_step f (ok a) next h = (a, refl, h)

pub map_err-eq-ok {ℓ κ μ} :
    {E : Type ℓ} {F : Type κ} {A : Type μ} (f : E → F) (r : Result E A) {a : A}
    → map_err f r ≡ ok a
    → r ≡ ok a
map_err-eq-ok f (ok a) h = cc
map_err-eq-ok f (err e) h = cc

-- The steps of a chain whose values are known.
module _ {ℓ κ} {E : Type ℓ} {B : Type κ} where
  pub >>=_known {μ} :
      {A : Type μ} (first : Result E A) (next : A → Result E B) {a : A}
      → first ≡ ok a
      → (first >>= next) ≡ next a
  >>=_known first next known = ap (λ r. r >>= next) known

  pub ok_or_known {μ} :
      {A : Type μ} (o : Option A) (e : E) (next : A → Result E B) {a : A}
      → o ≡ some a
      → (ok_or o e >>= next) ≡ next a
  ok_or_known o e next known = ap (λ o. ok_or o e >>= next) known

  pub ensure_known : (b : Bool) (e : E) (next : Result E B) → b ≡ true → (ensure b e >> next) ≡ next
  ensure_known b e next known = ap (λ b. ensure b e >> next) known

pub ensure-eq-ok {ℓ} : {E : Type ℓ} (b : Bool) (e : E) → ensure b e ≡ ok tt → b ≡ true
ensure-eq-ok false e h = cc
ensure-eq-ok true e h = refl
