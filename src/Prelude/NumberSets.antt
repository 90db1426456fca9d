-- ===== src/Prelude/NumberSets.antt =====
-- Lists of numbers as sets: membership, distinctness, counting and sorting.
use mathlib.Core.Path.{◌≡◌, refl}
use mathlib.Core.Bool.{Bool, true, false, ◌||◌}
use mathlib.Core.List.{List, [], ◌∷◌, ◌++◌}
use Prim.Native.Nat.{ℕ, suc, ◌≤◌, ◌<◌}
use native.Mathlib.Omega.{arith}
use g_kms.Prelude.Tests.{◌==◌, leb, if◌then◌else◌}
use g_kms.Prelude.Lists.{length, All}

-- `xs.contains(&x)`.
abbrev pub mem : ℕ → List ℕ → Bool
mem x [] = false
mem x (y ∷ ys) = y == x || mem x ys

abbrev pub Distinct : List ℕ → Type 0
Distinct [] = Unit
Distinct (x ∷ xs) = (mem x xs ≡ false) × Distinct xs

-- Every element of the first list is in the second.
abbrev pub Subset : List ℕ → List ℕ → Type 0
Subset xs ys = All (λ x. mem x ys ≡ true) xs

abbrev remove : ℕ → List ℕ → List ℕ
remove x [] = []
remove x (y ∷ ys) = let rest = remove x ys in if y == x then ys else y ∷ rest

length-remove : (x : ℕ) (ys : List ℕ) → mem x ys ≡ true → suc (length (remove x ys)) ≡ length ys
length-remove x [] h = ground arith
length-remove x (y ∷ ys) h = ground (arith, length-remove x ys)

mem-remove_ne : (x z : ℕ) (ys : List ℕ) → (x == z) ≡ false → mem z (remove x ys) ≡ mem z ys
mem-remove_ne x z [] h = refl
mem-remove_ne x z (y ∷ ys) h = ground (arith, mem-remove_ne x z ys h)

Subset-remove : (x : ℕ) (xs ys : List ℕ) → mem x xs ≡ false → Subset xs ys → Subset xs (remove x ys)
Subset-remove x [] ys h s = tt
Subset-remove x (z ∷ xs) ys h s = ground (arith, mem-remove_ne x z ys, Subset-remove x xs ys)

-- Counting: distinct elements of a list are no more than the list has places.
pub length-Subset : (xs ys : List ℕ) → Distinct xs → Subset xs ys → length xs ≤ length ys
length-Subset [] ys d s = omega arith
length-Subset (x ∷ xs) ys d s =
    let rest = length-Subset xs (remove x ys) d.1 (Subset-remove x xs ys d.0 s.1) in
    omega (arith, length-remove x ys s.0)

pub mem-append : (x : ℕ) (xs ys : List ℕ) → mem x (xs ++ ys) ≡ (mem x xs || mem x ys)
mem-append x [] ys = refl
mem-append x (y ∷ xs) ys = ground (arith, mem-append x xs ys)

pub Distinct-snoc : (xs : List ℕ) (x : ℕ) → Distinct xs → mem x xs ≡ false → Distinct (xs ++ x ∷ [])
Distinct-snoc [] x d h = (refl, tt)
Distinct-snoc (y ∷ xs) x d h = ground (arith, Distinct-snoc xs x d.1, mem-append y xs (x ∷ []))

pub Subset-weaken :
    (xs ys zs : List ℕ)
    → Subset xs ys
    → ((x : ℕ) → mem x ys ≡ true → mem x zs ≡ true)
    → Subset xs zs
Subset-weaken [] ys zs s f = tt
Subset-weaken (x ∷ xs) ys zs s f = (f x s.0, Subset-weaken xs ys zs s.1 f)

-- `sort_unstable` on numbers.
unfoldable pub insert_sorted : ℕ → List ℕ → List ℕ
insert_sorted x [] = x ∷ []
insert_sorted x (y ∷ ys) = let rest = insert_sorted x ys in if leb x y then x ∷ y ∷ ys else y ∷ rest

unfoldable pub sort : List ℕ → List ℕ
unfolding insert_sorted
sort [] = []
sort (x ∷ xs) = insert_sorted x (sort xs)

pub mem-insert_sorted : (z x : ℕ) (ys : List ℕ) → mem z (insert_sorted x ys) ≡ (x == z || mem z ys)
unfolding insert_sorted
mem-insert_sorted z x [] = refl
mem-insert_sorted z x (y ∷ ys) = ground (arith, mem-insert_sorted z x ys)

pub mem-sort : (z : ℕ) (xs : List ℕ) → mem z (sort xs) ≡ mem z xs
unfolding sort
mem-sort z [] = refl
mem-sort z (x ∷ xs) = ground (arith, mem-insert_sorted z x (sort xs), mem-sort z xs)

pub length-sort : (xs : List ℕ) → length (sort xs) ≡ length xs
unfolding sort
length-sort [] = refl
length-sort (x ∷ xs) = omega (arith, length-insert_sorted x (sort xs), length-sort xs)
  where
    length-insert_sorted : (x : ℕ) (ys : List ℕ) → length (insert_sorted x ys) ≡ suc (length ys)
    length-insert_sorted x [] = refl
    length-insert_sorted x (y ∷ ys) = ground (arith, length-insert_sorted x ys)

-- Strictly ascending.
abbrev pub Above : ℕ → List ℕ → Type 0
Above x [] = Unit
Above x (y ∷ ys) = (x < y) × Above x ys

abbrev pub IsAscending : List ℕ → Type 0
IsAscending [] = Unit
IsAscending (x ∷ xs) = Above x xs × IsAscending xs

Above-mono : (x y : ℕ) (ys : List ℕ) → x ≤ y → Above y ys → Above x ys
Above-mono x y [] h a = tt
Above-mono x y (z ∷ ys) h a = (omega arith, Above-mono x y ys h a.1)

Above-insert_sorted : (z x : ℕ) (ys : List ℕ) → z < x → Above z ys → Above z (insert_sorted x ys)
unfolding insert_sorted
Above-insert_sorted z x [] h a = (h, tt)
Above-insert_sorted z x (y ∷ ys) h a = ground (arith, Above-insert_sorted z x ys)

insert_sorted-IsAscending :
    (x : ℕ) (ys : List ℕ) → mem x ys ≡ false → IsAscending ys → IsAscending (insert_sorted x ys)
unfolding insert_sorted
insert_sorted-IsAscending x [] h a = (tt, tt)
insert_sorted-IsAscending x (y ∷ ys) h a =
    ground (arith, insert_sorted-IsAscending x ys, Above-insert_sorted y x ys, Above-mono x y ys)

pub sort-IsAscending : (xs : List ℕ) → Distinct xs → IsAscending (sort xs)
unfolding sort
sort-IsAscending [] d = tt
sort-IsAscending (x ∷ xs) d =
    insert_sorted-IsAscending x (sort xs) (rw mem-sort d.0) (sort-IsAscending xs d.1)
