-- ===== src/Derive/Step.antt =====
-- What one answer does to the collection (src/grpc.rs, `collect_and_dprf`), seen at one epoch.
use g_kms.Prelude.{
  ℕ, ◌≡◌, refl, true, false, Bool-cases, inl, inr, if◌then◌else◌, ◌==◌, ==_iff, mem, Distinct,
  Subset, Distinct-snoc, Subset-weaken, All-append, length, List, [], ◌∷◌, ◌++◌, Map, insert,
  lookup-insert, nat_eq, arith, subst,
}
use g_kms.Derive.{Collected, at_epoch, add_partial, discard}

-- The indices and the partials of a bucket belong together, pair by pair.
abbrev pub Matched : {P : Type 0} → (ℕ → P → Type 0) → List ℕ → List P → Type 0
Matched G [] [] = Unit
Matched G [] (p ∷ ps) = ⊥
Matched G (i ∷ is) [] = ⊥
Matched G (i ∷ is) (p ∷ ps) = G i p × Matched G is ps

Matched-snoc :
    {P : Type 0} (G : ℕ → P → Type 0) (is : List ℕ) (ps : List P) (i : ℕ) (p : P)
    → Matched G is ps
    → G i p
    → Matched G (is ++ i ∷ []) (ps ++ p ∷ [])
Matched-snoc G [] [] i p m g = (g, tt)
Matched-snoc G [] (q ∷ ps) i p m g = absurd m
Matched-snoc G (j ∷ is) [] i p m g = absurd m
Matched-snoc G (j ∷ is) (q ∷ ps) i p m g = (m.0, Matched-snoc G is ps i p m.1 g)

pub Matched-length :
    {P : Type 0} (G : ℕ → P → Type 0) (is : List ℕ) (ps : List P)
    → Matched G is ps
    → length is ≡ length ps
Matched-length G [] [] m = refl
Matched-length G [] (q ∷ ps) m = absurd m
Matched-length G (j ∷ is) [] m = absurd m
Matched-length G (j ∷ is) (q ∷ ps) m = omega (arith, Matched-length G is ps m.1)

Subset-not_mem : (xs ys : List ℕ) (x : ℕ) → Subset xs ys → mem x ys ≡ false → mem x xs ≡ false
Subset-not_mem [] ys x s h = refl
Subset-not_mem (z ∷ xs) ys x s h = ground (arith, Subset-not_mem xs ys x s.1 h)

pub at_epoch-insert :
    {A : Type 0} (k j : ℕ) (v : List A) (m : Map ℕ (List A))
    → at_epoch j (insert k v m) ≡ (if k == j then v else at_epoch j m)
at_epoch-insert k j v m = ground (arith, lookup-insert k j v m)

-- One epoch of a collection, for a notion `G` of a genuine partial of an index.
pub record IsSound {P : Type 0} (G : ℕ → P → Type 0) (e : ℕ) (c : Collected P) : Type 0 where
  pub matched : Matched G (at_epoch e c.contributors) (at_epoch e c.buckets)
  pub distinct : Distinct (at_epoch e c.contributors)
  pub known : Subset (at_epoch e c.contributors) (at_epoch e c.seen)

Subset-snoc : (xs ys : List ℕ) (i : ℕ) → Subset xs ys → Subset (xs ++ i ∷ []) (i ∷ ys)
Subset-snoc xs ys i s =
    All-append (λ x. mem x (i ∷ ys) ≡ true) xs (i ∷ [])
      (Subset-weaken xs ys (i ∷ ys) s (λ x h. ground arith)) (ground arith, tt)

module _ {P : Type 0} (G : ℕ → ℕ → P → Type 0) (e : ℕ) where
  pub add_partial-IsSound :
      (threshold idx epoch : ℕ) (p : P) (c : Collected P)
      → mem idx (at_epoch epoch c.seen) ≡ false
      → G epoch idx p
      → IsSound (G e) e c
      → IsSound (G e) e (add_partial threshold idx epoch p c)
  unfolding add_partial
  add_partial-IsSound threshold idx epoch p c new g v = elim (Bool-cases (epoch == e)) [
    | inr other ↦ record {
      matched = rw at_epoch-insert (rw at_epoch-insert (rw other v.matched));
      distinct = rw at_epoch-insert (rw other v.distinct);
      known = rw at_epoch-insert (rw at_epoch-insert (rw other v.known));
    }
    | inl same ↦
        let eq = (==_iff epoch e).0 same in
        let new' : mem idx (at_epoch e c.seen) ≡ false = rw eq at new in
        let g' : G e idx p = subst (λ n. G n idx p) eq g in
        record {
          matched = rw at_epoch-insert (
              rw at_epoch-insert (
                rw same (
                  rw eq (
                    Matched-snoc (G e) (at_epoch e c.contributors) (at_epoch e c.buckets) idx p
                      v.matched g'))));
          distinct = rw at_epoch-insert (
              rw same (
                rw eq (
                  Distinct-snoc (at_epoch e c.contributors) idx v.distinct (
                    Subset-not_mem (at_epoch e c.contributors) (at_epoch e c.seen) idx v.known
                      new'))));
          known = rw at_epoch-insert (
              rw at_epoch-insert (
                rw same (
                  rw eq
                    (Subset-snoc (at_epoch e c.contributors) (at_epoch e c.seen) idx v.known))));
        }
  ]

  pub discard-IsSound :
      (idx epoch : ℕ) (c : Collected P) → IsSound (G e) e c → IsSound (G e) e (discard idx epoch c)
  unfolding discard
  discard-IsSound idx epoch c v = elim (Bool-cases (epoch == e)) [
    | inr other ↦ record {
      matched = v.matched;
      distinct = v.distinct;
      known = rw at_epoch-insert (rw other v.known);
    }
    | inl same ↦
        let eq = (==_iff epoch e).0 same in
        record {
          matched = v.matched;
          distinct = v.distinct;
          known = rw at_epoch-insert (
              rw same (
                rw eq (
                  Subset-weaken (at_epoch e c.contributors) (at_epoch e c.seen)
                    (idx ∷ at_epoch e c.seen) v.known (λ x h. ground arith))));
        }
  ]
