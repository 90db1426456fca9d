-- ===== src/Membership/Dealers.antt =====
-- Which peers deal in a reshare (src/init.rs).
use g_kms.Prelude.{
  ℕ, ◌≤◌, ◌<◌, ◌==◌, ltb, ◌≡◌, refl, true, false, Bool-cases, inl, inr, List, [], ◌∷◌, length, map,
  filter, All, All-filter_self, max_or_zero, arith, is_empty, subst, ltb→lt,
}
use g_kms.Membership.{SessionPeer, Membership, live_dealers, leading_dealers}

abbrev newest : List SessionPeer → ℕ
newest ps = max_or_zero (map (λ p. p.epoch) ps)

newest-bound :
    (ps : List SessionPeer) (n : ℕ)
    → newest (filter (λ p. ltb 0 p.epoch) ps) ≤ n
    → All (λ p. p.epoch ≤ n) ps
newest-bound [] n h = tt
newest-bound (p ∷ ps) n h = ground (arith, newest-bound ps n)

newest-attained :
    (ps : List SessionPeer) (n : ℕ)
    → newest ps ≡ n
    → 1 ≤ length ps
    → 1 ≤ length (filter (λ p. p.epoch == n) ps)
newest-attained [] n e h = h
newest-attained (p ∷ []) n e h = ground arith
newest-attained (p ∷ q ∷ ps) n e h = ground (arith, newest-attained (q ∷ ps) n)

lead :
    (n : ℕ) (peers ds : List SessionPeer)
    → All (λ p. p.epoch ≤ n) peers
    → All (λ p. ltb 0 p.epoch ≡ true) ds
    → All (λ d. (0 < d.epoch) × All (λ p. p.epoch ≤ d.epoch) peers) (filter (λ p. p.epoch == n) ds)
lead n peers [] b h = tt
lead n peers (d ∷ ds) b (positive, h) =
    let later = lead n peers ds b h in
    elim (Bool-cases (d.epoch == n)) [
      | inl same ↦
          let e : n ≡ d.epoch = ground arith in
          rw same
            ((ltb→lt 0 d.epoch positive, subst (λ k. All (λ p. p.epoch ≤ k) peers) e b), later)
      | inr older ↦ rw older later
    ]

-- The dealers of a session sit on one polynomial, the newest that any live peer is on: each has an
-- epoch above 0, and no peer's epoch is higher. There is such a dealer exactly
-- where some live peer holds a share.
leading_dealers-lead :
    (m : Membership)
    → All (λ d. (0 < d.epoch) × All (λ p. p.epoch ≤ d.epoch) m.peers) (leading_dealers m)
      × (is_empty (leading_dealers m) ≡ is_empty (live_dealers m))
unfolding leading_dealers
leading_dealers-lead m = (
  lead (newest (live_dealers m)) m.peers (live_dealers m)
      (newest-bound m.peers (newest (live_dealers m)) (omega arith))
      (All-filter_self (λ p. ltb 0 p.epoch) m.peers),
  same_emptiness (live_dealers m),
)
  where
    nonempty : (ds : List SessionPeer) → 1 ≤ length ds → is_empty ds ≡ false
    nonempty [] h = ground arith
    nonempty (d ∷ ds) h = refl

    same_emptiness :
        (ds : List SessionPeer) → is_empty (filter (λ p. p.epoch == newest ds) ds) ≡ is_empty ds
    same_emptiness [] = refl
    same_emptiness (d ∷ ds) =
        nonempty (filter (λ p. p.epoch == newest (d ∷ ds)) (d ∷ ds))
          (newest-attained (d ∷ ds) (newest (d ∷ ds)) refl (omega arith))
