-- ===== src/Reshare/Quorum.antt =====
-- Which recoveries may run at once (src/init.rs).
use g_kms.Prelude.{
  ℕ, suc, ◌+◌, ◌/◌, ◌≤◌, ◌<◌, ◌≡◌, ◌↔◌, inl, inr, ◌==◌, ltb, refl, Bool, true, false, Bool-cases,
  ◌||◌, ok, List, [], ◌∷◌, ◌++◌, length, length-append, map, mem, Distinct, Subset, length-Subset,
  IsAscending, Above, mem-append, max, arith, All, All-append, All-filter, filter, get_elem?, some,
  Map, ◌-◌, subst, max_or_zero, ◌∙◌,
}
use g_kms.Membership.{Membership, SessionPeer, leading_dealers, live_dealers, assemble_participants}
use g_kms.Membership.Committee.{IsMember, IsAssembled, assemble_participants-IsAssembled}
use g_kms.State.{AppState, PeerInfo}
use g_kms.Reshare.{recovery_gate, majority}

-- A recovery may run exactly when the live holders at the leading epoch number at least
-- `max(threshold, total / 2)`, the recovery threshold that the metrics show.
pub recovery_gate_iff :
    (m : Membership)
    → (recovery_gate m ≡ ok tt) ↔ (max m.threshold (m.total / 2) ≤ length (leading_dealers m))
unfolding recovery_gate
recovery_gate_iff m =
    let half : majority m.total ≡ m.total / 2 + 1 = refl in (λ h. ground arith, λ h. ground arith)

-- Positions 1 to n.
abbrev pub positions : ℕ → List ℕ
positions ℕ.zero = []
positions (suc n) = suc n ∷ positions n

length-positions : (n : ℕ) → length (positions n) ≡ n
length-positions ℕ.zero = refl
length-positions (suc n) = omega (arith, length-positions n)

mem-positions : (n k : ℕ) → 1 ≤ k → k ≤ n → mem k (positions n) ≡ true
mem-positions ℕ.zero k low high = ground arith
mem-positions (suc n) k low high = ground (arith, mem-positions n k low)

-- Whether two lists share a number.
abbrev pub meets : List ℕ → List ℕ → Bool
meets [] ys = false
meets (x ∷ xs) ys = mem x ys || meets xs ys

Distinct-append :
    (xs ys : List ℕ) → Distinct xs → Distinct ys → meets xs ys ≡ false → Distinct (xs ++ ys)
Distinct-append [] ys dx dy h = dy
Distinct-append (x ∷ xs) ys dx dy h =
    ground (arith, Distinct-append xs ys dx.1 dy, mem-append x xs ys)

half_twice : (n : ℕ) → n < majority n + majority n
half_twice n = omega arith

-- Two lists of distinct positions among `total`, each a majority, share one.
majorities-meet :
    (total : ℕ) (xs ys : List ℕ)
    → Distinct xs
    → Distinct ys
    → Subset xs (positions total)
    → Subset ys (positions total)
    → majority total ≤ length xs
    → majority total ≤ length ys
    → meets xs ys ≡ true
majorities-meet total xs ys dx dy sx sy mx my = elim (Bool-cases (meets xs ys)) [
  | inl meet ↦ meet
  | inr apart ↦
      let fits =
        length-Subset (xs ++ ys) (positions total) (Distinct-append xs ys dx dy apart)
          (All-append (λ x. mem x (positions total) ≡ true) xs ys sx sy) in
      ground (arith, fits, length-append xs ys, length-positions total, half_twice total)
]

-- Who takes part in a recovery: this node and its dealers.
abbrev pub participants : Membership → List ℕ
participants m = m.own_id ∷ map (λ p. p.id) (leading_dealers m)

mem-filter_ids :
    (q : SessionPeer → Bool) (ps : List SessionPeer) (x : ℕ)
    → mem x (map (λ p. p.id) ps) ≡ false
    → mem x (map (λ p. p.id) (filter q ps)) ≡ false
mem-filter_ids q [] x h = h
mem-filter_ids q (p ∷ ps) x h = elim (Bool-cases (q p)) [
  | inl kept ↦ ground (arith, mem-filter_ids q ps x)
  | inr dropped ↦ ground (arith, mem-filter_ids q ps x)
]

Distinct-filter_ids :
    (q : SessionPeer → Bool) (ps : List SessionPeer)
    → Distinct (map (λ p. p.id) ps)
    → Distinct (map (λ p. p.id) (filter q ps))
Distinct-filter_ids q [] h = h
Distinct-filter_ids q (p ∷ ps) h = elim (Bool-cases (q p)) [
  | inl kept ↦ rw kept (mem-filter_ids q ps p.id h.0, Distinct-filter_ids q ps h.1)
  | inr dropped ↦ rw dropped (Distinct-filter_ids q ps h.1)
]

Above-mem : (x y : ℕ) (ys : List ℕ) → x ≤ y → Above y ys → mem x ys ≡ false
Above-mem x y [] h a = refl
Above-mem x y (z ∷ ys) h a = ground (arith, Above-mem x y ys h a.1)

IsAscending-Distinct : (xs : List ℕ) → IsAscending xs → Distinct xs
IsAscending-Distinct [] a = tt
IsAscending-Distinct (x ∷ xs) a = (Above-mem x x xs (omega arith) a.0, IsAscending-Distinct xs a.1)

get_elem?-length : (list : List ℕ) (i : ℕ) {a : ℕ} → get_elem? list i ≡ some a → i < length list
get_elem?-length [] i h = cc
get_elem?-length (x ∷ list) ℕ.zero h = omega arith
get_elem?-length (x ∷ list) (suc i) h = omega (arith, get_elem?-length list i h)

module _ (table : Map ℕ PeerInfo) (now own_id : ℕ) (list : List ℕ) where
  ids-Subset :
      (ps : List SessionPeer)
      → All (IsMember table now 1 list) ps
      → Subset (map (λ p. p.id) ps) (positions (length list))
  ids-Subset [] h = tt
  ids-Subset (p ∷ ps) h =
      let (low, addr, at, info, entry, keyed, live, shown) = h.0 in
      (
        mem-positions (length list) p.id low (omega (arith, get_elem?-length list (p.id - 1) at)),
        ids-Subset ps h.1,
      )

  own-new :
      (ps : List SessionPeer)
      → All (λ p. (p.id == own_id) ≡ false) ps
      → mem own_id (map (λ p. p.id) ps) ≡ false
  own-new [] h = refl
  own-new (p ∷ ps) h = ground (arith, own-new ps h.1)

participants-Distinct :
    (s : AppState) (now : ℕ) (list : List ℕ) (m : Membership)
    → assemble_participants s now list ≡ ok (some m)
    → Distinct (participants m)
      × Subset (participants m) (positions (length list))
      × (m.total ≡ s.config.total_nodes)
unfolding leading_dealers live_dealers
participants-Distinct s now list m h =
    let assembled : IsAssembled s now list (ok (some m)) =
      subst (IsAssembled s now list) h (assemble_participants-IsAssembled s now list) in
    let (size, at, low, t, total, members, others, ascending) = assembled in
    let holders = filter (λ p. ltb 0 p.epoch) m.peers in
    let e = max_or_zero (map (λ p. p.epoch) holders) in
    let lead = λ (p : SessionPeer). p.epoch == e in
    let all_distinct = IsAscending-Distinct (map (λ p. p.id) m.peers) ascending in
    let among = mem-filter_ids lead holders m.own_id (
      mem-filter_ids (λ p. ltb 0 p.epoch) m.peers m.own_id
        (own-new s.peer_table now m.own_id list m.peers others)) in
    let dealers =
      All-filter (IsMember s.peer_table now 1 list) lead holders
        (All-filter (IsMember s.peer_table now 1 list) (λ p. ltb 0 p.epoch) m.peers members) in
    (
      (
        among,
        Distinct-filter_ids lead holders
            (Distinct-filter_ids (λ p. ltb 0 p.epoch) m.peers all_distinct),
      ),
      (
        mem-positions (length list) m.own_id low
            (omega (arith, get_elem?-length list (m.own_id - 1) at)),
        ids-Subset s.peer_table now m.own_id list (leading_dealers m) dealers,
      ),
      total,
    )

-- No split brain: of two nodes that both pass the gates of a recovery, whatever each has heard by
-- gossip, some member takes part in both recoveries. Both see the same node list, and it is exactly
-- as long as the committee size both are configured with.
pub recoveries-meet :
    (s s' : AppState) (now now' : ℕ) (list : List ℕ) (m m' : Membership)
    → s.config.total_nodes ≡ length list
    → s'.config.total_nodes ≡ length list
    → assemble_participants s now list ≡ ok (some m)
    → assemble_participants s' now' list ≡ ok (some m')
    → recovery_gate m ≡ ok tt
    → recovery_gate m' ≡ ok tt
    → meets (participants m) (participants m') ≡ true
recoveries-meet s s' now now' list m m' size size' h h' gate gate' =
    let (d, inside, total) = participants-Distinct s now list m h in
    let (d', inside', total') = participants-Distinct s' now' list m' h' in
    majorities-meet (length list) (participants m) (participants m') d d' inside inside'
      (enough m gate (total ∙ size)) (enough m' gate' (total' ∙ size'))
  where
    length-ids : (ps : List SessionPeer) → length (map (λ p. p.id) ps) ≡ length ps
    length-ids [] = refl
    length-ids (p ∷ ps) = omega (arith, length-ids ps)

    enough :
        (m : Membership)
        → recovery_gate m ≡ ok tt
        → m.total ≡ length list
        → majority (length list) ≤ length (participants m)
    enough m gate e =
        let bound = (recovery_gate_iff m).0 gate in
        omega (arith, bound, length-ids (leading_dealers m), e)
