-- ===== src/Metrics/View.antt =====
-- How the numbers of a cluster view relate to each other (src/metrics.rs).
use g_kms.Prelude.{
  ℕ, ◌+◌, ◌≤◌, ◌≡◌, ◌==◌, ltb, refl, Bool, true, false, Bool-cases, inl, inr, List, [], ◌∷◌, length,
  filter, length-filter-le, values, Map, arith, is_some,
}
use g_kms.State.{AppState, PeerInfo, is_live, known_epoch}
use g_kms.Metrics.{cluster_view, as_number, leading_epoch, holders_at}

length-values : (m : Map ℕ PeerInfo) → length (values m) ≡ length m
length-values [] = refl
length-values ((k, p) ∷ m) = omega (arith, length-values m)

holding :
    (epoch : ℕ) (live : List PeerInfo)
    → (epoch == 0) ≡ false
    → length (filter (λ p. p.epoch == epoch) live) ≤ length (filter (λ p. ltb 0 p.epoch) live)
holding epoch [] h = omega arith
holding epoch (p ∷ live) h = ground (arith, holding epoch live h)

-- The cluster epoch of the view is the one that recoveries build on; the holders at the leading epoch
-- are among the live holders, those are live peers or this node, and live peers are known.
cluster_view-known_epoch :
    (now : ℕ) (s : AppState)
    → let view = cluster_view now s in
      (view.cluster_epoch ≡ known_epoch s)
      × (view.leading_holders ≤ view.live_share_holders)
      × (view.live_share_holders ≤ view.peers_live + 1)
      × (view.peers_live ≤ view.peers_known)
unfolding cluster_view known_epoch
cluster_view-known_epoch now s =
    let peers = values s.peer_table in
    let live = filter (is_live now) peers in
    let leading = leading_epoch s.shard live in
    (
      refl,
      fewer leading,
      below (is_some s.shard),
      omega (arith, length-filter-le (is_live now) peers, length-values s.peer_table),
    )
  where
    live : List PeerInfo
    live = filter (is_live now) (values s.peer_table)

    below : (b : Bool) → as_number b + length (filter (λ p. ltb 0 p.epoch) live) ≤ length live + 1
    below true = omega (arith, length-filter-le (λ p. ltb 0 p.epoch) live)
    below false = omega (arith, length-filter-le (λ p. ltb 0 p.epoch) live)

    fewer :
        (n : ℕ)
        → holders_at n s.shard live
          ≤ as_number (is_some s.shard) + length (filter (λ p. ltb 0 p.epoch) live)
    fewer n = elim (Bool-cases (n == 0)) [
      | inl zeroth ↦ rw zeroth (omega arith)
      | inr positive ↦ ground (arith, holding n live positive)
    ]
