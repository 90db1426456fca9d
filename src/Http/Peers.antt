-- ===== src/Http/Peers.antt =====
-- The list of peers against the numbers beside it (src/server.rs, `handle_peers`; src/metrics.rs).
use g_kms.Prelude.{
  ℕ, ◌+◌, ◌≡◌, refl, ap, max, max_or_zero, ltb, Bool, false, ◌&&◌, not, length, filter, map, values,
  [], ◌∷◌, Map, Option, none, some, Bytes, beq_bytes, is_empty, is_some, arith,
}
use g_kms.State.{AppState, PeerInfo, is_live, epoch_of}
use g_kms.Metrics.{as_number, mismatches}
use g_kms.Http.{PeerEntry, peer_entry, handle_peers, reported}

count-entries :
    (now : ℕ) (p : PeerInfo → Bool) (q : PeerEntry → Bool) (table : Map ℕ PeerInfo)
    → ((addr : ℕ) (info : PeerInfo)
        → q (peer_entry now (addr, info)) ≡ (is_live now info && p info))
    → length (filter p (filter (is_live now) (values table)))
      ≡ length (filter q (map (peer_entry now) table))
count-entries now p q [] h = refl
count-entries now p q ((addr, info) ∷ table) h =
    ground (arith, h addr info, count-entries now p q table h)

-- Another master than this node's is reported.
abbrev pub disagrees : Option Bytes → Option Bytes → Bool
disagrees none other = false
disagrees (some own) none = false
disagrees (some own) (some other) = not (beq_bytes other own)

disagrees-reported :
    (own pk : Bytes)
    → disagrees (some own) (reported pk) ≡ (not (is_empty pk) && not (beq_bytes pk own))
disagrees-reported own [] = refl
disagrees-reported own (b ∷ pk) = refl

mismatches-entries :
    (now : ℕ) (own : Option Bytes) (table : Map ℕ PeerInfo)
    → mismatches own (filter (is_live now) (values table))
      ≡ length (filter (λ e. e.live && disagrees own e.group_pubkey) (map (peer_entry now) table))
mismatches-entries now none [] = refl
mismatches-entries now none ((addr, info) ∷ table) =
    ground (arith, mismatches-entries now none table)
mismatches-entries now (some own) table =
    count-entries now _ (λ e. e.live && disagrees (some own) e.group_pubkey) table
      (λ addr info. ap (λ b. is_live now info && b) (disagrees-reported own info.group_pubkey))

epochs-entries :
    (now : ℕ) (table : Map ℕ PeerInfo)
    → max_or_zero (map (λ p. p.epoch) (values table))
      ≡ max_or_zero (map (λ e. e.epoch) (map (peer_entry now) table))
epochs-entries now [] = refl
epochs-entries now ((addr, info) ∷ table) = ap (max info.epoch) (epochs-entries now table)

-- The numbers that GET /peers shows agree with its list of peers, when both are taken of one state at one instant:
-- the live holders are this node, if it holds a share, and the live peers with an epoch; the epoch is
-- the greatest of them all; and a fork is a live peer that reports another master than this node's.
handle_peers-live_share_holders :
    (now : ℕ) (s : AppState)
    → ((handle_peers now now (λ t. t) s).0.live_share_holders
        ≡ as_number (handle_peers now now (λ t. t) s).0.has_share
          + length (filter (λ e. e.live && ltb 0 e.epoch) (handle_peers now now (λ t. t) s).1))
      × ((handle_peers now now (λ t. t) s).0.cluster_epoch
          ≡ max
              (handle_peers now now (λ t. t) s).0.own_epoch
              (max_or_zero (map (λ e. e.epoch) (handle_peers now now (λ t. t) s).1)))
      × ((handle_peers now now (λ t. t) s).0.group_pubkey_mismatch
          ≡ length (
              filter
                (λ e. e.live && disagrees s.group_pubkey e.group_pubkey)
                (handle_peers now now (λ t. t) s).1))
unfolding handle_peers
handle_peers-live_share_holders now s = (
  ap (λ n. as_number (is_some s.shard) + n)
      (count-entries now (λ p. ltb 0 p.epoch) (λ e. e.live && ltb 0 e.epoch) s.peer_table
        (λ a i. refl)),
  ap (max (epoch_of s.shard)) (epochs-entries now s.peer_table),
  mismatches-entries now s.group_pubkey s.peer_table,
)
