-- ===== src/Gossip/Relay.antt =====
-- What gossip does to the entries of the peer table (src/grpc.rs).
use g_kms.Prelude.{
  ℕ, ◌≤◌, ◌≡◌, refl, false, Option-cases, inl, inr, is_empty, if◌then◌else◌, beq_bytes, List, [],
  ◌∷◌, Option, none, some, lookup, lookup-insert, nat_eq, ◌==◌, Bytes, arith, ◌∙◌,
}
use g_kms.State.{PeerInfo}
use g_kms.Gossip.{
  NodeInfo, PeerTable, AuthContext, register, merge_at, merge_peer, merge_peers, touch_all,
  apply_push,
}

-- 0 for a peer that is not known, as for one that was never seen.
abbrev pub last_seen_of : Option PeerInfo → ℕ
last_seen_of none = 0
last_seen_of (some e) = e.last_seen

abbrev pub epoch_known : Option PeerInfo → ℕ
epoch_known none = 0
epoch_known (some e) = e.epoch

-- The instant of the last contact of an entry after a successful push to `target` at `now`.
abbrev pub seen_after : Bytes → ℕ → Option PeerInfo → ℕ
seen_after target now none = 0
seen_after target now (some e) = if beq_bytes e.grpc_url target then now else e.last_seen

lookup-touch_all :
    (target : Bytes) (now addr : ℕ) (table : PeerTable)
    → last_seen_of (lookup addr (touch_all target now table))
      ≡ seen_after target now (lookup addr table)
unfolding lookup touch_all
lookup-touch_all target now addr [] = refl
lookup-touch_all target now addr ((a, e) ∷ table) =
    ground (arith, lookup-touch_all target now addr table)

touch_all-epoch :
    (target : Bytes) (now addr : ℕ) (table : PeerTable)
    → epoch_known (lookup addr (touch_all target now table)) ≡ epoch_known (lookup addr table)
unfolding lookup touch_all
touch_all-epoch target now addr [] = refl
touch_all-epoch target now addr ((a, e) ∷ table) =
    ground (arith, touch_all-epoch target now addr table)

merge_at-keeps :
    (peer : NodeInfo) (at : Option ℕ) (addr : ℕ) (table : PeerTable)
    → (last_seen_of (lookup addr (merge_at peer at table)) ≡ last_seen_of (lookup addr table))
      × (epoch_known (lookup addr table) ≤ epoch_known (lookup addr (merge_at peer at table)))
merge_at-keeps peer none addr table = (refl, omega arith)
merge_at-keeps peer (some a) addr table = elim (Option-cases (lookup a table)) [
  | inl unknown ↦ rw lookup-insert (ground arith)
  | inr (e, known) ↦ rw lookup-insert (ground arith)
]

module _ (decode_addr : Bytes → Option ℕ) (self_url : Bytes) where
  merge_peer-keeps :
      (peer : NodeInfo) (addr : ℕ) (table : PeerTable)
      → let table' = merge_peer decode_addr self_url peer table in
        (last_seen_of (lookup addr table') ≡ last_seen_of (lookup addr table))
        × (epoch_known (lookup addr table) ≤ epoch_known (lookup addr table'))
  unfolding merge_peer
  merge_peer-keeps peer addr table =
      ground (arith, merge_at-keeps peer (decode_addr peer.eth_addr) addr table)

  -- What a peer relays never makes an entry look alive, or older: its last contact stays as it was,
  -- and an entry that is new has none. Nor does it lower the epoch that is known of any peer.
  merge_peers-keeps :
      (peers : List NodeInfo) (addr : ℕ) (table : PeerTable)
      → let table' = merge_peers decode_addr self_url peers table in
        (last_seen_of (lookup addr table') ≡ last_seen_of (lookup addr table))
        × (epoch_known (lookup addr table) ≤ epoch_known (lookup addr table'))
  unfolding merge_peers
  merge_peers-keeps [] addr table = (refl, omega arith)
  merge_peers-keeps (peer ∷ peers) addr table =
      let step = merge_peer-keeps peer addr table in
      let rest = merge_peers-keeps peers addr (merge_peer decode_addr self_url peer table) in
      (rest.0 ∙ step.0, omega (arith, step.1, rest.1))

  -- After a push to `target` that succeeded at `now`, exactly the entries with the target's URL have
  -- `now` as their last contact; the others keep theirs, whatever the target relays, and the epochs
  -- that are known do not fall.
  pub apply_push-direct :
      (target : Bytes) (now : ℕ) (received : List NodeInfo) (addr : ℕ) (table : PeerTable)
      → let table' = apply_push decode_addr self_url target (some (now, received)) table in
        (last_seen_of (lookup addr table') ≡ seen_after target now (lookup addr table))
        × (epoch_known (lookup addr table) ≤ epoch_known (lookup addr table'))
  unfolding apply_push
  apply_push-direct target now received addr table =
      let merged = merge_peers-keeps received addr (touch_all target now table) in
      (
        merged.0 ∙ lookup-touch_all target now addr table,
        omega (arith, merged.1, touch_all-epoch target now addr table),
      )

-- A peer's own report replaces its entry: url, epoch and group public key are as it says, also an
-- epoch below the one that was known and an empty group public key; its public key is the one that
-- the signature gave, and it counts as seen now. No other entry changes.
register-replaces :
    (ctx : AuthContext) (now : ℕ) (info : NodeInfo) (addr : ℕ) (table : PeerTable)
    → is_empty info.grpc_url ≡ false
    → lookup addr (register ctx now (some info) table) ≡ (
        if ctx.caller_eth_addr == addr
        then some (record {
          grpc_url = info.grpc_url;
          last_seen = now;
          pubkey = ctx.caller_pubkey;
          epoch = info.epoch;
          group_pubkey = info.group_pubkey;
        })
        else lookup addr table)
unfolding register
register-replaces ctx now info addr table h = rw h (rw lookup-insert)
