-- ===== src/Metrics.antt =====
-- src/metrics.rs: the cluster view and the baseline of the master. The children
-- have the counters and the text of the metrics.
pub mod View
pub mod Counters
pub mod Baseline
pub mod Registry
pub mod Exposition
pub mod Render
pub mod Scrape
pub mod Exposed
pub mod Tests
use g_kms.Prelude.{
  ℕ, ◌+◌, ◌/◌, ◌==◌, ltb, max, max_or_zero, not, Bool, true, false, ◌&&◌, if◌then◌else◌, List, [],
  ◌∷◌, ◌++◌, length, map, filter, values, Option, none, some, Bytes, beq_bytes, is_empty, is_some,
  trim,
}
use g_kms.State.{AppState, ShardState, PeerInfo, is_live, epoch_of}
use g_kms.Seal.{FileRead, nonblank, trimmed}

pub record ClusterView : Type 0 where
  pub has_share : Bool
  pub own_id : ℕ
  pub own_epoch : ℕ
  pub cluster_epoch : ℕ
  pub threshold : ℕ
  pub total_nodes : ℕ
  pub recovery_threshold : ℕ
  pub live_share_holders : ℕ
  pub leading_holders : ℕ
  pub peers_known : ℕ
  pub peers_live : ℕ
  pub group_pubkey : Option Bytes
  pub group_pubkey_mismatch : ℕ

-- `b as usize`.
abbrev pub as_number : Bool → ℕ
as_number true = 1
as_number false = 0

abbrev pub index_of : Option ShardState → ℕ
index_of none = 0
index_of (some s) = s.shard_index

-- The epochs of the live holders, with this node's own if it holds a share.
abbrev pub leading_epoch : Option ShardState → List PeerInfo → ℕ
leading_epoch shard live =
    let own = if is_some shard then epoch_of shard ∷ [] else [] in
    max_or_zero (map (λ p. p.epoch) (filter (λ p. ltb 0 p.epoch) live) ++ own)

abbrev pub holders_at : ℕ → Option ShardState → List PeerInfo → ℕ
holders_at epoch shard live =
    if epoch == 0
    then 0
    else as_number (is_some shard && epoch_of shard == epoch)
      + length (filter (λ p. p.epoch == epoch) live)

abbrev pub mismatches : Option Bytes → List PeerInfo → ℕ
mismatches none live = 0
mismatches (some own) live =
    length (filter (λ p. not (is_empty p.group_pubkey) && not (beq_bytes p.group_pubkey own)) live)

-- `cluster_view`.
unfoldable pub cluster_view : ℕ → AppState → ClusterView
cluster_view now s =
    let peers = values s.peer_table in
    let live = filter (is_live now) peers in
    let own_epoch = epoch_of s.shard in
    record {
      has_share = is_some s.shard;
      own_id = index_of s.shard;
      own_epoch = own_epoch;
      cluster_epoch = max own_epoch (max_or_zero (map (λ p. p.epoch) peers));
      threshold = s.config.threshold;
      total_nodes = s.config.total_nodes;
      recovery_threshold = max s.config.threshold (s.config.total_nodes / 2);
      live_share_holders = as_number (is_some s.shard) + length (filter (λ p. ltb 0 p.epoch) live);
      leading_holders = holders_at (leading_epoch s.shard live) s.shard live;
      peers_known = length s.peer_table;
      peers_live = length live;
      group_pubkey = s.group_pubkey;
      group_pubkey_mismatch = mismatches s.group_pubkey live;
    }

-- 1, 0 and -1 of `check_master_baseline`.
pub data Verdict : Type 0 where
  matches : Verdict
  mismatch : Verdict
  unknown : Verdict

abbrev pub against : Bytes → Bool → Option Bytes → FileRead → Verdict × FileRead
against live written none file =
    if written then (Verdict.matches, FileRead.contents live) else (Verdict.unknown, file)
against live written (some recorded) file =
    (if beq_bytes recorded live then Verdict.matches else Verdict.mismatch, file)

-- `check_master_baseline`, where a durable path is configured, for the hex text of the live master:
-- what the baseline file holds, and whether writing it succeeds.
unfoldable pub check_master_baseline : Bytes → Bool → FileRead → Verdict × FileRead
check_master_baseline live written (FileRead.contents text) =
    against live written (trimmed (nonblank (some text))) (FileRead.contents text)
check_master_baseline live written FileRead.absent = against live written none FileRead.absent
check_master_baseline live written FileRead.unreadable = (Verdict.unknown, FileRead.unreadable)

-- A sequence of checks on one file.
unfoldable pub check_all : List (Bytes × Bool) → FileRead → FileRead
unfolding check_master_baseline
check_all [] file = file
check_all ((live, written) ∷ checks) file =
    check_all checks (check_master_baseline live written file).1
