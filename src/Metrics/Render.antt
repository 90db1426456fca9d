-- ===== src/Metrics/Render.antt =====
-- `render` of src/metrics.rs: the metrics in the order of the text, and the text.
use Prim.Native.Nat.{min}
use g_kms.Prelude.{
  ℕ, ◌-◌, ◌*◌, ◌==◌, take, length, if◌then◌else◌, List, [], ◌∷◌, ◌++◌, Option, none, some, Bytes,
  codes, is_some,
}
use g_kms.I64.{sub_i64}
use g_kms.State.{AppState}
use g_kms.Metrics.{ClusterView, as_number, cluster_view}
use g_kms.Metrics.Registry.{Metrics}
use g_kms.Metrics.Exposition.{Family, g, gauge, counter, label, text, joined, exposition}

-- How numbers and bytes are written, and the version of the package.
pub record Texts : Type 0 where
  pub decimal : ℕ → Bytes
  pub decimal_i64 : ℕ → Bytes
  pub hex : Bytes → Bytes
  pub version : Bytes

-- The seconds since the start, as they are read for the uptime and for the time without a share, and
-- the clock, for the view and after it.
pub record Reading : Type 0 where
  pub uptime : ℕ
  pub shardless : ℕ
  pub viewed : ℕ
  pub now : ℕ

module _ (t : Texts) where
  -- `{kind="…",result="…"}`.
  abbrev session_label : Bytes → Bytes → Bytes
  session_label kind result =
      codes "{kind=\"" ++ (kind ++ (codes "\",result=\"" ++ (result ++ codes "\"}")))

  -- The master as a label: 16 characters of its hex text.
  abbrev pub group_pubkey_info : Option Bytes → List Family
  group_pubkey_info none = []
  group_pubkey_info (some pk) =
      record {
        name = codes "kms_group_pubkey_info";
        help = codes "The cluster master this node holds, as a label. Always 1.";
        kind = gauge;
        samples = (label (codes "hash") (take (min 16 (length pk * 2)) (t.hex pk)), codes "1") ∷ [];
      }
      ∷ []

  abbrev pub process_families : Reading → List Family
  process_families r =
      record {
        name = codes "kms_build_info";
        help = codes "Build metadata; always 1, read the labels.";
        kind = gauge;
        samples = (codes " " ++ label (codes "version") t.version, codes "1") ∷ [];
      }
      ∷ g (codes "kms_uptime_seconds") (codes "Seconds since process start.") gauge
          (t.decimal r.uptime)
      ∷ []

  abbrev pub share_families : Reading → ClusterView → List Family
  share_families r v =
      g (codes "kms_has_share") (codes "1 if this node holds a share of the master key.") gauge
        (t.decimal (as_number v.has_share))
      ∷ g (codes "kms_shardless_seconds")
          (codes
            "Seconds this node has been running without a share. Stays 0 once a share is held. Unbounded growth means recovery is not converging and needs a human.")
          gauge (if v.has_share then codes "0" else t.decimal r.shardless)
      ∷ g (codes "kms_own_id")
          (codes
            "This node's 1-based participant id, which is also its shard index. Derived from its position in the on-chain nodeList, so it changes if that list is reordered. 0 = no share.")
          gauge (t.decimal v.own_id)
      ∷ g (codes "kms_epoch") (codes "Polynomial epoch of this node's own share. 0 = none.") gauge
          (t.decimal v.own_epoch)
      ∷ g (codes "kms_cluster_epoch")
          (codes "Highest epoch known across self and all gossiped peers.") gauge
          (t.decimal v.cluster_epoch)
      ∷ g (codes "kms_epoch_lag")
          (codes
            "cluster_epoch - own epoch. Non-zero for more than a reshare's duration means this node is stranded on a stale polynomial and is silently not contributing to derives.")
          gauge (t.decimal (v.cluster_epoch - v.own_epoch))
      ∷ []

  abbrev pub committee_families : ClusterView → List Family
  committee_families v =
      g (codes "kms_threshold") (codes "Partials required to derive a key (the service threshold).")
        gauge (t.decimal v.threshold)
      ∷ g (codes "kms_total_nodes") (codes "Configured committee size.") gauge
          (t.decimal v.total_nodes)
      ∷ g (codes "kms_recovery_threshold")
          (text
            "max(threshold, floor(n/2)) — live leading-epoch holders needed for a shardless node to rejoin. Alert on this, not on kms_threshold: derives keep working below it while the cluster has already lost the ability to heal.")
          gauge (t.decimal v.recovery_threshold)
      ∷ g (codes "kms_leading_holders")
          (codes
            "Live share-holders on the leading epoch, self included. The population a reshare can draw dealers from.")
          gauge (t.decimal v.leading_holders)
      ∷ g (codes "kms_live_share_holders")
          (codes
            "Live share-holders on any epoch, self included. Reported for continuity; alert on kms_leading_holders, since a holder on a stale epoch cannot be a dealer.")
          gauge (t.decimal v.live_share_holders)
      ∷ g (codes "kms_peers_known") (codes "Peers in the gossip table, alive or not.") gauge
          (t.decimal v.peers_known)
      ∷ g (codes "kms_peers_live")
          (codes "Peers seen by direct contact within the liveness window.") gauge
          (t.decimal v.peers_live)
      ∷ []

  abbrev pub master_families : Metrics → ClusterView → List Family
  master_families m v =
      (g (codes "kms_group_pubkey_known")
          (codes "1 if this node knows the cluster's group public key.") gauge
          (t.decimal (as_number (is_some v.group_pubkey)))
        ∷ [])
      ++ (group_pubkey_info v.group_pubkey
          ++ (g (codes "kms_group_pubkey_mismatch")
                (text
                  "Live peers whose gossiped master differs from ours. This node's own observation — it says a fork exists, not who is right. Use kms_group_pubkey_info to decide that.")
                gauge (t.decimal v.group_pubkey_mismatch)
              ∷ g (codes "kms_master_matches_baseline")
                  (codes
                    "1 = the master matches the baseline recorded when this node first formed, 0 = it does NOT (the cluster forked, or a re-genesis ran without clearing the baseline), -1 = no baseline on file. Unlike the gossip comparison this survives a TEE identity change, which is precisely when a rejoining node has no other memory of which cluster it was in.")
                  gauge (t.decimal_i64 m.master_matches_baseline)
              ∷ g (codes "kms_last_recovery_seconds")
                  (text
                    "Seconds this node took to go from boot to holding a share. 0 = no such transition since boot. This is the single-node recovery time the committee's fault tolerance is spent in units of — when it runs away, the margin goes with it.")
                  gauge (t.decimal m.last_recovery_seconds)
              ∷ []))

  abbrev pub derive_families : Metrics → List Family
  derive_families m =
      record {
        name = codes "kms_appkey_requests_total";
        help = codes "App-key requests by outcome.";
        kind = counter;
        samples =
            (label (codes "result") (codes "ok"), t.decimal m.appkey_ok)
            ∷ (label (codes "result") (codes "unauthorized"), t.decimal m.appkey_unauthorized)
            ∷ (label (codes "result") (codes "bad_request"), t.decimal m.appkey_bad_request)
            ∷ (label (codes "result") (codes "not_ready"), t.decimal m.appkey_not_ready)
            ∷ (label (codes "result") (codes "error"), t.decimal m.appkey_error)
            ∷ [];
      }
      ∷ record {
        name = codes "kms_dprf_discarded_total";
        help = codes "Peer partials dropped during collection, by reason.";
        kind = counter;
        samples =
            (label (codes "reason") (codes "malformed"), t.decimal m.dprf_discarded_malformed)
            ∷ (label (codes "reason") (codes "peer_error"), t.decimal m.dprf_discarded_peer_error)
            ∷ [];
      }
      ∷ g (codes "kms_dprf_short_total")
          (codes "Derives that failed because no single epoch reached threshold.") counter
          (t.decimal m.dprf_short)
      ∷ []

  abbrev pub session_families : Metrics → List Family
  session_families m =
      record {
        name = codes "kms_session_total";
        help = codes "Key-formation sessions by kind and outcome.";
        kind = counter;
        samples =
            (session_label (codes "genesis") (codes "ok"), t.decimal m.genesis_ok)
            ∷ (session_label (codes "genesis") (codes "fail"), t.decimal m.genesis_fail)
            ∷ (session_label (codes "recovery") (codes "ok"), t.decimal m.recovery_ok)
            ∷ (session_label (codes "recovery") (codes "fail"), t.decimal m.recovery_fail)
            ∷ (session_label (codes "dealer") (codes "ok"), t.decimal m.dealer_ok)
            ∷ (session_label (codes "dealer") (codes "fail"), t.decimal m.dealer_fail)
            ∷ (session_label (codes "refresh") (codes "ok"), t.decimal m.refresh_ok)
            ∷ (session_label (codes "refresh") (codes "fail"), t.decimal m.refresh_fail)
            ∷ [];
      }
      ∷ g (codes "kms_fall_behind_total")
          (codes
            "Times the watchdog found this node on a stale epoch and triggered a catch-up rejoin.")
          counter (t.decimal m.fall_behind)
      ∷ g (codes "kms_membership_failures_total")
          (codes
            "Failures to assemble the committee (chain lookup failed, or this node's signer is not in the on-chain nodeList). While this climbs the node cannot form or rejoin.")
          counter (t.decimal m.membership_fail)
      ∷ []

  abbrev pub sealed_families : Metrics → List Family
  sealed_families m =
      g (codes "kms_sealed_persist_failures_total")
        (text
          "Failures to write the sealed share to durable storage. Harmless while running, fatal on the next restart — the node would have to rejoin instead of reloading.")
        counter (t.decimal m.sealed_persist_fail)
      ∷ g (codes "kms_sealed_stale_discarded_total")
          (codes "Sealed blobs dropped at boot for being older than the cluster epoch.") counter
          (t.decimal m.sealed_stale_discarded)
      ∷ g (codes "kms_sealed_identity_mismatch_total")
          (codes
            "Sealed blobs that could not be opened by this TEE identity, meaning the hardware identity changed and a rejoin is required.")
          counter (t.decimal m.sealed_identity_mismatch)
      ∷ g (codes "kms_share_path_writable")
          (codes
            "1 = the sealed-share path was writable at the last probe, 0 = not writable (a read-only filesystem looks healthy everywhere else), -1 = no path configured.")
          gauge (t.decimal_i64 m.share_path_writable)
      ∷ []

  abbrev pub verifier_families : Metrics → List Family
  verifier_families m =
      g (codes "kms_verifier_enabled")
        (text
          "1 = attested-admission gate active ([verifier] configured), 0 = admission is on-chain membership only. The fleet must be uniformly 1 or 0 — a mixed fleet gates inconsistently.")
        gauge (t.decimal_i64 m.verifier_enabled)
      ∷ record {
        name = codes "kms_verifier_total";
        help = codes "Attested-admission checks by outcome.";
        kind = counter;
        samples =
            (label (codes "result") (codes "allowed"), t.decimal m.verifier_allowed)
            ∷ (label (codes "result") (codes "denied"), t.decimal m.verifier_denied)
            ∷ (
              label (codes "result") (codes "unavailable_served_stale"),
              t.decimal m.verifier_stale_served,
            )
            ∷ (
              label (codes "result") (codes "unavailable_refused"),
              t.decimal m.verifier_unavailable_refused,
            )
            ∷ (label (codes "result") (codes "scan_behind"), t.decimal m.verifier_scan_behind)
            ∷ [];
      }
      ∷ []

  abbrev pub gossip_families : Reading → Metrics → List Family
  gossip_families r m =
      record {
        name = codes "kms_gossip_push_total";
        help = codes "Outbound gossip pushes by outcome.";
        kind = counter;
        samples =
            (label (codes "result") (codes "ok"), t.decimal m.gossip_push_ok)
            ∷ (label (codes "result") (codes "fail"), t.decimal m.gossip_push_fail)
            ∷ [];
      }
      ∷ g (codes "kms_gossip_last_success_age_seconds")
          (codes
            "Seconds since the last gossip push that reached any peer. -1 = never succeeded. Growing past a few rounds means this node is partitioned and its peer view is going stale.")
          gauge
          (if m.gossip_last_success == 0
            then codes "-1"
            else t.decimal_i64 (sub_i64 r.now m.gossip_last_success))
      ∷ record {
        name = codes "kms_chain_rpc_total";
        help = codes "nodeList lookups against the chain RPC, by outcome.";
        kind = counter;
        samples =
            (label (codes "result") (codes "ok"), t.decimal m.chain_rpc_ok)
            ∷ (label (codes "result") (codes "fail"), t.decimal m.chain_rpc_fail)
            ∷ [];
      }
      ∷ g (codes "kms_chain_stale_served_total")
          (codes
            "RPC failures absorbed by serving the last known nodeList. Authorization is running on data that is no longer being refreshed.")
          counter (t.decimal m.chain_stale_served)
      ∷ []

  -- All metrics, in order.
  unfoldable pub families : Reading → Metrics → ClusterView → List Family
  families r m v = joined (
      process_families r
      ∷ share_families r v
      ∷ committee_families v
      ∷ master_families m v
      ∷ derive_families m
      ∷ session_families m
      ∷ sealed_families m
      ∷ verifier_families m
      ∷ gossip_families r m
      ∷ [])

  -- `render`.
  unfoldable pub render : Reading → Metrics → AppState → Bytes
  unfolding families exposition cluster_view
  render r m s = exposition (families r m (cluster_view r.viewed s))
