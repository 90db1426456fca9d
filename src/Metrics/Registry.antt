-- ===== src/Metrics/Registry.antt =====
-- The counters and gauges of the process (src/metrics.rs, `Metrics`). An i64 is its bit pattern.
use g_kms.Prelude.{ℕ, ◌-◌, ◌^◌}

-- -1 as an i64.
abbrev pub minus_one : ℕ
minus_one = 2 ^ 64 - 1

-- `Metrics`, without the instant of its creation.
pub record Metrics : Type 0 where
  pub appkey_ok : ℕ
  pub appkey_unauthorized : ℕ
  pub appkey_not_ready : ℕ
  pub appkey_bad_request : ℕ
  pub appkey_error : ℕ
  pub dprf_discarded_malformed : ℕ
  pub dprf_discarded_peer_error : ℕ
  pub dprf_short : ℕ
  pub genesis_ok : ℕ
  pub genesis_fail : ℕ
  pub recovery_ok : ℕ
  pub recovery_fail : ℕ
  pub dealer_ok : ℕ
  pub dealer_fail : ℕ
  pub refresh_ok : ℕ
  pub refresh_fail : ℕ
  pub fall_behind : ℕ
  pub membership_fail : ℕ
  pub sealed_persist_fail : ℕ
  pub sealed_stale_discarded : ℕ
  pub sealed_identity_mismatch : ℕ
  -- an i64
  pub share_path_writable : ℕ
  -- an i64
  pub master_matches_baseline : ℕ
  pub last_recovery_seconds : ℕ
  -- an i64
  pub verifier_enabled : ℕ
  pub verifier_allowed : ℕ
  pub verifier_denied : ℕ
  pub verifier_stale_served : ℕ
  pub verifier_unavailable_refused : ℕ
  pub verifier_scan_behind : ℕ
  pub gossip_push_ok : ℕ
  pub gossip_push_fail : ℕ
  -- an i64
  pub gossip_last_success : ℕ
  pub chain_rpc_ok : ℕ
  pub chain_rpc_fail : ℕ
  pub chain_stale_served : ℕ

-- `Metrics::new`.
unfoldable pub new_metrics : Metrics
new_metrics = record {
  appkey_ok = 0;
  appkey_unauthorized = 0;
  appkey_not_ready = 0;
  appkey_bad_request = 0;
  appkey_error = 0;
  dprf_discarded_malformed = 0;
  dprf_discarded_peer_error = 0;
  dprf_short = 0;
  genesis_ok = 0;
  genesis_fail = 0;
  recovery_ok = 0;
  recovery_fail = 0;
  dealer_ok = 0;
  dealer_fail = 0;
  refresh_ok = 0;
  refresh_fail = 0;
  fall_behind = 0;
  membership_fail = 0;
  sealed_persist_fail = 0;
  sealed_stale_discarded = 0;
  sealed_identity_mismatch = 0;
  share_path_writable = minus_one;
  master_matches_baseline = minus_one;
  last_recovery_seconds = 0;
  verifier_enabled = 0;
  verifier_allowed = 0;
  verifier_denied = 0;
  verifier_stale_served = 0;
  verifier_unavailable_refused = 0;
  verifier_scan_behind = 0;
  gossip_push_ok = 0;
  gossip_push_fail = 0;
  gossip_last_success = 0;
  chain_rpc_ok = 0;
  chain_rpc_fail = 0;
  chain_stale_served = 0;
}
