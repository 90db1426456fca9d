-- ===== src/Http/Monitoring.antt =====
-- GET /metrics against GET /peers (src/metrics.rs, `render`; src/server.rs, `handle_peers`).
use g_kms.Prelude.{ℕ, ◌≡◌, refl, none, some, Map, Bytes, bytes_eq, lookup, codes, subst, sym}
use g_kms.State.{AppState}
use g_kms.Metrics.{ClusterView, as_number, cluster_view}
use g_kms.Metrics.Registry.{Metrics}
use g_kms.Metrics.Render.{Texts, Reading, render, families}
use g_kms.Metrics.Scrape.{scrape, all_shown}
use g_kms.Metrics.Exposed.{IsLegible, scrape-render}
use g_kms.Http.{handle_peers}

-- The numbers of a view, as samples under these names.
abbrev pub Shows : Texts → Map Bytes Bytes → ClusterView → Type 0
Shows t samples v =
    (lookup (codes "kms_has_share") samples ≡ some (t.decimal (as_number v.has_share)))
    × (lookup (codes "kms_own_id") samples ≡ some (t.decimal v.own_id))
    × (lookup (codes "kms_epoch") samples ≡ some (t.decimal v.own_epoch))
    × (lookup (codes "kms_cluster_epoch") samples ≡ some (t.decimal v.cluster_epoch))
    × (lookup (codes "kms_threshold") samples ≡ some (t.decimal v.threshold))
    × (lookup (codes "kms_total_nodes") samples ≡ some (t.decimal v.total_nodes))
    × (lookup (codes "kms_recovery_threshold") samples ≡ some (t.decimal v.recovery_threshold))
    × (lookup (codes "kms_leading_holders") samples ≡ some (t.decimal v.leading_holders))
    × (lookup (codes "kms_live_share_holders") samples ≡ some (t.decimal v.live_share_holders))
    × (lookup (codes "kms_group_pubkey_mismatch") samples
        ≡ some (t.decimal v.group_pubkey_mismatch))

module _ (t : Texts) where
  view-Shows :
      (r : Reading) (m : Metrics) (v : ClusterView) → Shows t (all_shown (families t r m v)) v
  unfolding families lookup
  view-Shows r m v =
      elim v.group_pubkey
        as (λ pk. Shows t (all_shown (families t r m (record v { group_pubkey = pk }))) v) [
          | none ↦ (refl, refl, refl, refl, refl, refl, refl, refl, refl, refl)
          | some pk ↦ (refl, refl, refl, refl, refl, refl, refl, refl, refl, refl)
        ]

-- A scrape of GET /metrics shows, each under its series, the very numbers that GET /peers answers,
-- if both take their view of one state at one instant.
pub render-handle_peers :
    (t : Texts) (r : Reading) (m : Metrics) (s : AppState) (now : ℕ) (between : AppState → AppState)
    → IsLegible t
    → Shows t (scrape (render t r m s)) (handle_peers now r.viewed between s).0
unfolding handle_peers
render-handle_peers t r m s now between legible =
    subst (λ samples. Shows t samples (cluster_view r.viewed s))
      (sym (scrape-render t legible r m s)) (view-Shows t r m (cluster_view r.viewed s))
