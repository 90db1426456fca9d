-- ===== src/Metrics/Exposed.antt =====
-- What GET /metrics shows, read as a scraper reads it (src/metrics.rs, `render`).
use Prim.Native.Nat.{min}
use g_kms.Prelude.{
  Map, lookup, bytes_eq, not, ◌&&◌, ℕ, ◌≡◌, refl, if◌then◌else◌, Bool, true, false, List, [], ◌∷◌,
  All, All-append, Option, none, some, Bytes, is_some, take, length, ◌*◌, arith, zero, suc,
}
use g_kms.I64.{sub_i64}
use g_kms.State.{AppState}
use g_kms.Metrics.{ClusterView, cluster_view}
use g_kms.Metrics.Registry.{Metrics}
use g_kms.Metrics.Exposition.{Family, joined}
use g_kms.Metrics.Render.{
  Texts, Reading, group_pubkey_info, process_families, share_families, committee_families,
  master_families, derive_families, session_families, sealed_families, verifier_families,
  gossip_families, families, render,
}
use g_kms.Metrics.Scrape.{
  IsPlain, IsReadable, free, free-append, scrape, scrape-exposition, all_shown,
}

-- Numbers are written without spaces, and nothing is written with line feeds.
pub record IsLegible (t : Texts) : Type 0 where
  pub decimal : (n : ℕ) → IsPlain (t.decimal n)
  pub decimal_i64 : (n : ℕ) → IsPlain (t.decimal_i64 n)
  pub hex : (b : Bytes) → free 10 (t.hex b) ≡ true
  pub version : free 10 t.version ≡ true

free-if :
    (c : ℕ) (b : Bool) (s t : Bytes)
    → free c s ≡ true
    → free c t ≡ true
    → free c (if b then s else t) ≡ true
free-if c true s t hs ht = hs
free-if c false s t hs ht = ht

free-take : (c n : ℕ) (s : Bytes) → free c s ≡ true → free c (take n s) ≡ true
free-take c zero s h = refl
free-take c (suc n) [] h = refl
free-take c (suc n) (d ∷ s) h = ground (arith, free-take c n s)

joined-IsReadable :
    (groups : List (List Family)) → All (All IsReadable) groups → All IsReadable (joined groups)
joined-IsReadable [] all = tt
joined-IsReadable (group ∷ groups) (readable, all) =
    All-append IsReadable group (joined groups) readable (joined-IsReadable groups all)

module _ (t : Texts) (h : IsLegible t) where
  process_families-IsReadable : (r : Reading) → All IsReadable (process_families t r)
  process_families-IsReadable r = (
    (refl, ((free-append 10 t.version _ h.version refl, (refl, refl)), tt)),
    ((refl, search (h.decimal)), tt),
  )

  share_families-IsReadable :
      (r : Reading) (v : ClusterView) → All IsReadable (share_families t r v)
  share_families-IsReadable r v =
      let (line, words) = h.decimal r.shardless in search (h.decimal, free-if, line, words) parts 40

  committee_families-IsReadable : (v : ClusterView) → All IsReadable (committee_families t v)
  committee_families-IsReadable v = search (h.decimal, h.decimal_i64) parts 40

  derive_families-IsReadable : (m : Metrics) → All IsReadable (derive_families t m)
  derive_families-IsReadable m = search (h.decimal, h.decimal_i64) parts 40

  session_families-IsReadable : (m : Metrics) → All IsReadable (session_families t m)
  session_families-IsReadable m = search (h.decimal, h.decimal_i64) parts 40

  sealed_families-IsReadable : (m : Metrics) → All IsReadable (sealed_families t m)
  sealed_families-IsReadable m = search (h.decimal, h.decimal_i64) parts 40

  verifier_families-IsReadable : (m : Metrics) → All IsReadable (verifier_families t m)
  verifier_families-IsReadable m = search (h.decimal, h.decimal_i64) parts 40

  gossip_families-IsReadable : (r : Reading) (m : Metrics) → All IsReadable (gossip_families t r m)
  gossip_families-IsReadable r m =
      let (line, words) = h.decimal_i64 (sub_i64 r.now m.gossip_last_success) in
      search (h.decimal, free-if, line, words) parts 40

  group_pubkey_info-IsReadable : (pk : Option Bytes) → All IsReadable (group_pubkey_info t pk)
  group_pubkey_info-IsReadable none = tt
  group_pubkey_info-IsReadable (some pk) =
      let hash = take (min 16 (length pk * 2)) (t.hex pk) in
      (
        (
          refl,
          ((free-append 10 hash _ (free-take 10 _ (t.hex pk) (h.hex pk)) refl, (refl, refl)), tt),
        ),
        tt,
      )

  master_families-IsReadable :
      (m : Metrics) (v : ClusterView) → All IsReadable (master_families t m v)
  master_families-IsReadable m v = (
    search (h.decimal) parts 40,
    All-append IsReadable (group_pubkey_info t v.group_pubkey) _
        (group_pubkey_info-IsReadable v.group_pubkey) (search (h.decimal, h.decimal_i64) parts 40),
  )

  families-IsReadable :
      (r : Reading) (m : Metrics) (v : ClusterView) → All IsReadable (families t r m v)
  unfolding families
  families-IsReadable r m v =
      joined-IsReadable
        (process_families t r
          ∷ share_families t r v
          ∷ committee_families t v
          ∷ master_families t m v
          ∷ derive_families t m
          ∷ session_families t m
          ∷ sealed_families t m
          ∷ verifier_families t m
          ∷ gossip_families t r m
          ∷ [])
        (
          process_families-IsReadable r,
          (
            share_families-IsReadable r v,
            (
              committee_families-IsReadable v,
              (
                master_families-IsReadable m v,
                (
                  derive_families-IsReadable m,
                  (
                    session_families-IsReadable m,
                    (
                      sealed_families-IsReadable m,
                      (verifier_families-IsReadable m, (gossip_families-IsReadable r m, tt)),
                    ),
                  ),
                ),
              ),
            ),
          ),
        )

  -- A scraper reads just the series and values that the node gave to its metrics, in order.
  pub scrape-render :
      (r : Reading) (m : Metrics) (s : AppState)
      → scrape (render t r m s) ≡ all_shown (families t r m (cluster_view r.viewed s))
  unfolding render
  scrape-render r m s =
      scrape-exposition (families t r m (cluster_view r.viewed s))
        (families-IsReadable r m (cluster_view r.viewed s))

-- No series of a list of samples comes twice.
abbrev pub distinct : Map Bytes Bytes → Bool
distinct [] = true
distinct ((key, value) ∷ samples) = not (is_some (lookup key samples)) && distinct samples

module _ (t : Texts) where
  families-distinct :
      (r : Reading) (m : Metrics) (v : ClusterView) → distinct (all_shown (families t r m v)) ≡ true
  unfolding families lookup
  families-distinct r m v =
      elim v.group_pubkey
        as (λ pk. distinct (all_shown (families t r m (record v { group_pubkey = pk }))) ≡ true) [
          | none ↦ refl
          | some pk ↦ refl
        ]
