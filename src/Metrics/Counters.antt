-- ===== src/Metrics/Counters.antt =====
-- Counters and gauges that the node keeps of itself (src/metrics.rs).
use g_kms.Prelude.{
  ℕ, ◌+◌, ◌%◌, ◌^◌, ◌==◌, ◌≡◌, refl, max, Bool, false, if◌then◌else◌, is_ok, List, [], ◌∷◌, Option,
  none, some, Bytes, Result, arith,
}

-- `inc`: a u64, which wraps.
abbrev pub inc : ℕ → ℕ
inc n = (n + 1) % 2 ^ 64

-- `record`, on the counters of successes and failures.
unfoldable pub record_outcome {ℓ κ} : {E : Type ℓ} {T : Type κ} → Result E T → ℕ × ℕ → ℕ × ℕ
record_outcome r (ok_count, fail_count) =
    if is_ok r then (inc ok_count, fail_count) else (ok_count, inc fail_count)

-- `note_share_acquired`, some seconds after the start, on `last_recovery_seconds`.
unfoldable pub note_share_acquired : ℕ → ℕ → ℕ
note_share_acquired elapsed last = if last == 0 then max elapsed 1 else last

-- The verdicts -1, 0 and 1 of `probe_share_path`.
pub data Probe : Type 0 where
  no_path : Probe
  unwritable : Probe
  writable : Probe

-- `probe_share_path`, for whether the file beside the path can be written.
unfoldable pub probe_share_path : Option Bytes → Bool → Probe
probe_share_path none written = Probe.no_path
probe_share_path (some path) written = if written then Probe.writable else Probe.unwritable

-- A sequence of acquisitions, each at its time.
abbrev note_all : List ℕ → ℕ → ℕ
unfolding note_share_acquired
note_all [] last = last
note_all (elapsed ∷ later) last = note_all later (note_share_acquired elapsed last)

note_all_frozen : (later : List ℕ) (last : ℕ) → (last == 0) ≡ false → note_all later last ≡ last
unfolding note_all note_share_acquired
note_all_frozen [] last h = refl
note_all_frozen (elapsed ∷ later) last h = ground (arith, note_all_frozen later last h)

-- Only the first acquisition after the start counts, and it counts at least one second.
note_all_first : (elapsed : ℕ) (later : List ℕ) → note_all (elapsed ∷ later) 0 ≡ max elapsed 1
unfolding note_all note_share_acquired
note_all_first elapsed later = note_all_frozen later (max elapsed 1) (ground arith)
