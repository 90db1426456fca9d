-- ===== src/Time.antt =====
-- Monotonic instants (`std::time::Instant`), in nanoseconds.
use g_kms.Prelude.{ℕ, ◌-◌, ◌*◌}

-- `Duration::from_secs`.
abbrev pub seconds : ℕ → ℕ
seconds n = n * 1000000000

-- `now.duration_since(t)`, which is 0 for a later `t`, as `t.elapsed()` is at `now`.
abbrev pub elapsed : ℕ → ℕ → ℕ
elapsed now t = now - t
