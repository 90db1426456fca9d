-- ===== src/I64/Window.antt =====
-- Which timestamps are accepted (src/auth.rs, src/server.rs).
use g_kms.Prelude.{ℕ, ◌+◌, ◌-◌, ◌^◌, ◌≤◌, ◌<◌, ◌≡◌, ◌⊎◌, ◌↔◌, true, arith}
use g_kms.I64.{in_tolerance}

-- A timestamp at or after 1970 is accepted exactly if it is at most the tolerance away from now, on
-- either side; now and the tolerance are far below the i64 range.
in_tolerance_iff :
    (now timestamp tolerance : ℕ)
    → now < 2 ^ 62
    → timestamp < 2 ^ 63
    → tolerance < 2 ^ 62
    → (in_tolerance now timestamp tolerance ≡ true)
      ↔ ((now ≤ timestamp + tolerance) × (timestamp ≤ now + tolerance))
unfolding in_tolerance
in_tolerance_iff now timestamp tolerance a b c = (λ h. ground arith, λ h. ground arith)

-- A negative timestamp -n passes only if it is near now, too, or if it is exactly now - 2 ^ 63: that
-- difference wraps to `i64::MIN`, whose absolute value is again `i64::MIN`, less than any tolerance.
pub in_tolerance-negative :
    (now n tolerance : ℕ)
    → now < 2 ^ 62
    → 0 < n
    → n ≤ 2 ^ 63
    → tolerance < 2 ^ 62
    → (in_tolerance now (2 ^ 64 - n) tolerance ≡ true)
      ↔ ((now + n ≤ tolerance) ⊎ (now + n ≡ 2 ^ 63))
unfolding in_tolerance
in_tolerance-negative now n tolerance a b c d = (λ h. ground arith, λ h. ground arith)
