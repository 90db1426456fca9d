-- ===== src/I64/Tests.antt =====
-- Timestamp checks at concrete instants (src/auth.rs, src/server.rs).
use g_kms.Prelude.{ℕ, ◌+◌, ◌-◌, ◌^◌, ◌≤◌, ◌≡◌, ◌⊎◌, ◌↔◌, true, arith}
use g_kms.I64.{in_tolerance}
use g_kms.I64.Window.{in_tolerance-negative}

abbrev now : ℕ
now = 1764000000

abbrev tolerance : ℕ
tolerance = 300

-- The number of seconds before 1970 whose distance to now is 2 ^ 63.
abbrev far : ℕ
far = 9223372035090775808

in_tolerance-negative_example :
    (in_tolerance now (2 ^ 64 - far) tolerance ≡ true)
    ↔ ((now + far ≤ tolerance) ⊎ (now + far ≡ 2 ^ 63))
in_tolerance-negative_example =
    in_tolerance-negative now far tolerance (omega arith) (omega arith) (omega arith) (omega arith)
