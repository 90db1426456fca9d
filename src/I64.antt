-- ===== src/I64.antt =====
-- The i64 arithmetic of the timestamp checks in src/auth.rs and src/server.rs. An i64 is its bit
-- pattern, a number below 2 ^ 64. Sums and differences wrap, as they do in the release build, whose
-- profile turns no overflow check on.
pub mod Window
mod Tests
use g_kms.Prelude.{ℕ, ◌+◌, ◌-◌, ◌%◌, ◌^◌, Bool, ltb, leb, if◌then◌else◌}

-- `a - b`.
unfoldable pub sub_i64 : ℕ → ℕ → ℕ
sub_i64 a b = (a + 2 ^ 64 - b) % 2 ^ 64

-- `x.abs()`, which leaves `i64::MIN` as it is.
unfoldable pub abs_i64 : ℕ → ℕ
abs_i64 x = if ltb x (2 ^ 63) then x else (2 ^ 64 - x) % 2 ^ 64

-- `a <= b`, signed.
unfoldable pub le_i64 : ℕ → ℕ → Bool
le_i64 a b = leb ((a + 2 ^ 63) % 2 ^ 64) ((b + 2 ^ 63) % 2 ^ 64)

-- `(now - timestamp).abs() > tolerance`, the refusal of `authenticate`, `app_key_inner` and
-- `handle_refresh`, negated.
unfoldable pub in_tolerance : ℕ → ℕ → ℕ → Bool
unfolding sub_i64 abs_i64 le_i64
in_tolerance now timestamp tolerance = le_i64 (abs_i64 (sub_i64 now timestamp)) tolerance
