-- ===== src/Metrics/Baseline.antt =====
-- What a sequence of baseline checks leaves in the file (src/metrics.rs).
use g_kms.Prelude.{
  ◌≡◌, refl, Bool, false, List, [], ◌∷◌, Bytes, beq_bytes, is_empty, trim, if◌then◌else◌,
}
use g_kms.Seal.{FileRead}
use g_kms.Metrics.{Verdict, check_master_baseline, check_all}

one_check :
    (text live : Bytes) (written : Bool)
    → is_empty (trim text) ≡ false
    → check_master_baseline live written (FileRead.contents text) ≡ (
      if beq_bytes (trim text) live then Verdict.matches else Verdict.mismatch,
      FileRead.contents text,
    )
unfolding check_master_baseline
one_check text live written h = rw h refl

-- A baseline that is recorded stays, whatever masters are checked against it and whatever writes
-- would succeed: every later check, after any others, tells whether its master is the recorded one.
check_master_baseline-check_all :
    (text : Bytes) (checks : List (Bytes × Bool)) (live : Bytes) (written : Bool)
    → is_empty (trim text) ≡ false
    → check_master_baseline live written (check_all checks (FileRead.contents text)) ≡ (
      if beq_bytes (trim text) live then Verdict.matches else Verdict.mismatch,
      FileRead.contents text,
    )
unfolding check_all
check_master_baseline-check_all text [] live written h = one_check text live written h
check_master_baseline-check_all text ((m, w) ∷ checks) live written h =
    rw (one_check text m w h) (check_master_baseline-check_all text checks live written h)
