-- ===== src/Verifier/Tests.antt =====
-- The verdict cache on small inputs, and its theorems at concrete data. A key is a number here.
use g_kms.Prelude.{
  ℕ, zero, suc, ◌+◌, ◌*◌, ◌≡◌, ◌⊎◌, refl, true, false, [], ◌∷◌, some, arith, lookup, insert, ok,
  Map, Bytes, nat_eq,
}
use g_kms.Time.{seconds}
use g_kms.Verifier.{
  Answer, CacheEntry, Gate, Call, positive, settle, cached_decision, require_verified, poll_loop,
  has_stale_positive, scan_lag_wait,
}
use g_kms.Verifier.Polling.{require_verified_total}
use g_kms.Verifier.History.{Event, run}
use g_kms.Verifier.Admission.{IsFetched, IsConfirmed, IsConfirmedBy, require_verified-IsConfirmed}
use g_kms.Verifier.Pinning.{verify_server_cert}

abbrev signer : ℕ
signer = 7

-- Scan does not know the signer at second 10, and vouches for it at second 13.
abbrev restarted : Call ℕ
restarted = record {
  lag_wait = scan_lag_wait;
  started = seconds 10;
  while_locking = λ c. c;
  locked = seconds 10;
  fetched = (some Answer.unknown, seconds 10);
  polls = λ i. (some (Answer.verdict true []), seconds (13 + i * 3));
  while_asking = λ c. c;
  while_polling = λ c. c;
  written = seconds 13;
}

-- The verdict is waited for, and cached.
restarted_passes :
    require_verified restarted signer [] ≡ some (ok tt, (signer, positive (seconds 13)) ∷ [])
unfolding require_verified cached_decision poll_loop has_stale_positive settle lookup insert
restarted_passes = refl

require_verified_total_example :
    (r : Gate × Map ℕ CacheEntry) × (require_verified restarted signer [] ≡ some r)
require_verified_total_example =
    require_verified_total restarted signer []
      (record { first = omega arith; next = λ j. omega arith })

require_verified-IsConfirmed_example :
    IsConfirmed restarted.started signer []
    ⊎ (IsConfirmed restarted.locked signer []
        ⊎ ((v : Event ℕ) × (v.key ≡ signer)
            × IsFetched restarted (v.outcome, v.now)
            × (v.written ≡ restarted.written)
            × ((signer, positive (seconds 13)) ∷ [] ≡ run (v ∷ []))
            × IsConfirmedBy v []))
unfolding run require_verified cached_decision poll_loop has_stale_positive settle lookup insert
require_verified-IsConfirmed_example =
    require_verified-IsConfirmed restarted signer [] [] [] ((signer, positive (seconds 13)) ∷ [])
      refl refl refl

-- A decoder takes every text for 32 zero bytes.
abbrev zeros : ℕ → Bytes
zeros zero = []
zeros (suc n) = 0 ∷ zeros n

unpinned_refused : verify_server_cert (zeros 32 ∷ []) (some (1 ∷ [])) ≡ false
unfolding verify_server_cert
unpinned_refused = refl
