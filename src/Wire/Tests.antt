-- ===== src/Wire/Tests.antt =====
-- Messages at concrete contents (src/crypto.rs).
use g_kms.Prelude.{ℕ, zero, suc, ◌≡◌, ◌≢◌, refl, [], ◌∷◌, ◌++◌, Bytes, codes, arith}
use g_kms.Wire.{be_bytes, dprf_message, dprf_dst, dprf_partial_signing_msg, shard_signing_msg}
use g_kms.Wire.Unambiguous.{dprf_message-injective, signing_msgs_disjoint}

abbrev zeros : ℕ → Bytes
zeros zero = []
zeros (suc n) = 0 ∷ zeros n

message_of_ab_c :
    dprf_message (codes "ab") (codes "c")
    ≡ dprf_dst
      ++ (0 ∷ 0 ∷ 0 ∷ 0 ∷ 0 ∷ 0 ∷ 0 ∷ 2 ∷ b'a' ∷ b'b' ∷ 0 ∷ 0 ∷ 0 ∷ 0 ∷ 0 ∷ 0 ∷ 0 ∷ 1 ∷ b'c' ∷ [])
unfolding dprf_message be_bytes
message_of_ab_c = refl

dprf_message-injective_example : (codes "ab" ≡ codes "ab") × (codes "c" ≡ codes "c")
dprf_message-injective_example =
    dprf_message-injective (codes "ab") (codes "ab") (codes "c") (codes "c") (omega arith)
      (omega arith) (omega arith) (omega arith) refl

signing_msgs_disjoint_example :
    let partial = dprf_partial_signing_msg (zeros 20) 3 5 (codes "ct") in
    let requested = shard_signing_msg (codes "RequestShard") (zeros 20) 3 (codes "ct") in
    let contributed = shard_signing_msg (codes "GetShardContribution") (zeros 20) 3 (codes "ct") in
    (partial ≢ requested) × (partial ≢ contributed) × (requested ≢ contributed)
signing_msgs_disjoint_example =
    signing_msgs_disjoint (zeros 20) (zeros 20) (zeros 20) 3 3 3 5 (codes "ct") (codes "ct")
      (codes "ct")
