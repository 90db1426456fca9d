-- ===== src/Wire.antt =====
-- The messages of src/crypto.rs: what is hashed to the curve for a derivation, and what a response
-- to a peer is signed over.
pub mod Unambiguous
mod Tests
use g_kms.Prelude.{ℕ, zero, suc, ◌/◌, ◌%◌, ◌++◌, [], ◌∷◌, Bytes, codes, length}

-- The `n` low bytes of a number, the most significant first.
unfoldable pub be_bytes : ℕ → ℕ → Bytes
be_bytes zero v = []
be_bytes (suc n) v = be_bytes n (v / 256) ++ v % 256 ∷ []

-- `(x as u64).to_be_bytes()` and `x.to_be_bytes()` of a u32.
abbrev pub be_u64 : ℕ → Bytes
be_u64 = be_bytes 8

abbrev pub be_u32 : ℕ → Bytes
be_u32 = be_bytes 4

abbrev pub dprf_dst : Bytes
dprf_dst = codes "0g-kms:dprf:v1"

unfoldable pub dprf_message : Bytes → Bytes → Bytes
dprf_message app_id material =
    dprf_dst ++ (be_u64 (length app_id) ++ (app_id ++ (be_u64 (length material) ++ material)))

-- `caller_addr` is the 20 bytes of an address.
unfoldable pub ecies_response_msg : Bytes → Bytes → Bytes → Bytes → Bytes
ecies_response_msg method caller_addr meta ciphertext =
    codes "kms-resp:" ++ (method ++ (codes ":" ++ (caller_addr ++ (meta ++ ciphertext))))

unfoldable pub dprf_partial_signing_msg : Bytes → ℕ → ℕ → Bytes → Bytes
unfolding ecies_response_msg
dprf_partial_signing_msg caller_addr shard_index epoch ciphertext =
    ecies_response_msg (codes "GetDprfPartial") caller_addr (be_u32 shard_index ++ be_u64 epoch)
      ciphertext

unfoldable pub shard_signing_msg : Bytes → Bytes → ℕ → Bytes → Bytes
unfolding ecies_response_msg
shard_signing_msg method caller_addr shard_index ciphertext =
    ecies_response_msg method caller_addr (be_u32 shard_index) ciphertext
