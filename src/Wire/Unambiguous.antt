-- ===== src/Wire/Unambiguous.antt =====
-- Which contents a signed message determines (src/crypto.rs).
use native.Mathlib.Nat.{pow-suc}
use g_kms.Prelude.{
  ℕ, zero, suc, ◌^◌, ◌/◌, ◌%◌, ◌≡◌, ◌≢◌, ◌<◌, refl, ◌++◌, [], ◌∷◌, Bytes, codes, length,
  length-append, arith, ap, ◌∙◌, sym, some, get_elem?,
}
use g_kms.Wire.{
  be_bytes, be_u64, be_u32, dprf_dst, dprf_message, dprf_partial_signing_msg, shard_signing_msg,
}

length-be_bytes : (n v : ℕ) → length (be_bytes n v) ≡ n
unfolding be_bytes
length-be_bytes zero v = refl
length-be_bytes (suc n) v =
    omega (arith, length-append (be_bytes n (v / 256)) (v % 256 ∷ []), length-be_bytes n (v / 256))

-- Two splits of one text at the same length are one.
append-injective :
    (xs ys us vs : Bytes) → length xs ≡ length us → xs ++ ys ≡ us ++ vs → (xs ≡ us) × (ys ≡ vs)
append-injective [] ys [] vs h e = (refl, e)
append-injective [] ys (u ∷ us) vs h e = absurd (omega arith)
append-injective (x ∷ xs) ys [] vs h e = absurd (omega arith)
append-injective (x ∷ xs) ys (u ∷ us) vs h e = ground (arith, append-injective xs ys us vs)

be_bytes-injective : (n v w : ℕ) → v < 256 ^ n → w < 256 ^ n → be_bytes n v ≡ be_bytes n w → v ≡ w
unfolding be_bytes
be_bytes-injective zero v w hv hw e = omega arith
be_bytes-injective (suc n) v w hv hw e =
    let (high, low) =
      append-injective (be_bytes n (v / 256)) (v % 256 ∷ []) (be_bytes n (w / 256)) (w % 256 ∷ [])
        (length-be_bytes n (v / 256) ∙ sym (length-be_bytes n (w / 256))) e in
    let same : v % 256 ≡ w % 256 = cc in
    let ih =
      be_bytes-injective n (v / 256) (w / 256) (omega (arith, pow-suc 256 n))
        (omega (arith, pow-suc 256 n)) high in
    omega arith

-- A text behind its length is read back: the length fixes where it ends.
framed-injective :
    (xs ys us vs : Bytes)
    → length xs < 256 ^ 8
    → length us < 256 ^ 8
    → be_u64 (length xs) ++ (xs ++ ys) ≡ be_u64 (length us) ++ (us ++ vs)
    → (xs ≡ us) × (ys ≡ vs)
framed-injective xs ys us vs hx hu e =
    let (prefix, rest) =
      append-injective (be_u64 (length xs)) (xs ++ ys) (be_u64 (length us)) (us ++ vs)
        (length-be_bytes 8 (length xs) ∙ sym (length-be_bytes 8 (length us))) e in
    append-injective xs ys us vs (be_bytes-injective 8 (length xs) (length us) hx hu prefix) rest

append_same : (p xs ys : Bytes) → p ++ xs ≡ p ++ ys → xs ≡ ys
append_same p xs ys e = (append-injective p xs p ys refl e).1

length-meta : (i i' p p' : ℕ) → length (be_u32 i ++ be_u64 p) ≡ length (be_u32 i' ++ be_u64 p')
length-meta i i' p p' = omega (
  arith,
  length-append (be_u32 i) (be_u64 p),
  length-append (be_u32 i') (be_u64 p'),
  length-be_bytes 4 i,
  length-be_bytes 4 i',
  length-be_bytes 8 p,
  length-be_bytes 8 p',
)

-- The derivation message determines the app id and the material: two pairs with the same message
-- are the same pair, for texts shorter than 2 ^ 64 bytes.
pub dprf_message-injective :
    (app_id app_id' material material' : Bytes)
    → length app_id < 256 ^ 8
    → length app_id' < 256 ^ 8
    → length material < 256 ^ 8
    → length material' < 256 ^ 8
    → dprf_message app_id material ≡ dprf_message app_id' material'
    → (app_id ≡ app_id') × (material ≡ material')
unfolding dprf_message
dprf_message-injective app_id app_id' material material' a a' m m' e =
    let (same, rest) = framed-injective app_id _ app_id' _ a a' (append_same dprf_dst _ _ e) in
    let (prefix, rest') =
      append-injective (be_u64 (length material)) material (be_u64 (length material')) material'
        (length-be_bytes 8 (length material) ∙ sym (length-be_bytes 8 (length material'))) rest in
    (same, rest')

-- A signed partial binds its caller, shard index, epoch and ciphertext: two such messages, for
-- addresses of 20 bytes, 32-bit indices and 64-bit epochs, agree only if all four do.
dprf_partial_signing_msg-injective :
    (addr addr' : Bytes) (index index' epoch epoch' : ℕ) (ct ct' : Bytes)
    → length addr ≡ 20
    → length addr' ≡ 20
    → index < 256 ^ 4
    → index' < 256 ^ 4
    → epoch < 256 ^ 8
    → epoch' < 256 ^ 8
    → dprf_partial_signing_msg addr index epoch ct
      ≡ dprf_partial_signing_msg addr' index' epoch' ct'
    → (addr ≡ addr') × (index ≡ index') × (epoch ≡ epoch') × (ct ≡ ct')
unfolding dprf_partial_signing_msg
dprf_partial_signing_msg-injective addr addr' index index' epoch epoch' ct ct' l l' i i' p p' e =
    let meta = be_u32 index ++ be_u64 epoch in
    let meta' = be_u32 index' ++ be_u64 epoch' in
    let body =
      append_same (codes ":") _ _
        (append_same (codes "GetDprfPartial") _ _ (append_same (codes "kms-resp:") _ _ e)) in
    let (same_addr, rest) =
      append-injective addr (meta ++ ct) addr' (meta' ++ ct') (omega arith) body in
    let (same_meta, same_ct) =
      append-injective meta ct meta' ct' (length-meta index index' epoch epoch') rest in
    let (same_index, same_epoch) =
      append-injective (be_u32 index) (be_u64 epoch) (be_u32 index') (be_u64 epoch')
        (length-be_bytes 4 index ∙ sym (length-be_bytes 4 index')) same_meta in
    (
      same_addr,
      be_bytes-injective 4 index index' i i' same_index,
      be_bytes-injective 8 epoch epoch' p p' same_epoch,
      same_ct,
    )

different : (a b : ℕ) → a ≢ b → ¬ (some a ≡ some b)
different a b h e = ground arith

-- A response to one method is never a response to another: no signed partial is a shard response of
-- either RPC, and the two RPCs' shard responses differ, whatever their contents.
pub signing_msgs_disjoint :
    (addr addr' addr'' : Bytes) (i i' i'' epoch : ℕ) (ct ct' ct'' : Bytes)
    → let partial = dprf_partial_signing_msg addr i epoch ct in
      let requested = shard_signing_msg (codes "RequestShard") addr' i' ct' in
      let contributed = shard_signing_msg (codes "GetShardContribution") addr'' i'' ct'' in
      (partial ≢ requested) × (partial ≢ contributed) × (requested ≢ contributed)
unfolding dprf_partial_signing_msg shard_signing_msg
signing_msgs_disjoint addr addr' addr'' i i' i'' epoch ct ct' ct'' = (
  (λ e. different 71 82 (λ f. omega arith) (ap (λ m. get_elem? m 9) e)),
  (λ e. different 68 83 (λ f. omega arith) (ap (λ m. get_elem? m 12) e)),
  (λ e. different 82 71 (λ f. omega arith) (ap (λ m. get_elem? m 9) e)),
)
