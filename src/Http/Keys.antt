-- ===== src/Http/Keys.antt =====
-- Who gets a key over HTTP, and how requests are counted (src/server.rs, `app_key_inner` and
-- `handle_app_key`).
use g_kms.Prelude.{
  get_elem?-append, take-append, ℕ, ◌+◌, ◌≤◌, ◌==◌, ◌≡◌, refl, sym, ap, subst, ◌∙◌, true, is_empty,
  length, get_elem?, not, is_some, List, [], ◌∷◌, ◌++◌, Option, none, some, Bytes, codes, trim_0x,
  Result, ok, err, ok_or, >>=-eq-ok, ensure_step, ok_or_step, map_err_step, ok_or_known,
  ensure_known, length-append, arith,
}
use g_kms.Errors.{KmsError, status}
use g_kms.State.{AppState, ShardState}
use g_kms.I64.{in_tolerance}
use g_kms.Wire.{dprf_message}
use g_kms.Chain.{contains}
use g_kms.Derive.{Bls, DeriveTrace, collect_and_dprf}
use g_kms.Derive.Safe.{collect_and_dprf-verified}
use g_kms.Http.{
  Web, AppKeyRequest, KeyWorld, key_message, recovery_id, eip191_text, recover_eip191_address,
  app_key_inner, handle_ready,
}

-- A request is signed, within the window, by an attested signer of its app.
abbrev pub IsEntitled : Web → AppKeyRequest → KeyWorld → AppState → Type 0
IsEntitled w req env s =
    (in_tolerance env.now req.timestamp s.config.timestamp_tolerance_secs ≡ true)
    × (addr : ℕ) × (list : List ℕ) × (recover_eip191_address w (key_message w req.timestamp)
          req.signature
        ≡ ok addr)
    × (env.signers req.app_id addr ≡ ok list)
    × (contains addr list ≡ true)
    × (env.require_verified req.app_id addr ≡ ok tt)

-- A key is the one of a signature of the app id and the material that verifies against the group public
-- key, from at least the threshold of servers.
abbrev pub IsDerived :
    (b : Bls) → Bytes → Bytes → AppState → AppState → Bytes → DeriveTrace → Type 0
IsDerived b app_id material s s' key trace =
    (sigma : b.Sigma) × (pk : Bytes) × (s'.group_pubkey ≡ some pk)
    × (b.verify sigma pk (dprf_message app_id material) ≡ true)
    × (key ≡ b.app_key sigma)
    × (s.config.threshold ≤ length trace.servers)

abbrev pub IsIssued :
    Web → (b : Bls) → AppKeyRequest → KeyWorld → AppState → Bytes → DeriveTrace → Type 0
IsIssued w b req env s secret trace =
    (material : Bytes) × (key : Bytes) × (pubkey : Bytes) × (ciphertext : Bytes) × (w.hex_decode
        (trim_0x req.material)
      ≡ some material)
    × (w.hex_decode (trim_0x req.pubkey) ≡ some pubkey)
    × (w.ecies_encrypt pubkey key ≡ some ciphertext)
    × (secret ≡ w.hex_encode ciphertext)
    × (is_some (env.while_checking s).shard ≡ true)
    × IsDerived b req.app_id material s (env.while_collecting (env.while_checking s)) key trace

collect_and_dprf-IsDerived :
    (b : Bls) (shard : Option ShardState) (app_id material : Bytes) (request_sig : Option Bytes)
    (replies : List g_kms.Derive.Reply) (s s' : AppState) (key : Bytes) (trace : DeriveTrace)
    → collect_and_dprf b shard s.config.threshold s'.group_pubkey request_sig app_id material
        replies
      ≡ ok (key, trace)
    → (is_some shard ≡ true) × IsDerived b app_id material s s' key trace
unfolding collect_and_dprf
collect_and_dprf-IsDerived b none app_id material request_sig replies s s' key trace h =
    ground arith
collect_and_dprf-IsDerived b (some own) app_id material request_sig replies s s' key trace h =
    let ((sigma, pk, known, verifies, derives), coordinator, ascending, enough) =
      collect_and_dprf-verified b own s.config.threshold s'.group_pubkey request_sig app_id material
        replies key trace h in
    (refl, (sigma, pk, known, verifies, derives, enough))

-- Key safety, end to end: a key goes out only for a request that an attested signer on the app's list
-- has signed within the window; what goes out is encrypted to the request's public key, and is the
-- key of that app id and material under this cluster's master, from enough servers.
pub app_key_inner-IsIssued :
    (w : Web) (b : Bls) (req : AppKeyRequest) (env : KeyWorld) (s : AppState) (secret : Bytes)
    (trace : DeriveTrace)
    → app_key_inner w b req env s ≡ ok (secret, trace)
    → IsEntitled w req env s × IsIssued w b req env s secret trace
unfolding app_key_inner
app_key_inner-IsIssued w b req env s secret trace h =
    let (recent, h1) =
      ensure_step (in_tolerance env.now req.timestamp s.config.timestamp_tolerance_secs) _ _ h in
    let (addr, signed, h2) =
      >>=-eq-ok (recover_eip191_address w (key_message w req.timestamp) req.signature) _ h1 in
    let (list, read, h3) = >>=-eq-ok (env.signers req.app_id addr) _ h2 in
    let (some_left, h4) = ensure_step (not (is_empty list)) _ _ h3 in
    let (listed, h5) = ensure_step (contains addr list) _ _ h4 in
    let (u, attests, h6) = map_err_step _ (env.require_verified req.app_id addr) _ h5 in
    let (material, bound, h7) = ok_or_step (w.hex_decode (trim_0x req.material)) _ _ h6 in
    let (derived, derives, h8) =
      >>=-eq-ok
        (collect_and_dprf b (env.while_checking s).shard s.config.threshold
          (env.while_collecting (env.while_checking s)).group_pubkey env.request_sig req.app_id
          material env.replies)
        _ h7 in
    let (pubkey, keyed, h9) = ok_or_step (w.hex_decode (trim_0x req.pubkey)) _ _ h8 in
    let (ciphertext, encrypted, made) = ok_or_step (w.ecies_encrypt pubkey derived.0) _ _ h9 in
    let same : w.hex_encode ciphertext ≡ secret = ground arith in
    let traced : derived.1 ≡ trace = ground arith in
    let (holds, genuine) =
      collect_and_dprf-IsDerived b (env.while_checking s).shard req.app_id material env.request_sig
        env.replies s (env.while_collecting (env.while_checking s)) derived.0 derived.1 derives in
    (
      (recent, addr, list, signed, read, listed, attests),
      (
        material,
        derived.0,
        pubkey,
        ciphertext,
        bound,
        keyed,
        encrypted,
        sym same,
        holds,
        subst
            (IsDerived b req.app_id material s (env.while_collecting (env.while_checking s))
              derived.0)
            traced genuine,
      ),
    )

-- A node hands out a key only while it says that it is ready, as far as other tasks leave its share and
-- group public key alone: the balancer that follows /ready takes no key away from a caller.
handle_ready-app_key_inner :
    (w : Web) (b : Bls) (req : AppKeyRequest) (env : KeyWorld) (s : AppState) (secret : Bytes)
    (trace : DeriveTrace)
    → env.while_checking s ≡ s
    → env.while_collecting s ≡ s
    → app_key_inner w b req env s ≡ ok (secret, trace)
    → handle_ready s ≡ record { status_code = 200; body = codes "ready" }
unfolding handle_ready
handle_ready-app_key_inner w b req env s secret trace quiet still h =
    let (entitled, issued) = app_key_inner-IsIssued w b req env s secret trace h in
    let (material, key, pubkey, ciphertext, bound, keyed, encrypted, same, holds, derived) =
      issued in
    let (sigma, pk, known, verifies, derives, enough) = derived in
    let at_rest : env.while_collecting (env.while_checking s) ≡ s =
      ap env.while_collecting quiet ∙ still in
    let held : is_some s.shard ≡ true = ap (λ t. is_some t.shard) (sym quiet) ∙ holds in
    let keyed_by : is_some s.group_pubkey ≡ true =
      ap (λ t. is_some t.group_pubkey) (sym at_rest) ∙ ap is_some known in
    ground (arith, held, keyed_by)

-- The status code of a response.
abbrev pub code_of : {A : Type 0} → Result KmsError A → ℕ
code_of (ok a) = 200
code_of (err e) = status e

-- What a decoded signature of 65 bytes recovers to.
recover_eip191_address-decoded :
    (w : Web) (message signature rs : Bytes) (v rid : ℕ)
    → w.hex_decode (trim_0x signature) ≡ some (rs ++ v ∷ [])
    → length rs ≡ 64
    → recovery_id v ≡ some rid
    → recover_eip191_address w message signature
      ≡ ok_or (w.recover_address (eip191_text w message) rs rid) KmsError.invalid_signature
unfolding recover_eip191_address
recover_eip191_address-decoded w message signature rs v rid decoded len known =
    let sig = rs ++ v ∷ [] in
    let whole : (length sig == 65) ≡ true = ground (arith, length-append rs (v ∷ []), len) in
    ok_or_known (w.hex_decode (trim_0x signature)) KmsError.invalid_signature _ decoded
    ∙ ensure_known (length sig == 65) KmsError.invalid_signature _ whole
    ∙ ok_or_known (get_elem? sig 64) KmsError.invalid_signature _ (get_elem?-append rs v 64 len)
    ∙ ok_or_known (recovery_id v) KmsError.invalid_signature _ known
    ∙ ap (λ t. ok_or (w.recover_address (eip191_text w message) t rid) KmsError.invalid_signature)
        (take-append rs v 64 len)

-- A signature recovers to the same address in both forms of its last byte, normalized (0 or 1) and
-- Ethereum-style (27 or 28), with or without leading "0x".
recover_eip191_address-recovery_id :
    (w : Web) (message signature signature' rs : Bytes) (v : ℕ)
    → v ≤ 1
    → length rs ≡ 64
    → w.hex_decode (trim_0x signature) ≡ some (rs ++ v ∷ [])
    → w.hex_decode (trim_0x signature') ≡ some (rs ++ (v + 27) ∷ [])
    → recover_eip191_address w message signature ≡ recover_eip191_address w message signature'
recover_eip191_address-recovery_id w message signature signature' rs v small len decoded decoded' =
    recover_eip191_address-decoded w message signature rs v v decoded len (ground arith)
    ∙ sym (
        recover_eip191_address-decoded w message signature' rs (v + 27) v decoded' len
          (ground arith))
