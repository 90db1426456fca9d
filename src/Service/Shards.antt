-- ===== src/Service/Shards.antt =====
-- How a share is asked for and assigned: `request_shard` of src/grpc.rs with `request_shard_from_peer`
-- and `join_cluster` of src/init.rs.
use g_kms.Prelude.{
  ℕ, zero, suc, All, ◌≡◌, ◌≢◌, refl, sym, ap, subst, ◌∙◌, Bool, true, false, is_some, get_elem?,
  List, [], ◌∷◌, Option, none, some, Bytes, Result, ok, err, ok_or, map_err, ◌>>=◌, codes, arith,
}
use g_kms.Errors.{KmsError}
use g_kms.State.{AppState, ShardState, is_initialized}
use g_kms.Reshare.{ReshareError}
use g_kms.Formation.Gates.{IsGated, form_pass-IsGated}
use g_kms.Auth.{Authority, AuthError, authenticate}
use g_kms.Formation.{Contact, SeedError, Pass, Decision, form_pass, request_shard_from_peer}
use g_kms.Service.{
  Ecies, Status, Call, EncryptedShard, auth_status, caller, sealed_shard, assign_pending,
  init_or_status, request_shard,
}
use g_kms.Service.Client.{contact_of}

-- The answer is not the status of a node that holds nothing.
abbrev answers : {A : Type 0} → Result Status A → Bool
answers (ok r) = true
answers (err Status.unavailable) = false
answers (err Status.unauthenticated) = true
answers (err Status.permission_denied) = true
answers (err Status.failed_precondition) = true
answers (err Status.unimplemented) = true
answers (err Status.internal) = true

module _ {A B : Type 0} where
  ok_or-answers :
      (o : Option A) (e : Status) (next : A → Result Status B)
      → answers {A = A} (err e) ≡ true
      → ((a : A) → answers (next a) ≡ true)
      → answers (ok_or o e >>= next) ≡ true
  ok_or-answers none e next h k = h
  ok_or-answers (some a) e next h k = k a

map_err-answers :
    {A B : Type 0} (r : Result AuthError A) (next : A → Result Status B)
    → ((a : A) → answers (next a) ≡ true)
    → answers (map_err auth_status r >>= next) ≡ true
map_err-answers (err AuthError.unauthenticated) next k = refl
map_err-answers (err AuthError.permission_denied) next k = refl
map_err-answers (ok a) next k = k a

module _ (x : Ecies) (private_key : Bytes) (a : Authority) where
  sealed_shard-answers :
      (method pubkey : Bytes) (addr shard_index : ℕ) (shard_bytes : Bytes)
      → answers (sealed_shard x private_key a method pubkey addr shard_index shard_bytes) ≡ true
  sealed_shard-answers method pubkey addr shard_index shard_bytes =
      ok_or-answers (x.encrypt pubkey shard_bytes) Status.internal _ refl (λ ciphertext.
        ok_or-answers (x.sign_bytes private_key _) Status.internal _ refl (λ sig. refl))

  assign_pending-answers :
      (pubkey : Bytes) (signers : Result KmsError (List ℕ)) (shards : List (ℕ × Bytes))
      → answers (assign_pending x private_key a pubkey signers shards) ≡ true
  unfolding assign_pending
  assign_pending-answers pubkey (err e) shards = refl
  assign_pending-answers pubkey (ok node_list) shards =
      ok_or-answers _ Status.permission_denied _ refl (λ pos.
        ok_or-answers (get_elem? shards pos) Status.internal _ refl
          (λ entry. sealed_shard-answers (codes "RequestShard") pubkey _ entry.0 entry.1))

  init_or_status-answers :
      (pubkey : Bytes) (signers : Result KmsError (List ℕ)) (pending : Option (List (ℕ × Bytes)))
      (s : AppState)
      → is_some s.shard ≡ true
      → answers (init_or_status x private_key a pubkey signers pending s) ≡ true
  init_or_status-answers pubkey signers none s h = ground arith
  init_or_status-answers pubkey signers (some shards) s h =
      assign_pending-answers pubkey signers shards

  request_shard-answers :
      (call : Call) (signers : Result KmsError (List ℕ)) (s : AppState)
      → is_initialized s ≡ true
      → answers (request_shard x private_key a call signers s) ≡ true
  unfolding request_shard is_initialized caller
  request_shard-answers call signers s h =
      map_err-answers
        (authenticate a call.metadata (codes "RequestShard") call.now
          s.config.timestamp_tolerance_secs)
        _ (λ ctx. init_or_status-answers ctx.caller_pubkey signers s.pending_shards s h)

responded-reachable :
    (index : ℕ) (verified : Bool) (bytes : Option Bytes)
    → request_shard_from_peer (Contact.responded index verified bytes) ≢ err SeedError.unreachable
unfolding request_shard_from_peer
responded-reachable index false bytes u = ground arith
responded-reachable index true none u = ground arith
responded-reachable index true (some b) u = ground arith

module _ (x : Ecies) (private_key : Bytes) (a : Authority) (own_addr : ℕ) where
  contact_of-reachable :
      (r : Result Status EncryptedShard)
      → answers r ≡ true
      → request_shard_from_peer (contact_of x private_key a own_addr r) ≢ err SeedError.unreachable
  unfolding contact_of request_shard_from_peer
  contact_of-reachable (err Status.unavailable) h u = ground arith
  contact_of-reachable (err Status.unauthenticated) h u = ground arith
  contact_of-reachable (err Status.permission_denied) h u = ground arith
  contact_of-reachable (err Status.failed_precondition) h u = ground arith
  contact_of-reachable (err Status.unimplemented) h u = ground arith
  contact_of-reachable (err Status.internal) h u = ground arith
  contact_of-reachable (ok resp) h u =
      responded-reachable resp.shard_index _ (x.decrypt private_key resp.ciphertext) u

All-get_elem? {ℓ κ} :
    {A : Type ℓ} (P : A → Type κ) (xs : List A) (i : ℕ) {v : A}
    → All P xs
    → get_elem? xs i ≡ some v
    → P v
All-get_elem? P [] i h q = cc
All-get_elem? P (w ∷ xs) zero h q = subst P (ground arith) h.0
All-get_elem? P (w ∷ xs) (suc i) h q = All-get_elem? P xs i h.1 q

-- The disaster gate across two nodes: a node of whose seeds one holds a share and answers, whatever it
-- answers, starts no genesis.
pub form_pass-request_shard :
    (seal : ShardState → Bytes → Option Bytes) (x : Ecies) (peer_key own_key : Bytes)
    (peer_auth own_auth : Authority) (call : Call) (signers : Result KmsError (List ℕ))
    (peer : AppState) (pass : Pass) (since since' : Option ℕ) (s s' : AppState) (i : ℕ)
    (seed : Bytes) (r : Result ReshareError (Unit {0}))
    → get_elem? s.config.seeds i ≡ some seed
    → pass.contact seed
      ≡ contact_of x own_key own_auth s.eth_address
          (request_shard x peer_key peer_auth call signers peer)
    → is_initialized peer ≡ true
    → form_pass seal pass since s ≢ (Decision.genesis r, since', s')
form_pass-request_shard seal x peer_key own_key peer_auth own_auth call signers peer pass since
      since' s s' i seed r listed asked holds h =
    let gated : IsGated pass since s (Decision.genesis r, since', s') =
      subst (IsGated pass since s) h (form_pass-IsGated seal pass since s) in
    let (bare, list, m, read, assembled, complete, alone) = gated in
    let unreachable = All-get_elem? _ s.config.seeds i alone listed in
    contact_of-reachable x own_key own_auth s.eth_address
      (request_shard x peer_key peer_auth call signers peer)
      (request_shard-answers x peer_key peer_auth call signers peer holds)
      (ap request_shard_from_peer (sym asked) ∙ unreachable)
