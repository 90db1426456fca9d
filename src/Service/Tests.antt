-- ===== src/Service/Tests.antt =====
-- A partial and shares between two nodes (src/grpc.rs, src/init.rs).
use g_kms.Prelude.{
  ℕ, zero, suc, ◌≡◌, ◌≢◌, refl, sym, ap, true, none, some, [], ◌∷◌, length, unwrap_or, Bytes,
  Result, ok, codes,
}
use g_kms.State.{is_initialized, AppState, Config, ShardState, new_state}
use g_kms.Wire.{dprf_partial_signing_msg}
use g_kms.Reshare.{Session}
use g_kms.Formation.{Pass, Decision, form_pass}
use g_kms.Auth.{Authority}
use g_kms.Auth.Members.{IsMember}
use g_kms.Service.{Ecies, Status, Call, EncryptedPartial, addr_bytes, request_shard}
use g_kms.Service.Client.{ask_partial, contact_of}
use g_kms.Service.Partials.{IsVouched, SignsAs, DecryptsFor, ask_partial-IsVouched}
use g_kms.Service.Shards.{form_pass-request_shard}

abbrev zeros : ℕ → Bytes
zeros zero = []
zeros (suc n) = 0 ∷ zeros n

abbrev authority : Authority
authority = record {
  recover_pubkey = λ m s. some (codes "pk");
  eth_address = λ k. 10;
  decimal = λ n. codes "1000";
  node_list = λ a. ok (10 ∷ 20 ∷ []);
  require_verified = λ a. ok tt;
}

-- The ciphertext is the plaintext, and a signature 65 zeros.
abbrev plain : Ecies
plain = record {
  encrypt = λ k m. some m;
  decrypt = λ k c. some c;
  sign_bytes = λ k m. some (zeros 65);
}

abbrev config : Config
config = record {
  threshold = 1;
  total_nodes = 2;
  self_url = codes "a:1";
  seeds = codes "b:1" ∷ [];
  sealed_share = none;
  sealed_share_path = none;
  timestamp_tolerance_secs = 300;
  app_id = codes "kms";
}

abbrev own : ShardState
own = record { shard_index = 1; shard_bytes = codes "share"; epoch = 1 }

abbrev node : AppState
node = new_state config 10

abbrev holder : AppState
holder = record node { shard = some own }

abbrev call : Call
call = record { metadata = some (codes "sig", 1000); now = 1010 }

abbrev key : Bytes
key = codes "key"

signs : SignsAs plain key authority (codes "pk")
signs message sig h = (ap (λ o. length (unwrap_or (zeros 65) o)) (sym h), refl)

decrypts : DecryptsFor plain (codes "pk") key
decrypts m c h = sym h

member : IsMember authority 10
member = (10 ∷ 20 ∷ [], refl, refl, refl)

abbrev answered : EncryptedPartial
answered = record { ciphertext = codes "share"; shard_index = 1; epoch = 1; signature = zeros 65 }

abbrev answer : Result Status EncryptedPartial
answer = ok answered

ask_partial-IsVouched_example :
    (resp : EncryptedPartial) × (answer ≡ ok resp)
    × IsVouched authority
        (dprf_partial_signing_msg (addr_bytes 10) 1 1 resp.ciphertext)
        resp.signature
    × (plain.decrypt key resp.ciphertext ≡ some (codes "share"))
unfolding ask_partial
ask_partial-IsVouched_example =
    ask_partial-IsVouched plain key authority 10 (ok answered) 1 (codes "share") 1 refl

abbrev session : Session
session = record { meanwhile = λ s. s; keys = some (codes "new", codes "gpk") }

abbrev pass : Pass
pass = record {
  node_list = some (10 ∷ 20 ∷ []);
  now = 1010;
  signed = true;
  contact = λ u.
      contact_of plain key authority 10 (request_shard plain key authority call (ok []) holder);
  while_asking = λ s. s;
  instant = 7;
  session = session;
}

form_pass-request_shard_example :
    form_pass (λ shard pk. some pk) pass none node ≢ (Decision.genesis (ok tt), none, node)
unfolding new_state is_initialized
form_pass-request_shard_example =
    form_pass-request_shard (λ shard pk. some pk) plain key key authority authority call (ok [])
      holder pass none none node node 0 (codes "b:1") (ok tt) refl refl refl
