-- ===== src/Startup.antt =====
-- How a node starts: src/main.rs, with the signing key of src/tee.rs and the process-wide verifier of
-- src/verifier.rs. What the environment and the TEE agent answer is an argument. A panic is an error
-- of its own here.
pub mod Keys
pub mod Serving
mod Tests
use g_kms.Prelude.{
  ℕ, zero, suc, ◌+◌, ◌*◌, ◌==◌, Bool, true, false, if◌then◌else◌, length, List, [], ◌∷◌, Option,
  none, some, Bytes, trim_0x, Result, ok, err, ◌>>=◌, ◌>>◌, ensure, ok_or, map_err,
}
use g_kms.State.{AppState, Config, new_state}
use g_kms.Verifier.{Gate}
use g_kms.Verifier.Pinning.{VerifierConfig, BootError, Client, new_client}

pub record NodeKey : Type 0 where
  pub private_key : Bytes
  pub eth_address : Bytes

pub data TeeError : Type 0 where
  not_set : TeeError
  bad_length : TeeError
  not_hex : TeeError
  no_connection : TeeError
  refused : TeeError
  rpc_failed : TeeError
  panicked : TeeError

-- `try_into().unwrap()`, into an array of `n` bytes.
abbrev pub array_or_panic : ℕ → Bytes → Result TeeError Bytes
array_or_panic n bytes = if length bytes == n then ok bytes else err TeeError.panicked

-- A variable of the environment, as the hex text of `n` bytes.
abbrev pub hex_variable : (Bytes → Option Bytes) → ℕ → Option Bytes → Result TeeError Bytes
hex_variable hex_decode n variable = do
  raw ← ok_or variable TeeError.not_set
  ensure (length (trim_0x raw) == n + n) TeeError.bad_length
  bytes ← ok_or (hex_decode (trim_0x raw)) TeeError.not_hex
  array_or_panic n bytes

-- `fetch_mock`, for the two variables.
unfoldable pub fetch_mock :
    (Bytes → Option Bytes) → Option Bytes → Option Bytes → Result TeeError NodeKey
fetch_mock hex_decode key_variable address_variable = do
  private_key ← hex_variable hex_decode 32 key_variable
  eth_address ← hex_variable hex_decode 20 address_variable
  ok (record { private_key = private_key; eth_address = eth_address })

pub record KeyResponse : Type 0 where
  pub success : Bool
  pub private_key : Bytes
  pub eth_address : Bytes

-- What is made of a response of the agent.
unfoldable pub checked_key : KeyResponse → Result TeeError NodeKey
checked_key resp = do
  ensure resp.success TeeError.refused
  ensure (length resp.private_key == 32) TeeError.bad_length
  ensure (length resp.eth_address == 20) TeeError.bad_length
  private_key ← array_or_panic 32 resp.private_key
  eth_address ← array_or_panic 20 resp.eth_address
  ok (record { private_key = private_key; eth_address = eth_address })

-- The attempts from the `n`-th on, of which `left` are left: the first response decides, and after a
-- failed call there is a wait of as many seconds as its number. With the seconds waited.
unfoldable pub attempts : ℕ → ℕ → (ℕ → Option KeyResponse) → Result TeeError NodeKey × ℕ
unfolding checked_key
attempts zero n call = (err TeeError.rpc_failed, 0)
attempts (suc left) n call =
    let (later, waited) = attempts left (suc n) call in
    elim (call n) [ none ↦ (later, n + waited) | some resp ↦ (checked_key resp, 0) ]

-- `fetch_grpc`.
unfoldable pub fetch_grpc : Bool → (ℕ → Option KeyResponse) → Result TeeError NodeKey × ℕ
unfolding attempts
fetch_grpc connected call =
    if connected then attempts 10 1 call else (err TeeError.no_connection, 0)

-- What the node finds outside: the environment and the agent.
pub record Outside : Type 0 where
  pub hex_decode : Bytes → Option Bytes
  pub key_variable : Option Bytes
  pub address_variable : Option Bytes
  pub connected : Bool
  pub call : ℕ → Option KeyResponse

-- `fetch_signing_key`.
unfoldable pub fetch_signing_key : Bool → Outside → Result TeeError NodeKey
unfolding fetch_mock fetch_grpc
fetch_signing_key mock_tee out =
    if mock_tee
    then fetch_mock out.hex_decode out.key_variable out.address_variable
    else (fetch_grpc out.connected out.call).0

-- An address of bytes as a number.
abbrev pub be_value : ℕ → Bytes → ℕ
be_value acc [] = acc
be_value acc (b ∷ bytes) = be_value (acc * 256 + b) bytes

-- `verifier::init`: no section is no client, and a bad one is an error.
abbrev pub init_verifier :
    (Bytes → Option Bytes) → Option VerifierConfig → Result BootError (Option Client)
init_verifier decode_hex none = ok none
init_verifier decode_hex (some cfg) = do client ← new_client decode_hex cfg; ok (some client)

-- `verifier::require_verified`: without a verifier the gate is open.
abbrev pub gate_of : Option (Bytes → ℕ → Gate) → Bytes → ℕ → Gate
gate_of none app_id signer = ok tt
gate_of (some require) app_id signer = require app_id signer

pub data StartError : Type 0 where
  no_config : StartError
  verifier_failed : BootError → StartError
  key_failed : TeeError → StartError

-- The sections of the configuration file that the start reads.
pub record File : Type 0 where
  pub config : Config
  pub mock_tee : Bool
  pub verifier : Option VerifierConfig

-- A node whose servers start.
pub record Node : Type 0 where
  pub state : AppState
  pub client : Option Client

-- `main`, up to the start of its servers and tasks.
unfoldable pub main : Outside → Option File → Result StartError Node
unfolding fetch_signing_key new_state
main out file = do
  f ← ok_or file StartError.no_config
  client ← map_err StartError.verifier_failed (init_verifier out.hex_decode f.verifier)
  key ← map_err StartError.key_failed (fetch_signing_key f.mock_tee out)
  ok (record { state = new_state f.config (be_value 0 key.eth_address); client = client })
