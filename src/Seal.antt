-- ===== src/Seal.antt =====
-- src/seal.rs and the reload in src/init.rs: a share sealed to the node's own key, kept for a restart.
-- BARE serialisation, ECIES and base64 are libraries, the fields of a parameter.
pub mod Restart
use g_kms.Prelude.{
  ℕ, suc, ◌==◌, ltb, not, Bool, true, false, ◌||◌, if◌then◌else◌, List, [], ◌∷◌, ◌++◌, length, take,
  drop, Option, none, some, Result, ok, err, ◌>>=◌, ok_or, Bytes, beq_bytes, is_empty, trim,
}
use g_kms.State.{AppState, ShardState, known_epoch}

abbrev pub magic : Bytes
magic = b'K' ∷ b'M' ∷ b'S' ∷ b'S' ∷ []

abbrev pub envelope_version : ℕ
envelope_version = 1

abbrev pub record_version : ℕ
record_version = 1

pub record SealedShareV1 : Type 0 where
  pub record_version : ℕ
  pub shard_index : ℕ
  pub epoch : ℕ
  pub master_id : Bytes
  pub share : Bytes

-- `SealedShareV1::new`.
abbrev pub new_record : ℕ → ℕ → Bytes → Bytes → SealedShareV1
new_record shard_index epoch master_id share = record {
  record_version = record_version;
  shard_index = shard_index;
  epoch = epoch;
  master_id = master_id;
  share = share;
}

-- The calls that the code makes of its libraries; `none` is their error.
pub record Codec : Type 0 where
  pub to_bare : SealedShareV1 → Option Bytes
  pub from_bare : Bytes → Option SealedShareV1
  -- `ecies_encrypt`, for a public key, and `ecies_decrypt`, for a private key
  pub encrypt : Bytes → Bytes → Option Bytes
  pub decrypt : Bytes → Bytes → Option Bytes
  pub encode : Bytes → Bytes
  pub decode : Bytes → Option Bytes

pub data SealError : Type 0 where
  not_serialized : SealError
  not_encrypted : SealError
  not_parsed : SealError

module _ (c : Codec) where
  unfoldable pub seal_to_bytes : Bytes → SealedShareV1 → Result SealError Bytes
  seal_to_bytes own_pubkey rec = do
    payload ← ok_or (c.to_bare rec) SealError.not_serialized
    ct ← ok_or (c.encrypt own_pubkey payload) SealError.not_encrypted
    ok (magic ++ envelope_version ∷ ct)

  abbrev pub readable : SealedShareV1 → Option SealedShareV1
  readable rec = if rec.record_version == record_version then some rec else none

  -- The record in a payload that this identity could decrypt.
  abbrev pub parse_payload : Option Bytes → Result SealError (Option SealedShareV1)
  parse_payload none = ok none
  parse_payload (some payload) = do
    rec ← ok_or (c.from_bare payload) SealError.not_parsed
    ok (readable rec)

  -- What follows the magic.
  abbrev pub open_envelope : Bytes → Bytes → Result SealError (Option SealedShareV1)
  open_envelope own_privkey [] = ok none
  open_envelope own_privkey (version ∷ ct) =
      if not (version == envelope_version)
      then ok none
      else parse_payload (c.decrypt own_privkey ct)

  unfoldable pub unseal_from_bytes : Bytes → Bytes → Result SealError (Option SealedShareV1)
  unseal_from_bytes buf own_privkey =
      if ltb (length buf) 5 || not (beq_bytes (take 4 buf) magic)
      then ok none
      else open_envelope own_privkey (drop 4 buf)

  unfoldable pub seal_b64 : Bytes → SealedShareV1 → Result SealError Bytes
  unfolding seal_to_bytes
  seal_b64 own_pubkey rec = seal_to_bytes own_pubkey rec >>= λ buf. ok (c.encode buf)

  abbrev pub unseal_decoded : Option Bytes → Bytes → Result SealError (Option SealedShareV1)
  unseal_decoded none own_privkey = ok none
  unseal_decoded (some buf) own_privkey = unseal_from_bytes buf own_privkey

  unfoldable pub unseal_b64 : Bytes → Bytes → Result SealError (Option SealedShareV1)
  unfolding unseal_from_bytes
  unseal_b64 text own_privkey =
      let s = trim text in if is_empty s then ok none else unseal_decoded (c.decode s) own_privkey

-- What reading a file gives: its text, its absence, or another error.
pub data FileRead : Type 0 where
  contents : Bytes → FileRead
  absent : FileRead
  unreadable : FileRead

abbrev pub nonblank : Option Bytes → Option Bytes
nonblank none = none
nonblank (some v) = if is_empty (trim v) then none else some v

abbrev pub or_else : Option Bytes → Option Bytes → Option Bytes
or_else none o = o
or_else (some v) o = some v

abbrev pub trimmed : Option Bytes → Option Bytes
trimmed none = none
trimmed (some v) = some (trim v)

-- `read_blob_file`, where an error reads as no blob, as its caller has it.
abbrev pub read_blob_file : FileRead → Option Bytes
read_blob_file (FileRead.contents text) = trimmed (nonblank (some text))
read_blob_file FileRead.absent = none
read_blob_file FileRead.unreadable = none

-- A node's surroundings: the two environment variables and the files.
pub record Surroundings : Type 0 where
  pub env_share : Option Bytes
  pub env_path : Option Bytes
  pub files : Bytes → FileRead

abbrev pub sealed_share_blob : Surroundings → AppState → Option Bytes
sealed_share_blob around s = nonblank (or_else (nonblank around.env_share) s.config.sealed_share)

abbrev pub sealed_share_path : Surroundings → AppState → Option Bytes
sealed_share_path around s =
    trimmed (nonblank (or_else (nonblank around.env_path) s.config.sealed_share_path))

abbrev pub from_file : Surroundings → Option Bytes → Option Bytes
from_file around none = none
from_file around (some path) = read_blob_file (around.files path)

-- The blob to reload: the variable, the configuration, or else the file.
unfoldable pub blob_source : Surroundings → AppState → Option Bytes
blob_source around s =
    or_else (sealed_share_blob around s) (from_file around (sealed_share_path around s))

abbrev pub adopt : Bytes → SealedShareV1 → AppState → AppState
adopt b64 rec s = record s {
  sealed_share = some (trim b64);
  group_pubkey = some rec.master_id;
  shard =
      some (record { shard_index = rec.shard_index; shard_bytes = rec.share; epoch = rec.epoch });
}

-- The reload of an unsealed record, unless the cluster is known to be past it.
abbrev pub adopt_fresh :
    Bytes → Result SealError (Option SealedShareV1) → AppState → Bool × AppState
adopt_fresh b64 (err e) s = (false, s)
adopt_fresh b64 (ok none) s = (false, s)
adopt_fresh b64 (ok (some rec)) s =
    if ltb rec.epoch (known_epoch s) then (false, s) else (true, adopt b64 rec s)

abbrev pub reload :
    Codec → Bytes → (AppState → AppState) → Option Bytes → AppState → Bool × AppState
reload c own_privkey meanwhile none s = (false, s)
reload c own_privkey meanwhile (some b64) s =
    adopt_fresh b64 (unseal_b64 c b64 own_privkey) (meanwhile s)

-- `try_reload_sealed`. While it waits for gossip, at most six times three seconds, other tasks run.
unfoldable pub try_reload_sealed :
    Codec → Bytes → Surroundings → (AppState → AppState) → AppState → Bool × AppState
unfolding blob_source unseal_b64
try_reload_sealed c own_privkey around meanwhile s =
    reload c own_privkey meanwhile (blob_source around s) s
