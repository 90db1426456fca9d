-- ===== src/Auth/Metadata.antt =====
-- The metadata of a request, written by the caller (src/crypto.rs, `sign_request`; src/grpc.rs) and read
-- by the node that is called (src/auth.rs, `parse_metadata`). Text formats and signing are libraries'.
use g_kms.Prelude.{
  ℕ, ◌==◌, length, Option, none, some, Bytes, Result, ok, err, ◌>>=◌, ◌>>◌, ok_or, ensure, trim_0x,
}
use g_kms.Auth.{Authority, AuthError, request_message}

pub record Formats : Type 0 where
  -- `MetadataValue::to_str`
  pub to_str : Bytes → Option Bytes
  pub hex_decode : Bytes → Option Bytes
  pub hex_encode : Bytes → Bytes
  -- an i64 from its text
  pub parse_i64 : Bytes → Option ℕ
  pub sign_bytes : Bytes → Bytes → Option Bytes

-- The two entries of the metadata that are read.
pub record Metadata : Type 0 where
  pub signature : Option Bytes
  pub timestamp : Option Bytes

module _ (f : Formats) (a : Authority) where
  -- `sign_request`.
  unfoldable pub sign_request : Bytes → Bytes → ℕ → Option Bytes
  sign_request private_key method timestamp =
      f.sign_bytes private_key (request_message a method timestamp)

  -- What every client call puts into its request.
  abbrev pub request_metadata : Bytes → ℕ → Metadata
  request_metadata sig timestamp = record {
    signature = some (f.hex_encode sig);
    timestamp = some (a.decimal timestamp);
  }

  -- `parse_metadata`.
  unfoldable pub parse_metadata : Metadata → Result AuthError (Bytes × ℕ)
  parse_metadata metadata = do
    sig_value ← ok_or metadata.signature AuthError.unauthenticated
    sig_hex ← ok_or (f.to_str sig_value) AuthError.unauthenticated
    ts_value ← ok_or metadata.timestamp AuthError.unauthenticated
    ts_str ← ok_or (f.to_str ts_value) AuthError.unauthenticated
    sig_bytes ← ok_or (f.hex_decode (trim_0x sig_hex)) AuthError.unauthenticated
    ensure (length sig_bytes == 65) AuthError.unauthenticated
    timestamp ← ok_or (f.parse_i64 ts_str) AuthError.unauthenticated
    ok (sig_bytes, timestamp)

-- The metadata as `authenticate` takes them: none if they do not parse.
abbrev pub if_parsed : Result AuthError (Bytes × ℕ) → Option (Bytes × ℕ)
if_parsed (ok parsed) = some parsed
if_parsed (err e) = none
