-- ===== src/Auth/Requests.antt =====
-- A member's own requests are accepted (src/crypto.rs, src/auth.rs).
use g_kms.Prelude.{
  ℕ, ◌==◌, ==_iff, ◌≡◌, refl, ap, ◌∙◌, true, not, is_empty, length, List, [], ◌∷◌, some, Bytes, ok,
  map_err, ok_or_known, ensure_known, >>=_known, trim_0x, arith,
}
use g_kms.I64.{in_tolerance}
use g_kms.Chain.{contains}
use g_kms.Auth.{Authority, AuthError, request_message, verify_on_chain, attested, authenticate}
use g_kms.Auth.Metadata.{Formats, sign_request, request_metadata, parse_metadata, if_parsed}
use g_kms.Auth.Members.{IsMember}

-- What a member's key signs is 65 bytes and recovers to its public key.
abbrev pub SignsWith : Formats → Authority → Bytes → Bytes → Type 0
SignsWith f a private_key pubkey =
    (message sig : Bytes)
    → f.sign_bytes private_key message ≡ some sig
    → (length sig ≡ 65) × (a.recover_pubkey message sig ≡ some pubkey)

-- The formats are read back as they were written: hex never begins with "0x", and both are text.
abbrev pub ReadsHex : Formats → Bytes → Type 0
ReadsHex f bytes =
    (f.to_str (f.hex_encode bytes) ≡ some (f.hex_encode bytes))
    × (f.hex_decode (trim_0x (f.hex_encode bytes)) ≡ some bytes)

abbrev pub ReadsDecimal : Formats → Authority → ℕ → Type 0
ReadsDecimal f a n =
    (f.to_str (a.decimal n) ≡ some (a.decimal n)) × (f.parse_i64 (a.decimal n) ≡ some n)

module _ (f : Formats) (a : Authority) where
  parse_metadata-request_metadata :
      (sig : Bytes) (timestamp : ℕ)
      → length sig ≡ 65
      → ReadsHex f sig
      → ReadsDecimal f a timestamp
      → parse_metadata f a (request_metadata f a sig timestamp) ≡ ok (sig, timestamp)
  unfolding parse_metadata
  parse_metadata-request_metadata sig timestamp len (hex_text, decoded) (text, parsed) =
      let bad = AuthError.unauthenticated in
      ok_or_known (f.to_str (f.hex_encode sig)) bad _ hex_text
      ∙ ok_or_known (f.to_str (a.decimal timestamp)) bad _ text
      ∙ ok_or_known (f.hex_decode (trim_0x (f.hex_encode sig))) bad _ decoded
      ∙ ensure_known (length sig == 65) bad _ ((==_iff (length sig) 65).1 len)
      ∙ ok_or_known (f.parse_i64 (a.decimal timestamp)) bad _ parsed

  left_over : (addr : ℕ) (list : List ℕ) → contains addr list ≡ true → not (is_empty list) ≡ true
  left_over addr [] h = ground arith
  left_over addr (x ∷ list) h = refl

  verify_on_chain_ok : (addr : ℕ) → IsMember a addr → verify_on_chain a addr ≡ ok tt
  unfolding verify_on_chain
  verify_on_chain_ok addr (list, read, listed, attests) =
      ground (arith, read, listed, left_over addr list listed)

  -- A member's own request is accepted: what it signs for a method and an instant and puts into the
  -- metadata authenticates it there under that method, as the holder of its key, as long as the
  -- instant is within the window of the node that is called.
  pub authenticate-sign_request :
      (private_key pubkey method sig : Bytes) (timestamp now tolerance : ℕ)
      → SignsWith f a private_key pubkey
      → sign_request f a private_key method timestamp ≡ some sig
      → ReadsHex f sig
      → ReadsDecimal f a timestamp
      → in_tolerance now timestamp tolerance ≡ true
      → IsMember a (a.eth_address pubkey)
      → authenticate a
          (if_parsed (parse_metadata f a (request_metadata f a sig timestamp)))
          method
          now
          tolerance
        ≡ ok (record { caller_pubkey = pubkey; caller_eth_addr = a.eth_address pubkey })
  unfolding authenticate sign_request
  authenticate-sign_request private_key pubkey method sig timestamp now tolerance signs signed hex
        text recent member =
      let message = request_message a method timestamp in
      let (len, recovers) = signs message sig signed in
      let (list, read, listed, attests) = member in
      let bad = AuthError.unauthenticated in
      ap (λ m. authenticate a (if_parsed m) method now tolerance)
        (parse_metadata-request_metadata sig timestamp len hex text)
      ∙ ensure_known (in_tolerance now timestamp tolerance) bad _ recent
      ∙ ok_or_known (a.recover_pubkey message sig) bad _ recovers
      ∙ >>=_known (verify_on_chain a (a.eth_address pubkey)) _
          (verify_on_chain_ok (a.eth_address pubkey) member)
      ∙ >>=_known (attested a (a.eth_address pubkey)) _
          (ap (map_err (λ e. AuthError.permission_denied)) attests)
