-- ===== src/Verifier/Pinning.antt =====
-- src/verifier.rs: what `Verifier::new` accepts of the configuration, and the certificate check.
-- Hex decoding and the certificate's parser and hash are parameters.
use g_kms.Prelude.{
  ◌≡◌, ◌≢◌, ◌⊎◌, subst, Bool, true, false, not, Bool-cases, inl, inr, List, [], ◌∷◌, Option, none,
  some, arith, Bytes, beq_bytes, any, length, if◌then◌else◌, ◌==◌, ◌&&◌, Result, ok, err, ◌>>=◌,
  >>=-eq-ok, codes, starts_with, trim_0x,
}

-- `VerifierConfig` (src/config.rs).
pub record VerifierConfig : Type 0 where
  pub url : Bytes
  pub pubkeys : List Bytes
  pub api_key : Bytes
  pub insecure_http : Bool

pub data BootError : Type 0 where
  bad_scheme plain_http not_hex bad_length no_pins : BootError

-- The client that is built: without pinning, or with the pinned key hashes.
pub data Client : Type 0 where
  plaintext : Client
  pinned : List Bytes → Client

module _ (decode_hex : Bytes → Option Bytes) where
  abbrev pub check_pin : Option Bytes → Result BootError Bytes
  check_pin none = err BootError.not_hex
  check_pin (some b) = if length b == 32 then ok b else err BootError.bad_length

  -- `iter().map(…).collect::<Result<_>>()`: the first error ends it.
  unfoldable pub decode_pins : List Bytes → Result BootError (List Bytes)
  decode_pins [] = ok []
  decode_pins (k ∷ ks) = do
    pin ← check_pin (decode_hex (trim_0x k))
    pins ← decode_pins ks
    ok (pin ∷ pins)

  abbrev pub require_pins : List Bytes → Result BootError Client
  require_pins [] = err BootError.no_pins
  require_pins (k ∷ ks) = ok (Client.pinned (k ∷ ks))

  -- `Verifier::new`.
  unfoldable pub new_client : VerifierConfig → Result BootError Client
  unfolding decode_pins
  new_client cfg =
      if not (starts_with (codes "http://") cfg.url) && not (starts_with (codes "https://") cfg.url)
      then err BootError.bad_scheme
      else (if starts_with (codes "http://") cfg.url
          then (if cfg.insecure_http then ok Client.plaintext else err BootError.plain_http)
          else (decode_pins cfg.pubkeys >>= require_pins))

-- `PinnedKeyVerifier::verify_server_cert` on the certificate's SPKI hash (`none`: it does not parse).
unfoldable pub verify_server_cert : List Bytes → Option Bytes → Bool
verify_server_cert pins none = false
verify_server_cert pins (some presented) = any (λ k. beq_bytes k presented) pins

-- Every pin is the decoding of a configured key, in the same order, and 32 bytes long.
abbrev pub AreDecoded : (Bytes → Option Bytes) → List Bytes → List Bytes → Type 0
AreDecoded decode [] [] = Unit
AreDecoded decode [] (p ∷ ps) = ⊥
AreDecoded decode (k ∷ ks) [] = ⊥
AreDecoded decode (k ∷ ks) (p ∷ ps) =
    (decode (trim_0x k) ≡ some p) × (length p ≡ 32) × AreDecoded decode ks ps

module _ (decode_hex : Bytes → Option Bytes) where
  ok-injective :
      {ps qs : List Bytes} → ◌≡◌ {A = Result BootError (List Bytes)} (ok ps) (ok qs) → ps ≡ qs
  ok-injective h = cc

  check_pin-ok :
      (o : Option Bytes) (p : Bytes)
      → check_pin decode_hex o ≡ ok p
      → (o ≡ some p) × (length p ≡ 32)
  check_pin-ok none p h = cc
  check_pin-ok (some b) p h = ground arith

  decode_pins-AreDecoded :
      (ks ps : List Bytes) → decode_pins decode_hex ks ≡ ok ps → AreDecoded decode_hex ks ps
  unfolding decode_pins
  decode_pins-AreDecoded [] [] h = tt
  decode_pins-AreDecoded [] (p ∷ ps) h = cc
  decode_pins-AreDecoded (k ∷ ks) ps h =
      let (pin, decoded, rest) = >>=-eq-ok (check_pin decode_hex (decode_hex (trim_0x k))) _ h in
      let (pins, more, last) = >>=-eq-ok (decode_pins decode_hex ks) _ rest in
      let good = check_pin-ok (decode_hex (trim_0x k)) pin decoded in
      subst (AreDecoded decode_hex (k ∷ ks)) (ok-injective last)
        (good.0, good.1, decode_pins-AreDecoded ks pins more)

  require_pins-ok :
      (ps : List Bytes) (c : Client)
      → require_pins decode_hex ps ≡ ok c
      → (c ≡ Client.pinned ps) × (ps ≢ [])
  require_pins-ok [] c h = cc
  require_pins-ok (p ∷ ps) c h = (ground arith, λ e. cc)

  -- A client over https pins the configured keys and nothing else: at least one, all of them, in
  -- order, each of 32 bytes. A client without pinning is built only for a plain-http URL that the
  -- configuration allows by `insecure_http`.
  new_client-cases :
      (cfg : VerifierConfig) (c : Client)
      → new_client decode_hex cfg ≡ ok c
      → (c ≡ Client.plaintext)
          × (cfg.insecure_http ≡ true)
          × (starts_with (codes "http://") cfg.url ≡ true)
        ⊎ ((ps : List Bytes) × (c ≡ Client.pinned ps)
            × (ps ≢ [])
            × (starts_with (codes "https://") cfg.url ≡ true)
            × AreDecoded decode_hex cfg.pubkeys ps)
  unfolding new_client
  new_client-cases cfg c h = elim (Bool-cases (starts_with (codes "http://") cfg.url)) [
    | inl plain ↦ inl (ground arith)
    | inr other ↦ elim (Bool-cases (starts_with (codes "https://") cfg.url)) [
      | inr neither ↦ absurd (ground arith)
      | inl tls ↦
          let built : (decode_pins decode_hex cfg.pubkeys >>= require_pins decode_hex) ≡ ok c =
            ground arith in
          let (ps, decoded, built') = >>=-eq-ok (decode_pins decode_hex cfg.pubkeys) _ built in
          let good = require_pins-ok ps c built' in
          inr (ps, good.0, good.1, tls, decode_pins-AreDecoded cfg.pubkeys ps decoded)
    ]
  ]
