-- ===== src/Startup/Tests.antt =====
-- A node that starts with a key from its environment, and one that asks its agent (src/main.rs).
use g_kms.Prelude.{
  Option-cases, inl, inr, ℕ, zero, suc, ◌≡◌, ap, true, false, length, [], ◌∷◌, Option, none, some,
  Bytes, arith, unwrap_or, if◌then◌else◌, ltb,
}
use g_kms.Startup.{NodeKey, KeyResponse, Outside, fetch_signing_key}
use g_kms.Startup.Keys.{HalvesLength, Sound, IsSized, fetch_signing_key-Sound}

abbrev ones : ℕ → Bytes
ones zero = []
ones (suc n) = 1 ∷ ones n

-- Two characters are a byte, the second.
abbrev decode : Bytes → Option Bytes
decode [] = some []
decode (a ∷ []) = none
decode (a ∷ c ∷ text) = elim (decode text) [ none ↦ none | some bytes ↦ some (c ∷ bytes) ]

decode-HalvesLength : HalvesLength decode
decode-HalvesLength [] bytes h = ground arith
decode-HalvesLength (a ∷ []) bytes h = ground arith
decode-HalvesLength (a ∷ c ∷ text) bytes h = elim (Option-cases (decode text)) [
  | inl bad ↦ ground arith
  | inr (rest, decoded) ↦
      let same : some (c ∷ rest) ≡ some bytes = ground arith in
      omega (arith, ap (λ o. length (unwrap_or [] o)) same, decode-HalvesLength text rest decoded)
]

abbrev key : NodeKey
key = record { private_key = ones 32; eth_address = ones 20 }

abbrev response : KeyResponse
response = record { success = true; private_key = ones 32; eth_address = ones 20 }

-- The agent answers at the third call.
abbrev call : ℕ → Option KeyResponse
call n = if ltb n 3 then none else some response

abbrev outside : Outside
outside = record {
  hex_decode = decode;
  key_variable = none;
  address_variable = none;
  connected = true;
  call = call;
}

fetch_signing_key-Sound_example : Sound IsSized (fetch_signing_key false outside)
fetch_signing_key-Sound_example = fetch_signing_key-Sound false outside decode-HalvesLength
