-- ===== src/Startup/Keys.antt =====
-- The signing key of a node (src/tee.rs).
use g_kms.Prelude.{
  ℕ, zero, suc, ◌+◌, ◌≤◌, ◌==◌, ==_iff, ◌≡◌, refl, sym, ap, subst, ◌∙◌, Bool, true, false,
  Bool-cases, Option-cases, inl, inr, length, Option, none, some, Bytes, trim_0x, Result, ok, err,
  ok_or, ensure, ◌>>=◌, arith,
}
use g_kms.Startup.{
  NodeKey, TeeError, KeyResponse, Outside, array_or_panic, hex_variable, checked_key, attempts,
  fetch_grpc, fetch_signing_key,
}

-- No panic, and a property of what comes out.
abbrev pub Sound : {A : Type 0} → (A → Type 0) → Result TeeError A → Type 0
Sound P (ok a) = P a
Sound P (err TeeError.not_set) = Unit
Sound P (err TeeError.bad_length) = Unit
Sound P (err TeeError.not_hex) = Unit
Sound P (err TeeError.no_connection) = Unit
Sound P (err TeeError.refused) = Unit
Sound P (err TeeError.rpc_failed) = Unit
Sound P (err TeeError.panicked) = ⊥

-- A key is 32 bytes with an address of 20.
abbrev pub IsSized : NodeKey → Type 0
IsSized key = (length key.private_key ≡ 32) × (length key.eth_address ≡ 20)

-- `hex::decode`: two digits for each byte.
abbrev pub HalvesLength : (Bytes → Option Bytes) → Type 0
HalvesLength hex_decode =
    (text bytes : Bytes) → hex_decode text ≡ some bytes → length text ≡ length bytes + length bytes

module _ {A B : Type 0} where
  >>=-Sound :
      (P : A → Type 0) (Q : B → Type 0) (first : Result TeeError A) (next : A → Result TeeError B)
      → Sound P first
      → ((a : A) → P a → Sound Q (next a))
      → Sound Q (first >>= next)
  >>=-Sound P Q (ok a) next h k = k a h
  >>=-Sound P Q (err TeeError.not_set) next h k = tt
  >>=-Sound P Q (err TeeError.bad_length) next h k = tt
  >>=-Sound P Q (err TeeError.not_hex) next h k = tt
  >>=-Sound P Q (err TeeError.no_connection) next h k = tt
  >>=-Sound P Q (err TeeError.refused) next h k = tt
  >>=-Sound P Q (err TeeError.rpc_failed) next h k = tt
  >>=-Sound P Q (err TeeError.panicked) next h k = absurd h

ensure-Sound :
    (b : Bool) (e : TeeError)
    → Sound (λ (u : Unit {0}). b ≡ true) (err e)
    → Sound (λ u. b ≡ true) (ensure b e)
ensure-Sound false e h = h
ensure-Sound true e h = refl

ok_or-Sound :
    {A : Type 0} (o : Option A) (e : TeeError)
    → Sound (λ a. o ≡ some a) (err e)
    → Sound (λ a. o ≡ some a) (ok_or o e)
ok_or-Sound none e h = h
ok_or-Sound (some a) e h = refl

array_or_panic-Sound :
    (n : ℕ) (bytes : Bytes) → length bytes ≡ n → Sound (λ b. length b ≡ n) (array_or_panic n bytes)
array_or_panic-Sound n bytes h =
    let fits : array_or_panic n bytes ≡ ok bytes = ground (arith, h) in
    subst (Sound (λ b. length b ≡ n)) (sym fits) h

checked_key-Sound : (resp : KeyResponse) → Sound IsSized (checked_key resp)
unfolding checked_key
checked_key-Sound resp =
    >>=-Sound _ IsSized (ensure resp.success TeeError.refused) _ (ensure-Sound resp.success _ tt)
      λ u good.
        >>=-Sound _ IsSized (ensure (length resp.private_key == 32) TeeError.bad_length) _
          (ensure-Sound _ _ tt)
          λ v key_fits.
            >>=-Sound _ IsSized (ensure (length resp.eth_address == 20) TeeError.bad_length) _
              (ensure-Sound _ _ tt)
              λ w address_fits.
                >>=-Sound _ IsSized (array_or_panic 32 resp.private_key) _
                  (array_or_panic-Sound 32 resp.private_key
                    ((==_iff (length resp.private_key) 32).0 key_fits))
                  λ key k.
                    >>=-Sound _ IsSized (array_or_panic 20 resp.eth_address) _
                      (array_or_panic-Sound 20 resp.eth_address
                        ((==_iff (length resp.eth_address) 20).0 address_fits))
                      (λ a l. (k, l))

attempts-Sound :
    (left n : ℕ) (call : ℕ → Option KeyResponse) → Sound IsSized (attempts left n call).0
unfolding attempts
attempts-Sound zero n call = tt
attempts-Sound (suc left) n call = elim (Option-cases (call n)) [
  | inl failed ↦
      let same : (attempts (suc left) n call).0 ≡ (attempts left (suc n) call).0 = ground arith in
      subst (Sound IsSized) (sym same) (attempts-Sound left (suc n) call)
  | inr (resp, answered) ↦
      let same : (attempts (suc left) n call).0 ≡ checked_key resp = ground arith in
      subst (Sound IsSized) (sym same) (checked_key-Sound resp)
]

hex_variable-Sound :
    (hex_decode : Bytes → Option Bytes) (n : ℕ) (variable : Option Bytes)
    → HalvesLength hex_decode
    → Sound (λ b. length b ≡ n) (hex_variable hex_decode n variable)
hex_variable-Sound hex_decode n variable law =
    >>=-Sound _ _ (ok_or variable TeeError.not_set) _ (ok_or-Sound variable _ tt) λ raw set.
      >>=-Sound _ _ (ensure (length (trim_0x raw) == n + n) TeeError.bad_length) _
        (ensure-Sound _ _ tt)
        λ u fits.
          >>=-Sound _ _ (ok_or (hex_decode (trim_0x raw)) TeeError.not_hex) _
            (ok_or-Sound (hex_decode (trim_0x raw)) _ tt)
            λ bytes decoded.
              let twice = (==_iff (length (trim_0x raw)) (n + n)).0 fits in
              array_or_panic-Sound n bytes (omega (arith, twice, law (trim_0x raw) bytes decoded))

-- Neither way of getting the signing key panics, whatever the environment holds and the agent answers,
-- and a key that comes out is 32 bytes with an address of 20.
pub fetch_signing_key-Sound :
    (mock_tee : Bool) (out : Outside)
    → HalvesLength out.hex_decode
    → Sound IsSized (fetch_signing_key mock_tee out)
unfolding fetch_signing_key
fetch_signing_key-Sound true out law =
    >>=-Sound _ IsSized (hex_variable out.hex_decode 32 out.key_variable) _
      (hex_variable-Sound out.hex_decode 32 out.key_variable law)
      λ key k.
        >>=-Sound _ IsSized (hex_variable out.hex_decode 20 out.address_variable) _
          (hex_variable-Sound out.hex_decode 20 out.address_variable law) (λ a l. (k, l))
fetch_signing_key-Sound false out law = elim (Bool-cases out.connected) [
  | inr cut ↦
      let same : fetch_signing_key false out ≡ err TeeError.no_connection = ground arith in
      subst (Sound IsSized) (sym same) tt
  | inl reached ↦
      let same : fetch_signing_key false out ≡ (attempts 10 1 out.call).0 = ground arith in
      subst (Sound IsSized) (sym same) (attempts-Sound 10 1 out.call)
]

-- The failed calls from the n-th on, up to the one that the agent answers.
abbrev pub FailsUntil : ℕ → ℕ → (ℕ → Option KeyResponse) → Type 0
FailsUntil zero n call = Unit
FailsUntil (suc k) n call = (call n ≡ none) × FailsUntil k (suc n) call

-- The waits after them.
abbrev pub waits : ℕ → ℕ → ℕ
waits zero n = 0
waits (suc k) n = n + waits k (suc n)

attempts-FailsUntil :
    (left k n : ℕ) (call : ℕ → Option KeyResponse) (resp : KeyResponse)
    → suc k ≤ left
    → FailsUntil k n call
    → call (k + n) ≡ some resp
    → attempts left n call ≡ (checked_key resp, waits k n)
unfolding attempts
attempts-FailsUntil zero k n call resp few fails answers = ground arith
attempts-FailsUntil (suc left) zero n call resp few fails answers = ground (arith, answers)
attempts-FailsUntil (suc left) (suc k) n call resp few (fails, rest) answers =
    let next : k + suc n ≡ suc k + n = omega arith in
    let later =
      attempts-FailsUntil left k (suc n) call resp (omega arith) rest (ap call next ∙ answers) in
    ground (arith, fails, later)

attempts-rpc_failed :
    (left n : ℕ) (call : ℕ → Option KeyResponse)
    → FailsUntil left n call
    → attempts left n call ≡ (err TeeError.rpc_failed, waits left n)
unfolding attempts
attempts-rpc_failed zero n call fails = refl
attempts-rpc_failed (suc left) n call (fails, rest) =
    ground (arith, fails, attempts-rpc_failed left (suc n) call rest)

-- If none of ten calls is answered, the start fails, after 55 seconds of waits in all.
fetch_grpc-rpc_failed :
    (call : ℕ → Option KeyResponse)
    → FailsUntil 10 1 call
    → fetch_grpc true call ≡ (err TeeError.rpc_failed, 55)
unfolding fetch_grpc
fetch_grpc-rpc_failed call fails = attempts-rpc_failed 10 1 call fails

-- The first answer within ten calls of the agent decides, a refusal or a malformed key included: no
-- further call is made, and the waits before it are one second more after each failure.
fetch_grpc-FailsUntil :
    (call : ℕ → Option KeyResponse) (k : ℕ) (resp : KeyResponse)
    → k ≤ 9
    → FailsUntil k 1 call
    → call (k + 1) ≡ some resp
    → fetch_grpc true call ≡ (checked_key resp, waits k 1)
unfolding fetch_grpc
fetch_grpc-FailsUntil call k resp few fails answers =
    attempts-FailsUntil 10 k 1 call resp (omega arith) fails answers
