-- ===== src/Auth/Members.antt =====
-- Whom `authenticate` accepts (src/auth.rs).
use g_kms.Prelude.{
  ℕ, ◌≡◌, refl, Bool-cases, Option-cases, Result-cases, inl, inr, true, Option, none, some, ok,
  Bytes, List, is_empty, arith, subst,
}
use g_kms.Chain.{contains}
use g_kms.I64.{in_tolerance}
use g_kms.Gossip.{AuthContext}
use g_kms.Auth.{Authority, request_message, verify_on_chain, attested, authenticate}

-- An address is on the node list that was answered for it, and the attestation gate lets it pass.
abbrev pub IsMember : Authority → ℕ → Type 0
IsMember a addr =
    (list : List ℕ) × (a.node_list addr ≡ ok list)
    × (contains addr list ≡ true)
    × (a.require_verified addr ≡ ok tt)

-- What an authenticated caller has shown.
abbrev pub IsAuthenticated : Authority → Option (Bytes × ℕ) → Bytes → ℕ → ℕ → AuthContext → Type 0
IsAuthenticated a metadata method now tolerance ctx =
    (sig : Bytes) × (timestamp : ℕ) × (metadata ≡ some (sig, timestamp))
    × (in_tolerance now timestamp tolerance ≡ true)
    × (a.recover_pubkey (request_message a method timestamp) sig ≡ some ctx.caller_pubkey)
    × (ctx.caller_eth_addr ≡ a.eth_address ctx.caller_pubkey)
    × IsMember a ctx.caller_eth_addr

module _ (a : Authority) where
  verify_on_chain-IsMember :
      (addr : ℕ) → verify_on_chain a addr ≡ ok tt → attested a addr ≡ ok tt → IsMember a addr
  unfolding verify_on_chain
  verify_on_chain-IsMember addr h g = elim (Result-cases (a.node_list addr)) [
    | inr (e, failed) ↦ ground arith
    | inl (list, read) ↦ elim (Bool-cases (contains addr list)) [
      | inr absent ↦ elim (Bool-cases (is_empty list)) [
        | inl empty ↦ ground arith
        | inr some_left ↦ ground arith
      ]
      | inl listed ↦ (list, read, listed, gate addr g)
    ]
  ]
    where
      gate : (addr : ℕ) → attested a addr ≡ ok tt → a.require_verified addr ≡ ok tt
      gate addr g = elim (Result-cases (a.require_verified addr)) [
        | inr (e, refused) ↦ ground arith
        | inl (u, passed) ↦ passed
      ]

  -- A caller that is authenticated has signed this very method and timestamp, with the key whose
  -- address is on the node list and attested; and the timestamp is within the window.
  pub authenticate-IsMember :
      (metadata : Option (Bytes × ℕ)) (method : Bytes) (now tolerance : ℕ) (ctx : AuthContext)
      → authenticate a metadata method now tolerance ≡ ok ctx
      → IsAuthenticated a metadata method now tolerance ctx
  unfolding authenticate
  authenticate-IsMember none method now tolerance ctx h = ground arith
  authenticate-IsMember (some (sig, timestamp)) method now tolerance ctx h =
      elim (Bool-cases (in_tolerance now timestamp tolerance)) [
        | inr old ↦ ground arith
        | inl recent ↦
            elim (Option-cases (a.recover_pubkey (request_message a method timestamp) sig)) [
              | inl forged ↦ ground arith
              | inr (pubkey, signed) ↦
                  elim (Result-cases (verify_on_chain a (a.eth_address pubkey))) [
                    | inr (e, unlisted) ↦ ground arith
                    | inl (u, listed) ↦ elim (Result-cases (attested a (a.eth_address pubkey))) [
                      | inr (e, refused) ↦ ground arith
                      | inl (v, passed) ↦
                          let ctx' : AuthContext = record {
                            caller_pubkey = pubkey;
                            caller_eth_addr = a.eth_address pubkey;
                          } in
                          let e : ctx' ≡ ctx = ground arith in
                          subst (IsAuthenticated a (some (sig, timestamp)) method now tolerance) e (
                            sig,
                            timestamp,
                            refl,
                            recent,
                            signed,
                            refl,
                            verify_on_chain-IsMember (a.eth_address pubkey) listed passed,
                          )
                    ]
                  ]
            ]
      ]
