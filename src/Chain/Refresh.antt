-- ===== src/Chain/Refresh.antt =====
-- How old a list may be, and what a failing RPC changes (src/chain.rs).
use g_kms.Prelude.{
  ℕ, ◌≡◌, ◌<◌, ◌⊎◌, inl, inr, refl, List, Option, none, some, lookup, bytes_eq, Bytes, ok, err,
  arith, Option-cases,
}
use g_kms.Errors.{KmsError}
use g_kms.Time.{elapsed}
use g_kms.Chain.{Chain, NodeListEntry, Window, node_list_ttl, fresh_list, get_signer_addresses}

-- The entry's list, younger than the TTL.
abbrev pub IsYoung : ℕ → Option NodeListEntry → List ℕ → Type 0
IsYoung now none l = ⊥
IsYoung now (some e) l = (l ≡ e.addrs) × (elapsed now e.fetched_at < node_list_ttl)

fresh_list-IsYoung :
    (now : ℕ) (key : Bytes) (c : Chain) {l : List ℕ}
    → fresh_list now key c ≡ some l
    → IsYoung now (lookup key c.cache) l
unfolding fresh_list
fresh_list-IsYoung now key c h = elim (Option-cases (lookup key c.cache)) [
  | inl e ↦ ground arith
  | inr (x, e) ↦ ground arith
]

-- While the RPC answers, the call succeeds, and its list is the chain's answer `r` itself or a
-- cached list that was fetched less than 30 seconds ago, at the start or when the lock was taken.
get_signer_addresses-IsYoung :
    (w : Window) (key : Bytes) (c : Chain) (r : List ℕ)
    → w.reply ≡ some r
    → (l : List ℕ) × ((get_signer_addresses w key c).0 ≡ ok l)
      × ((l ≡ r)
          ⊎ (IsYoung w.started (lookup key c.cache) l
              ⊎ IsYoung w.locked (lookup key (w.while_locking c).cache) l))
unfolding get_signer_addresses
get_signer_addresses-IsYoung w key c r h = elim (Option-cases (fresh_list w.started key c)) [
  | inr (l, e) ↦ (l, ground arith, inr (inl (fresh_list-IsYoung w.started key c e)))
  | inl e ↦ elim (Option-cases (fresh_list w.locked key (w.while_locking c))) [
    | inr (l, f) ↦
        (l, ground arith, inr (inr (fresh_list-IsYoung w.locked key (w.while_locking c) f)))
    | inl f ↦ (r, ground arith, inl refl)
  ]
]

-- The call fails only if the RPC failed and no list of the app is cached; it then leaves none.
get_signer_addresses-err :
    (w : Window) (key : Bytes) (c : Chain) (x : KmsError)
    → (get_signer_addresses w key c).0 ≡ err x
    → (x ≡ KmsError.chain_error)
      × (w.reply ≡ none)
      × (lookup key (get_signer_addresses w key c).1.cache ≡ none)
unfolding get_signer_addresses
get_signer_addresses-err w key c x h = elim (Option-cases (fresh_list w.started key c)) [
  | inr (l, e) ↦ ground arith
  | inl e ↦ elim (Option-cases (fresh_list w.locked key (w.while_locking c))) [
    | inr (l, f) ↦ ground arith
    | inl f ↦ ground arith
  ]
]
