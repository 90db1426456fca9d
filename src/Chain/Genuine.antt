-- ===== src/Chain/Genuine.antt =====
-- Where the lists come from that the functions of src/chain.rs answer with.
use g_kms.Prelude.{
  ℕ, List, Option, none, some, Map, insert, lookup, lookup-insert, bytes_eq, beq_bytes,
  beq_bytes_iff, subst, Bytes, Result, ok, err, arith, Bool-cases, inl, inr, Option-cases,
}
use g_kms.Errors.{KmsError}
use g_kms.Chain.{
  Chain, NodeListEntry, Window, contains, fresh_list, settled_list, get_signer_addresses,
  refresh_on_miss, get_signer_addresses_for, after_fetch, after_forced, locked_refresh, fast_path,
  forced_refresh, with_signer,
}

module _ {ℓ} (P : Bytes → List ℕ → Type ℓ) where
  abbrev pub OfEntry : Bytes → Option NodeListEntry → Type ℓ
  OfEntry key none = Unit
  OfEntry key (some e) = P key e.addrs

  abbrev pub OfReply : Bytes → Option (List ℕ) → Type ℓ
  OfReply key none = Unit
  OfReply key (some l) = P key l

  -- Every cached list has the property of its key.
  abbrev pub IsGenuine : Chain → Type ℓ
  IsGenuine c = (key : Bytes) → OfEntry key (lookup key c.cache)

  -- The chain's answer has it, and the other tasks keep it of the cached lists.
  pub record KeepsGenuine (key : Bytes) (w : Window) : Type ℓ where
    pub replied : OfReply key w.reply
    pub locking : (c : Chain) → IsGenuine c → IsGenuine (w.while_locking c)
    pub fetching : (c : Chain) → IsGenuine c → IsGenuine (w.while_fetching c)

  abbrev pub Answers : Bytes → Result KmsError (List ℕ) × Chain → Type ℓ
  Answers key (ok l, c) = P key l × IsGenuine c
  Answers key (err x, c) = IsGenuine c

  of_fresh : (now : ℕ) (key : Bytes) (c : Chain) → IsGenuine c → OfReply key (fresh_list now key c)
  unfolding fresh_list
  of_fresh now key c h = elim (Option-cases (lookup key c.cache)) [
    | inl e ↦ rw e tt
    | inr (x, e) ↦ ground (arith, h key)
  ]

  of_settled :
      (now : ℕ) (key : Bytes) (signer : ℕ) (c : Chain)
      → IsGenuine c
      → OfReply key (settled_list now key signer c)
  unfolding settled_list
  of_settled now key signer c h = elim (Option-cases (lookup key c.cache)) [
    | inl e ↦ rw e tt
    | inr (x, e) ↦ ground (arith, h key)
  ]

  cached-IsGenuine :
      (key : Bytes) (e : NodeListEntry) (cache : Map Bytes NodeListEntry)
      → P key e.addrs
      → ((k : Bytes) → OfEntry k (lookup k cache))
      → (k : Bytes) → OfEntry k (lookup k (insert key e cache))
  cached-IsGenuine key e cache p h k = elim (Bool-cases (beq_bytes key k)) [
    | inl same ↦
        rw (lookup-insert key k e cache)
          (rw same (subst (λ j. P j e.addrs) ((beq_bytes_iff key k).0 same) p))
    | inr other ↦ rw (lookup-insert key k e cache) (rw other (h k))
  ]

  after_fetch-Answers :
      (key : Bytes) (at : ℕ) (reply : Option (List ℕ)) (c : Chain)
      → OfReply key reply
      → IsGenuine c
      → Answers key (after_fetch key at reply c)
  after_fetch-Answers key at (some l) c r h = (
    r,
    cached-IsGenuine key (record { addrs = l; fetched_at = at; miss_refresh_at = none }) c.cache r
        h,
  )
  after_fetch-Answers key at none c r h = elim (Option-cases (lookup key c.cache)) [
    | inl e ↦ rw e h
    | inr (x, e) ↦ rw e (subst (OfEntry key) e (h key), h)
  ]

  locked_refresh-Answers :
      (w : Window) (key : Bytes) (fresh : Option (List ℕ)) (c : Chain)
      → KeepsGenuine key w
      → OfReply key fresh
      → IsGenuine c
      → Answers key (locked_refresh w key fresh c)
  locked_refresh-Answers w key (some l) c k f h = (f, h)
  locked_refresh-Answers w key none c k f h =
      after_fetch-Answers key w.stored w.reply (w.while_fetching c) k.replied (k.fetching c h)

  fast_path-Answers :
      (w : Window) (key : Bytes) (fresh : Option (List ℕ)) (c : Chain)
      → KeepsGenuine key w
      → OfReply key fresh
      → IsGenuine c
      → Answers key (fast_path w key fresh c)
  fast_path-Answers w key (some l) c k f h = (f, h)
  fast_path-Answers w key none c k f h =
      let c' = w.while_locking c in
      let h' = k.locking c h in
      locked_refresh-Answers w key (fresh_list w.locked key c') c' k (of_fresh w.locked key c' h')
        h'

  pub get_signer_addresses-Answers :
      (w : Window) (key : Bytes) (c : Chain)
      → KeepsGenuine key w
      → IsGenuine c
      → Answers key (get_signer_addresses w key c)
  unfolding get_signer_addresses
  get_signer_addresses-Answers w key c k h =
      fast_path-Answers w key (fresh_list w.started key c) c k (of_fresh w.started key c h) h

  after_forced-IsGenuine :
      (key : Bytes) (at : ℕ) (addrs : List ℕ) (reply : Option (List ℕ)) (c : Chain)
      → OfReply key reply
      → P key addrs
      → IsGenuine c
      → let (l, c') = after_forced key at addrs reply c in P key l × IsGenuine c'
  after_forced-IsGenuine key at addrs (some l) c r p h = (
    r,
    cached-IsGenuine key (record { addrs = l; fetched_at = at; miss_refresh_at = some at }) c.cache
        r h,
  )
  after_forced-IsGenuine key at addrs none c r p h = elim (Option-cases (lookup key c.cache)) [
    | inl e ↦ rw e (p, h)
    | inr (x, e) ↦ rw e (
      p,
      cached-IsGenuine key (record x { miss_refresh_at = some at }) c.cache
          (subst (OfEntry key) e (h key)) h,
    )
  ]

  forced_refresh-IsGenuine :
      (w : Window) (key : Bytes) (addrs : List ℕ) (settled : Option (List ℕ)) (c : Chain)
      → KeepsGenuine key w
      → OfReply key settled
      → P key addrs
      → IsGenuine c
      → let (l, c') = forced_refresh w key addrs settled c in P key l × IsGenuine c'
  forced_refresh-IsGenuine w key addrs (some l) c k s p h = (s, h)
  forced_refresh-IsGenuine w key addrs none c k s p h =
      after_forced-IsGenuine key w.stored addrs w.reply (w.while_fetching c) k.replied p
        (k.fetching c h)

  with_signer-Answers :
      (v : Window) (key : Bytes) (signer : ℕ) (r : Result KmsError (List ℕ)) (c : Chain)
      → KeepsGenuine key v
      → Answers key (r, c)
      → Answers key (with_signer v key signer (r, c))
  unfolding refresh_on_miss
  with_signer-Answers v key signer (err x) c k h = h
  with_signer-Answers v key signer (ok l) c k h = elim (Bool-cases (contains signer l)) [
    | inl has ↦ rw has h
    | inr lacks ↦
        let c' = v.while_locking c in
        let h' = k.locking c h.1 in
        rw lacks (
          forced_refresh-IsGenuine v key l (settled_list v.locked key signer c') c' k
            (of_settled v.locked key signer c' h') h.0 h')
  ]

  pub get_signer_addresses_for-Answers :
      (w v : Window) (key : Bytes) (signer : ℕ) (c : Chain)
      → KeepsGenuine key w
      → KeepsGenuine key v
      → IsGenuine c
      → Answers key (get_signer_addresses_for w v key signer c)
  unfolding get_signer_addresses_for
  get_signer_addresses_for-Answers w v key signer c kw kv h =
      let r = get_signer_addresses w key c in
      with_signer-Answers v key signer r.0 r.1 kv (get_signer_addresses-Answers w key c kw h)
