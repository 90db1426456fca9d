-- ===== src/Chain/Damping.antt =====
-- How often a missing signer can make the node ask the chain (src/chain.rs).
use g_kms.Prelude.{
  ℕ, ◌+◌, ◌≡◌, ◌≢◌, ◌≤◌, ◌<◌, ◌⊎◌, inl, inr, List, Option, none, some, lookup, lookup-insert_self,
  bytes_eq, Bytes, arith, Option-cases,
}
use g_kms.Chain.{
  Chain, NodeListEntry, Window, miss_refresh_min, settled_list, refresh_on_miss, after_forced,
}

abbrev MissSince : ℕ → Option ℕ → Type 0
MissSince t none = ⊥
MissSince t (some m) = t ≤ m

-- The entry was fetched, or a forced refresh of it attempted, at `t` or later.
abbrev pub RefreshedSince : ℕ → Option NodeListEntry → Type 0
RefreshedSince t none = ⊥
RefreshedSince t (some e) = (t ≤ e.fetched_at) ⊎ MissSince t e.miss_refresh_at

after_forced-RefreshedSince :
    (key : Bytes) (at : ℕ) (addrs : List ℕ) (reply : Option (List ℕ)) (c : Chain)
    → lookup key c.cache ≢ none
    → RefreshedSince at (lookup key (after_forced key at addrs reply c).1.cache)
after_forced-RefreshedSince key at addrs (some l) c h = rw lookup-insert_self (inl (omega arith))
after_forced-RefreshedSince key at addrs none c h = elim (Option-cases (lookup key c.cache)) [
  | inl e ↦ absurd (h e)
  | inr (x, e) ↦ rw e (rw lookup-insert_self (inr (omega arith)))
]

settled_list-RefreshedSince :
    (t now : ℕ) (key : Bytes) (signer : ℕ) (c : Chain)
    → RefreshedSince t (lookup key c.cache)
    → now < t + miss_refresh_min
    → settled_list now key signer c ≢ none
unfolding settled_list
settled_list-RefreshedSince t now key signer c h b = elim (Option-cases (lookup key c.cache)) [
  | inl e ↦ ground arith
  | inr (x, e) ↦ ground arith
]

refresh_on_miss-quiet :
    (v : Window) (key : Bytes) (signer : ℕ) (addrs : List ℕ) (c : Chain)
    → settled_list v.locked key signer (v.while_locking c) ≢ none
    → (refresh_on_miss v key signer addrs c).1 ≡ v.while_locking c
unfolding refresh_on_miss
refresh_on_miss-quiet v key signer addrs c h = ground arith

-- Once a missing signer has made a call ask the chain, with success or not, no call for the same
-- app asks it for a missing signer, the same or another, that looks at the entry within five seconds
-- of the first call's store: the cache and the counters are left as the other tasks left them. The
-- app has an entry when the first call stores, and what other tasks do before the second call's look
-- does not undo the mark.
pub refresh_on_miss-damped :
    (w v : Window) (key : Bytes) (signer other : ℕ) (addrs addrs' : List ℕ) (c : Chain)
    → settled_list w.locked key signer (w.while_locking c) ≡ none
    → lookup key (w.while_fetching (w.while_locking c)).cache ≢ none
    → ((d : Chain)
        → RefreshedSince w.stored (lookup key d.cache)
        → RefreshedSince w.stored (lookup key (v.while_locking d).cache))
    → v.locked < w.stored + miss_refresh_min
    → let d = (refresh_on_miss w key signer addrs c).1 in
      (refresh_on_miss v key other addrs' d).1 ≡ v.while_locking d
unfolding refresh_on_miss
refresh_on_miss-damped w v key signer other addrs addrs' c asked present keeps soon =
    let d = after_forced key w.stored addrs w.reply (w.while_fetching (w.while_locking c)) in
    let marked =
      after_forced-RefreshedSince key w.stored addrs w.reply (w.while_fetching (w.while_locking c))
        present in
    rw asked (
      refresh_on_miss-quiet v key other addrs' d.1 (
        settled_list-RefreshedSince w.stored v.locked key other (v.while_locking d.1)
          (keeps d.1 marked) soon))
