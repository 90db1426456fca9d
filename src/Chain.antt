-- ===== src/Chain.antt =====
-- src/chain.rs: the cached nodeList, its single-flight refresh and the refresh that a missing
-- signer forces. An address is a number (its 20 bytes); the RPC's answer, the instants and what
-- other tasks do while a call waits are the call's `Window`s.
pub mod Contract
pub mod Genuine
pub mod Apps
pub mod Refresh
pub mod Damping
mod Tests
use g_kms.Prelude.{
  ℕ, ◌+◌, Bool, ◌==◌, any, ltb, if◌then◌else◌, List, Option, none, some, Map, lookup, insert, Bytes,
  bytes_eq, Result, ok, err, ◌||◌, false,
}
use g_kms.Errors.{KmsError}
use g_kms.Time.{seconds, elapsed}
use g_kms.Metrics.Counters.{inc}

abbrev pub node_list_ttl : ℕ
node_list_ttl = seconds 30

abbrev pub miss_refresh_min : ℕ
miss_refresh_min = seconds 5

pub record NodeListEntry : Type 0 where
  pub addrs : List ℕ
  pub fetched_at : ℕ
  pub miss_refresh_at : Option ℕ

-- The process-wide cache, with the counters that a refresh moves.
pub record Chain : Type 0 where
  pub cache : Map Bytes NodeListEntry
  pub rpc_ok : ℕ
  pub rpc_fail : ℕ
  pub stale_served : ℕ

-- One wait for a lock and one RPC: the instant at which the entry is first looked at, what the
-- other tasks do to the cache until the lock is held, the instant then, the RPC's answer (`none`
-- is any failure), what the other tasks do meanwhile, and the instant of the store.
pub record Window : Type 0 where
  pub started : ℕ
  pub while_locking : Chain → Chain
  pub locked : ℕ
  pub reply : Option (List ℕ)
  pub while_fetching : Chain → Chain
  pub stored : ℕ

-- `addrs.contains(signer)`.
abbrev pub contains : ℕ → List ℕ → Bool
contains a = any λ b. b == a

abbrev pub fresh_entry : ℕ → Option NodeListEntry → Option (List ℕ)
fresh_entry now none = none
fresh_entry now (some e) =
    if ltb (elapsed now e.fetched_at) node_list_ttl then some e.addrs else none

-- The cached list, if it is younger than the TTL.
unfoldable pub fresh_list : ℕ → Bytes → Chain → Option (List ℕ)
fresh_list now key c = fresh_entry now (lookup key c.cache)

abbrev pub store_list : Bytes → List ℕ → ℕ → Option ℕ → Chain → Chain
store_list key addrs at miss c = record c {
  cache = insert key (record { addrs = addrs; fetched_at = at; miss_refresh_at = miss }) c.cache;
  rpc_ok = inc c.rpc_ok;
}

-- A failed refresh serves the last known list.
abbrev pub stale_fallback : Option NodeListEntry → Chain → Result KmsError (List ℕ) × Chain
stale_fallback (some old) c =
    (ok old.addrs, record c { rpc_fail = inc c.rpc_fail; stale_served = inc c.stale_served })
stale_fallback none c = (err KmsError.chain_error, record c { rpc_fail = inc c.rpc_fail })

abbrev pub after_fetch : Bytes → ℕ → Option (List ℕ) → Chain → Result KmsError (List ℕ) × Chain
after_fetch key at (some addrs) c = (ok addrs, store_list key addrs at none c)
after_fetch key at none c = stale_fallback (lookup key c.cache) c

-- Under the lock: look again, then ask the chain.
abbrev pub locked_refresh :
    Window → Bytes → Option (List ℕ) → Chain → Result KmsError (List ℕ) × Chain
locked_refresh w key (some addrs) c = (ok addrs, c)
locked_refresh w key none c = after_fetch key w.stored w.reply (w.while_fetching c)

abbrev pub fast_path : Window → Bytes → Option (List ℕ) → Chain → Result KmsError (List ℕ) × Chain
fast_path w key (some addrs) c = (ok addrs, c)
fast_path w key none c =
    let c' = w.while_locking c in locked_refresh w key (fresh_list w.locked key c') c'

unfoldable pub get_signer_addresses : Window → Bytes → Chain → Result KmsError (List ℕ) × Chain
unfolding fresh_list
get_signer_addresses w key c = fast_path w key (fresh_list w.started key c) c

abbrev pub recent : ℕ → ℕ → Bool
recent now t = ltb (elapsed now t) miss_refresh_min

abbrev pub recent_miss : ℕ → Option ℕ → Bool
recent_miss now none = false
recent_miss now (some t) = recent now t

-- The list to answer with at once: it has the signer by now, or a refresh is too recent to repeat.
abbrev pub settled_entry : ℕ → ℕ → Option NodeListEntry → Option (List ℕ)
settled_entry now signer none = none
settled_entry now signer (some e) =
    if contains signer e.addrs || recent now e.fetched_at || recent_miss now e.miss_refresh_at
    then some e.addrs
    else none

unfoldable pub settled_list : ℕ → Bytes → ℕ → Chain → Option (List ℕ)
settled_list now key signer c = settled_entry now signer (lookup key c.cache)

abbrev pub mark_miss : Bytes → ℕ → Option NodeListEntry → Chain → Chain
mark_miss key at none c = record c { rpc_fail = inc c.rpc_fail }
mark_miss key at (some e) c = record c {
  cache = insert key (record e { miss_refresh_at = some at }) c.cache;
  rpc_fail = inc c.rpc_fail;
}

abbrev pub after_forced : Bytes → ℕ → List ℕ → Option (List ℕ) → Chain → List ℕ × Chain
after_forced key at addrs (some fresh) c = (fresh, store_list key fresh at (some at) c)
after_forced key at addrs none c = (addrs, mark_miss key at (lookup key c.cache) c)

abbrev pub forced_refresh : Window → Bytes → List ℕ → Option (List ℕ) → Chain → List ℕ × Chain
forced_refresh w key addrs (some settled) c = (settled, c)
forced_refresh w key addrs none c = after_forced key w.stored addrs w.reply (w.while_fetching c)

-- The part of `get_signer_addresses_for` behind the first lookup, for a list without the signer.
unfoldable pub refresh_on_miss : Window → Bytes → ℕ → List ℕ → Chain → List ℕ × Chain
unfolding settled_list
refresh_on_miss w key signer addrs c =
    let c' = w.while_locking c in
    forced_refresh w key addrs (settled_list w.locked key signer c') c'

abbrev pub with_signer :
    Window → Bytes → ℕ → Result KmsError (List ℕ) × Chain → Result KmsError (List ℕ) × Chain
with_signer w key signer (err e, c) = (err e, c)
with_signer w key signer (ok addrs, c) =
    if contains signer addrs
    then (ok addrs, c)
    else (let (l, c') = refresh_on_miss w key signer addrs c in (ok l, c'))

-- The first window is that of the plain lookup, the second that of the forced refresh.
unfoldable pub get_signer_addresses_for :
    Window → Window → Bytes → ℕ → Chain → Result KmsError (List ℕ) × Chain
unfolding get_signer_addresses refresh_on_miss
get_signer_addresses_for w v key signer c = with_signer v key signer (get_signer_addresses w key c)
