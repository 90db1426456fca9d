-- ===== src/Chain/Tests.antt =====
-- Runs of the nodeList cache on small inputs, and the theorems at concrete data.
use g_kms.Prelude.{
  ℕ, ◌≡◌, refl, List, [], ◌∷◌, Option, none, some, lookup, insert, erase, bytes_eq, Bytes, ok,
  arith, true, codes, All, Bool-cases, inl, inr, beq_bytes, beq_bytes_iff, ◌=?◌, if◌then◌else◌,
}
use g_kms.Time.{seconds}
use g_kms.Chain.{Chain, Window, contains, settled_list, refresh_on_miss, get_signer_addresses_for}
use g_kms.Chain.Contract.{Rpc, Site, View, node_list_of}
use g_kms.Chain.Apps.{Fetch, Request, IsSound, IsListed, authorise_all, authorise_all-IsListed}
use g_kms.Chain.Damping.{refresh_on_miss-damped}

abbrev app : Bytes
app = 1 ∷ 2 ∷ []

-- Signer 11 alone is cached, since second 100.
abbrev one_node : Chain
one_node = record {
  cache = (app, record { addrs = 11 ∷ []; fetched_at = seconds 100; miss_refresh_at = none }) ∷ [];
  rpc_ok = 1;
  rpc_fail = 0;
  stale_served = 0;
}

abbrev quiet : ℕ → Option (List ℕ) → Window
quiet t reply = record {
  started = seconds t;
  while_locking = λ c. c;
  locked = seconds t;
  reply = reply;
  while_fetching = λ c. c;
  stored = seconds t;
}

-- A new signer, 22, is found by one forced refresh.
new_signer_found :
    (get_signer_addresses_for (quiet 110 none) (quiet 110 (some (11 ∷ 22 ∷ []))) app 22 one_node).0
    ≡ ok (11 ∷ 22 ∷ [])
unfolding get_signer_addresses_for lookup insert erase
new_signer_found = refl

-- A contract with a list for the app 1 alone, called through a provider that is its own URL.
abbrev rpc : Rpc {0}
rpc = record { Provider = Bytes; try_from = λ url. some url; parse = λ text. some 7 }

abbrev site : Site
site = record { rpc_url = codes "http"; contract_address = codes "0x7" }

abbrev nodes : View rpc (List ℕ)
nodes provider address app_id = if app_id =? (1 ∷ []) then some (11 ∷ []) else none

abbrev fetch : ℕ → Fetch rpc site
fetch t = record { window = quiet t none; view = nodes; providers = []; others = λ ps. ps }

abbrev request : Bytes → Request rpc site
request app_id = record { app_id = app_id; signer = 11; first = fetch 110; second = fetch 110 }

-- The list of the app 1 has the signer 11.
abbrev Has : Bytes → List ℕ → Type 0
Has app_id l = app_id ≡ 1 ∷ [] × contains 11 l ≡ true

nodes-Has : (app_id : Bytes) (l : List ℕ) → node_list_of rpc nodes site app_id ≡ ok l → Has app_id l
nodes-Has app_id l h = elim (Bool-cases (beq_bytes app_id (1 ∷ []))) [
  | inl same ↦
      let e : l ≡ 11 ∷ [] = ground arith in ((beq_bytes_iff app_id (1 ∷ [])).0 same, rw e refl)
  | inr other ↦ absurd (ground arith)
]

fetch-IsSound : (app_id : Bytes) → IsSound rpc site Has app_id (fetch 110)
unfolding lookup
fetch-IsSound app_id = record {
  listed = nodes-Has app_id;
  built = λ url. tt;
  building = λ ps h. h;
  locking = λ c h. h;
  waiting = λ c h. h;
}

abbrev empty_cache : Chain
empty_cache = record { cache = []; rpc_ok = 0; rpc_fail = 0; stale_served = 0 }

authorise_all-IsListed_example : All (IsListed rpc site Has) (
    authorise_all rpc site
      (request (1 ∷ []) ∷ request (2 ∷ []) ∷ request (1 ∷ []) ∷ [])
      empty_cache)
unfolding lookup
authorise_all-IsListed_example =
    authorise_all-IsListed rpc site Has
      (request (1 ∷ []) ∷ request (2 ∷ []) ∷ request (1 ∷ []) ∷ []) empty_cache
      (
        (fetch-IsSound (1 ∷ []), fetch-IsSound (1 ∷ [])),
        (
          (fetch-IsSound (2 ∷ []), fetch-IsSound (2 ∷ [])),
          ((fetch-IsSound (1 ∷ []), fetch-IsSound (1 ∷ [])), tt),
        ),
      )
      (λ key. tt)

-- The refresh at second 110 fails; at second 114 the chain is not asked again.
refresh_on_miss-damped_example :
    let d = (refresh_on_miss (quiet 110 none) app 22 (11 ∷ []) one_node).1 in
    (refresh_on_miss (quiet 114 (some [])) app 33 (11 ∷ []) d).1 ≡ d
unfolding settled_list lookup
refresh_on_miss-damped_example =
    refresh_on_miss-damped (quiet 110 none) (quiet 114 (some [])) app 22 33 (11 ∷ []) (11 ∷ [])
      one_node refl (λ e. cc) (λ d h. h) (omega arith)
