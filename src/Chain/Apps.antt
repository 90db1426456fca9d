-- ===== src/Chain/Apps.antt =====
-- Signers of many apps authorised one after another over one cache (src/chain.rs).
use g_kms.Prelude.{
  ℕ, ◌≡◌, refl, sym, ◌∙◌, List, [], ◌∷◌, ◌++◌, Bytes, bytes_eq, codes, Result, ok, err, All, subst,
  arith,
}
use g_kms.Errors.{KmsError}
use g_kms.Chain.{Chain, Window, get_signer_addresses_for}
use g_kms.Chain.Contract.{
  Rpc, Site, View, Providers, IsBuilt, cache_key, fetch_node_list, node_list_of,
  fetch_node_list-fresh,
}
use g_kms.Chain.Genuine.{
  IsGenuine, OfReply, KeepsGenuine, Answers, get_signer_addresses_for-Answers,
}
use g_kms.Crypto.{to_option}

append-cancel : (p xs ys : Bytes) → p ++ xs ≡ p ++ ys → xs ≡ ys
append-cancel [] xs ys e = e
append-cancel (a ∷ p) xs ys e = append-cancel p xs ys (ground arith)

-- Apps of one contract have keys of their own, whatever their ids are.
cache_key-injective : (site : Site) (a b : Bytes) → cache_key site a ≡ cache_key site b → a ≡ b
cache_key-injective site a b e =
    append-cancel (site.rpc_url ++ codes "|" ++ site.contract_address ++ codes "|") a b e

module _ {ℓ} (x : Rpc {ℓ}) (site : Site) where
  -- A possible refresh: its waits, what the contract answers by then, and the providers with what
  -- other tasks store among them.
  pub record Fetch : Type ℓ where
    pub window : Window
    pub view : View x (List ℕ)
    pub providers : Providers x
    pub others : Providers x → Providers x

  -- The refresh with the reply of `fetch_node_list`.
  abbrev pub fetching : Bytes → Fetch → Window
  fetching app_id f = record f.window {
    reply = to_option (fetch_node_list x f.view site app_id f.others f.providers).0;
  }

  -- A call of `get_signer_addresses_for`.
  pub record Request : Type ℓ where
    pub app_id : Bytes
    pub signer : ℕ
    pub first : Fetch
    pub second : Fetch

  abbrev pub authorise : Request → Chain → Result KmsError (List ℕ) × Chain
  authorise r c =
      get_signer_addresses_for (fetching r.app_id r.first) (fetching r.app_id r.second)
        (cache_key site r.app_id) r.signer c

  -- The answers to a sequence of calls, each with its app.
  unfoldable pub authorise_all : List Request → Chain → List (Bytes × Result KmsError (List ℕ))
  authorise_all [] c = []
  authorise_all (r ∷ rs) c =
      let (answer, c') = authorise r c in (r.app_id, answer) ∷ authorise_all rs c'

  module _ {κ} (Q : Bytes → List ℕ → Type κ) where
    -- The list under the key of an app has the property for that app.
    abbrev pub Keyed : Bytes → List ℕ → Type κ
    Keyed key l = (app_id : Bytes) → cache_key site app_id ≡ key → Q app_id l

    -- The contract's answers have the property, stored providers are those of their URLs, and the
    -- other tasks keep both.
    pub record IsSound (app_id : Bytes) (f : Fetch) : Type (ℓ ⊔ κ) where
      pub listed : (l : List ℕ) → node_list_of x f.view site app_id ≡ ok l → Q app_id l
      pub built : IsBuilt x f.providers
      pub building : (ps : Providers x) → IsBuilt x ps → IsBuilt x (f.others ps)
      pub locking : (c : Chain) → IsGenuine Keyed c → IsGenuine Keyed (f.window.while_locking c)
      pub waiting : (c : Chain) → IsGenuine Keyed c → IsGenuine Keyed (f.window.while_fetching c)

    abbrev pub IsListed : Bytes × Result KmsError (List ℕ) → Type κ
    IsListed (app_id, ok l) = Q app_id l
    IsListed (app_id, err e) = Unit

    of_result :
        (key : Bytes) (r : Result KmsError (List ℕ))
        → ((l : List ℕ) → r ≡ ok l → Keyed key l)
        → OfReply Keyed key (to_option r)
    of_result key (ok l) h = h l refl
    of_result key (err e) h = tt

    fetching-KeepsGenuine :
        (app_id : Bytes) (f : Fetch)
        → IsSound app_id f
        → KeepsGenuine Keyed (cache_key site app_id) (fetching app_id f)
    fetching-KeepsGenuine app_id f h = record {
      replied = of_result (cache_key site app_id) _ (λ l e other same.
          subst (λ a. Q a l) (cache_key-injective site app_id other (sym same))
            (h.listed l (
              sym
                (fetch_node_list-fresh x f.view site app_id f.others f.providers h.built h.building)
              ∙ e)));
      locking = h.locking;
      fetching = h.waiting;
    }

    answered :
        (app_id : Bytes) (r : Result KmsError (List ℕ)) (c : Chain)
        → Answers Keyed (cache_key site app_id) (r, c)
        → IsListed (app_id, r) × IsGenuine Keyed c
    answered app_id (ok l) c h = (h.0 app_id refl, h.1)
    answered app_id (err e) c h = (tt, h)

    -- Whatever sequence of signers is authorised for whatever apps of the contract over one cache,
    -- and whatever other tasks do meanwhile that keep the cached lists right: every answer for an app
    -- is a list that has the property which the contract's own answers for that app have (such as
    -- being once returned by it), so that no app's list ever authorises for another app.
    pub authorise_all-IsListed :
        (rs : List Request) (c : Chain)
        → All (λ r. IsSound r.app_id r.first × IsSound r.app_id r.second) rs
        → IsGenuine Keyed c
        → All IsListed (authorise_all rs c)
    unfolding authorise_all
    authorise_all-IsListed [] c sound h = tt
    authorise_all-IsListed (r ∷ rs) c ((first, second), later) h =
        let key = cache_key site r.app_id in
        let (listed, h') = answered r.app_id (authorise r c).0 (authorise r c).1 (
          get_signer_addresses_for-Answers Keyed (fetching r.app_id r.first)
            (fetching r.app_id r.second) key r.signer c
            (fetching-KeepsGenuine r.app_id r.first first)
            (fetching-KeepsGenuine r.app_id r.second second) h) in
        (listed, authorise_all-IsListed rs (authorise r c).1 later h')
