-- ===== src/Chain/Contract.antt =====
-- The calls of the registry contract (src/chain.rs): `provider_for`, `parse_contract`,
-- `fetch_node_list` and `get_app_owner`. The RPC library is a parameter.
use g_kms.Prelude.{
  ℕ, Bool-cases, inl, inr, ◌≡◌, refl, List, Option, Option-cases, none, some, Map, insert, lookup,
  lookup-insert, Bytes, bytes_eq, beq_bytes, beq_bytes_iff, codes, ◌++◌, Result, ok, err, ok_or,
  ◌>>=◌, subst,
}
use g_kms.Errors.{KmsError}

-- `Provider::try_from` and the parsing of an address.
pub record Rpc {ℓ} : Type (ℓ + 1) where
  pub Provider : Type ℓ
  pub try_from : Bytes → Option Provider
  pub parse : Bytes → Option ℕ

-- Where the contract is called.
pub record Site : Type 0 where
  pub rpc_url : Bytes
  pub contract_address : Bytes

abbrev pub cache_key : Site → Bytes → Bytes
cache_key site app_id = site.rpc_url ++ codes "|" ++ site.contract_address ++ codes "|" ++ app_id

module _ {ℓ} (x : Rpc {ℓ}) where
  abbrev pub Providers : Type ℓ
  Providers = Map Bytes x.Provider

  -- What a function of the contract answers through a provider: `none` is any failure of the call.
  abbrev pub View : Type 0 → Type ℓ
  View A = x.Provider → ℕ → Bytes → Option A

  abbrev pub provided :
      Bytes → Option x.Provider → Providers → Result KmsError x.Provider × Providers
  provided rpc_url none ps = (err KmsError.chain_error, ps)
  provided rpc_url (some p) ps = (ok p, insert rpc_url p ps)

  -- `provider_for`; other tasks may store providers before this one does.
  abbrev pub provider_or :
      Bytes
      → (Providers → Providers)
      → Option x.Provider
      → Providers
      → Result KmsError x.Provider × Providers
  provider_or rpc_url others (some p) ps = (ok p, ps)
  provider_or rpc_url others none ps = provided rpc_url (x.try_from rpc_url) (others ps)

  unfoldable pub provider_for :
      Bytes → (Providers → Providers) → Providers → Result KmsError x.Provider × Providers
  provider_for rpc_url others ps = provider_or rpc_url others (lookup rpc_url ps) ps

  abbrev pub parse_contract : Bytes → Result KmsError ℕ
  parse_contract contract_address = ok_or (x.parse contract_address) KmsError.chain_error

  -- A call of the contract through a provider, if there is one.
  abbrev pub called :
      {A : Type 0} → View A → Bytes → Bytes → Result KmsError x.Provider → Result KmsError A
  called view contract_address app_id r = do
    provider ← r
    address ← parse_contract contract_address
    ok_or (view provider address app_id) KmsError.chain_error

  unfoldable pub fetch_node_list :
      View (List ℕ)
      → Site
      → Bytes
      → (Providers → Providers)
      → Providers
      → Result KmsError (List ℕ) × Providers
  unfolding provider_for
  fetch_node_list view site app_id others ps =
      let (provider, ps') = provider_for site.rpc_url others ps in
      (called view site.contract_address app_id provider, ps')

  -- `get_app_owner`, for the owner in the contract's `getAppInfo`.
  unfoldable pub get_app_owner :
      View ℕ → Site → Bytes → (Providers → Providers) → Providers → Result KmsError ℕ × Providers
  unfolding provider_for
  get_app_owner view site app_id others ps =
      let (provider, ps') = provider_for site.rpc_url others ps in
      (called view site.contract_address app_id provider, ps')

  -- A stored provider is the one of its URL.
  abbrev pub OfUrl : Bytes → Option x.Provider → Type ℓ
  OfUrl rpc_url none = Unit
  OfUrl rpc_url (some p) = x.try_from rpc_url ≡ some p

  abbrev pub IsBuilt : Providers → Type ℓ
  IsBuilt ps = (rpc_url : Bytes) → OfUrl rpc_url (lookup rpc_url ps)

  -- A provider that is made anew.
  abbrev pub fresh_provider : Bytes → Result KmsError x.Provider
  fresh_provider rpc_url = ok_or (x.try_from rpc_url) KmsError.chain_error

  stored-IsBuilt :
      (rpc_url : Bytes) (p : x.Provider) (ps : Providers)
      → x.try_from rpc_url ≡ some p
      → IsBuilt ps
      → IsBuilt (insert rpc_url p ps)
  stored-IsBuilt rpc_url p ps built h u = elim (Bool-cases (beq_bytes rpc_url u)) [
    | inl same ↦
        rw (lookup-insert rpc_url u p ps)
          (rw same (subst (λ v. x.try_from v ≡ some p) ((beq_bytes_iff rpc_url u).0 same) built))
    | inr other ↦ rw (lookup-insert rpc_url u p ps) (rw other (h u))
  ]

  -- The cache of providers changes no answer.
  provider_for-fresh :
      (rpc_url : Bytes) (others : Providers → Providers) (ps : Providers)
      → IsBuilt ps
      → ((qs : Providers) → IsBuilt qs → IsBuilt (others qs))
      → let (r, ps') = provider_for rpc_url others ps in (r ≡ fresh_provider rpc_url) × IsBuilt ps'
  unfolding provider_for
  provider_for-fresh rpc_url others ps h keeps = elim (Option-cases (lookup rpc_url ps)) [
    | inr (p, known) ↦
        let built : x.try_from rpc_url ≡ some p = subst (OfUrl rpc_url) known (h rpc_url) in
        rw known (rw built refl, h)
    | inl unknown ↦ elim (Option-cases (x.try_from rpc_url)) [
      | inl refused ↦ rw unknown (rw refused (refl, keeps ps h))
      | inr (p, built) ↦
          rw unknown (rw built (refl, stored-IsBuilt rpc_url p (others ps) built (keeps ps h)))
    ]
  ]

  -- What the contract answers through a provider that is made anew.
  abbrev pub node_list_of : View (List ℕ) → Site → Bytes → Result KmsError (List ℕ)
  node_list_of view site app_id =
      called view site.contract_address app_id (fresh_provider site.rpc_url)

  pub fetch_node_list-fresh :
      (view : View (List ℕ)) (site : Site) (app_id : Bytes) (others : Providers → Providers)
      (ps : Providers)
      → IsBuilt ps
      → ((qs : Providers) → IsBuilt qs → IsBuilt (others qs))
      → (fetch_node_list view site app_id others ps).0 ≡ node_list_of view site app_id
  unfolding fetch_node_list
  fetch_node_list-fresh view site app_id others ps h keeps =
      let (same, built) = provider_for-fresh site.rpc_url others ps h keeps in rw same refl

  -- The owner is the contract's too, through whichever provider.
  get_app_owner-fresh :
      (view : View ℕ) (site : Site) (app_id : Bytes) (others : Providers → Providers)
      (ps : Providers)
      → IsBuilt ps
      → ((qs : Providers) → IsBuilt qs → IsBuilt (others qs))
      → let (owner, ps') = get_app_owner view site app_id others ps in
        (owner ≡ called view site.contract_address app_id (fresh_provider site.rpc_url))
        × IsBuilt ps'
  unfolding get_app_owner
  get_app_owner-fresh view site app_id others ps h keeps =
      let (same, built) = provider_for-fresh site.rpc_url others ps h keeps in (rw same refl, built)
