-- ===== src/Membership/Resolve.antt =====
-- The participants of a session, looked up by their ids (src/init.rs).
use g_kms.Prelude.{
  ℕ, ◌==◌, ◌≡◌, ap, sym, not, ◌&&◌, Bool-cases, Option-cases, Result-cases, inl, inr, List, [], ◌∷◌,
  map, filter, get_elem?, Option, none, some, ok, Map, lookup, nat_eq, is_empty, arith, ◌-◌,
}
use g_kms.State.{PeerInfo}
use g_kms.Membership.{SessionPeer, resolve_peers, known, session_peer}

known-id : (id : ℕ) (o : Option PeerInfo) (p : SessionPeer) → known id o ≡ ok p → p.id ≡ id
known-id id none p h = cc
known-id id (some info) p h = elim (Bool-cases (is_empty info.pubkey)) [
  | inl absent ↦ ground arith
  | inr keyed ↦ let e : session_peer id info ≡ p = ground arith in sym (ap (λ q. q.id) e)
]

-- When the participants of a session resolve, they are the requested ones, in the order of the
-- request, without this node and without the id 0; none is dropped.
resolve_peers-ids :
    (table : Map ℕ PeerInfo) (list : List ℕ) (own_id : ℕ) (ids : List ℕ) (ps : List SessionPeer)
    → resolve_peers table list own_id ids ≡ ok ps
    → map (λ p. p.id) ps ≡ filter (λ id. not (id == 0) && not (id == own_id)) ids
unfolding resolve_peers
resolve_peers-ids table list own_id [] ps h = ground arith
resolve_peers-ids table list own_id (id ∷ ids) ps h =
    let later = resolve_peers-ids table list own_id ids in
    elim (Bool-cases (id == 0)) [
      | inl nobody ↦ ground (arith, later ps)
      | inr somebody ↦ elim (Bool-cases (id == own_id)) [
        | inl own ↦ ground (arith, later ps)
        | inr other ↦ elim (Option-cases (get_elem? list (id - 1))) [
          | inl outside ↦ ground arith
          | inr (addr, inside) ↦ elim (Result-cases (known id (lookup addr table))) [
            | inr (e, unknown) ↦ ground arith
            | inl (p, entry) ↦
                let same = known-id id (lookup addr table) p entry in
                elim (Result-cases (resolve_peers table list own_id ids)) [
                  | inr (e, failed) ↦ ground arith
                  | inl (rest, resolved) ↦ ground (arith, later rest resolved)
                ]
          ]
        ]
      ]
    ]
