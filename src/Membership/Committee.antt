-- ===== src/Membership/Committee.antt =====
-- What an assembled committee holds (src/init.rs).
use g_kms.Prelude.{
  ℕ, suc, ◌+◌, ◌-◌, ◌≤◌, ◌<◌, ◌==◌, ltb, ◌≡◌, refl, sym, ap, ◌∙◌, Bool, true, false, Bool-cases,
  Option-cases, List, [], ◌∷◌, length, map, get_elem?, Option, none, some, Result, ok, err, Map,
  lookup, nat_eq, All, IsAscending, Above, is_some, zero, inl, inr, arith, ltb→lt, is_empty, subst,
}
use g_kms.State.{AppState, PeerInfo, is_live}
use g_kms.Membership.{
  SessionPeer, Membership, SessionError, position, usable, found, discover, membership,
  assemble_participants, session_peer,
}

-- A member of the node list: its id is the position of an address, counting from `first`, whose entry
-- in the table is live, has a public key, and is what the member shows.
abbrev pub IsMember : Map ℕ PeerInfo → ℕ → ℕ → List ℕ → SessionPeer → Type 0
IsMember table now first list p =
    (first ≤ p.id)
    × (addr : ℕ) × (get_elem? list (p.id - first) ≡ some addr)
    × (info : PeerInfo) × (lookup addr table ≡ some info)
    × (is_empty info.pubkey ≡ false)
    × (is_live now info ≡ true)
    × (p ≡ session_peer p.id info)

get_elem?-suc {ℓ} :
    {A : Type ℓ} (list : List A) (a : A) (i j : ℕ)
    → suc j ≤ i
    → get_elem? (a ∷ list) (i - j) ≡ get_elem? list (i - suc j)
get_elem?-suc list a i j h = let e : i - j ≡ suc (i - suc j) = omega arith in rw e refl

IsMember-suc :
    (table : Map ℕ PeerInfo) (now first a : ℕ) (list : List ℕ) (p : SessionPeer)
    → IsMember table now (suc first) list p
    → IsMember table now first (a ∷ list) p
IsMember-suc table now first a list p (low, addr, at, info, l, k, v, e) =
    (omega arith, addr, rw (get_elem?-suc list a p.id first low) at, info, l, k, v, e)

All-IsMember-suc :
    (table : Map ℕ PeerInfo) (now first a : ℕ) (list : List ℕ) (ps : List SessionPeer)
    → All (IsMember table now (suc first) list) ps
    → All (IsMember table now first (a ∷ list)) ps
All-IsMember-suc table now first a list [] h = tt
All-IsMember-suc table now first a list (p ∷ ps) h =
    (IsMember-suc table now first a list p h.0, All-IsMember-suc table now first a list ps h.1)

usable-eq-some :
    (now : ℕ) (o : Option PeerInfo) (info : PeerInfo)
    → usable now o ≡ some info
    → (o ≡ some info) × (is_empty info.pubkey ≡ false) × (is_live now info ≡ true)
usable-eq-some now none info h = cc
usable-eq-some now (some i) info h = elim (Bool-cases (is_empty i.pubkey)) [
  | inl unknown ↦ ground arith
  | inr keyed ↦ elim (Bool-cases (is_live now i)) [
    | inl live ↦ ground arith
    | inr dead ↦ ground arith
  ]
]

members-Above :
    (table : Map ℕ PeerInfo) (now first : ℕ) (list : List ℕ) (ps : List SessionPeer)
    → All (IsMember table now (suc first) list) ps
    → Above first (map (λ p. p.id) ps)
members-Above table now first list [] h = tt
members-Above table now first list (p ∷ ps) h = (h.0.0, members-Above table now first list ps h.1)

-- Ids from `first` on, ascending, none of them this node's.
AreMembers : Map ℕ PeerInfo → ℕ → ℕ → ℕ → List ℕ → List SessionPeer → Type 0
AreMembers table now own_id first list peers =
    All (IsMember table now first list) peers
    × All (λ p. (p.id == own_id) ≡ false) peers
    × IsAscending (map (λ p. p.id) peers)

module _ (table : Map ℕ PeerInfo) (now own_id : ℕ) where
  found-AreMembers :
      (first addr : ℕ) (list : List ℕ) (rest : List SessionPeer × Bool)
      → (first == own_id) ≡ false
      → AreMembers table now own_id (suc first) list rest.0
      → AreMembers table now own_id first
          (addr ∷ list)
          (found first (usable now (lookup addr table)) rest).0
  unfolding AreMembers
  found-AreMembers first addr list (ps, complete) other (members, others, ascending) =
      let later = All-IsMember-suc table now first addr list ps members in
      elim (Option-cases (usable now (lookup addr table))) [
        | inl absent ↦ rw absent (later, others, ascending)
        | inr (info, present) ↦
            let (entry, keyed, live) = usable-eq-some now (lookup addr table) info present in
            let here : get_elem? (addr ∷ list) (first - first) ≡ some addr =
              let e : first - first ≡ 0 = omega arith in rw e refl in
            rw present (
              ((omega arith, addr, here, info, entry, keyed, live, refl), later),
              (other, others),
              (members-Above table now first list ps members, ascending),
            )
      ]

  discover-AreMembers :
      (first : ℕ) (list : List ℕ)
      → AreMembers table now own_id first list (discover table now own_id first list).0
  unfolding discover AreMembers
  discover-AreMembers first [] = (tt, tt, tt)
  discover-AreMembers first (a ∷ list) =
      let rest = discover table now own_id (suc first) list in
      let (members, others, ascending) = discover-AreMembers (suc first) list in
      elim (Bool-cases (first == own_id)) [
        | inl own ↦
            rw own (All-IsMember-suc table now first a list rest.0 members, others, ascending)
        | inr other ↦
            rw other (found-AreMembers first a list rest other (members, others, ascending))
      ]

  -- When none is missing, every address but this node's has a usable entry.
  discover_complete :
      (first : ℕ) (list : List ℕ) (i addr : ℕ)
      → (discover table now own_id first list).1 ≡ true
      → get_elem? list i ≡ some addr
      → (first + i == own_id) ≡ false
      → is_some (usable now (lookup addr table)) ≡ true
  unfolding discover
  discover_complete first [] i addr h at other = cc
  discover_complete first (a ∷ list) zero addr h at other =
      let found_here : (first == own_id) ≡ false = ground arith in
      elim (Option-cases (usable now (lookup a table))) [
        | inl absent ↦ ground arith
        | inr (info, present) ↦ ground arith
      ]
  discover_complete first (a ∷ list) (suc i) addr h at other =
      let later = discover_complete (suc first) list i addr in
      elim (Option-cases (usable now (lookup a table))) [
        | inl absent ↦ ground arith
        | inr (info, present) ↦ ground arith
      ]

position-at :
    (own from k : ℕ) (list : List ℕ)
    → position own from list ≡ some k
    → (from ≤ k) × (get_elem? list (k - from) ≡ some own)
unfolding position
position-at own from k [] h = cc
position-at own from k (a ∷ list) h =
    let later = position-at own (suc from) k list in
    elim (Bool-cases (a == own)) [
      | inl same ↦
          let k_from : k ≡ from = ground arith in
          let e : k - from ≡ 0 = omega arith in (omega arith, rw e (ground arith))
      | inr other ↦
          let (low, at) = later (ground arith) in
          (omega arith, rw (get_elem?-suc list a k from low) at)
    ]

-- What an answer of `assemble_participants` says.
abbrev pub IsAssembled : AppState → ℕ → List ℕ → Result SessionError (Option Membership) → Type 0
IsAssembled s now list (err e) =
    (s.config.total_nodes ≤ length list) × (position s.eth_address 0 list ≡ none)
IsAssembled s now list (ok none) = length list < s.config.total_nodes
IsAssembled s now list (ok (some m)) =
    (s.config.total_nodes ≤ length list)
    × (get_elem? list (m.own_id - 1) ≡ some s.eth_address)
    × (1 ≤ m.own_id)
    × (m.threshold ≡ s.config.threshold)
    × (m.total ≡ s.config.total_nodes)
    × All (IsMember s.peer_table now 1 list) m.peers
    × All (λ p. (p.id == m.own_id) ≡ false) m.peers
    × IsAscending (map (λ p. p.id) m.peers)

-- `assemble_participants` fails only when this node is not on the list, and waits exactly while the
-- list is shorter than the configured size. Otherwise this node's id is the 1-based position of its
-- address, and threshold and size are as configured; the peers are other members, in ascending order of their ids, which are their positions,
-- and each is live, with a public key, and shows what the peer table holds of it.
pub assemble_participants-IsAssembled :
    (s : AppState) (now : ℕ) (list : List ℕ)
    → IsAssembled s now list (assemble_participants s now list)
unfolding assemble_participants AreMembers
assemble_participants-IsAssembled s now list =
    elim (Bool-cases (ltb (length list) s.config.total_nodes)) [
      | inl short ↦ rw short (ltb→lt (length list) s.config.total_nodes short)
      | inr long ↦ elim (Option-cases (position s.eth_address 0 list)) [
        | inl off ↦ rw long (rw off (ground arith, off))
        | inr (k, on) ↦
            let (low, at) = position-at s.eth_address 0 k list on in
            let (members, others, ascending) =
              discover-AreMembers s.peer_table now (k + 1) 1 list in
            let e : k + 1 - 1 ≡ k - 0 = omega arith in
            rw long
              (rw on (ground arith, rw e at, omega arith, refl, refl, members, others, ascending))
      ]
    ]

-- A committee that is assembled as all discovered misses nobody: each address of the node list but
-- this node's own has a live entry with a public key.
assemble_participants_complete :
    (s : AppState) (now : ℕ) (list : List ℕ) (m : Membership) (i addr : ℕ)
    → assemble_participants s now list ≡ ok (some m)
    → m.all_discovered ≡ true
    → get_elem? list i ≡ some addr
    → (1 + i == m.own_id) ≡ false
    → is_some (usable now (lookup addr s.peer_table)) ≡ true
unfolding assemble_participants
assemble_participants_complete s now list m i addr h all at other =
    elim (Bool-cases (ltb (length list) s.config.total_nodes)) [
      | inl short ↦ ground arith
      | inr long ↦ elim (Option-cases (position s.eth_address 0 list)) [
        | inl off ↦ ground arith
        | inr (k, on) ↦
            let e : m ≡ membership s (k + 1) (discover s.peer_table now (k + 1) 1 list) =
              ground arith in
            discover_complete s.peer_table now (k + 1) 1 list i addr
              (sym (ap (λ m. m.all_discovered) e) ∙ all) at
              (subst (λ n. (1 + i == n.own_id) ≡ false) e other)
      ]
    ]
