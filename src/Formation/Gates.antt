-- ===== src/Formation/Gates.antt =====
-- When a node may create a master, recover a share or catch up (src/init.rs).
use g_kms.Prelude.{
  ℕ, ◌≤◌, ltb, ◌≡◌, ◌⊎◌, inl, inr, refl, ap, Bool, true, false, Bool-cases, Option-cases,
  Result-cases, List, [], ◌∷◌, any, All, Option, none, some, Result, ok, err, Bytes, is_some,
  unwrap_or, arith,
}
use g_kms.Time.{elapsed}
use g_kms.State.{AppState, ShardState}
use g_kms.Membership.{Membership, assemble_participants}
use g_kms.Formation.{
  Contact, SeedError, JoinResult, request_shard_from_peer, ask_seeds, join_cluster, subset_settle,
  Pass, Decision, PassEnd, after_join, with_list, form_pass,
}

abbrev pub is_declined : Result SeedError ShardState → Bool
is_declined (err SeedError.declined) = true
is_declined (err SeedError.unreachable) = false
is_declined (ok shard) = false

ask_seeds-none :
    (contact : Bytes → Contact) (reachable : Bool) (seeds : List Bytes) (got : Option ShardState)
    → ask_seeds contact reachable seeds ≡ (JoinResult.no_seed_reachable, got)
    → (reachable ≡ false)
      × All (λ u. request_shard_from_peer (contact u) ≡ err SeedError.unreachable) seeds
unfolding ask_seeds
ask_seeds-none contact true [] got h = ground arith
ask_seeds-none contact false [] got h = (refl, tt)
ask_seeds-none contact reachable (seed ∷ seeds) got h =
    elim (Result-cases (request_shard_from_peer (contact seed))) [
      | inl (shard, given) ↦ ground arith
      | inr (SeedError.unreachable, e) ↦
          let (never, rest) = ask_seeds-none contact reachable seeds got (ground arith) in
          (never, (e, rest))
      | inr (SeedError.declined, e) ↦
          let (never, rest) = ask_seeds-none contact true seeds got (ground arith) in ground arith
    ]

ask_seeds-declined :
    (contact : Bytes → Contact) (seeds : List Bytes) (got : Option ShardState)
    → ask_seeds contact false seeds ≡ (JoinResult.seed_reachable_declined, got)
    → any (λ u. is_declined (request_shard_from_peer (contact u))) seeds ≡ true
unfolding ask_seeds
ask_seeds-declined contact [] got h = ground arith
ask_seeds-declined contact (seed ∷ seeds) got h =
    elim (Result-cases (request_shard_from_peer (contact seed))) [
      | inl (shard, given) ↦ ground arith
      | inr (SeedError.unreachable, e) ↦
          let rest = ask_seeds-declined contact seeds got (ground arith) in rw e rest
      | inr (SeedError.declined, e) ↦ rw e refl
    ]

join_cluster-none :
    (signed : Bool) (contact : Bytes → Contact) (seeds : List Bytes) (got : Option ShardState)
    → join_cluster signed contact seeds ≡ some (JoinResult.no_seed_reachable, got)
    → All (λ u. request_shard_from_peer (contact u) ≡ err SeedError.unreachable) seeds
unfolding join_cluster
join_cluster-none signed contact [] got h = tt
join_cluster-none true contact (seed ∷ seeds) got h =
    (ask_seeds-none contact false (seed ∷ seeds) got (ground arith)).1
join_cluster-none false contact (seed ∷ seeds) got h = ground arith

join_cluster-declined :
    (signed : Bool) (contact : Bytes → Contact) (seeds : List Bytes) (got : Option ShardState)
    → join_cluster signed contact seeds ≡ some (JoinResult.seed_reachable_declined, got)
    → any (λ u. is_declined (request_shard_from_peer (contact u))) seeds ≡ true
unfolding join_cluster
join_cluster-declined signed contact [] got h = ground arith
join_cluster-declined true contact (seed ∷ seeds) got h =
    ask_seeds-declined contact (seed ∷ seeds) got (ground arith)
join_cluster-declined false contact (seed ∷ seeds) got h = ground arith

-- What a pass must have seen before it creates a master or recovers a share; its other ends ask for
-- nothing.
abbrev pub IsGated : Pass → Option ℕ → AppState → PassEnd → Type 0
IsGated pass since s (Decision.genesis r, since', s') =
    (s.shard ≡ none)
    × (list : List ℕ) × (m : Membership) × (pass.node_list ≡ some list)
    × (assemble_participants s pass.now list ≡ ok (some m))
    × (m.all_discovered ≡ true)
    × All (λ u. request_shard_from_peer (pass.contact u) ≡ err SeedError.unreachable) s.config.seeds
IsGated pass since s (Decision.recovery r, since', s') =
    (s.shard ≡ none)
    × (list : List ℕ) × (m : Membership) × (pass.node_list ≡ some list)
    × (assemble_participants s pass.now list ≡ ok (some m))
    × (any (λ u. is_declined (request_shard_from_peer (pass.contact u))) s.config.seeds ≡ true)
    × ((m.all_discovered ≡ true)
        ⊎ ((t : ℕ) × (since ≡ some t) × (subset_settle ≤ elapsed pass.instant t)))
IsGated pass since s (Decision.formed, since', s') = Unit
IsGated pass since s (Decision.waiting_for_list, since', s') = Unit
IsGated pass since s (Decision.assembly_failed, since', s') = Unit
IsGated pass since s (Decision.probe_failed, since', s') = Unit
IsGated pass since s (Decision.assigned, since', s') = Unit
IsGated pass since s (Decision.waiting_for_all, since', s') = Unit
IsGated pass since s (Decision.waiting_to_settle, since', s') = Unit

settled :
    (instant : ℕ) (since : Option ℕ)
    → ltb (elapsed instant (unwrap_or instant since)) subset_settle ≡ false
    → (t : ℕ) × (since ≡ some t) × (subset_settle ≤ elapsed instant t)
settled instant none h = ground arith
settled instant (some t) h = (t, refl, ground arith)

module _ (seal : ShardState → Bytes → Option Bytes) where
  after_join-IsGated :
      (pass : Pass) (since : Option ℕ) (s s' : AppState) (list : List ℕ) (m : Membership)
      (result : Option (JoinResult × Option ShardState))
      → s.shard ≡ none
      → pass.node_list ≡ some list
      → assemble_participants s pass.now list ≡ ok (some m)
      → join_cluster pass.signed pass.contact s.config.seeds ≡ result
      → IsGated pass since s (after_join seal pass m since result s')
  after_join-IsGated pass since s s' list m none bare read assembled e = tt
  after_join-IsGated pass since s s' list m (some (JoinResult.joined, got)) bare read assembled e =
      tt
  after_join-IsGated pass since s s' list m (some (JoinResult.no_seed_reachable, got)) bare read
        assembled e =
      let alone = join_cluster-none pass.signed pass.contact s.config.seeds got e in
      elim (Bool-cases m.all_discovered) [
        | inl complete ↦ rw complete (bare, list, m, read, assembled, complete, alone)
        | inr missing ↦ rw missing tt
      ]
  after_join-IsGated pass since s s' list m (some (JoinResult.seed_reachable_declined, got)) bare
        read assembled e =
      let exists = join_cluster-declined pass.signed pass.contact s.config.seeds got e in
      elim (Bool-cases m.all_discovered) [
        | inl complete ↦ rw complete (bare, list, m, read, assembled, exists, inl complete)
        | inr missing ↦
            elim (Bool-cases
              (ltb (elapsed pass.instant (unwrap_or pass.instant since)) subset_settle)) [
                | inl early ↦ rw missing (rw early tt)
                | inr late ↦ rw missing (
                    rw late (
                      bare,
                      list,
                      m,
                      read,
                      assembled,
                      exists,
                      inr (settled pass.instant since late),
                    ))
              ]
      ]

  with_list-IsGated :
      (pass : Pass) (since : Option ℕ) (s : AppState) (o : Option (List ℕ))
      → s.shard ≡ none
      → pass.node_list ≡ o
      → IsGated pass since s (with_list seal pass since o s)
  with_list-IsGated pass since s none bare read = tt
  with_list-IsGated pass since s (some list) bare read =
      elim (Result-cases (assemble_participants s pass.now list)) [
        | inr (e, absent) ↦ rw absent tt
        | inl (none, short) ↦ rw short tt
        | inl (some m, assembled) ↦ rw assembled (
            after_join-IsGated pass since s (pass.while_asking s) list m
              (join_cluster pass.signed pass.contact s.config.seeds) bare read assembled refl)
      ]

  pub form_pass-IsGated :
      (pass : Pass) (since : Option ℕ) (s : AppState)
      → IsGated pass since s (form_pass seal pass since s)
  unfolding form_pass
  form_pass-IsGated pass since s = elim (Option-cases s.shard) [
    | inr (shard, held) ↦ let yes : is_some s.shard ≡ true = ap is_some held in rw yes tt
    | inl bare ↦
        let no : is_some s.shard ≡ false = ap is_some bare in
        rw no (with_list-IsGated pass since s pass.node_list bare refl)
  ]
