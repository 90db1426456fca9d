-- ===== src/Dkg/Exchange.antt =====
-- What each round of a session gives (src/dkg.rs).
use g_kms.Prelude.{
  ℕ, take, subst, subst₂, ◌⊎◌, All-erase, ◌≡◌, refl, sym, ap, ap₂, ◌∙◌, true, Bool-cases,
  Option-cases, inl, inr, All, is_some, ◌||◌, ◌&&◌, List, [], ◌∷◌, ◌++◌, map, Option, none, some,
  lookup, insert, erase, lookup-insert, lookup-insert_self, append-nil, nat_eq, bytes_eq, Map,
  Bytes, Result, ok, err, ok_or, arith,
}
use g_kms.State.{AppState}
use g_kms.Membership.{SessionPeer}
use g_kms.Dkg.{
  complete, buffered, RoundMap, DkgError, Codec, Protocol, Sent, Round, Driver, lift, after_step,
  messages, await_loop, await_round, exchange, parse_broadcasts, parse_first, encrypt_shares,
  echo_round, first_round, ◌>>=◌, open_session,
}
use g_kms.Dkg.Barrier.{at_deadline, await_loop-at_deadline, await_loop-ok, IsComplete-complete}

-- A message of each of them.
abbrev pub HasAll : {T : Type 0} → List ℕ → Map ℕ T → Type 0
HasAll ids m = All (λ id. is_some (lookup id m) ≡ true) ids

abbrev pub ids_of : List SessionPeer → List ℕ
ids_of peers = map (λ q. q.id) peers

-- The messages that a round of a session has received when its barrier opens: at one of the looks, on
-- what other tasks have left, the buffer of this very round, which has one of each peer.
abbrev pub IsReceived :
    Bytes → ℕ → List SessionPeer → Round → AppState → AppState → RoundMap → Type 0
IsReceived session_id round peers env s s' msgs =
    ((n : ℕ) × (s'
        ≡ at_deadline (take n env.looks) (open_session session_id (env.while_sending s))))
    × (buffered session_id round s' ≡ some msgs)
    × HasAll (ids_of peers) msgs

-- A message of a sender is among those.
abbrev pub Sends : ℕ → Bytes × Bytes → RoundMap → Type 0
Sends id msg [] = ⊥
Sends id msg ((from, found) ∷ msgs) =
    ((from ≡ id) × ◌≡◌ {A = Bytes × Bytes} found msg) ⊎ Sends id msg msgs

-- What is known of a sender: this node's own, or a broadcast of its that parses.
abbrev pub IsOneOf : {T : Type 0} → Codec T → ℕ → T → RoundMap → ℕ × T → Type 0
IsOneOf c own_id own msgs (id, b) =
    ((id ≡ own_id) × (b ≡ own))
    ⊎ ((text : Bytes) × (p2p : Bytes) × Sends id (text, p2p) msgs × (c.de text ≡ some b))

-- One round of broadcasts from one state to the next: what was sent, and what is known of everyone's,
-- the node's own included.
abbrev pub IsEcho :
    {T : Type 0}
    → Codec T
    → Bytes
    → ℕ
    → ℕ
    → T
    → List SessionPeer
    → Round
    → AppState
    → AppState
    → List Sent
    → Map ℕ T
    → Type 0
IsEcho c session_id round own_id own peers env s s' sent m =
    (bytes : Bytes) × (msgs : RoundMap) × (c.ser own ≡ some bytes)
    × (sent ≡ messages round own_id bytes [] peers)
    × IsReceived session_id round peers env s s' msgs
    × HasAll (own_id ∷ ids_of peers) m
    × All (IsOneOf c own_id own msgs) m

-- What is known of a sender from the first round.
abbrev pub IsCommitment : {T : Type 0} → Codec T → RoundMap → ℕ × T → Type 0
IsCommitment c msgs (id, b) =
    (text : Bytes) × (p2p : Bytes) × Sends id (text, p2p) msgs × (c.de text ≡ some b)

abbrev pub IsP2pOf : {T : Type 0} → Codec T → RoundMap → ℕ × T → Type 0
IsP2pOf c msgs (id, b) =
    (text : Bytes) × (p2p : Bytes) × Sends id (text, p2p) msgs × (c.de p2p ≡ some b)

-- The first round: a commitment and an encrypted share to each peer, and theirs.
abbrev pub IsFirst :
    (p : Protocol)
    → Bytes
    → ℕ
    → p.Broadcast1
    → Map ℕ p.Share1
    → List SessionPeer
    → Round
    → AppState
    → AppState
    → List Sent
    → Map ℕ p.Broadcast1 × Map ℕ p.Share1
    → Type 0
IsFirst p session_id own_id own shares peers env s s' sent (firsts, theirs) =
    (bytes : Bytes) × (payloads : Map ℕ Bytes) × (msgs : RoundMap) × (p.broadcast1.ser own
      ≡ some bytes)
    × (encrypt_shares p shares [] peers ≡ ok payloads)
    × (sent ≡ messages 1 own_id bytes payloads peers)
    × IsReceived session_id 1 peers env s s' msgs
    × HasAll (ids_of peers) firsts
    × HasAll (ids_of peers) theirs
    × All (IsCommitment p.broadcast1 msgs) firsts
    × All (IsP2pOf p.share1 msgs) theirs

module _ {A B : Type 0} where
  pub after_step-ok :
      (f : A → Driver B) (x : Result DkgError A × List Sent × AppState) (b : B) (sent : List Sent)
      (s' : AppState)
      → after_step f x ≡ (ok b, sent, s')
      → (a : A) × (sent1 : List Sent) × (s1 : AppState) × (more : List Sent) × (x
          ≡ (ok a, sent1, s1))
        × (f a s1 ≡ (ok b, more, s'))
        × (sent ≡ sent1 ++ more)
  after_step-ok f (err e, sent1, s1) b sent s' h = ground arith
  after_step-ok f (ok a, sent1, s1) b sent s' h = (
    a,
    sent1,
    s1,
    (f a s1).1,
    refl,
    ap₂ (λ r t. (r, (f a s1).1, t)) (ap (λ x. x.0) h) (ap (λ x. x.2) h),
    sym (ap (λ x. x.1) h),
  )

  pub lift_step-ok :
      (f : A → Driver B) (o : Option A) (e : DkgError) (s : AppState) (b : B) (sent : List Sent)
      (s' : AppState)
      → after_step f (lift (ok_or o e) s) ≡ (ok b, sent, s')
      → (a : A) × (o ≡ some a) × (f a s ≡ (ok b, sent, s'))
  lift_step-ok f none e s b sent s' h = ground arith
  lift_step-ok f (some a) e s b sent s' h = (a, refl, h)

exchange-ok :
    (session_id : Bytes) (round own_id : ℕ) (broadcast : Bytes) (p2p : Map ℕ Bytes)
    (peers : List SessionPeer) (env : Round) (s s' : AppState) (msgs : RoundMap) (sent : List Sent)
    → exchange session_id round own_id broadcast p2p peers env s ≡ (ok msgs, sent, s')
    → (sent ≡ messages round own_id broadcast p2p peers)
      × IsReceived session_id round peers env s s' msgs
      × (complete (ids_of peers) (buffered session_id round s') ≡ true)
unfolding exchange await_round
exchange-ok session_id round own_id broadcast p2p peers env s s' msgs sent h =
    elim (Bool-cases env.signed) [
      | inr unsigned ↦ ground arith
      | inl signed ↦
          let start = open_session session_id (env.while_sending s) in
          let run = await_loop session_id round (ids_of peers) env.looks start in
          let e : run.0 ≡ ok msgs = ground arith in
          let same : run.1 ≡ s' = ground arith in
          let (there, everyone) =
            await_loop-ok session_id round (ids_of peers) env.looks start run.1 msgs
              (ap (λ r. (r, run.1)) e) in
          let (n, at) =
            await_loop-at_deadline session_id round (ids_of peers) env.looks start run.1 msgs
              (ap (λ r. (r, run.1)) e) in
          (
            ground arith,
            ((n, sym same ∙ at), ap (buffered session_id round) (sym same) ∙ there, everyone),
            ap (λ t. complete (ids_of peers) (buffered session_id round t)) (sym same)
                ∙ IsComplete-complete (ids_of peers) msgs (buffered session_id round run.1)
                    (there, everyone),
          )
    ]

-- A message of a sender that is there, or was before, is among the parsed ones.
parse_broadcasts-has :
    {T : Type 0} (c : Codec T) (acc : Map ℕ T) (m : RoundMap) (r : Map ℕ T) (id : ℕ)
    → parse_broadcasts c acc m ≡ ok r
    → (is_some (lookup id acc) || is_some (lookup id m)) ≡ true
    → is_some (lookup id r) ≡ true
unfolding parse_broadcasts lookup
parse_broadcasts-has c acc [] r id h k = ground arith
parse_broadcasts-has c acc ((from, (broadcast, p2p)) ∷ m) r id h k =
    elim (Option-cases (c.de broadcast)) [
      | inl malformed ↦ ground arith
      | inr (b, parsed) ↦
          parse_broadcasts-has c (insert from b acc) m r id (ground arith)
            (ground (arith, lookup-insert from id b acc))
    ]

-- So is everyone's, when this node's own was put in first.
parse_broadcasts-HasAll :
    {T : Type 0} (c : Codec T) (own_id : ℕ) (own : T) (ids : List ℕ) (m : RoundMap) (r : Map ℕ T)
    → parse_broadcasts c (insert own_id own []) m ≡ ok r
    → HasAll ids m
    → HasAll ids r
parse_broadcasts-HasAll c own_id own [] m r h k = tt
parse_broadcasts-HasAll c own_id own (id ∷ ids) m r h k = (
  parse_broadcasts-has c (insert own_id own []) m r id h (ground (arith, k.0)),
  parse_broadcasts-HasAll c own_id own ids m r h k.1,
)

-- What holds of what was there and of each message that parses holds of all that is parsed.
parse_broadcasts-All :
    {T : Type 0} (c : Codec T) (Q : ℕ × T → Type 0) (acc : Map ℕ T) (m : RoundMap) (r : Map ℕ T)
    → parse_broadcasts c acc m ≡ ok r
    → All Q acc
    → ((id : ℕ) (text p2p : Bytes) (b : T)
        → Sends id (text, p2p) m
        → c.de text ≡ some b
        → Q (id, b))
    → All Q r
unfolding parse_broadcasts insert
parse_broadcasts-All c Q acc [] r h q each = subst (All Q) (ground arith) q
parse_broadcasts-All c Q acc ((from, (text, p2p)) ∷ m) r h q each =
    elim (Option-cases (c.de text)) [
      | inl malformed ↦ absurd (ground arith)
      | inr (b, parsed) ↦
          parse_broadcasts-All c Q (insert from b acc) m r (ground arith)
            (
              each from text p2p b (inl (refl, refl)) parsed,
              All-erase _ _ from acc (λ j y ne k. k) q,
            )
            (λ id text' p2p' b' sends. each id text' p2p' b' (inr sends))
    ]

pub echo_round-ok :
    {T : Type 0} (c : Codec T) (session_id : Bytes) (round own_id : ℕ) (own : T)
    (peers : List SessionPeer) (env : Round) (s s' : AppState) (m : Map ℕ T) (sent : List Sent)
    → echo_round c session_id round own_id own peers env s ≡ (ok m, sent, s')
    → IsEcho c session_id round own_id own peers env s s' sent m
unfolding echo_round insert erase
echo_round-ok c session_id round own_id own peers env s s' m sent h =
    let (bytes, written, h1) =
      lift_step-ok
        (λ bytes. exchange session_id round own_id bytes [] peers env >>= λ received.
          lift (parse_broadcasts c (insert own_id own []) received))
        (c.ser own) DkgError.not_serialized s m sent s' h in
    let (received, sent1, s1, more, h2, h3, all_sent) =
      after_step-ok (λ received. lift (parse_broadcasts c (insert own_id own []) received))
        (exchange session_id round own_id bytes [] peers env s) m sent s' h1 in
    let (out, heard, opened) =
      exchange-ok session_id round own_id bytes [] peers env s s1 received sent1 h2 in
    let parsed = ap (λ x. x.0) h3 in
    (
      bytes,
      received,
      written,
      all_sent ∙ ap (λ x. sent1 ++ x) (sym (ap (λ x. x.1) h3)) ∙ append-nil sent1 ∙ out,
      subst (λ t. IsReceived session_id round peers env s t received) (ap (λ x. x.2) h3) heard,
      (
        parse_broadcasts-has c (insert own_id own []) received m own_id parsed
            (ground (arith, lookup-insert_self own_id own [])),
        parse_broadcasts-HasAll c own_id own (ids_of peers) received m parsed heard.2,
      ),
      parse_broadcasts-All c (IsOneOf c own_id own received) (insert own_id own []) received m
          parsed (inl (refl, refl), tt)
          (λ id text p2p b sends reads. inr (text, p2p, sends, reads)),
    )

parse_first-has :
    {T S : Type 0} (c : Codec T) (d : Codec S) (bs : Map ℕ T) (ps : Map ℕ S) (m : RoundMap)
    (firsts : Map ℕ T) (theirs : Map ℕ S) (id : ℕ)
    → parse_first c d bs ps m ≡ ok (firsts, theirs)
    → (is_some (lookup id bs) && is_some (lookup id ps) || is_some (lookup id m)) ≡ true
    → (is_some (lookup id firsts) ≡ true) × (is_some (lookup id theirs) ≡ true)
unfolding parse_first lookup
parse_first-has c d bs ps [] firsts theirs id h k =
    let e : bs ≡ firsts = ground arith in
    let f : ps ≡ theirs = ground arith in
    (
      ground (arith, ap (λ x. is_some (lookup id x)) e),
      ground (arith, ap (λ x. is_some (lookup id x)) f),
    )
parse_first-has c d bs ps ((from, (broadcast, p2p)) ∷ m) firsts theirs id h k =
    elim (Option-cases (c.de broadcast)) [
      | inl malformed ↦ ground arith
      | inr (b, parsed) ↦ elim (Option-cases (d.de p2p)) [
        | inl bad ↦ ground arith
        | inr (q, share) ↦
            parse_first-has c d (insert from b bs) (insert from q ps) m firsts theirs id
              (ground arith)
              (ground (arith, lookup-insert from id b bs, lookup-insert from id q ps))
      ]
    ]

parse_first-All :
    {T S : Type 0} (c : Codec T) (d : Codec S) (Q : ℕ × T → Type 0) (R : ℕ × S → Type 0)
    (bs : Map ℕ T) (ps : Map ℕ S) (m : RoundMap) (firsts : Map ℕ T) (theirs : Map ℕ S)
    → parse_first c d bs ps m ≡ ok (firsts, theirs)
    → All Q bs
    → All R ps
    → ((id : ℕ) (text p2p : Bytes) (b : T)
        → Sends id (text, p2p) m
        → c.de text ≡ some b
        → Q (id, b))
    → ((id : ℕ) (text p2p : Bytes) (b : S) → Sends id (text, p2p) m → d.de p2p ≡ some b → R (id, b))
    → All Q firsts × All R theirs
unfolding parse_first insert
parse_first-All c d Q R bs ps [] firsts theirs h q r each each' =
    let e : bs ≡ firsts = ground arith in
    let f : ps ≡ theirs = ground arith in (subst (All Q) e q, subst (All R) f r)
parse_first-All c d Q R bs ps ((from, (text, p2p)) ∷ m) firsts theirs h q r each each' =
    elim (Option-cases (c.de text)) [
      | inl malformed ↦ absurd (ground arith)
      | inr (b, parsed) ↦ elim (Option-cases (d.de p2p)) [
        | inl bad ↦ absurd (ground arith)
        | inr (x, share) ↦
            parse_first-All c d Q R (insert from b bs) (insert from x ps) m firsts theirs
              (ground arith)
              (
                each from text p2p b (inl (refl, refl)) parsed,
                All-erase _ _ from bs (λ j y ne k. k) q,
              )
              (
                each' from text p2p x (inl (refl, refl)) share,
                All-erase _ _ from ps (λ j y ne k. k) r,
              )
              (λ id text' p2p' b' sends. each id text' p2p' b' (inr sends))
              (λ id text' p2p' b' sends. each' id text' p2p' b' (inr sends))
      ]
    ]

parse_first-HasAll :
    {T S : Type 0} (c : Codec T) (d : Codec S) (ids : List ℕ) (m : RoundMap) (firsts : Map ℕ T)
    (theirs : Map ℕ S)
    → parse_first c d [] [] m ≡ ok (firsts, theirs)
    → HasAll ids m
    → HasAll ids firsts × HasAll ids theirs
parse_first-HasAll c d [] m firsts theirs h k = (tt, tt)
parse_first-HasAll c d (id ∷ ids) m firsts theirs h k =
    let (x, y) = parse_first-has c d [] [] m firsts theirs id h (ground (arith, k.0)) in
    let (xs, ys) = parse_first-HasAll c d ids m firsts theirs h k.1 in ((x, xs), (y, ys))

pub first_round-IsFirst :
    (p : Protocol) (session_id : Bytes) (own_id : ℕ) (own : p.Broadcast1) (shares : Map ℕ p.Share1)
    (peers : List SessionPeer) (env : Round) (s s' : AppState)
    (received : Map ℕ p.Broadcast1 × Map ℕ p.Share1) (sent : List Sent)
    → first_round p session_id own_id own shares peers env s ≡ (ok received, sent, s')
    → IsFirst p session_id own_id own shares peers env s s' sent received
      × (complete (ids_of peers) (buffered session_id 1 s') ≡ true)
unfolding first_round
first_round-IsFirst p session_id own_id own shares peers env s s' received sent h =
    let (bytes, written, h1) =
      lift_step-ok
        (λ bytes. lift (encrypt_shares p shares [] peers) >>= λ payloads.
          exchange session_id 1 own_id bytes payloads peers env >>= λ r.
          lift (parse_first p.broadcast1 p.share1 [] [] r))
        (p.broadcast1.ser own) DkgError.not_serialized s received sent s' h in
    let (payloads, sent0, s0, more0, h2, h3, all_sent0) =
      after_step-ok
        (λ payloads. exchange session_id 1 own_id bytes payloads peers env >>= λ r.
          lift (parse_first p.broadcast1 p.share1 [] [] r))
        (lift (encrypt_shares p shares [] peers) s) received sent s' h1 in
    let (msgs, sent1, s1, more, h4, h5, all_sent1) =
      after_step-ok (λ r. lift (parse_first p.broadcast1 p.share1 [] [] r))
        (exchange session_id 1 own_id bytes payloads peers env s0) received more0 s' h3 in
    let (out, heard, opened) =
      exchange-ok session_id 1 own_id bytes payloads peers env s0 s1 msgs sent1 h4 in
    let (commitments, dealt) =
      parse_first-All p.broadcast1 p.share1 (IsCommitment p.broadcast1 msgs) (IsP2pOf p.share1 msgs)
        [] [] msgs received.0 received.1 (ap (λ x. x.0) h5) tt tt
        (λ id text p2p b sends reads. (text, p2p, sends, reads))
        (λ id text p2p b sends reads. (text, p2p, sends, reads)) in
    let (firsts, theirs) =
      parse_first-HasAll p.broadcast1 p.share1 (ids_of peers) msgs received.0 received.1
        (ap (λ x. x.0) h5) heard.2 in
    let stays = ap (λ t. complete (ids_of peers) (buffered session_id 1 t)) (ap (λ x. x.2) h5) in
    (
      (
        bytes,
        payloads,
        msgs,
        written,
        ap (λ x. x.0) h2,
        all_sent0
            ∙ ap (λ x. x ++ more0) (sym (ap (λ x. x.1) h2))
            ∙ all_sent1
            ∙ ap (λ x. sent1 ++ x) (sym (ap (λ x. x.1) h5))
            ∙ append-nil sent1
            ∙ out,
        subst₂ (λ t u. IsReceived session_id 1 peers env t u msgs) (sym (ap (λ x. x.2) h2))
            (ap (λ x. x.2) h5) heard,
        firsts,
        theirs,
        commitments,
        dealt,
      ),
      sym stays ∙ opened,
    )
