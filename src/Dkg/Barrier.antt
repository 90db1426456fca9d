-- ===== src/Dkg/Barrier.antt =====
-- When the barrier of a round opens (src/dkg.rs, `await_round`).
use g_kms.Prelude.{
  ℕ, suc, take, ◌≡◌, subst₂, ap, ◌∙◌, refl, Bool, true, Bool-cases, inl, inr, all, All, is_some,
  is_ok, List, [], ◌∷◌, Option, none, some, lookup, nat_eq, unwrap_or, Bytes, ok, arith,
}
use g_kms.State.{AppState}
use g_kms.Dkg.{RoundMap, open_session, buffered, complete, await_loop, await_round}

pub all-All {ℓ} :
    {A : Type ℓ} (p : A → Bool) (xs : List A) → all p xs ≡ true → All (λ x. p x ≡ true) xs
all-All p [] h = tt
all-All p (x ∷ xs) h = ground (arith, all-All p xs)

-- What an open barrier has of a round.
abbrev pub IsComplete : List ℕ → RoundMap → Option RoundMap → Type 0
IsComplete expected msgs o = (o ≡ some msgs) × All (λ id. is_some (lookup id msgs) ≡ true) expected

complete-IsComplete :
    (expected : List ℕ) (o : Option RoundMap)
    → complete expected o ≡ true
    → IsComplete expected (unwrap_or [] o) o
complete-IsComplete expected none h = ground arith
complete-IsComplete expected (some msgs) h =
    (refl, all-All (λ id. is_some (lookup id msgs)) expected h)

All-all {ℓ} : {A : Type ℓ} (p : A → Bool) (xs : List A) → All (λ x. p x ≡ true) xs → all p xs ≡ true
All-all p [] h = refl
All-all p (x ∷ xs) h = ground (arith, h.0, All-all p xs h.1)

pub IsComplete-complete :
    (expected : List ℕ) (msgs : RoundMap) (o : Option RoundMap)
    → IsComplete expected msgs o
    → complete expected o ≡ true
IsComplete-complete expected msgs o (there, everyone) =
    ap (complete expected) there ∙ All-all (λ id. is_some (lookup id msgs)) expected everyone

-- A barrier that opens gives what is buffered of the round then, and that has a message of everyone.
pub await_loop-ok :
    (session_id : Bytes) (round : ℕ) (expected : List ℕ) (looks : List (AppState → AppState))
    (s s' : AppState) (msgs : RoundMap)
    → await_loop session_id round expected looks s ≡ (ok msgs, s')
    → IsComplete expected msgs (buffered session_id round s')
unfolding await_loop
await_loop-ok session_id round expected [] s s' msgs h =
    elim (Bool-cases (complete expected (buffered session_id round s))) [
      | inr closed ↦ ground arith
      | inl open_now ↦
          let r : unwrap_or [] (buffered session_id round s) ≡ msgs = ground arith in
          let t : s ≡ s' = ground arith in
          subst₂ (λ m u. IsComplete expected m (buffered session_id round u)) r t
            (complete-IsComplete expected (buffered session_id round s) open_now)
    ]
await_loop-ok session_id round expected (f ∷ fs) s s' msgs h =
    let later = await_loop-ok session_id round expected fs (f s) s' msgs in
    elim (Bool-cases (complete expected (buffered session_id round s))) [
      | inr closed ↦ later (ground arith)
      | inl open_now ↦
          let r : unwrap_or [] (buffered session_id round s) ≡ msgs = ground arith in
          let t : s ≡ s' = ground arith in
          subst₂ (λ m u. IsComplete expected m (buffered session_id round u)) r t
            (complete-IsComplete expected (buffered session_id round s) open_now)
    ]

-- The state at the last look of them.
abbrev pub at_deadline : List (AppState → AppState) → AppState → AppState
at_deadline [] s = s
at_deadline (f ∷ fs) s = at_deadline fs (f s)

-- A barrier that opens does so at one of its looks.
pub await_loop-at_deadline :
    (session_id : Bytes) (round : ℕ) (expected : List ℕ) (looks : List (AppState → AppState))
    (s s' : AppState) (msgs : RoundMap)
    → await_loop session_id round expected looks s ≡ (ok msgs, s')
    → (n : ℕ) × (s' ≡ at_deadline (take n looks) s)
unfolding await_loop
await_loop-at_deadline session_id round expected [] s s' msgs h =
    elim (Bool-cases (complete expected (buffered session_id round s))) [
      | inr closed ↦ absurd (ground arith)
      | inl open_now ↦ (0, ground arith)
    ]
await_loop-at_deadline session_id round expected (f ∷ fs) s s' msgs h =
    let later = await_loop-at_deadline session_id round expected fs (f s) s' msgs in
    elim (Bool-cases (complete expected (buffered session_id round s))) [
      | inl open_now ↦ (0, ground arith)
      | inr closed ↦ let (n, at) = later (ground arith) in (suc n, at)
    ]

-- Other tasks take no message of this round out of the buffer.
abbrev pub KeepsComplete : Bytes → ℕ → List ℕ → (AppState → AppState) → Type 0
KeepsComplete session_id round expected f =
    (s : AppState)
    → complete expected (buffered session_id round s) ≡ true
    → complete expected (buffered session_id round (f s)) ≡ true

stays_complete :
    (session_id : Bytes) (round : ℕ) (expected : List ℕ) (looks : List (AppState → AppState))
    (s : AppState)
    → All (KeepsComplete session_id round expected) looks
    → complete expected (buffered session_id round s) ≡ true
    → complete expected (buffered session_id round (at_deadline looks s)) ≡ true
stays_complete session_id round expected [] s k h = h
stays_complete session_id round expected (f ∷ fs) s k h =
    stays_complete session_id round expected fs (f s) k.1 (k.0 s h)

await_loop_iff :
    (session_id : Bytes) (round : ℕ) (expected : List ℕ) (looks : List (AppState → AppState))
    (s : AppState)
    → All (KeepsComplete session_id round expected) looks
    → is_ok (await_loop session_id round expected looks s).0
      ≡ complete expected (buffered session_id round (at_deadline looks s))
unfolding await_loop
await_loop_iff session_id round expected [] s k = ground arith
await_loop_iff session_id round expected (f ∷ fs) s k =
    elim (Bool-cases (complete expected (buffered session_id round s))) [
      | inl open_now ↦
          ground (arith, stays_complete session_id round expected (f ∷ fs) s k open_now)
      | inr closed ↦ ground (arith, await_loop_iff session_id round expected fs (f s) k.1)
    ]

-- The barrier opens exactly if, at the last look before the deadline, something of the round is
-- buffered and everyone expected has a message there; it gives up in no other case. Other tasks may
-- do anything, as long as they take no message of the round away.
pub await_round_iff :
    (session_id : Bytes) (round : ℕ) (expected : List ℕ) (looks : List (AppState → AppState))
    (s : AppState)
    → All (KeepsComplete session_id round expected) looks
    → is_ok (await_round session_id round expected looks s).0
      ≡ complete expected
          (buffered session_id round (at_deadline looks (open_session session_id s)))
unfolding await_round
await_round_iff session_id round expected looks s k =
    await_loop_iff session_id round expected looks (open_session session_id s) k
