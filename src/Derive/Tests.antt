-- ===== src/Derive/Tests.antt =====
-- Derivations over a toy group, and the theorems at concrete data. The polynomial is constant: every
-- share is the master, a number, and a signature of a message is the master with the message.
use g_kms.Prelude.{
  ℕ, All, ◌≤◌, ◌≡◌, refl, true, beq_bytes, beq_bytes_iff, List, [], ◌∷◌, ◌++◌, Option, none, some,
  Bytes, ok, err, length, IsAscending, lookup, insert, sort, codes, sym, ◌∙◌,
}
use g_kms.Errors.{KmsError}
use g_kms.State.{ShardState}
use g_kms.Wire.{dprf_message, be_bytes}
use g_kms.Derive.{Bls, Reply, DeriveTrace, collect_and_dprf}
use g_kms.Derive.Enough.{serves}
use g_kms.Derive.Safe.{
  collect_and_dprf-verified, collect_and_dprf-deterministic, collect_and_dprf-servers,
}

abbrev parse_one : Bytes → Option Bytes
parse_one [] = none
parse_one (x ∷ xs) = some (x ∷ xs)

abbrev first_of_all : List Bytes → Option Bytes
first_of_all [] = none
first_of_all (p ∷ ps) = some p

abbrev toy : Bls
toy = record {
  Share = Bytes;
  Partial = Bytes;
  Sigma = Bytes;
  share_from_bytes = parse_one;
  sign = λ s m. some (s ++ m);
  partial_from_bytes = parse_one;
  combine = first_of_all;
  verify = λ s pk m. beq_bytes s (pk ++ m);
  app_key = λ s. s;
}

abbrev app : Bytes
app = codes "app"

abbrev master : Bytes
master = 42 ∷ []

-- A node at epoch 3, while its peers 2 and 3 are at epoch 4.
abbrev lagging : ShardState
lagging = record { shard_index = 1; shard_bytes = master; epoch = 3 }

abbrev signature : Bytes
signature = master ++ dprf_message app []

abbrev answers : List Reply
answers =
    Reply.failed
    ∷ Reply.answered 2 signature 4
    ∷ Reply.answered 2 signature 4
    ∷ Reply.answered 4 [] 4
    ∷ Reply.answered 3 signature 4
    ∷ []

abbrev trace_of_peers : DeriveTrace
trace_of_peers = record { coordinator = 1; epoch = 4; servers = 2 ∷ 3 ∷ [] }

-- The duplicate and the malformed answer do not count; the coordinator is not among the servers.
derived_by_peers :
    collect_and_dprf toy (some lagging) 2 (some master) (some []) app [] answers
    ≡ ok (signature, trace_of_peers)
unfolding collect_and_dprf lookup insert sort dprf_message be_bytes
derived_by_peers = refl

not_initialized :
    collect_and_dprf toy none 2 (some master) (some []) app [] answers ≡ err KmsError.config_error
unfolding collect_and_dprf
not_initialized = refl

collect_and_dprf-verified_example :
    ((sigma : Bytes) × (pk : Bytes) × (some master ≡ some pk)
      × (beq_bytes sigma (pk ++ dprf_message app []) ≡ true)
      × (signature ≡ sigma))
    × (trace_of_peers.coordinator ≡ lagging.shard_index)
    × IsAscending trace_of_peers.servers
    × (2 ≤ length trace_of_peers.servers)
collect_and_dprf-verified_example =
    collect_and_dprf-verified toy lagging 2 (some master) (some []) app [] answers signature
      trace_of_peers derived_by_peers

toy_unique :
    (s s' pk m : Bytes) → beq_bytes s (pk ++ m) ≡ true → beq_bytes s' (pk ++ m) ≡ true → s ≡ s'
toy_unique s s' pk m h h' =
    (beq_bytes_iff s (pk ++ m)).0 h ∙ sym ((beq_bytes_iff s' (pk ++ m)).0 h')

-- A node at the epoch of its peers.
abbrev current : ShardState
current = record lagging { epoch = 4 }

abbrev own_trace : DeriveTrace
own_trace = record { coordinator = 1; epoch = 4; servers = 1 ∷ 2 ∷ [] }

derived :
    collect_and_dprf toy (some current) 2 (some master) (some []) app [] answers
    ≡ ok (signature, own_trace)
unfolding collect_and_dprf lookup insert sort dprf_message be_bytes
derived = refl

one_scheme : (ps : List Bytes) (s : Bytes) → All (λ p. ◌≡◌ {A = ℕ} 0 0) ps
one_scheme [] s = tt
one_scheme (p ∷ ps) s = (refl, one_scheme ps s)

collect_and_dprf-deterministic_example : signature ≡ signature
collect_and_dprf-deterministic_example =
    collect_and_dprf-deterministic toy ℕ (λ p. 0) (λ s. 0) 0 (λ share msg p h. refl)
      (λ ps s h. one_scheme ps s) (λ s s' pk msg e h h'. toy_unique s s' pk msg h h') current
      current 2 2 master (some []) (some []) app [] answers answers signature signature own_trace
      own_trace derived derived refl refl

collect_and_dprf-servers_example : serves parse_one 1 3 answers 4 2 ≡ true
collect_and_dprf-servers_example =
    collect_and_dprf-servers toy lagging 2 (some master) (some []) app [] answers signature
      trace_of_peers 2 derived_by_peers refl
