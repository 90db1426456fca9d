-- ===== src/Lib.antt =====
-- A key management cluster (0g-kms): nodes hold threshold shares of one BLS master key, derive
-- application keys together, and recover or refresh their shares among themselves.
--
-- A request for a key is authorised against the on-chain node list (Chain: src/chain.rs) and an
-- attestation verdict (Verifier: src/verifier.rs), as is every member that calls or answers (Auth:
-- src/auth.rs), and then derived from the partial signatures of enough peers (Derive:
-- `collect_and_dprf` in src/grpc.rs) over an unambiguous message (Wire: the messages of
-- src/crypto.rs). Crypto has the rest of src/crypto.rs and the key recovery of src/auth.rs: it fills
-- the interfaces that Derive, Auth, Service and Dkg take, over libraries that are parameters with
-- laws. The nodes know each other by gossip (Gossip: src/grpc.rs) in the shared state (State:
-- src/server.rs, src/config.rs). From the node list and the peer table the participants of a session are assembled
-- (Membership: src/init.rs), and a recovery, a reshare or a refresh stores a new share (Reshare:
-- src/init.rs) that a session of the DKG library gives it: Dkg has the driver of such a session,
-- the barrier of its rounds and the buffer of round messages (src/dkg.rs), and in Dkg.Parts the
-- participants that a genesis, a recovery and a dealer make for it (src/init.rs). At boot and after, a
-- node reloads its sealed share (Seal: src/seal.rs, src/init.rs), creates the master with all
-- others, recovers, or catches up (Formation: src/init.rs). Service has the gRPC handlers that
-- serve partials and shares and take round messages (src/grpc.rs, src/init.rs); Calls has the
-- clients of the other calls, up to the handlers that they reach (src/grpc.rs). Persist has what a
-- node does to its disk and counters when it stores a share (src/init.rs, src/seal.rs). Http has the
-- handlers of the HTTP endpoints (src/server.rs). Metrics has the cluster view, the master's
-- baseline, the registry of the counters and the text that a scraper gets (src/metrics.rs). Errors
-- is src/error.rs; Startup has the signing key and the start of a node (src/tee.rs, src/main.rs); I64 has the machine arithmetic of
-- the timestamp checks; Time has the units of the monotonic clock. Prelude has what the modules
-- share.
--
-- Each source function is a definition of the same name, and the parts of a long one are helpers
-- with names of their own. What a function awaits is an argument: the outcome of a fetch, an RPC or
-- a DKG session, the instants that the clock shows, and, where a lock is released or not yet taken,
-- what the other tasks do to the shared state meanwhile, as a function on that state. Strings are
-- their bytes, addresses are numbers, hash maps are association lists without order. A 64-bit
-- integer that the code subtracts is its bit pattern and wraps, as do the counters that
-- `inc` moves and the epoch after the highest known one.
--
-- Fuel: the wait for the verifier has `lag_wait / SCAN_LAG_POLL + 1` steps, which is enough because
-- each step takes at least the length of a poll. The wait at the barrier of a round is a list of
-- looks until the deadline, each after what other tasks did. The TEE agent is called at most ten
-- times. All other loops are over lists.
--
-- Not modelled: the cryptographic primitives (BLS, HKDF, ECIES, ECDSA, keccak, the participant of a
-- DKG), the serialisation of messages, HTTP, gRPC and JSON-RPC transport, which are libraries and
-- stand as parameters; logging, sleeps and timeouts, and the servers themselves.
pub mod Prelude
pub mod Errors
pub mod Time
pub mod Chain
pub mod Crypto
pub mod Calls
pub mod Persist
pub mod Verifier
pub mod Wire
pub mod I64
pub mod State
pub mod Derive
pub mod Gossip
pub mod Membership
pub mod Reshare
pub mod Seal
pub mod Service
pub mod Formation
pub mod Metrics
pub mod Auth
pub mod Dkg
pub mod Http
pub mod Startup
