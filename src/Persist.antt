-- ===== src/Persist.antt =====
-- A share that is stored, sealed and written to the durable path (src/init.rs, `store_share`;
-- src/seal.rs, `write_blob_file`; src/metrics.rs, `baseline_path`). A disk is what each path reads as.
-- What becomes of a write is an argument, as is the time since the start.
pub mod Files
pub mod Reload
pub mod Refines
mod Tests
use g_kms.Prelude.{
  ℕ, Bool, true, false, ◌=?◌, if◌then◌else◌, List, [], ◌∷◌, ◌++◌, Option, none, some, bytes_eq,
  Bytes, Result, ok, err, codes, is_empty, trim,
}
use g_kms.State.{AppState, ShardState}
use g_kms.Seal.{Codec, FileRead, SealError, Surroundings, new_record, seal_b64, sealed_share_path}
use g_kms.Metrics.{Verdict, check_master_baseline}
use g_kms.Metrics.Registry.{Metrics, minus_one}
use g_kms.Metrics.Counters.{inc, note_share_acquired}
use g_kms.Crypto.{CryptoError}

abbrev pub Files : Type 0
Files = Bytes → FileRead

-- What becomes of a write to a temporary file and its renaming: the write fails and leaves something,
-- the renaming fails, or both are done.
pub data Write : Type 0 where
  not_written : FileRead → Write
  not_renamed : Write
  done : Write

abbrev pub put : Bytes → FileRead → Files → Files
put path file files p = if p =? path then file else files p

abbrev pub temporary : Bytes → Bytes
temporary path = path ++ codes ".tmp"

-- `write_blob_file`: whether it succeeds, and the disk.
unfoldable pub write_blob_file : Write → Bytes → Bytes → Files → Bool × Files
write_blob_file (Write.not_written left) path b64 files = (false, put (temporary path) left files)
write_blob_file Write.not_renamed path b64 files =
    (false, put (temporary path) (FileRead.contents b64) files)
write_blob_file Write.done path b64 files =
    (true, put path (FileRead.contents b64) (put (temporary path) FileRead.absent files))

-- A node with its counters and its disk.
pub record Node : Type 0 where
  pub state : AppState
  pub metrics : Metrics
  pub files : Files

abbrev pub count_persist_fail : Node → Node
count_persist_fail n = record n {
  metrics = record n.metrics { sealed_persist_fail = inc n.metrics.sealed_persist_fail };
}

-- The numbers of a verdict in the metrics.
abbrev pub verdict_number : Verdict → ℕ
verdict_number Verdict.matches = 1
verdict_number Verdict.mismatch = 0
verdict_number Verdict.unknown = minus_one

-- The file can be read and records nothing, so that the baseline is written.
abbrev pub is_unrecorded : FileRead → Bool
is_unrecorded (FileRead.contents text) = is_empty (trim text)
is_unrecorded FileRead.absent = true
is_unrecorded FileRead.unreadable = false

-- What the node stores with: the libraries, its public key, its surroundings, where the baseline
-- stands beside a path (`Path::with_file_name`), the hex text of a key, what becomes of a write to a
-- path, and the seconds since the start.
pub record Store : Type 0 where
  pub codec : Codec
  pub own_pubkey : Result CryptoError Bytes
  pub around : Surroundings
  pub with_file_name : Bytes → Bytes → Bytes
  pub hex_encode : Bytes → Bytes
  pub writes : Bytes → Write
  pub elapsed : ℕ

module _ (w : Store) where
  abbrev pub baseline_path : Bytes → Bytes
  baseline_path path = w.with_file_name path (codes "master.baseline")

  -- The sealed blob to the durable path, if there is one.
  abbrev pub written_to : Option Bytes → Bytes → Node → Node
  written_to none b64 n = n
  written_to (some path) b64 n =
      let (written, files) = write_blob_file (w.writes path) path b64 n.files in
      let n' = record n { files = files } in if written then n' else count_persist_fail n'

  abbrev pub emitted : Result SealError Bytes → Node → Node
  emitted (err e) n = count_persist_fail n
  emitted (ok b64) n =
      written_to (sealed_share_path w.around n.state) b64
        (record n { state = record n.state { sealed_share = some b64 } })

  abbrev pub sealed_with : Result CryptoError Bytes → ShardState → Bytes → Node → Node
  sealed_with (err e) shard group_pubkey n = count_persist_fail n
  sealed_with (ok pk) shard group_pubkey n =
      emitted
        (seal_b64 w.codec pk
          (new_record shard.shard_index shard.epoch group_pubkey shard.shard_bytes))
        n

  -- `check_master_baseline`, with the gauge that it sets and the disk.
  abbrev pub checked_at : Option Bytes → Bytes → Node → Node
  checked_at none live n = n
  checked_at (some path) live n =
      let file = baseline_path path in
      let (written, files) = write_blob_file (w.writes file) file live n.files in
      record n {
        metrics = record n.metrics {
          master_matches_baseline =
              verdict_number (check_master_baseline live written (n.files file)).0;
        };
        files = if is_unrecorded (n.files file) then files else n.files;
      }

  -- `store_share`.
  unfoldable pub store_share : ShardState → Bytes → Node → Node
  unfolding write_blob_file seal_b64 note_share_acquired check_master_baseline
  store_share shard group_pubkey n =
      let n1 = sealed_with w.own_pubkey shard group_pubkey n in
      let n2 = checked_at (sealed_share_path w.around n1.state) (w.hex_encode group_pubkey) n1 in
      record {
        state = record n2.state { group_pubkey = some group_pubkey; shard = some shard };
        metrics = record n2.metrics {
          last_recovery_seconds = note_share_acquired w.elapsed n2.metrics.last_recovery_seconds;
        };
        files = n2.files;
      }
