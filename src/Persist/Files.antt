-- ===== src/Persist/Files.antt =====
-- What a crash or a failure can leave of a blob file (src/seal.rs, `write_blob_file`).
use g_kms.Prelude.{
  ◌≡◌, refl, ap, false, Bool-cases, inl, inr, if◌then◌else◌, length, length-append, Bytes, bytes_eq,
  beq_bytes, beq_bytes_iff, codes, arith,
}
use g_kms.Seal.{FileRead}
use g_kms.Persist.{Files, Write, temporary, write_blob_file}

pub temporary_differs : (path : Bytes) → beq_bytes path (temporary path) ≡ false
temporary_differs path = elim (Bool-cases (beq_bytes path (temporary path))) [
  | inr other ↦ other
  | inl same ↦
      let e = ap length ((beq_bytes_iff path (temporary path)).0 same) in
      absurd (omega (arith, e, length-append path (codes ".tmp")))
]

-- A blob file is replaced as a whole or not at all: after a write, whatever fails in it, the path reads
-- as the new text if it has succeeded and as it did before if not, and every path but this one and the
-- temporary one beside it reads as before.
pub write_blob_file-whole :
    (w : Write) (path b64 : Bytes) (files : Files) (other : Bytes)
    → beq_bytes other path ≡ false
    → beq_bytes other (temporary path) ≡ false
    → let (written, after) = write_blob_file w path b64 files in
      (after path ≡ (if written then FileRead.contents b64 else files path))
      × (after other ≡ files other)
unfolding write_blob_file
write_blob_file-whole (Write.not_written left) path b64 files other h t =
    (rw (temporary_differs path) refl, rw t refl)
write_blob_file-whole Write.not_renamed path b64 files other h t =
    (rw (temporary_differs path) refl, rw t refl)
write_blob_file-whole Write.done path b64 files other h t =
    (rw ((beq_bytes_iff path path).1 refl) refl, rw h (rw t refl))
