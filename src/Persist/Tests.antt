-- ===== src/Persist/Tests.antt =====
-- A share stored on a disk and read back over toy libraries: a payload is its own ciphertext, base64
-- adds 33 to every byte, and a record is its fields, each list after its length.
use g_kms.Prelude.{
  ◌+◌, ◌-◌, ◌<◌, ◌≡◌, refl, sym, ap, ◌∙◌, true, [], ◌∷◌, ◌++◌, ok, map, length, take, drop, none,
  some, Option, Bytes, codes, trim, trim_start, All, arith, subst,
}
use g_kms.State.{ShardState, Config, new_state, known_epoch}
use g_kms.Seal.{
  Codec, SealedShareV1, seal_b64, blob_source, Surroundings, FileRead, try_reload_sealed,
}
use g_kms.Seal.Restart.{IsCodec}
use g_kms.Reshare
use g_kms.Metrics.Registry.{new_metrics}
use g_kms.Metrics.Counters.{inc}
use g_kms.Persist.{Write, Node, Store, store_share}
use g_kms.Persist.Reload.{store_share-try_reload_sealed}
use g_kms.Persist.Refines.{sealed_text, store_share-refines}
use mathlib.Core.List.{reverse, reverse_aux}

abbrev to_fields : SealedShareV1 → Bytes
to_fields r =
    r.record_version ∷ r.shard_index ∷ r.epoch ∷ length r.master_id ∷ (r.master_id ++ r.share)

abbrev from_fields : Bytes → Option SealedShareV1
from_fields (v ∷ i ∷ e ∷ n ∷ rest) = some (record {
  record_version = v;
  shard_index = i;
  epoch = e;
  master_id = take n rest;
  share = drop n rest;
})
from_fields (v ∷ i ∷ e ∷ []) = none
from_fields (v ∷ i ∷ []) = none
from_fields (v ∷ []) = none
from_fields [] = none

abbrev toy : Codec
toy = record {
  to_bare = λ r. some (to_fields r);
  from_bare = from_fields;
  encrypt = λ k p. some p;
  decrypt = λ k p. some p;
  encode = map (λ b. b + 33);
  decode = λ t. some (map (λ b. b - 33) t);
}

take-append : (xs ys : Bytes) → take (length xs) (xs ++ ys) ≡ xs
take-append [] ys = refl
take-append (x ∷ xs) ys = ap (λ t. x ∷ t) (take-append xs ys)

drop-append : (xs ys : Bytes) → drop (length xs) (xs ++ ys) ≡ ys
drop-append [] ys = refl
drop-append (x ∷ xs) ys = drop-append xs ys

decode-encode : (b : Bytes) → map (λ b. b - 33) (map (λ b. b + 33) b) ≡ b
decode-encode [] = refl
decode-encode (x ∷ b) =
    let e : x + 33 - 33 ≡ x = omega arith in rw e (ap (λ t. x ∷ t) (decode-encode b))

-- A text whose bytes are all above the blanks is its own trimming.
trim_start_dark : (t : Bytes) → All (λ b. 32 < b) t → trim_start t ≡ t
unfolding trim_start
trim_start_dark [] h = refl
trim_start_dark (x ∷ t) h = ground arith

All-reverse_aux :
    (xs r : Bytes)
    → All (λ b. 32 < b) xs
    → All (λ b. 32 < b) r
    → All (λ b. 32 < b) (reverse_aux xs r)
All-reverse_aux [] r h k = k
All-reverse_aux (x ∷ xs) r h k = All-reverse_aux xs (x ∷ r) h.1 (h.0, k)

reverse_aux-reverse_aux :
    (xs r s : Bytes) → reverse_aux (reverse_aux xs r) s ≡ reverse_aux r (xs ++ s)
reverse_aux-reverse_aux [] r s = refl
reverse_aux-reverse_aux (x ∷ xs) r s = reverse_aux-reverse_aux xs (x ∷ r) s

append-nil : (xs : Bytes) → xs ++ [] ≡ xs
append-nil [] = refl
append-nil (x ∷ xs) = ap (λ t. x ∷ t) (append-nil xs)

trim_dark : (t : Bytes) → All (λ b. 32 < b) t → trim t ≡ t
unfolding trim
trim_dark t h = rw (trim_start_dark t h) (
    rw (trim_start_dark (reverse t) (All-reverse_aux t [] h tt))
      (reverse_aux-reverse_aux t [] [] ∙ append-nil t))

encode_dark : (b : Bytes) → All (λ b. 32 < b) (map (λ b. b + 33) b)
encode_dark [] = tt
encode_dark (x ∷ b) = (omega arith, encode_dark b)

from_fields-to_fields : (r : SealedShareV1) → from_fields (to_fields r) ≡ some r
from_fields-to_fields r = rw take-append (rw drop-append refl)

read_back :
    (r : SealedShareV1) (p : Bytes)
    → ◌≡◌ {A = Option Bytes} (some (to_fields r)) (some p)
    → from_fields p ≡ some r
read_back r p h =
    let e : to_fields r ≡ p = ground arith in
    subst (λ q. from_fields q ≡ some r) e (from_fields-to_fields r)

toy-IsCodec : IsCodec toy (codes "pub") (codes "priv")
toy-IsCodec = record {
  bare = read_back;
  ecies = λ p ct h. sym h;
  base64 = λ b. ap (λ t. some t) (decode-encode b);
  no_blanks = λ b. trim_dark (map (λ b. b + 33) b) (encode_dark b);
  empty_text = refl;
}

abbrev shard : ShardState
shard = record { shard_index = 2; shard_bytes = 7 ∷ 8 ∷ []; epoch = 4 }

abbrev blob : Bytes
blob =
    map (λ b. b + 33) (b'K' ∷ b'M' ∷ b'S' ∷ b'S' ∷ 1 ∷ 1 ∷ 2 ∷ 4 ∷ 3 ∷ (codes "gpk" ++ 7 ∷ 8 ∷ []))

abbrev path : Bytes
path = codes "/d/s"

abbrev config : Config
config = record {
  threshold = 1;
  total_nodes = 2;
  self_url = codes "a:1";
  seeds = [];
  sealed_share = none;
  sealed_share_path = some path;
  timestamp_tolerance_secs = 300;
  app_id = codes "kms";
}

abbrev empty_disk : Surroundings
empty_disk = record { env_share = none; env_path = none; files = λ p. FileRead.absent }

abbrev store : (Bytes → Write) → Store
store writes = record {
  codec = toy;
  own_pubkey = ok (codes "pub");
  around = empty_disk;
  with_file_name = λ p name. codes "/d/" ++ name;
  hex_encode = λ b. b;
  writes = writes;
  elapsed = 30;
}

abbrev node : Node
node = record { state = new_state config 10; metrics = new_metrics; files = λ p. FileRead.absent }

abbrev stored : Node
stored = store_share (store (λ p. Write.done)) shard (codes "gpk") node

-- The same node, started again on the disk that storing has left.
store_share-try_reload_sealed_example :
    let after =
      try_reload_sealed toy
        (codes "priv")
        (record empty_disk { files = stored.files })
        (λ s. s)
        node.state in
    (after.0 ≡ true)
    × (after.1.shard ≡ stored.state.shard)
    × (after.1.group_pubkey ≡ stored.state.group_pubkey)
unfolding seal_b64 new_state blob_source trim known_epoch
store_share-try_reload_sealed_example =
    store_share-try_reload_sealed (store (λ p. Write.done)) (codes "pub") (codes "priv") path shard
      (codes "gpk") blob node (record empty_disk { files = stored.files }) (λ s. s) node.state
      toy-IsCodec refl refl refl refl refl refl refl refl refl (omega arith)

-- A disk that is full: the share is held, and counted as not persisted.
store_share-refines_example :
    let after = store_share (store (λ p. Write.not_renamed)) shard (codes "gpk") node in
    (after.state
      ≡ Reshare.store_share
          (sealed_text (store (λ p. Write.not_renamed)))
          shard
          (codes "gpk")
          node.state)
    × (after.metrics.sealed_persist_fail ≡ inc node.metrics.sealed_persist_fail)
unfolding seal_b64 new_state blob_source trim
store_share-refines_example =
    store_share-refines (store (λ p. Write.not_renamed)) shard (codes "gpk") node
