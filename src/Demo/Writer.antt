-- ===== src/Demo/Writer.antt =====
-- demo/run_demo.py, _write_samples and _seed_clear_targets: the transactions that they commit. Their
-- progress reports and times are left out.
pub mod Chunks
pub mod Seeds
use kafka_fdb_streamline.Common.{
  ℕ, zero, suc, ◌+◌, ◌-◌, ◌*◌, ◌/◌, ◌%◌, ◌^◌, List, [], ◌∷◌, ◌++◌, length, take, drop, ltb, ◌==◌,
  if◌then◌else◌, map,
}
use kafka_fdb_streamline.Common.Texts.{codes}
use kafka_fdb_streamline.Serialization.Model.{Bytes}
use kafka_fdb_streamline.Demo.Workload.{eight_digits, in_decimal, little_endian, stamp_bytes}

-- The atomic operations of a transaction.
pub data Atomic : Type 0 where
  add bit_and bit_or bit_xor append_if_fits max min byte_min byte_max : Atomic

-- The writes of a transaction that the demo makes.
pub data Write : Type 0 where
  set : Bytes → Bytes → Write
  clear_range : Bytes → Bytes → Write
  atomic : Atomic → Bytes → Bytes → Write
  set_versionstamped_key set_versionstamped_value : Bytes → Bytes → Write

-- `text + b"\x00" * 10 + struct.pack("<I", len(text))`
unfoldable pub stamped : Bytes → Bytes
stamped text = (text ++ stamp_bytes 10) ++ little_endian 4 (length text)

-- The body of the loop of `_commit_chunk`. `kind` is 13 in the last branch.
unfoldable pub write_of : Bytes → ℕ → Write
write_of prefix index =
    let kind = index % 14 in
    let idx = eight_digits index in
    let le8 = little_endian 8 (index % 2 ^ 32) in
    if kind == 0
    then set (prefix ++ codes "set_" ++ idx) (codes "val-" ++ in_decimal index)
    else if kind == 1
    then clear_range (prefix ++ codes "clr_" ++ idx ++ codes "/a")
        (prefix ++ codes "clr_" ++ idx ++ codes "/z")
    else if kind == 2
    then atomic add (prefix ++ codes "add_" ++ idx) le8
    else if kind == 3
    then atomic bit_and (prefix ++ codes "and_" ++ idx) (0x0F ∷ [])
    else if kind == 4
    then atomic bit_or (prefix ++ codes "or_" ++ idx) (0xF0 ∷ [])
    else if kind == 5
    then atomic bit_xor (prefix ++ codes "xor_" ++ idx) (0xAA ∷ [])
    else if kind == 6
    then atomic append_if_fits (prefix ++ codes "app_" ++ idx) (codes "chunk")
    else if kind == 7
    then atomic max (prefix ++ codes "max_" ++ idx) le8
    else if kind == 8
    then atomic min (prefix ++ codes "min_" ++ idx) le8
    else if kind == 9
    then set_versionstamped_key (stamped (prefix ++ codes "vsk_" ++ idx)) (codes "vsk_payload")
    else if kind == 10
    then set_versionstamped_value (prefix ++ codes "vsv_" ++ idx) (stamped (codes "vsv_" ++ idx))
    else if kind == 11
    then atomic byte_min (prefix ++ codes "bmin_" ++ idx) (0x10 ∷ [])
    else if kind == 12
    then atomic byte_max (prefix ++ codes "bmax_" ++ idx) (0xFE ∷ [])
    else set (prefix ++ codes "set_b_" ++ idx) (codes "val-b-" ++ in_decimal index)

-- `_commit_chunk`: the writes of the transaction from an index on.
unfoldable pub commit_chunk : Bytes → ℕ → ℕ → List Write
commit_chunk prefix index zero = []
commit_chunk prefix index (suc size) = write_of prefix index ∷ commit_chunk prefix (suc index) size

abbrev pub batch_size : ℕ
batch_size = 500

-- `for start_idx in range(0, count, batch_size)`, with the number of rounds.
unfoldable pub commit_chunks : Bytes → ℕ → ℕ → ℕ → List (List Write)
commit_chunks prefix count zero start = []
commit_chunks prefix count (suc rounds) start =
    commit_chunk prefix start (if ltb batch_size (count - start) then batch_size else count - start)
    ∷ commit_chunks prefix count rounds (start + batch_size)

-- `_write_samples`: its transactions, in the order of their commits.
unfoldable pub write_samples : Bytes → ℕ → List (List Write)
write_samples prefix count = commit_chunks prefix count ((count + 499) / batch_size) 0

-- `[index for index in range(count) if index % 14 == 1]`, from an index on.
unfoldable pub clear_indexes : ℕ → ℕ → List ℕ
clear_indexes index zero = []
clear_indexes index (suc count) =
    let rest = clear_indexes (suc index) count in if index % 14 == 1 then index ∷ rest else rest

unfoldable pub seed_of : Bytes → ℕ → Write
seed_of prefix index =
    set (prefix ++ codes "clr_" ++ eight_digits index ++ codes "/m") (codes "seed")

-- `for offset in range(0, len(clear_indexes), 500)`, with the number of rounds.
unfoldable pub seed_chunks : Bytes → List ℕ → ℕ → ℕ → List (List Write)
seed_chunks prefix indexes zero offset = []
seed_chunks prefix indexes (suc rounds) offset =
    map (seed_of prefix) (take 500 (drop offset indexes))
    ∷ seed_chunks prefix indexes rounds (offset + 500)

-- `_seed_clear_targets`: its transactions.
unfoldable pub seed_clear_targets : Bytes → ℕ → List (List Write)
seed_clear_targets prefix count =
    let indexes = clear_indexes 0 count in
    seed_chunks prefix indexes ((length indexes + 499) / 500) 0
