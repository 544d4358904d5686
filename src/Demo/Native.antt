-- ===== src/Demo/Native.antt =====
-- The rewrites of FoundationDB that demo/workload.py relies on, as assumptions on what native CDC emits for the
-- writes of demo/run_demo.py.
pub mod Matches
pub mod Digits
pub mod Expected
use kafka_fdb_streamline.Common.{ℕ, ◌+◌, ◌*◌, List, [], ◌∷◌, ◌++◌, length, ◌≡◌, pos}
use kafka_fdb_streamline.Serialization.Model.{Bytes}
use kafka_fdb_streamline.Serialization.Message.{MutationArm}
use kafka_fdb_streamline.Demo.Writer.{Atomic, Write}

-- The number that bytes spell, the least significant first.
unfoldable pub read_little_endian : Bytes → ℕ
read_little_endian [] = 0
read_little_endian (b ∷ bytes) = b + 256 * read_little_endian bytes

-- The mutation type of an atomic operation, AND and MIN in their second version.
abbrev pub native_type : Atomic → ℕ
native_type Atomic.add = 2
native_type Atomic.bit_and = 19
native_type Atomic.bit_or = 7
native_type Atomic.bit_xor = 8
native_type Atomic.append_if_fits = 9
native_type Atomic.max = 12
native_type Atomic.min = 18
native_type Atomic.byte_min = 16
native_type Atomic.byte_max = 17

-- What is emitted for the write of an index. A versionstamped parameter ends in ten bytes for the stamp and four
-- for the offset of these; it arrives in a SET_VALUE, with some stamp and without the offset.
pub record IsNative (emit : ℕ → Write → MutationArm) : Type 0 where
  pub sets :
      (i : ℕ) (key value : Bytes)
      → emit i (Write.set key value) ≡ MutationArm.single_key_mutation key value (pos 0)
  pub clears : (i : ℕ) (b e : Bytes) → emit i (Write.clear_range b e) ≡ MutationArm.clear_range b e
  pub keeps_atomic :
      (i : ℕ) (op : Atomic) (key operand : Bytes)
      → emit i (Write.atomic op key operand)
        ≡ MutationArm.single_key_mutation key operand (pos (native_type op))
  pub stamps_key :
      (i : ℕ) (text placeholder offset value : Bytes)
      → length placeholder ≡ 10
      → length offset ≡ 4
      → read_little_endian offset ≡ length text
      → (stamp : Bytes) × (length stamp ≡ 10)
        × (emit i (Write.set_versionstamped_key ((text ++ placeholder) ++ offset) value)
            ≡ MutationArm.single_key_mutation (text ++ stamp) value (pos 0))
  pub stamps_value :
      (i : ℕ) (key text placeholder offset : Bytes)
      → length placeholder ≡ 10
      → length offset ≡ 4
      → read_little_endian offset ≡ length text
      → (stamp : Bytes) × (length stamp ≡ 10)
        × (emit i (Write.set_versionstamped_value key ((text ++ placeholder) ++ offset))
            ≡ MutationArm.single_key_mutation key (text ++ stamp) (pos 0))
