-- ===== src/Serialization/Model.antt =====
-- serialization/model.py: the limits, the input protocol and the output values. Python values of a
-- type that is checked at run time are a data type; text is its code points and bytes are numbers.
use kafka_fdb_streamline.Common.{ℕ, ◌-◌, ◌^◌, Bool, Option, List, ℤ, pos}

pub data MutationType : Type 0 where
  set_value clear_range add bit_and bit_or bit_xor append_if_fits max min : MutationType
  set_versionstamped_key set_versionstamped_value byte_min byte_max : MutationType
  min_v2 and_v2 compare_and_clear : MutationType

abbrev pub code : MutationType → ℕ
code MutationType.set_value = 0
code MutationType.clear_range = 1
code MutationType.add = 2
code MutationType.bit_and = 6
code MutationType.bit_or = 7
code MutationType.bit_xor = 8
code MutationType.append_if_fits = 9
code MutationType.max = 12
code MutationType.min = 13
code MutationType.set_versionstamped_key = 14
code MutationType.set_versionstamped_value = 15
code MutationType.byte_min = 16
code MutationType.byte_max = 17
code MutationType.min_v2 = 18
code MutationType.and_v2 = 19
code MutationType.compare_and_clear = 20

abbrev pub max_type_code : ℕ
max_type_code = 255

abbrev pub max_version : ℕ
max_version = 2 ^ 63 - 1

abbrev pub max_sequence_no : ℕ
max_sequence_no = 2 ^ 32 - 1

abbrev pub max_total_mutations : ℕ
max_total_mutations = 2 ^ 32 - 1

abbrev pub max_bridge_timestamp_ns : ℕ
max_bridge_timestamp_ns = 253402300799999999999

abbrev pub Text : Type 0
Text = List ℕ

abbrev pub Bytes : Type 0
Bytes = List ℕ

-- A Python value as the checks tell values apart. `subclass z` is an instance of a strict subclass of
-- int other than bool, such as an IntEnum member.
pub data Value : Type 0 where
  int subclass : ℤ → Value
  bool : Bool → Value
  str : Text → Value
  bytes : Bytes → Value
  other : Value

-- A native mutation by its attributes; `none` is an attribute that the object does not have.
pub record NativeMutation : Type 0 where
  pub type : Option Value
  pub param1 : Option Value
  pub param2 : Option Value

-- A checked native mutation, the tuple (type, param1, param2).
pub record Native : Type 0 where
  pub type_code : ℕ
  pub param1 : Bytes
  pub param2 : Bytes

pub record VersionIndex : Type 0 where
  pub fdb_version : ℕ
  pub sequence_no : ℕ

pub record Mutation : Type 0 where
  pub type : ℕ
  pub param1 : Bytes
  pub param2 : Bytes
  pub version_index : VersionIndex

pub record VersionEnd : Type 0 where
  pub fdb_version : ℕ
  pub total_mutations : ℕ
  pub bridge_timestamp_ns : Option ℤ

-- `batch` is MutationBatch, the tuple of its mutations.
pub data RecordBody : Type 0 where
  mutation : Mutation → RecordBody
  batch : List Mutation → RecordBody
  version_end : VersionEnd → RecordBody

pub record Record : Type 0 where
  pub stream_name : Text
  pub bridge_timestamp_ns : Option ℤ
  pub body : RecordBody

-- `Mutation` satisfies the protocol `NativeMutation`.
abbrev pub as_native : Mutation → NativeMutation
as_native m = record {
  type = Option.some (Value.int (pos m.type));
  param1 = Option.some (Value.bytes m.param1);
  param2 = Option.some (Value.bytes m.param2);
}
