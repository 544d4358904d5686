-- ===== src/Serialization/Checks.antt =====
-- serialization/_checks.py. Each check gives back the value that it has checked; the texts of the
-- messages (`at`, `_rendered`) are left out.
use kafka_fdb_streamline.Common.{
  ℕ, ◌+◌, Bool, true, false, ◌&&◌, ◌||◌, Option, none, some, List, [], ◌∷◌, ltb, if◌then◌else◌,
  is_empty, ℤ, pos, ltb_ℤ, pos_part,
}
use kafka_fdb_streamline.Errors.{Field, input_type, input_value}
use kafka_fdb_streamline.Serialization.Checked.{Checked, valid, invalid, ◌>>=◌, ◌>>◌}
use kafka_fdb_streamline.Serialization.Model.{
  Text, Bytes, Value, NativeMutation, Native, max_type_code, max_version, max_sequence_no,
  max_total_mutations, max_bridge_timestamp_ns,
}

exceeds : ℤ → Option ℕ → Bool
exceeds value none = false
exceeds value (some maximum) = ltb_ℤ (pos maximum) value

-- `_integer`: an exact int within the bounds; `minimum` is never negative.
unfoldable pub integer : Value → Field → Option ℕ → ℕ → Option ℕ → Checked ℕ
unfolding exceeds
integer (Value.int value) field maximum minimum index =
    if ltb_ℤ value (pos minimum) || exceeds value maximum
    then invalid (input_value field index)
    else valid (pos_part value)
integer (Value.subclass value) field maximum minimum index = invalid (input_type field index)
integer (Value.bool value) field maximum minimum index = invalid (input_type field index)
integer (Value.str value) field maximum minimum index = invalid (input_type field index)
integer (Value.bytes value) field maximum minimum index = invalid (input_type field index)
integer Value.other field maximum minimum index = invalid (input_type field index)

unfoldable pub fdb_version : Value → Checked ℕ
unfolding integer
fdb_version value = integer value Field.fdb_version (some max_version) 0 none

unfoldable pub sequence_no : Value → Field → Checked ℕ
unfolding integer
sequence_no value field = integer value field (some max_sequence_no) 0 none

unfoldable pub assigned_sequence_no : ℕ → ℕ → Checked ℕ
unfolding integer
assigned_sequence_no value index =
    integer (Value.int (pos value)) Field.sequence_no (some max_sequence_no) 0 (some index)

unfoldable pub total_mutations : Value → Checked ℕ
unfolding integer
total_mutations value = integer value Field.total_mutations (some max_total_mutations) 0 none

unfoldable pub max_record_bytes : Value → Checked ℕ
unfolding integer
max_record_bytes value = integer value Field.max_record_bytes none 1 none

-- `str.encode("utf-8")` raises on a surrogate code point, and on nothing else.
unfoldable pub encodes_as_utf8 : Text → Bool
encodes_as_utf8 [] = true
encodes_as_utf8 (c ∷ text) = (ltb c 0xD800 || ltb 0xDFFF c) && encodes_as_utf8 text

unfoldable pub stream_name : Value → Checked Text
unfolding encodes_as_utf8
stream_name (Value.str value) =
    if is_empty value
    then invalid (input_value Field.stream_name none)
    else if encodes_as_utf8 value
    then valid value
    else invalid (input_value Field.stream_name none)
stream_name _ = invalid (input_type Field.stream_name none)

unfoldable pub bridge_timestamp_ns : Value → Checked ℕ
unfolding integer
bridge_timestamp_ns value =
    integer value Field.bridge_timestamp_ns (some max_bridge_timestamp_ns) 0 none

unfoldable pub envelope : Value → Value → Checked (Text × ℕ)
unfolding stream_name bridge_timestamp_ns
envelope name timestamp_ns = do
  checked_name ← stream_name name
  checked_timestamp ← bridge_timestamp_ns timestamp_ns
  valid (checked_name, checked_timestamp)

-- An iterable is the list of what it yields; `none` is a value that `iter` refuses.
unfoldable pub mutations : Option (List NativeMutation) → Checked (List NativeMutation)
mutations none = invalid (input_type Field.mutations none)
mutations (some elements) = valid elements

unfoldable pub param : Value → Field → Option ℕ → Checked Bytes
param (Value.bytes value) field index = valid value
param _ field index = invalid (input_type field index)

type_code_in_range : ℤ → Option ℕ → Checked ℕ
type_code_in_range code index =
    if ltb_ℤ code (pos 0) || ltb_ℤ (pos max_type_code) code
    then invalid (input_value Field.type index)
    else valid (pos_part code)

unfoldable pub type_code : Value → Option ℕ → Checked ℕ
unfolding type_code_in_range
type_code (Value.int value) index = type_code_in_range value index
type_code (Value.subclass value) index = type_code_in_range value index
type_code _ index = invalid (input_type Field.type index)

-- `_attribute`
unfoldable pub attribute : Option Value → Field → Option ℕ → Checked Value
attribute none field index = invalid (input_type field index)
attribute (some value) field index = valid value

unfoldable pub native : NativeMutation → Option ℕ → Checked Native
unfolding type_code attribute param
native mutation index = do
  raw_type ← attribute mutation.type Field.type index
  checked_code ← type_code raw_type index
  raw1 ← attribute mutation.param1 Field.param1 index
  checked1 ← param raw1 Field.param1 index
  raw2 ← attribute mutation.param2 Field.param2 index
  checked2 ← param raw2 Field.param2 index
  valid (record { type_code = checked_code; param1 = checked1; param2 = checked2 })

-- The loop of `natives`, from position `index` on.
unfoldable pub natives_from : List NativeMutation → ℕ → ℕ → Checked (List Native)
natives_from [] first_sequence_no index = valid []
natives_from (mutation ∷ rest) first_sequence_no index = do
  assigned_sequence_no (first_sequence_no + index) index
  checked ← native mutation (some index)
  others ← natives_from rest first_sequence_no (index + 1)
  valid (checked ∷ others)

unfoldable pub natives : Option (List NativeMutation) → ℕ → Checked (List Native)
unfolding mutations
natives value first_sequence_no = do
  elements ← mutations value
  natives_from elements first_sequence_no 0
