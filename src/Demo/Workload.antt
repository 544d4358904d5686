-- ===== src/Demo/Workload.antt =====
-- demo/workload.py, the expected mutations: ExpectedMutation and expected_mutation.
pub mod Numbers
pub mod Delivery
pub mod Verifier
pub mod Range
pub mod Accepted
pub mod Coordinates
pub mod Complete
pub mod Totals
use kafka_fdb_streamline.Common.{
  ℕ, zero, suc, ◌+◌, ◌-◌, ◌/◌, ◌%◌, ◌^◌, Bool, true, false, ◌&&◌, Option, none, some, List, [], ◌∷◌,
  ◌++◌, length, take, drop, ltb, ◌==◌, if◌then◌else◌, ℤ, pos, eqb_ℤ,
}
use kafka_fdb_streamline.Common.Texts.{codes, text_eq}
use kafka_fdb_streamline.Serialization.Model.{Bytes}

abbrev pub versionstamp_len : ℕ
versionstamp_len = 10

-- The parameter and the offset of a versionstamp.
pub data Stamp : Type 0 where
  in_param1 in_param2 : ℕ → Stamp

pub record ExpectedMutation : Type 0 where
  pub type_code : ℕ
  pub param1 : Bytes
  pub param2 : Bytes
  pub stamp : Option Stamp

-- The same length, and the same bytes before and after the stamp.
unfoldable pub same_outside : ℕ → Bytes → Bytes → Bool
same_outside offset got want =
    length got == length want
    && text_eq (take offset got) (take offset want)
    && text_eq (drop (offset + versionstamp_len) got) (drop (offset + versionstamp_len) want)

unfoldable pub params_match : Option Stamp → Bytes → Bytes → Bytes → Bytes → Bool
params_match none want1 want2 got1 got2 = text_eq got1 want1 && text_eq got2 want2
params_match (some (in_param1 offset)) want1 want2 got1 got2 =
    same_outside offset got1 want1 && text_eq got2 want2
params_match (some (in_param2 offset)) want1 want2 got1 got2 =
    text_eq got1 want1 && same_outside offset got2 want2

unfoldable pub matches : ExpectedMutation → ℤ → Bytes → Bytes → Bool
matches e type_code param1 param2 =
    eqb_ℤ type_code (pos e.type_code) && params_match e.stamp e.param1 e.param2 param1 param2

-- The decimal digits of a number, the fuel being more than there are.
unfoldable pub decimal : ℕ → ℕ → Bytes
decimal zero n = []
decimal (suc fuel) n =
    let above = decimal fuel (n / 10) in (if ltb n 10 then [] else above) ++ (48 + n % 10) ∷ []

-- `b"%d" % n`
unfoldable pub in_decimal : ℕ → Bytes
in_decimal n = decimal (suc n) n

unfoldable pub zeros : ℕ → Bytes
zeros zero = []
zeros (suc n) = 48 ∷ zeros n

-- `f"{index:08d}".encode()`
unfoldable pub eight_digits : ℕ → Bytes
eight_digits index = let digits = in_decimal index in zeros (8 - length digits) ++ digits

-- `n.to_bytes(count, "little")`
unfoldable pub little_endian : ℕ → ℕ → Bytes
little_endian zero n = []
little_endian (suc count) n = n % 256 ∷ little_endian count (n / 256)

unfoldable pub stamp_bytes : ℕ → Bytes
stamp_bytes zero = []
stamp_bytes (suc n) = 0 ∷ stamp_bytes n

unfoldable pub exactly : ℕ → Bytes → Bytes → ExpectedMutation
exactly type_code param1 param2 = record {
  type_code = type_code;
  param1 = param1;
  param2 = param2;
  stamp = none;
}

-- The type code, the tag and the operand of the plain operations, by the index modulo 14; 12 is the last.
unfoldable pub plain_operation : ℕ → Bytes → ℕ × Bytes × Bytes
plain_operation kind le8 =
    if kind == 2
    then (2, codes "add_", le8)
    else if kind == 3
    then (19, codes "and_", 0x0F ∷ [])
    else if kind == 4
    then (7, codes "or_", 0xF0 ∷ [])
    else if kind == 5
    then (8, codes "xor_", 0xAA ∷ [])
    else if kind == 6
    then (9, codes "app_", codes "chunk")
    else if kind == 7
    then (12, codes "max_", le8)
    else if kind == 8
    then (18, codes "min_", le8)
    else if kind == 11
    then (16, codes "bmin_", 0x10 ∷ [])
    else (17, codes "bmax_", 0xFE ∷ [])

-- The three parts of an operation put together.
unfoldable pub plain : Bytes → Bytes → ℕ × Bytes × Bytes → ExpectedMutation
plain prefix idx (type_code, tag, operand) = exactly type_code (prefix ++ tag ++ idx) operand

unfoldable pub expected_mutation : Bytes → ℕ → ExpectedMutation
expected_mutation prefix index =
    let kind = index % 14 in
    let idx = eight_digits index in
    if kind == 0
    then exactly 0 (prefix ++ codes "set_" ++ idx) (codes "val-" ++ in_decimal index)
    else if kind == 1
    then exactly 1 (prefix ++ codes "clr_" ++ idx ++ codes "/a")
        (prefix ++ codes "clr_" ++ idx ++ codes "/z")
    else if kind == 9
    then record {
      type_code = 0;
      param1 = (prefix ++ codes "vsk_" ++ idx) ++ stamp_bytes versionstamp_len;
      param2 = codes "vsk_payload";
      stamp = some (in_param1 (length (prefix ++ codes "vsk_" ++ idx)));
    }
    else if kind == 10
    then record {
      type_code = 0;
      param1 = prefix ++ codes "vsv_" ++ idx;
      param2 = (codes "vsv_" ++ idx) ++ stamp_bytes versionstamp_len;
      stamp = some (in_param2 (length (codes "vsv_" ++ idx)));
    }
    else if kind == 13
    then exactly 0 (prefix ++ codes "set_b_" ++ idx) (codes "val-b-" ++ in_decimal index)
    else plain prefix idx (plain_operation kind (little_endian 8 (index % 2 ^ 32)))
