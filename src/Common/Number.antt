-- ===== src/Common/Number.antt =====
-- Python's ints and floats, as far as the checks of the settings tell them apart.
use Prim.Native.Nat.{ℕ, zero, suc, ◌-◌, ◌*◌, ◌/◌, ◌%◌, ◌^◌}
use mathlib.Core.Bool.{Bool, false, ◌&&◌, ◌||◌}
use mathlib.Core.Option.{Option, none, some}
use kafka_fdb_streamline.Common.Tests.{ltb, leb, ◌==◌, if◌then◌else◌}
use kafka_fdb_streamline.Common.Int.{ℤ, pos, negsuc, leb_ℤ, ltb_ℤ}

-- A float: the finite value mantissa * 2 ^ exponent, an infinity by its sign, or no number.
pub data Float : Type 0 where
  finite : ℤ → ℤ → Float
  infinite : Bool → Float
  nan : Float

-- An int or a float.
pub data Number : Type 0 where
  whole : ℤ → Number
  float : Float → Number

-- `number <= 0`, which is false of no number.
unfoldable pub not_positive : Number → Bool
not_positive (whole z) = leb_ℤ z (pos 0)
not_positive (float (finite mantissa exponent)) = leb_ℤ mantissa (pos 0)
not_positive (float (infinite negative)) = negative
not_positive (float nan) = false

-- `number < 0`, which is false of no number.
unfoldable pub is_negative : Number → Bool
is_negative (whole z) = ltb_ℤ z (pos 0)
is_negative (float (finite mantissa exponent)) = ltb_ℤ mantissa (pos 0)
is_negative (float (infinite negative)) = negative
is_negative (float nan) = false

-- The leading 53 bits of an int, and how many bits follow them. An int with more than 1077 bits is no
-- float in any case.
unfoldable pub leading : ℕ → ℕ → ℕ
leading zero n = n
leading (suc fuel) n = let rest = leading fuel (n / 2) in if ltb n (2 ^ 53) then n else rest

unfoldable pub halvings : ℕ → ℕ → ℕ
halvings zero n = 0
halvings (suc fuel) n = let rest = halvings fuel (n / 2) in if ltb n (2 ^ 53) then 0 else suc rest

-- The float next to n = q * 2 ^ s + r, of two such the one with the even mantissa; `none` where it is too
-- large.
unfoldable pub rounded : ℕ → ℕ → ℕ → Option (ℕ × ℕ)
rounded n q s =
    let r = n - q * 2 ^ s in
    let up = ltb (2 ^ s) (2 * r) || (2 * r == 2 ^ s && q % 2 == 1) in
    let m = if up then suc q else q in if leb (2 ^ 1024) (m * 2 ^ s) then none else some (m, s)

unfoldable pub nearest : ℕ → Option (ℕ × ℕ)
nearest n = rounded n (leading 1024 n) (halvings 1024 n)

abbrev pub signed : (ℕ → ℤ) → Option (ℕ × ℕ) → Option Float
signed sign none = none
signed sign (some (m, s)) = some (finite (sign m) (pos s))

abbrev pub minus : ℕ → ℤ
minus zero = pos 0
minus (suc m) = negsuc m

-- `float(...)`; `none` is an OverflowError.
unfoldable pub to_float : Number → Option Float
to_float (float f) = some f
to_float (whole (pos n)) = signed pos (nearest n)
to_float (whole (negsuc n)) = signed minus (nearest (suc n))
