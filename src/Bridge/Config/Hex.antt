-- ===== src/Bridge/Config/Hex.antt =====
-- `bytes.fromhex`: pairs of hexadecimal digits, with ASCII whitespace between the pairs.
use kafka_fdb_streamline.Common.{
  ℕ, ◌+◌, ◌-◌, ◌*◌, Bool, ◌&&◌, ◌||◌, true, false, Option, none, some, List, [], ◌∷◌, leb, ◌==◌,
  if◌then◌else◌, ◌≡◌, refl, ap, ◌∙◌,
}

unfoldable pub is_ascii_space : ℕ → Bool
is_ascii_space c = (leb 9 c && leb c 13) || c == 32

unfoldable pub hex_digit : ℕ → Option ℕ
hex_digit c =
    if leb 48 c && leb c 57
    then some (c - 48)
    else if leb 65 c && leb c 70
    then some (c - 55)
    else if leb 97 c && leb c 102
    then some (c - 87)
    else none

-- Two digits and the bytes that follow.
pair : Option ℕ → Option ℕ → Option (List ℕ) → Option (List ℕ)
pair (some high) (some low) (some rest) = some ((high * 16 + low) ∷ rest)
pair _ _ _ = none

unfoldable pub from_hex : List ℕ → Option (List ℕ)
unfolding is_ascii_space hex_digit pair
from_hex [] = some []
from_hex (c ∷ []) = if is_ascii_space c then some [] else none
from_hex (c ∷ d ∷ text) = elim (is_ascii_space c) [
  | true ↦ from_hex (d ∷ text)
  | false ↦ pair (hex_digit c) (hex_digit d) (from_hex text)
]

-- Two digits in front of a text that is read.
pub from_hex-cons :
    (c d high low : ℕ) (text bytes : List ℕ)
    → is_ascii_space c ≡ false
    → hex_digit c ≡ some high
    → hex_digit d ≡ some low
    → from_hex text ≡ some bytes
    → from_hex (c ∷ d ∷ text) ≡ some ((high * 16 + low) ∷ bytes)
unfolding from_hex pair
from_hex-cons c d high low text bytes no_space first second rest =
    ap
      (λ (b : Bool). elim b [
        | true ↦ from_hex (d ∷ text)
        | false ↦ pair (hex_digit c) (hex_digit d) (from_hex text)
      ])
      no_space
    ∙ rw (first, second, rest) refl
