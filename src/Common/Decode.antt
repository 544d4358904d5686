-- ===== src/Common/Decode.antt =====
-- `bytes.decode("utf-8", errors="replace")`: each longest part of a broken sequence gives one U+FFFD.
use Prim.Native.Nat.{ℕ, ◌+◌, ◌-◌, ◌*◌, ◌/◌, ◌%◌}
use mathlib.Core.Bool.{Bool, true, false, ◌&&◌, ◌||◌}
use mathlib.Core.Option.{Option, none, some}
use mathlib.Core.List.{List, [], ◌∷◌, ◌++◌}
use mathlib.Core.Path.{◌≡◌, refl, ap, sym, subst, ◌∙◌}
use native.Mathlib.Omega.{arith}
use kafka_fdb_streamline.Common.Tests.{if_cases, ltb, leb, ◌==◌, if◌then◌else◌}
use kafka_fdb_streamline.Common.Lists.{All}
use kafka_fdb_streamline.Common.Texts.{utf8, utf8_char}

abbrev replacement : ℕ
replacement = 0xFFFD

-- How many bytes of the sequence are missing, its value so far, and the range of its next byte.
record Sequence : Type 0 where
  missing : ℕ
  value : ℕ
  low : ℕ
  high : ℕ

-- The code points that a byte brings, and the sequence that it leaves open.
abbrev Progress : Type 0
Progress = List ℕ × Option Sequence

opened : ℕ → ℕ → ℕ → ℕ → Progress
opened missing value low high =
    ([], some (record { missing = missing; value = value; low = low; high = high }))

unfoldable begin_at : ℕ → Progress
unfolding opened
begin_at b =
    if ltb b 0x80
    then (b ∷ [], none)
    else if ltb b 0xC2
    then (replacement ∷ [], none)
    else if ltb b 0xE0
    then opened 1 (b - 0xC0) 0x80 0xBF
    else if ltb b 0xF0
    then opened 2 (b - 0xE0) (if b == 0xE0 then 0xA0 else 0x80) (if b == 0xED then 0x9F else 0xBF)
    else if ltb b 0xF5
    then opened 3 (b - 0xF0) (if b == 0xF0 then 0x90 else 0x80) (if b == 0xF4 then 0x8F else 0xBF)
    else (replacement ∷ [], none)

-- A byte that carries an open sequence on.
unfoldable carry_on : Sequence → ℕ → Progress
unfolding opened
carry_on s b =
    let value = s.value * 64 + (b - 0x80) in
    if s.missing == 1 then (value ∷ [], none) else opened (s.missing - 1) value 0x80 0xBF

unfoldable decode_byte : Option Sequence → ℕ → Progress
unfolding begin_at carry_on
decode_byte none b = begin_at b
decode_byte (some s) b =
    let (points, next) = begin_at b in
    if leb s.low b && leb b s.high then carry_on s b else (replacement ∷ points, next)

unfoldable decode_from : Option Sequence → List ℕ → List ℕ
unfolding decode_byte
decode_from none [] = []
decode_from (some s) [] = replacement ∷ []
decode_from open_sequence (b ∷ rest) =
    let (points, next) = decode_byte open_sequence b in points ++ decode_from next rest

unfoldable pub decode : List ℕ → List ℕ
unfolding decode_from
decode = decode_from none

-- A code point that a Python str can hold and UTF-8 can encode.
abbrev pub encodable : ℕ → Bool
encodable c = (ltb c 0xD800 || ltb 0xDFFF c) && ltb c 0x110000

-- Before any rest, the bytes decode to the one code point.
DecodesTo : List ℕ → List ℕ → ℕ → Type 0
DecodesTo rest bytes c = decode_from none (bytes ++ rest) ≡ c ∷ decode_from none rest

two_bytes :
    (q r : ℕ) (rest : List ℕ)
    → ltb q 2 ≡ false
    → ltb q 32 ≡ true
    → ltb r 64 ≡ true
    → DecodesTo rest ((192 + q) ∷ (128 + r) ∷ []) (q * 64 + r)
unfolding DecodesTo decode_from begin_at decode_byte carry_on
two_bytes q r rest h2 h32 h64 = ground arith

three_bytes :
    (q r t : ℕ) (rest : List ℕ)
    → ltb q 16 ≡ true
    → ltb r 64 ≡ true
    → ltb t 64 ≡ true
    → leb 0x800 ((q * 64 + r) * 64 + t) ≡ true
    → encodable ((q * 64 + r) * 64 + t) ≡ true
    → DecodesTo rest ((224 + q) ∷ (128 + r) ∷ (128 + t) ∷ []) ((q * 64 + r) * 64 + t)
unfolding DecodesTo decode_from begin_at decode_byte carry_on
three_bytes q r t rest hq hr ht least scalar = ground arith

four_bytes :
    (q r t u : ℕ) (rest : List ℕ)
    → ltb r 64 ≡ true
    → ltb t 64 ≡ true
    → ltb u 64 ≡ true
    → leb 0x10000 (((q * 64 + r) * 64 + t) * 64 + u) ≡ true
    → ltb (((q * 64 + r) * 64 + t) * 64 + u) 0x110000 ≡ true
    → DecodesTo rest
        ((240 + q) ∷ (128 + r) ∷ (128 + t) ∷ (128 + u) ∷ [])
        (((q * 64 + r) * 64 + t) * 64 + u)
unfolding DecodesTo decode_from begin_at decode_byte carry_on
four_bytes q r t u rest hr ht hu least most = ground arith

one_byte : (c : ℕ) (rest : List ℕ) → ltb c 0x80 ≡ true → DecodesTo rest (c ∷ []) c
unfolding DecodesTo decode_from decode_byte begin_at
one_byte c rest small = ground arith

rejoined_two : (c : ℕ) → c / 64 * 64 + c % 64 ≡ c
rejoined_two c = omega arith

rejoined_three : (c : ℕ) → (c / 4096 * 64 + c / 64 % 64) * 64 + c % 64 ≡ c
rejoined_three c = omega arith

rejoined_four : (c : ℕ) → ((c / 262144 * 64 + c / 4096 % 64) * 64 + c / 64 % 64) * 64 + c % 64 ≡ c
rejoined_four c = omega arith

utf8_char-DecodesTo : (c : ℕ) (rest : List ℕ) → encodable c ≡ true → DecodesTo rest (utf8_char c) c
unfolding utf8_char
utf8_char-DecodesTo c rest h =
    if_cases (λ bytes. DecodesTo rest bytes c) (ltb c 0x80) _ _ (one_byte c rest)
      λ above_one.
        if_cases (λ bytes. DecodesTo rest bytes c) (ltb c 0x800) _ _
          (λ two.
            subst (DecodesTo rest _) (rejoined_two c)
              (two_bytes (c / 64) (c % 64) rest (ground arith) (ground arith) (ground arith)))
          λ above_two.
            if_cases (λ bytes. DecodesTo rest bytes c) (ltb c 0x10000) _ _
              (λ three. subst (DecodesTo rest _) (rejoined_three c) (
                three_bytes (c / 4096) (c / 64 % 64) (c % 64) rest (ground arith) (ground arith)
                  (ground arith) (ground (arith, rejoined_three c))
                  (subst (λ n. encodable n ≡ true) (sym (rejoined_three c)) h)))
              (λ four. subst (DecodesTo rest _) (rejoined_four c) (
                four_bytes (c / 262144) (c / 4096 % 64) (c / 64 % 64) (c % 64) rest (ground arith)
                  (ground arith) (ground arith) (ground (arith, rejoined_four c))
                  (ground (arith, rejoined_four c))))

-- Decoding takes back the encoding of a text without surrogates.
pub decode-utf8 : (text : List ℕ) → All (λ c. encodable c ≡ true) text → decode (utf8 text) ≡ text
unfolding decode utf8 decode_from DecodesTo
decode-utf8 [] h = refl
decode-utf8 (c ∷ text) h =
    utf8_char-DecodesTo c (utf8 text) h.0 ∙ ap (λ (rest : List ℕ). c ∷ rest) (decode-utf8 text h.1)
