-- ===== src/Demo/Native/Digits.antt =====
-- The decimal and binary digits in the workload's keys: eight digits below 10 ^ 8, read back as the index.
use kafka_fdb_streamline.Common.{
  ℕ, zero, suc, ◌+◌, ◌-◌, ◌*◌, ◌/◌, ◌%◌, ◌^◌, ◌≤◌, ◌<◌, Bool, true, ◌&&◌, none, some, [], ◌∷◌, ◌++◌,
  length, ltb, ◌≡◌, refl, ap, ◌∙◌, arith, length-append, append_assoc, drop-length_append, if_cases,
}
use kafka_fdb_streamline.Common.Texts.{starts_with}
use kafka_fdb_streamline.Serialization.Model.{Bytes}
use kafka_fdb_streamline.Demo.Workload.{
  decimal, in_decimal, zeros, eight_digits, little_endian, stamp_bytes,
}
use kafka_fdb_streamline.Demo.Workload.Verifier.{
  digits, is_tag, or_else, index_in_key, workload_index,
}
use kafka_fdb_streamline.Demo.Native.{read_little_endian}

power_of_ten : ℕ → ℕ
power_of_ten zero = 1
power_of_ten (suc k) = 10 * power_of_ten k

length-decimal : (fuel n k : ℕ) → n < power_of_ten (suc k) → length (decimal fuel n) ≤ suc k
unfolding decimal power_of_ten
length-decimal zero n k small = omega arith
length-decimal (suc fuel) n zero small =
    if_cases (λ (l : Bytes). length (l ++ (48 + n % 10) ∷ []) ≤ 1) (ltb n 10) []
      (decimal fuel (n / 10)) (λ _. omega arith) (λ big. absurd (ground arith))
length-decimal (suc fuel) n (suc k) small =
    if_cases (λ (l : Bytes). length (l ++ (48 + n % 10) ∷ []) ≤ suc (suc k)) (ltb n 10) []
      (decimal fuel (n / 10)) (λ _. omega arith)
      (λ _. omega (
        arith,
        length-decimal fuel (n / 10) k (omega arith),
        length-append (decimal fuel (n / 10)) ((48 + n % 10) ∷ []),
      ))

digits-digit :
    (count number digit : ℕ) (rest : Bytes)
    → digit < 10
    → digits (suc count) number ((48 + digit) ∷ rest) ≡ digits count (number * 10 + digit) rest
unfolding digits
digits-digit count number digit rest small =
    let same : 48 + digit - 48 ≡ digit = omega arith in ground arith

-- A number's digits, the last one apart.
digits-snoc :
    (l : Bytes) (n above count : ℕ) (rest : Bytes)
    → ((count' : ℕ) (rest' : Bytes)
        → digits (length l + count') 0 (l ++ rest') ≡ digits count' above rest')
    → above * 10 + n % 10 ≡ n
    → digits (length (l ++ (48 + n % 10) ∷ []) + count) 0 ((l ++ (48 + n % 10) ∷ []) ++ rest)
      ≡ digits count n rest
digits-snoc l n above count rest before last =
    let size : length (l ++ (48 + n % 10) ∷ []) + count ≡ length l + suc count =
      omega (arith, length-append l ((48 + n % 10) ∷ [])) in
    rw (size, append_assoc l ((48 + n % 10) ∷ []) rest)
      (before (suc count) ((48 + n % 10) ∷ rest)
        ∙ digits-digit count above (n % 10) rest (omega arith)
        ∙ ap (λ k. digits count k rest) last)

nothing_read :
    (count : ℕ) (rest : Bytes)
    → digits (length {A = ℕ} [] + count) 0 ([] ++ rest) ≡ digits count 0 rest
nothing_read count rest = ap (λ k. digits k 0 rest) (omega arith)

-- The digits of a number, read after zeros, are the number.
digits-decimal :
    (fuel n count : ℕ) (rest : Bytes)
    → n < fuel
    → digits (length (decimal fuel n) + count) 0 (decimal fuel n ++ rest) ≡ digits count n rest
unfolding decimal
digits-decimal zero n count rest enough = absurd (omega arith)
digits-decimal (suc fuel) n count rest enough =
    if_cases
      (λ (l : Bytes).
        digits (length (l ++ (48 + n % 10) ∷ []) + count) 0 ((l ++ (48 + n % 10) ∷ []) ++ rest)
        ≡ digits count n rest)
      (ltb n 10) [] (decimal fuel (n / 10))
      (λ small. digits-snoc [] n 0 count rest nothing_read (ground arith))
      (λ big.
        digits-snoc (decimal fuel (n / 10)) n (n / 10) count rest
          (λ count' rest'. digits-decimal fuel (n / 10) count' rest' (ground arith)) (omega arith))

length-zeros : (n : ℕ) → length (zeros n) ≡ n
unfolding zeros
length-zeros zero = refl
length-zeros (suc n) = ap suc (length-zeros n)

digits-zeros :
    (n count : ℕ) (rest : Bytes) → digits (n + count) 0 (zeros n ++ rest) ≡ digits count 0 rest
unfolding zeros
digits-zeros zero count rest = ap (λ k. digits k 0 rest) (omega arith)
digits-zeros (suc n) count rest =
    let size : suc n + count ≡ suc (n + count) = omega arith in
    rw size
      (digits-digit (n + count) 0 0 (zeros n ++ rest) (omega arith) ∙ digits-zeros n count rest)

ten_to_8 : (n : ℕ) → n < 100000000 → n < power_of_ten 8
unfolding power_of_ten
ten_to_8 n small = small

short : (index : ℕ) → index < 100000000 → length (in_decimal index) ≤ 8
unfolding in_decimal
short index small = length-decimal (suc index) index 7 (ten_to_8 index small)

pub length-eight_digits : (index : ℕ) → index < 100000000 → length (eight_digits index) ≡ 8
unfolding eight_digits
length-eight_digits index small =
    let text = in_decimal index in
    omega (
      arith,
      length-append (zeros (8 - length text)) text,
      length-zeros (8 - length text),
      short index small,
    )

digits-in_decimal :
    (index : ℕ) (rest : Bytes)
    → digits (length (in_decimal index)) 0 (in_decimal index ++ rest) ≡ some index
unfolding in_decimal digits
digits-in_decimal index rest =
    let size : length (decimal (suc index) index) ≡ length (decimal (suc index) index) + 0 =
      omega arith in
    ap (λ k. digits k 0 (decimal (suc index) index ++ rest)) size
    ∙ digits-decimal (suc index) index 0 rest (omega arith)

-- Eight digits of an index, whatever follows, are read as the index.
pub digits-eight_digits :
    (index : ℕ) (rest : Bytes)
    → index < 100000000
    → digits 8 0 (eight_digits index ++ rest) ≡ some index
unfolding eight_digits
digits-eight_digits index rest small =
    let text = in_decimal index in
    let missing = 8 - length text in
    let size : 8 ≡ missing + length text = omega (arith, short index small) in
    ap (λ k. digits k 0 ((zeros missing ++ text) ++ rest)) size
    ∙ ap (digits (missing + length text) 0) (append_assoc (zeros missing) text rest)
    ∙ digits-zeros missing (length text) (text ++ rest)
    ∙ digits-in_decimal index rest

digits-tag :
    (count number c : ℕ) (rest : Bytes)
    → is_tag c ≡ true
    → digits (suc count) number (c ∷ rest) ≡ none
unfolding digits is_tag
digits-tag count number c rest tag = ground arith

unfoldable pub all_tags : Bytes → Bool
unfolding is_tag
all_tags [] = true
all_tags (c ∷ tag) = is_tag c && all_tags tag

abbrev pub IsTag : Bytes → Type 0
IsTag [] = ⊥
IsTag (c ∷ tag) = all_tags (c ∷ tag) ≡ true

index_in_key-tag :
    (c : ℕ) (tag text : Bytes) (index : ℕ)
    → all_tags (c ∷ tag) ≡ true
    → digits 8 0 text ≡ some index
    → index_in_key (c ∷ tag ++ text) ≡ some index
unfolding index_in_key or_else all_tags
index_in_key-tag c [] text index tags read =
    let first : is_tag c ≡ true = ground arith in rw (first, read) refl
index_in_key-tag c (d ∷ tag) text index tags read =
    let first : is_tag c ≡ true = ground arith in
    let second : is_tag d ≡ true = ground arith in
    rw (first, digits-tag 7 0 d (tag ++ text) second)
      (index_in_key-tag d tag text index (ground arith) read)

pub starts_with-append : (xs ys : Bytes) → starts_with xs (xs ++ ys) ≡ true
unfolding starts_with
starts_with-append [] ys = refl
starts_with-append (x ∷ xs) ys = ground (arith, starts_with-append xs ys)

-- The index of a workload key, whatever follows its digits.
pub workload_index-key :
    (prefix tag rest : Bytes) (index : ℕ)
    → IsTag tag
    → index < 100000000
    → workload_index prefix ((prefix ++ tag ++ eight_digits index) ++ rest) ≡ some index
unfolding workload_index
workload_index-key prefix [] rest index tags small = absurd tags
workload_index-key prefix (c ∷ tag) rest index tags small =
    let text = eight_digits index ++ rest in
    let parts : (prefix ++ (c ∷ tag) ++ eight_digits index) ++ rest
        ≡ prefix ++ ((c ∷ tag) ++ text) =
      append_assoc (prefix ++ (c ∷ tag)) (eight_digits index) rest
      ∙ append_assoc prefix (c ∷ tag) text in
    rw parts (
      rw
        (
          starts_with-append prefix ((c ∷ tag) ++ text),
          drop-length_append prefix ((c ∷ tag) ++ text),
        )
        (index_in_key-tag c tag text index tags (digits-eight_digits index rest small)))

pub length-little_endian : (count n : ℕ) → length (little_endian count n) ≡ count
unfolding little_endian
length-little_endian zero n = refl
length-little_endian (suc count) n = ap suc (length-little_endian count (n / 256))

pub read_little_endian-little_endian :
    (n : ℕ) → n < 2 ^ 32 → read_little_endian (little_endian 4 n) ≡ n
unfolding read_little_endian little_endian
read_little_endian-little_endian n small = omega arith

pub length-stamp_bytes : (n : ℕ) → length (stamp_bytes n) ≡ n
unfolding stamp_bytes
length-stamp_bytes zero = refl
length-stamp_bytes (suc n) = ap suc (length-stamp_bytes n)
