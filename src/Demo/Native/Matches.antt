-- ===== src/Demo/Native/Matches.antt =====
-- Mutations that match what is expected of them.
use kafka_fdb_streamline.Common.{
  ℕ, zero, suc, ◌+◌, true, some, [], ◌∷◌, ◌++◌, length, drop, ◌≡◌, refl, arith, pos, length-append,
  take-length_append,
}
use kafka_fdb_streamline.Common.Texts.{text_eq}
use kafka_fdb_streamline.Serialization.Model.{Bytes}
use kafka_fdb_streamline.Serialization.Message.{MutationArm}
use kafka_fdb_streamline.Demo.Workload.{
  in_param1, in_param2, ExpectedMutation, exactly, matches, params_match, same_outside, stamp_bytes,
}
use kafka_fdb_streamline.Demo.Workload.Verifier.{native}
use kafka_fdb_streamline.Demo.Native.Digits.{length-stamp_bytes}

text_eq_self : (xs : Bytes) → text_eq xs xs ≡ true
unfolding text_eq
text_eq_self [] = refl
text_eq_self (x ∷ xs) = ground (arith, text_eq_self xs)

drop-length : (n : ℕ) (xs : Bytes) → length xs ≡ n → drop n xs ≡ []
drop-length zero [] size = refl
drop-length zero (x ∷ xs) size = absurd (omega arith)
drop-length (suc n) [] size = refl
drop-length (suc n) (x ∷ xs) size = drop-length n xs (omega arith)

-- A stamp in its place.
same_outside-stamp :
    (text stamp : Bytes)
    → length stamp ≡ 10
    → same_outside (length text) (text ++ stamp) (text ++ stamp_bytes 10) ≡ true
unfolding same_outside
same_outside-stamp text stamp size =
    let stamped_size : length (text ++ stamp) ≡ length text + 10 =
      omega (arith, length-append text stamp) in
    let zeros_size : length (text ++ stamp_bytes 10) ≡ length text + 10 =
      omega (arith, length-append text (stamp_bytes 10), length-stamp_bytes 10) in
    rw (take-length_append text stamp, take-length_append text (stamp_bytes 10))
      (rw (drop-length (length text + 10) (text ++ stamp) stamped_size) (
        rw (drop-length (length text + 10) (text ++ stamp_bytes 10) zeros_size)
          (ground (arith, text_eq_self text, text_eq_self []))))

-- The emitted mutation is the expected one.
abbrev pub Matches : ExpectedMutation → MutationArm → Type 0
Matches expected arm =
    let (type_code, param1, param2) = native (some arm) in
    matches expected type_code param1 param2 ≡ true

pub Matches-single :
    (type_code : ℕ) (key value : Bytes)
    → Matches
        (exactly type_code key value)
        (MutationArm.single_key_mutation key value (pos type_code))
unfolding native matches params_match exactly
Matches-single type_code key value = ground (arith, text_eq_self key, text_eq_self value)

pub Matches-clear : (b e : Bytes) → Matches (exactly 1 b e) (MutationArm.clear_range b e)
unfolding native matches params_match exactly
Matches-clear b e = ground (arith, text_eq_self b, text_eq_self e)

pub Matches-stamp1 :
    (text stamp value : Bytes) (expected : ExpectedMutation)
    → expected ≡ record {
      type_code = 0;
      param1 = text ++ stamp_bytes 10;
      param2 = value;
      stamp = some (in_param1 (length text));
    }
    → length stamp ≡ 10
    → Matches expected (MutationArm.single_key_mutation (text ++ stamp) value (pos 0))
unfolding native matches params_match
Matches-stamp1 text stamp value expected same size =
    rw same (ground (arith, same_outside-stamp text stamp, text_eq_self value))

pub Matches-stamp2 :
    (key text stamp : Bytes) (expected : ExpectedMutation)
    → expected ≡ record {
      type_code = 0;
      param1 = key;
      param2 = text ++ stamp_bytes 10;
      stamp = some (in_param2 (length text));
    }
    → length stamp ≡ 10
    → Matches expected (MutationArm.single_key_mutation key (text ++ stamp) (pos 0))
unfolding native matches params_match
Matches-stamp2 key text stamp expected same size =
    rw same (ground (arith, same_outside-stamp text stamp, text_eq_self key))
