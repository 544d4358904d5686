-- ===== src/Serialization/VersionGroup/Slices.antt =====
-- The invariant of the slicing loop: closed slices cut what is behind, and every record fits.
use kafka_fdb_streamline.Common.{
  ℕ, zero, suc, ◌+◌, ◌-◌, ◌≤◌, ◌<◌, Bool, true, false, ◌&&◌, ltb, ◌==◌, List, [], ◌∷◌, ◌++◌, ◌≡◌,
  refl, sym, subst, ap, ◌∙◌, arith, length, take, drop, All, All-append, if◌then◌else◌, if_cases,
  inl, inr, ◌⊎◌, append_assoc, append-nil, length-append,
}
use kafka_fdb_streamline.Errors.{SerializationError}
use kafka_fdb_streamline.Serialization.Checked.{valid, invalid, bind_valid}
use kafka_fdb_streamline.Serialization.Message.{FdbMutation, Protobuf}
use kafka_fdb_streamline.Serialization.VersionGroup.{
  framed_bytes, mutations_tag_bytes, Slicing, batch_record_bytes, close_slice, grow_slice,
  mutation_frame, slice_from, slice_of,
}
use kafka_fdb_streamline.Serialization.VersionGroup.Cut.{IsCut, IsCut-snoc, slice_more}

self_minus : (n : ℕ) → n - n ≡ 0
self_minus n = omega arith

both_true : (a n budget : ℕ) → (ltb 0 a && ltb budget n) ≡ true → 0 < a
both_true a n budget h = ground arith

pub lt_or_eq : (a b : ℕ) → a ≤ b → (a < b) ⊎ (a ≡ b)
lt_or_eq a b h = ground arith

one_more : (n : ℕ) → suc n ≡ n + 1
one_more n = omega arith

plus_zero : (n : ℕ) → n + 0 ≡ n
plus_zero n = omega arith

zero_plus : (n : ℕ) → n ≡ 0 + n
zero_plus n = omega arith

not_both : (a n budget : ℕ) → (ltb 0 a && ltb budget n) ≡ false → 0 < a → n ≤ budget
not_both a n budget h positive = ground arith

not_alone : (a n budget : ℕ) → (a == 0 && ltb budget n) ≡ false → a ≡ 0 → n ≤ budget
not_alone a n budget h empty = ground arith

pub valid-injective : {A : Type 0} {x y : A} → valid x ≡ valid y → x ≡ y
valid-injective {x} h = ap (λ r. elim r [ valid a ↦ a | invalid _ ↦ x ]) h

pub accepted :
    {A : Type 0} (b : Bool) (e : SerializationError) {x y : A}
    → (if b then invalid e else valid x) ≡ valid y
    → (b ≡ false) × (x ≡ y)
accepted true e h = cc
accepted false e h = (refl, valid-injective h)

module _ (envelope budget : ℕ) (pb : Protobuf) where
  abbrev pub frame : FdbMutation → ℕ
  frame m = mutation_frame envelope budget pb m

  -- The bytes of the framed mutations of a batch.
  abbrev pub payload : List FdbMutation → ℕ
  payload [] = 0
  payload (m ∷ rest) = frame m + payload rest

  payload-append : (xs ys : List FdbMutation) → payload (xs ++ ys) ≡ payload xs + payload ys
  payload-append [] ys = omega arith
  payload-append (x ∷ xs) ys = omega (arith, payload-append xs ys)

  pub frame-positive : (m : FdbMutation) → 0 < frame m
  unfolding mutation_frame framed_bytes mutations_tag_bytes
  frame-positive m = omega arith

  abbrev pub FitsIn : List FdbMutation → ℕ × ℕ → Type 0
  FitsIn messages range =
      batch_record_bytes envelope budget (payload (slice_of messages range)) ≤ budget

  pub record IsSliced (messages : List FdbMutation) (i : ℕ) (s : Slicing) : Type 0 where
    pub cut : IsCut 0 s.slices s.start
    pub behind : s.start ≤ i
    pub bytes : s.batch_bytes ≡ payload (slice_of messages (s.start, i))
    pub moved : s.batch_bytes ≡ 0 → s.start ≡ i
    pub fits : 0 < s.batch_bytes → batch_record_bytes envelope budget s.batch_bytes ≤ budget
    pub all_fit : All (FitsIn messages) s.slices

  -- After `close_slice` the next mutation fits beside what the slice holds.
  record HasRoom (size : ℕ) (s : Slicing) : Type 0 where
    room : 0 < s.batch_bytes → batch_record_bytes envelope budget (s.batch_bytes + size) ≤ budget

  empty_slice : (messages : List FdbMutation) (i : ℕ) → payload (slice_of messages (i, i)) ≡ 0
  unfolding slice_of
  empty_slice messages i = ap (λ n. payload (take n (drop i messages))) (self_minus i)

  -- A slice that holds bytes has begun before `i`.
  pub begun :
      (messages : List FdbMutation) (i : ℕ) (s : Slicing)
      → IsSliced messages i s
      → 0 < s.batch_bytes
      → s.start < i
  begun messages i s h positive = elim (lt_or_eq s.start i h.behind) [
    | inl less ↦ less
    | inr same ↦ absurd (
        omega (
          arith,
          h.bytes,
          subst (λ n. payload (slice_of messages (n, i)) ≡ 0) (sym same) (empty_slice messages i),
          positive,
        ))
  ]

  close-IsSliced :
      (messages : List FdbMutation) (i size : ℕ) (s : Slicing)
      → IsSliced messages i s
      → IsSliced messages i (close_slice envelope budget i size s)
  unfolding close_slice
  close-IsSliced messages i size s h =
      if_cases (λ x. IsSliced messages i x)
        (ltb 0 s.batch_bytes
          && ltb budget (batch_record_bytes envelope budget (s.batch_bytes + size)))
        _ _
        (λ e.
          let positive = both_true s.batch_bytes _ budget e in
          record {
            cut = IsCut-snoc s.slices 0 s.start i h.cut (begun messages i s h positive);
            behind = omega arith;
            bytes = sym (empty_slice messages i);
            moved = λ _. refl;
            fits = λ none. absurd (omega (arith, none));
            all_fit = All-append (FitsIn messages) s.slices _ h.all_fit (
              subst (λ n. batch_record_bytes envelope budget n ≤ budget) h.bytes (h.fits positive),
              tt,
            );
          })
        (λ _. h)

  close-HasRoom : (i size : ℕ) (s : Slicing) → HasRoom size (close_slice envelope budget i size s)
  unfolding close_slice
  close-HasRoom i size s =
      if_cases (λ x. HasRoom size x)
        (ltb 0 s.batch_bytes
          && ltb budget (batch_record_bytes envelope budget (s.batch_bytes + size)))
        _ _ (λ e. record { room = λ none. absurd (omega (arith, none)) })
        (λ e. record { room = not_both s.batch_bytes _ budget e })

  payload_more :
      (a : ℕ) (done : List FdbMutation) (m : FdbMutation) (rest : List FdbMutation)
      → a ≤ length done
      → payload (slice_of (done ++ m ∷ rest) (a, suc (length done)))
        ≡ payload (slice_of (done ++ m ∷ rest) (a, length done)) + frame m
  unfolding slice_of
  payload_more a done m rest h =
      ap payload (slice_more a done m rest h)
      ∙ payload-append (slice_of (done ++ m ∷ rest) (a, length done)) (m ∷ [])
      ∙ ap (λ n. payload (slice_of (done ++ m ∷ rest) (a, length done)) + n) (plus_zero (frame m))

  joined :
      (held size : ℕ)
      → (0 < held → batch_record_bytes envelope budget (held + size) ≤ budget)
      → (held ≡ 0 → batch_record_bytes envelope budget size ≤ budget)
      → batch_record_bytes envelope budget (held + size) ≤ budget
  joined zero size room alone =
      subst (λ n. batch_record_bytes envelope budget n ≤ budget) (zero_plus size) (alone refl)
  joined (suc held) size room alone = room (omega arith)

  grow-IsSliced :
      (done : List FdbMutation) (m : FdbMutation) (rest : List FdbMutation) (s s' : Slicing)
      → IsSliced (done ++ m ∷ rest) (length done) s
      → HasRoom (frame m) s
      → grow_slice envelope budget (length done) (frame m) s ≡ valid s'
      → IsSliced (done ++ m ∷ rest) (suc (length done)) s'
  unfolding grow_slice
  grow-IsSliced done m rest s s' h room grown =
      let (fits_alone, same) =
        accepted (s.batch_bytes == 0 && ltb budget (batch_record_bytes envelope budget (frame m))) _
          grown in
      subst (IsSliced (done ++ m ∷ rest) (suc (length done))) same (record {
        cut = h.cut;
        behind = omega (arith, h.behind);
        bytes = ap (λ n. n + frame m) h.bytes ∙ sym (payload_more s.start done m rest h.behind);
        moved = λ none. absurd (omega (arith, none, frame-positive m));
        fits = λ _.
            joined s.batch_bytes (frame m) room.room (not_alone s.batch_bytes _ budget fits_alone);
        all_fit = h.all_fit;
      })

  grow_at :
      (messages done : List FdbMutation) (m : FdbMutation) (rest : List FdbMutation) (i : ℕ)
      (s s' : Slicing)
      → done ++ m ∷ rest ≡ messages
      → length done ≡ i
      → IsSliced messages i s
      → HasRoom (frame m) s
      → grow_slice envelope budget i (frame m) s ≡ valid s'
      → IsSliced messages (i + 1) s'
  grow_at messages done m rest i s s' split at =
      subst
        (λ messages.
          IsSliced messages i s
          → HasRoom (frame m) s
          → grow_slice envelope budget i (frame m) s ≡ valid s'
          → IsSliced messages (i + 1) s')
        split
        (subst
          (λ i.
            IsSliced (done ++ m ∷ rest) i s
            → HasRoom (frame m) s
            → grow_slice envelope budget i (frame m) s ≡ valid s'
            → IsSliced (done ++ m ∷ rest) (i + 1) s')
          at
          (λ h room grown.
            subst (λ n. IsSliced (done ++ m ∷ rest) n s') (one_more (length done))
              (grow-IsSliced done m rest s s' h room grown)))

  pub slice_from-IsSliced :
      (rest messages done : List FdbMutation) (i : ℕ) (s s' : Slicing)
      → done ++ rest ≡ messages
      → length done ≡ i
      → IsSliced messages i s
      → slice_from envelope budget pb rest i s ≡ valid s'
      → IsSliced messages (length messages) s'
  unfolding slice_from
  slice_from-IsSliced [] messages done i s s' split at h sliced =
      subst (λ n. IsSliced messages n s') (sym at ∙ ap length (sym (append-nil done) ∙ split))
        (subst (IsSliced messages i) (valid-injective sliced) h)
  slice_from-IsSliced (m ∷ rest) messages done i s s' split at h sliced =
      let closed = close_slice envelope budget i (frame m) s in
      let (grown, grow, others) =
        bind_valid (grow_slice envelope budget i (frame m) closed)
          (λ grown. slice_from envelope budget pb rest (i + 1) grown) sliced in
      slice_from-IsSliced rest messages (done ++ m ∷ []) (i + 1) grown s'
        (append_assoc done (m ∷ []) rest ∙ split) (length-append done (m ∷ []) ∙ ap (λ n. n + 1) at)
        (grow_at messages done m rest i closed grown split at
          (close-IsSliced messages i (frame m) s h) (close-HasRoom i (frame m) s) grow)
        others
