-- ===== src/Serialization/VersionGroup/Fits.antt =====
-- The records of a version group: what they hold together, and that each fits its budget.
use kafka_fdb_streamline.Common.{
  ℕ, ◌+◌, ◌≤◌, ◌<◌, false, ◌&&◌, ltb, ◌==◌, List, [], ◌∷◌, ◌≡◌, refl, subst, arith, length, All,
  All-append, is_empty,
}
use kafka_fdb_streamline.Serialization.Checked.{valid, bind_valid}
use kafka_fdb_streamline.Serialization.Message.{FdbMutation, Protobuf}
use kafka_fdb_streamline.Serialization.VersionGroup.{
  Slicing, batch_record_bytes, grow_slice, close_slice, slice_from, slice_of, last_slice, slices,
}
use kafka_fdb_streamline.Serialization.VersionGroup.Cut.{IsCut, IsCut-snoc}
use kafka_fdb_streamline.Serialization.VersionGroup.Slices.{
  frame, FitsIn, IsSliced, slice_from-IsSliced, accepted, valid-injective, frame-positive, begun,
}

start_slicing : Slicing
start_slicing = record { slices = []; start = 0; batch_bytes = 0 }

module _ (envelope budget : ℕ) (pb : Protobuf) where
  grown-positive :
      (i : ℕ) (m : FdbMutation) (s s' : Slicing)
      → grow_slice envelope budget i (frame envelope budget pb m) s ≡ valid s'
      → 0 < s'.batch_bytes
  unfolding grow_slice
  grown-positive i m s s' h =
      let (_, same) =
        accepted
          (s.batch_bytes == 0
            && ltb budget (batch_record_bytes envelope budget (frame envelope budget pb m)))
          _ h in
      subst (λ (x : Slicing). 0 < x.batch_bytes) same
        (omega (arith, frame-positive envelope budget pb m))

  slice_from-positive :
      (messages : List FdbMutation) (i : ℕ) (s s' : Slicing)
      → 0 < s.batch_bytes
      → slice_from envelope budget pb messages i s ≡ valid s'
      → 0 < s'.batch_bytes
  unfolding slice_from
  slice_from-positive [] i s s' h sliced =
      subst (λ (x : Slicing). 0 < x.batch_bytes) (valid-injective sliced) h
  slice_from-positive (m ∷ rest) i s s' h sliced =
      let closed = close_slice envelope budget i (frame envelope budget pb m) s in
      let (grown, grow, others) =
        bind_valid (grow_slice envelope budget i (frame envelope budget pb m) closed)
          (λ grown. slice_from envelope budget pb rest (i + 1) grown) sliced in
      slice_from-positive rest (i + 1) grown s' (grown-positive i m closed grown grow) others

  some-positive :
      (m : FdbMutation) (rest : List FdbMutation) (s s' : Slicing)
      → slice_from envelope budget pb (m ∷ rest) 0 s ≡ valid s'
      → 0 < s'.batch_bytes
  unfolding slice_from
  some-positive m rest s s' sliced =
      let closed = close_slice envelope budget 0 (frame envelope budget pb m) s in
      let (grown, grow, others) =
        bind_valid (grow_slice envelope budget 0 (frame envelope budget pb m) closed)
          (λ grown. slice_from envelope budget pb rest (0 + 1) grown) sliced in
      slice_from-positive rest (0 + 1) grown s' (grown-positive 0 m closed grown grow) others

  start-IsSliced :
      (messages : List FdbMutation) → IsSliced envelope budget pb messages 0 start_slicing
  unfolding start_slicing slice_of
  start-IsSliced messages = record {
    cut = refl;
    behind = omega arith;
    bytes = refl;
    moved = λ _. refl;
    fits = λ none. absurd (omega (arith, none));
    all_fit = tt;
  }

  last-IsCut :
      (messages : List FdbMutation) (s : Slicing)
      → IsSliced envelope budget pb messages (length messages) s
      → (is_empty messages ≡ false → 0 < s.batch_bytes)
      → slice_from envelope budget pb messages 0 start_slicing ≡ valid s
      → IsCut 0 (last_slice messages s) (length messages)
        × All (FitsIn envelope budget pb messages) (last_slice messages s)
  unfolding last_slice slice_from start_slicing
  last-IsCut [] s h positive sliced =
      (subst (λ (x : Slicing). IsCut 0 x.slices 0) (valid-injective sliced) refl, h.all_fit)
  last-IsCut (m ∷ rest) s h positive sliced =
      let held = positive refl in
      (
        IsCut-snoc s.slices 0 s.start _ h.cut (begun envelope budget pb (m ∷ rest) _ s h held),
        All-append (FitsIn envelope budget pb (m ∷ rest)) s.slices _ h.all_fit
            (subst (λ n. batch_record_bytes envelope budget n ≤ budget) h.bytes (h.fits held), tt),
      )

  nonempty-positive :
      (messages : List FdbMutation) (s : Slicing)
      → slice_from envelope budget pb messages 0 start_slicing ≡ valid s
      → is_empty messages ≡ false
      → 0 < s.batch_bytes
  nonempty-positive [] s sliced some_messages = cc some_messages
  nonempty-positive (m ∷ rest) s sliced some_messages = some-positive m rest _ s sliced

-- The ranges of `slices` cut the whole list of messages into adjacent slices, none of them empty, and
-- the record of each slice is within the budget by the sizes that the loop adds up.
pub slices-IsCut :
    (pb : Protobuf) (messages : List FdbMutation) (envelope budget : ℕ) (ranges : List (ℕ × ℕ))
    → slices pb messages envelope budget ≡ valid ranges
    → IsCut 0 ranges (length messages) × All (FitsIn envelope budget pb messages) ranges
unfolding slices start_slicing
slices-IsCut pb messages envelope budget ranges h =
    let (s, sliced, last) =
      bind_valid (slice_from envelope budget pb messages 0 start_slicing)
        (λ s. valid (last_slice messages s)) h in
    subst (λ r. IsCut 0 r (length messages) × All (FitsIn envelope budget pb messages) r)
      (valid-injective last)
      (last-IsCut envelope budget pb messages s
        (slice_from-IsSliced envelope budget pb messages messages [] 0 start_slicing s refl refl
          (start-IsSliced envelope budget pb messages) sliced)
        (nonempty-positive envelope budget pb messages s sliced) sliced)
