-- ===== src/Serialization/VersionGroup/Cut.antt =====
-- Ranges that cut a list of messages into adjacent slices.
use kafka_fdb_streamline.Common.{
  ℕ, zero, suc, ◌+◌, ◌-◌, ◌≤◌, ◌<◌, List, [], ◌∷◌, ◌++◌, ◌≡◌, refl, sym, ap, ◌∙◌, arith, length,
  concat, take, drop, map,
}
use kafka_fdb_streamline.Serialization.Message.{FdbMutation}
use kafka_fdb_streamline.Serialization.VersionGroup.{slice_of}

-- From `a` to `b`, one range after the other, none of them empty.
abbrev pub IsCut : ℕ → List (ℕ × ℕ) → ℕ → Type 0
IsCut a [] b = a ≡ b
IsCut a ((x, y) ∷ rest) b = (x ≡ a) × (x < y) × IsCut y rest b

pub IsCut-snoc :
    (ranges : List (ℕ × ℕ)) (a b c : ℕ)
    → IsCut a ranges b
    → b < c
    → IsCut a (ranges ++ (b, c) ∷ []) c
IsCut-snoc [] a b c cut less = (sym cut, less, refl)
IsCut-snoc ((x, y) ∷ rest) a b c cut less = (cut.0, cut.1, IsCut-snoc rest y b c cut.2 less)

pub IsCut-le : (ranges : List (ℕ × ℕ)) (a b : ℕ) → IsCut a ranges b → a ≤ b
IsCut-le [] a b cut = omega (arith, cut)
IsCut-le ((x, y) ∷ rest) a b cut = omega (arith, cut.0, cut.1, IsCut-le rest y b cut.2)

minus_zero : (n : ℕ) → n - 0 ≡ n
minus_zero n = omega arith

minus_suc : (n a : ℕ) → suc n - suc a ≡ n - a
minus_suc n a = omega arith

nothing : (a b : ℕ) → a ≡ b → b - a ≡ 0
nothing a b h = omega arith

shift : (n m : ℕ) → suc n + m ≡ suc (n + m)
shift n m = omega arith

module _ {ℓ} {A : Type ℓ} where
  pub take_more :
      (done : List A) (m : A) (rest : List A)
      → take (suc (length done)) (done ++ m ∷ rest)
        ≡ take (length done) (done ++ m ∷ rest) ++ m ∷ []
  take_more [] m rest = refl
  take_more (x ∷ done) m rest = ap (λ (l : List A). x ∷ l) (take_more done m rest)

  pub slice_more :
      (a : ℕ) (done : List A) (m : A) (rest : List A)
      → a ≤ length done
      → take (suc (length done) - a) (drop a (done ++ m ∷ rest))
        ≡ take (length done - a) (drop a (done ++ m ∷ rest)) ++ m ∷ []
  slice_more zero done m rest h =
      ap (λ k. take k (done ++ m ∷ rest)) (minus_zero _)
      ∙ take_more done m rest
      ∙ sym (ap (λ k. take k (done ++ m ∷ rest) ++ m ∷ []) (minus_zero _))
  slice_more (suc a) [] m rest h = absurd (omega (arith, h))
  slice_more (suc a) (x ∷ done) m rest h =
      ap (λ k. take k (drop a (done ++ m ∷ rest))) (minus_suc _ a)
      ∙ slice_more a done m rest (omega arith)
      ∙ sym (ap (λ k. take k (drop a (done ++ m ∷ rest)) ++ m ∷ []) (minus_suc _ a))

  drop_nil : (n : ℕ) → drop {A = A} n [] ≡ []
  drop_nil zero = refl
  drop_nil (suc n) = refl

  take_nil : (n : ℕ) → take {A = A} n [] ≡ []
  take_nil zero = refl
  take_nil (suc n) = refl

  pub drop-drop : (m n : ℕ) (xs : List A) → drop m (drop n xs) ≡ drop (n + m) xs
  drop-drop m zero xs = ap (λ k. drop k xs) (omega arith)
  drop-drop m (suc n) [] = drop_nil m ∙ sym (drop_nil (suc n + m))
  drop-drop m (suc n) (x ∷ xs) = drop-drop m n xs ∙ sym (ap (λ k. drop k (x ∷ xs)) (shift n m))

  take-take_add : (m n : ℕ) (xs : List A) → take m xs ++ take n (drop m xs) ≡ take (m + n) xs
  take-take_add zero n xs = ap (λ k. take k xs) (omega arith)
  take-take_add (suc m) n [] = take_nil n ∙ sym (take_nil (suc m + n))
  take-take_add (suc m) n (x ∷ xs) =
      ap (λ (l : List A). x ∷ l) (take-take_add m n xs)
      ∙ sym (ap (λ k. take k (x ∷ xs)) (shift m n))

  pub take_all : (xs : List A) → take (length xs) xs ≡ xs
  take_all [] = refl
  take_all (x ∷ xs) = ap (λ (l : List A). x ∷ l) (take_all xs)

  -- Two adjacent slices are one.
  slice-slice :
      (a y b : ℕ) (xs : List A)
      → a ≤ y
      → y ≤ b
      → take (y - a) (drop a xs) ++ take (b - y) (drop y xs) ≡ take (b - a) (drop a xs)
  slice-slice a y b xs h k =
      ap (λ (l : List A). take (y - a) (drop a xs) ++ take (b - y) l)
        (ap (λ k. drop k xs) (omega arith) ∙ sym (drop-drop (y - a) a xs))
      ∙ take-take_add (y - a) (b - y) (drop a xs)
      ∙ ap (λ k. take k (drop a xs)) (omega arith)

-- Adjacent slices, put together, are what they cut.
pub concat-slices :
    (ranges : List (ℕ × ℕ)) (a b : ℕ) (messages : List FdbMutation)
    → IsCut a ranges b
    → concat (map (slice_of messages) ranges) ≡ take (b - a) (drop a messages)
unfolding slice_of
concat-slices [] a b messages cut = sym (ap (λ k. take k (drop a messages)) (nothing a b cut))
concat-slices ((x, y) ∷ rest) a b messages cut =
    ap (λ (l : List FdbMutation). take (y - x) (drop x messages) ++ l)
      (concat-slices rest y b messages cut.2)
    ∙ ap (λ c. take (y - c) (drop c messages) ++ take (b - y) (drop y messages)) cut.0
    ∙ slice-slice a y b messages (omega (arith, cut.0, cut.1)) (IsCut-le rest y b cut.2)
