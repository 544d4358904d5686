-- ===== src/Common/Dict.antt =====
-- Python dicts with text keys, as association lists in which the first entry of a key counts.
use Prim.Native.String.{String}
use text.Mathlib.Text.{◌==◌}
use text.Mathlib.TextEquality.{eq_iff}
use mathlib.Core.Path.{◌≡◌, refl, ap, ◌∙◌}
use mathlib.Core.Bool.{Bool, false, ◌||◌}
use mathlib.Core.Option.{Option, none, some}
use mathlib.Core.List.{List, [], ◌∷◌}
use native.Mathlib.Omega.{arith}
use kafka_fdb_streamline.Common.Tests.{if◌then◌else◌}

abbrev pub same_text : String → String → Bool
same_text a b = a == b

-- `key in keys`
unfoldable pub has_key : String → List String → Bool
has_key key [] = false
has_key key (k ∷ keys) = key == k || has_key key keys

abbrev pub Dict {ℓ} : Type ℓ → Type ℓ
Dict V = List (String × V)

module _ {ℓ} {V : Type ℓ} where
  -- `d.get(key)`
  unfoldable pub lookup : String → List (String × V) → Option V
  lookup key [] = none
  lookup key ((k, v) ∷ d) = if k == key then some v else lookup key d

  -- `d[key] = value`
  unfoldable pub insert : String → V → List (String × V) → List (String × V)
  insert key value [] = (key, value) ∷ []
  insert key value ((k, v) ∷ d) = if k == key then (key, value) ∷ d else (k, v) ∷ insert key value d

  -- `d.update(other)`
  unfoldable pub update : List (String × V) → List (String × V) → List (String × V)
  update [] d = d
  update ((k, v) ∷ other) d = update other (insert k v d)

  pub lookup-insert :
      (key k : String) (value : V) (d : List (String × V))
      → lookup key (insert k value d) ≡ (if k == key then some value else lookup key d)
  unfolding lookup insert
  lookup-insert key k value [] = refl
  lookup-insert key k value ((j, w) ∷ d) =
      ground (arith, eq_iff k key, eq_iff j k, eq_iff j key, lookup-insert key k value d)

  -- What an update leaves to the old entries and what it brings.
  abbrev pub last_of : String → Option V → List (String × V) → Option V
  last_of key old [] = old
  last_of key old ((k, v) ∷ other) = last_of key (if k == key then some v else old) other

  pub lookup-update :
      (key : String) (other d : List (String × V))
      → lookup key (update other d) ≡ last_of key (lookup key d) other
  unfolding update
  lookup-update key [] d = refl
  lookup-update key ((k, v) ∷ other) d =
      lookup-update key other (insert k v d)
      ∙ ap (λ old. last_of key old other) (lookup-insert key k v d)
