-- ===== src/Bridge/CursorFile/RoundTrip.antt =====
-- A load of the document that a save wrote.
use kafka_fdb_streamline.Common.{
  Bool, true, false, not, Option, none, some, [], ◌∷◌, ◌≡◌, refl, subst, sym, ap, Bool-cases, inl,
  inr, if◌then◌else◌, arith, ◌≢◌, ◌∙◌,
}
use mathlib.Core.Option.{map}
use kafka_fdb_streamline.Common.Dict.{lookup}
use kafka_fdb_streamline.Common.Texts.{text_eq}
use kafka_fdb_streamline.Errors.{value_error}
use kafka_fdb_streamline.Exec.{ok, err}
use kafka_fdb_streamline.Exec.Outcome.{bind_ok, ok_injective}
use kafka_fdb_streamline.Serialization.Model.{Text, Value}
use kafka_fdb_streamline.World.{Cursor}
use kafka_fdb_streamline.Bridge.CursorFile.Load.{
  Payload, entries_of, name_entry, no_path, coordinate, payload_of, document, file, names,
  is_foreign, persisted_cursor, make_cursor, load_document, load_cursor_from_file,
}

text_eq_refl : (text : Text) → text_eq text text ≡ true
unfolding text_eq
text_eq_refl [] = refl
text_eq_refl (c ∷ text) = let rest = text_eq_refl text in ground arith

text_eq-true : (a b : Text) → text_eq a b ≡ true → a ≡ b
unfolding text_eq
text_eq-true [] [] h = refl
text_eq-true [] (y ∷ b) h = cc
text_eq-true (x ∷ a) [] h = cc
text_eq-true (x ∷ a) (y ∷ b) h =
    let same : a ≡ b = text_eq-true a b (ground arith) in let head : x ≡ y = ground arith in cc

lookup-name_entry :
    (name : Option Text) → lookup "stream_name" (name_entry name) ≡ map Value.str name
unfolding lookup
lookup-name_entry none = refl
lookup-name_entry (some name) = refl

lookup-name : (p : Payload) → lookup "stream_name" (entries_of p) ≡ map Value.str p.stream_name
unfolding lookup
lookup-name p = lookup-name_entry p.stream_name

not_foreign :
    (p : Payload) (stream_name : Option Text)
    → p.stream_name ≡ stream_name
    → is_foreign stream_name (entries_of p) ≡ false
unfolding is_foreign names
not_foreign p none same = refl
not_foreign p (some name) same =
    subst (λ given. not (names given name) ≡ false) (sym (lookup-name p ∙ ap (map Value.str) same))
      (rw (text_eq_refl name))

foreign :
    (p : Payload) (name : Text) (own : Option Text)
    → p.stream_name ≡ own
    → own ≢ some name
    → is_foreign (some name) (entries_of p) ≡ true
unfolding is_foreign names
foreign p name none same other_name =
    subst (λ given. not (names given name) ≡ true) (sym (lookup-name p ∙ ap (map Value.str) same))
      refl
foreign p name (some own) same other_name = elim (Bool-cases (text_eq own name)) [
  | inl equal ↦ absurd (other_name (ap some (text_eq-true own name equal)))
  | inr different ↦
      subst (λ given. not (names given name) ≡ true) (sym (lookup-name p ∙ ap (map Value.str) same))
        (rw different)
]

-- A load of the document of a payload comes to the test of its name.
load-document :
    (path : Text) (p : Payload) (stream_name : Option Text) (b : Bool)
    → no_path (some path) ≡ false
    → is_foreign stream_name (entries_of p) ≡ b
    → load_cursor_from_file none (some path) (file (document p)) stream_name ≡ (
        if b
        then err value_error
        else ok (some (persisted_cursor p.stream_id p.last_consumed_version)))
unfolding load_cursor_from_file load_document document make_cursor coordinate lookup
load-document path p stream_name true given tested = rw (given, tested)
load-document path p stream_name false given tested = rw (given, tested)

payload_of-name :
    (position : Cursor) (stream_name : Option Text) (p : Payload)
    → payload_of (some position) stream_name ≡ ok p
    → (coordinate position.stream_id ≡ ok p.stream_id)
      × (coordinate position.last_consumed_version ≡ ok p.last_consumed_version)
      × (p.stream_name ≡ stream_name)
unfolding payload_of
payload_of-name position stream_name p checked =
    let (id, has_id, h1) = bind_ok (coordinate position.stream_id) _ checked in
    let (version, has_version, same) = bind_ok (coordinate position.last_consumed_version) _ h1 in
    subst
      (λ (x : Payload).
        (coordinate position.stream_id ≡ ok x.stream_id)
        × (coordinate position.last_consumed_version ≡ ok x.last_consumed_version)
        × (x.stream_name ≡ stream_name))
      (ok_injective same) (has_id, has_version, refl)

-- A position that a save accepted is what a load for the same stream name gives back from the document that
-- the save wrote, where the binding has no cursor class of its own: a cursor with the same two integers.
pub load-saved :
    (path : Text) (position : Cursor) (stream_name : Option Text) (p : Payload)
    → no_path (some path) ≡ false
    → payload_of (some position) stream_name ≡ ok p
    → (cursor : Cursor) × (load_cursor_from_file none (some path) (file (document p)) stream_name
        ≡ ok (some cursor))
      × (coordinate cursor.stream_id ≡ coordinate position.stream_id)
      × (coordinate cursor.last_consumed_version ≡ coordinate position.last_consumed_version)
unfolding persisted_cursor coordinate
load-saved path position stream_name p given saved =
    let checked = payload_of-name position stream_name p saved in
    (
      persisted_cursor p.stream_id p.last_consumed_version,
      load-document path p stream_name false given (not_foreign p stream_name checked.2),
      sym checked.0,
      sym checked.1,
    )

-- A load for a stream name refuses, with a ValueError, every document that a save wrote for another name or
-- for none.
pub load-foreign :
    (path : Text) (position : Option Cursor) (own : Option Text) (p : Payload) (name : Text)
    → no_path (some path) ≡ false
    → payload_of position own ≡ ok p
    → own ≢ some name
    → load_cursor_from_file none (some path) (file (document p)) (some name) ≡ err value_error
unfolding payload_of
load-foreign path none own p name given saved other_name = cc
load-foreign path (some position) own p name given saved other_name =
    load-document path p (some name) true given
      (foreign p name own (payload_of-name position own p saved).2 other_name)
