-- ===== src/Bridge/CursorFile/Load.antt =====
-- bridge/pipeline.py, the cursor file: the document that a save writes, and _load_cursor_from_file. A file
-- holds the document that `json.load` reads from it, so the text between `json.dump` and `json.load` is
-- left out; paths are left out but for an empty one.
use kafka_fdb_streamline.Common.{
  Bool, true, false, not, Option, none, some, [], ◌∷◌, is_empty, if◌then◌else◌, ℤ,
}
use kafka_fdb_streamline.Common.Dict.{Dict, lookup}
use kafka_fdb_streamline.Common.Texts.{text_eq}
use kafka_fdb_streamline.Errors.{value_error, os_error}
use kafka_fdb_streamline.Exec.{Result, ok, err}
use kafka_fdb_streamline.Exec.Outcome.{◌>>=◌, ◌>>◌, refuse_if}
use kafka_fdb_streamline.Serialization.Model.{Text, Value}
use kafka_fdb_streamline.World.{Cursor}

-- What `json.dump` writes. `stream_name` is left out of the document where it is none.
pub record Payload : Type 0 where
  pub stream_id : ℤ
  pub last_consumed_version : ℤ
  pub stream_name : Option Text

-- `if not path`
unfoldable pub no_path : Option Text → Bool
no_path none = true
no_path (some path) = is_empty path

-- An int, and no bool.
unfoldable pub coordinate : Option Value → Result ℤ
coordinate (some (Value.int z)) = ok z
coordinate (some (Value.subclass z)) = ok z
coordinate _ = err value_error

-- The checks of a position and the payload; `position` is None, or has the two coordinates as attributes
-- or as the keys of a dict.
unfoldable pub payload_of : Option Cursor → Option Text → Result Payload
payload_of none stream_name = err value_error
payload_of (some position) stream_name = do
  stream_id ← coordinate position.stream_id
  version ← coordinate position.last_consumed_version
  ok (record { stream_id = stream_id; last_consumed_version = version; stream_name = stream_name })

-- What `json.load` gives: an object by its entries, another value, or a JSONDecodeError.
pub data Document : Type 0 where
  object : Dict Value → Document
  not_object broken : Document

abbrev pub name_entry : Option Text → Dict Value
name_entry none = []
name_entry (some name) = ("stream_name", Value.str name) ∷ []

abbrev pub entries_of : Payload → Dict Value
entries_of p =
    ("stream_id", Value.int p.stream_id)
    ∷ ("last_consumed_version", Value.int p.last_consumed_version)
    ∷ name_entry p.stream_name

-- The document of a payload.
unfoldable pub document : Payload → Document
document p = object (entries_of p)

-- The file as a load finds it. Opening or reading it may raise an OSError.
pub data Found : Type 0 where
  absent unreadable : Found
  file : Document → Found

-- `data.get("stream_name") != stream_name`, for an expected name.
unfoldable pub names : Option Value → Text → Bool
names (some (Value.str given)) name = text_eq given name
names _ name = false

unfoldable pub is_foreign : Option Text → Dict Value → Bool
is_foreign none entries = false
is_foreign (some name) entries = not (names (lookup "stream_name" entries) name)

-- `_PersistedCursor`
unfoldable pub persisted_cursor : ℤ → ℤ → Cursor
persisted_cursor stream_id version = record {
  stream_id = some (Value.int stream_id);
  last_consumed_version = some (Value.int version);
}

-- `fdb.CdcCursor` is `native`, where the binding has it.
unfoldable pub make_cursor : Option (ℤ → ℤ → Result Cursor) → ℤ → ℤ → Result Cursor
make_cursor none stream_id version = ok (persisted_cursor stream_id version)
make_cursor (some native) stream_id version = native stream_id version

unfoldable pub load_document :
    Option (ℤ → ℤ → Result Cursor) → Document → Option Text → Result (Option Cursor)
load_document native broken stream_name = err value_error
load_document native not_object stream_name = err value_error
load_document native (object entries) stream_name = do
  stream_id ← coordinate (lookup "stream_id" entries)
  version ← coordinate (lookup "last_consumed_version" entries)
  refuse_if (is_foreign stream_name entries) value_error
  cursor ← make_cursor native stream_id version
  ok (some cursor)

-- `_load_cursor_from_file`
unfoldable pub load_cursor_from_file :
    Option (ℤ → ℤ → Result Cursor) → Option Text → Found → Option Text → Result (Option Cursor)
load_cursor_from_file native path absent stream_name = ok none
load_cursor_from_file native path unreadable stream_name =
    if no_path path then ok none else err os_error
load_cursor_from_file native path (file contents) stream_name =
    if no_path path then ok none else load_document native contents stream_name
