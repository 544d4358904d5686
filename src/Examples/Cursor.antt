-- ===== src/Examples/Cursor.antt =====
-- Runs of the cursor file's load and save at concrete files.
use kafka_fdb_streamline.Common.{true, false, Option, none, some, [], pos, ◌≡◌, ◌≢◌, refl, ap}
use mathlib.Core.Bool.{true≢false}
use kafka_fdb_streamline.Common.Texts.{codes, text_eq}
use kafka_fdb_streamline.Errors.{value_error}
use kafka_fdb_streamline.Exec.{ok, err}
use kafka_fdb_streamline.Serialization.Model.{Text, Value}
use kafka_fdb_streamline.World.{Cursor}
use kafka_fdb_streamline.Bridge.CursorFile
use kafka_fdb_streamline.Bridge.CursorFile.{FileTrace, FileCall, Answer, done, save_cursor_to_file}
use kafka_fdb_streamline.Bridge.CursorFile.Load.{
  Payload, no_path, coordinate, payload_of, document, file, load_cursor_from_file,
}
use kafka_fdb_streamline.Bridge.CursorFile.RoundTrip.{load-saved, load-foreign}
use kafka_fdb_streamline.Bridge.CursorFile.Disk.{Always, IsKept}
use kafka_fdb_streamline.Bridge.CursorFile.Durable.{save-Always, save-IsKept}

abbrev position : Cursor
position = record {
  stream_id = some (Value.int (pos 4));
  last_consumed_version = some (Value.subclass (pos 9));
}

abbrev payload : Payload
payload = record {
  stream_id = pos 4;
  last_consumed_version = pos 9;
  stream_name = some (codes "orders");
}

payload_made : payload_of (some position) (some (codes "orders")) ≡ ok payload
unfolding payload_of coordinate
payload_made = refl

path_given : no_path (some (codes "cursor.json")) ≡ false
unfolding no_path
path_given = refl

load-saved_example :
    (cursor : Cursor) × (load_cursor_from_file none
        (some (codes "cursor.json"))
        (file (document payload))
        (some (codes "orders"))
      ≡ ok (some cursor))
    × (coordinate cursor.stream_id ≡ coordinate position.stream_id)
    × (coordinate cursor.last_consumed_version ≡ coordinate position.last_consumed_version)
load-saved_example =
    load-saved (codes "cursor.json") position (some (codes "orders")) payload path_given
      payload_made

other_name : Option.some (codes "orders") ≢ some (codes "bills")
unfolding text_eq
other_name = λ same. true≢false (
    ap (λ (o : Option Text). elim o [ none ↦ true | some name ↦ text_eq name (codes "orders") ])
      same)

load-foreign_example :
    load_cursor_from_file none
      (some (codes "cursor.json"))
      (file (document payload))
      (some (codes "bills"))
    ≡ err value_error
load-foreign_example =
    load-foreign (codes "cursor.json") (some position) (some (codes "orders")) payload
      (codes "bills") path_given payload_made other_name

-- A file system on which every call returns.
abbrev all_done : FileTrace → FileCall → Answer
all_done _ _ = done

save-Always_example :
    Always none payload
      (save_cursor_to_file all_done
        (some (codes "cursor.json"))
        (some position)
        (some (codes "orders"))
        []).1
save-Always_example =
    save-Always all_done none (codes "cursor.json") (some position) (some (codes "orders")) payload
      path_given payload_made

save_returned :
    (save_cursor_to_file all_done
      (some (codes "cursor.json"))
      (some position)
      (some (codes "orders"))
      []).0
    ≡ ok tt
unfolding save_cursor_to_file no_path payload_of coordinate CursorFile.write_file CursorFile.hide
save_returned = refl

save-IsKept_example :
    IsKept none payload
      (save_cursor_to_file all_done
        (some (codes "cursor.json"))
        (some position)
        (some (codes "orders"))
        []).1
save-IsKept_example =
    save-IsKept all_done none (codes "cursor.json") (some position) (some (codes "orders")) payload
      path_given payload_made save_returned
