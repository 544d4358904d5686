-- ===== src/Bridge/CursorFile.antt =====
-- bridge/pipeline.py, _save_cursor_to_file. The calls of the file system answer through an environment.
pub mod Load
pub mod Disk
pub mod Durable
pub mod RoundTrip
use kafka_fdb_streamline.Common.{
  ⊤, ℕ, Bool, true, false, ◌||◌, Option, none, some, List, [], ◌∷◌, if◌then◌else◌, ◌==◌,
}
use kafka_fdb_streamline.Errors.{Exn, os_error}
use kafka_fdb_streamline.Exec.{Result, ok, err, Exec, pure, raise, lift, ◌>>=◌, ◌>>◌}
use kafka_fdb_streamline.Serialization.Model.{Text}
use kafka_fdb_streamline.World.{Cursor}
use kafka_fdb_streamline.Bridge.CursorFile.Load.{Payload, no_path, payload_of}

-- The calls of a save, in their order. The temporary file is written, the last three are of the directory.
pub data FileCall : Type 0 where
  open_tmp flush_tmp fsync_tmp close_tmp replace open_dir fsync_dir close_dir : FileCall
  dump : Payload → FileCall

-- A call returned, or raised an OSError with its errno.
pub data Answer : Type 0 where
  done : Answer
  failed : ℕ → Answer

-- The latest call first.
abbrev pub FileTrace : Type 0
FileTrace = List (FileCall × Answer)

abbrev pub FileEnv : Type 0
FileEnv = FileTrace → FileCall → Answer

-- `_DIR_FSYNC_UNSUPPORTED`: EINVAL, ENOTSUP and EOPNOTSUPP, the last two of which are one on Linux.
unfoldable pub is_unsupported : ℕ → Bool
is_unsupported errno = errno == 22 || errno == 95

module _ (env : FileEnv) where
  -- A call and its answer.
  unfoldable pub ask : FileCall → FileTrace → Answer × FileTrace
  ask call trace = let answer = env trace call in (answer, (call, answer) ∷ trace)

  -- A call after one that returned; a call that is not made passes the failure on.
  unfoldable pub next : FileCall → Answer × FileTrace → Answer × FileTrace
  unfolding ask
  next call (done, trace) = ask call trace
  next call (failed errno, trace) = (failed errno, trace)

  -- The answer of `finally`, and of the end of a `with`: its own failure hides the one before.
  unfoldable pub hide : Answer → Answer × FileTrace → Answer × FileTrace
  hide first (done, trace) = (first, trace)
  hide first (failed errno, trace) = (failed errno, trace)

  -- A call that is made either way.
  unfoldable pub last : FileCall → Answer × FileTrace → Answer × FileTrace
  unfolding ask hide
  last call (first, trace) = hide first (ask call trace)

  -- The body of `with open(tmp_path, "w") as f:`, if the file was opened.
  unfoldable pub write_opened : Payload → Answer × FileTrace → Answer × FileTrace
  unfolding next last
  write_opened payload (done, trace) =
      last close_tmp (next fsync_tmp (next flush_tmp (next (dump payload) (done, trace))))
  write_opened payload (failed errno, trace) = (failed errno, trace)

  unfoldable pub write_tmp : Payload → FileTrace → Answer × FileTrace
  unfolding write_opened
  write_tmp payload trace = write_opened payload (ask open_tmp trace)

  -- The fsync of the parent directory, if that was opened.
  unfoldable pub sync_opened : Answer × FileTrace → Answer × FileTrace
  unfolding next last
  sync_opened (done, trace) = last close_dir (next fsync_dir (done, trace))
  sync_opened (failed errno, trace) = (failed errno, trace)

  -- `except OSError as e: if e.errno not in _DIR_FSYNC_UNSUPPORTED: raise`
  unfoldable pub tolerate : Answer × FileTrace → Result ⊤ × FileTrace
  tolerate (done, trace) = (ok tt, trace)
  tolerate (failed errno, trace) = ((if is_unsupported errno then ok tt else err os_error), trace)

  -- What follows the rename, if that was done.
  unfoldable pub sync_dir : Answer × FileTrace → Result ⊤ × FileTrace
  unfolding sync_opened tolerate ask
  sync_dir (done, trace) = tolerate (sync_opened (ask open_dir trace))
  sync_dir (failed errno, trace) = (err os_error, trace)

  -- A write to the temporary file, its rename, and the fsync of the directory.
  unfoldable pub write_file : Payload → FileTrace → Result ⊤ × FileTrace
  unfolding write_tmp next sync_dir
  write_file payload trace = sync_dir (next replace (write_tmp payload trace))

  -- `_save_cursor_to_file`
  unfoldable pub save_cursor_to_file :
      Option Text → Option Cursor → Option Text → FileTrace → Result ⊤ × FileTrace
  save_cursor_to_file path position stream_name trace =
      if no_path path then (ok tt, trace) else elim (payload_of position stream_name) [
        | ok payload ↦ write_file payload trace
        | err e ↦ (err e, trace)
      ]
