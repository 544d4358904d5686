-- ===== src/Bridge/CursorFile/Disk.antt =====
-- The disk under a save of the cursor: what each call of the file system leaves, and what a crash may leave.
use kafka_fdb_streamline.Common.{
  ℕ, Bool, true, false, Option, some, List, [], ◌∷◌, if◌then◌else◌, ◌≡◌, All, ◌⊎◌,
}
use kafka_fdb_streamline.Bridge.CursorFile.Load.{Payload}
use kafka_fdb_streamline.Bridge.CursorFile.{
  FileCall, open_tmp, flush_tmp, fsync_tmp, close_tmp, replace, open_dir, fsync_dir, close_dir,
  dump, Answer, done, failed, FileTrace, is_unsupported,
}

-- What a file holds: not all of a document, or a whole one.
pub data Contents : Type 0 where
  partial : Contents
  whole : Payload → Contents

-- The temporary file with how far it is written, what the cursor file shows (`none` where it is not there),
-- and each thing that a crash may leave of it.
pub record Disk : Type 0 where
  pub tmp : Contents
  pub flushed : Bool
  pub synced : Bool
  pub visible : Option Contents
  pub survivors : List (Option Contents)

-- The disk before a save, whose cursor file is durable.
abbrev pub settled : Option Contents → Disk
settled old = record {
  tmp = partial;
  flushed = false;
  synced = false;
  visible = old;
  survivors = old ∷ [];
}

-- A temporary file that was not fsynced may be lost in part by a crash, also under its new name.
abbrev pub landed : Disk → Contents
landed d = if d.synced then d.tmp else partial

-- The fsync of the directory leaves the latest rename only.
abbrev pub newest {ℓ} : {A : Type ℓ} → List A → List A
newest [] = []
newest (c ∷ _) = c ∷ []

-- The disk after a call. A failed call on the temporary file leaves it in an unknown state.
abbrev pub after : FileCall → Answer → Disk → Disk
after open_tmp answer d = record d { tmp = partial; flushed = false; synced = false }
after (dump payload) done d = record d { tmp = whole payload; flushed = false; synced = false }
after (dump payload) (failed _) d = record d { tmp = partial; synced = false }
after flush_tmp done d = record d { flushed = true }
after flush_tmp (failed _) d = record d { tmp = partial; synced = false }
after fsync_tmp done d = record d { synced = d.flushed }
after fsync_tmp (failed _) d = record d { synced = false }
after close_tmp answer d = d
after replace done d = record d { visible = some d.tmp; survivors = some (landed d) ∷ d.survivors }
after replace (failed _) d = d
after open_dir answer d = d
after fsync_dir done d = record d { survivors = newest d.survivors }
after fsync_dir (failed _) d = d
after close_dir answer d = d

-- The disk after the calls of a trace.
abbrev pub disk : Option Contents → FileTrace → Disk
disk old [] = settled old
disk old ((call, answer) ∷ trace) = after call answer (disk old trace)

-- Whatever a crash at this moment leaves is the old file or the whole new document.
abbrev pub IsAtomic : Option Contents → Payload → Disk → Type 0
IsAtomic old payload d = All (λ c. (c ≡ old) ⊎ (c ≡ some (whole payload))) d.survivors

-- At every moment of a trace.
abbrev pub Always : Option Contents → Payload → FileTrace → Type 0
Always old payload [] = IsAtomic old payload (settled old)
Always old payload (event ∷ trace) =
    IsAtomic old payload (disk old (event ∷ trace)) × Always old payload trace

-- A call of the trace that failed with the errno.
abbrev pub Fails : ℕ → FileTrace → Type 0
Fails errno [] = ⊥
Fails errno ((call, answer) ∷ trace) = (answer ≡ failed errno) ⊎ Fails errno trace

-- The fsync of the directory was refused as one that the file system does not support.
abbrev pub Tolerated : FileTrace → Type 0
Tolerated trace = (errno : ℕ) × (is_unsupported errno ≡ true) × Fails errno trace

-- The file shows the new document, and a crash leaves it.
abbrev pub IsKept : Option Contents → Payload → FileTrace → Type 0
IsKept old p trace =
    ((disk old trace).visible ≡ some (whole p))
    × (((disk old trace).survivors ≡ some (whole p) ∷ []) ⊎ Tolerated trace)
