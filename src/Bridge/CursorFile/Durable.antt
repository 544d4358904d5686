-- ===== src/Bridge/CursorFile/Durable.antt =====
-- A save of the cursor is atomic, and durable where it returns.
use kafka_fdb_streamline.Common.{
  ⊤, ℕ, true, false, Option, some, List, [], ◌∷◌, if◌then◌else◌, ◌≡◌, refl, All, ◌⊎◌, inl, inr,
  arith, subst, sym, ap, ◌∙◌,
}
use kafka_fdb_streamline.Exec.{Result, ok, err}
use kafka_fdb_streamline.Serialization.Model.{Text}
use kafka_fdb_streamline.World.{Cursor}
use kafka_fdb_streamline.Bridge.CursorFile.Load.{Payload, no_path, payload_of}
use kafka_fdb_streamline.Bridge.CursorFile.{
  FileCall, open_tmp, flush_tmp, fsync_tmp, close_tmp, replace, open_dir, fsync_dir, close_dir,
  dump, Answer, done, failed, FileTrace, FileEnv, ask, next, hide, last, write_opened, sync_opened,
  write_tmp, sync_dir, tolerate, write_file, save_cursor_to_file,
}
use kafka_fdb_streamline.Bridge.CursorFile.Disk.{
  Contents, whole, Disk, after, disk, IsAtomic, Always, Fails, IsKept,
}

module _ (env : FileEnv) (old : Option Contents) (p : Payload) where
  abbrev EachFine : List (Option Contents) → Type 0
  EachFine = All (λ c. (c ≡ old) ⊎ (c ≡ some (whole p)))

  old-EachFine : {left : List (Option Contents)} → left ≡ old ∷ [] → EachFine left
  old-EachFine same = subst EachFine (sym same) (inl refl, tt)

  both-EachFine : {left : List (Option Contents)} → left ≡ some (whole p) ∷ old ∷ [] → EachFine left
  both-EachFine same = subst EachFine (sym same) (inr refl, (inl refl, tt))

  new-EachFine : {left : List (Option Contents)} → left ≡ some (whole p) ∷ [] → EachFine left
  new-EachFine same = subst EachFine (sym same) (inr refl, tt)

  now : (t : FileTrace) → Always old p t → IsAtomic old p (disk old t)
  now [] always = always
  now (event ∷ t) always = always.0

  -- Before the rename: a crash leaves the old file, and after a return the temporary file is as `Q` says.
  record Stage (Q : Disk → Type 0) (r : Answer × FileTrace) : Type 0 where
    always : Always old p r.1
    untouched : (disk old r.1).survivors ≡ old ∷ []
    reached : r.0 ≡ done → Q (disk old r.1)

  -- A call that leaves the cursor file alone.
  abbrev LeavesAlone : FileCall → Type 0
  LeavesAlone call = (a : Answer) (d : Disk) → (after call a d).survivors ≡ d.survivors

  dump-alone : LeavesAlone (dump p)
  dump-alone done d = refl
  dump-alone (failed _) d = refl

  flush-alone : LeavesAlone flush_tmp
  flush-alone done d = refl
  flush-alone (failed _) d = refl

  fsync-alone : LeavesAlone fsync_tmp
  fsync-alone done d = refl
  fsync-alone (failed _) d = refl

  ask-Stage :
      {Q : Disk → Type 0} (call : FileCall) (t : FileTrace)
      → LeavesAlone call
      → Always old p t
      → (disk old t).survivors ≡ old ∷ []
      → Q (after call done (disk old t))
      → Stage Q (ask env call t)
  unfolding ask
  ask-Stage {Q} call t alone always untouched reached =
      let same = alone (env t call) (disk old t) ∙ untouched in
      record {
        always = (old-EachFine same, always);
        untouched = same;
        reached = λ e. subst (λ a. Q (after call a (disk old t))) (sym e) reached;
      }

  next-Stage :
      {Q R : Disk → Type 0} (call : FileCall) (r : Answer × FileTrace)
      → LeavesAlone call
      → ((d : Disk) → Q d → R (after call done d))
      → Stage Q r
      → Stage R (next env call r)
  unfolding next
  next-Stage call (done, t) alone step h =
      ask-Stage call t alone h.always h.untouched (step _ (h.reached refl))
  next-Stage call (failed errno, t) alone step h = record {
    always = h.always;
    untouched = h.untouched;
    reached = λ e. cc;
  }

  hide-Stage :
      {Q : Disk → Type 0} (first : Answer) (r : Answer × FileTrace)
      → Stage (λ d. first ≡ done → Q d) r
      → Stage Q (hide env first r)
  unfolding hide
  hide-Stage first (done, t) h = record {
    always = h.always;
    untouched = h.untouched;
    reached = h.reached refl;
  }
  hide-Stage first (failed errno, t) h = record {
    always = h.always;
    untouched = h.untouched;
    reached = λ e. cc;
  }

  -- Closing changes nothing on the disk.
  close-Stage :
      {Q : Disk → Type 0} (r : Answer × FileTrace) → Stage Q r → Stage Q (last env close_tmp r)
  unfolding last
  close-Stage (first, t) h =
      hide-Stage first (ask env close_tmp t)
        (ask-Stage close_tmp t (λ _ _. refl) h.always h.untouched h.reached)

  Written : Disk → Type 0
  Written d = (d.tmp ≡ whole p) × (d.synced ≡ true)

  write_opened-Stage :
      (r : Answer × FileTrace) → Stage (λ _. Unit) r → Stage Written (write_opened env p r)
  unfolding write_opened Written
  write_opened-Stage (done, t) h = close-Stage _ (
      next-Stage {Q = λ d. (d.tmp ≡ whole p) × (d.flushed ≡ true)} fsync_tmp _ fsync-alone
        (λ d q. (q.0, q.1))
        (next-Stage {Q = λ d. d.tmp ≡ whole p} flush_tmp _ flush-alone (λ d q. (q, refl))
          (next-Stage (dump p) (done, t) dump-alone (λ d _. refl) h)))
  write_opened-Stage (failed errno, t) h = record {
    always = h.always;
    untouched = h.untouched;
    reached = λ e. cc;
  }

  write_tmp-Stage : Stage Written (write_tmp env p [])
  unfolding write_tmp
  write_tmp-Stage =
      write_opened-Stage _ (ask-Stage open_tmp [] (λ _ _. refl) (inl refl, tt) refl tt)

  -- After the rename, if that was done.
  record Renamed (r : Answer × FileTrace) : Type 0 where
    always : Always old p r.1
    shown :
        r.0 ≡ done
        → ((disk old r.1).visible ≡ some (whole p))
          × ((disk old r.1).survivors ≡ some (whole p) ∷ old ∷ [])

  renamed : (t : FileTrace) (a : Answer) → Stage Written (done, t) → Renamed (a, (replace, a) ∷ t)
  unfolding Written
  renamed t done h =
      let (whole_tmp, synced) = h.reached refl in
      let both : (disk old ((replace, done) ∷ t)).survivors ≡ some (whole p) ∷ old ∷ [] =
        rw (synced, whole_tmp, h.untouched) in
      record { always = (both-EachFine both, h.always); shown = λ e. (ap some whole_tmp, both) }
  renamed t (failed errno) h = record {
    always = (old-EachFine h.untouched, h.always);
    shown = λ e. cc;
  }

  next-Renamed : (r : Answer × FileTrace) → Stage Written r → Renamed (next env replace r)
  unfolding next ask
  next-Renamed (done, t) h = renamed t (env t replace) h
  next-Renamed (failed errno, t) h = record { always = h.always; shown = λ e. cc }

  -- While the directory is fsynced.
  record Syncing (r : Answer × FileTrace) : Type 0 where
    always : Always old p r.1
    shown : (disk old r.1).visible ≡ some (whole p)
    synced : r.0 ≡ done → (disk old r.1).survivors ≡ some (whole p) ∷ []
    refused : (errno : ℕ) → r.0 ≡ failed errno → Fails errno r.1

  fsync_dir-Syncing :
      (t : FileTrace) (a : Answer)
      → Always old p t
      → (disk old t).visible ≡ some (whole p)
      → (disk old t).survivors ≡ some (whole p) ∷ old ∷ []
      → Syncing (a, (fsync_dir, a) ∷ t)
  fsync_dir-Syncing t done always shown both =
      let one : (disk old ((fsync_dir, done) ∷ t)).survivors ≡ some (whole p) ∷ [] = rw both in
      record {
        always = (new-EachFine one, always);
        shown = shown;
        synced = λ _. one;
        refused = λ errno e. cc;
      }
  fsync_dir-Syncing t (failed n) always shown both = record {
    always = (both-EachFine both, always);
    shown = shown;
    synced = λ e. cc;
    refused = λ errno e. inl e;
  }

  close-Syncing :
      (first a : Answer) (t : FileTrace)
      → Syncing (first, t)
      → Syncing (hide env first (a, (close_dir, a) ∷ t))
  unfolding hide
  close-Syncing first done t h = record {
    always = (now t h.always, h.always);
    shown = h.shown;
    synced = h.synced;
    refused = λ errno e. inr (h.refused errno e);
  }
  close-Syncing first (failed n) t h = record {
    always = (now t h.always, h.always);
    shown = h.shown;
    synced = λ e. cc;
    refused = λ errno e. inl e;
  }

  sync_opened-Syncing :
      (t : FileTrace) (a : Answer)
      → Renamed (done, t)
      → Syncing (sync_opened env (a, (open_dir, a) ∷ t))
  unfolding sync_opened last next ask
  sync_opened-Syncing t done h =
      let (shown, both) = h.shown refl in
      let opened = (open_dir, done) ∷ t in
      let synced = env opened fsync_dir in
      let trace = (fsync_dir, synced) ∷ opened in
      close-Syncing synced (env trace close_dir) trace
        (fsync_dir-Syncing opened synced (now t h.always, h.always) shown both)
  sync_opened-Syncing t (failed n) h = record {
    always = (now t h.always, h.always);
    shown = (h.shown refl).0;
    synced = λ e. cc;
    refused = λ errno e. inl e;
  }

  -- The end of a save that had a payload to write.
  record Saved (r : Result ⊤ × FileTrace) : Type 0 where
    always : Always old p r.1
    kept : r.0 ≡ ok tt → IsKept old p r.1

  tolerate-Saved : (r : Answer × FileTrace) → Syncing r → Saved (tolerate env r)
  unfolding tolerate
  tolerate-Saved (done, t) h = record {
    always = h.always;
    kept = λ e. (h.shown, inl (h.synced refl));
  }
  tolerate-Saved (failed errno, t) h = record {
    always = h.always;
    kept = λ e. (h.shown, inr (errno, ground arith, h.refused errno refl));
  }

  sync_dir-Saved : (r : Answer × FileTrace) → Renamed r → Saved (sync_dir env r)
  unfolding sync_dir ask
  sync_dir-Saved (done, t) h = tolerate-Saved _ (sync_opened-Syncing t (env t open_dir) h)
  sync_dir-Saved (failed errno, t) h = record { always = h.always; kept = λ e. cc }

  write_file-Saved : Saved (write_file env p [])
  unfolding write_file
  write_file-Saved = sync_dir-Saved _ (next-Renamed _ write_tmp-Stage)

save-write_file :
    (env : FileEnv) (path : Text) (position : Option Cursor) (stream_name : Option Text)
    (p : Payload)
    → no_path (some path) ≡ false
    → payload_of position stream_name ≡ ok p
    → save_cursor_to_file env (some path) position stream_name [] ≡ write_file env p []
unfolding save_cursor_to_file
save-write_file env path position stream_name p given checked =
    subst
      (λ b.
        (if b then (ok tt, []) else elim (payload_of position stream_name) [
          | ok payload ↦ write_file env payload []
          | err e ↦ (err e, [])
        ])
        ≡ write_file env p [])
      (sym given)
      (ap
        (λ (r : Result Payload). elim r [
          | ok payload ↦ write_file env payload []
          | err e ↦ (err e, [])
        ])
        checked)

-- A save of a position that passes its checks, whatever the file system answers: at every moment of it a
-- crash leaves the old file or the whole new document, never a part of one.
pub save-Always :
    (env : FileEnv) (old : Option Contents) (path : Text) (position : Option Cursor)
    (stream_name : Option Text) (p : Payload)
    → no_path (some path) ≡ false
    → payload_of position stream_name ≡ ok p
    → Always old p (save_cursor_to_file env (some path) position stream_name []).1
save-Always env old path position stream_name p given checked =
    subst (λ (r : Result ⊤ × FileTrace). Always old p r.1)
      (sym (save-write_file env path position stream_name p given checked))
      (write_file-Saved env old p).always

-- After a save that returned, the cursor file holds the new document, and a crash leaves nothing else of
-- it, unless the directory could not be fsynced for a reason that the code tolerates.
pub save-IsKept :
    (env : FileEnv) (old : Option Contents) (path : Text) (position : Option Cursor)
    (stream_name : Option Text) (p : Payload)
    → no_path (some path) ≡ false
    → payload_of position stream_name ≡ ok p
    → (save_cursor_to_file env (some path) position stream_name []).0 ≡ ok tt
    → IsKept old p (save_cursor_to_file env (some path) position stream_name []).1
save-IsKept env old path position stream_name p given checked =
    subst (λ (r : Result ⊤ × FileTrace). r.0 ≡ ok tt → IsKept old p r.1)
      (sym (save-write_file env path position stream_name p given checked))
      (write_file-Saved env old p).kept
