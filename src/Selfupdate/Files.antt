-- ===== src/Selfupdate/Files.antt =====
-- The snapshot of the managed files and its restoration (transaction.go).
use nexa_panel.Prelude.{
  ℕ, ◌+◌, ◌%◌, Bool, true, false, ◌==◌, Option, none, some, List, [], ◌∷◌, Text, Bytes, codes,
  lookup, insert, delete, is_empty, if◌then◌else◌,
}
use nexa_panel.Selfupdate.Host.{Host, Node, regular, link, other, SnapshotEntry, Operator}
use nexa_panel.Selfupdate.Io.{
  Io, pure, raise, gets, or_raise, act, step, raise_if, when, ignore, kept_of, change_kept, ◌>>=◌,
  ◌>>◌,
}

-- `copyRegularFile`: what is written beside the destination takes its place in one rename, and the
-- directory is flushed after it.
unfoldable pub copy_regular_file : Option Bytes → (Bytes → Host → Host) → Io (Unit {0})
copy_regular_file source put = do
  contents ← or_raise source (codes "no such file")
  step (codes "stage the copy")
  act (codes "rename the copy") (put contents)
  step (codes "flush the directory")

-- Backups stand in the directory of the transaction under their index.
unfoldable pub backup_at : ℕ → List (ℕ × Bytes) → Option Bytes
backup_at i [] = none
backup_at i ((j, contents) ∷ rest) = if j == i then some contents else backup_at i rest

abbrev pub put_backup : Text → ℕ → Bytes → Host → Host
put_backup id i contents = change_kept id (λ k. record k { backups = (i, contents) ∷ k.backups })

abbrev pub put_manifest : Text → List SnapshotEntry → Host → Host
put_manifest id entries = change_kept id (λ k. record k { manifest = some entries })

abbrev pub put_file : Text → Node → Host → Host
put_file path node h = record h { files = insert path node h.files }

abbrev pub remove_file : Text → Host → Host
remove_file path h = record h { files = delete path h.files }

abbrev pub absent_entry : Text → SnapshotEntry
absent_entry path = record {
  path = path;
  backup_name = 0;
  mode = 0;
  uid = 0;
  gid = 0;
  link_target = [];
  existed = false;
}

-- One turn of the loop of `createHostSnapshot`, on what Lstat found.
unfoldable pub capture : Text → ℕ → Text → Option Node → Io SnapshotEntry
unfolding copy_regular_file
capture id index path none = pure (absent_entry path)
capture id index path (some (regular contents mode uid gid)) = do
  copy_regular_file (some contents) (put_backup id index)
  pure (record (absent_entry path) {
    backup_name = index;
    mode = mode;
    uid = uid;
    gid = gid;
    existed = true;
  })
capture id index path (some (link target uid gid)) = do
  step (codes "snapshot symlink")
  pure (record (absent_entry path) { uid = uid; gid = gid; link_target = target; existed = true })
capture id index path (some other) = raise (codes "refuse to snapshot non-regular managed path")

unfoldable pub capture_all : Text → ℕ → List Text → Io (List SnapshotEntry)
capture_all id index [] = pure []
capture_all id index (path ∷ paths) = do
  step (codes "snapshot")
  entry ← capture id index path (← gets (λ h. lookup path h.files))
  entries ← capture_all id (index + 1) paths
  pure (entry ∷ entries)

-- `filepath.IsAbs`
abbrev pub is_abs : Text → Bool
is_abs [] = false
is_abs (c ∷ _) = c == 47

-- `mode.Perm()`
abbrev pub perm : ℕ → ℕ
perm mode = mode % 512

-- `Chown` on the restored path
unfoldable pub own_node : SnapshotEntry → Option Node → Host → Host
own_node entry (some (regular bytes mode _ _)) h =
    put_file entry.path (regular bytes mode entry.uid entry.gid) h
own_node entry (some (link target _ _)) h = put_file entry.path (link target entry.uid entry.gid) h
own_node entry (some other) h = h
own_node entry none h = h

abbrev pub own : SnapshotEntry → Host → Host
own entry h = own_node entry (lookup entry.path h.files) h

module _ (o : Operator) where
  unfoldable pub create_host_snapshot : Text → Io Text
  create_host_snapshot id = do
    step (codes "create packaging snapshot")
    entries ← capture_all id 0 o.managed_paths
    step (codes "write packaging snapshot manifest")
    act (codes "write packaging snapshot manifest") (put_manifest id entries)
    step (codes "flush packaging snapshot directory")
    pure id

  -- `os.Chown`, whose error counts only for root
  unfoldable pub chown : Text → (Host → Host) → Io (Unit {0})
  chown e f = if o.is_root then act e f else ignore (act e f)

  unfoldable pub put_back : Text → SnapshotEntry → Io (Unit {0})
  put_back directory entry =
      if is_empty entry.link_target
      then (do
        contents ← gets (λ h. backup_at entry.backup_name (kept_of directory h).backups)
        copy_regular_file contents
            (λ bytes. put_file entry.path (regular bytes (perm entry.mode) 0 0))
        chown (codes "restore ownership") (own entry))
      else (do
        act (codes "restore symlink") (put_file entry.path (link entry.link_target 0 0))
        chown (codes "restore ownership") (own entry))

  unfoldable pub restore_entry : Text → SnapshotEntry → Io (Unit {0})
  restore_entry directory entry = do
    raise_if (if is_abs entry.path then false else true)
        (codes "snapshot contains non-absolute path")
    act (codes "clear managed path") (remove_file entry.path)
    when entry.existed (step (codes "restore parent") >> put_back directory entry)

  unfoldable pub restore_entries : Text → List SnapshotEntry → Io (Unit {0})
  restore_entries directory [] = pure tt
  restore_entries directory (entry ∷ entries) =
      restore_entry directory entry >> restore_entries directory entries

  unfoldable pub restore_host_snapshot : Text → Io (Unit {0})
  restore_host_snapshot directory = if is_empty directory then pure tt else (do
    step (codes "read packaging snapshot")
    manifest ← gets (λ h. (kept_of directory h).manifest)
    entries ← or_raise manifest (codes "read packaging snapshot")
    restore_entries directory entries)
