-- ===== src/Selfupdate/Database.antt =====
-- The copy of the control database that a transaction keeps, and its restoration (transaction.go).
use nexa_panel.Prelude.{
  ℕ, Bool, true, false, not, ◌==◌, Option, none, some, Text, Bytes, codes, is_empty, if◌then◌else◌,
}
use nexa_panel.Selfupdate.Host.{
  Host, Node, regular, link, other, Control, ControlDatabaseSnapshot, no_database_snapshot,
  Operator,
}
use nexa_panel.Selfupdate.Io.{
  Io, pure, raise, gets, act, step, raise_if, ignore, rescue, kept_of, change_kept, ◌>>=◌, ◌>>◌,
}
use nexa_panel.Selfupdate.Files.{copy_regular_file, perm}

abbrev pub put_control : (Control → Control) → Host → Host
put_control f h = record h { control = f h.control }

abbrev pub put_copy : Text → Option Bytes → Host → Host
put_copy id copy = change_kept id (λ k. record k { previous_control = copy })

abbrev pub is_some : Option Bytes → Bool
is_some none = false
is_some (some _) = true

module _ (o : Operator) where
  -- What `createControlDatabaseSnapshot` does on what Lstat found.
  unfoldable pub copy_database : Text → Option Node → Io ControlDatabaseSnapshot
  copy_database id none = pure (record no_database_snapshot { captured = true })
  copy_database id (some (link _ _ _)) = raise (codes "control database is not a regular file")
  copy_database id (some other) = raise (codes "control database is not a regular file")
  copy_database id (some (regular contents mode uid gid)) = do
    step (codes "create database snapshot directory")
    raise_if (is_some (← gets (λ h. (kept_of id h).previous_control)))
        (codes "control database snapshot already exists")
    wal ← gets (λ h. h.control.wal)
    rescue (act (codes "snapshot control database") (put_copy id (some (o.vacuum contents wal))))
        (λ e. ignore (act e (put_copy id none)) >> raise e)
    rescue (step (codes "secure control database snapshot"))
        (λ e. ignore (act e (put_copy id none)) >> raise e)
    step (codes "flush control database snapshot")
    pure (record {
      path = id;
      captured = true;
      existed = true;
      mode = perm mode;
      uid = uid;
      gid = gid;
    })

  unfoldable pub create_control_database_snapshot : Text → Io ControlDatabaseSnapshot
  unfolding copy_database
  create_control_database_snapshot id = do
    step (codes "inspect control database")
    copy_database id (← gets (λ h. h.control.file))

  abbrev pub owned_by : ℕ → ℕ → Option Node → Option Node
  owned_by uid gid none = none
  owned_by uid gid (some (regular bytes mode _ _)) = some (regular bytes mode uid gid)
  owned_by uid gid (some (link target _ _)) = some (link target uid gid)
  owned_by uid gid (some other) = some other

  -- A snapshot path that `filepath.Rel` finds outside the transactions' directory is an empty one here.
  unfoldable pub put_back_database : ControlDatabaseSnapshot → Io (Unit {0})
  put_back_database snapshot = do
    raise_if (is_empty snapshot.path)
        (codes "control database snapshot is outside the managed transaction directory")
    step (codes "inspect control database snapshot")
    copy ← gets (λ h. (kept_of snapshot.path h).previous_control)
    copy_regular_file copy (λ bytes. put_control (λ c. record c {
      file = some (regular bytes (if perm snapshot.mode == 0 then 384 else perm snapshot.mode) 0 0);
    }))
    let chown =
        act (codes "restore control database ownership")
          (put_control (λ c. record c { file = owned_by snapshot.uid snapshot.gid c.file }))
    if o.is_root then chown else ignore chown

  unfoldable pub restore_control_database : ControlDatabaseSnapshot → Io (Unit {0})
  restore_control_database snapshot = do
    raise_if (not snapshot.captured)
        (codes "the update transaction has no control database snapshot")
    act (codes "remove stale SQLite sidecar") (put_control (λ c. record c { wal = none }))
    act (codes "remove stale SQLite sidecar") (put_control (λ c. record c { shm = none }))
    if snapshot.existed then put_back_database snapshot else (do
      act (codes "remove newly created control database")
          (put_control (λ c. record c { file = none }))
      step (codes "flush the directory"))
