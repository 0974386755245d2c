-- ===== src/Selfupdate/Frames.antt =====
-- What the calls that change files, the database and the services leave alone: the journal, the
-- directories of the transactions, and the live binary.
use nexa_panel.Prelude.{Option, none, some, List, [], ◌∷◌, Text, Bytes, lookup}
use nexa_panel.Selfupdate.Host.{
  Host, Kept, Node, regular, link, other, SnapshotEntry, UpdateTransaction, ControlDatabaseSnapshot,
  Operator,
}
use nexa_panel.Selfupdate.Io.{act}
use nexa_panel.Selfupdate.Io.Keeps.{Keeps, Keeps-act, Keeps-then, keeps_rules}
use nexa_panel.Selfupdate.Files.{
  copy_regular_file, own_node, own, chown, put_back, restore_entry, restore_entries,
  restore_host_snapshot,
}
use nexa_panel.Selfupdate.Database.{put_back_database, restore_control_database}

-- A property of the journal, the kept directories and the live binary.
abbrev pub Held :
    (Option UpdateTransaction → List (Text × Kept) → Option Bytes → Type 0) → Host → Type 0
Held G h = G h.journal h.kept h.binary

module _ (o : Operator)
    (G : Option UpdateTransaction → List (Text × Kept) → Option Bytes → Type 0) where
  own-Held :
      (entry : SnapshotEntry) (node : Option Node) (h : Host)
      → Held G h
      → Held G (own_node entry node h)
  unfolding own_node
  own-Held entry (some (regular bytes mode _ _)) h p = p
  own-Held entry (some (link target _ _)) h p = p
  own-Held entry (some other) h p = p
  own-Held entry none h p = p

  act-own-Held : (e : Text) (entry : SnapshotEntry) → Keeps (Held G) (act e (own entry))
  act-own-Held e entry =
      Keeps-act e (own entry) (λ h p. own-Held entry (lookup entry.path h.files) h p)

  chown-Held : (e : Text) (entry : SnapshotEntry) → Keeps (Held G) (chown o e (own entry))
  unfolding chown
  chown-Held e entry = search (keeps_rules, act-own-Held)

  put_back-Held :
      (directory : Text) (entry : SnapshotEntry) → Keeps (Held G) (put_back o directory entry)
  unfolding put_back copy_regular_file
  put_back-Held directory entry = search (keeps_rules, chown-Held, Keeps-act) depth 12

  restore_entry-Held :
      (directory : Text) (entry : SnapshotEntry) → Keeps (Held G) (restore_entry o directory entry)
  unfolding restore_entry
  restore_entry-Held directory entry = search (keeps_rules, put_back-Held, Keeps-act)

  restore_entries-Held :
      (directory : Text) (entries : List SnapshotEntry)
      → Keeps (Held G) (restore_entries o directory entries)
  unfolding restore_entries
  restore_entries-Held directory [] = search keeps_rules
  restore_entries-Held directory (entry ∷ entries) =
      Keeps-then (restore_entry-Held directory entry) (restore_entries-Held directory entries)

  pub restore_host_snapshot-Held :
      (directory : Text) → Keeps (Held G) (restore_host_snapshot o directory)
  unfolding restore_host_snapshot
  restore_host_snapshot-Held directory = search (keeps_rules, restore_entries-Held)

  put_back_database-Held :
      (snapshot : ControlDatabaseSnapshot) → Keeps (Held G) (put_back_database o snapshot)
  unfolding put_back_database copy_regular_file
  put_back_database-Held snapshot = search (keeps_rules, Keeps-act) depth 12

  pub restore_control_database-Held :
      (snapshot : ControlDatabaseSnapshot) → Keeps (Held G) (restore_control_database o snapshot)
  unfolding restore_control_database
  restore_control_database-Held snapshot =
      search (keeps_rules, put_back_database-Held, Keeps-act) depth 12
