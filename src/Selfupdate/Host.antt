-- ===== src/Selfupdate/Host.antt =====
-- The state of a node that an update touches (transaction.go, selfupdate.go): the live binary, the managed
-- files, the control database, what the services run, the journal, and the directories of the
-- transactions. A path below the work root is the id of the transaction's directory, empty for no path.
-- Times, and the wrapped detail of an error, are left out.
use nexa_panel.Prelude.{ℕ, Bool, true, false, Option, none, some, List, [], Text, Bytes}

-- A file: its contents, its mode, its user and its group; a link: its target and its owners.
pub data Node : Type 0 where
  regular : Bytes → ℕ → ℕ → ℕ → Node
  link : Text → ℕ → ℕ → Node
  other : Node

pub data TransactionPhase : Type 0 where
  phase_prepared phase_activating phase_succeeded phase_failed : TransactionPhase
  unknown_phase : Text → TransactionPhase

abbrev pub is_terminal : TransactionPhase → Bool
is_terminal phase_prepared = false
is_terminal phase_activating = false
is_terminal phase_succeeded = true
is_terminal phase_failed = true
is_terminal (unknown_phase _) = false

pub record Result : Type 0 where
  pub previous_version : Text
  pub target_version : Text
  pub swapped : Bool
  pub activated : Bool
  pub rolled_back : Bool
  pub packaging_synced : Bool
  pub packaging_note : Text

-- `Result{}`
abbrev pub no_result : Result
no_result = record {
  previous_version = [];
  target_version = [];
  swapped = false;
  activated = false;
  rolled_back = false;
  packaging_synced = false;
  packaging_note = [];
}

pub record ControlDatabaseSnapshot : Type 0 where
  pub path : Text
  pub captured : Bool
  pub existed : Bool
  pub mode : ℕ
  pub uid : ℕ
  pub gid : ℕ

abbrev pub no_database_snapshot : ControlDatabaseSnapshot
no_database_snapshot = record {
  path = [];
  captured = false;
  existed = false;
  mode = 0;
  uid = 0;
  gid = 0;
}

pub record UpdateTransaction : Type 0 where
  pub id : Text
  pub target_version : Text
  pub previous_version : Text
  pub phase : TransactionPhase
  pub snapshot_dir : Text
  pub preserved_binary : Text
  pub database_snapshot : ControlDatabaseSnapshot
  pub activation_database_restore : Option ControlDatabaseSnapshot
  pub packaging_running : Bool
  pub failure : Text
  pub failure_reported : Bool
  pub result : Result

pub record SnapshotEntry : Type 0 where
  pub path : Text
  pub backup_name : ℕ
  pub mode : ℕ
  pub uid : ℕ
  pub gid : ℕ
  pub link_target : Text
  pub existed : Bool

-- The directory of one transaction: the saved managed files by index with their manifest, the previous
-- binary, and the copy of the database.
pub record Kept : Type 0 where
  pub backups : List (ℕ × Bytes)
  pub manifest : Option (List SnapshotEntry)
  pub previous_nexa : Option Bytes
  pub previous_control : Option Bytes

abbrev pub empty_kept : Kept
empty_kept = record { backups = []; manifest = none; previous_nexa = none; previous_control = none }

-- control.db and its two side files
pub record Control : Type 0 where
  pub file : Option Node
  pub wal : Option Bytes
  pub shm : Option Bytes

pub record Host : Type 0 where
  pub journal : Option UpdateTransaction
  pub binary : Option Bytes
  pub files : List (Text × Node)
  pub control : Control
  pub running : Option Bytes
  pub kept : List (Text × Kept)

-- What a `HostOperator` is set up with: the version it was built as, its architecture, the managed paths,
-- whether it runs as root and whether dpkg keeps its state on this host. The rest is the world outside: the
-- version test of golang.org/x/mod/semver (`canonical` for `IsValid` and equal to its `Canonical`) and its
-- order, what `nexa version` prints for a binary that runs, the version that the API of a binary reports
-- and how often it is polled before the deadline, what an API that starts does to the database, the bytes
-- that SQLite's VACUUM INTO writes, and the managed files after the release's installer, when it succeeded
-- and when it did not.
pub record Operator : Type 0 where
  pub installed : Text
  pub arch : Text
  pub managed_paths : List Text
  pub is_root : Bool
  pub has_package_state : Bool
  pub canonical : Text → Bool
  pub higher : Text → Text → Bool
  pub version_output : Bytes → Option Text
  pub reports : Bytes → Text
  pub polls : ℕ
  pub migrate : Bytes → Control → Control
  pub vacuum : Bytes → Option Bytes → Bytes
  pub packaging_done : List (Text × Node) → List (Text × Node)
  pub packaging_broken : List (Text × Node) → List (Text × Node)

pub record TransactionStatus : Type 0 where
  pub present : Bool
  pub id : Text
  pub target_version : Text
  pub previous_version : Text
  pub phase : TransactionPhase
  pub terminal : Bool
  pub failure : Text
  pub result : Result

abbrev pub no_transaction : TransactionStatus
no_transaction = record {
  present = false;
  id = [];
  target_version = [];
  previous_version = [];
  phase = unknown_phase [];
  terminal = false;
  failure = [];
  result = no_result;
}

-- `HostOperator.Transaction`, on what `readTransaction` found
unfoldable pub transaction_status : Option UpdateTransaction → TransactionStatus
transaction_status none = no_transaction
transaction_status (some state) = record {
  present = true;
  id = state.id;
  target_version = state.target_version;
  previous_version = state.previous_version;
  phase = state.phase;
  terminal = is_terminal state.phase;
  failure = state.failure;
  result = state.result;
}
