-- ===== src/Selfupdate/Journal.antt =====
-- The journal of an update (transaction.go), and the transitions that `apply.go` makes on it:
-- `failTransaction`, `beginActivation`, and the restoration of a transaction that was only prepared.
use nexa_panel.Prelude.{
  Bool, true, false, not, ◌||◌, ◌&&◌, Option, none, some, [], ◌++◌, Text, Bytes, codes, is_empty,
  if◌then◌else◌,
}
use nexa_panel.Jobs.Redact.{contains}
use nexa_panel.Selfupdate.Host.{Host, UpdateTransaction, phase_activating, phase_failed, Operator}
use nexa_panel.Selfupdate.Io.{
  Io, pure, raise, gets, or_raise, act, step, raise_if, ignore, rescue, try, kept_of, ◌>>=◌, ◌>>◌,
}
use nexa_panel.Selfupdate.Files.{restore_host_snapshot}
use nexa_panel.Selfupdate.Release.{first_field}

abbrev pub no_such_file : Text
no_such_file = codes "file does not exist"

abbrev pub complete_journal : UpdateTransaction → Io UpdateTransaction
complete_journal t =
    if is_empty t.id || is_empty t.target_version
    then raise (codes "update transaction is incomplete")
    else pure t

unfoldable pub read_transaction : Io UpdateTransaction
read_transaction = do
  step (codes "read update transaction")
  complete_journal (← or_raise (← gets (λ h. h.journal)) no_such_file)

abbrev pub put_journal : UpdateTransaction → Host → Host
put_journal t h = record h { journal = some t }

-- The new journal replaces the old one in one rename; the flush of the directory after it can still fail.
unfoldable pub write_transaction : UpdateTransaction → Io (Unit {0})
write_transaction t = do
  step (codes "stage update transaction")
  act (codes "publish update transaction") (put_journal t)
  step (codes "flush update transaction directory")

abbrev pub put_binary : Bytes → Host → Host
put_binary binary h = record h { binary = some binary }

unfoldable pub read_preserved : Text → Io Bytes
read_preserved id = do
  step (codes "read the preserved binary")
  or_raise (← gets (λ h. (kept_of id h).previous_nexa)) (codes "read the preserved binary")

module _ (o : Operator) where
  -- The staged copy is run before it takes the place of the live binary.
  unfoldable pub install_staged_binary : Bytes → Text → Io Text
  install_staged_binary binary expect_version = do
    step (codes "stage the new binary")
    step (codes "run the new binary")
    output ← or_raise (o.version_output binary) (codes "the binary is not a runnable nexa binary")
    raise_if (not (is_empty expect_version) && not (contains output expect_version))
        (codes "the binary reports an unexpected version")
    act (codes "install the new binary") (put_binary binary)
    step (codes "flush the installed binary directory")
    pure (first_field output)

  unfoldable pub restore_prepared_transaction : UpdateTransaction → Io (Unit {0})
  restore_prepared_transaction state = do
    previous ← read_preserved state.preserved_binary
    install_staged_binary previous []
    restore_host_snapshot o state.snapshot_dir

abbrev pub appended : Bool → Option Text → Text
appended append_restore none = []
appended append_restore (some e) =
    if append_restore then codes "; restore previous state: " ++ e else []

abbrev pub is_nil : Option Text → Bool
is_nil none = true
is_nil (some _) = false

-- The state that `failTransaction` stamps.
unfoldable pub stamped : UpdateTransaction → Text → Option Text → Bool → UpdateTransaction
stamped state cause restore_err append_restore = record state {
  phase = phase_failed;
  failure = cause ++ appended append_restore restore_err;
  failure_reported = true;
  result = record (state.result) { rolled_back = is_nil restore_err };
}

unfoldable pub fail_transaction : UpdateTransaction → Text → Option Text → Bool → Io (Unit {0})
fail_transaction state cause restore_err append_restore =
    ignore (write_transaction (stamped state cause restore_err append_restore))

-- `launchActivation` by systemd-run
unfoldable pub launch_activation : Io (Unit {0})
launch_activation = step (codes "launch activation helper")

module _ (o : Operator) where
  unfoldable pub begin_activation : UpdateTransaction → Io (Unit {0})
  begin_activation state = do
    let activating = record state { phase = phase_activating }
    rescue (write_transaction activating)
        (λ e. ignore (restore_prepared_transaction o activating) >> raise e)
    rescue launch_activation (λ e.
        try (restore_prepared_transaction o activating) >>= λ restore_err.
        fail_transaction activating e restore_err true >> raise e)
