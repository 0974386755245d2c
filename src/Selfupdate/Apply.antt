-- ===== src/Selfupdate/Apply.antt =====
-- Installing a release or a local binary, and rolling back (apply.go), up to the launch of the activation
-- helper and the wait for it. An error comes without the result that the code returns beside it.
use nexa_panel.Prelude.{
  ℕ, Bool, true, false, not, ◌&&◌, ◌*◌, Option, none, some, List, [], ◌∷◌, Text, Bytes, codes,
  is_empty, length, ltb, if◌then◌else◌,
}
use nexa_panel.Jobs.Redact.{contains}
use nexa_panel.Selfupdate.Host.{
  Host, Node, regular, UpdateTransaction, TransactionPhase, phase_prepared, phase_activating,
  phase_succeeded, phase_failed, unknown_phase, Result, no_result, Operator,
  ControlDatabaseSnapshot, is_terminal,
}
use nexa_panel.Selfupdate.Io.{
  Io, World, Ended, done, Outcome, does, fails, stops, fault, cut, pure, raise, gets, or_raise,
  step, raise_if, when, ignore, rescue, try, kept_of, change_kept, ◌>>=◌, ◌>>◌,
}
use nexa_panel.Selfupdate.Files.{
  copy_regular_file, create_host_snapshot, restore_host_snapshot, is_abs,
}
use nexa_panel.Selfupdate.Database.{create_control_database_snapshot}
use nexa_panel.Selfupdate.Release.{Checked, accepted, refused, is_plausible_version, first_field}
use nexa_panel.Selfupdate.Journal.{
  read_transaction, write_transaction, install_staged_binary, restore_prepared_transaction,
  fail_transaction, begin_activation,
}
use nexa_panel.Selfupdate.Activate.{
  acquire_host_lock, activate_transaction, recover_package_manager, restore_transaction,
}

abbrev pub max_binary_bytes : ℕ
max_binary_bytes = 256 * 1024 * 1024

abbrev pub or_refuse : {A : Type 0} → Checked A → Io A
or_refuse (accepted a) = pure a
or_refuse (refused e) = raise e

abbrev pub raise_some : Option Text → Io (Unit {0})
raise_some none = pure tt
raise_some (some e) = raise e

-- A process of its own: whatever becomes of it, the caller goes on.
abbrev pub detached : Io (Unit {0}) → Io (Unit {0})
detached m w = (done tt, (m w).1)

abbrev pub put_preserved : Text → Bytes → Host → Host
put_preserved id binary = change_kept id (λ k. record k { previous_nexa = some binary })

unfoldable pub preserve_transaction_binary : Text → Io Text
preserve_transaction_binary id = do
  step (codes "create binary snapshot directory")
  copy_regular_file (← gets (λ h. h.binary)) (put_preserved id)
  pure id

abbrev pub put_files : (List (Text × Node) → List (Text × Node)) → Host → Host
put_files f h = record h { files = f h.files }

abbrev pub on_poll : Io Result → TransactionPhase → UpdateTransaction → Io Result
on_poll rest phase_succeeded state = pure state.result
on_poll rest phase_failed state =
    when (not state.failure_reported)
      (ignore (write_transaction (record state { failure_reported = true })))
    >> raise state.failure
on_poll rest phase_prepared state = rest
on_poll rest phase_activating state = rest
on_poll rest (unknown_phase _) state = rest

module _ (o : Operator) where
  -- `prepareTransaction`, with the id that it draws
  unfoldable pub prepare_transaction : Text → Io (Text × Text × ControlDatabaseSnapshot)
  prepare_transaction id = do
    step (codes "create update transaction id")
    snapshot_dir ← create_host_snapshot o id
    preserved ← preserve_transaction_binary id
    database ← create_control_database_snapshot o id
    pure (snapshot_dir, preserved, database)

  unfoldable pub validate_binary : Bytes → Text → Io Text
  validate_binary binary expect_version = do
    step (codes "stage the new binary for validation")
    step (codes "run the validation binary")
    output ← or_raise (o.version_output binary) (codes "the binary is not a runnable nexa binary")
    raise_if (not (is_empty expect_version) && not (contains output expect_version))
        (codes "the binary reports an unexpected version")
    raise_if (not (is_plausible_version o (first_field output)))
        (codes "the binary is not a nexa binary")
    pure (first_field output)

  -- An installer that fails or is killed leaves what it has done so far.
  abbrev pub installer_ends : List Outcome → World → Ended (Unit {0}) × World
  installer_ends [] w = (done tt, record w { host = put_files o.packaging_done w.host })
  installer_ends (does ∷ os) w =
      (done tt, record { host = put_files o.packaging_done w.host; outcomes = os })
  installer_ends (fails ∷ os) w = (
    fault (codes "apply the release packaging"),
    record { host = put_files o.packaging_broken w.host; outcomes = os },
  )
  installer_ends (stops ∷ os) w =
      (cut, record { host = put_files o.packaging_broken w.host; outcomes = os })

  unfoldable pub run_installer : Io (Unit {0})
  run_installer w = installer_ends w.outcomes w

  unfoldable pub sync_packaging : Io (Unit {0})
  sync_packaging = run_installer >> step (codes "enable interrupted-update recovery")

  unfoldable pub recover_stalled_activation : Text → Io Result
  recover_stalled_activation cause = do
    state ← read_transaction
    raise_if (is_terminal state.phase) cause
    restore_err ← try (restore_transaction o state)
    fail_transaction state cause restore_err true
    raise cause

  -- The polls of the journal until the deadline; before each but the first the helper may have run, to its
  -- end. That it still runs while the restoration after the deadline does is left out.
  unfoldable pub wait_for_activation : List Bool → Io Result
  wait_for_activation [] = do
    state ← read_transaction
    on_poll (recover_stalled_activation (codes "context deadline exceeded")) state.phase state
  wait_for_activation (helped ∷ ticks) = do
    state ← read_transaction
    on_poll (when helped (detached (activate_transaction o)) >> wait_for_activation ticks)
        state.phase state

  -- A step after which a prepared transaction is undone when it fails.
  unfoldable pub or_undo : {A : Type 0} → UpdateTransaction → Bool → Io A → Io A
  or_undo state append_restore m = rescue m (λ e.
      try (restore_prepared_transaction o state) >>= λ restore_err.
      fail_transaction state e restore_err append_restore >> raise e)

module _ (o : Operator) (id : Text) where
  -- The journal entry of a new transaction.
  abbrev pub prepared_state :
      Text → Text → Text × Text × ControlDatabaseSnapshot → Result → UpdateTransaction
  prepared_state target previous (snapshot_dir, preserved, database) result = record {
    id = id;
    target_version = target;
    previous_version = previous;
    phase = phase_prepared;
    snapshot_dir = snapshot_dir;
    preserved_binary = preserved;
    database_snapshot = database;
    activation_database_restore = none;
    packaging_running = false;
    failure = [];
    failure_reported = false;
    result = result;
  }

  -- The packaging failed: what the installer left is undone from the snapshot.
  unfoldable pub undo_packaging : Bool → UpdateTransaction → Text → Io (Unit {0})
  undo_packaging cancelled state e = do
    when cancelled (ignore (recover_package_manager o))
    restore_err ← try (restore_host_snapshot o state.snapshot_dir)
    fail_transaction state e restore_err false
    raise e

  -- `applyRelease` from `prepareTransaction` on, for a release whose binary was verified.
  unfoldable pub install_release : Bool → Text → Bytes → Io Result
  install_release cancelled version binary = do
    captured ← prepare_transaction o id
    let result = record no_result { previous_version = o.installed; target_version = version }
    let state = prepared_state version o.installed captured result
    write_transaction (record state { packaging_running = true })
    rescue (sync_packaging o) (undo_packaging cancelled state)
    or_undo o state false (install_staged_binary o binary version)
    let installed = record result { swapped = true; packaging_synced = true }
    begin_activation o (record state { result = installed })
    pure installed

  -- `ApplyLocalBinary` on what Stat finds at the path
  unfoldable pub install_local : Bytes → Io (Unit {0})
  install_local binary = do
    captured ← prepare_transaction o id
    reported ← validate_binary o binary []
    let target = if is_empty reported then codes "the supplied binary" else reported
    let result = record no_result {
      previous_version = o.installed;
      target_version = target;
      packaging_note =
          codes
            "only the binary was replaced; if this build changes systemd units, tmpfiles rules or the nginx template, install the complete signed release instead";
    }
    let state = prepared_state target o.installed captured result
    write_transaction state
    _ ← or_undo o state true (install_staged_binary o binary [])
    begin_activation o (record state { result = record result { swapped = true } })

  abbrev pub local_binary : Option Node → Io Bytes
  local_binary (some (regular contents _ _ _)) =
      if ltb max_binary_bytes (length contents)
      then raise (codes "the binary exceeds the byte limit")
      else pure contents
  local_binary _ = raise (codes "the binary could not be read")

  unfoldable pub apply_local_binary : List Bool → Text → Option Node → Io Result
  apply_local_binary ticks path file = do
    acquire_host_lock
    raise_if (not (is_abs path)) (codes "the binary path must be absolute")
    step (codes "read the binary")
    install_local (← local_binary file)
    wait_for_activation o ticks

  abbrev pub can_roll_back : UpdateTransaction → TransactionPhase → Io (Unit {0})
  can_roll_back current phase_succeeded =
      raise_if (not current.database_snapshot.captured)
        (codes "this update predates rollback-safe control database snapshots")
  can_roll_back current _ =
      raise (codes "no completed update transaction is available to roll back")

  unfoldable pub roll_back : UpdateTransaction → Bytes → Io (Unit {0})
  roll_back current binary = do
    captured ← prepare_transaction o id
    let target =
        if is_empty current.previous_version
        then codes "the previous binary"
        else current.previous_version
    let result = record no_result {
      previous_version = current.target_version;
      target_version = target;
      packaging_synced = true;
    }
    let state = record (prepared_state target current.target_version captured result) {
      activation_database_restore = some current.database_snapshot;
    }
    write_transaction state
    reported ← or_undo o state false (install_staged_binary o binary [])
    or_undo o state false (restore_host_snapshot o current.snapshot_dir)
    let shown = if is_empty reported then codes "the previous binary" else reported
    let name = if is_empty current.previous_version then shown else current.previous_version
    begin_activation o (record state {
      target_version = name;
      result = record result { target_version = name; swapped = true };
    })

  unfoldable pub rollback : List Bool → Io Result
  rollback ticks = do
    acquire_host_lock
    current ← read_transaction
    can_roll_back current current.phase
    step (codes "read the previous binary")
    binary ←
        or_raise (← gets (λ h. (kept_of current.preserved_binary h).previous_nexa))
          (codes "no transaction-preserved previous binary is available to roll back to")
    roll_back current binary
    wait_for_activation o ticks
