-- ===== src/Selfupdate/Activate.antt =====
-- The activation of an update and its recovery (transaction.go): the helper that restarts the services,
-- the restoration when they do not come up, and what runs when the host has restarted.
use nexa_panel.Prelude.{
  ℕ, zero, suc, Bool, true, false, not, ◌||◌, Option, none, some, List, [], ◌∷◌, ◌++◌, Text, Bytes,
  codes, is_empty, text_eq, delete, if◌then◌else◌,
}
use nexa_panel.Selfupdate.Host.{
  Host, Kept, UpdateTransaction, TransactionPhase, phase_prepared, phase_activating,
  phase_succeeded, phase_failed, unknown_phase, Operator, ControlDatabaseSnapshot,
}
use nexa_panel.Selfupdate.Io.{
  Io, pure, raise, gets, act, step, when, ignore, rescue, try, ◌>>=◌, ◌>>◌,
}
use nexa_panel.Selfupdate.Database.{restore_control_database}
use nexa_panel.Selfupdate.Release.{normalize_version}
use nexa_panel.Selfupdate.Journal.{
  read_transaction, write_transaction, restore_prepared_transaction,
}

-- The API starts from the live binary, and migrates the database.
abbrev pub started : Operator → Option Bytes → Host → Host
started o none h = h
started o (some binary) h = record h { running = some binary; control = o.migrate binary h.control }

abbrev pub start_api : Operator → Host → Host
start_api o h = started o h.binary h

abbrev pub serves : Operator → Text → Option Bytes → Bool
serves o expected none = false
serves o expected (some binary) =
    is_empty expected || text_eq (normalize_version o (o.reports binary)) expected

-- Directories whose removal fails stay, and the loop goes on.
abbrev pub drop_kept : Text → Host → Host
drop_kept id h = record h { kept = delete id h.kept }

unfoldable pub remove_all : Text → List (Text × Kept) → Io (Unit {0})
remove_all current [] = pure tt
remove_all current ((id, _) ∷ rest) =
    when (not (text_eq id current))
      (ignore (act (codes "remove obsolete transaction") (drop_kept id)))
    >> remove_all current rest

unfoldable pub remove_obsolete_transactions : Text → Io (Unit {0})
unfolding remove_all
remove_obsolete_transactions current = do present ← gets (λ h. h.kept); remove_all current present

unfoldable pub stop_api : Io (Unit {0})
stop_api =
    act (codes "stop control panel before database restore") (λ h. record h { running = none })

abbrev pub succeeded : UpdateTransaction → UpdateTransaction
succeeded state = record state {
  phase = phase_succeeded;
  result = record (state.result) { activated = true };
}

-- The state that a failed activation writes, after a rollback that failed or not.
unfoldable pub activation_failed : UpdateTransaction → Text → Option Text → UpdateTransaction
activation_failed state activate_err (some rollback_err) = record state {
  phase = phase_failed;
  failure =
      codes "activate updated services: "
      ++ (activate_err ++ (codes "; automatic rollback also failed: " ++ rollback_err));
}
activation_failed state activate_err none = record state {
  phase = phase_failed;
  failure =
      codes "activate updated services: "
      ++ (activate_err ++ codes "; the previous binary and packaging were restored");
  result = record (state.result) { rolled_back = true; swapped = false };
}

unfoldable pub acquire_host_lock : Io (Unit {0})
acquire_host_lock = step (codes "lock self-update state")

abbrev pub packaging_note : Option Text → Text
packaging_note none = []
packaging_note (some e) = codes "; the interrupted package manager could not be repaired: " ++ e

unfoldable pub interrupted : UpdateTransaction → Option Text → UpdateTransaction
interrupted state packaging_err = record state {
  packaging_running = false;
  phase = phase_failed;
  failure =
      codes
        "host restarted before update activation; the previous binary and packaging were restored"
      ++ packaging_note packaging_err;
  failure_reported = false;
  result = record (state.result) { rolled_back = true; swapped = false };
}

abbrev pub again : Option Text → Bool → Io (Unit {0}) → Io (Unit {0})
again none true rest = pure tt
again none false rest = rest
again (some _) _ rest = rest

module _ (o : Operator) where
  -- The polls of `waitAPIReady` before its deadline.
  unfoldable pub poll_ready : Text → ℕ → Io (Unit {0})
  poll_ready expected zero = raise (codes "new control panel did not become ready")
  poll_ready expected (suc n) = do
    silent ← try (step (codes "poll"))
    answer ← gets (λ h. h.running)
    again silent (serves o expected answer) (poll_ready expected n)

  unfoldable pub wait_api_ready : Text → Io (Unit {0})
  unfolding poll_ready
  wait_api_ready expect_version = poll_ready (normalize_version o expect_version) o.polls

  unfoldable pub activate_services : Text → Io (Unit {0})
  unfolding wait_api_ready
  activate_services expect_version = do
    step (codes "systemctl daemon-reload")
    step (codes "nginx -t")
    step (codes "systemctl restart nexa-agent.service")
    step (codes "systemctl is-active nexa-agent.service")
    act (codes "systemctl restart nexa-api.service") (start_api o)
    wait_api_ready expect_version
    rescue (step (codes "reload nginx")) (λ _. step (codes "restart nginx"))
    step (codes "verify nginx is active")

  -- The second half of `restoreTransaction`, after the binary and the files are back.
  unfoldable pub services_back : UpdateTransaction → Io (Unit {0})
  services_back state = do
    restore_control_database o state.database_snapshot
    step (codes "restore services with systemctl")
    step (codes "restore services with nginx")
    act (codes "restore services with systemctl") (start_api o)
    wait_api_ready state.previous_version

  -- Its first half is what `restorePreparedTransaction` does too.
  unfoldable pub restore_transaction : UpdateTransaction → Io (Unit {0})
  unfolding services_back
  restore_transaction state =
      stop_api >> (restore_prepared_transaction o state >> services_back state)

  unfoldable pub prepare_activation_database : Option ControlDatabaseSnapshot → Io (Unit {0})
  prepare_activation_database none = pure tt
  prepare_activation_database (some snapshot) = stop_api >> restore_control_database o snapshot

  -- What `ActivateTransaction` does with the error of the activation.
  unfoldable pub conclude : UpdateTransaction → Option Text → Io (Unit {0})
  conclude state none = write_transaction (succeeded state) >> remove_obsolete_transactions state.id
  conclude state (some activate_err) = do
    rollback_err ← try (restore_transaction state)
    write_transaction (activation_failed state activate_err rollback_err)
    raise (codes "activate updated services")

  unfoldable pub activate : UpdateTransaction → Io (Unit {0})
  activate state = do
    err ← try (
        prepare_activation_database state.activation_database_restore
        >> activate_services state.target_version)
    conclude state err

  -- `ActivateTransaction` below the host lock, by the phase that it reads.
  unfoldable pub activate_in : TransactionPhase → UpdateTransaction → Io (Unit {0})
  activate_in phase_succeeded state = pure tt
  activate_in phase_activating state = activate state
  activate_in phase_prepared state = activate state
  activate_in phase_failed state = raise (codes "update transaction is in phase failed")
  activate_in (unknown_phase _) state = raise (codes "update transaction is in an unknown phase")

  unfoldable pub activate_transaction : Io (Unit {0})
  activate_transaction = do
    acquire_host_lock
    state ← read_transaction
    activate_in state.phase state

  unfoldable pub recover_package_manager : Io (Unit {0})
  recover_package_manager =
      when o.has_package_state
        (step (codes "dpkg --configure -a") >> step (codes "apt-get -f install"))

  unfoldable pub recover_prepared : UpdateTransaction → Io (Unit {0})
  recover_prepared state = do
    acquire_host_lock
    packaging_err ← try (when state.packaging_running recover_package_manager)
    restore_prepared_transaction o state
    write_transaction (interrupted state packaging_err)

  unfoldable pub recover_in : TransactionPhase → UpdateTransaction → Io (Unit {0})
  recover_in phase_succeeded state = pure tt
  recover_in phase_failed state = pure tt
  recover_in phase_activating state = activate_transaction
  recover_in phase_prepared state = recover_prepared state
  recover_in (unknown_phase _) state = raise (codes "unknown update transaction phase")

  unfoldable pub recover_journal : Option UpdateTransaction → Io (Unit {0})
  recover_journal none = pure tt
  recover_journal (some state) =
      if is_empty state.id || is_empty state.target_version
      then raise (codes "update transaction is incomplete")
      else recover_in state.phase state

  -- `RecoverTransaction`: a journal that is not there is no error.
  unfoldable pub recover_transaction : Io (Unit {0})
  recover_transaction = do
    step (codes "read update transaction")
    recover_journal (← gets (λ h. h.journal))
