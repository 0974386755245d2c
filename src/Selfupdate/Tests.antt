-- ===== src/Selfupdate/Tests.antt =====
-- An update of a small node: a local binary whose installation is cut off, and a release that is verified.
use nexa_panel.Prelude.{
  ◌≡◌, refl, true, Bool-cases, inl, inr, Option, none, some, List, [], ◌∷◌, Text, Bytes, codes,
  text_eq, if◌then◌else◌,
}
use nexa_panel.Selfupdate.Host.{
  Host, Node, regular, link, UpdateTransaction, TransactionPhase, phase_prepared, phase_failed,
  Operator,
}
use nexa_panel.Selfupdate.Io.{World, fault, Outcome, does, stops}
use nexa_panel.Selfupdate.Io.{
  pure, raise, gets, or_raise, ◌>>=◌, ◌>>◌, try, rescue, act, step, raise_if, when, ignore,
}
use nexa_panel.Selfupdate.Files.{
  copy_regular_file, backup_at, capture, capture_all, own_node, create_host_snapshot, chown,
  put_back, restore_entry, restore_entries, restore_host_snapshot,
}
use nexa_panel.Selfupdate.Database.{
  copy_database, create_control_database_snapshot, put_back_database, restore_control_database,
}
use nexa_panel.Selfupdate.Journal.{
  read_transaction, write_transaction, read_preserved, install_staged_binary,
  restore_prepared_transaction, stamped, fail_transaction, launch_activation, begin_activation,
}
use nexa_panel.Selfupdate.Activate.{
  remove_all, remove_obsolete_transactions, stop_api, activation_failed, acquire_host_lock,
  interrupted, poll_ready, wait_api_ready, activate_services, services_back, restore_transaction,
  prepare_activation_database, conclude, activate, activate_in, activate_transaction,
  recover_package_manager, recover_prepared, recover_in, recover_journal, recover_transaction,
}
use nexa_panel.Selfupdate.Apply.{
  preserve_transaction_binary, prepare_transaction, validate_binary, run_installer, sync_packaging,
  recover_stalled_activation, wait_for_activation, or_undo, undo_packaging, install_release,
  install_local, apply_local_binary, roll_back, rollback,
}
use nexa_panel.Selfupdate.Release.{
  first_field, trim_v, asset_arch, parse_checksum, seen, add_line, add_lines, manifest_of, complete,
  parse_release_manifest, normalize_version, is_newer, is_plausible_version, on_suffix,
  verify_release_agreement,
}
use nexa_panel.Selfupdate.Update.{
  optional, resolve, verify_bundle, apply_release, resume, resume_journal, or_install, apply,
}
use nexa_panel.Prelude.{
  lookup, insert, delete, split_at, split_fields, words, cut_at, trim_space, trim_left, trim_right,
  keep_unless_trailing, byte_len, is_space,
}
use nexa_panel.Jobs.Redact.{lower, to_lower, contains, starts_with}
use nexa_panel.Selfupdate.Release.{Release}
use nexa_panel.Selfupdate.Update.{Source}
use nexa_panel.Selfupdate.Sound.{IsSound}
use nexa_panel.Selfupdate.Install.{After}
use nexa_panel.Selfupdate.History.{
  applying_local, recovering, to_local, perform, change, here, next, Reach-IsSound,
  change_keeps_binary,
}
use nexa_panel.Selfupdate.Settled.{IsSettled, recover_settles}
use nexa_panel.Selfupdate.Verified.{IsVerified, verify_bundle-IsVerified}
use nexa_panel.Selfupdate.Snapshot.{is_named}
use nexa_panel.Selfupdate.Restored.{restore-create}

-- What a run on a concrete node computes with.
running : Unit {0}
unfolding pure raise gets or_raise ◌>>=◌ ◌>>◌ try rescue act step raise_if when ignore
    copy_regular_file backup_at capture capture_all own_node create_host_snapshot chown put_back
    restore_entry restore_entries restore_host_snapshot copy_database
    create_control_database_snapshot put_back_database restore_control_database read_transaction
    write_transaction read_preserved install_staged_binary restore_prepared_transaction stamped
    fail_transaction launch_activation begin_activation remove_all remove_obsolete_transactions
    stop_api activation_failed acquire_host_lock interrupted poll_ready wait_api_ready
    activate_services services_back restore_transaction prepare_activation_database conclude
    activate activate_in activate_transaction recover_package_manager recover_prepared recover_in
    recover_journal recover_transaction preserve_transaction_binary prepare_transaction
    validate_binary run_installer sync_packaging recover_stalled_activation wait_for_activation
    or_undo undo_packaging install_release install_local apply_local_binary roll_back rollback
    first_field trim_v asset_arch parse_checksum seen add_line add_lines manifest_of complete
    parse_release_manifest normalize_version is_newer is_plausible_version on_suffix
    verify_release_agreement optional resolve verify_bundle apply_release resume resume_journal
    or_install apply lookup insert delete split_at split_fields words cut_at trim_space trim_left
    trim_right keep_unless_trailing byte_len is_space lower to_lower contains starts_with text_eq
running = tt

abbrev node : Operator
node = record {
  installed = codes "1.0.0";
  arch = codes "amd64";
  managed_paths = codes "/etc/unit" ∷ [];
  is_root = true;
  has_package_state = true;
  canonical = λ v. true;
  higher = λ a b. true;
  version_output = λ b. some (codes "2.0.0 (commit 1)");
  reports = λ b. codes "2.0.0";
  polls = 2;
  migrate = λ b c. c;
  vacuum = λ b wal. b;
  packaging_done = λ files. files;
  packaging_broken = λ files. [];
}

abbrev digest : Text
digest = codes "0123456789abcdef0123456789abcdef0123456789abcdef0123456789abcdef"

abbrev stamp : Text
stamp = codes "version=v2.0.0\ncommit=1\narch=amd64\nbuilt_at=now\n"

abbrev published : Text → Option Bytes
published url = if text_eq url (codes "sums") then some digest else some (9 ∷ [])

abbrev repository : Source
repository = record {
  latest = none;
  by_version = λ v. none;
  fetch = published;
  sha256 = λ b. digest;
  signed = λ a s. true;
  extract = λ a. some (5 ∷ [], stamp);
}

abbrev release : Release
release = record {
  version = codes "2.0.0";
  tag = codes "v2.0.0";
  asset_name = codes "nexa-panel-linux-amd64.tar.gz";
  asset_url = codes "asset";
  checksum_url = codes "sums";
  signature_url = codes "sig";
}

abbrev unit_file : Node
unit_file = regular (7 ∷ []) 420 0 0

-- A node that never ran an update.
abbrev fresh_host : Host
fresh_host = record {
  journal = none;
  binary = some (1 ∷ []);
  files = (codes "/etc/unit", unit_file) ∷ [];
  control = record { file = none; wal = none; shm = none };
  running = some (1 ∷ []);
  kept = [];
}

abbrev pushed : Node
pushed = regular (2 ∷ []) 493 0 0

-- The host stops once the new binary is in place.
abbrev cut_off : List Outcome
cut_off =
    does ∷ does ∷ does ∷ does ∷ does ∷ does ∷ does ∷ does ∷ does ∷ does ∷ does ∷ does ∷ does ∷ does
    ∷ does ∷ does ∷ does ∷ does ∷ does ∷ does ∷ does ∷ does ∷ does ∷ does ∷ stops ∷ []

abbrev after_push : Host
after_push =
    (perform node repository (applying_local [] (codes "a1") (codes "/tmp/nexa") (some pushed))
      (record { host = fresh_host; outcomes = cut_off })).1.host

abbrev after_restart : Host
after_restart =
    (perform node repository recovering (record { host = after_push; outcomes = [] })).1.host

Reach-IsSound_example : IsSound after_restart
Reach-IsSound_example = Reach-IsSound node repository {h = fresh_host} {g = after_restart} tt (
    next (next here (applying_local [] (codes "a1") (codes "/tmp/nexa") (some pushed)) cut_off tt)
      recovering [] tt)

change_keeps_binary_example :
    After
      (some (1 ∷ []))
      (change node repository []
        (codes "a1")
        (to_local (codes "/tmp/nexa") (some pushed))
        (record { host = fresh_host; outcomes = cut_off })).1.host
change_keeps_binary_example =
    change_keeps_binary node repository [] (codes "a1") (to_local (codes "/tmp/nexa") (some pushed))
      (record { host = fresh_host; outcomes = cut_off }) tt tt

abbrev phase_in : Option UpdateTransaction → Option TransactionPhase
phase_in none = none
phase_in (some t) = some t.phase

-- The host stopped with the new binary in place and the journal prepared; the restart brought the old one
-- back and recorded it.
cut_off_push :
    (after_push.binary ≡ some (2 ∷ [])) × (phase_in after_push.journal ≡ some phase_prepared)
unfolding running
cut_off_push = (refl, refl)

restarted :
    (after_restart.binary ≡ some (1 ∷ [])) × (phase_in after_restart.journal ≡ some phase_failed)
unfolding running
restarted = (refl, refl)

recover_settles_example : IsSettled after_restart
unfolding running
recover_settles_example =
    recover_settles node (record { host = after_push; outcomes = [] })
      (record { host = after_restart; outcomes = [] }) refl

abbrev working : World
working = record { host = fresh_host; outcomes = [] }

verify_bundle-IsVerified_example : IsVerified node repository release (5 ∷ [])
unfolding running
verify_bundle-IsVerified_example =
    verify_bundle-IsVerified node repository release working working (5 ∷ []) refl

-- A bundle for another architecture is refused.
wrong_arch :
    (verify_bundle (record node { arch = codes "arm64" }) repository release working).0
    ≡ fault (codes "release published the bundle under another name")
unfolding running
wrong_arch = refl

-- A snapshot of the node, after which the managed file is replaced by a link and another file appears.
abbrev snapshot_made : World
snapshot_made = (create_host_snapshot node (codes "a1") working).1

abbrev disturbed : World
disturbed = record snapshot_made {
  host = record (snapshot_made.host) {
    files = (codes "/etc/unit", link (codes "/dev/null") 5 5) ∷ (codes "/etc/new", pushed) ∷ [];
  };
}

abbrev put_right : World
put_right = (restore_host_snapshot node (codes "a1") disturbed).1

unit_named : (path : Text) → is_named (lookup path working.host.files) ≡ true
unfolding lookup
unit_named path = elim (Bool-cases (text_eq (codes "/etc/unit") path)) [
  | inl e ↦ rw e refl
  | inr e ↦ rw e refl
]

restore-create_example : lookup (codes "/etc/unit") put_right.host.files ≡ some unit_file
unfolding pure gets or_raise ◌>>=◌ ◌>>◌ try act step raise_if when ignore copy_regular_file
    backup_at capture capture_all own_node create_host_snapshot chown put_back restore_entry
    restore_entries restore_host_snapshot lookup insert delete text_eq
restore-create_example =
    restore-create node (codes "a1") working snapshot_made disturbed put_right (codes "a1")
      (codes "/etc/unit") refl refl unit_named refl refl refl
