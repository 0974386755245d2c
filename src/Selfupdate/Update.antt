-- ===== src/Selfupdate/Update.antt =====
-- `HostOperator.Apply` and the part of `applyRelease` that establishes what the release is (apply.go).
use nexa_panel.Prelude.{
  Bool, true, false, not, ◌&&◌, Option, none, some, List, [], ◌∷◌, ◌++◌, Text, Bytes, codes,
  is_empty, text_eq, trim_space, if◌then◌else◌,
}
use nexa_panel.Selfupdate.Host.{
  UpdateTransaction, TransactionPhase, phase_prepared, phase_activating, phase_succeeded,
  phase_failed, unknown_phase, Result, Operator,
}
use nexa_panel.Selfupdate.Io.{
  Io, World, Ended, done, fault, cut, pure, raise, or_raise, step, raise_if, ignore, try, ◌>>=◌,
  ◌>>◌,
}
use nexa_panel.Selfupdate.Release.{
  Release, parse_checksum, parse_release_manifest, verify_release_agreement, normalize_version,
  is_newer,
}
use nexa_panel.Selfupdate.Journal.{
  read_transaction, write_transaction, restore_prepared_transaction,
}
use nexa_panel.Selfupdate.Activate.{acquire_host_lock}
use nexa_panel.Selfupdate.Apply.{
  or_refuse, raise_some, validate_binary, install_release, wait_for_activation,
}

-- The trusted repository, its downloads, the digest and the signature of the bytes, and the binary and the
-- RELEASE stamp in an archive (github.go, download.go, signature.go, archive.go).
pub record Source : Type 0 where
  pub latest : Option Release
  pub by_version : Text → Option Release
  pub fetch : Text → Option Bytes
  pub sha256 : Bytes → Text
  pub signed : Bytes → Bytes → Bool
  pub extract : Bytes → Option (Bytes × Text)

abbrev pub kept_result : {A : Type 0} → Ended A × World → Ended (Option A) × World
kept_result (done a, w) = (done (some a), w)
kept_result (fault _, w) = (done none, w)
kept_result (cut, w) = (cut, w)

-- `if a, err := m(); err == nil`
unfoldable pub optional : {A : Type 0} → Io A → Io (Option A)
optional m w = kept_result (m w)

module _ (o : Operator) (source : Source) where
  abbrev pub fetch : Text → Io Bytes
  fetch url = step (codes "download") >> or_raise (source.fetch url) (codes "download")

  abbrev pub by_normalized : Text → Io Release
  by_normalized [] = raise (codes "not a valid version")
  by_normalized (c ∷ v) = or_raise (source.by_version (c ∷ v)) (codes "no such release")

  abbrev pub by_request : Text → Io Release
  by_request [] = or_raise source.latest (codes "no release")
  by_request (c ∷ v) = by_normalized (normalize_version o (c ∷ v))

  unfoldable pub resolve : Text → Io Release
  resolve version = by_request (trim_space version)

  -- The bytes are those that were published, by whom they should be, and are the release asked for.
  unfoldable pub verify_bundle : Release → Io Bytes
  verify_bundle release = do
    expected ← or_refuse (parse_checksum (← fetch release.checksum_url))
    archive ← fetch release.asset_url
    raise_if (not (text_eq (source.sha256 archive) expected))
        (codes "downloaded binary failed checksum verification")
    signature ← fetch release.signature_url
    raise_if (not (source.signed archive signature)) (codes "release signature verification failed")
    step (codes "create the release staging directory")
    (binary, stamp) ← or_raise (source.extract archive) (codes "extract the release")
    reported ← validate_binary o binary release.version
    manifest ← or_refuse (parse_release_manifest stamp)
    raise_some
        (verify_release_agreement o source.sha256 release manifest o.arch reported expected archive)
    pure binary

  unfoldable pub apply_release : Text → Bool → Text → Io Result
  apply_release id cancelled version = do
    release ← resolve version
    raise_if (not (is_newer o release.version o.installed)) (codes "downgrades are not supported")
    install_release o id cancelled release.version (← verify_bundle release)

  abbrev pub restored_before : UpdateTransaction → Option Text → UpdateTransaction
  restored_before current none = record current {
    phase = phase_failed;
    failure_reported = true;
    failure = codes "an interrupted update was restored before activation";
    result = record (current.result) { rolled_back = true; swapped = false };
  }
  restored_before current (some e) = record current {
    phase = phase_failed;
    failure_reported = true;
    failure = codes "an interrupted update was restored before activation; recovery failed: " ++ e;
  }

  -- What `Apply` does first with a journal whose target is the version that was asked for; none goes on.
  unfoldable pub resume : List Bool → TransactionPhase → UpdateTransaction → Io (Option Result)
  resume ticks phase_succeeded current = pure (some current.result)
  resume ticks phase_prepared current = do
    recovery_err ← try (restore_prepared_transaction o current)
    ignore (write_transaction (restored_before current recovery_err))
    raise (restored_before current recovery_err).failure
  resume ticks phase_activating current = do
    result ← wait_for_activation o ticks
    pure (some result)
  resume ticks phase_failed current = if current.failure_reported then pure none else (do
    ignore (write_transaction (record current { failure_reported = true }))
    raise current.failure)
  resume ticks (unknown_phase _) current = pure none

  unfoldable pub resume_journal : List Bool → Text → Option UpdateTransaction → Io (Option Result)
  resume_journal ticks requested none = pure none
  resume_journal ticks requested (some current) =
      if not (is_empty requested) && text_eq current.target_version requested
      then resume ticks current.phase current
      else pure none

  unfoldable pub or_install : List Bool → Text → Bool → Text → Option Result → Io Result
  or_install ticks id cancelled version (some result) = pure result
  or_install ticks id cancelled version none =
      apply_release id cancelled version >> wait_for_activation o ticks

  -- `Apply`: the journal is read only when a version was asked for, which makes no difference here.
  unfoldable pub apply : List Bool → Text → Bool → Text → Io Result
  apply ticks id cancelled version = do
    acquire_host_lock
    current ← optional read_transaction
    resumed ← resume_journal ticks (normalize_version o version) current
    or_install ticks id cancelled version resumed
