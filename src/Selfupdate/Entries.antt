-- ===== src/Selfupdate/Entries.antt =====
-- The updates from their entry points: `ApplyLocalBinary`, `Rollback` and `Apply`.
use nexa_panel.Prelude.{inl, inr, Bool, Option, none, some, List, [], ◌∷◌, Text, Bytes, trim_space}
use nexa_panel.Selfupdate.Host.{
  Host, Node, regular, link, other, UpdateTransaction, TransactionPhase, phase_prepared,
  phase_activating, phase_succeeded, phase_failed, unknown_phase, Operator,
}
use nexa_panel.Selfupdate.Io.Keeps.{Keeps, keeps_rules}
use nexa_panel.Selfupdate.Io.Leads.{
  Leads, Leads-gets, Leads-or_raise, Leads-weaken, Leads-keep, Leads-bind, Leads-then, Leads-step,
  Leads-of_Keeps, Leads-raise_if,
}
use nexa_panel.Selfupdate.Io.Facts.{Leads-given, Leads-some}
use nexa_panel.Selfupdate.Release.{Release, Checked, accepted, refused}
use nexa_panel.Selfupdate.Activate.{acquire_host_lock}
use nexa_panel.Selfupdate.Apply.{
  wait_for_activation, local_binary, apply_local_binary, can_roll_back, rollback, validate_binary,
  or_refuse, raise_some,
}
use nexa_panel.Selfupdate.Update.{
  Source, by_normalized, by_request, resolve, verify_bundle, apply_release,
}
use nexa_panel.Selfupdate.Recovery.{read-Leads}
use nexa_panel.Selfupdate.Wait.{wait-Tracked}
use nexa_panel.Selfupdate.Prepare.{Begun}
use nexa_panel.Selfupdate.Install.{
  Owed, After, install_release-Leads, install_local-Leads, roll_back-Leads,
}

-- The wait keeps what is owed.
pub wait-Owed :
    (o : Operator) (live : Option Bytes) (ticks : List Bool)
    → Leads (Owed live) (wait_for_activation o ticks) (λ _. Owed live) (After live) (After live)
wait-Owed o live ticks = Leads-some λ b. Leads-given λ l.
    Leads-weaken (λ h p. p) (Leads-of_Keeps (wait-Tracked o b ticks)) (λ _ h p. (b, (l, p)))
      (λ h p. inr (b, (l, p))) (λ h p. inr (b, (l, p)))

module _ (o : Operator) (id : Text) (live : Option Bytes) where
  began : (h : Host) → Begun id live h → After live h
  began h p = inl (p.0, p.2)

  local_binary-Begun : (file : Option Node) → Keeps (Begun id live) (local_binary o id file)
  local_binary-Begun none = search keeps_rules
  local_binary-Begun (some (link _ _ _)) = search keeps_rules
  local_binary-Begun (some other) = search keeps_rules
  local_binary-Begun (some (regular contents _ _ _)) = search keeps_rules

  pub apply_local-Leads :
      (ticks : List Bool) (path : Text) (file : Option Node)
      → Leads
          (Begun id live)
          (apply_local_binary o id ticks path file)
          (λ _. Owed live)
          (After live)
          (After live)
  unfolding apply_local_binary acquire_host_lock
  apply_local-Leads ticks path file = Leads-then (Leads-step _ began began) (
      Leads-then (Leads-raise_if _ _ began) (
        Leads-then (Leads-step _ began began) (
          Leads-bind (Leads-keep (local_binary-Begun file) began began) (λ binary.
            Leads-then (install_local-Leads o id live binary) (wait-Owed o live ticks)))))

  can_roll_back-Begun :
      (current : UpdateTransaction) (p : TransactionPhase)
      → Keeps (Begun id live) (can_roll_back o id current p)
  can_roll_back-Begun current phase_succeeded = search keeps_rules
  can_roll_back-Begun current phase_prepared = search keeps_rules
  can_roll_back-Begun current phase_activating = search keeps_rules
  can_roll_back-Begun current phase_failed = search keeps_rules
  can_roll_back-Begun current (unknown_phase _) = search keeps_rules

  pub rollback-Leads :
      (ticks : List Bool)
      → Leads (Begun id live) (rollback o id ticks) (λ _. Owed live) (After live) (After live)
  unfolding rollback acquire_host_lock
  rollback-Leads ticks = Leads-then (Leads-step _ began began) (
      Leads-bind (Leads-weaken (λ h p. p) read-Leads (λ _ h p. p.1) began began) (λ current.
        Leads-then (Leads-keep (can_roll_back-Begun current current.phase) began began) (
          Leads-then (Leads-step _ began began) (
            Leads-bind (Leads-gets _ (λ h p. p)) (λ kept.
              Leads-bind {Q = λ _. Begun id live} (Leads-or_raise kept _ (λ b h e p. p) began)
                (λ binary.
                  Leads-then (roll_back-Leads o id live current binary)
                    (wait-Owed o live ticks)))))))

  module _ (source : Source) where
    resolve-Begun : (version : Text) → Keeps (Begun id live) (resolve o source version)
    unfolding resolve
    resolve-Begun version = by_request-Begun (trim_space version)
      where
        by_normalized-Begun : (v : Text) → Keeps (Begun id live) (by_normalized o source v)
        by_normalized-Begun [] = search keeps_rules
        by_normalized-Begun (c ∷ v) = search keeps_rules

        by_request-Begun : (v : Text) → Keeps (Begun id live) (by_request o source v)
        by_request-Begun [] = search keeps_rules
        by_request-Begun (c ∷ v) = by_normalized-Begun _

    or_refuse-Begun : {A : Type 0} (c : Checked A) → Keeps (Begun id live) (or_refuse c)
    or_refuse-Begun (accepted a) = search keeps_rules
    or_refuse-Begun (refused e) = search keeps_rules

    raise_some-Begun : (e : Option Text) → Keeps (Begun id live) (raise_some e)
    raise_some-Begun none = search keeps_rules
    raise_some-Begun (some e) = search keeps_rules

    validate-Begun :
        (binary : Bytes) (e : Text) → Keeps (Begun id live) (validate_binary o binary e)
    unfolding validate_binary
    validate-Begun binary e = search keeps_rules depth 12

    verify-Begun : (release : Release) → Keeps (Begun id live) (verify_bundle o source release)
    unfolding verify_bundle
    verify-Begun release =
        search (keeps_rules, or_refuse-Begun, raise_some-Begun, validate-Begun) depth 26 fits 4000

    pub apply_release-Leads :
        (cancelled : Bool) (version : Text)
        → Leads
            (Begun id live)
            (apply_release o source id cancelled version)
            (λ _. Owed live)
            (After live)
            (After live)
    unfolding apply_release
    apply_release-Leads cancelled version =
        Leads-bind (Leads-keep (resolve-Begun version) began began) (λ release.
          Leads-then (Leads-raise_if _ _ began) (
            Leads-bind (Leads-keep (verify-Begun release) began began)
              (install_release-Leads o id live cancelled release.version)))
