-- ===== src/Selfupdate/Wait.antt =====
-- The wait for the helper, and a host on which no update is under way.
use nexa_panel.Prelude.{◌≡◌, refl, Bool, true, false, some, List, [], ◌∷◌, Text, Bytes}
use nexa_panel.Selfupdate.Host.{
  Host, UpdateTransaction, TransactionPhase, phase_prepared, phase_activating, phase_succeeded,
  phase_failed, unknown_phase, Result, Operator, is_terminal,
}
use nexa_panel.Selfupdate.Io.{Io, try, raise, ◌>>=◌, ◌>>◌}
use nexa_panel.Selfupdate.Io.Keeps.{Keeps, Keeps-when, Keeps-then}
use nexa_panel.Selfupdate.Io.Leads.{
  Leads, Leads-pure, Leads-raise, Leads-weaken, Leads-bind, Leads-then, Leads-try, Leads-of_Keeps,
  Leads-same,
}
use nexa_panel.Selfupdate.Io.Facts.{Leads-given, Leads-ignore, Leads-unless, Leads-when}
use nexa_panel.Selfupdate.Journal.{put_journal, fail_transaction}
use nexa_panel.Selfupdate.Activate.{restore_transaction}
use nexa_panel.Selfupdate.Apply.{detached, on_poll, recover_stalled_activation, wait_for_activation}
use nexa_panel.Selfupdate.Undo.{InFlight, restore_transaction-Leads}
use nexa_panel.Selfupdate.Sound.{
  IsOpen, Tracked, SoundIn, open-Tracked, fail-Leads, Leads-last, is_open,
}
use nexa_panel.Selfupdate.Recovery.{read-Leads, current, in_open, activate-Tracked}

-- That a failure was reported changes nothing of what the journal promises.
pub reported-SoundIn :
    (p : TransactionPhase) (t : UpdateTransaction) (h : Host)
    → SoundIn p t h
    → SoundIn p
        (record t { failure_reported = true })
        (put_journal (record t { failure_reported = true }) h)
reported-SoundIn phase_prepared t h s = s
reported-SoundIn phase_activating t h s = s
reported-SoundIn phase_succeeded t h s = s
reported-SoundIn (unknown_phase _) t h s = s
reported-SoundIn phase_failed t h s = s

pub reported-Tracked :
    (b : Bytes) (t : UpdateTransaction) (h : Host)
    → (h.journal ≡ some t) × Tracked b h
    → Tracked b (put_journal (record t { failure_reported = true }) h)
reported-Tracked b t h c =
    let now = current b t h c in
    (reported-SoundIn t.phase t h now.0, record t { failure_reported = true }, (refl, now.1.1))

open_unless_terminal : (p : TransactionPhase) → is_terminal p ≡ false → is_open p ≡ true
open_unless_terminal phase_prepared e = refl
open_unless_terminal phase_activating e = refl
open_unless_terminal (unknown_phase _) e = refl
open_unless_terminal phase_succeeded e = cc
open_unless_terminal phase_failed e = cc

module _ (o : Operator) (b : Bytes) where
  stalled-Leads :
      (t : UpdateTransaction) (cause : Text)
      → IsOpen t
      → Leads
          (InFlight t b)
          (try (restore_transaction o t) >>= λ r.
            fail_transaction t cause r true >> raise {A = Result} cause)
          (λ _. Tracked b)
          (Tracked b)
          (Tracked b)
  stalled-Leads t cause ok =
      let tracked = open-Tracked t b ok in
      Leads-bind
        (Leads-weaken (λ h p. p) (Leads-try (restore_transaction-Leads o t b t refl)) (λ r h p. p)
          tracked tracked)
        (λ r. Leads-then (fail-Leads t t b refl ok cause r true) (Leads-raise cause (λ h p. p)))

  recover_stalled-Tracked : (cause : Text) → Keeps (Tracked b) (recover_stalled_activation o cause)
  unfolding recover_stalled_activation
  recover_stalled-Tracked cause = record {
    at = Leads-same (
        Leads-bind read-Leads (λ t. Leads-then (Leads-unless _ _ (λ h p. p.1)) (
          Leads-given (λ running.
            in_open o t b t.phase refl (open_unless_terminal t.phase running)
              (stalled-Leads t cause)))));
  }

  on_poll-Tracked :
      (rest : Io Result) (t : UpdateTransaction) (p : TransactionPhase)
      → Keeps (Tracked b) rest
      → Leads
          (λ h. (h.journal ≡ some t) × Tracked b h)
          (on_poll rest p t)
          (λ _. Tracked b)
          (Tracked b)
          (Tracked b)
  on_poll-Tracked rest t phase_succeeded k = Leads-pure _ (λ h p. p.1)
  on_poll-Tracked rest t phase_failed k =
      Leads-then
        (Leads-when _ (Leads-ignore (Leads-last _ b (reported-Tracked b t) (λ h p. p.1)))
          (λ h p. p.1))
        (Leads-raise _ (λ h p. p))
  on_poll-Tracked rest t phase_prepared k =
      Leads-weaken (λ h p. p.1) (Leads-of_Keeps k) (λ _ h p. p) (λ h p. p) (λ h p. p)
  on_poll-Tracked rest t phase_activating k =
      Leads-weaken (λ h p. p.1) (Leads-of_Keeps k) (λ _ h p. p) (λ h p. p) (λ h p. p)
  on_poll-Tracked rest t (unknown_phase _) k =
      Leads-weaken (λ h p. p.1) (Leads-of_Keeps k) (λ _ h p. p) (λ h p. p) (λ h p. p)

  detached-Keeps : {m : Io (Unit {0})} → Keeps (Tracked b) m → Keeps (Tracked b) (detached m)
  detached-Keeps k = record { at = k.at }

  pub wait-Tracked : (ticks : List Bool) → Keeps (Tracked b) (wait_for_activation o ticks)
  unfolding wait_for_activation
  wait-Tracked [] = record {
    at =
        Leads-same
          (Leads-bind read-Leads (λ t. on_poll-Tracked _ t t.phase (recover_stalled-Tracked _)));
  }
  wait-Tracked (helped ∷ ticks) =
      let rest =
        Keeps-then (Keeps-when helped (detached-Keeps (activate-Tracked o b)))
          (wait-Tracked ticks) in
      record { at = Leads-same (Leads-bind read-Leads (λ t. on_poll-Tracked _ t t.phase rest)) }
