-- ===== src/Selfupdate/Operations.antt =====
-- The helper and the recovery on a host where no update is under way.
use nexa_panel.Prelude.{◌≡◌, ◌⊎◌, inl, inr, refl, sym, subst, Option, none, some, Bytes}
use nexa_panel.Selfupdate.Host.{
  Host, UpdateTransaction, TransactionPhase, phase_prepared, phase_activating, phase_succeeded,
  phase_failed, unknown_phase, Operator,
}
use nexa_panel.Selfupdate.Io.{Io}
use nexa_panel.Selfupdate.Io.Keeps.{Keeps}
use nexa_panel.Selfupdate.Io.Leads.{
  Leads, Leads-pure, Leads-raise, Leads-gets, Leads-weaken, Leads-bind, Leads-then, Leads-step,
  Leads-same, Leads-if,
}
use nexa_panel.Selfupdate.Io.Facts.{Leads-given}
use nexa_panel.Selfupdate.Activate.{
  activate_in, activate_transaction, acquire_host_lock, recover_in, recover_journal,
  recover_transaction,
}
use nexa_panel.Selfupdate.Sound.{IsSound, SoundWith, Tracked, SoundIn}
use nexa_panel.Selfupdate.Recovery.{read-Leads, activate-Tracked, recover-Tracked}

abbrev RestingWith : Option UpdateTransaction → Type 0
RestingWith none = Unit
RestingWith (some t) = t.phase ≡ phase_failed

-- No update is under way, and none that succeeded can be rolled back.
abbrev Idle : Host → Type 0
Idle h = IsSound h × RestingWith h.journal

module _ (o : Operator) where
  activate_in-Idle :
      (p : TransactionPhase) (t : UpdateTransaction)
      → Leads (λ h. (p ≡ phase_failed) × Idle h) (activate_in o p t) (λ _. Idle) Idle Idle
  unfolding activate_in
  activate_in-Idle phase_failed t = Leads-raise _ (λ h p. p.1)
  activate_in-Idle phase_succeeded t = Leads-given (λ e. absurd (cc))
  activate_in-Idle phase_prepared t = Leads-given (λ e. absurd (cc))
  activate_in-Idle phase_activating t = Leads-given (λ e. absurd (cc))
  activate_in-Idle (unknown_phase _) t = Leads-given (λ e. absurd (cc))

  resting :
      (t : UpdateTransaction) (h : Host)
      → (h.journal ≡ some t) × Idle h
      → (t.phase ≡ phase_failed) × Idle h
  resting t h (e, p) = (subst RestingWith e p.1, p)

  activate-Idle : Keeps Idle (activate_transaction o)
  unfolding activate_transaction acquire_host_lock
  activate-Idle = record {
    at = Leads-same (
        Leads-then (Leads-step _ (λ h p. p) (λ h p. p)) (
          Leads-bind read-Leads (λ t.
            Leads-weaken (resting t) (activate_in-Idle t.phase t) (λ _ h p. p) (λ h p. p)
              (λ h p. p))));
  }

  recover_in-Idle :
      (p : TransactionPhase) (t : UpdateTransaction)
      → Leads (λ h. (p ≡ phase_failed) × Idle h) (recover_in o p t) (λ _. Idle) Idle Idle
  unfolding recover_in
  recover_in-Idle phase_failed t = Leads-pure tt (λ h p. p.1)
  recover_in-Idle phase_succeeded t = Leads-given (λ e. absurd (cc))
  recover_in-Idle phase_prepared t = Leads-given (λ e. absurd (cc))
  recover_in-Idle phase_activating t = Leads-given (λ e. absurd (cc))
  recover_in-Idle (unknown_phase _) t = Leads-given (λ e. absurd (cc))

  recover_journal-Idle :
      (j : Option UpdateTransaction)
      → Leads (λ h. (h.journal ≡ j) × Idle h) (recover_journal o j) (λ _. Idle) Idle Idle
  unfolding recover_journal
  recover_journal-Idle none = Leads-pure tt (λ h p. p.1)
  recover_journal-Idle (some t) =
      Leads-if _ (Leads-raise _ (λ h p. p.1))
        (Leads-weaken (resting t) (recover_in-Idle t.phase t) (λ _ h p. p) (λ h p. p) (λ h p. p))

  recover-Idle : Keeps Idle (recover_transaction o)
  unfolding recover_transaction
  recover-Idle = record {
    at = Leads-same (
        Leads-then (Leads-step _ (λ h p. p) (λ h p. p)) (
          Leads-bind {Q = λ j h. (h.journal ≡ j) × Idle h} (Leads-gets _ (λ h p. (refl, p)))
            recover_journal-Idle));
  }

-- A sound journal has a transaction that can be undone, or one that has failed, or none.
pub busy_or_Idle : (h : Host) → IsSound h → ((b : Bytes) × Tracked b h) ⊎ Idle h
busy_or_Idle h s = by_journal h.journal refl s
  where
    by_phase :
        (t : UpdateTransaction) (p : TransactionPhase)
        → t.phase ≡ p
        → h.journal ≡ some t
        → SoundIn p t h
        → ((b : Bytes) × Tracked b h) ⊎ Idle h
    by_phase t phase_failed e j s' = inr (s, subst RestingWith (sym j) e)
    by_phase t phase_prepared e j s' = inl (s'.0.0, (s, t, (j, s'.0.1)))
    by_phase t phase_activating e j s' = inl (s'.0.0, (s, t, (j, s'.0.1)))
    by_phase t phase_succeeded e j s' = inl (s'.0.0, (s, t, (j, s'.0.1)))
    by_phase t (unknown_phase _) e j s' = inl (s'.0.0, (s, t, (j, s'.0.1)))

    by_journal :
        (j : Option UpdateTransaction)
        → h.journal ≡ j
        → SoundWith j h
        → ((b : Bytes) × Tracked b h) ⊎ Idle h
    by_journal none e s' = inr (s, subst RestingWith (sym e) tt)
    by_journal (some t) e s' = by_phase t t.phase refl e s'

-- What keeps any binary owed, and leaves an idle host idle, keeps a host sound.
IsSound-Keeps :
    {A : Type 0} {m : Io A} → ((b : Bytes) → Keeps (Tracked b) m) → Keeps Idle m → Keeps IsSound m
IsSound-Keeps {m = m} busy idle = record {
  at = λ w s. elim (busy_or_Idle w.host s) [
    | inl p ↦ ((busy p.0).at w p.1).0
    | inr p ↦ (idle.at w p).0
  ];
}

module _ (o : Operator) where
  pub activate-IsSound : Keeps IsSound (activate_transaction o)
  activate-IsSound = IsSound-Keeps (activate-Tracked o) (activate-Idle o)

  pub recover-IsSound : Keeps IsSound (recover_transaction o)
  recover-IsSound = IsSound-Keeps (recover-Tracked o) (recover-Idle o)
