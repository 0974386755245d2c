-- ===== src/Selfupdate/Recovery.antt =====
-- The helper, the recovery after a restart and the wait, from a sound host or from one whose journal can
-- bring `b` back.
use nexa_panel.Prelude.{
  ◌≡◌, inr, refl, sym, ◌∙◌, subst, true, Option, none, some, some_eq, Text, Bytes,
}
use nexa_panel.Selfupdate.Host.{
  Host, UpdateTransaction, TransactionPhase, phase_prepared, phase_activating, phase_succeeded,
  phase_failed, unknown_phase, Operator,
}
use nexa_panel.Selfupdate.Io.{Io}
use nexa_panel.Selfupdate.Io.Keeps.{Keeps, keeps_rules}
use nexa_panel.Selfupdate.Io.Leads.{
  Leads, Leads-pure, Leads-raise, Leads-gets, Leads-or_raise, Leads-weaken, Leads-keep, Leads-bind,
  Leads-then, Leads-step, Leads-of_Keeps, Leads-same, Leads-if,
}
use nexa_panel.Selfupdate.Io.Facts.{Leads-given}
use nexa_panel.Selfupdate.Journal.{
  put_journal, write_transaction, read_transaction, complete_journal,
}
use nexa_panel.Selfupdate.Activate.{
  activate_in, activate_transaction, acquire_host_lock, recover_package_manager, interrupted,
  recover_prepared, recover_in, recover_journal, recover_transaction,
}
use nexa_panel.Selfupdate.Undo.{InFlight, Installed, restore_prepared-Leads}
use nexa_panel.Selfupdate.Sound.{
  IsOpen, SoundWith, Tracked, SoundIn, open-Tracked, failed-Tracked, Leads-last, InFlight-put,
  is_open,
}
use nexa_panel.Selfupdate.Safety.{activate-Leads}

complete-Leads :
    {P : Host → Type 0} (j : Option UpdateTransaction) (t : UpdateTransaction)
    → j ≡ some t
    → Leads
        (λ h. (h.journal ≡ j) × P h)
        (complete_journal t)
        (λ s h. (h.journal ≡ some s) × P h)
        P
        P
complete-Leads j t e =
    Leads-if _ (Leads-raise _ (λ h p. p.1)) (Leads-pure t (λ h p. (p.0 ∙ e, p.1)))

-- What has been read is in the journal.
pub read-Leads :
    {P : Host → Type 0} → Leads P read_transaction (λ t h. (h.journal ≡ some t) × P h) P P
unfolding read_transaction
read-Leads {P = P} = Leads-then (Leads-step _ (λ h p. p) (λ h p. p)) (
    Leads-bind {Q = λ j h. (h.journal ≡ j) × P h} (Leads-gets _ (λ h p. (refl, p))) (λ j.
      Leads-bind {Q = λ t h. (j ≡ some t) × ((h.journal ≡ j) × P h)}
        (Leads-or_raise j _ (λ t h found p. (found, p)) (λ h p. p.1))
        (λ t. Leads-given (λ found. complete-Leads j t found))))

-- What soundness and tracking say of the transaction in the journal.
pub current :
    (b : Bytes) (t : UpdateTransaction) (h : Host)
    → (h.journal ≡ some t) × Tracked b h
    → SoundIn t.phase t h × InFlight t b h
current b t h (e, (sound, u, p)) =
    (subst (λ j. SoundWith j h) e sound, subst (λ v. InFlight v b h) (some_eq u t (sym p.0 ∙ e)) p)

opened_by :
    (p : TransactionPhase) (t : UpdateTransaction) (h : Host)
    → t.phase ≡ p
    → is_open p ≡ true
    → SoundIn p t h
    → IsOpen t
opened_by phase_prepared t h e ok s = (rw e refl, s.1, s.2)
opened_by phase_activating t h e ok s = (rw e refl, s.1, s.2)
opened_by phase_succeeded t h e ok s = (rw e refl, s.1, s.2)
opened_by (unknown_phase _) t h e ok s = (rw e refl, s.1, s.2)
opened_by phase_failed t h e ok s = cc

module _ (o : Operator) (t : UpdateTransaction) (b : Bytes) where
  -- In an open phase, the transaction is open.
  pub in_open :
      {A : Type 0} {m : Io A} {Q : A → Host → Type 0} (p : TransactionPhase)
      → t.phase ≡ p
      → is_open p ≡ true
      → (IsOpen t → Leads (InFlight t b) m Q (Tracked b) (Tracked b))
      → Leads (λ h. (h.journal ≡ some t) × Tracked b h) m Q (Tracked b) (Tracked b)
  in_open p e ok k =
      Leads-weaken
        (λ h c.
          let now = current b t h c in
          (opened_by p t h e ok (subst (λ ph. SoundIn ph t h) e now.0), now.1))
        (Leads-given k) (λ _ h q. q) (λ h q. q) (λ h q. q)

  activate_in-Tracked :
      (p : TransactionPhase)
      → t.phase ≡ p
      → Leads
          (λ h. (h.journal ≡ some t) × Tracked b h)
          (activate_in o p t)
          (λ _. Tracked b)
          (Tracked b)
          (Tracked b)
  unfolding activate_in
  activate_in-Tracked phase_succeeded e = Leads-pure tt (λ h q. q.1)
  activate_in-Tracked phase_activating e = in_open phase_activating e refl (activate-Leads o t b)
  activate_in-Tracked phase_prepared e = in_open phase_prepared e refl (activate-Leads o t b)
  activate_in-Tracked phase_failed e = Leads-raise _ (λ h q. q.1)
  activate_in-Tracked (unknown_phase _) e = Leads-raise _ (λ h q. q.1)

pub activate-Tracked : (o : Operator) (b : Bytes) → Keeps (Tracked b) (activate_transaction o)
unfolding activate_transaction acquire_host_lock
activate-Tracked o b = record {
  at = Leads-same (
      Leads-then (Leads-step _ (λ h p. p) (λ h p. p))
        (Leads-bind read-Leads (λ t. activate_in-Tracked o t b t.phase refl)));
}

-- What the recovery of a prepared transaction writes.
module _ (o : Operator) (t : UpdateTransaction) (b : Bytes) (ok : IsOpen t) where
  recover_prepared-Leads :
      Leads (InFlight t b) (recover_prepared o t) (λ _. Tracked b) (Tracked b) (Tracked b)
  unfolding recover_prepared acquire_host_lock recover_package_manager interrupted
  recover_prepared-Leads =
      let tracked = open-Tracked t b ok in
      Leads-then (Leads-step _ tracked tracked) (
        Leads-bind (Leads-keep (search keeps_rules depth 8) tracked tracked) (λ r.
          Leads-then
            (Leads-weaken (λ h p. p) (restore_prepared-Leads o t b t refl) (λ _ h p. p) tracked
              tracked)
            (written r)))
    where
      written :
          (r : Option Text)
          → Leads
              (Installed t b)
              (write_transaction (interrupted t r))
              (λ _. Tracked b)
              (Tracked b)
              (Tracked b)
      written r =
          let f = interrupted t r in
          Leads-last f b
            (λ h p.
              failed-Tracked f b refl (put_journal f h) (InFlight-put t f b refl h p.0) (inr p.1))
            (λ h p. open-Tracked t b ok h p.0)

module _ (o : Operator) (b : Bytes) where
  recover_in-Tracked :
      (t : UpdateTransaction) (p : TransactionPhase)
      → t.phase ≡ p
      → Leads
          (λ h. (h.journal ≡ some t) × Tracked b h)
          (recover_in o p t)
          (λ _. Tracked b)
          (Tracked b)
          (Tracked b)
  unfolding recover_in
  recover_in-Tracked t phase_succeeded e = Leads-pure tt (λ h q. q.1)
  recover_in-Tracked t phase_activating e =
      Leads-weaken (λ h q. q.1) (Leads-of_Keeps (activate-Tracked o b)) (λ _ h q. q) (λ h q. q)
        (λ h q. q)
  recover_in-Tracked t phase_prepared e =
      in_open o t b phase_prepared e refl (recover_prepared-Leads o t b)
  recover_in-Tracked t phase_failed e = Leads-pure tt (λ h q. q.1)
  recover_in-Tracked t (unknown_phase _) e = Leads-raise _ (λ h q. q.1)

  recover_journal-Tracked :
      (j : Option UpdateTransaction)
      → Leads
          (λ h. (h.journal ≡ j) × Tracked b h)
          (recover_journal o j)
          (λ _. Tracked b)
          (Tracked b)
          (Tracked b)
  unfolding recover_journal
  recover_journal-Tracked none = Leads-pure tt (λ h q. q.1)
  recover_journal-Tracked (some t) =
      Leads-if _ (Leads-raise _ (λ h q. q.1)) (recover_in-Tracked t t.phase refl)

  pub recover-Tracked : Keeps (Tracked b) (recover_transaction o)
  unfolding recover_transaction
  recover-Tracked = record {
    at = Leads-same (
        Leads-then (Leads-step _ (λ h p. p) (λ h p. p)) (
          Leads-bind {Q = λ j h. (h.journal ≡ j) × Tracked b h} (Leads-gets _ (λ h p. (refl, p)))
            recover_journal-Tracked));
  }
