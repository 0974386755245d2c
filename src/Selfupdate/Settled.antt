-- ===== src/Selfupdate/Settled.antt =====
-- A recovery that returns leaves no update under way.
use nexa_panel.Prelude.{
  ◌≡◌, refl, ap, subst, sym, true, not, Option, none, some, List, [], ◌∷◌, Text, text_eq,
}
use nexa_panel.Selfupdate.Host.{
  Host, Kept, UpdateTransaction, TransactionPhase, phase_prepared, phase_activating,
  phase_succeeded, phase_failed, unknown_phase, Operator, is_terminal,
}
use nexa_panel.Selfupdate.Io.{Io, World, Ended, done, fault, cut}
use nexa_panel.Selfupdate.Io.Keeps.{
  Keeps, Keeps-act, Keeps-pure, Keeps-then, Keeps-when, Keeps-ignore, keeps_rules,
}
use nexa_panel.Selfupdate.Io.Leads.{
  Leads, Verdict, Leads-pure, Leads-raise, Leads-gets, Leads-weaken, Leads-bind, Leads-then,
  Leads-if, Leads-of_Keeps,
}
use nexa_panel.Selfupdate.Journal.{write_transaction}
use nexa_panel.Selfupdate.Activate.{
  drop_kept, remove_all, remove_obsolete_transactions, succeeded, conclude, activate, activate_in,
  activate_transaction, interrupted, recover_prepared, recover_in, recover_journal,
  recover_transaction,
}
use nexa_panel.Selfupdate.Sound.{Leads-write}
use nexa_panel.Selfupdate.Recovery.{read-Leads}

-- No journal, or one in a phase that its transaction does not leave.
abbrev pub SettledWith : Option UpdateTransaction → Type 0
SettledWith none = Unit
SettledWith (some t) = is_terminal t.phase ≡ true

abbrev pub IsSettled : Host → Type 0
IsSettled h = SettledWith h.journal

abbrev Anything : Host → Type 0
Anything h = Unit

anything : {A : Type 0} (P : Host → Type 0) (m : Io A) → Leads P m (λ _. Anything) Anything Anything
anything P m =
    Leads-weaken {P = Anything} (λ h p. tt) (Leads-of_Keeps (record { at = λ w p. tt }))
      (λ a h p. tt) (λ h p. tt) (λ h p. tt)

-- It settles if it returns.
abbrev Settles : {A : Type 0} → (Host → Type 0) → Io A → Type 0
Settles P m = Leads P m (λ _. IsSettled) Anything Anything

remove_all-IsSettled :
    (id : Text) (present : List (Text × Kept)) → Keeps IsSettled (remove_all id present)
unfolding remove_all
remove_all-IsSettled id [] = Keeps-pure tt
remove_all-IsSettled id ((j, _) ∷ rest) =
    Keeps-then
      (Keeps-when (not (text_eq j id)) (Keeps-ignore (Keeps-act _ (drop_kept j) (λ h p. p))))
      (remove_all-IsSettled id rest)

written :
    {P : Host → Type 0} (t : UpdateTransaction)
    → is_terminal t.phase ≡ true
    → Settles P (write_transaction t)
written t e = Leads-write t (λ h p. e) (λ h p. tt) (λ h p. tt) (λ h p. tt) (λ h p. tt)

module _ (o : Operator) where
  conclude-Settles : (t : UpdateTransaction) (r : Option Text) → Settles Anything (conclude o t r)
  unfolding conclude remove_obsolete_transactions
  conclude-Settles t none = Leads-then (written (succeeded t) refl) (
      Leads-weaken (λ h p. p) (Leads-of_Keeps (search (keeps_rules, remove_all-IsSettled)))
        (λ _ h p. p) (λ h p. tt) (λ h p. tt))
  conclude-Settles t (some e) =
      Leads-bind (anything Anything _) (λ r. Leads-then (anything _ _) (Leads-raise _ (λ h p. tt)))

  activate_in-Settles :
      {P : Host → Type 0} (p : TransactionPhase) (t : UpdateTransaction)
      → t.phase ≡ p
      → Settles (λ h. (h.journal ≡ some t) × P h) (activate_in o p t)
  unfolding activate_in activate
  activate_in-Settles phase_succeeded t e =
      Leads-pure tt (λ h p. subst SettledWith (sym p.0) (rw e refl))
  activate_in-Settles phase_prepared t e = Leads-bind (anything _ _) (conclude-Settles t)
  activate_in-Settles phase_activating t e = Leads-bind (anything _ _) (conclude-Settles t)
  activate_in-Settles phase_failed t e = Leads-raise _ (λ h p. tt)
  activate_in-Settles (unknown_phase _) t e = Leads-raise _ (λ h p. tt)

  activate-Settles : (P : Host → Type 0) → Settles P (activate_transaction o)
  unfolding activate_transaction
  activate-Settles P = Leads-then (anything P _) (
      Leads-bind (Leads-weaken (λ h p. p) read-Leads (λ t h p. p) (λ h p. tt) (λ h p. tt))
        (λ t. activate_in-Settles t.phase t refl))

  recover_in-Settles :
      (p : TransactionPhase) (t : UpdateTransaction)
      → t.phase ≡ p
      → Settles (λ h. h.journal ≡ some t) (recover_in o p t)
  unfolding recover_in recover_prepared interrupted
  recover_in-Settles phase_succeeded t e =
      Leads-pure tt (λ h p. subst SettledWith (sym p) (rw e refl))
  recover_in-Settles phase_failed t e = Leads-pure tt (λ h p. subst SettledWith (sym p) (rw e refl))
  recover_in-Settles phase_activating t e = activate-Settles _
  recover_in-Settles phase_prepared t e =
      Leads-then (anything _ _) (
        Leads-bind (anything _ _) (λ r. Leads-then (anything _ _) (written (interrupted t r) refl)))
  recover_in-Settles (unknown_phase _) t e = Leads-raise _ (λ h p. tt)

  recover_journal-Settles :
      (j : Option UpdateTransaction) → Settles (λ h. h.journal ≡ j) (recover_journal o j)
  unfolding recover_journal
  recover_journal-Settles none = Leads-pure tt (λ h p. subst SettledWith (sym p) tt)
  recover_journal-Settles (some t) =
      Leads-if _ (Leads-raise _ (λ h p. tt)) (recover_in-Settles t.phase t refl)

  recover-Settles : Settles Anything (recover_transaction o)
  unfolding recover_transaction
  recover-Settles =
      Leads-then (anything _ _)
        (Leads-bind {Q = λ j h. h.journal ≡ j} (Leads-gets _ (λ h p. refl)) recover_journal-Settles)

  IsSettled-verdict :
      (r : Ended (Unit {0}) × World) {w : World}
      → Verdict (λ _. IsSettled) Anything Anything r
      → r ≡ (done tt, w)
      → IsSettled w.host
  IsSettled-verdict (done _, w) v e =
      subst (λ (w : World). IsSettled w.host) (ap (λ (r : Ended (Unit {0}) × World). r.1) e) v
  IsSettled-verdict (fault _, w) v e = absurd (cc)
  IsSettled-verdict (cut, w) v e = absurd (cc)

  -- When the recovery after a restart returns without an error, whatever the journal was and whichever acts
  -- inside it failed on the way, there is no journal or its transaction is in a phase that it does not leave.
  pub recover_settles : (w w' : World) → recover_transaction o w ≡ (done tt, w') → IsSettled w'.host
  recover_settles w w' e = IsSettled-verdict (recover_transaction o w) (recover-Settles.at w tt) e
