-- ===== src/Selfupdate/Safety.antt =====
-- Activation, recovery and the wait for it, from a journal that can bring `b` back, whichever of their
-- acts fail and wherever the host stops.
use nexa_panel.Prelude.{
  ◌≡◌, ◌⊎◌, inl, inr, refl, subst, Bool, true, false, Option, none, some, List, [], ◌∷◌, Text,
  Bytes, codes, lookup, lookup-delete, not, text_eq,
}
use nexa_panel.Selfupdate.Host.{Host, Kept, UpdateTransaction, phase_activating, Operator}
use nexa_panel.Selfupdate.Io.{kept_at, act, ignore, when}
use nexa_panel.Selfupdate.Io.Keeps.{
  Keeps, Keeps-act, Keeps-then, Keeps-try, Keeps-when, Keeps-ignore, Keeps-pure, keeps_rules,
}
use nexa_panel.Selfupdate.Io.Leads.{
  Leads, Tried, Leads-raise, Leads-weaken, Leads-keep, Leads-bind, Leads-then, Leads-step,
  Leads-try, Leads-rescue, Leads-of_Keeps,
}
use nexa_panel.Selfupdate.Io.Facts.{Leads-ignore, Leads-either}
use nexa_panel.Selfupdate.Journal.{
  put_journal, write_transaction, launch_activation, begin_activation, restore_prepared_transaction,
}
use nexa_panel.Selfupdate.Activate.{
  activate, conclude, succeeded, activation_failed, remove_obsolete_transactions, remove_all,
  drop_kept,
}
use nexa_panel.Selfupdate.Undo.{
  Stands, InFlight, Installed, restore_prepared-InFlight, restore_transaction-Leads,
  prepare_activation-Held, activate_services-Held,
}
use nexa_panel.Selfupdate.Sound.{
  IsOpen, Tracked, open-Tracked, failed-Tracked, Leads-write, Leads-last, InFlight-put, opened,
  undo-Leads,
}

abbrev pub activating : UpdateTransaction → UpdateTransaction
activating s = record s { phase = phase_activating }

module _ (o : Operator) (t s : UpdateTransaction) (b : Bytes)
    (same : s.preserved_binary ≡ t.preserved_binary) (ok : IsOpen t)
    (fresh : IsOpen (activating s)) where
  -- The journal is the prepared or the activating one.
  abbrev Either : Host → Type 0
  Either h = InFlight t b h ⊎ InFlight (activating s) b h

  either-Tracked : (h : Host) → Either h → Tracked b h
  either-Tracked h (inl p) = opened t s b same ok h p
  either-Tracked h (inr p) = opened (activating s) s b refl fresh h p

  restore-Either :
      Leads Either
        (restore_prepared_transaction o (activating s))
        (λ _. Tracked b)
        (Tracked b)
        (Tracked b)
  restore-Either =
      let q = activating s in
      Leads-either
        (Leads-weaken (λ h p. p) (Leads-of_Keeps (restore_prepared-InFlight o t b q))
          (λ _. opened t s b same ok) (opened t s b same ok) (opened t s b same ok))
        (Leads-weaken (λ h p. p) (Leads-of_Keeps (restore_prepared-InFlight o q b q))
          (λ _. opened q s b refl fresh) (opened q s b refl fresh) (opened q s b refl fresh))

  -- The launch of the helper, or its undoing.
  pub begin-Leads :
      Leads
        (InFlight t b)
        (begin_activation o s)
        (λ _. InFlight (activating s) b)
        (Tracked b)
        (Tracked b)
  unfolding begin_activation launch_activation
  begin-Leads =
      let q = activating s in
      Leads-then
        (Leads-rescue
          (Leads-write {F = Either} q (λ h p. InFlight-put t q b same h p) (λ h p. inl p)
            (λ h p. opened t s b same ok h p) (λ h p. inr p) (opened q s b refl fresh))
          (λ e. Leads-then (Leads-ignore restore-Either) (Leads-raise e (λ h p. p))))
        (Leads-rescue (Leads-step {F = InFlight q b} _ (λ h p. p) (opened q s b refl fresh))
          (λ e. undo-Leads q q b refl fresh o e true))

module _ (t : UpdateTransaction) (b : Bytes) (named : t.preserved_binary ≡ t.id) where
  deleted :
      (id : Text) (h : Host)
      → text_eq id t.id ≡ false
      → InFlight t b h
      → InFlight t b (drop_kept id h)
  deleted id h differs p = (
    p.0,
    rw (lookup-delete id t.preserved_binary h.kept, named, differs)
        (subst (λ i. (kept_at (lookup i h.kept)).previous_nexa ≡ some b) named p.1),
  )

  -- The directory of the current transaction stays.
  remove_all-InFlight :
      (present : List (Text × Kept)) → Keeps (InFlight t b) (remove_all t.id present)
  unfolding remove_all when
  remove_all-InFlight [] = search keeps_rules
  remove_all-InFlight ((id, _) ∷ rest) =
      Keeps-then (kept_current (text_eq id t.id) refl) (remove_all-InFlight rest)
    where
      kept_current :
          (same : Bool)
          → text_eq id t.id ≡ same
          → Keeps
              (InFlight t b)
              (when (not same) (ignore (act (codes "remove obsolete transaction") (drop_kept id))))
      kept_current true e = Keeps-pure tt
      kept_current false e =
          Keeps-when true (Keeps-ignore (Keeps-act _ _ (λ h p. deleted id h e p)))

  remove_obsolete-InFlight : Keeps (InFlight t b) (remove_obsolete_transactions t.id)
  unfolding remove_obsolete_transactions
  remove_obsolete-InFlight = search (keeps_rules, remove_all-InFlight)

module _ (o : Operator) (t : UpdateTransaction) (b : Bytes) (ok : IsOpen t) where
  abbrev tracked : (h : Host) → InFlight t b h → Tracked b h
  tracked = open-Tracked t b ok

  -- The journal of a failed activation says that it was rolled back only where it was.
  failed-Leads :
      (e : Text) (r : Option Text)
      → Leads
          (Tried (Installed t b) (InFlight t b) r)
          (write_transaction (activation_failed t e r))
          (λ _. Tracked b)
          (Tracked b)
          (Tracked b)
  unfolding activation_failed
  failed-Leads e none =
      let f = activation_failed t e none in
      Leads-last f b
        (λ h p. failed-Tracked f b refl (put_journal f h) (InFlight-put t f b refl h p.0) (inr p.1))
        (λ h p. tracked h p.0)
  failed-Leads e (some r) =
      let f = activation_failed t e (some r) in
      Leads-last f b
        (λ h p. failed-Tracked f b refl (put_journal f h) (InFlight-put t f b refl h p) (inl ok.1))
        tracked

  conclude-Leads :
      (err : Option Text)
      → Leads (InFlight t b) (conclude o t err) (λ _. Tracked b) (Tracked b) (Tracked b)
  unfolding conclude
  conclude-Leads none =
      let f = succeeded t in
      let done : (h : Host) → InFlight f b h → Tracked b h = open-Tracked f b (refl, ok.1, ok.2) in
      Leads-then (Leads-write f (λ h p. InFlight-put t f b refl h p) tracked tracked done done) (
        Leads-weaken (λ h p. p) (Leads-of_Keeps (remove_obsolete-InFlight f b ok.2)) (λ _. done)
          done done)
  conclude-Leads (some e) =
      Leads-bind
        (Leads-weaken (λ h p. p) (Leads-try (restore_transaction-Leads o t b t refl)) (λ r h p. p)
          tracked tracked)
        (λ r. Leads-then (failed-Leads e r) (Leads-raise _ (λ h p. p)))

  pub activate-Leads : Leads (InFlight t b) (activate o t) (λ _. Tracked b) (Tracked b) (Tracked b)
  unfolding activate
  activate-Leads =
      let run = Keeps-try (
        Keeps-then (prepare_activation-Held o (Stands t b) t.activation_database_restore)
          (activate_services-Held o (Stands t b) t.target_version)) in
      Leads-bind (Leads-keep run tracked tracked) conclude-Leads
