-- ===== src/Selfupdate/Install.antt =====
-- The updates themselves: once the journal names the new directory, the binary that was live can be
-- brought back.
use nexa_panel.Prelude.{
  ◌≡◌, ◌⊎◌, inl, inr, refl, ◌∙◌, Bool, true, false, Option, some, List, [], ◌∷◌, Text, Bytes,
}
use nexa_panel.Selfupdate.Host.{
  Host, Kept, UpdateTransaction, Result, no_result, Operator, ControlDatabaseSnapshot,
}
use nexa_panel.Selfupdate.Io.{Io, World, Outcome, does, fails, stops, ◌>>=◌, ◌>>◌}
use nexa_panel.Selfupdate.Io.Keeps.{Keeps, keeps_rules}
use nexa_panel.Selfupdate.Io.Leads.{
  Leads, Leads-pure, Leads-raise, Leads-weaken, Leads-keep, Leads-bind, Leads-then, Leads-try,
  Leads-rescue,
}
use nexa_panel.Selfupdate.Io.Facts.{Leads-given, Leads-some}
use nexa_panel.Selfupdate.Frames.{Held, restore_host_snapshot-Held}
use nexa_panel.Selfupdate.Journal.{write_transaction, begin_activation}
use nexa_panel.Selfupdate.Activate.{recover_package_manager}
use nexa_panel.Selfupdate.Apply.{
  run_installer, installer_ends, sync_packaging, or_undo, undo_packaging, install_release,
  prepare_transaction, install_local, roll_back, validate_binary, prepared_state,
}
use nexa_panel.Selfupdate.Undo.{Stands, StandsLive, InFlight, Installed, install-InFlight}
use nexa_panel.Selfupdate.Sound.{
  IsOpen, IsSound, Tracked, open-Tracked, Leads-write, fail-Leads, undo-Leads,
}
use nexa_panel.Selfupdate.Safety.{activating, begin-Leads}
use nexa_panel.Selfupdate.Prepare.{Begun, Ready, prepare-Leads}

-- The journal can bring the binary back that was live.
abbrev pub Owed : Option Bytes → Host → Type 0
Owed live h = (b : Bytes) × ((live ≡ some b) × Tracked b h)

-- The node still runs on the live binary of before, or the journal can bring it back.
abbrev pub After : Option Bytes → Host → Type 0
After live h = (IsSound h × (h.binary ≡ live)) ⊎ Owed live h

module _ (o : Operator)
    (G : Option UpdateTransaction → List (Text × Kept) → Option Bytes → Type 0) where
  installer-Held :
      (os : List Outcome) (w : World) → Held G w.host → Held G (installer_ends o os w).1.host
  installer-Held [] w p = p
  installer-Held (does ∷ os) w p = p
  installer-Held (fails ∷ os) w p = p
  installer-Held (stops ∷ os) w p = p

  run_installer-Held : Keeps (Held G) (run_installer o)
  unfolding run_installer
  run_installer-Held = record { at = λ w p. installer-Held w.outcomes w p }

  sync_packaging-Held : Keeps (Held G) (sync_packaging o)
  unfolding sync_packaging
  sync_packaging-Held = search (keeps_rules, run_installer-Held)

module _ (o : Operator) (t s : UpdateTransaction) (b : Bytes)
    (same : s.preserved_binary ≡ t.preserved_binary) (ok : IsOpen t) where
  -- A step that keeps the kept binary, with the undoing of the update when it fails.
  or_undo-Leads :
      {A : Type 0} {m : Io A} (append : Bool)
      → Keeps (InFlight t b) m
      → Leads (InFlight t b) (or_undo o s append m) (λ _. InFlight t b) (Tracked b) (Tracked b)
  unfolding or_undo
  or_undo-Leads append k =
      Leads-rescue (Leads-keep k (λ h p. p) (open-Tracked t b ok))
        (λ e. undo-Leads t s b same ok o e append)

  undo_packaging-Leads :
      (id : Text) (cancelled : Bool) (e : Text)
      → Leads
          (Installed t b)
          (undo_packaging o id cancelled s e)
          (λ _. Installed t b)
          (Tracked b)
          (Tracked b)
  unfolding undo_packaging recover_package_manager
  undo_packaging-Leads id cancelled e =
      let tracked : (h : Host) → Installed t b h → Tracked b h = λ h p. open-Tracked t b ok h p.0 in
      Leads-then (Leads-keep (search keeps_rules depth 8) tracked tracked) (
        Leads-bind
          (Leads-weaken (λ h p. p)
            (Leads-try (
              Leads-keep (restore_host_snapshot-Held o (StandsLive t b) s.snapshot_dir) (λ h p. p.0)
                tracked))
            (λ r h p. p) (λ h p. p) (λ h p. p))
          (λ r. Leads-then (fail-Leads t s b same ok e r false) (Leads-raise e (λ h p. p))))

-- The journal is written for a transaction that keeps the live binary.
started-Leads :
    (t : UpdateTransaction) (id : Text) (live : Option Bytes) (b : Bytes)
    → IsOpen t
    → t.preserved_binary ≡ id
    → live ≡ some b
    → Leads (Ready id live b) (write_transaction t) (λ _. Installed t b) (After live) (After live)
started-Leads t id live b ok named l =
    let began : (h : Host) → Ready id live b h → After live h = λ h p. inl (p.0.0, p.0.2) in
    let after : (h : Host) → Installed t b h → After live h =
      λ h p. inr (b, (l, open-Tracked t b ok h p.0)) in
    Leads-write t (λ h p. ((refl, rw named p.1), p.0.2 ∙ l)) began began after after

-- The launch of the helper leaves the journal tracked, whether it is launched or undone.
launched-Leads :
    (o : Operator) (t s : UpdateTransaction) (b : Bytes)
    → s.preserved_binary ≡ t.preserved_binary
    → IsOpen t
    → IsOpen (activating s)
    → Leads (InFlight t b) (begin_activation o s) (λ _. Tracked b) (Tracked b) (Tracked b)
launched-Leads o t s b same ok next =
    Leads-weaken (λ h p. p) (begin-Leads o t s b same ok next)
      (λ _ h p. open-Tracked (activating s) b next h p) (λ h p. p) (λ h p. p)

Ready-After :
    (id : Text) (live : Option Bytes) (b : Bytes) (h : Host) → Ready id live b h → After live h
Ready-After id live b h p = inl (p.0.0, p.0.2)

module _ (o : Operator) (id : Text) (live : Option Bytes) where
  -- After the preparation, with the bytes that it kept.
  prepared-Leads :
      {A : Type 0} {k : Text × Text × ControlDatabaseSnapshot → Io A}
      → ((c : Text × Text × ControlDatabaseSnapshot) (b : Bytes)
          → live ≡ some b
          → c.1 ≡ id
          → Leads (Ready id live b) (k c) (λ _. Owed live) (After live) (After live))
      → Leads
          (Begun id live)
          (prepare_transaction o id >>= k)
          (λ _. Owed live)
          (After live)
          (After live)
  prepared-Leads next =
      Leads-bind
        (Leads-weaken (λ h p. p) (prepare-Leads o id live) (λ c h p. p) (λ h p. inl (p.0, p.2))
          (λ h p. inl (p.0, p.2)))
        (λ c. Leads-some (λ b. Leads-given (λ l. Leads-given (λ named. next c b l named))))

  -- Once the journal is written, the binary is owed.
  Owed-Leads :
      {A : Type 0} {m : Io A} {P : Host → Type 0} (b : Bytes)
      → live ≡ some b
      → Leads P m (λ _. Tracked b) (Tracked b) (Tracked b)
      → Leads P m (λ _. Owed live) (After live) (After live)
  Owed-Leads b l k =
      Leads-weaken (λ h p. p) k (λ _ h p. (b, (l, p))) (λ h p. inr (b, (l, p)))
        (λ h p. inr (b, (l, p)))

  pub install_release-Leads :
      (cancelled : Bool) (version : Text) (binary : Bytes)
      → Leads
          (Begun id live)
          (install_release o id cancelled version binary)
          (λ _. Owed live)
          (After live)
          (After live)
  unfolding install_release
  install_release-Leads cancelled version binary = prepared-Leads λ c b l named.
      let result : Result = record no_result {
        previous_version = o.installed;
        target_version = version;
      } in
      let s = prepared_state o id version o.installed c result in
      let t : UpdateTransaction = record s { packaging_running = true } in
      let ok : IsOpen t = (refl, refl, named) in
      Leads-then (started-Leads t id live b ok named l) (
        Owed-Leads b l (
          Leads-then
            (Leads-rescue
              (Leads-keep (sync_packaging-Held o (StandsLive t b)) (λ h p. p)
                (λ h p. open-Tracked t b ok h p.0))
              (undo_packaging-Leads o t s b refl ok id cancelled))
            (Leads-then
              (Leads-weaken (λ h p. p.0)
                (or_undo-Leads o t s b refl ok false (install-InFlight o t b binary version))
                (λ _ h p. p) (λ h p. p) (λ h p. p))
              (Leads-then
                (launched-Leads o t
                  (record s { result = record result { swapped = true; packaging_synced = true } })
                  b refl ok (refl, refl, named))
                (Leads-pure _ (λ h p. p))))))

  -- The last steps of an update, from its journal on.
  commit-Leads :
      {A B : Type 0} {m : Io A} {k : A → Io B} {t : UpdateTransaction} (append : Bool) (b : Bytes)
      → live ≡ some b
      → t.preserved_binary ≡ id
      → IsOpen t
      → Keeps (InFlight t b) m
      → ((a : A) → Leads (InFlight t b) (k a) (λ _. Tracked b) (Tracked b) (Tracked b))
      → Leads
          (Ready id live b)
          (write_transaction t >> (or_undo o t append m >>= k))
          (λ _. Owed live)
          (After live)
          (After live)
  commit-Leads {t = t} append b l named ok keeps next =
      Leads-then (started-Leads t id live b ok named l) (
        Owed-Leads b l (
          Leads-bind
            (Leads-weaken (λ h p. p.0) (or_undo-Leads o t t b refl ok append keeps) (λ _ h p. p)
              (λ h p. p) (λ h p. p))
            next))

  validate-Ready :
      (b binary : Bytes) (e : Text) → Keeps (Ready id live b) (validate_binary o binary e)
  unfolding validate_binary
  validate-Ready b binary e = search keeps_rules depth 12

  pub install_local-Leads :
      (binary : Bytes)
      → Leads (Begun id live) (install_local o id binary) (λ _. Owed live) (After live) (After live)
  unfolding install_local
  install_local-Leads binary = prepared-Leads λ c b l named.
      let began = Ready-After id live b in
      Leads-bind (Leads-keep (validate-Ready b binary []) began began) λ reported.
        commit-Leads true b l named (refl, refl, named) (install-InFlight o _ b binary [])
          (λ _. launched-Leads o _ _ b refl (refl, refl, named) (refl, refl, named))

  pub roll_back-Leads :
      (current : UpdateTransaction) (binary : Bytes)
      → Leads
          (Begun id live)
          (roll_back o id current binary)
          (λ _. Owed live)
          (After live)
          (After live)
  unfolding roll_back
  roll_back-Leads current binary = prepared-Leads λ c b l named.
      commit-Leads false b l named (refl, refl, named) (install-InFlight o _ b binary [])
        (λ reported.
          Leads-then
            (or_undo-Leads o _ _ b refl (refl, refl, named) false
              (restore_host_snapshot-Held o (Stands _ b) current.snapshot_dir))
            (launched-Leads o _ _ b refl (refl, refl, named) (refl, refl, named)))
