-- ===== src/Selfupdate/Undo.antt =====
-- The two restorations, of a transaction that was prepared and of one whose activation failed: what they
-- leave alone, and the binary that they leave live.
use nexa_panel.Prelude.{
  ℕ, zero, suc, ◌≡◌, refl, ap, sym, ◌∙◌, Bool, true, false, Option, none, some, some_eq, List, [],
  Text, Bytes, lookup,
}
use nexa_panel.Selfupdate.Host.{Host, Kept, UpdateTransaction, ControlDatabaseSnapshot, Operator}
use nexa_panel.Selfupdate.Io.{Io, kept_at, kept_of, act}
use nexa_panel.Selfupdate.Io.Keeps.{Keeps, Keeps-act, Keeps-bind, Keeps-then, keeps_rules}
use nexa_panel.Selfupdate.Io.Leads.{
  Leads, Leads-pure, Leads-gets, Leads-or_raise, Leads-keep, Leads-bind, Leads-then, Leads-act,
  Leads-step, Leads-raise_if,
}
use nexa_panel.Selfupdate.Io.Facts.{Leads-given}
use nexa_panel.Selfupdate.Frames.{Held, restore_host_snapshot-Held, restore_control_database-Held}
use nexa_panel.Selfupdate.Journal.{
  put_binary, install_staged_binary, read_preserved, restore_prepared_transaction,
}
use nexa_panel.Selfupdate.Activate.{
  start_api, started, serves, again, stop_api, poll_ready, wait_api_ready, activate_services,
  prepare_activation_database, services_back, restore_transaction,
}

-- The journal is `t`, and the directory that it names for the previous binary holds `b`.
abbrev pub Stands :
    UpdateTransaction
    → Bytes
    → Option UpdateTransaction
    → List (Text × Kept)
    → Option Bytes
    → Type 0
Stands t b journal kept live =
    (journal ≡ some t) × ((kept_at (lookup t.preserved_binary kept)).previous_nexa ≡ some b)

abbrev pub InFlight : UpdateTransaction → Bytes → Host → Type 0
InFlight t b = Held (Stands t b)

abbrev pub StandsLive :
    UpdateTransaction
    → Bytes
    → Option UpdateTransaction
    → List (Text × Kept)
    → Option Bytes
    → Type 0
StandsLive t b journal kept live = Stands t b journal kept live × (live ≡ some b)

-- The same, and `b` is the live binary.
abbrev pub Installed : UpdateTransaction → Bytes → Host → Type 0
Installed t b = Held (StandsLive t b)

module _ (o : Operator) (t : UpdateTransaction) (b : Bytes) where
  pub install-InFlight :
      (binary : Bytes) (e : Text) → Keeps (InFlight t b) (install_staged_binary o binary e)
  unfolding install_staged_binary
  install-InFlight binary e = search (keeps_rules, Keeps-act) depth 12

  read_preserved-InFlight : (id : Text) → Keeps (InFlight t b) (read_preserved id)
  unfolding read_preserved
  read_preserved-InFlight id = search keeps_rules

  pub restore_prepared-InFlight :
      (s : UpdateTransaction) → Keeps (InFlight t b) (restore_prepared_transaction o s)
  unfolding restore_prepared_transaction
  restore_prepared-InFlight s =
      let files = restore_host_snapshot-Held o (Stands t b) s.snapshot_dir in
      Keeps-bind (read_preserved-InFlight s.preserved_binary)
        (λ previous. Keeps-then (install-InFlight previous []) files)

  -- The bytes that were kept are read.
  read_preserved-Leads :
      (id : Text)
      → id ≡ t.preserved_binary
      → Leads
          (InFlight t b)
          (read_preserved id)
          (λ a h. (a ≡ b) × InFlight t b h)
          (InFlight t b)
          (InFlight t b)
  unfolding read_preserved
  read_preserved-Leads id same = Leads-then (Leads-step _ (λ h p. p) (λ h p. p)) (
      Leads-bind {Q = λ v h. (v ≡ some b) × InFlight t b h}
        (Leads-gets _ (λ h p. (ap_kept h ∙ p.1, p)))
        (λ v.
          Leads-or_raise v _ (λ a h found p. (some_eq a b (sym found ∙ p.0), p.1)) (λ h p. p.1)))
    where
      ap_kept :
          (h : Host) → (kept_of id h).previous_nexa ≡ (kept_of t.preserved_binary h).previous_nexa
      ap_kept h = rw same refl

  -- A staged binary that runs becomes the live one.
  pub install-Leads :
      (a : Bytes) (e : Text)
      → a ≡ b
      → Leads
          (InFlight t b)
          (install_staged_binary o a e)
          (λ _. Installed t b)
          (InFlight t b)
          (InFlight t b)
  unfolding install_staged_binary
  install-Leads a e same = Leads-then (Leads-step _ (λ h p. p) (λ h p. p)) (
      Leads-then (Leads-step _ (λ h p. p) (λ h p. p)) (
        Leads-bind (Leads-or_raise _ _ (λ a h found p. p) (λ h p. p)) (λ output.
          Leads-then (Leads-raise_if _ _ (λ h p. p)) (
            Leads-then (Leads-act _ (put_binary a) (λ h p. (p, ap some same)) (λ h p. p) (λ h p. p))
              (Leads-then (Leads-step _ (λ h p. p.0) (λ h p. p.0)) (Leads-pure _ (λ h p. p)))))))

  -- A prepared transaction whose restoration succeeds leaves the previous binary live.
  pub restore_prepared-Leads :
      (s : UpdateTransaction)
      → s.preserved_binary ≡ t.preserved_binary
      → Leads
          (InFlight t b)
          (restore_prepared_transaction o s)
          (λ _. Installed t b)
          (InFlight t b)
          (InFlight t b)
  unfolding restore_prepared_transaction
  restore_prepared-Leads s same = Leads-bind (read_preserved-Leads s.preserved_binary same) (λ a.
      Leads-given λ same_bytes. Leads-then (install-Leads a [] same_bytes) (
        Leads-keep (restore_host_snapshot-Held o (StandsLive t b) s.snapshot_dir) (λ h p. p.0)
          (λ h p. p.0)))

module _ (o : Operator)
    (G : Option UpdateTransaction → List (Text × Kept) → Option Bytes → Type 0) where
  started-Held : (binary : Option Bytes) (h : Host) → Held G h → Held G (started o binary h)
  started-Held none h p = p
  started-Held (some binary) h p = p

  start_api-Held : (e : Text) → Keeps (Held G) (act e (start_api o))
  start_api-Held e = Keeps-act e (start_api o) (λ h p. started-Held h.binary h p)

  again-Held :
      (silent : Option Text) (answer : Bool) {rest : Io (Unit {0})}
      → Keeps (Held G) rest
      → Keeps (Held G) (again silent answer rest)
  again-Held none true k = search keeps_rules
  again-Held none false k = k
  again-Held (some _) _ k = k

  poll_ready-Held : (expected : Text) (n : ℕ) → Keeps (Held G) (poll_ready o expected n)
  unfolding poll_ready
  poll_ready-Held expected zero = search keeps_rules
  poll_ready-Held expected (suc n) =
      let rest = poll_ready-Held expected n in
      Keeps-bind (search keeps_rules) (λ silent.
        Keeps-bind (search keeps_rules)
          (λ answer. again-Held silent (serves o expected answer) rest))

  pub wait_api_ready-Held : (version : Text) → Keeps (Held G) (wait_api_ready o version)
  unfolding wait_api_ready
  wait_api_ready-Held version = search poll_ready-Held

  pub activate_services-Held : (version : Text) → Keeps (Held G) (activate_services o version)
  unfolding activate_services
  activate_services-Held version =
      search (keeps_rules, wait_api_ready-Held, start_api-Held) depth 14

  stop_api-Held : Keeps (Held G) stop_api
  unfolding stop_api
  stop_api-Held = search Keeps-act

  pub prepare_activation-Held :
      (snapshot : Option ControlDatabaseSnapshot)
      → Keeps (Held G) (prepare_activation_database o snapshot)
  unfolding prepare_activation_database
  prepare_activation-Held none = search keeps_rules
  prepare_activation-Held (some snapshot) =
      search (keeps_rules, stop_api-Held, restore_control_database-Held)

  -- What `restoreTransaction` does after the files are back.
  services_back-Held : (s : UpdateTransaction) → Keeps (Held G) (services_back o s)
  unfolding services_back
  services_back-Held s =
      search (keeps_rules, restore_control_database-Held, start_api-Held, wait_api_ready-Held) depth
        14

module _ (o : Operator) (t : UpdateTransaction) (b : Bytes) where
  -- A restoration that succeeds after a failed activation leaves the previous binary live.
  pub restore_transaction-Leads :
      (s : UpdateTransaction)
      → s.preserved_binary ≡ t.preserved_binary
      → Leads
          (InFlight t b)
          (restore_transaction o s)
          (λ _. Installed t b)
          (InFlight t b)
          (InFlight t b)
  unfolding restore_transaction
  restore_transaction-Leads s same =
      Leads-then (Leads-keep (stop_api-Held o (Stands t b)) (λ h p. p) (λ h p. p)) (
        Leads-then (restore_prepared-Leads o t b s same)
          (Leads-keep (services_back-Held o (StandsLive t b) s) (λ h p. p.0) (λ h p. p.0)))
