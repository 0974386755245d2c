-- ===== src/Selfupdate/Sound.antt =====
-- The invariant of an update's host, and how the steps on the journal keep it.
use nexa_panel.Prelude.{
  ◌≡◌, ◌⊎◌, inl, inr, refl, sym, ◌∙◌, subst, Bool, true, false, Option, none, some, Text, Bytes,
}
use nexa_panel.Selfupdate.Host.{
  Host, UpdateTransaction, TransactionPhase, phase_prepared, phase_activating, phase_succeeded,
  phase_failed, unknown_phase, Operator,
}
use nexa_panel.Selfupdate.Io.{kept_of, try, raise, ◌>>=◌, ◌>>◌}
use nexa_panel.Selfupdate.Io.Leads.{
  Leads, Tried, Leads-raise, Leads-weaken, Leads-bind, Leads-then, Leads-act, Leads-step, Leads-try,
}
use nexa_panel.Selfupdate.Io.Facts.{Leads-ignore}
use nexa_panel.Selfupdate.Journal.{
  put_journal, write_transaction, stamped, fail_transaction, restore_prepared_transaction,
}
use nexa_panel.Selfupdate.Undo.{InFlight, Installed, restore_prepared-Leads}

abbrev pub kept_binary : UpdateTransaction → Host → Option Bytes
kept_binary t h = (kept_of t.preserved_binary h).previous_nexa

-- The previous binary is at hand in the transaction's own directory, and no rollback is reported yet.
abbrev pub CanUndo : UpdateTransaction → Host → Type 0
CanUndo t h =
    ((b : Bytes) × (kept_binary t h ≡ some b))
    × (t.result.rolled_back ≡ false)
    × (t.preserved_binary ≡ t.id)

abbrev pub SoundIn : TransactionPhase → UpdateTransaction → Host → Type 0
SoundIn phase_prepared t h = CanUndo t h
SoundIn phase_activating t h = CanUndo t h
SoundIn phase_succeeded t h = CanUndo t h
SoundIn (unknown_phase _) t h = CanUndo t h
SoundIn phase_failed t h = (t.result.rolled_back ≡ false) ⊎ (h.binary ≡ kept_binary t h)

abbrev pub SoundWith : Option UpdateTransaction → Host → Type 0
SoundWith none h = Unit
SoundWith (some t) h = SoundIn t.phase t h

-- A transaction that has not failed can be undone; one that reports its rollback has the previous binary
-- live.
abbrev pub IsSound : Host → Type 0
IsSound h = SoundWith h.journal h

-- The transaction in the journal can bring the bytes `b` back.
abbrev pub Tracked : Bytes → Host → Type 0
Tracked b h = IsSound h × (t : UpdateTransaction) × InFlight t b h

abbrev pub is_open : TransactionPhase → Bool
is_open phase_failed = false
is_open _ = true

open-SoundIn :
    (p : TransactionPhase) (t : UpdateTransaction) (h : Host)
    → is_open p ≡ true
    → CanUndo t h
    → SoundIn p t h
open-SoundIn phase_prepared t h e c = c
open-SoundIn phase_activating t h e c = c
open-SoundIn phase_succeeded t h e c = c
open-SoundIn (unknown_phase _) t h e c = c
open-SoundIn phase_failed t h e c = cc

abbrev pub IsOpen : UpdateTransaction → Type 0
IsOpen t = (is_open t.phase ≡ true) × (t.result.rolled_back ≡ false) × (t.preserved_binary ≡ t.id)

pub open-Tracked :
    (t : UpdateTransaction) (b : Bytes) → IsOpen t → (h : Host) → InFlight t b h → Tracked b h
open-Tracked t b ok h p = (
  subst (λ j. SoundWith j h) (sym p.0) (open-SoundIn t.phase t h ok.0 ((b, p.1), ok.1, ok.2)),
  t,
  p,
)

pub failed-Tracked :
    (t : UpdateTransaction) (b : Bytes)
    → t.phase ≡ phase_failed
    → (h : Host) → InFlight t b h
    → (t.result.rolled_back ≡ false) ⊎ (h.binary ≡ some b)
    → Tracked b h
failed-Tracked t b failed h p back = (
  subst (λ j. SoundWith j h) (sym p.0) (subst (λ ph. SoundIn ph t h) (sym failed) (honest back)),
  t,
  p,
)
  where
    honest :
        (t.result.rolled_back ≡ false) ⊎ (h.binary ≡ some b)
        → (t.result.rolled_back ≡ false) ⊎ (h.binary ≡ kept_binary t h)
    honest (inl e) = inl e
    honest (inr e) = inr (e ∙ sym p.1)

pub Leads-write :
    {P S F C : Host → Type 0} (t : UpdateTransaction)
    → ((h : Host) → P h → S (put_journal t h))
    → ((h : Host) → P h → F h)
    → ((h : Host) → P h → C h)
    → ((h : Host) → S h → F h)
    → ((h : Host) → S h → C h)
    → Leads P (write_transaction t) (λ _. S) F C
unfolding write_transaction
Leads-write t put pf pc sf sc =
    Leads-then (Leads-step _ pf pc)
      (Leads-then (Leads-act _ (put_journal t) put pf pc) (Leads-step _ sf sc))

-- Writing a journal that names the same directory.
pub InFlight-put :
    (t s : UpdateTransaction) (b : Bytes)
    → s.preserved_binary ≡ t.preserved_binary
    → (h : Host) → InFlight t b h
    → InFlight s b (put_journal s h)
InFlight-put t s b same h p = (refl, rw same p.1)

-- A journal that is written in the end, from any precondition under which it may be.
pub Leads-last :
    {P : Host → Type 0} (s : UpdateTransaction) (b : Bytes)
    → ((h : Host) → P h → Tracked b (put_journal s h))
    → ((h : Host) → P h → Tracked b h)
    → Leads P (write_transaction s) (λ _. Tracked b) (Tracked b) (Tracked b)
Leads-last s b put keep = Leads-write s put keep keep (λ h p. p) (λ h p. p)

module _ (t s : UpdateTransaction) (b : Bytes) (same : s.preserved_binary ≡ t.preserved_binary)
    (ok : IsOpen t) where
  pub opened : (h : Host) → InFlight t b h → Tracked b h
  opened h p = open-Tracked t b ok h p

  -- After a restoration that was tried, the failure is recorded as it is.
  pub fail-Leads :
      (cause : Text) (restore_err : Option Text) (append : Bool)
      → Leads
          (Tried (Installed t b) (InFlight t b) restore_err)
          (fail_transaction s cause restore_err append)
          (λ _. Tracked b)
          (Tracked b)
          (Tracked b)
  unfolding fail_transaction stamped
  fail-Leads cause none append =
      let f = stamped s cause none append in
      Leads-ignore (
        Leads-last f b
          (λ h p.
            failed-Tracked f b refl (put_journal f h) (InFlight-put t f b same h p.0) (inr p.1))
          (λ h p. opened h p.0))
  fail-Leads cause (some e) append =
      let f = stamped s cause (some e) append in
      Leads-ignore (
        Leads-last f b
          (λ h p.
            failed-Tracked f b refl (put_journal f h) (InFlight-put t f b same h p) (inl refl))
          opened)

  -- An error after which the prepared transaction is restored and recorded as failed.
  pub undo-Leads :
      {A : Type 0} (o : Operator) (e : Text) (append : Bool)
      → Leads {A = A}
          (InFlight t b)
          (try (restore_prepared_transaction o s) >>= λ restore_err.
            fail_transaction s e restore_err append >> raise e)
          (λ _. InFlight t b)
          (Tracked b)
          (Tracked b)
  undo-Leads o e append =
      Leads-bind
        (Leads-weaken (λ h p. p) (Leads-try (restore_prepared-Leads o t b s same)) (λ r h p. p)
          opened opened)
        (λ r. Leads-then (fail-Leads e r append) (Leads-raise e (λ h p. p)))
