-- ===== src/Selfupdate/History.antt =====
-- Any sequence of updates, helpers and recoveries, each of which may fail or stop anywhere.
use nexa_panel.Prelude.{inr, refl, Bool, Option, List, Text, Bytes}
use nexa_panel.Selfupdate.Host.{Host, Node, Operator}
use nexa_panel.Selfupdate.Io.{Io, World, Outcome, ignore, ◌>>◌}
use nexa_panel.Selfupdate.Io.Leads.{Leads, Leads-weaken, Leads-same}
use nexa_panel.Selfupdate.Io.Facts.{Leads-ignore}
use nexa_panel.Selfupdate.Activate.{activate_transaction, recover_transaction}
use nexa_panel.Selfupdate.Apply.{apply_local_binary, rollback, wait_for_activation}
use nexa_panel.Selfupdate.Update.{Source, apply_release, apply}
use nexa_panel.Selfupdate.Sound.{IsSound}
use nexa_panel.Selfupdate.Prepare.{IsFresh}
use nexa_panel.Selfupdate.Install.{Owed, After}
use nexa_panel.Selfupdate.Operations.{activate-IsSound, recover-IsSound}
use nexa_panel.Selfupdate.Entries.{apply_local-Leads, rollback-Leads}
use nexa_panel.Selfupdate.Resume.{After-IsSound, update_waits, apply-Leads}

-- The entry points, each with the polls of its wait, in which the helper may run, and the id it draws.
pub data Operation : Type 0 where
  applying : List Bool → Text → Bool → Text → Operation
  applying_local : List Bool → Text → Text → Option Node → Operation
  rolling_back : List Bool → Text → Operation
  activating recovering : Operation

-- The three that replace the binary: a release, a local file, the binary of before.
pub data Change : Type 0 where
  to_release : Bool → Text → Change
  to_local : Text → Option Node → Change
  to_previous : Change

module _ (o : Operator) (source : Source) where
  abbrev pub perform : Operation → Io (Unit {0})
  perform (applying ticks id cancelled version) = ignore (apply o source ticks id cancelled version)
  perform (applying_local ticks id path file) = ignore (apply_local_binary o id ticks path file)
  perform (rolling_back ticks id) = ignore (rollback o id ticks)
  perform activating = activate_transaction o
  perform recovering = recover_transaction o

  abbrev pub change : List Bool → Text → Change → Io (Unit {0})
  change ticks id (to_release cancelled version) =
      ignore (apply_release o source id cancelled version >> wait_for_activation o ticks)
  change ticks id (to_local path file) = ignore (apply_local_binary o id ticks path file)
  change ticks id to_previous = ignore (rollback o id ticks)

  -- The ids that operations draw are not those of the journal.
  abbrev pub DrawsFresh : Operation → Host → Type 0
  DrawsFresh (applying _ id _ _) h = IsFresh id h
  DrawsFresh (applying_local _ id _ _) h = IsFresh id h
  DrawsFresh (rolling_back _ id) h = IsFresh id h
  DrawsFresh activating h = Unit
  DrawsFresh recovering h = Unit

  -- One operation after another, each with the outcomes of its acts.
  pub data Reach (h : Host) : Host → Type 0 where
    here : Reach h h
    next :
        {g : Host}
        → Reach h g
        → (operation : Operation) (outcomes : List Outcome) → DrawsFresh operation g
        → Reach h (perform operation (record { host = g; outcomes = outcomes })).1.host

  ignored :
      {A : Type 0} {m : Io A} {P : Host → Type 0}
      → Leads P m (λ _. IsSound) IsSound IsSound
      → (w : World) → P w.host
      → IsSound (ignore m w).1.host
  ignored l = Leads-same (Leads-ignore l)

  weakly :
      {A : Type 0} {m : Io A} {P : Host → Type 0} (live : Option Bytes)
      → Leads P m (λ _. Owed live) (After live) (After live)
      → Leads P m (λ _. After live) (After live) (After live)
  weakly live l = Leads-weaken (λ h p. p) l (λ _ h p. inr p) (λ h p. p) (λ h p. p)

  soundly :
      {A : Type 0} {m : Io A} {P : Host → Type 0} (live : Option Bytes)
      → Leads P m (λ _. Owed live) (After live) (After live)
      → Leads P m (λ _. IsSound) IsSound IsSound
  soundly live l =
      Leads-weaken (λ h p. p) l (λ _ h p. p.1.1.0) (After-IsSound live) (After-IsSound live)

  perform-IsSound :
      (operation : Operation) (w : World)
      → DrawsFresh operation w.host
      → IsSound w.host
      → IsSound (perform operation w).1.host
  perform-IsSound (applying ticks id cancelled version) w fresh s =
      ignored (apply-Leads o source id w.host.binary ticks cancelled version) w (s, fresh, refl)
  perform-IsSound (applying_local ticks id path file) w fresh s =
      ignored (soundly w.host.binary (apply_local-Leads o id w.host.binary ticks path file)) w
        (s, fresh, refl)
  perform-IsSound (rolling_back ticks id) w fresh s =
      ignored (soundly w.host.binary (rollback-Leads o id w.host.binary ticks)) w (s, fresh, refl)
  perform-IsSound activating w fresh s = (activate-IsSound o).at w s
  perform-IsSound recovering w fresh s = (recover-IsSound o).at w s

  -- On a host that is sound, in particular one without a journal, whatever sequence of updates, rollbacks,
  -- helpers and recoveries is run, with acts that fail and with the host stopping anywhere: a transaction
  -- that has not failed still has the binary of before in its own directory, and one whose journal reports
  -- that it was rolled back has left that binary live.
  pub Reach-IsSound : {h g : Host} → IsSound h → Reach h g → IsSound g
  Reach-IsSound s here = s
  Reach-IsSound s (next {g = g} r operation outcomes fresh) =
      perform-IsSound operation (record { host = g; outcomes = outcomes }) fresh (Reach-IsSound s r)

  -- From a sound host and a fresh id, whether the update is to a release, to a local binary or back to the
  -- previous one, whichever acts fail and wherever the host stops: the binary that was live is live still, or
  -- the journal names a directory that holds its bytes.
  pub change_keeps_binary :
      (ticks : List Bool) (id : Text) (to : Change) (w : World)
      → IsSound w.host
      → IsFresh id w.host
      → After w.host.binary (change ticks id to w).1.host
  change_keeps_binary ticks id (to_release cancelled version) w s fresh =
      Leads-same
        (Leads-ignore
          (weakly w.host.binary (update_waits o source id w.host.binary ticks cancelled version)))
        w (s, fresh, refl)
  change_keeps_binary ticks id (to_local path file) w s fresh =
      Leads-same
        (Leads-ignore (weakly w.host.binary (apply_local-Leads o id w.host.binary ticks path file)))
        w (s, fresh, refl)
  change_keeps_binary ticks id to_previous w s fresh =
      Leads-same (Leads-ignore (weakly w.host.binary (rollback-Leads o id w.host.binary ticks))) w
        (s, fresh, refl)
