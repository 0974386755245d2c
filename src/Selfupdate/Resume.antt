-- ===== src/Selfupdate/Resume.antt =====
-- `Apply`, with what it does first about a journal of the version that is asked for.
use nexa_panel.Prelude.{
  ◌≡◌, inl, inr, refl, subst, Bool, true, Option, none, some, List, Text, Bytes,
}
use nexa_panel.Selfupdate.Host.{
  Host, UpdateTransaction, TransactionPhase, phase_prepared, phase_activating, phase_succeeded,
  phase_failed, unknown_phase, Result, Operator,
}
use nexa_panel.Selfupdate.Io.{Io, World, Ended, done, fault, cut, ◌>>◌}
use nexa_panel.Selfupdate.Io.Leads.{
  Leads, Verdict, Tried, Leads-pure, Leads-raise, Leads-weaken, Leads-bind, Leads-then, Leads-step,
  Leads-try, Leads-of_Keeps, Leads-if,
}
use nexa_panel.Selfupdate.Io.Facts.{Leads-some, Leads-ignore}
use nexa_panel.Selfupdate.Journal.{put_journal, write_transaction, read_transaction}
use nexa_panel.Selfupdate.Activate.{acquire_host_lock}
use nexa_panel.Selfupdate.Apply.{wait_for_activation}
use nexa_panel.Selfupdate.Update.{
  Source, kept_result, optional, restored_before, resume, resume_journal, apply_release, or_install,
  apply,
}
use nexa_panel.Selfupdate.Undo.{InFlight, Installed, restore_prepared-Leads}
use nexa_panel.Selfupdate.Sound.{
  IsOpen, IsSound, SoundWith, Tracked, SoundIn, is_open, Leads-write, open-Tracked, failed-Tracked,
  Leads-last, InFlight-put,
}
use nexa_panel.Selfupdate.Recovery.{read-Leads, in_open}
use nexa_panel.Selfupdate.Wait.{wait-Tracked, reported-SoundIn}
use nexa_panel.Selfupdate.Prepare.{Begun}
use nexa_panel.Selfupdate.Install.{Owed, After}
use nexa_panel.Selfupdate.Entries.{apply_release-Leads, wait-Owed}

pub After-IsSound : (live : Option Bytes) (h : Host) → After live h → IsSound h
After-IsSound live h (inl p) = p.0
After-IsSound live h (inr p) = p.1.1.0

-- The journal that `Apply` found, if it could be read.
abbrev Found : (Host → Type 0) → Option UpdateTransaction → Host → Type 0
Found P none h = P h
Found P (some t) h = (h.journal ≡ some t) × P h

optional-Leads : {P : Host → Type 0} → Leads P (optional read_transaction) (Found P) P P
unfolding optional
optional-Leads {P = P} = record { at = λ w p. found (read_transaction w) (read-Leads.at w p) }
  where
    found :
        (r : Ended UpdateTransaction × World)
        → Verdict (λ t h. (h.journal ≡ some t) × P h) P P r
        → Verdict (Found P) P P (kept_result r)
    found (done t, w) v = v
    found (fault e, w) v = v
    found (cut, w) v = v

module _ (o : Operator) (source : Source) (id : Text) (live : Option Bytes) where
  -- What `Apply` goes on from: a result, or a host that nothing was done to.
  abbrev Resumed : Option Result → Host → Type 0
  Resumed none h = Begun id live h
  Resumed (some _) h = IsSound h

  module _ (t : UpdateTransaction) where
    abbrev Now : Host → Type 0
    Now h = (h.journal ≡ some t) × Begun id live h

    sound_now : (h : Host) → Now h → SoundIn t.phase t h
    sound_now h p = subst (λ j. SoundWith j h) p.0 p.1.0

    idle : (h : Host) → Now h → IsSound h
    idle h p = p.1.0

    -- A transaction in an open phase has a binary that can be brought back.
    busy :
        (p : TransactionPhase) (h : Host)
        → t.phase ≡ p
        → is_open p ≡ true
        → Now h
        → (b : Bytes) × ((h.journal ≡ some t) × Tracked b h)
    busy p h e ok now = by_phase p e ok (subst (λ ph. SoundIn ph t h) e (sound_now h now))
      where
        by_phase :
            (p : TransactionPhase)
            → t.phase ≡ p
            → is_open p ≡ true
            → SoundIn p t h
            → (b : Bytes) × ((h.journal ≡ some t) × Tracked b h)
        by_phase phase_prepared e ok s = (s.0.0, (now.0, (now.1.0, t, (now.0, s.0.1))))
        by_phase phase_activating e ok s = (s.0.0, (now.0, (now.1.0, t, (now.0, s.0.1))))
        by_phase phase_succeeded e ok s = (s.0.0, (now.0, (now.1.0, t, (now.0, s.0.1))))
        by_phase (unknown_phase _) e ok s = (s.0.0, (now.0, (now.1.0, t, (now.0, s.0.1))))
        by_phase phase_failed e ok s = absurd (cc)

    when_busy :
        {A : Type 0} {m : Io A} {Q : A → Host → Type 0} (p : TransactionPhase)
        → t.phase ≡ p
        → is_open p ≡ true
        → ((b : Bytes)
            → Leads (λ h. (h.journal ≡ some t) × Tracked b h) m Q (Tracked b) (Tracked b))
        → Leads Now m Q IsSound IsSound
    when_busy p e ok k =
        Leads-weaken (λ h now. busy p h e ok now)
          (Leads-some (λ b. Leads-weaken (λ h q. q) (k b) (λ _ h q. q) (λ h q. q.0) (λ h q. q.0)))
          (λ _ h q. q) (λ h q. q) (λ h q. q)

    restored-Leads :
        (b : Bytes) (r : Option Text)
        → IsOpen t
        → Leads
            (Tried (Installed t b) (InFlight t b) r)
            (write_transaction (restored_before o source t r))
            (λ _. Tracked b)
            (Tracked b)
            (Tracked b)
    restored-Leads b none ok =
        let f = restored_before o source t none in
        Leads-last f b
          (λ h p.
            failed-Tracked f b refl (put_journal f h) (InFlight-put t f b refl h p.0) (inr p.1))
          (λ h p. open-Tracked t b ok h p.0)
    restored-Leads b (some e) ok =
        let f = restored_before o source t (some e) in
        Leads-last f b
          (λ h p.
            failed-Tracked f b refl (put_journal f h) (InFlight-put t f b refl h p) (inl ok.1))
          (open-Tracked t b ok)

    resume-Leads :
        (ticks : List Bool) (p : TransactionPhase)
        → t.phase ≡ p
        → Leads Now (resume o source ticks p t) Resumed IsSound IsSound
    unfolding resume
    resume-Leads ticks phase_succeeded e = Leads-pure _ idle
    resume-Leads ticks phase_prepared e = when_busy phase_prepared e refl (λ b.
        in_open o t b phase_prepared e refl (λ ok.
          let tracked = open-Tracked t b ok in
          Leads-bind
            (Leads-weaken (λ h p. p) (Leads-try (restore_prepared-Leads o t b t refl)) (λ r h p. p)
              tracked tracked)
            (λ r. Leads-then (Leads-ignore (restored-Leads b r ok)) (Leads-raise _ (λ h p. p)))))
    resume-Leads ticks phase_activating e =
        Leads-bind
          (when_busy phase_activating e refl (λ b.
            Leads-weaken (λ h p. p.1) (Leads-of_Keeps (wait-Tracked o b ticks)) (λ _ h p. p.0)
              (λ h p. p) (λ h p. p)))
          (λ result. Leads-pure _ (λ h p. p))
    resume-Leads ticks phase_failed e = Leads-if _ (Leads-pure _ (λ h p. p.1)) (
        Leads-then
          (Leads-ignore (
            Leads-write {S = IsSound} (record t { failure_reported = true })
              (λ h p. reported-SoundIn t.phase t h (sound_now h p)) idle idle (λ h p. p)
              (λ h p. p)))
          (Leads-raise _ (λ h p. p)))
    resume-Leads ticks (unknown_phase _) e = Leads-pure _ (λ h p. p.1)

  resume_journal-Leads :
      (ticks : List Bool) (requested : Text) (j : Option UpdateTransaction)
      → Leads
          (Found (Begun id live) j)
          (resume_journal o source ticks requested j)
          Resumed
          IsSound
          IsSound
  unfolding resume_journal
  resume_journal-Leads ticks requested none = Leads-pure _ (λ h p. p)
  resume_journal-Leads ticks requested (some t) =
      Leads-if _ (resume-Leads t ticks t.phase refl) (Leads-pure _ (λ h p. p.1))

  pub update_waits :
      (ticks : List Bool) (cancelled : Bool) (version : Text)
      → Leads
          (Begun id live)
          (apply_release o source id cancelled version >> wait_for_activation o ticks)
          (λ _. Owed live)
          (After live)
          (After live)
  update_waits ticks cancelled version =
      Leads-then (apply_release-Leads o id live source cancelled version) (wait-Owed o live ticks)

  or_install-Leads :
      (ticks : List Bool) (cancelled : Bool) (version : Text) (r : Option Result)
      → Leads
          (Resumed r)
          (or_install o source ticks id cancelled version r)
          (λ _. IsSound)
          IsSound
          IsSound
  unfolding or_install
  or_install-Leads ticks cancelled version (some r) = Leads-pure _ (λ h p. p)
  or_install-Leads ticks cancelled version none =
      Leads-weaken (λ h p. p) (update_waits ticks cancelled version) (λ _ h p. p.1.1.0)
        (After-IsSound live) (After-IsSound live)

  pub apply-Leads :
      (ticks : List Bool) (cancelled : Bool) (version : Text)
      → Leads
          (Begun id live)
          (apply o source ticks id cancelled version)
          (λ _. IsSound)
          IsSound
          IsSound
  unfolding apply acquire_host_lock
  apply-Leads ticks cancelled version =
      let sound : (h : Host) → Begun id live h → IsSound h = λ h p. p.0 in
      Leads-then (Leads-step _ sound sound) (
        Leads-bind (Leads-weaken (λ h p. p) optional-Leads (λ j h p. p) sound sound) (λ j.
          Leads-bind (resume_journal-Leads ticks _ j) (or_install-Leads ticks cancelled version)))
