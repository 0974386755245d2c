-- ===== src/Selfupdate/Prepare.antt =====
-- What the preparation of a transaction captures: the journal, its directories and the live binary stay,
-- and the new directory holds the live binary.
use nexa_panel.Prelude.{
  ℕ, ◌+◌, ◌≡◌, inl, inr, refl, ap, sym, ◌∙◌, false, Option, none, some, List, [], ◌∷◌, Text, Bytes,
  lookup-insert, text_eq, text_eq_refl,
}
use nexa_panel.Selfupdate.Host.{
  Host, Kept, Node, regular, link, other, UpdateTransaction, TransactionPhase, phase_prepared,
  phase_activating, phase_succeeded, phase_failed, unknown_phase, Operator,
}
use nexa_panel.Selfupdate.Io.{kept_of, change_kept, act}
use nexa_panel.Selfupdate.Io.Keeps.{Keeps, Keeps-act, Keeps-bind, Keeps-then, keeps_rules}
use nexa_panel.Selfupdate.Io.Leads.{
  Leads, Leads-pure, Leads-gets, Leads-or_raise, Leads-weaken, Leads-bind, Leads-then,
  Leads-of_Keeps, Leads-act, Leads-step,
}
use nexa_panel.Selfupdate.Io.Facts.{Leads-some}
use nexa_panel.Selfupdate.Files.{copy_regular_file, capture, capture_all, create_host_snapshot}
use nexa_panel.Selfupdate.Database.{put_copy, copy_database, create_control_database_snapshot}
use nexa_panel.Selfupdate.Apply.{put_preserved, preserve_transaction_binary, prepare_transaction}
use nexa_panel.Selfupdate.Sound.{IsSound, SoundWith, SoundIn, kept_binary}

abbrev FreshWith : Text → Option UpdateTransaction → Type 0
FreshWith id none = Unit
FreshWith id (some t) = text_eq id t.preserved_binary ≡ false

-- The journal does not name the directory of the id that was drawn.
abbrev pub IsFresh : Text → Host → Type 0
IsFresh id h = FreshWith id h.journal

module _ (id : Text) (live : Option Bytes) where
  -- Nothing of the node has been touched yet, and `live` is the live binary.
  abbrev pub Begun : Host → Type 0
  Begun h = IsSound h × IsFresh id h × (h.binary ≡ live)

  -- Its bytes are kept in the new directory.
  abbrev pub Ready : Bytes → Host → Type 0
  Ready b h = Begun h × ((kept_of id h).previous_nexa ≡ some b)

same-SoundIn :
    (p : TransactionPhase) (t : UpdateTransaction) (h h' : Host)
    → kept_binary t h' ≡ kept_binary t h
    → h'.binary ≡ h.binary
    → SoundIn p t h
    → SoundIn p t h'
same-SoundIn phase_prepared t h h' k l s = ((s.0.0, k ∙ s.0.1), s.1, s.2)
same-SoundIn phase_activating t h h' k l s = ((s.0.0, k ∙ s.0.1), s.1, s.2)
same-SoundIn phase_succeeded t h h' k l s = ((s.0.0, k ∙ s.0.1), s.1, s.2)
same-SoundIn (unknown_phase _) t h h' k l s = ((s.0.0, k ∙ s.0.1), s.1, s.2)
same-SoundIn phase_failed t h h' k l (inl e) = inl e
same-SoundIn phase_failed t h h' k l (inr e) = inr (l ∙ e ∙ sym k)

other_directory :
    (id j : Text) (f : Kept → Kept) (h : Host)
    → text_eq id j ≡ false
    → kept_of j (change_kept id f h) ≡ kept_of j h
other_directory id j f h differs = rw (lookup-insert id j (f (kept_of id h)) h.kept, differs) refl

pub own_directory :
    (id : Text) (f : Kept → Kept) (h : Host) → kept_of id (change_kept id f h) ≡ f (kept_of id h)
own_directory id f h = rw (lookup-insert id id (f (kept_of id h)) h.kept, text_eq_refl id) refl

module _ (id : Text) (live : Option Bytes) where
  changed_with :
      (j : Option UpdateTransaction) (f : Kept → Kept) (h : Host)
      → FreshWith id j
      → SoundWith j h
      → SoundWith j (change_kept id f h)
  changed_with none f h fresh s = tt
  changed_with (some t) f h fresh s =
      same-SoundIn t.phase t h (change_kept id f h)
        (ap (λ (k : Kept). k.previous_nexa) (other_directory id t.preserved_binary f h fresh)) refl
        s

  -- A change of the new directory.
  changed : (f : Kept → Kept) (h : Host) → Begun id live h → Begun id live (change_kept id f h)
  changed f h (s, fresh, l) = (changed_with h.journal f h fresh s, fresh, l)

  Keeps-changed : (e : Text) (f : Kept → Kept) → Keeps (Begun id live) (act e (change_kept id f))
  Keeps-changed e f = Keeps-act e (change_kept id f) (changed f)

  capture-Begun :
      (index : ℕ) (path : Text) (node : Option Node)
      → Keeps (Begun id live) (capture id index path node)
  unfolding capture copy_regular_file
  capture-Begun index path none = search keeps_rules
  capture-Begun index path (some (regular contents mode uid gid)) =
      search (keeps_rules, Keeps-changed) depth 12
  capture-Begun index path (some (link target uid gid)) = search keeps_rules
  capture-Begun index path (some other) = search keeps_rules

  capture_all-Begun :
      (index : ℕ) (paths : List Text) → Keeps (Begun id live) (capture_all id index paths)
  unfolding capture_all
  capture_all-Begun index [] = search keeps_rules
  capture_all-Begun index (path ∷ paths) =
      let rest = capture_all-Begun (index + 1) paths in
      Keeps-then (search keeps_rules) (
        Keeps-bind (search keeps_rules) (λ node.
          Keeps-bind (capture-Begun index path node)
            (λ entry. Keeps-bind rest (λ entries. search keeps_rules))))

  snapshot-Begun : (o : Operator) → Keeps (Begun id live) (create_host_snapshot o id)
  unfolding create_host_snapshot
  snapshot-Begun o = search (keeps_rules, capture_all-Begun, Keeps-changed) depth 12

  module _ (b : Bytes) where
    Keeps-copy :
        (e : Text) (copy : Option Bytes) → Keeps (Ready id live b) (act e (put_copy id copy))
    Keeps-copy e copy = Keeps-act e (put_copy id copy) (λ h p. (
      changed (λ k. record k { previous_control = copy }) h p.0,
      ap (λ (k : Kept). k.previous_nexa)
            (own_directory id (λ k. record k { previous_control = copy }) h)
          ∙ p.1,
    ))

    copy_database-Ready :
        (o : Operator) (node : Option Node) → Keeps (Ready id live b) (copy_database o id node)
    unfolding copy_database
    copy_database-Ready o none = search keeps_rules
    copy_database-Ready o (some (link _ _ _)) = search keeps_rules
    copy_database-Ready o (some other) = search keeps_rules
    copy_database-Ready o (some (regular contents mode uid gid)) =
        search (keeps_rules, Keeps-copy) depth 16

    database-Ready :
        (o : Operator) → Keeps (Ready id live b) (create_control_database_snapshot o id)
    unfolding create_control_database_snapshot
    database-Ready o = search (keeps_rules, copy_database-Ready)

module _ (o : Operator) (id : Text) (live : Option Bytes) where
  -- The live binary is kept under the new id.
  abbrev pub Captured : Text → Host → Type 0
  Captured preserved h = (b : Bytes) × ((live ≡ some b) × ((preserved ≡ id) × Ready id live b h))

  preserve-Leads :
      Leads
        (Begun id live)
        (preserve_transaction_binary id)
        Captured
        (Begun id live)
        (Begun id live)
  unfolding preserve_transaction_binary copy_regular_file
  preserve-Leads = Leads-then (Leads-step _ (λ h p. p) (λ h p. p)) (
      Leads-bind {Q = λ v h. (live ≡ v) × Begun id live h} (Leads-gets _ (λ h p. (sym p.2, p)))
        (λ v.
          Leads-then {Q = Captured id}
            (Leads-bind {Q = λ b h. (live ≡ some b) × Begun id live h}
              (Leads-or_raise v _ (λ b h found p. (p.0 ∙ found, p.1)) (λ h p. p.1))
              (λ b. Leads-then (Leads-step _ (λ h p. p.1) (λ h p. p.1)) (
                Leads-then (Leads-act _ (put_preserved id b) (stored b) (λ h p. p.1) (λ h p. p.1))
                  (Leads-step _ (λ h c. c.1.1.1.0) (λ h c. c.1.1.1.0)))))
            (Leads-pure id (λ h c. c))))
    where
      stored :
          (b : Bytes) (h : Host)
          → (live ≡ some b) × Begun id live h
          → Captured id (put_preserved id b h)
      stored b h (l, p) = (
        b,
        (
          l,
          (
            refl,
            (
              changed id live (λ k. record k { previous_nexa = some b }) h p,
              ap (λ (k : Kept). k.previous_nexa)
                  (own_directory id (λ k. record k { previous_nexa = some b }) h),
            ),
          ),
        ),
      )

  database-Leads :
      (preserved : Text)
      → Leads
          (Captured preserved)
          (create_control_database_snapshot o id)
          (λ _. Captured preserved)
          (Begun id live)
          (Begun id live)
  database-Leads preserved = Leads-some (λ b.
      Leads-weaken (λ h p. p) (Leads-of_Keeps (facts b)) (λ _ h p. (b, p)) (λ h p. p.1.1.0)
        (λ h p. p.1.1.0))
    where
      facts :
          (b : Bytes)
          → Keeps
              (λ h. (live ≡ some b) × ((preserved ≡ id) × Ready id live b h))
              (create_control_database_snapshot o id)
      facts b = record { at = λ w p. (p.0, (p.1.0, (database-Ready id live b o).at w p.1.1)) }

  -- Every update opens with this, and what fails in it has touched nothing.
  pub prepare-Leads :
      Leads
        (Begun id live)
        (prepare_transaction o id)
        (λ c. Captured c.1)
        (Begun id live)
        (Begun id live)
  unfolding prepare_transaction
  prepare-Leads = Leads-then (Leads-step _ (λ h p. p) (λ h p. p)) (
      Leads-bind (Leads-of_Keeps (snapshot-Begun id live o)) (λ snapshot.
        Leads-bind preserve-Leads (λ preserved.
          Leads-bind (database-Leads preserved) (λ database. Leads-pure _ (λ h c. c)))))
