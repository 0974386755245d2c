-- ===== src/Selfupdate/PutBack.antt =====
-- One managed file is put back as its entry describes it (transaction.go).
use nexa_panel.Prelude.{
  ◌≡◌, refl, sym, ◌∙◌, ap, Bool, true, false, Option, none, some, Text, Bytes, text_eq,
  text_eq_refl, some_eq, codes, lookup, lookup-insert, lookup-delete, if◌then◌else◌,
}
use nexa_panel.Selfupdate.Host.{Host, Kept, Node, regular, link, other, SnapshotEntry, Operator}
use nexa_panel.Selfupdate.Io.{Io, act, step, when, kept_of, ◌>>◌}
use nexa_panel.Selfupdate.Io.Leads.{
  Leads, Leads-pure, Leads-gets, Leads-or_raise, Leads-bind, Leads-then, Leads-act, Leads-step,
  Leads-raise_if,
}
use nexa_panel.Selfupdate.Io.Facts.{Leads-given}
use nexa_panel.Selfupdate.Snapshot.{back, Captured}
use nexa_panel.Selfupdate.Files.{
  copy_regular_file, backup_at, perm, put_file, remove_file, own, own_node, chown, put_back,
  restore_entry,
}

abbrev pub Anything : Host → Type 0
Anything h = Unit

module _ {P Q F C : Host → Type 0} where
  Leads-when_true :
      (b : Bool) {m : Io (Unit {0})}
      → b ≡ true
      → Leads P m (λ _. Q) F C
      → Leads P (when b m) (λ _. Q) F C
  unfolding when
  Leads-when_true true e l = l
  Leads-when_true false e l = absurd (cc)

Leads-when_false :
    {P F C : Host → Type 0} (b : Bool) (m : Io (Unit {0}))
    → b ≡ false
    → Leads P (when b m) (λ _. P) F C
unfolding when
Leads-when_false true m e = absurd (cc)
Leads-when_false false m e = Leads-pure tt (λ h p. p)

-- The directory `d` is `k`, and `v` is at the path `j`.
abbrev pub At : Text → Kept → Text → Option Node → Host → Type 0
At d k j v h = (kept_of d h ≡ k) × (lookup j h.files ≡ v)

chosen :
    {A : Type 0} (b : Bool) (x y v : A)
    → (if b then x else if b then y else v) ≡ (if b then x else v)
chosen true x y v = refl
chosen false x y v = refl

module _ (d : Text) (k : Kept) (j : Text) (v : Option Node) (p : Text) where
  abbrev Standing : Node → Host → Type 0
  Standing x h = At d k j (if text_eq p j then some x else v) h × (lookup p h.files ≡ some x)

  put_file-Standing :
      (x : Node) (y : Option Node) (h : Host)
      → At d k j (if text_eq p j then y else v) h
      → Standing x (put_file p x h)
  put_file-Standing x y h (kept, found) = (
    (
      kept,
      lookup-insert p j x h.files
          ∙ ap (λ z. if text_eq p j then some x else z) found
          ∙ chosen (text_eq p j) (some x) y v,
    ),
    lookup-insert p p x h.files ∙ rw (text_eq_refl p) refl,
  )

  removed-At :
      (h : Host) → At d k j v h → At d k j (if text_eq p j then none else v) (remove_file p h)
  removed-At h (kept, found) =
      (kept, lookup-delete p j h.files ∙ ap (λ z. if text_eq p j then none else z) found)

module _ (o : Operator) (d : Text) (k : Kept) (j : Text) (v : Option Node) (e : SnapshotEntry) where
  abbrev pub Back : Option Node → Host → Type 0
  Back x = At d k j (if text_eq e.path j then x else v)

  owned :
      (x y : Node) (h : Host)
      → ((g : Host) → own_node e (some x) g ≡ put_file e.path y g)
      → Standing d k j v e.path x h
      → Back (some y) (own e h)
  owned x y h same (at, found) =
      rw (found, same h) (put_file-Standing d k j v e.path y (some x) h at).0

  chown-Back :
      (msg : Text) (x y : Node)
      → o.is_root ≡ true
      → ((g : Host) → own_node e (some x) g ≡ put_file e.path y g)
      → Leads
          (Standing d k j v e.path x)
          (chown o msg (own e))
          (λ _. Back (some y))
          Anything
          Anything
  unfolding chown
  chown-Back msg x y root same =
      rw root (Leads-act msg (own e) (λ h p. owned x y h same p) (λ h p. tt) (λ h p. tt))

  copy_file-Standing :
      (c : Option Bytes) (bytes : Bytes) (f : Bytes → Node)
      → c ≡ some bytes
      → Leads
          (Back none)
          (copy_regular_file c (λ b. put_file e.path (f b)))
          (λ _. Standing d k j v e.path (f bytes))
          Anything
          Anything
  unfolding copy_regular_file
  copy_file-Standing c bytes f found =
      Leads-bind {Q = λ a h. (a ≡ bytes) × Back none h}
        (Leads-or_raise c _ (λ a h here b. (some_eq a bytes (sym here ∙ found), b)) (λ h p. tt))
        (λ a. Leads-given λ same. rw same (placed bytes))
    where
      placed :
          (b : Bytes)
          → Leads
              (Back none)
              (step (codes "stage the copy")
                >> (act (codes "rename the copy") (put_file e.path (f b))
                    >> step (codes "flush the directory")))
              (λ _. Standing d k j v e.path (f b))
              Anything
              Anything
      placed b = Leads-then (Leads-step _ (λ h p. tt) (λ h p. tt)) (
          Leads-then
            (Leads-act _ _ (λ h p. put_file-Standing d k j v e.path (f b) none h p) (λ h p. tt)
              (λ h p. tt))
            (Leads-step _ (λ h p. tt) (λ h p. tt)))

  put_back-Back :
      (n : Node)
      → o.is_root ≡ true
      → Captured k.backups e (some n)
      → Leads (Back none) (put_back o d e) (λ _. Back (back (some n))) Anything Anything
  unfolding put_back own_node
  put_back-Back (regular bytes mode uid gid) root (existed, no_link, kept, m, u, g) = rw no_link (
      Leads-bind {Q = λ c h. (c ≡ some bytes) × Back none h}
        (Leads-gets _ (λ h p. (ap (λ (k : Kept). backup_at e.backup_name k.backups) p.0 ∙ kept, p)))
        (λ c. Leads-given λ found.
          Leads-then (copy_file-Standing c bytes (λ b. regular b (perm e.mode) 0 0) found)
            (chown-Back _ _ (regular bytes (perm mode) uid gid) root (λ h. rw (m, u, g) refl))))
  put_back-Back (link target uid gid) root (existed, linked, named, u, g) =
      rw (linked, named)
        (Leads-then
          (Leads-act _ _ (λ h p. put_file-Standing d k j v e.path (link target 0 0) none h p)
            (λ h p. tt) (λ h p. tt))
          (chown-Back _ _ (link target uid gid) root (λ h. rw (u, g) refl)))
  put_back-Back other root none_such = absurd none_such

  pub restore_entry-Back :
      (n : Option Node)
      → o.is_root ≡ true
      → Captured k.backups e n
      → Leads (At d k j v) (restore_entry o d e) (λ _. Back (back n)) Anything Anything
  unfolding restore_entry
  restore_entry-Back n root c =
      Leads-then (Leads-raise_if _ _ (λ h p. tt))
        (Leads-then (Leads-act _ _ (removed-At d k j v e.path) (λ h p. tt) (λ h p. tt)) (rest n c))
    where
      rest :
          (n : Option Node)
          → Captured k.backups e n
          → Leads
              (Back none)
              (when e.existed (step (codes "restore parent") >> put_back o d e))
              (λ _. Back (back n))
              Anything
              Anything
      rest none c = Leads-when_false e.existed _ c
      rest (some (regular bytes mode uid gid)) c = Leads-when_true e.existed c.0 (
          Leads-then (Leads-step _ (λ h p. tt) (λ h p. tt))
            (put_back-Back (regular bytes mode uid gid) root c))
      rest (some (link target uid gid)) c = Leads-when_true e.existed c.0 (
          Leads-then (Leads-step _ (λ h p. tt) (λ h p. tt))
            (put_back-Back (link target uid gid) root c))
      rest (some other) none_such = absurd none_such
