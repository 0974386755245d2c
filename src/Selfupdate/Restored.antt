-- ===== src/Selfupdate/Restored.antt =====
-- The snapshot of the managed files and its restoration (transaction.go) undo whatever happened in between.
use nexa_panel.Prelude.{
  ◌≡◌, refl, sym, ◌∙◌, ap, subst, Bool, true, false, ◌||◌, arith, Option, some, List, [], ◌∷◌, Text,
  text_eq, text_eq_sound, any, some_eq, lookup, is_empty, if◌then◌else◌,
}
use nexa_panel.Selfupdate.Host.{Host, Kept, Node, SnapshotEntry, Operator}
use nexa_panel.Selfupdate.Io.{World, done, kept_of}
use nexa_panel.Selfupdate.Io.Leads.{
  Leads, Verdict, Leads-pure, Leads-gets, Leads-or_raise, Leads-weaken, Leads-bind, Leads-then,
  Leads-step,
}
use nexa_panel.Selfupdate.Io.Facts.{Leads-given}
use nexa_panel.Selfupdate.Snapshot.{back, Describes, is_named, IsSnapshot, create-IsSnapshot}
use nexa_panel.Selfupdate.Files.{restore_entries, restore_host_snapshot, create_host_snapshot}
use nexa_panel.Selfupdate.PutBack.{Anything, At, restore_entry-Back}

abbrev pub is_managed : Text → List Text → Bool
is_managed j paths = any (λ path. text_eq path j) paths

-- What stands at a path in the end: what stood there when it was captured, if it is managed.
abbrev pub expected : List (Text × Node) → List Text → Text → Option Node → Option Node
expected files paths j v = if is_managed j paths then back (lookup j files) else v

module _ (o : Operator) (d : Text) (k : Kept) (j : Text) (files : List (Text × Node)) where
  expected-next :
      (path : Text) (paths : List Text) (v : Option Node) (b : Bool)
      → text_eq path j ≡ b
      → expected files paths j (if b then back (lookup path files) else v)
        ≡ (if b || is_managed j paths then back (lookup j files) else v)
  expected-next path paths v true e = rw (text_eq_sound path j e) (ground arith)
  expected-next path paths v false e = refl

  restore_entries-Back :
      (entries : List SnapshotEntry) (paths : List Text) (v : Option Node)
      → o.is_root ≡ true
      → Describes k.backups files entries paths
      → Leads
          (At d k j v)
          (restore_entries o d entries)
          (λ _. At d k j (expected files paths j v))
          Anything
          Anything
  unfolding restore_entries
  restore_entries-Back [] [] v root t = Leads-pure tt (λ h p. p)
  restore_entries-Back [] (_ ∷ _) v root none_such = absurd none_such
  restore_entries-Back (_ ∷ _) [] v root none_such = absurd none_such
  restore_entries-Back (e ∷ entries) (path ∷ paths) v root (same, c, rest) =
      Leads-weaken (λ h p. p)
        (Leads-then (restore_entry-Back o d k j v e (lookup path files) root c)
          (restore_entries-Back entries paths _ root rest))
        (λ a h p. (p.0, p.1 ∙ rw same (expected-next path paths v (text_eq path j) refl)))
        (λ h p. p) (λ h p. p)

module _ (o : Operator) (id : Text) (files : List (Text × Node)) where
  restore-At :
      (k : Kept) (j : Text) (v : Option Node) (h : Host)
      → o.is_root ≡ true
      → is_empty id ≡ false
      → IsSnapshot id files o.managed_paths h
      → kept_of id h ≡ k
      → Leads
          (At id k j v)
          (restore_host_snapshot o id)
          (λ _. At id k j (expected files o.managed_paths j v))
          Anything
          Anything
  unfolding restore_host_snapshot
  restore-At k j v h root named s same = rw named (
      Leads-then (Leads-step _ (λ h p. tt) (λ h p. tt)) (
        Leads-bind {Q = λ m g. (m ≡ some s.entries) × At id k j v g}
          (Leads-gets _ (λ g p. (ap (λ (k : Kept). k.manifest) (p.0 ∙ sym same) ∙ s.listed, p)))
          (λ m. Leads-given λ found.
            Leads-bind {Q = λ es g. (es ≡ s.entries) × At id k j v g}
              (Leads-or_raise _ _ (λ es g e p. (some_eq es s.entries (sym e ∙ found), p))
                (λ h p. tt))
              (λ es. Leads-given λ listed. rw listed (
                restore_entries-Back o id k j files s.entries o.managed_paths v root (
                  subst (λ (k : Kept). Describes k.backups files s.entries o.managed_paths) same
                    s.described))))))

module _ (o : Operator) (id : Text) where
  -- Whatever becomes of the node between the two, and whichever acts fail on the way: when the snapshot was
  -- made, when its directory is as it was then, and when the restoration by root returns without an error,
  -- each managed path holds what was found there, with the permission bits of its mode, or nothing where
  -- nothing was found, and every other path holds what it held before the restoration. The id is not empty,
  -- and neither is the target of a link.
  pub restore-create :
      (w w1 w2 w3 : World) (directory j : Text)
      → o.is_root ≡ true
      → is_empty id ≡ false
      → ((path : Text) → is_named (lookup path w.host.files) ≡ true)
      → create_host_snapshot o id w ≡ (done directory, w1)
      → kept_of directory w2.host ≡ kept_of directory w1.host
      → restore_host_snapshot o directory w2 ≡ (done tt, w3)
      → lookup j w3.host.files ≡ expected w.host.files o.managed_paths j (lookup j w2.host.files)
  restore-create w w1 w2 w3 directory j root named t made same e =
      let (at, s) =
        subst
          (Verdict (λ d h. (d ≡ id) × IsSnapshot id w.host.files o.managed_paths h) Anything
            Anything)
          made ((create-IsSnapshot o id w.host.files t).at w refl) in
      let k = kept_of id w2.host in
      (subst
        (Verdict (λ _. At id k j (expected w.host.files o.managed_paths j (lookup j w2.host.files)))
          Anything Anything)
        (subst (λ d. restore_host_snapshot o d w2 ≡ (done tt, w3)) at e)
        ((restore-At o id w.host.files k j (lookup j w2.host.files) w1.host root named s
            (sym (subst (λ d. kept_of d w2.host ≡ kept_of d w1.host) at same))).at
          w2 (refl, refl))).1
