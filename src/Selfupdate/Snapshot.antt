-- ===== src/Selfupdate/Snapshot.antt =====
-- What the snapshot of the managed files holds (transaction.go): for each path what was found there.
use nexa_panel.Prelude.{
  ℕ, ◌+◌, ◌<◌, ◌≡◌, refl, sym, ap, subst, Bool, true, false, not, arith, Option, none, some, List,
  [], ◌∷◌, Text, Bytes, some_eq, codes, lookup, is_empty,
}
use nexa_panel.Selfupdate.Host.{Host, Kept, Node, regular, link, other, SnapshotEntry, Operator}
use nexa_panel.Selfupdate.Io.{act, step, kept_of, ◌>>◌}
use nexa_panel.Selfupdate.Io.Keeps.{Keeps, Keeps-act, Keeps-bind, Keeps-then, keeps_rules}
use nexa_panel.Selfupdate.Io.Leads.{
  Leads, Leads-pure, Leads-raise, Leads-gets, Leads-or_raise, Leads-weaken, Leads-bind, Leads-then,
  Leads-act, Leads-step, Leads-of_Keeps,
}
use nexa_panel.Selfupdate.Io.Facts.{Leads-given, Leads-both}
use nexa_panel.Selfupdate.Files.{
  copy_regular_file, backup_at, perm, put_backup, put_manifest, capture, capture_all,
  create_host_snapshot,
}
use nexa_panel.Selfupdate.Prepare.{own_directory}

-- What comes back of a managed path: of the mode, the permission bits.
abbrev pub back : Option Node → Option Node
back none = none
back (some (regular bytes mode uid gid)) = some (regular bytes (perm mode) uid gid)
back (some (link target uid gid)) = some (link target uid gid)
back (some other) = none

-- An entry that describes what was found, with the copy of its contents.
abbrev pub Captured : List (ℕ × Bytes) → SnapshotEntry → Option Node → Type 0
Captured copies e none = e.existed ≡ false
Captured copies e (some (regular bytes mode uid gid)) =
    (e.existed ≡ true)
    × (e.link_target ≡ [])
    × (backup_at e.backup_name copies ≡ some bytes)
    × (e.mode ≡ mode)
    × (e.uid ≡ uid)
    × (e.gid ≡ gid)
Captured copies e (some (link target uid gid)) =
    (e.existed ≡ true)
    × (e.link_target ≡ target)
    × (is_empty target ≡ false)
    × (e.uid ≡ uid)
    × (e.gid ≡ gid)
Captured copies e (some other) = ⊥

-- Entries that describe what stands at their paths among the files `files`.
abbrev pub Describes :
    List (ℕ × Bytes) → List (Text × Node) → List SnapshotEntry → List Text → Type 0
Describes copies files [] [] = Unit
Describes copies files [] (_ ∷ _) = ⊥
Describes copies files (_ ∷ _) [] = ⊥
Describes copies files (e ∷ entries) (path ∷ paths) =
    (e.path ≡ path) × Captured copies e (lookup path files) × Describes copies files entries paths

abbrev Anything : Host → Type 0
Anything h = Unit

-- The target of a link is not empty.
abbrev pub is_named : Option Node → Bool
is_named none = true
is_named (some (regular _ _ _ _)) = true
is_named (some (link target _ _)) = not (is_empty target)
is_named (some other) = true

named : (target : Text) → not (is_empty target) ≡ true → is_empty target ≡ false
named [] e = cc
named (_ ∷ _) e = refl

-- A copy under another index leaves an entry as described.
with_backup :
    (copies : List (ℕ × Bytes)) (i : ℕ) (bytes : Bytes) (e : SnapshotEntry) (n : Option Node)
    → e.backup_name < i
    → Captured copies e n
    → Captured ((i, bytes) ∷ copies) e n
unfolding backup_at
with_backup copies i bytes e none lt c = c
with_backup copies i bytes e (some (regular b m u g)) lt (x, l, found, m1, u1, g1) =
    (x, l, ground (arith, found), m1, u1, g1)
with_backup copies i bytes e (some (link t u g)) lt c = c
with_backup copies i bytes e (some other) lt c = c

module _ (id : Text) where
  backed_up :
      (i : ℕ) (bytes : Bytes) (h : Host)
      → (kept_of id (put_backup id i bytes h)).backups ≡ (i, bytes) ∷ (kept_of id h).backups
  backed_up i bytes h =
      ap (λ (k : Kept). k.backups)
        (own_directory id (λ k. record k { backups = (i, bytes) ∷ k.backups }) h)

  abbrev Holds : SnapshotEntry → Option Node → Host → Type 0
  Holds e n h = Captured (kept_of id h).backups e n

  module _ (e : SnapshotEntry) (n : Option Node) where
    Keeps-backup :
        (msg : Text) (i : ℕ) (bytes : Bytes)
        → e.backup_name < i
        → Keeps (Holds e n) (act msg (put_backup id i bytes))
    Keeps-backup msg i bytes lt = Keeps-act msg _ (λ h c.
        subst (λ copies. Captured copies e n) (sym (backed_up i bytes h))
          (with_backup _ i bytes e n lt c))

    capture-Holds :
        (i : ℕ) (path : Text) (m : Option Node)
        → e.backup_name < i
        → Keeps (Holds e n) (capture id i path m)
    unfolding capture copy_regular_file
    capture-Holds i path none lt = search keeps_rules
    capture-Holds i path (some (regular bytes mode uid gid)) lt =
        search (keeps_rules, Keeps-backup) depth 12
    capture-Holds i path (some (link target uid gid)) lt = search keeps_rules
    capture-Holds i path (some other) lt = search keeps_rules

    capture_all-Holds :
        (i : ℕ) (paths : List Text) → e.backup_name < i → Keeps (Holds e n) (capture_all id i paths)
    unfolding capture_all
    capture_all-Holds i [] lt = search keeps_rules
    capture_all-Holds i (path ∷ paths) lt =
        let rest = capture_all-Holds (i + 1) paths (omega arith) in
        Keeps-then (search keeps_rules) (
          Keeps-bind (search keeps_rules) (λ node.
            Keeps-bind (capture-Holds i path node lt)
              (λ entry. Keeps-bind rest (λ entries. search keeps_rules))))

  -- What is described of one path, past the index `i`.
  abbrev Found : ℕ → Text → Option Node → SnapshotEntry → Host → Type 0
  Found i path n e h = (e.path ≡ path) × (e.backup_name < i + 1) × Holds e n h

  capture-Found :
      (i : ℕ) (path : Text) (n : Option Node)
      → is_named n ≡ true
      → Leads Anything (capture id i path n) (Found i path n) Anything Anything
  unfolding capture copy_regular_file backup_at
  capture-Found i path none t = Leads-pure _ (λ h p. (refl, omega arith, refl))
  capture-Found i path (some (link target uid gid)) t =
      Leads-then (Leads-step _ (λ h p. tt) (λ h p. tt))
        (Leads-pure _ (λ h p. (refl, omega arith, (refl, refl, named target t, refl, refl))))
  capture-Found i path (some other) t = Leads-raise _ (λ h p. tt)
  capture-Found i path (some (regular bytes mode uid gid)) t =
      Leads-then
        (Leads-bind {Q = λ b h. b ≡ bytes}
          (Leads-or_raise _ _ (λ b h e p. sym (some_eq bytes b e)) (λ h p. tt)) (λ b. placed b))
        (Leads-pure _ (λ h p. (refl, omega arith, (refl, refl, p, refl, refl, refl))))
    where
      placed :
          (b : Bytes)
          → Leads
              (λ h. b ≡ bytes)
              (step (codes "stage the copy")
                >> (act (codes "rename the copy") (put_backup id i b)
                    >> step (codes "flush the directory")))
              (λ _ h. backup_at i (kept_of id h).backups ≡ some bytes)
              Anything
              Anything
      placed b = Leads-then (Leads-step _ (λ h p. tt) (λ h p. tt)) (
          Leads-then
            (Leads-act _ _ (λ h p. rw (backed_up i b h, p) (ground arith)) (λ h p. tt) (λ h p. tt))
            (Leads-step _ (λ h p. tt) (λ h p. tt)))

  module _ (files : List (Text × Node)) where
    abbrev FilesAre : Host → Type 0
    FilesAre h = h.files ≡ files

    capture-FilesAre :
        (i : ℕ) (path : Text) (n : Option Node) → Keeps FilesAre (capture id i path n)
    unfolding capture copy_regular_file
    capture-FilesAre i path none = search keeps_rules
    capture-FilesAre i path (some (regular bytes mode uid gid)) =
        Keeps-then
          (Keeps-bind (search keeps_rules) (λ b.
            Keeps-then (search keeps_rules)
              (Keeps-then (Keeps-act _ _ (λ h p. p)) (search keeps_rules))))
          (search keeps_rules)
    capture-FilesAre i path (some (link target uid gid)) = search keeps_rules
    capture-FilesAre i path (some other) = search keeps_rules

    abbrev Taken : List Text → List SnapshotEntry → Host → Type 0
    Taken paths entries h = Describes (kept_of id h).backups files entries paths

    capture_all-Taken :
        (i : ℕ) (paths : List Text)
        → ((path : Text) → is_named (lookup path files) ≡ true)
        → Leads FilesAre (capture_all id i paths) (Taken paths) Anything Anything
    unfolding capture_all
    capture_all-Taken i [] t = Leads-pure [] (λ h p. tt)
    capture_all-Taken i (path ∷ paths) t = Leads-then (Leads-step _ (λ h p. tt) (λ h p. tt)) (
        Leads-bind {Q = λ n h. (n ≡ lookup path files) × FilesAre h}
          (Leads-gets _ (λ h p. (ap (λ f. lookup path f) p, p)))
          (λ n. Leads-given λ same.
            Leads-bind
              {Q = λ e h.
                (e.path ≡ path)
                × ((e.backup_name < i + 1) × (Holds e (lookup path files) h × FilesAre h))}
              (rw same (
                Leads-weaken (λ h p. (tt, p))
                  (Leads-both (capture-Found i path (lookup path files) (t path))
                    (Leads-of_Keeps (capture-FilesAre i path (lookup path files))))
                  (λ e h p. (p.0.0, (p.0.1, (p.0.2, p.1)))) (λ h p. tt) (λ h p. tt)))
              (λ e. Leads-given λ at. Leads-given λ lt.
                Leads-bind
                  (Leads-weaken (λ h p. p)
                    (Leads-both
                      (Leads-of_Keeps (capture_all-Holds e (lookup path files) (i + 1) paths lt))
                      (capture_all-Taken (i + 1) paths t))
                    (λ es h p. p) (λ h p. tt) (λ h p. tt))
                  (λ es. Leads-pure (e ∷ es) (λ h p. (at, p.0, p.1))))))

-- The directory holds a manifest that describes the files.
pub record IsSnapshot (directory : Text) (files : List (Text × Node)) (paths : List Text) (h : Host)
    : Type 0 where
  pub entries : List SnapshotEntry
  pub listed : (kept_of directory h).manifest ≡ some entries
  pub described : Describes (kept_of directory h).backups files entries paths

listed-IsSnapshot :
    (id : Text) (files : List (Text × Node)) (paths : List Text) (entries : List SnapshotEntry)
    (h : Host)
    → Describes (kept_of id h).backups files entries paths
    → IsSnapshot id files paths (put_manifest id entries h)
listed-IsSnapshot id files paths entries h d =
    let same = own_directory id (λ k. record k { manifest = some entries }) h in
    record {
      entries = entries;
      listed = ap (λ (k : Kept). k.manifest) same;
      described =
          subst (λ copies. Describes copies files entries paths)
            (sym (ap (λ (k : Kept). k.backups) same)) d;
    }

pub create-IsSnapshot :
    (o : Operator) (id : Text) (files : List (Text × Node))
    → ((path : Text) → is_named (lookup path files) ≡ true)
    → Leads
        (λ h. h.files ≡ files)
        (create_host_snapshot o id)
        (λ d h. (d ≡ id) × IsSnapshot id files o.managed_paths h)
        Anything
        Anything
unfolding create_host_snapshot
create-IsSnapshot o id files t = Leads-then (Leads-step _ (λ h p. tt) (λ h p. tt)) (
    Leads-bind (capture_all-Taken id files 0 o.managed_paths t) (λ entries.
      Leads-then (Leads-step _ (λ h p. tt) (λ h p. tt)) (
        Leads-then
          (Leads-act _ _ (listed-IsSnapshot id files o.managed_paths entries) (λ h p. tt)
            (λ h p. tt))
          (Leads-then (Leads-step _ (λ h p. tt) (λ h p. tt)) (Leads-pure id (λ h p. (refl, p)))))))
