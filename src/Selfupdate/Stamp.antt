-- ===== src/Selfupdate/Stamp.antt =====
-- What the RELEASE stamp of a release declares (manifest.go), described by its lines.
use nexa_panel.Prelude.{
  ◌≡◌, refl, ap, sym, subst, arith, Bool, true, false, ◌||◌, ◌==◌, Bool-cases, inl, inr, ◌⊎◌,
  Option, none, some, List, [], ◌∷◌, IsIn, Text, codes, is_empty, text_eq, text_eq_sound,
  trim_space, split_at, cut_at, lookup, some_eq,
}
use nexa_panel.Selfupdate.Release.{
  Checked, accepted, refused, ReleaseManifest, Stamp, seen, add_pair, add_line, add_lines, and_then,
  or_empty, manifest_of, complete, parse_release_manifest,
}
use nexa_panel.Selfupdate.Statements.{accepted_past, accepted_eq}

-- A line that sets a key of the stamp.
pub record Sets (line key value : Text) : Type 0 where
  pub left : Text
  pub right : Text
  pub parts : cut_at 0x3d line ≡ (left, right, true)
  pub key_is : trim_space left ≡ key
  pub value_is : trim_space right ≡ value

-- A line of the stamp, trimmed, sets the key to the value, which is not empty.
pub record Declares (stamp key value : Text) : Type 0 where
  pub line : Text
  pub stands : IsIn line (split_at 0x0a stamp)
  pub sets : Sets (trim_space line) key value
  pub given : is_empty value ≡ false

abbrev pub Shown : Text → Text → List Text → Type 0
Shown key value lines = (line : Text) × IsIn line lines × Sets (trim_space line) key value

pair-Shown :
    (line key value : Text) (parts : Text × Text × Bool) (stamp stamp' : Stamp)
    → cut_at 0x3d line ≡ parts
    → add_pair stamp parts ≡ accepted stamp'
    → lookup key stamp' ≡ some value
    → (lookup key stamp ≡ some value) ⊎ Sets line key value
unfolding lookup
pair-Shown line key value (left, right, false) stamp stamp' e h l = absurd (cc)
pair-Shown line key value (left, right, true) stamp stamp' e h l =
    let (new, h') =
      accepted_past (seen (trim_space left) stamp) (codes "declares twice")
        (accepted ((trim_space left, trim_space right) ∷ stamp)) stamp' h in
    let l' = subst (λ (s : Stamp). lookup key s ≡ some value) (sym (accepted_eq _ stamp' h')) l in
    elim (Bool-cases (text_eq (trim_space left) key)) [
      | inl same ↦ inr (record {
        left = left;
        right = right;
        parts = e;
        key_is = text_eq_sound (trim_space left) key same;
        value_is = some_eq _ _ (rw same at l');
      })
      | inr other ↦ inl (rw other at l')
    ]

line-Shown :
    (line key value : Text) (stamp stamp' : Stamp)
    → add_line stamp line ≡ accepted stamp'
    → lookup key stamp' ≡ some value
    → (lookup key stamp ≡ some value) ⊎ Sets line key value
unfolding add_line
line-Shown [] key value stamp stamp' h l = inl (rw (accepted_eq stamp stamp' h) l)
line-Shown (c ∷ line) key value stamp stamp' h l = elim (Bool-cases (c == 0x23)) [
  | inl e ↦ inl (rw (accepted_eq stamp stamp' (rw e at h)) l)
  | inr e ↦ pair-Shown (c ∷ line) key value (cut_at 0x3d (c ∷ line)) stamp stamp' refl (rw e at h) l
]

lines-Shown :
    (key value : Text) (stamp stamp' : Stamp) (lines : List Text)
    → add_lines stamp lines ≡ accepted stamp'
    → lookup key stamp' ≡ some value
    → (lookup key stamp ≡ some value) ⊎ Shown key value lines
unfolding add_lines
lines-Shown key value stamp stamp' [] h l = inl (rw (accepted_eq stamp stamp' h) l)
lines-Shown key value stamp stamp' (line ∷ lines) h l =
    next (λ s g. lines-Shown key value s stamp' lines g l) (add_line stamp (trim_space line)) refl h
  where
    next :
        ((s : Stamp)
          → add_lines s lines ≡ accepted stamp'
          → (lookup key s ≡ some value) ⊎ Shown key value lines)
        → (r : Checked Stamp) → add_line stamp (trim_space line) ≡ r
        → and_then r (λ s. add_lines s lines) ≡ accepted stamp'
        → (lookup key stamp ≡ some value) ⊎ Shown key value (line ∷ lines)
    next k (refused x) e h = absurd (cc)
    next k (accepted s) e h = elim (k s h) [
      | inr (later, at, sets) ↦ inr (later, inr at, sets)
      | inl old ↦ elim (line-Shown (trim_space line) key value stamp s e old) [
        | inl older ↦ inl older
        | inr sets ↦ inr (line, inl refl, sets)
      ]
    ]

key_given :
    (key value : Text) (found : Option Text)
    → or_empty found ≡ value
    → is_empty value ≡ false
    → found ≡ some value
key_given key value none e given = absurd (cc (ap is_empty e))
key_given key value (some v) e given = ap some e

-- The four fields of a manifest that is accepted are declared by the stamp.
pub record IsStamped (stamp : Text) (manifest : ReleaseManifest) : Type 0 where
  pub versioned : Declares stamp (codes "version") manifest.version
  pub committed : Declares stamp (codes "commit") manifest.commit
  pub built_for : Declares stamp (codes "arch") manifest.arch
  pub dated : Declares stamp (codes "built_at") manifest.built_at

declared :
    (contents key value : Text) (stamp : Stamp)
    → add_lines [] (split_at 0x0a contents) ≡ accepted stamp
    → or_empty (lookup key stamp) ≡ value
    → is_empty value ≡ false
    → Declares contents key value
unfolding lookup
declared contents key value stamp h e given =
    elim (lines-Shown key value [] stamp (split_at 0x0a contents) h
      (key_given key value (lookup key stamp) e given)) [
        | inl old ↦ absurd (cc)
        | inr (line, stands, sets) ↦ record {
          line = line;
          stands = stands;
          sets = sets;
          given = given;
        }
      ]

stamped_lines :
    (contents : Text) (manifest : ReleaseManifest) (r : Checked Stamp)
    → add_lines [] (split_at 0x0a contents) ≡ r
    → and_then r (λ stamp. complete (manifest_of stamp)) ≡ accepted manifest
    → IsStamped contents manifest
unfolding complete manifest_of
stamped_lines contents manifest (refused x) e h = absurd (cc)
stamped_lines contents manifest (accepted stamp) e h =
    let m = manifest_of stamp in
    let (full, h') =
      accepted_past
        (is_empty m.version || is_empty m.commit || is_empty m.arch || is_empty m.built_at)
        (codes "does not record a field") (accepted m) manifest h in
    let same : m ≡ manifest = accepted_eq m manifest h' in
    subst (IsStamped contents) same (record {
      versioned = declared contents (codes "version") m.version stamp e refl (ground arith);
      committed = declared contents (codes "commit") m.commit stamp e refl (ground arith);
      built_for = declared contents (codes "arch") m.arch stamp e refl (ground arith);
      dated = declared contents (codes "built_at") m.built_at stamp e refl (ground arith);
    })

pub parse_release_manifest-IsStamped :
    (contents : Text) (manifest : ReleaseManifest)
    → parse_release_manifest contents ≡ accepted manifest
    → IsStamped contents manifest
unfolding parse_release_manifest
parse_release_manifest-IsStamped contents manifest h =
    stamped_lines contents manifest (add_lines [] (split_at 0x0a contents)) refl h
