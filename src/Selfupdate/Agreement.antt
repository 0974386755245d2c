-- ===== src/Selfupdate/Agreement.antt =====
-- What `verifyReleaseAgreement` has compared when it returns no error (manifest.go).
use nexa_panel.Prelude.{
  ◌≡◌, refl, if◌then◌else◌, Bool, true, false, not, Option, none, some, ◌++◌, Text, Bytes, codes,
  text_eq, text_eq_sound, trim_space,
}
use nexa_panel.Jobs.Redact.{lower}
use nexa_panel.Selfupdate.Host.{Operator}
use nexa_panel.Selfupdate.Release.{
  Release, ReleaseManifest, normalize_version, tag_of, on_suffix, agrees_with,
}

pub not-true : (b : Bool) → not b ≡ false → b ≡ true
not-true true e = refl
not-true false e = cc

-- One check of the chain was passed.
passed :
    (b : Bool) (x : Text) (rest : Option Text)
    → (if b then some x else rest) ≡ none
    → (b ≡ false) × (rest ≡ none)
passed true x rest e = absurd (cc)
passed false x rest e = (refl, e)

pub same_text : (a b : Text) → not (text_eq a b) ≡ false → a ≡ b
same_text a b e = text_eq_sound a b (not-true (text_eq a b) e)

-- The statements of what a bundle is all say the same.
pub record Agrees (o : Operator) (sha256 : Bytes → Text) (release : Release)
    (manifest : ReleaseManifest) (suffix : Text) (binary_version digest : Text) (archive : Bytes)
    : Type 0 where
  pub tagged : trim_space release.tag ≡ tag_of release.version
  pub published : release.asset_name ≡ codes "nexa-panel-linux-" ++ (suffix ++ codes ".tar.gz")
  pub built_for : manifest.arch ≡ suffix
  pub stamped : normalize_version o manifest.version ≡ release.version
  pub reports : normalize_version o binary_version ≡ release.version
  pub digested : sha256 archive ≡ lower digest

module _ (o : Operator) (sha256 : Bytes → Text) (release : Release) (manifest : ReleaseManifest)
    (binary_version digest : Text) (archive : Bytes) where
  agrees_with-Agrees :
      (suffix : Text)
      → agrees_with o sha256 release manifest binary_version digest archive suffix ≡ none
      → Agrees o sha256 release manifest suffix binary_version digest archive
  agrees_with-Agrees suffix e =
      let p1 = passed _ _ _ e in
      let p2 = passed _ _ _ p1.1 in
      let p3 = passed _ _ _ p2.1 in
      let p4 = passed _ _ _ p3.1 in
      let p5 = passed _ _ _ p4.1 in
      let p6 = passed _ _ _ p5.1 in
      let p7 = passed _ _ _ p6.1 in
      let p8 = passed _ _ _ p7.1 in
      record {
        tagged = same_text _ _ p1.0;
        published = same_text _ _ p2.0;
        built_for = same_text _ _ p3.0;
        stamped = same_text _ _ p5.0;
        reports = same_text _ _ p7.0;
        digested = same_text _ _ p8.0;
      }

  pub on_suffix-Agrees :
      (s : Option Text)
      → on_suffix o sha256 release manifest binary_version digest archive s ≡ none
      → (suffix : Text) × ((s ≡ some suffix)
          × Agrees o sha256 release manifest suffix binary_version digest archive)
  unfolding on_suffix
  on_suffix-Agrees none e = absurd (cc)
  on_suffix-Agrees (some suffix) e = (suffix, (refl, agrees_with-Agrees suffix e))
