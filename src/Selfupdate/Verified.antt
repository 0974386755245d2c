-- ===== src/Selfupdate/Verified.antt =====
-- Only a verified bundle is installed (the first half of `applyRelease`).
use nexa_panel.Prelude.{
  ◌≡◌, refl, ap, subst, Bool, true, false, not, ◌&&◌, arith, is_empty, split_fields, List, [], ◌∷◌,
  Option, none, some, Text, Bytes, trim_space,
}
use nexa_panel.Jobs.Redact.{contains}
use nexa_panel.Selfupdate.Host.{Host, Operator}
use nexa_panel.Selfupdate.Io.{
  Io, World, Ended, done, fault, cut, or_raise, raise_if, step, ◌>>=◌, ◌>>◌,
}
use nexa_panel.Selfupdate.Io.Leads.{
  Leads, Verdict, Leads-pure, Leads-raise, Leads-or_raise, Leads-weaken, Leads-bind, Leads-then,
  Leads-step,
}
use nexa_panel.Selfupdate.Io.Facts.{Leads-given, Leads-unless}
use nexa_panel.Selfupdate.Release.{
  Release, ReleaseManifest, Checked, accepted, refused, parse_release_manifest, normalize_version,
  asset_arch, first_of, first_field, trim_v, is_plausible_version, verify_release_agreement,
}
use nexa_panel.Selfupdate.Agreement.{Agrees, not-true, same_text, on_suffix-Agrees}
use nexa_panel.Selfupdate.Statements.{
  IsPublished, Mentions, contains-Mentions, parse_checksum-IsPublished,
}
use nexa_panel.Selfupdate.Stamp.{IsStamped, parse_release_manifest-IsStamped}
use nexa_panel.Selfupdate.Apply.{or_refuse, raise_some, validate_binary}
use nexa_panel.Selfupdate.Update.{Source, fetch, verify_bundle}

-- What a run of the binary says: the first word of its output is the version that it reports, and the
-- version that was asked for stands in it.
pub record Reports (o : Operator) (binary : Bytes) (version reported : Text) : Type 0 where
  pub output : Text
  pub others : List Text
  pub ran : o.version_output binary ≡ some output
  pub words_are : split_fields output ≡ reported ∷ others
  pub mentioned : Mentions output version

-- What has been established of a binary: the archive that holds it was published, with its digest and a
-- signature that verifies, and its stamp and the version it reports are those of the release.
pub record IsVerified (o : Operator) (source : Source) (release : Release) (binary : Bytes)
    : Type 0 where
  pub archive : Bytes
  pub signature : Bytes
  pub sums : Text
  pub digest : Text
  pub stamp : Text
  pub manifest : ReleaseManifest
  pub suffix : Text
  pub reported : Text
  pub downloaded : source.fetch release.asset_url ≡ some archive
  pub sums_found : source.fetch release.checksum_url ≡ some sums
  pub published : IsPublished sums digest
  pub checked : source.sha256 archive ≡ digest
  pub signature_found : source.fetch release.signature_url ≡ some signature
  pub signed : source.signed archive signature ≡ true
  pub extracted : source.extract archive ≡ some (binary, stamp)
  pub parsed : parse_release_manifest stamp ≡ accepted manifest
  pub stamped : IsStamped stamp manifest
  pub ran : Reports o binary release.version reported
  pub host_arch : asset_arch o.arch ≡ some suffix
  pub agrees : Agrees o source.sha256 release manifest suffix reported digest archive

abbrev Anything : Host → Type 0
Anything h = Unit

abbrev Finds : {A : Type 0} → (A → Type 0) → Io A → Type 0
Finds R m = Leads Anything m (λ a _. R a) Anything Anything

Finds-bind :
    {A B : Type 0} {R : A → Type 0} {S : B → Type 0} {m : Io A} {k : A → Io B}
    → Finds R m
    → ((a : A) → R a → Finds S (k a))
    → Finds S (m >>= k)
Finds-bind {R = R} l k =
    Leads-bind
      (Leads-weaken {Q' = λ a h. R a × Anything h} (λ h p. p) l (λ a h r. (r, tt)) (λ h p. tt)
        (λ h p. tt))
      (λ a. Leads-given (λ r. k a r))

Finds-then :
    {A B : Type 0} {R : Type 0} {S : B → Type 0} {m : Io A} {n : Io B}
    → Finds (λ _. R) m
    → (R → Finds S n)
    → Finds S (m >> n)
Finds-then {R = R} l k =
    Leads-then {Q = λ h. R × Anything h}
      (Leads-weaken (λ h p. p) l (λ a h r. (r, tt)) (λ h p. tt) (λ h p. tt)) (Leads-given k)

Finds-step : (e : Text) → Finds (λ _. Unit {0}) (step e)
Finds-step e = Leads-step e (λ h p. tt) (λ h p. tt)

Finds-or_raise : {A : Type 0} (v : Option A) (e : Text) → Finds (λ a. v ≡ some a) (or_raise v e)
Finds-or_raise v e = Leads-or_raise v e (λ a h found p. found) (λ h p. tt)

Finds-unless : (b : Bool) (e : Text) → Finds (λ _. b ≡ false) (raise_if b e)
Finds-unless b e =
    Leads-weaken {C = Anything} (λ h p. p) (Leads-unless b e (λ h p. tt)) (λ a h p. p.0) (λ h p. tt)
      (λ h p. tt)

Finds-or_refuse : {A : Type 0} (c : Checked A) → Finds (λ a. c ≡ accepted a) (or_refuse c)
Finds-or_refuse (accepted a) = Leads-pure a (λ h p. refl)
Finds-or_refuse (refused e) = Leads-raise e (λ h p. tt)

Finds-raise_some : (e : Option Text) → Finds (λ _. e ≡ none) (raise_some e)
Finds-raise_some none = Leads-pure tt (λ h p. refl)
Finds-raise_some (some e) = Leads-raise e (λ h p. tt)

module _ (o : Operator) (binary : Bytes) (version : Text) where
  mentioned :
      (output : Text) (v : Text)
      → (not (is_empty v) && not (contains output v)) ≡ false
      → Mentions output v
  mentioned output [] e = record { before = []; after = output; made_of = refl }
  mentioned output (c ∷ v) e = contains-Mentions output (c ∷ v) (not-true _ e)

  reported_word :
      (output : Text) (words : List Text)
      → split_fields output ≡ words
      → not (is_plausible_version o (first_of words)) ≡ false
      → (others : List Text) × (words ≡ first_of words ∷ others)
  unfolding is_plausible_version normalize_version trim_v trim_space
  reported_word output [] e h = absurd (ground arith)
  reported_word output (word ∷ others) e h = (others, refl)

  -- A binary passes by running and reporting.
  validate-Finds : Finds (Reports o binary version) (validate_binary o binary version)
  unfolding validate_binary first_field
  validate-Finds = Finds-then (Finds-step _) λ _. Finds-then (Finds-step _) λ _.
      Finds-bind (Finds-or_raise _ _) λ output ran. Finds-then (Finds-unless _ _) λ told.
        Finds-then (Finds-unless _ _) λ plausible.
          let (others, words) = reported_word output (split_fields output) refl plausible in
          Leads-pure (first_of (split_fields output)) (λ h p. record {
            output = output;
            others = others;
            ran = ran;
            words_are = words;
            mentioned = mentioned output version told;
          })

done_eq : (a b : Bytes) → done a ≡ done b → a ≡ b
done_eq a b e = cc

module _ (o : Operator) (source : Source) (release : Release) where
  fetch-Finds : (url : Text) → Finds (λ bytes. source.fetch url ≡ some bytes) (fetch o source url)
  fetch-Finds url = Finds-then (Finds-step _) (λ _. Finds-or_raise _ _)

  verify-Finds : Finds (IsVerified o source release) (verify_bundle o source release)
  unfolding verify_bundle verify_release_agreement
  verify-Finds = Finds-bind (fetch-Finds release.checksum_url) λ sums sums_found.
      Finds-bind (Finds-or_refuse _) λ digest accepted_as.
        Finds-bind (fetch-Finds release.asset_url) λ archive downloaded.
          Finds-then (Finds-unless _ _) λ checked.
            Finds-bind (fetch-Finds release.signature_url) λ signature found.
              Finds-then (Finds-unless _ _) λ signed. Finds-then (Finds-step _) λ _.
                Finds-bind (Finds-or_raise _ _) λ pair extracted.
                  Finds-bind (validate-Finds o pair.0 release.version) λ reported ran.
                    Finds-bind (Finds-or_refuse _) λ manifest parsed.
                      Finds-then (Finds-raise_some _) λ none_wrong.
                        let arch =
                          on_suffix-Agrees o source.sha256 release manifest reported digest archive
                            (asset_arch o.arch) none_wrong in
                        Leads-pure pair.0 (λ h p. record {
                          archive = archive;
                          signature = signature;
                          sums = sums;
                          digest = digest;
                          stamp = pair.1;
                          manifest = manifest;
                          suffix = arch.0;
                          reported = reported;
                          downloaded = downloaded;
                          sums_found = sums_found;
                          published = parse_checksum-IsPublished sums digest accepted_as;
                          checked = same_text _ _ checked;
                          signature_found = found;
                          signed = not-true _ signed;
                          extracted = extracted;
                          parsed = parsed;
                          stamped = parse_release_manifest-IsStamped pair.1 manifest parsed;
                          ran = ran;
                          host_arch = arch.1.0;
                          agrees = arch.1.1;
                        })

  IsVerified-verdict :
      (r : Ended Bytes × World) {binary : Bytes} {w : World}
      → Verdict (λ b _. IsVerified o source release b) Anything Anything r
      → r ≡ (done binary, w)
      → IsVerified o source release binary
  IsVerified-verdict (done b, w) v e =
      subst (IsVerified o source release) (done_eq _ _ (ap (λ (r : Ended Bytes × World). r.0) e)) v
  IsVerified-verdict (fault _, w) v e = absurd (cc)
  IsVerified-verdict (cut, w) v e = absurd (cc)

  -- A binary that the verification of a release gives back, whichever of its steps fail, comes from the
  -- published archive: the digest of the archive is the first word of the release's checksum file, in lower
  -- case and 64 hexadecimal digits long, and its signature verifies; it was extracted to this binary and a
  -- stamp, whose lines declare the version, the commit, the architecture and the date of its manifest; the
  -- binary ran, and the first word that it printed is the version that it reports, with the release's
  -- version in its output; and the tag, the asset's name, the declared version and architecture, the
  -- reported version and the digest all agree with the release and with this host.
  pub verify_bundle-IsVerified :
      (w w' : World) (binary : Bytes)
      → verify_bundle o source release w ≡ (done binary, w')
      → IsVerified o source release binary
  verify_bundle-IsVerified w w' binary e =
      IsVerified-verdict (verify_bundle o source release w) (verify-Finds.at w tt) e
