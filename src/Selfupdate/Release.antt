-- ===== src/Selfupdate/Release.antt =====
-- What a release says of itself (version.go, manifest.go, and the parsers of apply.go). Semantic versions
-- are parsed by golang.org/x/mod/semver and digests computed by crypto/sha256: parameters.
use nexa_panel.Prelude.{
  ℕ, Bool, true, false, not, ◌||◌, ◌&&◌, ◌==◌, Option, none, some, List, [], ◌∷◌, ◌++◌, Text, Bytes,
  codes, any, is_empty, if◌then◌else◌, text_eq, trim_space, split_at, split_fields, cut_at,
  byte_len, lookup,
}
use nexa_panel.Jobs.Redact.{lower}
use nexa_panel.Selfupdate.Host.{Operator}

pub record Release : Type 0 where
  pub version : Text
  pub tag : Text
  pub asset_name : Text
  pub asset_url : Text
  pub checksum_url : Text
  pub signature_url : Text

pub record ReleaseManifest : Type 0 where
  pub version : Text
  pub commit : Text
  pub arch : Text
  pub built_at : Text

pub data Checked (A : Type 0) : Type 0 where
  accepted : A → Checked A
  refused : Text → Checked A

abbrev pub first_of : List Text → Text
first_of [] = []
first_of (field ∷ _) = field

-- `firstField`
unfoldable pub first_field : Text → Text
first_field s = first_of (split_fields s)

-- `strings.TrimPrefix(s, "v")`
unfoldable pub trim_v : Text → Text
trim_v [] = []
trim_v (c ∷ s) = if c == 0x76 then s else c ∷ s

-- `"v" + s`
abbrev pub tag_of : Text → Text
tag_of s = 0x76 ∷ s

-- `assetArch`
unfoldable pub asset_arch : Text → Option Text
asset_arch goarch =
    if text_eq goarch (codes "amd64")
    then some (codes "amd64")
    else if text_eq goarch (codes "arm64")
    then some (codes "arm64")
    else none

abbrev is_hex : ℕ → Bool
is_hex c = any (λ d. c == d) (codes "0123456789abcdef")

abbrev pub digest_of : Text → Checked Text
digest_of digest =
    if not (byte_len digest == 64)
    then refused (codes "release checksum is not a SHA-256 digest")
    else if any (λ c. not (is_hex c)) digest
    then refused (codes "release checksum is not valid hex")
    else accepted digest

abbrev pub first_digest : List Text → Checked Text
first_digest [] = refused (codes "release checksum file is empty")
first_digest (field ∷ _) = digest_of (lower field)

unfoldable pub parse_checksum : Text → Checked Text
parse_checksum contents = first_digest (split_fields contents)

-- The keys of the stamp, in the order in which they were seen, with their values.
abbrev pub Stamp : Type 0
Stamp = List (Text × Text)

unfoldable pub seen : Text → Stamp → Bool
seen key stamp = any (λ (pair : Text × Text). text_eq pair.0 key) stamp

abbrev pub add_pair : Stamp → Text × Text × Bool → Checked Stamp
add_pair stamp (key, value, false) = refused (codes "a line that is not key=value")
add_pair stamp (key, value, true) =
    if seen (trim_space key) stamp
    then refused (codes "declares twice")
    else accepted ((trim_space key, trim_space value) ∷ stamp)

unfoldable pub add_line : Stamp → Text → Checked Stamp
add_line stamp [] = accepted stamp
add_line stamp (c ∷ line) =
    if c == 0x23 then accepted stamp else add_pair stamp (cut_at 0x3d (c ∷ line))

abbrev pub and_then : {A B : Type 0} → Checked A → (A → Checked B) → Checked B
and_then (accepted a) f = f a
and_then (refused e) f = refused e

unfoldable pub add_lines : Stamp → List Text → Checked Stamp
add_lines stamp [] = accepted stamp
add_lines stamp (line ∷ lines) =
    and_then (add_line stamp (trim_space line)) (λ s. add_lines s lines)

abbrev pub or_empty : Option Text → Text
or_empty none = []
or_empty (some value) = value

unfoldable pub manifest_of : Stamp → ReleaseManifest
manifest_of stamp = record {
  version = or_empty (lookup (codes "version") stamp);
  commit = or_empty (lookup (codes "commit") stamp);
  arch = or_empty (lookup (codes "arch") stamp);
  built_at = or_empty (lookup (codes "built_at") stamp);
}

unfoldable pub complete : ReleaseManifest → Checked ReleaseManifest
complete m =
    if is_empty m.version || is_empty m.commit || is_empty m.arch || is_empty m.built_at
    then refused (codes "does not record a field")
    else accepted m

unfoldable pub parse_release_manifest : Text → Checked ReleaseManifest
parse_release_manifest contents =
    and_then (add_lines [] (split_at 0x0a contents)) (λ stamp. complete (manifest_of stamp))

module _ (o : Operator) where
  unfoldable pub normalize_version : Text → Text
  normalize_version raw =
      let value = trim_v (trim_space raw) in
      if any (λ c. c == 0x2b) value || not (o.canonical (tag_of value)) then [] else value

  unfoldable pub is_newer : Text → Text → Bool
  is_newer candidate baseline =
      let c = normalize_version candidate in
      let b = normalize_version baseline in
      not (is_empty c) && not (is_empty b) && o.higher (tag_of c) (tag_of b)

  unfoldable pub is_plausible_version : Text → Bool
  is_plausible_version reported = not (is_empty (normalize_version reported))

  abbrev pub agrees_with :
      (Bytes → Text) → Release → ReleaseManifest → Text → Text → Bytes → Text → Option Text
  agrees_with sha256 release manifest binary_version digest archive suffix =
      let manifest_version = normalize_version manifest.version in
      let reported = normalize_version binary_version in
      if not (text_eq (trim_space release.tag) (tag_of release.version))
      then some (codes "release tag does not name the version")
      else if not
          (text_eq release.asset_name (codes "nexa-panel-linux-" ++ (suffix ++ codes ".tar.gz")))
      then some (codes "release published the bundle under another name")
      else if not (text_eq manifest.arch suffix)
      then some (codes "the bundle is built for another architecture")
      else if is_empty manifest_version
      then some (codes "the bundle records an unrecognizable version")
      else if not (text_eq manifest_version release.version)
      then some (codes "the bundle is another version")
      else if is_empty reported
      then some (codes "the binary reports an unrecognizable version")
      else if not (text_eq reported release.version)
      then some (codes "the binary reports another version")
      else if not (text_eq (sha256 archive) (lower digest))
      then some (codes "the bundle is not the bytes whose digest was verified")
      else none

  unfoldable pub on_suffix :
      (Bytes → Text) → Release → ReleaseManifest → Text → Text → Bytes → Option Text → Option Text
  on_suffix sha256 release manifest binary_version digest archive none =
      some (codes "self-update is unsupported on this architecture")
  on_suffix sha256 release manifest binary_version digest archive (some suffix) =
      agrees_with sha256 release manifest binary_version digest archive suffix

  -- `verifyReleaseAgreement`: none where it returns no error
  unfoldable pub verify_release_agreement :
      (Bytes → Text) → Release → ReleaseManifest → Text → Text → Text → Bytes → Option Text
  verify_release_agreement sha256 release manifest arch binary_version digest archive =
      on_suffix sha256 release manifest binary_version digest archive (asset_arch arch)
