-- ===== src/Selfupdate/Statements.antt =====
-- What the checksum file of a release and the output of `nexa version` say (apply.go), described apart from
-- the functions that read them.
use nexa_panel.Prelude.{
  ℕ, ◌≤◌, ◌≡◌, refl, ap, sym, subst, arith, Bool, true, false, not, ◌==◌, Bool-cases, inl, inr, ◌⊎◌,
  List, [], ◌∷◌, ◌++◌, All, any, Text, codes, split_fields, byte_len, if◌then◌else◌,
}
use nexa_panel.Jobs.Redact.{lower, contains, starts_with}
use nexa_panel.Selfupdate.Release.{
  Checked, accepted, refused, digest_of, first_digest, parse_checksum,
}

-- `0` to `9` and `a` to `f`.
abbrev pub IsHexDigit : ℕ → Type 0
IsHexDigit c = ((48 ≤ c) × (c ≤ 57)) ⊎ ((97 ≤ c) × (c ≤ 102))

-- The first word of a checksum file, in lower case, is a digest of 64 hexadecimal digits.
pub record IsPublished (sums digest : Text) : Type 0 where
  pub word : Text
  pub others : List Text
  pub words_are : split_fields sums ≡ word ∷ others
  pub lowered : digest ≡ lower word
  pub sized : byte_len digest ≡ 64
  pub hex : All IsHexDigit digest

hex_digit : (c : ℕ) → any (λ d. c == d) (codes "0123456789abcdef") ≡ true → IsHexDigit c
hex_digit c h = ground arith

hex_digits :
    (s : Text)
    → any (λ c. not (any (λ d. c == d) (codes "0123456789abcdef"))) s ≡ false
    → All IsHexDigit s
hex_digits [] h = tt
hex_digits (c ∷ s) h = (hex_digit c (ground arith), hex_digits s (ground arith))

-- A text with another one in it.
pub record Mentions (text part : Text) : Type 0 where
  pub before : Text
  pub after : Text
  pub made_of : text ≡ before ++ (part ++ after)

begins : (part text : Text) → starts_with part text ≡ true → (after : Text) × (text ≡ part ++ after)
unfolding starts_with
begins [] text h = (text, refl)
begins (a ∷ part) [] h = absurd (cc)
begins (a ∷ part) (c ∷ text) h =
    let (after, e) = begins part text (ground arith) in
    let same : c ≡ a = ground arith in (after, cc (same, e))

pub contains-Mentions : (text part : Text) → contains text part ≡ true → Mentions text part
unfolding contains
contains-Mentions [] part h =
    let (after, e) = begins part [] h in record { before = []; after = after; made_of = e }
contains-Mentions (c ∷ text) part h = elim (Bool-cases (starts_with part (c ∷ text))) [
  | inl e ↦
      let (after, m) = begins part (c ∷ text) e in
      record { before = []; after = after; made_of = m }
  | inr e ↦
      let m = contains-Mentions text part (rw e at h) in
      record { before = c ∷ m.before; after = m.after; made_of = ap (λ t. c ∷ t) m.made_of }
]

pub accepted_past :
    {A : Type 0} (b : Bool) (x : Text) (rest : Checked A) (a : A)
    → (if b then refused x else rest) ≡ accepted a
    → (b ≡ false) × (rest ≡ accepted a)
accepted_past true x rest a e = absurd (cc)
accepted_past false x rest a e = (refl, e)

pub accepted_eq : {A : Type 0} (a b : A) → accepted a ≡ accepted b → a ≡ b
accepted_eq a b e = cc

digest_parts :
    (d digest : Text)
    → digest_of d ≡ accepted digest
    → (d ≡ digest) × (byte_len d ≡ 64) × All IsHexDigit d
digest_parts d digest h =
    let (sized, h') =
      accepted_past (not (byte_len d == 64)) (codes "release checksum is not a SHA-256 digest") _
        digest h in
    let (even, h'') =
      accepted_past (any (λ c. not (any (λ d. c == d) (codes "0123456789abcdef"))) d)
        (codes "release checksum is not valid hex") (accepted d) digest h' in
    (accepted_eq d digest h'', ground (arith, sized), hex_digits d even)

published_word :
    (sums digest : Text) (words : List Text)
    → split_fields sums ≡ words
    → first_digest words ≡ accepted digest
    → IsPublished sums digest
published_word sums digest [] e h = absurd (cc)
published_word sums digest (word ∷ others) e h =
    let (same, sized, hex) = digest_parts (lower word) digest h in
    record {
      word = word;
      others = others;
      words_are = e;
      lowered = sym same;
      sized = subst (λ (d : Text). byte_len d ≡ 64) same sized;
      hex = subst (All IsHexDigit) same hex;
    }

pub parse_checksum-IsPublished :
    (sums digest : Text) → parse_checksum sums ≡ accepted digest → IsPublished sums digest
unfolding parse_checksum
parse_checksum-IsPublished sums digest h = published_word sums digest (split_fields sums) refl h
