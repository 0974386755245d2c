-- ===== src/Jobs/Redact.antt =====
-- The redaction of job payloads (internal/platform/jobs/redact.go). A JSON number is kept as its
-- text. Decoding and encoding are Go's `encoding/json`, and enter as arguments.
use nexa_panel.Prelude.{
  ℕ, ◌+◌, Bool, true, false, ◌&&◌, ◌||◌, Option, none, some, List, [], ◌∷◌, ◌++◌, Text, any, leb,
  ◌==◌, if◌then◌else◌, codes,
}

mutual
  pub data Value : Type 0 where
    null : Value
    bool : Bool → Value
    num : Text → Value
    str : Text → Value
    arr : Items → Value
    obj : Fields → Value

  pub data Items : Type 0 where
    nil : Items
    cons : Value → Items → Items

  -- The fields of an object, by their keys.
  pub data Fields : Type 0 where
    end : Fields
    field : Text → Value → Fields → Fields

abbrev pub redacted_secret : Text
redacted_secret = codes "[redacted]"

abbrev pub credential_key_fragments : List Text
credential_key_fragments =
    codes "password"
    ∷ codes "passwd"
    ∷ codes "secret"
    ∷ codes "token"
    ∷ codes "key"
    ∷ codes "passphrase"
    ∷ codes "credential"
    ∷ codes "auth"
    ∷ codes "private"
    ∷ codes "signature"
    ∷ codes "salt"
    ∷ codes "session"
    ∷ []

-- `unicode.ToLower`, as far as it meets ASCII: beside the capital letters, the Kelvin sign and the
-- dotted capital I have an ASCII letter for their lower case. No other code point becomes ASCII, so
-- a search for an ASCII fragment does not tell the difference.
unfoldable pub to_lower : ℕ → ℕ
to_lower c =
    if leb b'A' c && leb c b'Z'
    then c + 32
    else if c == 0x212a
    then b'k'
    else if c == 0x130
    then b'i'
    else c

unfoldable pub lower : Text → Text
unfolding to_lower
lower [] = []
lower (c ∷ s) = to_lower c ∷ lower s

unfoldable pub starts_with : Text → Text → Bool
starts_with [] s = true
starts_with (a ∷ p) [] = false
starts_with (a ∷ p) (c ∷ s) = (a == c) && starts_with p s

-- `strings.Contains`
unfoldable pub contains : Text → Text → Bool
unfolding starts_with
contains [] p = starts_with p []
contains (c ∷ s) p = starts_with p (c ∷ s) || contains s p

-- `isCredentialKey`
unfoldable pub is_credential_key : Text → Bool
unfolding lower contains
is_credential_key key = any (contains (lower key)) credential_key_fragments

abbrev pub shown : Bool → Value → Value
shown credential nested = if credential then str redacted_secret else nested

-- `redactValue`
unfoldable mutual
  pub redact_value : Value → Value
  redact_value (obj fs) = obj (redact_fields fs)
  redact_value (arr xs) = arr (redact_items xs)
  redact_value null = null
  redact_value (bool b) = bool b
  redact_value (num n) = num n
  redact_value (str s) = str s

  pub redact_items : Items → Items
  redact_items nil = nil
  redact_items (cons x xs) = cons (redact_value x) (redact_items xs)

  pub redact_fields : Fields → Fields
  redact_fields end = end
  redact_fields (field key nested fs) =
      field key (shown (is_credential_key key) (redact_value nested)) (redact_fields fs)

-- The JSON string that stands for a payload which cannot be examined.
abbrev pub withheld : Text
withheld = b'"' ∷ (redacted_secret ++ b'"' ∷ [])

abbrev pub or_withheld : Option Text → Text
or_withheld none = withheld
or_withheld (some encoded) = encoded

module _ (decode : Text → Option Value) (encode : Value → Option Text) where
  unfoldable pub redact_decoded : Option Value → Text
  redact_decoded none = withheld
  redact_decoded (some decoded) = or_withheld (encode (redact_value decoded))

  -- `redactRawJSON`
  unfoldable pub redact_raw_json : Text → Text
  unfolding redact_decoded
  redact_raw_json [] = []
  redact_raw_json (c ∷ raw) = redact_decoded (decode (c ∷ raw))
