-- ===== src/Jobs/Clean.antt =====
-- What the redaction of a payload guarantees.
use nexa_panel.Prelude.{
  ◌≡◌, ◌≢◌, ◌↔◌, refl, sym, ap, subst, Bool, true, false, Option, none, some, [], ◌∷◌, Text, inl,
  inr, Option-cases,
}
use nexa_panel.Jobs.Redact.{
  Value, Items, Fields, null, bool, num, str, arr, obj, nil, cons, end, field, redacted_secret,
  is_credential_key, redact_value, redact_items, redact_fields, shown, withheld, redact_raw_json,
  redact_decoded,
}

-- Nowhere in the payload, at any depth, does a credential key hold anything but the placeholder.
unfoldable mutual
  pub IsClean : Value → Type 0
  IsClean (obj fs) = CleanFields fs
  IsClean (arr xs) = CleanItems xs
  IsClean null = Unit
  IsClean (bool b) = Unit
  IsClean (num n) = Unit
  IsClean (str s) = Unit

  pub CleanItems : Items → Type 0
  CleanItems nil = Unit
  CleanItems (cons x xs) = IsClean x × CleanItems xs

  pub CleanFields : Fields → Type 0
  CleanFields end = Unit
  CleanFields (field key v fs) =
      (is_credential_key key ≡ true → v ≡ str redacted_secret) × IsClean v × CleanFields fs

shown_credential : (b : Bool) (v : Value) → b ≡ true → shown b v ≡ str redacted_secret
shown_credential true v h = refl
shown_credential false v h = cc

shown-IsClean : (b : Bool) (v : Value) → IsClean v → IsClean (shown b v)
unfolding IsClean
shown-IsClean true v h = tt
shown-IsClean false v h = h

mutual
  unfolding redact_value IsClean

  redact_value-IsClean : (v : Value) → IsClean (redact_value v)
  redact_value-IsClean (obj fs) = redact_fields-Clean fs
  redact_value-IsClean (arr xs) = redact_items-Clean xs
  redact_value-IsClean null = tt
  redact_value-IsClean (bool b) = tt
  redact_value-IsClean (num n) = tt
  redact_value-IsClean (str s) = tt

  redact_items-Clean : (xs : Items) → CleanItems (redact_items xs)
  redact_items-Clean nil = tt
  redact_items-Clean (cons x xs) = (redact_value-IsClean x, redact_items-Clean xs)

  redact_fields-Clean : (fs : Fields) → CleanFields (redact_fields fs)
  redact_fields-Clean end = tt
  redact_fields-Clean (field key v fs) = (
    shown_credential (is_credential_key key) (redact_value v),
    shown-IsClean (is_credential_key key) (redact_value v) (redact_value-IsClean v),
    redact_fields-Clean fs,
  )

shown_same : (b : Bool) (v w : Value) → (b ≡ true → w ≡ str redacted_secret) → v ≡ w → shown b v ≡ w
shown_same true v w h e = sym (h refl)
shown_same false v w h e = e

mutual
  unfolding redact_value IsClean

  redact_clean_value : (v : Value) → IsClean v → redact_value v ≡ v
  redact_clean_value (obj fs) h = ap obj (redact-CleanFields fs h)
  redact_clean_value (arr xs) h = ap arr (redact-CleanItems xs h)
  redact_clean_value null h = refl
  redact_clean_value (bool b) h = refl
  redact_clean_value (num n) h = refl
  redact_clean_value (str s) h = refl

  redact-CleanItems : (xs : Items) → CleanItems xs → redact_items xs ≡ xs
  redact-CleanItems nil h = refl
  redact-CleanItems (cons x xs) (h, hs) = cc (redact_clean_value x h, redact-CleanItems xs hs)

  redact-CleanFields : (fs : Fields) → CleanFields fs → redact_fields fs ≡ fs
  redact-CleanFields end h = refl
  redact-CleanFields (field key v fs) (k, h, hs) = cc (
    shown_same (is_credential_key key) (redact_value v) v k (redact_clean_value v h),
    redact-CleanFields fs hs,
  )

-- Redaction leaves a payload in which every credential key, at any depth, holds the placeholder;
-- it changes nothing exactly where that held before, and so nothing when it is done again.
pub redact_value_laws :
    (v : Value)
    → IsClean (redact_value v)
      × ((redact_value v ≡ v) ↔ IsClean v)
      × (redact_value (redact_value v) ≡ redact_value v)
redact_value_laws v = (
  redact_value-IsClean v,
  ((λ e. subst IsClean e (redact_value-IsClean v)), redact_clean_value v),
  redact_clean_value (redact_value v) (redact_value-IsClean v),
)

module _ (decode : Text → Option Value) (encode : Value → Option Text)
    (round_trip : (v : Value) (t : Text) → encode v ≡ some t → decode t ≡ some v)
    (placeholder : decode withheld ≡ some (str redacted_secret)) where
  withheld-IsClean : (v : Value) → decode withheld ≡ some v → IsClean v
  withheld-IsClean v h =
      let e : str redacted_secret ≡ v = cc in subst IsClean e (unfold IsClean in tt)

  redact_decoded-IsClean :
      (o : Option Value) (v : Value) → decode (redact_decoded decode encode o) ≡ some v → IsClean v
  redact_decoded-IsClean none v h = withheld-IsClean v (unfold redact_decoded in h)
  redact_decoded-IsClean (some decoded) v h = elim (Option-cases (encode (redact_value decoded))) [
    | inl e ↦ withheld-IsClean v (unfold redact_decoded in rw e at h)
    | inr (t, e) ↦
        let r = round_trip (redact_value decoded) t e in
        let h' : decode t ≡ some v = unfold redact_decoded in rw e at h in
        let q : redact_value decoded ≡ v = cc in subst IsClean q (redact_value-IsClean decoded)
  ]

  -- Whatever a payload is that the API shows, be it undecodable or not encodable again: what a
  -- reader decodes from it has no credential in it. The JSON library is taken to decode what it
  -- encodes, and to read the placeholder as that string.
  pub redact_raw_json-IsClean :
      (raw : Text) (v : Value)
      → raw ≢ []
      → decode (redact_raw_json decode encode raw) ≡ some v
      → IsClean v
  redact_raw_json-IsClean [] v n h = absurd (n refl)
  redact_raw_json-IsClean (c ∷ raw) v n h =
      redact_decoded-IsClean (decode (c ∷ raw)) v (unfold redact_raw_json in h)
