-- ===== src/Schedule/Codes.antt =====
-- The characters of an accepted schedule.
use nexa_panel.Prelude.{
  ℕ, ◌+◌, ◌-◌, ◌*◌, ◌≡◌, refl, sym, subst, ◌∙◌, Bool, true, false, ◌&&◌, ◌==◌, Option, none, some,
  List, [], ◌∷◌, Text, arith, Bool-cases, Option-cases, inl, inr, ◌⊎◌, ℤ, all, leb, text_eq,
  text_eq_sound, atoi, unsigned, signed_value, digits_value, cut_at, split_at, push,
}
use nexa_panel.Schedule.Cron.{
  Definition, star, within_bounds, parse_cron_number, check_bounds, check_number, check_range,
  check_base, bad_step, check_step, check_item, check_items, validate_cron_field,
}

-- `*`, `+`, `,`, `-`, `.`, `/` and the digits
abbrev pub field_code : ℕ → Bool
field_code c = leb 42 c && leb c 57

abbrev found_some : {A : Type 0} → Option A → Bool
found_some none = false
found_some (some a) = true

digits_value-codes :
    (s : Text) (n : ℕ) → found_some (digits_value s n) ≡ true → all field_code s ≡ true
unfolding digits_value
digits_value-codes [] n h = refl
digits_value-codes (c ∷ s) n h = ground (arith, digits_value-codes s (n * 10 + (c - 48)))

unsigned-codes : (s : Text) → found_some (unsigned s) ≡ true → all field_code s ≡ true
unfolding unsigned
unsigned-codes [] h = refl
unsigned-codes (c ∷ s) h = digits_value-codes (c ∷ s) 0 h

signed_value-found :
    (b : Bool) (o : Option ℕ) → found_some (signed_value b o) ≡ true → found_some o ≡ true
unfolding signed_value
signed_value-found true none h = h
signed_value-found false none h = h
signed_value-found true (some n) h = refl
signed_value-found false (some n) h = refl

atoi-codes : (t : Text) → found_some (atoi t) ≡ true → all field_code t ≡ true
unfolding atoi
atoi-codes [] h = refl
atoi-codes (c ∷ s) h = ground (
  arith,
  signed_value-found true (unsigned s),
  signed_value-found false (unsigned s),
  signed_value-found false (unsigned (c ∷ s)),
  unsigned-codes s,
  unsigned-codes (c ∷ s),
)

within_bounds-found :
    (lo hi : ℕ) (o : Option ℤ) → found_some (within_bounds lo hi o) ≡ true → found_some o ≡ true
unfolding within_bounds
within_bounds-found lo hi none h = h
within_bounds-found lo hi (some n) h = refl

parse_cron_number-codes :
    (lo hi : ℕ) (t : Text) → found_some (parse_cron_number lo hi t) ≡ true → all field_code t ≡ true
unfolding parse_cron_number
parse_cron_number-codes lo hi t h = atoi-codes t (within_bounds-found lo hi (atoi t) h)

same_code : (c d : ℕ) → (c == d) ≡ true → c ≡ d
same_code c d e = ground arith

both : (a b : Bool) → (a && b) ≡ true → (a ≡ true) × (b ≡ true)
both true true e = (refl, refl)
both true false e = absurd (ground arith)
both false b e = absurd (ground arith)

-- A text is made of the parts before and behind its first separator.
cut_at-codes :
    (separator : ℕ) (t : Text)
    → field_code separator ≡ true
    → all field_code (cut_at separator t).0 ≡ true
    → all field_code (cut_at separator t).1 ≡ true
    → all field_code t ≡ true
unfolding cut_at
cut_at-codes separator [] p a b = refl
cut_at-codes separator (c ∷ s) p a b = elim (Bool-cases (c == separator)) [
  | inl e ↦
      let rest : all field_code s ≡ true = sym (rw e refl) ∙ b in
      let head : field_code c ≡ true =
        subst (λ x. field_code x ≡ true) (sym (same_code c separator e)) p in
      rw head rest
  | inr e ↦
      let front : (field_code c && all field_code (cut_at separator s).0) ≡ true =
        sym (rw e refl) ∙ a in
      let back : all field_code (cut_at separator s).1 ≡ true = sym (rw e refl) ∙ b in
      let (head, part) = both (field_code c) (all field_code (cut_at separator s).0) front in
      rw head (cut_at-codes separator s p part back)
]

push-codes :
    (c : ℕ) (parts : List Text)
    → all (all field_code) (push c parts) ≡ true
    → (field_code c ≡ true) × (all (all field_code) parts ≡ true)
push-codes c [] h = (ground arith, refl)
push-codes c (part ∷ parts) h = (ground arith, ground arith)

split_at-codes :
    (separator : ℕ) (t : Text)
    → field_code separator ≡ true
    → all (all field_code) (split_at separator t) ≡ true
    → all field_code t ≡ true
unfolding split_at
split_at-codes separator [] p h = refl
split_at-codes separator (c ∷ s) p h = elim (Bool-cases (c == separator)) [
  | inl e ↦
      let rest : all (all field_code) (split_at separator s) ≡ true = sym (rw e refl) ∙ h in
      let head : field_code c ≡ true =
        subst (λ x. field_code x ≡ true) (sym (same_code c separator e)) p in
      rw head (split_at-codes separator s p rest)
  | inr e ↦
      let pushed : all (all field_code) (push c (split_at separator s)) ≡ true =
        sym (rw e refl) ∙ h in
      let (head, rest) = push-codes c (split_at separator s) pushed in
      rw head (split_at-codes separator s p rest)
]

module _ (d : Definition) where
  check_number-codes :
      (t : Text)
      → check_number (parse_cron_number d.minimum d.maximum t) ≡ none
      → all field_code t ≡ true
  unfolding check_number
  check_number-codes t h = elim (Option-cases (parse_cron_number d.minimum d.maximum t)) [
    | inl e ↦ absurd (ground arith)
    | inr (n, e) ↦ parse_cron_number-codes d.minimum d.maximum t (rw e refl)
  ]

  check_bounds-codes :
      (low high : Text)
      → check_bounds
          (parse_cron_number d.minimum d.maximum low)
          (parse_cron_number d.minimum d.maximum high)
        ≡ none
      → (all field_code low ≡ true) × (all field_code high ≡ true)
  unfolding check_bounds
  check_bounds-codes low high h = elim (Option-cases (parse_cron_number d.minimum d.maximum low)) [
    | inl e ↦ absurd (ground arith)
    | inr (n, e) ↦ elim (Option-cases (parse_cron_number d.minimum d.maximum high)) [
      | inl e' ↦ absurd (ground arith)
      | inr (n', e') ↦ (
        parse_cron_number-codes d.minimum d.maximum low (rw e refl),
        parse_cron_number-codes d.minimum d.maximum high (rw e' refl),
      )
    ]
  ]

  check_range-codes :
      (base : Text) (t : Text × Text × Bool)
      → check_range d base t ≡ none
      → ((all field_code t.0 ≡ true) × (all field_code t.1 ≡ true)) ⊎ (all field_code base ≡ true)
  unfolding check_range
  check_range-codes base (low, high, true) h = inl (check_bounds-codes low high h)
  check_range-codes base (low, high, false) h = inr (check_number-codes base h)

  check_base-codes : (base : Text) → check_base d base ≡ none → all field_code base ≡ true
  unfolding check_base
  check_base-codes base h = elim (Bool-cases (text_eq base star)) [
    | inl e ↦ subst (λ t. all field_code t ≡ true) (sym (text_eq_sound base star e)) refl
    | inr e ↦ elim (check_range-codes base (cut_at 45 base) (ground arith)) [
      | inl (a, b) ↦ cut_at-codes 45 base refl a b
      | inr whole ↦ whole
    ]
  ]

  bad_step-codes : (t : Text) → bad_step d (atoi t) ≡ false → all field_code t ≡ true
  unfolding bad_step
  bad_step-codes t h = elim (Option-cases (atoi t)) [
    | inl e ↦ absurd (ground arith)
    | inr (n, e) ↦ atoi-codes t (rw e refl)
  ]

  check_step-codes :
      (item : Text) (t : Text × Text × Bool)
      → check_step d item t ≡ none
      → ((all field_code t.0 ≡ true) × (all field_code t.1 ≡ true)) ⊎ (all field_code item ≡ true)
  unfolding check_step
  check_step-codes item (before, after, true) h =
      inl (ground (arith, check_base-codes before), ground (arith, bad_step-codes after))
  check_step-codes item (before, after, false) h = inr (check_base-codes item h)

  check_item-codes : (item : Text) → check_item d item ≡ none → all field_code item ≡ true
  unfolding check_item
  check_item-codes item h = elim (check_step-codes item (cut_at 47 item) (ground arith)) [
    | inl (a, b) ↦ cut_at-codes 47 item refl a b
    | inr whole ↦ whole
  ]

  check_items-codes :
      (items : List Text) → check_items d items ≡ none → all (all field_code) items ≡ true
  unfolding check_items
  check_items-codes [] h = refl
  check_items-codes (item ∷ items) h =
      ground (arith, check_item-codes item, check_items-codes items)

  -- A field that passes its check is made of `*`, `+`, `,`, `-`, `.`, `/` and digits.
  pub field-codes :
      (field : Text) → validate_cron_field d field ≡ none → all field_code field ≡ true
  unfolding validate_cron_field
  field-codes field h =
      split_at-codes 44 field refl (check_items-codes (split_at 44 field) (ground arith))
