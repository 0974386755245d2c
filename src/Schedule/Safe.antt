-- ===== src/Schedule/Safe.antt =====
-- The calendar expression of an accepted schedule.
use nexa_panel.Prelude.{
  ℕ, ◌%◌, ◌≡◌, refl, subst, Bool, true, false, ◌||◌, ◌&&◌, ◌==◌, Option, none, some, List, [], ◌∷◌,
  ◌++◌, map, Text, codes, arith, Bool-cases, inl, inr, all, leb, text_eq, cut_at, split_at, push,
  join, trim_space, split_fields,
}
use nexa_panel.Schedule.Cron.{
  CronError, Definition, star, Calendar, calendar, rejected, dots, digit, convert_part,
  convert_numeric_field, weekday_names, name_of, weekday_name, parse_cron_number, range_text,
  weekday_part, cons_text, weekday_parts, with_weekdays, minute_field, hour_field, day_field,
  month_field, check_fields, then_check, date_and_clock, convert_checked, convert_fields,
  validate_schedule, validate_cron_field,
}
use nexa_panel.Schedule.Codes.{field_code, field-codes}

-- A blank, a letter, `*`, `+`, `,`, `-`, `.`, `/`, a digit, or `:`
abbrev pub calendar_code : ℕ → Bool
calendar_code c =
    (c == 32) || ((leb 42 c && leb c 58) || ((leb 65 c && leb c 90) || (leb 97 c && leb c 122)))

abbrev pub IsSafe : Text → Type 0
IsSafe t = all calendar_code t ≡ true

field-IsSafe : (t : Text) → all field_code t ≡ true → IsSafe t
field-IsSafe [] h = refl
field-IsSafe (c ∷ t) h = ground (arith, field-IsSafe t)

append-IsSafe : (s t : Text) → IsSafe s → IsSafe t → IsSafe (s ++ t)
append-IsSafe [] t a b = b
append-IsSafe (c ∷ s) t a b = ground (arith, append-IsSafe s t)

join-IsSafe :
    (separator : Text) (parts : List Text)
    → IsSafe separator
    → all (all calendar_code) parts ≡ true
    → IsSafe (join separator parts)
unfolding join
join-IsSafe separator [] p h = refl
join-IsSafe separator (part ∷ []) p h = ground arith
join-IsSafe separator (part ∷ part' ∷ parts) p h =
    append-IsSafe part _ (ground arith)
      (append-IsSafe separator _ p (join-IsSafe separator (part' ∷ parts) p (ground arith)))

dots-IsSafe : (t : Text) → IsSafe t → IsSafe (dots t)
unfolding dots
dots-IsSafe [] h = refl
dots-IsSafe (c ∷ t) h = elim (Bool-cases (c == 45)) [
  | inl e ↦ rw e (dots-IsSafe t (ground arith))
  | inr e ↦ rw e (ground (arith, dots-IsSafe t))
]

convert_part-IsSafe : (m : ℕ) (t : Text) → IsSafe (digit m) → IsSafe t → IsSafe (convert_part m t)
unfolding convert_part
convert_part-IsSafe m [] d h = refl
convert_part-IsSafe m (c ∷ []) d h = dots-IsSafe (c ∷ []) h
convert_part-IsSafe m (c ∷ c' ∷ rest) d h = elim (Bool-cases ((c == 42) && (c' == 47))) [
  | inl e ↦ rw e (ground arith)
  | inr e ↦ rw e (dots-IsSafe (c ∷ c' ∷ rest) h)
]

push-IsSafe :
    (c : ℕ) (parts : List Text)
    → calendar_code c ≡ true
    → all (all calendar_code) parts ≡ true
    → all (all calendar_code) (push c parts) ≡ true
push-IsSafe c [] p h = ground arith
push-IsSafe c (part ∷ parts) p h = ground arith

split_at-IsSafe :
    (separator : ℕ) (t : Text) → IsSafe t → all (all calendar_code) (split_at separator t) ≡ true
unfolding split_at
split_at-IsSafe separator [] h = refl
split_at-IsSafe separator (c ∷ t) h = elim (Bool-cases (c == separator)) [
  | inl e ↦ rw e (split_at-IsSafe separator t (ground arith))
  | inr e ↦ rw e (
      push-IsSafe c (split_at separator t) (ground arith)
        (split_at-IsSafe separator t (ground arith)))
]

parts-IsSafe :
    (m : ℕ) (parts : List Text)
    → IsSafe (digit m)
    → all (all calendar_code) parts ≡ true
    → all (all calendar_code) (map (convert_part m) parts) ≡ true
parts-IsSafe m [] d h = refl
parts-IsSafe m (part ∷ parts) d h =
    ground (arith, convert_part-IsSafe m part d, parts-IsSafe m parts d)

convert_numeric_field-IsSafe :
    (m : ℕ) (t : Text) → IsSafe (digit m) → IsSafe t → IsSafe (convert_numeric_field m t)
unfolding convert_numeric_field
convert_numeric_field-IsSafe m t d h = elim (Bool-cases (text_eq t star)) [
  | inl e ↦ rw e refl
  | inr e ↦ rw e (
      join-IsSafe (codes ",") (map (convert_part m) (split_at 44 t)) refl
        (parts-IsSafe m (split_at 44 t) d (split_at-IsSafe 44 t h)))
]

weekday_names-IsSafe : (n : ℕ) → IsSafe (weekday_names n)
weekday_names-IsSafe n = ground arith

-- A text that may be missing, and if it is there, is safe.
abbrev SafeIfAny : Option Text → Type 0
SafeIfAny none = Unit
SafeIfAny (some t) = IsSafe t

name_of-SafeIfAny : (o : Option ℕ) → SafeIfAny (name_of o)
name_of-SafeIfAny none = tt
name_of-SafeIfAny (some n) = weekday_names-IsSafe (n % 7)

range_text-SafeIfAny : (a b : Option Text) → SafeIfAny a → SafeIfAny b → SafeIfAny (range_text a b)
range_text-SafeIfAny none b h k = tt
range_text-SafeIfAny (some low) none h k = tt
range_text-SafeIfAny (some low) (some high) h k =
    append-IsSafe low _ h (append-IsSafe (codes "..") high refl k)

weekday_part-SafeIfAny : (part : Text) (t : Text × Text × Bool) → SafeIfAny (weekday_part part t)
unfolding weekday_part weekday_name
weekday_part-SafeIfAny part (low, high, true) =
    range_text-SafeIfAny (weekday_name low) (weekday_name high)
      (name_of-SafeIfAny (parse_cron_number 0 7 low))
      (name_of-SafeIfAny (parse_cron_number 0 7 high))
weekday_part-SafeIfAny part (low, high, false) = name_of-SafeIfAny (parse_cron_number 0 7 part)

abbrev SafeNames : Option (List Text) → Type 0
SafeNames none = Unit
SafeNames (some names) = all (all calendar_code) names ≡ true

cons_text-SafeNames :
    (o : Option Text) (names : Option (List Text))
    → SafeIfAny o
    → SafeNames names
    → SafeNames (cons_text o names)
cons_text-SafeNames none names h k = tt
cons_text-SafeNames (some t) none h k = tt
cons_text-SafeNames (some t) (some names) h k = ground arith

weekday_parts-SafeNames : (parts : List Text) → SafeNames (weekday_parts parts)
unfolding weekday_parts
weekday_parts-SafeNames [] = refl
weekday_parts-SafeNames (part ∷ parts) =
    cons_text-SafeNames (weekday_part part (cut_at 45 part)) (weekday_parts parts)
      (weekday_part-SafeIfAny part (cut_at 45 part)) (weekday_parts-SafeNames parts)

abbrev SafeCalendar : Calendar → Type 0
SafeCalendar (calendar t) = IsSafe t
SafeCalendar (rejected e) = Unit

with_weekdays-SafeCalendar :
    (o : Option (List Text)) (rest : Text)
    → SafeNames o
    → IsSafe rest
    → SafeCalendar (with_weekdays o rest)
unfolding with_weekdays
with_weekdays-SafeCalendar none rest h k = tt
with_weekdays-SafeCalendar (some names) rest h k =
    append-IsSafe (join (codes ",") names) _ (join-IsSafe (codes ",") names refl h)
      (append-IsSafe (codes " ") rest refl k)

then_check-none : (a b : Option CronError) → then_check a b ≡ none → (a ≡ none) × (b ≡ none)
then_check-none none b h = (refl, h)
then_check-none (some e) b h = absurd (ground arith)

module _ (minute hour day month weekday : Text) where
  date_and_clock-IsSafe :
      check_fields minute hour day month weekday ≡ none
      → IsSafe (date_and_clock minute hour day month)
  unfolding check_fields date_and_clock
  date_and_clock-IsSafe h =
      let (h1, rest1) = then_check-none (validate_cron_field minute_field minute) _ h in
      let (h2, rest2) = then_check-none (validate_cron_field hour_field hour) _ rest1 in
      let (h3, rest3) = then_check-none (validate_cron_field day_field day) _ rest2 in
      let (h4, rest4) = then_check-none (validate_cron_field month_field month) _ rest3 in
      let safe : (d : Definition) (m : ℕ) (t : Text)
          → IsSafe (digit m)
          → validate_cron_field d t ≡ none
          → IsSafe (convert_numeric_field m t) =
        λ d m t k checked.
          convert_numeric_field-IsSafe m t k (field-IsSafe t (field-codes d t checked)) in
      join-IsSafe [] _ refl (
        rw
          (
            safe month_field 1 month refl h4,
            safe day_field 1 day refl h3,
            safe hour_field 0 hour refl h2,
            safe minute_field 0 minute refl h1,
          )
          refl)

  convert_checked-SafeCalendar :
      (o : Option CronError)
      → check_fields minute hour day month weekday ≡ o
      → SafeCalendar (convert_checked o minute hour day month weekday)
  unfolding convert_checked
  convert_checked-SafeCalendar (some e) same = tt
  convert_checked-SafeCalendar none same = elim (Bool-cases (text_eq weekday star)) [
    | inl e ↦ rw e (date_and_clock-IsSafe same)
    | inr e ↦ rw e (
        with_weekdays-SafeCalendar (weekday_parts (split_at 44 weekday))
          (date_and_clock minute hour day month) (weekday_parts-SafeNames (split_at 44 weekday))
          (date_and_clock-IsSafe same))
  ]

convert_fields-SafeCalendar : (fields : List Text) → SafeCalendar (convert_fields fields)
unfolding convert_fields
convert_fields-SafeCalendar [] = tt
convert_fields-SafeCalendar (a ∷ []) = tt
convert_fields-SafeCalendar (a ∷ b ∷ []) = tt
convert_fields-SafeCalendar (a ∷ b ∷ c ∷ []) = tt
convert_fields-SafeCalendar (a ∷ b ∷ c ∷ d ∷ []) = tt
convert_fields-SafeCalendar (a ∷ b ∷ c ∷ d ∷ e ∷ []) = convert_checked-SafeCalendar a b c d e _ refl
convert_fields-SafeCalendar (a ∷ b ∷ c ∷ d ∷ e ∷ f ∷ rest) = tt

-- Whatever expression is submitted: the calendar expression that an accepted one is turned into holds
-- blanks, letters, digits and `*`, `+`, `,`, `-`, `.`, `/`, `:` only, so it cannot end its line in the
-- unit file or start a comment or a specifier there.
pub validate_schedule-IsSafe :
    (expression out : Text)
    → validate_schedule expression ≡ calendar out
    → all calendar_code out ≡ true
unfolding validate_schedule
validate_schedule-IsSafe expression out h =
    subst SafeCalendar h (convert_fields-SafeCalendar (split_fields (trim_space expression)))
