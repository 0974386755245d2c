-- ===== src/Schedule/Cron.antt =====
-- `ValidateSchedule` (internal/platform/operators/backups/schedule.go): a cron expression is checked and
-- turned into a systemd calendar expression.
use nexa_panel.Prelude.{
  ℕ, ◌+◌, ◌-◌, ◌%◌, Bool, true, false, not, ◌||◌, ◌&&◌, ◌==◌, Option, none, some, List, [], ◌∷◌,
  ◌++◌, map, Text, codes, ℤ, pos, negsuc, is_empty, if◌then◌else◌, ltb, text_eq, trim_space, atoi,
  cut_at, split_at, count_code, join, split_fields,
}

pub data CronError : Type 0 where
  not_five_fields field_empty item_empty step_separators steps_unsupported step_out_of_range :
      CronError
  range_separators range_invalid number_invalid both_days weekday_invalid : CronError

-- The bounds of a field, and whether steps are allowed in it.
pub record Definition : Type 0 where
  pub minimum : ℕ
  pub maximum : ℕ
  pub steps : Bool

abbrev pub star : Text
star = codes "*"

unfoldable pub within_bounds : ℕ → ℕ → Option ℤ → Option ℕ
within_bounds minimum maximum none = none
within_bounds minimum maximum (some (negsuc n)) = none
within_bounds minimum maximum (some (pos n)) =
    if ltb n minimum || ltb maximum n then none else some n

-- `parseCronNumber`
unfoldable pub parse_cron_number : ℕ → ℕ → Text → Option ℕ
unfolding within_bounds
parse_cron_number minimum maximum token = within_bounds minimum maximum (atoi token)

-- The checks return `none` where they find nothing.
unfoldable pub check_bounds : Option ℕ → Option ℕ → Option CronError
check_bounds (some low) (some high) = if ltb high low then some range_invalid else none
check_bounds _ _ = some range_invalid

unfoldable pub check_number : Option ℕ → Option CronError
check_number none = some number_invalid
check_number (some n) = none

unfoldable pub check_range : Definition → Text → Text × Text × Bool → Option CronError
unfolding check_bounds check_number parse_cron_number
check_range d base (low, high, true) =
    check_bounds (parse_cron_number d.minimum d.maximum low)
      (parse_cron_number d.minimum d.maximum high)
check_range d base (low, high, false) = check_number (parse_cron_number d.minimum d.maximum base)

unfoldable pub check_base : Definition → Text → Option CronError
unfolding check_range
check_base d base =
    if text_eq base star
    then none
    else if ltb 1 (count_code 45 base)
    then some range_separators
    else check_range d base (cut_at 45 base)

unfoldable pub bad_step : Definition → Option ℤ → Bool
bad_step d none = true
bad_step d (some (negsuc n)) = true
bad_step d (some (pos n)) = ltb n 1 || ltb (d.maximum - d.minimum + 1) n

unfoldable pub check_step : Definition → Text → Text × Text × Bool → Option CronError
unfolding bad_step check_base
check_step d item (before, after, true) =
    if not d.steps
    then some steps_unsupported
    else if bad_step d (atoi after)
    then some step_out_of_range
    else check_base d before
check_step d item (before, after, false) = check_base d item

unfoldable pub check_item : Definition → Text → Option CronError
unfolding check_step
check_item d item =
    if is_empty item
    then some item_empty
    else if ltb 1 (count_code 47 item)
    then some step_separators
    else check_step d item (cut_at 47 item)

-- The first error of two checks made one after the other.
abbrev pub then_check : Option CronError → Option CronError → Option CronError
then_check (some e) next = some e
then_check none next = next

unfoldable pub check_items : Definition → List Text → Option CronError
unfolding check_item
check_items d [] = none
check_items d (item ∷ items) = then_check (check_item d item) (check_items d items)

-- `validateCronField`
unfoldable pub validate_cron_field : Definition → Text → Option CronError
unfolding check_items
validate_cron_field d field =
    if is_empty field then some field_empty else check_items d (split_at 44 field)

-- `strings.ReplaceAll(part, "-", "..")`
unfoldable pub dots : Text → Text
dots [] = []
dots (c ∷ s) = (if c == 45 then 46 ∷ 46 ∷ [] else c ∷ []) ++ dots s

-- `strconv.Itoa` of the least value of a field, which has one digit
abbrev pub digit : ℕ → Text
digit n = (48 + n) ∷ []

unfoldable pub convert_part : ℕ → Text → Text
unfolding dots
convert_part minimum [] = []
convert_part minimum (c ∷ []) = dots (c ∷ [])
convert_part minimum (c ∷ c' ∷ rest) =
    if (c == 42) && (c' == 47) then digit minimum ++ (47 ∷ rest) else dots (c ∷ c' ∷ rest)

-- `convertNumericField`
unfoldable pub convert_numeric_field : ℕ → Text → Text
unfolding convert_part
convert_numeric_field minimum field =
    if text_eq field star
    then star
    else join (codes ",") (map (convert_part minimum) (split_at 44 field))

abbrev pub weekday_names : ℕ → Text
weekday_names n =
    if n == 0
    then codes "Sun"
    else if n == 1
    then codes "Mon"
    else if n == 2
    then codes "Tue"
    else if n == 3
    then codes "Wed"
    else if n == 4
    then codes "Thu"
    else if n == 5
    then codes "Fri"
    else codes "Sat"

abbrev pub name_of : Option ℕ → Option Text
name_of none = none
name_of (some n) = some (weekday_names (n % 7))

-- `weekdayName`
unfoldable pub weekday_name : Text → Option Text
unfolding parse_cron_number
weekday_name token = name_of (parse_cron_number 0 7 token)

abbrev pub range_text : Option Text → Option Text → Option Text
range_text (some low) (some high) = some (low ++ (codes ".." ++ high))
range_text _ _ = none

unfoldable pub weekday_part : Text → Text × Text × Bool → Option Text
unfolding weekday_name
weekday_part part (low, high, true) = range_text (weekday_name low) (weekday_name high)
weekday_part part (low, high, false) = weekday_name part

abbrev pub cons_text : Option Text → Option (List Text) → Option (List Text)
cons_text (some name) (some names) = some (name ∷ names)
cons_text _ _ = none

unfoldable pub weekday_parts : List Text → Option (List Text)
unfolding weekday_part
weekday_parts [] = some []
weekday_parts (part ∷ parts) = cons_text (weekday_part part (cut_at 45 part)) (weekday_parts parts)

pub data Calendar : Type 0 where
  calendar : Text → Calendar
  rejected : CronError → Calendar

-- `convertWeekdayField` and the expression that is built from it
unfoldable pub with_weekdays : Option (List Text) → Text → Calendar
with_weekdays none rest = rejected weekday_invalid
with_weekdays (some names) rest = calendar (join (codes ",") names ++ (codes " " ++ rest))

abbrev pub minute_field : Definition
minute_field = record { minimum = 0; maximum = 59; steps = true }

abbrev pub hour_field : Definition
hour_field = record { minimum = 0; maximum = 23; steps = true }

abbrev pub day_field : Definition
day_field = record { minimum = 1; maximum = 31; steps = true }

abbrev pub month_field : Definition
month_field = record { minimum = 1; maximum = 12; steps = true }

abbrev pub weekday_field : Definition
weekday_field = record { minimum = 0; maximum = 7; steps = false }

-- The checks of the five fields, in their order.
unfoldable pub check_fields : Text → Text → Text → Text → Text → Option CronError
unfolding validate_cron_field
check_fields minute hour day month weekday = then_check (validate_cron_field minute_field minute) (
    then_check (validate_cron_field hour_field hour) (
      then_check (validate_cron_field day_field day) (
        then_check (validate_cron_field month_field month) (
          then_check (validate_cron_field weekday_field weekday) (
            if not (text_eq day star) && not (text_eq weekday star)
            then some both_days
            else none)))))

unfoldable pub date_and_clock : Text → Text → Text → Text → Text
unfolding convert_numeric_field
date_and_clock minute hour day month = join [] (
    codes "*-"
    ∷ convert_numeric_field 1 month
    ∷ codes "-"
    ∷ convert_numeric_field 1 day
    ∷ codes " "
    ∷ convert_numeric_field 0 hour
    ∷ codes ":"
    ∷ convert_numeric_field 0 minute
    ∷ codes ":00"
    ∷ [])

unfoldable pub convert_checked : Option CronError → Text → Text → Text → Text → Text → Calendar
unfolding date_and_clock with_weekdays weekday_parts
convert_checked (some e) minute hour day month weekday = rejected e
convert_checked none minute hour day month weekday =
    let rest = date_and_clock minute hour day month in
    if text_eq weekday star
    then calendar rest
    else with_weekdays (weekday_parts (split_at 44 weekday)) rest

unfoldable pub convert_fields : List Text → Calendar
unfolding check_fields convert_checked
convert_fields (minute ∷ hour ∷ day ∷ month ∷ weekday ∷ []) =
    convert_checked (check_fields minute hour day month weekday) minute hour day month weekday
convert_fields _ = rejected not_five_fields

-- `ValidateSchedule`
unfoldable pub validate_schedule : Text → Calendar
unfolding convert_fields
validate_schedule expression = convert_fields (split_fields (trim_space expression))
