-- ===== src/Schedule/Tests.antt =====
-- Runs of the conversion.
use nexa_panel.Prelude.{
  ◌≡◌, refl, true, Text, codes, all, text_eq, atoi, unsigned, signed_value, digits_value, cut_at,
  split_at, count_code, join, split_fields, words, trim_space, is_space,
}
use nexa_panel.Schedule.Cron.{
  calendar, validate_schedule, convert_fields, check_fields, convert_checked, validate_cron_field,
  check_items, check_item, check_step, check_base, check_range, check_bounds, check_number,
  bad_step, parse_cron_number, within_bounds, date_and_clock, convert_numeric_field, convert_part,
  dots, with_weekdays, weekday_parts, weekday_part, weekday_name,
}
use nexa_panel.Schedule.Safe.{calendar_code, validate_schedule-IsSafe}

abbrev expression : Text
expression = codes "*/15 2 * * 1-5"

abbrev weekdays_at_two : Text
weekdays_at_two = codes "Mon..Fri *-*-* 2:0/15:00"

converted : validate_schedule expression ≡ calendar weekdays_at_two
unfolding validate_schedule convert_fields check_fields convert_checked validate_cron_field
    check_items check_item check_step check_base check_range check_bounds check_number bad_step
    parse_cron_number within_bounds date_and_clock convert_numeric_field convert_part dots
    with_weekdays weekday_parts weekday_part weekday_name split_fields words trim_space is_space
    text_eq atoi unsigned signed_value digits_value cut_at split_at count_code join
converted = refl

validate_schedule-IsSafe_example : all calendar_code weekdays_at_two ≡ true
validate_schedule-IsSafe_example = validate_schedule-IsSafe expression weekdays_at_two converted

-- A number with a sign is taken over as it stands.
plus_kept : validate_schedule (codes "+5 2 * * *") ≡ calendar (codes "*-*-* 2:+5:00")
unfolding validate_schedule convert_fields check_fields convert_checked validate_cron_field
    check_items check_item check_step check_base check_range check_bounds check_number bad_step
    parse_cron_number within_bounds date_and_clock convert_numeric_field convert_part dots
    with_weekdays weekday_parts weekday_part weekday_name split_fields words trim_space is_space
    text_eq atoi unsigned signed_value digits_value cut_at split_at count_code join
plus_kept = refl
