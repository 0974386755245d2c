-- ===== src/Jobs/Scope.antt =====
-- What a submission may carry: its site scope and its idempotency key (`normalizeSiteIDs` and
-- `normalizeIdempotencyKey` of internal/platform/jobs/repository.go).
use nexa_panel.Prelude.{
  Bool, ◌||◌, Option, none, some, List, [], ◌∷◌, Text, ltb, text_eq, text_lt, byte_len, is_empty,
  trim_space, has_control, any, length, if◌then◌else◌,
}
use nexa_panel.Jobs.Model.{Result, ok, err, ◌>>=◌, scope_too_large, scope_invalid, key_invalid}

-- The test on one trimmed site id.
unfoldable pub bad_site_id : Text → Bool
bad_site_id value = is_empty value || ltb 128 (byte_len value) || has_control value

-- `unique[value] = struct{}{}`; the order in which the map is read is undone by the sort.
unfoldable pub add_unique : Text → List Text → List Text
add_unique value unique = if any (text_eq value) unique then unique else value ∷ unique

-- The loop over the values.
unfoldable pub collect_site_ids : List Text → List Text → Result (List Text)
collect_site_ids [] unique = ok unique
collect_site_ids (raw ∷ values) unique =
    let value = trim_space raw in
    let rest = collect_site_ids values (add_unique value unique) in
    if bad_site_id value then err scope_invalid else rest

-- `sort.Strings`
unfoldable pub insert_sorted : Text → List Text → List Text
insert_sorted value [] = value ∷ []
insert_sorted value (x ∷ xs) =
    if text_lt x value then x ∷ insert_sorted value xs else value ∷ x ∷ xs

unfoldable pub sort_strings : List Text → List Text
sort_strings [] = []
sort_strings (x ∷ xs) = insert_sorted x (sort_strings xs)

unfoldable pub normalize_site_ids : List Text → Result (List Text)
normalize_site_ids values =
    if ltb 200 (length values)
    then err scope_too_large
    else (do unique ← collect_site_ids values []; ok (sort_strings unique))

unfoldable pub normalize_idempotency_key : Text → Result (Option Text)
normalize_idempotency_key raw =
    let key = trim_space raw in
    if is_empty key
    then ok none
    else if ltb 200 (byte_len key) || has_control key
    then err key_invalid
    else ok (some key)
