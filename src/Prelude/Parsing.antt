-- ===== src/Prelude/Parsing.antt =====
-- Go's `strconv.Atoi`, `strings.Cut`, `strings.Split`, `strings.Count`, `strings.Join` and
-- `strings.Fields`, with separators of one code.
use Prim.Native.Nat.{ℕ, zero, suc, ◌+◌, ◌-◌, ◌*◌, ◌^◌}
use mathlib.Core.Bool.{Bool, true, false, ◌||◌}
use mathlib.Core.Option.{Option, none, some}
use mathlib.Core.List.{List, [], ◌∷◌, ◌++◌}
use nexa_panel.Prelude.Tests.{if◌then◌else◌, ltb, ◌==◌}
use nexa_panel.Prelude.Int.{ℤ, pos, negsuc}
use nexa_panel.Prelude.Texts.{Text, is_space}

unfoldable pub digits_value : Text → ℕ → Option ℕ
digits_value [] n = some n
digits_value (c ∷ s) n =
    let rest = digits_value s (n * 10 + (c - 48)) in if ltb c 48 || ltb 57 c then none else rest

unfoldable pub unsigned : Text → Option ℕ
unfolding digits_value
unsigned [] = none
unsigned (c ∷ s) = digits_value (c ∷ s) 0

unfoldable pub signed_value : Bool → Option ℕ → Option ℤ
signed_value negative none = none
signed_value false (some n) = if ltb n (2 ^ 63) then some (pos n) else none
signed_value true (some zero) = some (pos zero)
signed_value true (some (suc n)) = if ltb n (2 ^ 63) then some (negsuc n) else none

-- `strconv.Atoi`
unfoldable pub atoi : Text → Option ℤ
unfolding unsigned signed_value
atoi [] = none
atoi (c ∷ s) =
    if c == 45
    then signed_value true (unsigned s)
    else if c == 43
    then signed_value false (unsigned s)
    else signed_value false (unsigned (c ∷ s))

abbrev pub keep_code : ℕ → Text × Text × Bool → Text × Text × Bool
keep_code c (low, high, found) = (c ∷ low, high, found)

-- `strings.Cut`
unfoldable pub cut_at : ℕ → Text → Text × Text × Bool
cut_at separator [] = ([], [], false)
cut_at separator (c ∷ s) =
    let rest = keep_code c (cut_at separator s) in if c == separator then ([], s, true) else rest

abbrev pub push : ℕ → List Text → List Text
push c [] = (c ∷ []) ∷ []
push c (part ∷ parts) = (c ∷ part) ∷ parts

-- `strings.Split`
unfoldable pub split_at : ℕ → Text → List Text
split_at separator [] = [] ∷ []
split_at separator (c ∷ s) =
    let rest = split_at separator s in if c == separator then [] ∷ rest else push c rest

-- `strings.Count`
unfoldable pub count_code : ℕ → Text → ℕ
count_code code [] = 0
count_code code (c ∷ s) = (if c == code then 1 else 0) + count_code code s

-- `strings.Join`
unfoldable pub join : Text → List Text → Text
join separator [] = []
join separator (part ∷ []) = part
join separator (part ∷ part' ∷ parts) = part ++ (separator ++ join separator (part' ∷ parts))

abbrev pub flush : Text → List Text
flush [] = []
flush (c ∷ word) = (c ∷ word) ∷ []

unfoldable pub words : Text → Text → List Text
words current [] = flush current
words current (c ∷ s) =
    let after = flush current ++ words [] s in
    let inside = words (current ++ c ∷ []) s in if is_space c then after else inside

-- `strings.Fields`
unfoldable pub split_fields : Text → List Text
unfolding words
split_fields text = words [] text
