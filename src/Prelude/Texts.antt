-- ===== src/Prelude/Texts.antt =====
-- Texts as lists of code points, with the functions of Go's `strings` and `unicode` packages that
-- the code calls. A Go string that is no valid UTF-8 has no counterpart here.
use Prim.Native.Nat.{ℕ, ◌+◌}
use Prim.Native.Char.{code}
use Prim.Native.String.{String}
use mathlib.Core.Path.{◌≡◌, refl}
use mathlib.Core.Logic.{◌↔◌, inl, inr}
use mathlib.Core.Bool.{Bool, true, false, ◌||◌, ◌&&◌}
use mathlib.Core.List.{List, [], ◌∷◌}
use native.Mathlib.Omega.{arith}
use nexa_panel.Prelude.Tests.{if◌then◌else◌, Bool-cases, ltb, leb, ◌==◌}
use nexa_panel.Prelude.Lists.{any}

abbrev pub Text : Type 0
Text = List ℕ

-- The bytes of a text, where the code cuts it by bytes.
abbrev pub Bytes : Type 0
Bytes = List ℕ

-- The code points of a literal.
abbrev pub codes : String → Text
codes String.[] = []
codes (String.◌∷◌ c s) = code c ∷ codes s

unfoldable pub text_eq : Text → Text → Bool
text_eq [] [] = true
text_eq (a ∷ s) (b ∷ t) = (a == b) && text_eq s t
text_eq _ _ = false

pub text_eq_refl : (s : Text) → text_eq s s ≡ true
unfolding text_eq
text_eq_refl [] = refl
text_eq_refl (c ∷ s) = ground (arith, text_eq_refl s)

pub text_eq_sound : (s t : Text) → text_eq s t ≡ true → s ≡ t
unfolding text_eq
text_eq_sound [] [] h = refl
text_eq_sound [] (b ∷ t) h = cc
text_eq_sound (a ∷ s) [] h = cc
text_eq_sound (a ∷ s) (b ∷ t) h = ground (arith, text_eq_sound s t)

pub text_eq_iff : (s t : Text) → (text_eq s t ≡ true) ↔ (s ≡ t)
text_eq_iff s t = (text_eq_sound s t, λ e. rw e (text_eq_refl t))

abbrev pub is_empty : Text → Bool
is_empty [] = true
is_empty (c ∷ s) = false

-- The order of `sort.Strings`: bytes of UTF-8 compare as their code points do.
unfoldable pub text_lt : Text → Text → Bool
text_lt [] [] = false
text_lt [] (b ∷ t) = true
text_lt (a ∷ s) [] = false
text_lt (a ∷ s) (b ∷ t) = ltb a b || ((a == b) && text_lt s t)

-- `len` counts bytes of UTF-8.
unfoldable pub byte_len : Text → ℕ
byte_len [] = 0
byte_len (c ∷ s) =
    (if ltb c 0x80 then 1 else if ltb c 0x800 then 2 else if ltb c 0x10000 then 3 else 4)
    + byte_len s

-- `unicode.IsSpace`
unfoldable pub is_space : ℕ → Bool
is_space c =
    (leb 9 c && leb c 13)
    || (c == 32)
    || (c == 0x85)
    || (c == 0xa0)
    || (c == 0x1680)
    || (leb 0x2000 c && leb c 0x200a)
    || (c == 0x2028)
    || (c == 0x2029)
    || (c == 0x202f)
    || (c == 0x205f)
    || (c == 0x3000)

-- `unicode.IsControl`
unfoldable pub is_control : ℕ → Bool
is_control c = ltb c 32 || (leb 0x7f c && leb c 0x9f)

unfoldable pub trim_left : Text → Text
trim_left [] = []
trim_left (c ∷ s) = if is_space c then trim_left s else c ∷ s

-- A blank is dropped where nothing is left behind it.
unfoldable pub keep_unless_trailing : ℕ → Text → Text
keep_unless_trailing c [] = if is_space c then [] else c ∷ []
keep_unless_trailing c (d ∷ t) = c ∷ d ∷ t

unfoldable pub trim_right : Text → Text
unfolding keep_unless_trailing
trim_right [] = []
trim_right (c ∷ s) = keep_unless_trailing c (trim_right s)

-- `strings.TrimSpace`
unfoldable pub trim_space : Text → Text
unfolding trim_left trim_right
trim_space s = trim_right (trim_left s)

-- `strings.IndexFunc(s, unicode.IsControl) >= 0`
unfoldable pub has_control : Text → Bool
has_control s = any is_control s

trim_right_idem : (s : Text) → trim_right (trim_right s) ≡ trim_right s
unfolding trim_right
trim_right_idem [] = refl
trim_right_idem (c ∷ s) = keep_idem c (trim_right s) (trim_right_idem s)
  where
    keep_idem :
        (c : ℕ) (t : Text)
        → trim_right t ≡ t
        → trim_right (keep_unless_trailing c t) ≡ keep_unless_trailing c t
    keep_idem c [] h = elim (Bool-cases (is_space c)) [ inl e ↦ rw e | inr e ↦ rw e (rw e) ]
    keep_idem c (d ∷ t) h = rw (h, keep_unless_trailing)

trim_left-trim_right : (s : Text) → trim_left (trim_right (trim_left s)) ≡ trim_right (trim_left s)
unfolding trim_left
trim_left-trim_right [] = unfold trim_right in refl
trim_left-trim_right (c ∷ s) = elim (Bool-cases (is_space c)) [
  | inl e ↦ rw e (trim_left-trim_right s)
  | inr e ↦ rw e (unfold trim_right in keep_head c (trim_right s) e)
]
  where
    keep_head :
        (c : ℕ) (t : Text)
        → is_space c ≡ false
        → trim_left (keep_unless_trailing c t) ≡ keep_unless_trailing c t
    keep_head c [] e = unfold keep_unless_trailing in rw e (rw e)
    keep_head c (d ∷ t) e = unfold keep_unless_trailing in rw e

pub trim_space_idem : (s : Text) → trim_space (trim_space s) ≡ trim_space s
unfolding trim_space
trim_space_idem s = rw trim_left-trim_right (trim_right_idem (trim_left s))
