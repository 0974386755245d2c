-- ===== src/Audit/Encoding.antt =====
-- The input of the digest of an audit row (`chainHash`, internal/platform/audit/chain.go): every field
-- after its length in bytes and a colon.
use nexa_panel.Prelude.{
  ℕ, zero, suc, ◌+◌, ◌*◌, ◌-◌, ◌/◌, ◌%◌, ◌≤◌, ◌≡◌, refl, ap, sym, ◌∙◌, List, [], ◌∷◌, ◌++◌, Text,
  arith, length, byte_len, if◌then◌else◌, Bool-cases, ◌==◌, inl, inr,
}

abbrev pub colon : ℕ
colon = 58

-- The decimal digits of `n` before `out`; `fuel` is `n`, which is more than the digits there are.
unfoldable pub digits : ℕ → ℕ → Text → Text
digits zero n out = out
digits (suc fuel) n out =
    let rest = digits fuel (n / 10) ((48 + n % 10) ∷ out) in if n == 0 then out else rest

-- `strconv.Itoa` of a length
unfoldable pub itoa : ℕ → Text
unfolding digits
itoa n = if n == 0 then 48 ∷ [] else digits n n []

unfoldable pub encode_fields : List Text → Text
unfolding itoa
encode_fields [] = []
encode_fields (field ∷ fields) = itoa (byte_len field) ++ (colon ∷ (field ++ encode_fields fields))

-- A reader of the length, up to the colon.
read_length : Text → ℕ → ℕ × Text
read_length [] n = (n, [])
read_length (c ∷ s) n =
    let rest = read_length s (n * 10 + (c - 48)) in if c == colon then (n, s) else rest

read_length-digits :
    (fuel n : ℕ) (out t : Text)
    → n ≤ fuel
    → read_length (digits fuel n out ++ t) 0 ≡ read_length (out ++ t) n
unfolding digits read_length
read_length-digits zero n out t h = let z : n ≡ 0 = omega arith in rw z refl
read_length-digits (suc fuel) n out t h = elim (Bool-cases (n == 0)) [
  | inl e ↦ ground arith
  | inr e ↦ ground (arith, read_length-digits fuel (n / 10) ((48 + n % 10) ∷ out) t)
]

read_length-itoa : (n : ℕ) (t : Text) → read_length (itoa n ++ (colon ∷ t)) 0 ≡ (n, t)
unfolding itoa read_length
read_length-itoa n t = elim (Bool-cases (n == 0)) [
  | inl e ↦ ground arith
  | inr e ↦ ground (arith, read_length-digits n n [] (colon ∷ t))
]

abbrev first_code : Text → ℕ
first_code [] = 0
first_code (c ∷ s) = c

abbrev pub rest_codes : Text → Text
rest_codes [] = []
rest_codes (c ∷ s) = s

same_width :
    (c d : ℕ) (f g : Text) → c ≡ d → byte_len (c ∷ f) ≡ byte_len (d ∷ g) → byte_len f ≡ byte_len g
unfolding byte_len
same_width c d f g same l = ground arith

-- A text that is followed by another is found again by its length in bytes.
split_unique : (f g x y : Text) → f ++ x ≡ g ++ y → byte_len f ≡ byte_len g → (f ≡ g) × (x ≡ y)
unfolding byte_len
split_unique [] [] x y e l = (refl, e)
split_unique [] (d ∷ g) x y e l = absurd (ground arith)
split_unique (c ∷ f) [] x y e l = absurd (ground arith)
split_unique (c ∷ f) (d ∷ g) x y e l =
    let head : c ≡ d = ap first_code e in
    let (same, rest) = split_unique f g x y (ap rest_codes e) (same_width c d f g head l) in
    (cc, rest)

-- The fields can be read back from the input of the digest: two lists of as many fields that give
-- the same input are the same.
pub encode_fields_injective :
    (fs gs : List Text) → length fs ≡ length gs → encode_fields fs ≡ encode_fields gs → fs ≡ gs
unfolding encode_fields
encode_fields_injective [] [] l e = refl
encode_fields_injective [] (g ∷ gs) l e = absurd (omega (arith, l))
encode_fields_injective (f ∷ fs) [] l e = absurd (omega (arith, l))
encode_fields_injective (f ∷ fs) (g ∷ gs) l e =
    let read : ◌≡◌ {A = ℕ × Text} (byte_len f, f ++ encode_fields fs)
        (byte_len g, g ++ encode_fields gs) =
      sym (read_length-itoa (byte_len f) (f ++ encode_fields fs))
      ∙ ap (λ t. read_length t 0) e
      ∙ read_length-itoa (byte_len g) (g ++ encode_fields gs) in
    let (same, rest) =
      split_unique f g (encode_fields fs) (encode_fields gs) (ap (λ p. p.1) read)
        (ap (λ p. p.0) read) in
    let tail = encode_fields_injective fs gs (omega (arith, l)) rest in cc
