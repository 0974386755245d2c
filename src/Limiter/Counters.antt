-- ===== src/Limiter/Counters.antt =====
-- The limiter as its clients think of it: a counter for each key, without a table or a bound on it.
use nexa_panel.Prelude.{
  ℕ, suc, ◌+◌, ◌≤◌, ◌<◌, ◌≡◌, refl, ap, ◌∙◌, Bool, true, false, Option, none, some, List, [], ◌∷◌,
  Text, length, lookup, lookup-insert, lookup-delete, length-delete-le, text_eq, text_eq_sound, ltb,
  leb, arith, if◌then◌else◌,
}
use nexa_panel.Limiter.Buckets.{Bucket, expired, below}
use nexa_panel.Limiter.Attempts.{AttemptLimiter, allow_bucket, allow, reset}
use nexa_panel.Limiter.Budget.{Settings, allow-Settings, allow-length, make_room_same}

-- What each key has used, and since when.
abbrev pub Counters : Type 0
Counters = Text → Option Bucket

pub data Call : Type 0 where
  attempt : Text → ℕ → Call
  clear : Text → Call

abbrev pub set : Text → Option Bucket → Counters → Counters
set key bucket counters j = if text_eq key j then bucket else counters j

-- A key starts a window, is counted in the one it has, or has used it up.
abbrev counted : ℕ → ℕ → ℕ → Option Bucket → Option Bucket × Bool
counted m w now none = (some (record { started_at = now; count = 1 }), true)
counted m w now (some b) =
    if leb (b.started_at + w) now
    then (some (record { started_at = now; count = 1 }), true)
    else if ltb b.count m
    then (some (record { started_at = b.started_at; count = suc b.count }), true)
    else (some b, false)

unfoldable pub spec_run : ℕ → ℕ → List Call → Counters → List Bool
spec_run m w [] counters = []
spec_run m w (attempt key now ∷ calls) counters =
    let (bucket, told) = counted m w now (counters key) in
    told ∷ spec_run m w calls (set key bucket counters)
spec_run m w (clear key ∷ calls) counters = spec_run m w calls (set key none counters)

unfoldable pub run : List Call → AttemptLimiter → List Bool
run [] l = []
run (attempt key now ∷ calls) l = let (l', told) = allow l key now in told ∷ run calls l'
run (clear key ∷ calls) l = run calls (reset l key)

-- The counters that a table holds.
abbrev pub view : AttemptLimiter → Counters
view l j = lookup j l.buckets

module _ (m w capacity : ℕ) (l : AttemptLimiter) (s : Settings m w capacity l)
    (room : length l.buckets < capacity) (key : Text) (now : ℕ) where
  told_same : (o : Option Bucket) → (allow_bucket o l key now).1 ≡ (counted m w now o).1
  unfolding allow_bucket expired below
  told_same none = refl
  told_same (some b) = rw (s.limited, s.windowed) ground arith

  view_same :
      (o : Option Bucket) (j : Text)
      → lookup key l.buckets ≡ o
      → lookup j (allow_bucket o l key now).0.buckets ≡ set key (counted m w now o).0 (view l) j
  unfolding allow_bucket expired below
  view_same none j found =
      rw (make_room_same capacity l key now s.sized room) (lookup-insert key j _ l.buckets)
  view_same (some b) j found =
      rw (s.limited, s.windowed)
        (ground (
          arith,
          lookup-insert key j (record { started_at = now; count = 1 }) l.buckets,
          lookup-insert key j (record { started_at = b.started_at; count = suc b.count }) l.buckets,
          text_eq_sound key j,
        ))

set_same :
    (key : Text) (b : Option Bucket) (c d : Counters) (j : Text)
    → c j ≡ d j
    → set key b c j ≡ set key b d j
set_same key b c d j same = rw same refl

module _ (m w : ℕ) where
  -- Counters that agree answer alike.
  spec_run-ext :
      (calls : List Call) (c d : Counters)
      → ((j : Text) → c j ≡ d j)
      → spec_run m w calls c ≡ spec_run m w calls d
  unfolding spec_run
  spec_run-ext [] c d same = refl
  spec_run-ext (attempt key now ∷ calls) c d same = rw (same key) (
      ap (λ rest. (counted m w now (d key)).1 ∷ rest)
        (spec_run-ext calls _ _ (λ j. set_same key (counted m w now (d key)).0 c d j (same j))))
  spec_run-ext (clear key ∷ calls) c d same =
      spec_run-ext calls _ _ (λ j. set_same key none c d j (same j))

  cleared : (l : AttemptLimiter) (key j : Text) → view (reset l key) j ≡ set key none (view l) j
  unfolding reset
  cleared l key j = lookup-delete key j l.buckets

  reset-Settings :
      (capacity : ℕ) (l : AttemptLimiter) (key : Text)
      → Settings m w capacity l
      → Settings m w capacity (reset l key)
  unfolding reset
  reset-Settings capacity l key s = record {
    limited = s.limited;
    windowed = s.windowed;
    sized = s.sized;
  }

  reset-length : (l : AttemptLimiter) (key : Text) → length (reset l key).buckets ≤ length l.buckets
  unfolding reset
  reset-length l key = length-delete-le key l.buckets

  -- The limiter with its table of bounded size answers every sequence of attempts and resets, under any keys
  -- and at any times, as separate unbounded counters do that start with what the table holds: as long as the
  -- table has room for all of the calls, and with a limit and a window that are not negative.
  pub run-refines-Counters :
      (capacity : ℕ) (calls : List Call) (l : AttemptLimiter)
      → Settings m w capacity l
      → length l.buckets + length calls ≤ capacity
      → run calls l ≡ spec_run m w calls (view l)
  unfolding run spec_run allow
  run-refines-Counters capacity [] l s room = refl
  run-refines-Counters capacity (attempt key now ∷ calls) l s room =
      let space : length l.buckets < capacity = omega arith in
      let told = told_same m w capacity l s space key now (lookup key l.buckets) in
      let rest =
        run-refines-Counters capacity calls (allow_bucket (lookup key l.buckets) l key now).0
          (allow-Settings l key now s)
          (omega (arith, allow-length capacity l key now s.sized space)) in
      rw told (
        ap (λ answers. (counted m w now (lookup key l.buckets)).1 ∷ answers)
          (rest
            ∙ spec_run-ext calls _ _
                (λ j. view_same m w capacity l s space key now (lookup key l.buckets) j refl)))
  run-refines-Counters capacity (clear key ∷ calls) l s room =
      run-refines-Counters capacity calls (reset l key) (reset-Settings capacity l key s)
        (omega (arith, reset-length l key))
      ∙ spec_run-ext calls _ _ (cleared l key)
