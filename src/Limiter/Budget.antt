-- ===== src/Limiter/Budget.antt =====
-- How many sign-in attempts of one key are allowed within one window.
use Prim.Native.Nat.{min}
use nexa_panel.Prelude.{
  ℕ, suc, ◌+◌, ◌≤◌, ◌<◌, ◌≡◌, refl, ◌∙◌, true, false, Option, none, some, [], ◌∷◌, Text, arith, All,
  length, Bool-cases, inl, inr, ◌⊎◌, pos, if◌then◌else◌, lookup, text_eq, text_eq_refl,
  text_eq_sound, lookup-insert, length-insert-le, ltb,
}
use nexa_panel.Limiter.Buckets.{Bucket, expired, below}
use nexa_panel.Limiter.Attempts.{AttemptLimiter, allow, allow_bucket, make_room}
use nexa_panel.Limiter.Bounds.{Calls}

-- How often a key is allowed in a run of calls, and how often it is tried.
pub allowed : AttemptLimiter → Text → Calls → ℕ
allowed l k [] = 0
allowed l k ((key, now) ∷ calls) =
    (if text_eq key k then (if (allow l key now).1 then 1 else 0) else 0)
    + allowed (allow l key now).0 k calls

pub tried : Text → Calls → ℕ
tried k [] = 0
tried k ((key, now) ∷ calls) = (if text_eq key k then 1 else 0) + tried k calls

-- The settings of a limiter, which no call changes.
pub record Settings (m w capacity : ℕ) (l : AttemptLimiter) : Type 0 where
  pub limited : l.limit ≡ pos m
  pub windowed : l.window ≡ pos w
  pub sized : l.max_buckets ≡ pos capacity

allow_bucket-Settings :
    {m w capacity : ℕ} (l : AttemptLimiter) (key : Text) (now : ℕ) (o : Option Bucket)
    → Settings m w capacity l
    → Settings m w capacity (allow_bucket o l key now).0
unfolding allow_bucket
allow_bucket-Settings l key now none s = record {
  limited = s.limited;
  windowed = s.windowed;
  sized = s.sized;
}
allow_bucket-Settings l key now (some b) s = ground arith

-- With room in the table a call adds one bucket at most, and leaves the buckets of other keys alone.
module _ (capacity : ℕ) (l : AttemptLimiter) (key : Text) (now : ℕ)
    (sized : l.max_buckets ≡ pos capacity) (room : length l.buckets < capacity) where
  pub make_room_same : make_room l now ≡ l.buckets
  unfolding make_room below
  make_room_same = ground arith

  allow_bucket-length :
      (o : Option Bucket) → length (allow_bucket o l key now).0.buckets ≤ suc (length l.buckets)
  unfolding allow_bucket
  allow_bucket-length none = rw make_room_same (length-insert-le key _ l.buckets)
  allow_bucket-length (some b) = ground (
    arith,
    length-insert-le key (record { started_at = now; count = 1 }) l.buckets,
    length-insert-le key (record { started_at = b.started_at; count = suc b.count }) l.buckets,
  )

  allow_bucket-other :
      (k : Text) (o : Option Bucket)
      → text_eq key k ≡ false
      → lookup k (allow_bucket o l key now).0.buckets ≡ lookup k l.buckets
  unfolding allow_bucket
  allow_bucket-other k none other = rw make_room_same (rw lookup-insert (rw other))
  allow_bucket-other k (some b) other = ground (
    arith,
    lookup-insert key k (record { started_at = now; count = 1 }) l.buckets,
    lookup-insert key k (record { started_at = b.started_at; count = suc b.count }) l.buckets,
  )

-- A call within the window of its bucket.
allow_within :
    (m w : ℕ) (l : AttemptLimiter) (k : Text) (now : ℕ) (b : Bucket)
    → l.limit ≡ pos m
    → l.window ≡ pos w
    → lookup k l.buckets ≡ some b
    → now < b.started_at + w
    → ((allow l k now).1 ≡ ltb b.count m)
      × (lookup k (allow l k now).0.buckets
          ≡ some (record {
            started_at = b.started_at;
            count = if ltb b.count m then suc b.count else b.count;
          }))
unfolding allow allow_bucket expired below
allow_within m w l k now b limited windowed found soon = rw found (
  ground (
    arith,
    text_eq_refl k,
    lookup-insert k k (record { started_at = b.started_at; count = suc b.count }) l.buckets,
  ),
  ground (
    arith,
    text_eq_refl k,
    lookup-insert k k (record { started_at = b.started_at; count = suc b.count }) l.buckets,
  ),
)

pub allow-Settings :
    {m w capacity : ℕ} (l : AttemptLimiter) (key : Text) (now : ℕ)
    → Settings m w capacity l
    → Settings m w capacity (allow l key now).0
unfolding allow
allow-Settings l key now s = allow_bucket-Settings l key now (lookup key l.buckets) s

pub allow-length :
    (capacity : ℕ) (l : AttemptLimiter) (key : Text) (now : ℕ)
    → l.max_buckets ≡ pos capacity
    → length l.buckets < capacity
    → length (allow l key now).0.buckets ≤ suc (length l.buckets)
unfolding allow
allow-length capacity l key now sized room =
    allow_bucket-length capacity l key now sized room (lookup key l.buckets)

allow-other :
    (capacity : ℕ) (l : AttemptLimiter) (key : Text) (now : ℕ) (k : Text)
    → l.max_buckets ≡ pos capacity
    → length l.buckets < capacity
    → text_eq key k ≡ false
    → lookup k (allow l key now).0.buckets ≡ lookup k l.buckets
unfolding allow
allow-other capacity l key now k sized room other =
    allow_bucket-other capacity l key now sized room k (lookup key l.buckets) other

-- From a bucket that is open on, the calls allowed are those that the budget has left.
allowed_open :
    (m w capacity : ℕ) (l : AttemptLimiter) (k : Text) (b : Bucket) (calls : Calls)
    → Settings m w capacity l
    → lookup k l.buckets ≡ some b
    → b.count ≤ m
    → All (λ (c : Text × ℕ). c.1 < b.started_at + w) calls
    → length l.buckets + length calls ≤ capacity
    → b.count + allowed l k calls ≡ min (b.count + tried k calls) m
unfolding allowed tried
allowed_open m w capacity l k b [] s found le soon room = omega arith
allowed_open m w capacity l k b ((key, now) ∷ calls) s found le (soon, rest) room =
    elim (Bool-cases (text_eq key k)) [
      | inr other ↦
          let ih =
            allowed_open m w capacity (allow l key now).0 k b calls (allow-Settings l key now s)
              (allow-other capacity l key now k s.sized (omega arith) other ∙ found) le rest
              (omega (arith, allow-length capacity l key now s.sized (omega arith))) in
          rw other (omega (arith, ih))
      | inl same ↦
          let at_k : key ≡ k = text_eq_sound key k same in
          let b' : Bucket = record {
            started_at = b.started_at;
            count = if ltb b.count m then suc b.count else b.count;
          } in
          let (told, found') = allow_within m w l k now b s.limited s.windowed found soon in
          let ih =
            allowed_open m w capacity (allow l k now).0 k b' calls (allow-Settings l k now s) found'
              (ground arith) rest
              (omega (arith, allow-length capacity l k now s.sized (omega arith))) in
          rw (at_k, text_eq_refl k, told) (ground (arith, ih))
    ]

-- A call of a key with no bucket, or with one whose window is over, opens a bucket.
allow_opens :
    (capacity : ℕ) (l : AttemptLimiter) (k : Text) (now : ℕ) (o : Option Bucket)
    → l.max_buckets ≡ pos capacity
    → length l.buckets < capacity
    → (o ≡ none) ⊎ ((b : Bucket) × (o ≡ some b) × (expired l.window now b ≡ true))
    → ((allow_bucket o l k now).1 ≡ true)
      × (lookup k (allow_bucket o l k now).0.buckets
          ≡ some (record { started_at = now; count = 1 }))
unfolding allow_bucket
allow_opens capacity l k now none sized room fresh =
    (refl, rw (make_room_same capacity l k now sized room) (rw lookup-insert (rw text_eq_refl)))
allow_opens capacity l k now (some b) sized room (inl e) = cc
allow_opens capacity l k now (some b) sized room (inr (b', same, over)) =
    ground
      (arith, text_eq_refl k, lookup-insert k k (record { started_at = now; count = 1 }) l.buckets)

allow-opens :
    (capacity : ℕ) (l : AttemptLimiter) (k : Text) (now : ℕ)
    → l.max_buckets ≡ pos capacity
    → length l.buckets < capacity
    → (lookup k l.buckets ≡ none)
      ⊎ ((b : Bucket) × (lookup k l.buckets ≡ some b) × (expired l.window now b ≡ true))
    → ((allow l k now).1 ≡ true)
      × (lookup k (allow l k now).0.buckets ≡ some (record { started_at = now; count = 1 }))
unfolding allow
allow-opens capacity l k now sized room =
    allow_opens capacity l k now (lookup k l.buckets) sized room

-- The limiter keeps its budget exactly: of the attempts under one key in one window, which begins
-- with an attempt of a key that has no bucket or one whose window is over, the first `m` are allowed
-- and all others refused, whatever attempts under other keys come between, as long as the table has
-- room for every call. The limit and the window are positive.
pub allowed_in_window :
    (m w capacity : ℕ) (l : AttemptLimiter) (k : Text) (start : ℕ) (calls : Calls)
    → Settings m w capacity l
    → 0 < m
    → (lookup k l.buckets ≡ none)
      ⊎ ((b : Bucket) × (lookup k l.buckets ≡ some b) × (expired l.window start b ≡ true))
    → All (λ (c : Text × ℕ). c.1 < start + w) calls
    → length l.buckets + suc (length calls) ≤ capacity
    → allowed l k ((k, start) ∷ calls) ≡ min (tried k ((k, start) ∷ calls)) m
unfolding allowed tried
allowed_in_window m w capacity l k start calls s positive fresh soon room =
    let (told, opened) = allow-opens capacity l k start s.sized (omega arith) fresh in
    let loop =
      allowed_open m w capacity (allow l k start).0 k (record { started_at = start; count = 1 })
        calls (allow-Settings l k start s) opened positive soon
        (omega (arith, allow-length capacity l k start s.sized (omega arith))) in
    rw (text_eq_refl k, told) (omega (arith, loop))
