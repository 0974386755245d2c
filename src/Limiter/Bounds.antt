-- ===== src/Limiter/Bounds.antt =====
-- The tables of both limiters stay within their capacity.
use nexa_panel.Prelude.{
  ℕ, zero, suc, ◌≤◌, ◌<◌, ◌≡◌, refl, ◌∙◌, Bool, true, false, ◌||◌, Option, none, some, List, [],
  ◌∷◌, Text, arith, length, is_empty, Bool-cases, Option-cases, inl, inr, ◌⊎◌, ℤ, pos, negsuc,
  pos_part, is_nonpositive, lookup, delete, text_eq_refl, length-insert-le, length-insert_old,
  length-delete-lt, length-select-le, ltb,
}
use nexa_panel.Limiter.Buckets.{
  Bucket, Table, below, older, find_oldest, drop_expired, evict_oldest,
}
use nexa_panel.Limiter.Attempts
use nexa_panel.Limiter.Attempts.{AttemptLimiter}
use nexa_panel.Limiter.Throttle
use nexa_panel.Limiter.Throttle.{IpThrottle, default_throttle_bucket_capacity}

abbrev is_present : Option Bucket → Bool
is_present none = false
is_present (some b) = true

present_behind :
    (k : Text) (e : Text × Bucket) (table : Table)
    → is_present (lookup k table) ≡ true
    → is_present (lookup k (e ∷ table)) ≡ true
unfolding lookup
present_behind k (j, b) table h = ground arith

head_present :
    (key : Text) (b : Bucket) (table : Table) → is_present (lookup key ((key, b) ∷ table)) ≡ true
unfolding lookup
head_present key b table = ground (arith, text_eq_refl key)

older_key :
    (best : Text × ℕ) (key : Text) (b : Bucket)
    → ((older best (key, b)).0 ≡ best.0) ⊎ ((older best (key, b)).0 ≡ key)
unfolding older
older_key best key b = elim (Bool-cases (is_empty best.0 || ltb b.started_at best.1)) [
  | inl e ↦ inr (rw e)
  | inr e ↦ inl (rw e)
]

-- The search ends at the key that it began with, or at a key of the table.
find_oldest_key :
    (best : Text × ℕ) (table : Table)
    → ((find_oldest best table).0 ≡ best.0)
      ⊎ (is_present (lookup (find_oldest best table).0 table) ≡ true)
unfolding find_oldest
find_oldest_key best [] = inl refl
find_oldest_key best ((key, b) ∷ table) = elim (find_oldest_key (older best (key, b)) table) [
  | inr there ↦ inr (present_behind _ (key, b) table there)
  | inl same ↦ elim (older_key best key b) [
    | inl kept ↦ inl (same ∙ kept)
    | inr taken ↦ inr (rw (same ∙ taken) (head_present key b table))
  ]
]

oldest_present :
    (key : Text) (b : Bucket) (table : Table)
    → is_present (lookup (find_oldest ([], 0) ((key, b) ∷ table)).0 ((key, b) ∷ table)) ≡ true
unfolding find_oldest older
oldest_present key b table = elim (find_oldest_key (key, b.started_at) table) [
  | inl same ↦ rw same (head_present key b table)
  | inr there ↦ present_behind _ (key, b) table there
]

absent_or_present : (o : Option Bucket) → o ≡ none → is_present o ≡ true → ⊥
absent_or_present none a p = cc
absent_or_present (some b) a p = cc

evict_oldest-lt :
    (e : Text × Bucket) (table : Table) → length (evict_oldest (e ∷ table)) ≤ length table
unfolding evict_oldest
evict_oldest-lt (key, b) table =
    elim (Option-cases (lookup (find_oldest ([], 0) ((key, b) ∷ table)).0 ((key, b) ∷ table))) [
      | inr (v, found) ↦ omega (arith, length-delete-lt _ ((key, b) ∷ table) found)
      | inl absent ↦ absurd (absent_or_present _ absent (oldest_present key b table))
    ]

-- A table that is full has a bucket to give up.
evict-full : (n : ℕ) (table : Table) → length table ≤ suc n → length (evict_oldest table) ≤ n
evict-full n [] h = unfold evict_oldest delete in omega arith
evict-full n (e ∷ table) h = omega (arith, evict_oldest-lt e table)

drop_expired-le :
    (window : ℤ) (now : ℕ) (table : Table) → length (drop_expired window now table) ≤ length table
unfolding drop_expired
drop_expired-le window now table = length-select-le _ table

-- Room for one more is made in a table within its capacity.
module _ (n now : ℕ) where
  attempts_room-le :
      (l : AttemptLimiter)
      → l.max_buckets ≡ pos (suc n)
      → length l.buckets ≤ suc n
      → length (Attempts.make_room l now) ≤ n
  unfolding Attempts.make_room below
  attempts_room-le l capacity fits =
      let live = drop_expired l.window now l.buckets in
      ground (arith, drop_expired-le l.window now l.buckets, evict-full n live)

  throttle_room-le :
      (t : IpThrottle)
      → t.max_buckets ≡ pos (suc n)
      → length t.buckets ≤ suc n
      → length (Throttle.make_room t now) ≤ n
  unfolding Throttle.make_room below
  throttle_room-le t capacity fits =
      let live = drop_expired t.window now t.buckets in
      ground (arith, drop_expired-le t.window now t.buckets, evict-full n live)

attempts_bucket-le :
    (n now : ℕ) (l : AttemptLimiter) (key : Text) (o : Option Bucket)
    → lookup key l.buckets ≡ o
    → l.max_buckets ≡ pos (suc n)
    → length l.buckets ≤ suc n
    → length (Attempts.allow_bucket o l key now).0.buckets ≤ suc n
unfolding Attempts.allow_bucket
attempts_bucket-le n now l key none e capacity fits = omega (
  arith,
  attempts_room-le n now l capacity fits,
  length-insert-le key (record { started_at = now; count = 1 }) (Attempts.make_room l now),
)
attempts_bucket-le n now l key (some b) e capacity fits = ground (
  arith,
  length-insert_old key (record { started_at = now; count = 1 }) l.buckets e,
  length-insert_old key (record { started_at = b.started_at; count = suc b.count }) l.buckets e,
)

throttle_bucket-le :
    (n now : ℕ) (t : IpThrottle) (key : Text) (o : Option Bucket)
    → lookup key t.buckets ≡ o
    → t.max_buckets ≡ pos (suc n)
    → length t.buckets ≤ suc n
    → length (Throttle.allow_bucket o t key now).0.buckets ≤ suc n
unfolding Throttle.allow_bucket
throttle_bucket-le n now t key none e capacity fits = omega (
  arith,
  throttle_room-le n now t capacity fits,
  length-insert-le key (record { started_at = now; count = 1 }) (Throttle.make_room t now),
)
throttle_bucket-le n now t key (some b) e capacity fits = ground (
  arith,
  length-insert_old key (record { started_at = now; count = 1 }) t.buckets e,
  length-insert_old key (record { started_at = b.started_at; count = suc b.count }) t.buckets e,
)

-- Any number of calls, each with its key and its time.
abbrev pub Calls : Type 0
Calls = List (Text × ℕ)

pub attempts_after : AttemptLimiter → Calls → AttemptLimiter
attempts_after l [] = l
attempts_after l ((key, now) ∷ calls) = attempts_after (Attempts.allow l key now).0 calls

pub throttle_after : IpThrottle → Calls → IpThrottle
throttle_after t [] = t
throttle_after t ((key, now) ∷ calls) = throttle_after (Throttle.allow t key now).0 calls

attempts_capacity :
    (now : ℕ) (l : AttemptLimiter) (key : Text) (o : Option Bucket)
    → (Attempts.allow_bucket o l key now).0.max_buckets ≡ l.max_buckets
unfolding Attempts.allow_bucket
attempts_capacity now l key none = refl
attempts_capacity now l key (some b) = ground arith

throttle_capacity :
    (now : ℕ) (t : IpThrottle) (key : Text) (o : Option Bucket)
    → (Throttle.allow_bucket o t key now).0.max_buckets ≡ t.max_buckets
unfolding Throttle.allow_bucket
throttle_capacity now t key none = refl
throttle_capacity now t key (some b) = ground arith

-- However many keys a client invents, and at whatever times, the table of the sign-in limiter never
-- holds more buckets than its capacity, if that is positive.
pub attempts_bounded :
    (n : ℕ) (l : AttemptLimiter) (calls : Calls)
    → l.max_buckets ≡ pos (suc n)
    → length l.buckets ≤ suc n
    → length (attempts_after l calls).buckets ≤ suc n
unfolding attempts_after Attempts.allow
attempts_bounded n l [] capacity fits = fits
attempts_bounded n l ((key, now) ∷ calls) capacity fits =
    attempts_bounded n (Attempts.allow_bucket (lookup key l.buckets) l key now).0 calls
      (attempts_capacity now l key (lookup key l.buckets) ∙ capacity)
      (attempts_bucket-le n now l key _ refl capacity fits)

throttle_allow-le :
    (n now : ℕ) (t : IpThrottle) (key : Text)
    → t.max_buckets ≡ pos (suc n)
    → length t.buckets ≤ suc n
    → ((Throttle.allow t key now).0.max_buckets ≡ pos (suc n))
      × (length (Throttle.allow t key now).0.buckets ≤ suc n)
unfolding Throttle.allow
throttle_allow-le n now t key capacity fits =
    elim (Bool-cases (is_nonpositive t.limit || is_nonpositive t.window)) [
      | inl e ↦ rw e (capacity, fits)
      | inr e ↦ rw e (
        throttle_capacity now t key (lookup key t.buckets) ∙ capacity,
        throttle_bucket-le n now t key _ refl capacity fits,
      )
    ]

throttle_after-le :
    (n : ℕ) (t : IpThrottle) (calls : Calls)
    → t.max_buckets ≡ pos (suc n)
    → length t.buckets ≤ suc n
    → length (throttle_after t calls).buckets ≤ suc n
unfolding throttle_after
throttle_after-le n t [] capacity fits = fits
throttle_after-le n t ((key, now) ∷ calls) capacity fits =
    let (capacity', fits') = throttle_allow-le n now t key capacity fits in
    throttle_after-le n (Throttle.allow t key now).0 calls capacity' fits'

-- A request limiter, however it was configured, has a positive capacity, and never holds more buckets
-- than that.
pub throttle_bounded :
    (limit window max_buckets : ℤ) (calls : Calls)
    → let t = Throttle.new_ip_throttle_with_capacity limit window max_buckets in
      (0 < pos_part t.max_buckets)
      × (length (throttle_after t calls).buckets ≤ pos_part t.max_buckets)
unfolding Throttle.new_ip_throttle_with_capacity
throttle_bounded limit window (pos zero) calls =
    (omega arith, throttle_after-le 8191 _ calls refl (omega arith))
throttle_bounded limit window (pos (suc n)) calls =
    (omega arith, throttle_after-le n _ calls refl (omega arith))
throttle_bounded limit window (negsuc n) calls =
    (omega arith, throttle_after-le 8191 _ calls refl (omega arith))
