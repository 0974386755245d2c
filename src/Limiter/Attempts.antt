-- ===== src/Limiter/Attempts.antt =====
-- The limiter of sign-in attempts (internal/platform/identity/limiter.go).
use nexa_panel.Prelude.{
  ℕ, suc, Bool, true, false, not, Option, none, some, [], Text, length, ℤ, if◌then◌else◌, lookup,
  insert, delete,
}
use nexa_panel.Limiter.Buckets.{Bucket, Table, expired, below, drop_expired, evict_oldest}

pub record AttemptLimiter : Type 0 where
  pub limit : ℤ
  pub window : ℤ
  pub max_buckets : ℤ
  pub buckets : Table

unfoldable pub new_attempt_limiter_with_capacity : ℤ → ℤ → ℤ → AttemptLimiter
new_attempt_limiter_with_capacity limit window max_buckets = record {
  limit = limit;
  window = window;
  max_buckets = max_buckets;
  buckets = [];
}

-- The buckets after room is made for one more.
unfoldable pub make_room : AttemptLimiter → ℕ → Table
make_room l now =
    let live = drop_expired l.window now l.buckets in
    if below (length l.buckets) l.max_buckets
    then l.buckets
    else if below (length live) l.max_buckets
    then live
    else evict_oldest live

-- What is written for a key with no bucket, and for one whose window is over.
unfoldable pub allow_bucket : Option Bucket → AttemptLimiter → Text → ℕ → AttemptLimiter × Bool
allow_bucket none l key now = (
  record l { buckets = insert key (record { started_at = now; count = 1 }) (make_room l now) },
  true,
)
allow_bucket (some bucket) l key now =
    if expired l.window now bucket
    then (
      record l { buckets = insert key (record { started_at = now; count = 1 }) l.buckets },
      true,
    )
    else if not (below bucket.count l.limit)
    then (l, false)
    else (
      record l {
        buckets =
            insert key (record { started_at = bucket.started_at; count = suc bucket.count })
              l.buckets;
      },
      true,
    )

-- `Allow`
unfoldable pub allow : AttemptLimiter → Text → ℕ → AttemptLimiter × Bool
unfolding allow_bucket
allow l key now = allow_bucket (lookup key l.buckets) l key now

-- `Reset`
unfoldable pub reset : AttemptLimiter → Text → AttemptLimiter
reset l key = record l { buckets = delete key l.buckets }
