-- ===== src/Limiter/Throttle.antt =====
-- The limiter of requests by address (internal/platform/httpapi/throttle.go).
use nexa_panel.Prelude.{
  ℕ, suc, Bool, true, false, not, ◌||◌, Option, none, some, [], Text, length, ℤ, pos,
  is_nonpositive, if◌then◌else◌, lookup, insert,
}
use nexa_panel.Limiter.Buckets.{Bucket, Table, expired, below, drop_expired, evict_oldest}

pub record IpThrottle : Type 0 where
  pub limit : ℤ
  pub window : ℤ
  pub max_buckets : ℤ
  pub buckets : Table

abbrev pub default_throttle_bucket_capacity : ℤ
default_throttle_bucket_capacity = pos 8192

unfoldable pub new_ip_throttle_with_capacity : ℤ → ℤ → ℤ → IpThrottle
new_ip_throttle_with_capacity limit window max_buckets =
    let capacity =
      if is_nonpositive max_buckets then default_throttle_bucket_capacity else max_buckets in
    record { limit = limit; window = window; max_buckets = capacity; buckets = [] }

unfoldable pub make_room : IpThrottle → ℕ → Table
make_room t now =
    let live = drop_expired t.window now t.buckets in
    if below (length t.buckets) t.max_buckets
    then t.buckets
    else if below (length live) t.max_buckets
    then live
    else evict_oldest live

unfoldable pub allow_bucket : Option Bucket → IpThrottle → Text → ℕ → IpThrottle × Bool
allow_bucket none t key now = (
  record t { buckets = insert key (record { started_at = now; count = 1 }) (make_room t now) },
  true,
)
allow_bucket (some bucket) t key now =
    if expired t.window now bucket
    then (
      record t { buckets = insert key (record { started_at = now; count = 1 }) t.buckets },
      true,
    )
    else if not (below bucket.count t.limit)
    then (t, false)
    else (
      record t {
        buckets =
            insert key (record { started_at = bucket.started_at; count = suc bucket.count })
              t.buckets;
      },
      true,
    )

-- `Allow`; a limiter without a positive limit and window allows everything and keeps nothing.
unfoldable pub allow : IpThrottle → Text → ℕ → IpThrottle × Bool
unfolding allow_bucket
allow t key now =
    if is_nonpositive t.limit || is_nonpositive t.window
    then (t, true)
    else allow_bucket (lookup key t.buckets) t key now
