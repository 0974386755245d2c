-- ===== src/Limiter/Buckets.antt =====
-- The table of buckets that both limiters keep. A time is a number of nanoseconds after the epoch.
use nexa_panel.Prelude.{
  ℕ, suc, ◌+◌, Bool, false, not, ◌||◌, List, [], ◌∷◌, Text, leb, ltb, select, is_empty, ℤ, pos,
  negsuc, if◌then◌else◌, delete,
}

pub record Bucket : Type 0 where
  pub started_at : ℕ
  pub count : ℕ

abbrev pub Table : Type 0
Table = List (Text × Bucket)

-- `now.Sub(startedAt) >= window`, also where the clock was set back.
unfoldable pub expired : ℤ → ℕ → Bucket → Bool
expired (pos w) now b = leb (b.started_at + w) now
expired (negsuc w) now b = leb b.started_at (now + suc w)

-- `n < limit` for an `int` limit.
unfoldable pub below : ℕ → ℤ → Bool
below n (pos limit) = ltb n limit
below n (negsuc m) = false

-- One round of the search for the oldest bucket; the empty key stands for none yet.
unfoldable pub older : Text × ℕ → Text × Bucket → Text × ℕ
older (oldest_key, oldest) (key, bucket) =
    if is_empty oldest_key || ltb bucket.started_at oldest
    then (key, bucket.started_at)
    else (oldest_key, oldest)

unfoldable pub find_oldest : Text × ℕ → Table → Text × ℕ
unfolding older
find_oldest best [] = best
find_oldest best (entry ∷ table) = find_oldest (older best entry) table

unfoldable pub drop_expired : ℤ → ℕ → Table → Table
drop_expired window now table = select (λ (e : Text × Bucket). not (expired window now e.1)) table

unfoldable pub evict_oldest : Table → Table
unfolding find_oldest
evict_oldest table = delete (find_oldest ([], 0) table).0 table
