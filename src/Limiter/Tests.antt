-- ===== src/Limiter/Tests.antt =====
-- Runs of the two limiters: five keys against three buckets, and four attempts against a limit of two.
use Prim.Native.Nat.{min}
use nexa_panel.Prelude.{
  List, ◌≤◌, ◌<◌, ◌≡◌, refl, true, false, [], ◌∷◌, Text, codes, arith, length, inl, pos, pos_part,
  lookup, insert, delete, text_eq,
}
use nexa_panel.Limiter.Attempts.{AttemptLimiter, allow, allow_bucket, make_room, reset}
use nexa_panel.Limiter.Buckets.{expired, below}
use nexa_panel.Limiter.Throttle.{new_ip_throttle_with_capacity}
use nexa_panel.Limiter.Bounds.{
  Calls, attempts_after, throttle_after, attempts_bounded, throttle_bounded,
}
use nexa_panel.Limiter.Counters.{Call, attempt, clear, run, spec_run, view, run-refines-Counters}
use nexa_panel.Limiter.Budget.{Settings, allowed, tried, allowed_in_window}

abbrev ann : Text
ann = codes "ann"

abbrev bob : Text
bob = codes "bob"

abbrev cat : Text
cat = codes "cat"

abbrev dan : Text
dan = codes "dan"

abbrev eve : Text
eve = codes "eve"

abbrev limiter : AttemptLimiter
limiter = record { limit = pos 2; window = pos 60; max_buckets = pos 3; buckets = [] }

abbrev many : Calls
many = ((ann, 1) ∷ (bob, 2) ∷ (cat, 3) ∷ (dan, 4) ∷ (eve, 70) ∷ [])

attempts_bounded_example : length (attempts_after limiter many).buckets ≤ 3
attempts_bounded_example = attempts_bounded 2 limiter many refl (omega arith)

throttle_bounded_example :
    (0 < pos_part (new_ip_throttle_with_capacity (pos 2) (pos 60) (pos 0)).max_buckets)
    × (length (throttle_after (new_ip_throttle_with_capacity (pos 2) (pos 60) (pos 0)) many).buckets
        ≤ pos_part (new_ip_throttle_with_capacity (pos 2) (pos 60) (pos 0)).max_buckets)
throttle_bounded_example = throttle_bounded (pos 2) (pos 60) (pos 0) many

-- One other key comes between.
abbrev burst : Calls
burst = ((ann, 2) ∷ (bob, 3) ∷ [])

limiter-Settings : Settings 2 60 3 limiter
limiter-Settings = record { limited = refl; windowed = refl; sized = refl }

allowed_in_window_example :
    allowed limiter ann ((ann, 1) ∷ burst) ≡ min (tried ann ((ann, 1) ∷ burst)) 2
unfolding lookup
allowed_in_window_example =
    allowed_in_window 2 60 3 limiter ann 1 burst limiter-Settings (omega arith) (inl refl)
      (omega arith, (omega arith, tt)) (omega arith)

-- The third attempt is refused, and a success opens the budget again.
abbrev spent : AttemptLimiter
spent = (allow (allow limiter ann 1).0 ann 2).0

third_refused : ((allow spent ann 3).1 ≡ false) × ((allow (reset spent ann) ann 3).1 ≡ true)
unfolding allow allow_bucket reset lookup insert delete make_room below expired text_eq
third_refused = (refl, refl)

abbrev calls : List Call
calls = attempt ann 1 ∷ attempt ann 2 ∷ clear ann ∷ []

run-refines-Counters_example : run calls limiter ≡ spec_run 2 60 calls (view limiter)
run-refines-Counters_example =
    run-refines-Counters 2 60 3 calls limiter limiter-Settings (omega arith)
