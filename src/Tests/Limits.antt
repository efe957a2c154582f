-- ===== src/Tests/Limits.antt =====
-- Runs of the limiter and of the version classes.
use testharness.Prelude.{◌≤◌, ◌≡◌, some, [], ◌∷◌, length, arith, leb, count_where}
use testharness.RateLimit.{Limiter, get, is_limited, hit}
use testharness.RateLimit.Window.{events_of, is_recent, is_limited_lem}
use testharness.RateLimit.Memory.{IsFilled, hit_bounded}

-- Two events in a window of 10 ticks are allowed to a key; there is room for two keys.
abbrev busy : Limiter
busy = record {
  max_events = 2;
  window = 10;
  max_keys = 2;
  events = ("a", 1 ∷ 8 ∷ 9 ∷ []) ∷ ("b", 3 ∷ []) ∷ [];
}

is_limited_example :
    (is_limited "a" 12 busy).0 ≡ leb 2 (count_where (is_recent 10 12) (events_of "a" busy))
is_limited_example =
    is_limited_lem "a" 12 busy
      (unfold events_of get in ((omega arith, (omega arith, tt)), ((omega arith, tt), (tt, tt))))

-- A third key: the sweep drops nothing, and the stalest key goes.
hit_bounded_example :
    (l : Limiter) × (hit "c" 12 busy ≡ some l)
    × (l.max_keys ≡ 2)
    × IsFilled l.events
    × (length l.events ≤ l.max_keys)
hit_bounded_example =
    hit_bounded "c" 12 busy (omega arith) (omega arith, (omega arith, tt)) (omega arith)
