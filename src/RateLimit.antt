-- ===== src/RateLimit.antt =====
-- web/ratelimit.py: the sliding-window limiter. The clock's value is an argument of each method, a
-- number of ticks, of which `second` make a second; the source's clock is a float. Each method runs
-- under the limiter's lock. The dictionary of queues keeps the order of insertion.
pub mod Window
pub mod Memory
use testharness.Prelude.{
  ℕ, zero, suc, ◌+◌, ◌-◌, ◌*◌, ◌/◌, max, String, ◌=s=◌, Bool, true, false, not, ◌&&◌, Option, none,
  some, List, [], ◌∷◌, ◌++◌, ltb, leb, if◌then◌else◌, length, is_none,
}

abbrev pub Queues : Type 0
Queues = List (String × List ℕ)

pub record Limiter : Type 0 where
  pub max_events : ℕ
  pub window : ℕ
  pub max_keys : ℕ
  pub events : Queues

-- q[0] <= now - window_seconds, as a sum; `popleft` while it holds
unfoldable pub expire : ℕ → ℕ → List ℕ → List ℕ
expire window now [] = []
expire window now (t ∷ q) =
    let rest = expire window now q in if leb (t + window) now then rest else t ∷ q

-- self._events.get(key)
unfoldable pub get : String → Queues → Option (List ℕ)
get key [] = none
get key ((k, q) ∷ events) = let rest = get key events in if k =s= key then some q else rest

-- del self._events[key]
unfoldable pub del : String → Queues → Queues
del key [] = []
del key ((k, q) ∷ events) = let rest = del key events in if k =s= key then events else (k, q) ∷ rest

-- the queue of a key that is there is changed in place
unfoldable pub put : String → List ℕ → Queues → Queues
put key q [] = []
put key q ((k, p) ∷ events) =
    let rest = put key q events in if k =s= key then (k, q) ∷ events else (k, p) ∷ rest

-- `if not q: del self._events[key]`
abbrev pub store : String → List ℕ → Queues → Queues
store key [] events = del key events
store key (t ∷ q) events = put key (t ∷ q) events

abbrev prune_queue : String → ℕ → ℕ → Option (List ℕ) → Queues → List ℕ × Queues
prune_queue key window now none events = ([], events)
prune_queue key window now (some q) events =
    (expire window now q, store key (expire window now q) events)

-- `_prune`: the queue, and the dictionary afterwards
unfoldable pub prune : String → ℕ → ℕ → Queues → List ℕ × Queues
unfolding get del put expire
prune key window now events = prune_queue key window now (get key events) events

abbrev keys : Queues → List String
keys [] = []
keys ((k, q) ∷ events) = k ∷ keys events

unfoldable pub sweep_keys : List String → ℕ → ℕ → Queues → Queues
sweep_keys [] window now events = events
sweep_keys (k ∷ ks) window now events = sweep_keys ks window now (prune k window now events).1

-- `_sweep`
unfoldable pub sweep : ℕ → ℕ → Queues → Queues
unfolding sweep_keys
sweep window now events = sweep_keys (keys events) window now events

-- q[-1]; `none` is the IndexError of an empty queue
unfoldable pub last : List ℕ → Option ℕ
last [] = none
last (t ∷ []) = some t
last (t ∷ u ∷ q) = last (u ∷ q)

abbrev staler : String × ℕ → String × ℕ → String × ℕ
staler (k, t) (j, u) = if ltb u t then (j, u) else (k, t)

-- min(self._events, key=...): the first key with the least latest event
unfoldable pub stalest_from : String × ℕ → Queues → Option String
unfolding last
stalest_from best [] = some best.0
stalest_from best ((j, q) ∷ events) = elim (last q) [
  | none ↦ none
  | some u ↦ stalest_from (staler best (j, u)) events
]

-- `none` is the ValueError of `min` at an empty dictionary
unfoldable pub stalest : Queues → Option String
unfolding stalest_from
stalest [] = none
stalest ((k, q) ∷ events) = elim (last q) [ none ↦ none | some t ↦ stalest_from (k, t) events ]

-- self._events.setdefault(key, deque()).append(now)
abbrev pub append_event : String → ℕ → Option (List ℕ) → Queues → Queues
append_event key now none events = events ++ (key, now ∷ []) ∷ []
append_event key now (some q) events = put key (q ++ now ∷ []) events

-- Room for a new key; `none` where choosing the stalest raises.
unfoldable pub make_room : Limiter → ℕ → Queues → Option Queues
unfolding sweep stalest del
make_room l now events =
    let swept = sweep l.window now events in
    if leb l.max_keys (length swept)
    then elim (stalest swept) [ none ↦ none | some k ↦ some (del k swept) ]
    else some swept

unfoldable pub room_for : String → ℕ → Limiter → Queues → Option Queues
unfolding make_room get
room_for key now l pruned =
    if is_none (get key pruned) && leb l.max_keys (length pruned)
    then make_room l now pruned
    else some pruned

abbrev pub record_hit : String → ℕ → Limiter → Option Queues → Option Limiter
record_hit key now l none = none
record_hit key now l (some events) =
    some (record l { events = append_event key now (get key events) events })

unfoldable pub hit : String → ℕ → Limiter → Option Limiter
unfolding prune room_for put
hit key now l =
    let (_, pruned) = prune key l.window now l.events in
    record_hit key now l (room_for key now l pruned)

-- The answer, and the limiter after the pruning.
unfoldable pub is_limited : String → ℕ → Limiter → Bool × Limiter
unfolding prune
is_limited key now l =
    let (q, events) = prune key l.window now l.events in
    (leb l.max_events (length q), record l { events = events })

unfoldable pub get_elem? : List ℕ → ℕ → Option ℕ
get_elem? [] i = none
get_elem? (t ∷ q) zero = some t
get_elem? (t ∷ q) (suc i) = get_elem? q i

-- max(1, int(oldest_relevant + window - now) + 1); after the pruning the difference is positive
abbrev pub wait_for : ℕ → ℕ → ℕ → ℕ → ℕ
wait_for second window now oldest = max 1 ((oldest + window - now) / second + 1)

-- `none` is the IndexError of a limiter that allows no event at all.
unfoldable pub retry_after : ℕ → String → ℕ → Limiter → Option ℕ × Limiter
unfolding prune get_elem?
retry_after second key now l =
    let (q, events) = prune key l.window now l.events in
    let wait : Option ℕ = elim (get_elem? q (length q - l.max_events)) [
      | none ↦ none
      | some oldest ↦ some (wait_for second l.window now oldest)
    ] in
    (if ltb (length q) l.max_events then some 0 else wait, record l { events = events })

unfoldable pub reset : Limiter → Limiter
reset l = record l { events = [] }

abbrev pub login_limiter : ℕ → Limiter
login_limiter second = record {
  max_events = 20;
  window = 300 * second;
  max_keys = 10_000;
  events = [];
}
