-- ===== src/RateLimit/Memory.antt =====
-- The memory of web/ratelimit.py stays bounded, and a hit never raises.
use testharness.Prelude.{
  ℕ, ◌+◌, ◌≤◌, ◌<◌, String, ◌=s=◌, eq_iff, ◌≡◌, subst, refl, inl, inr, ◌⊎◌, false, ◌&&◌, Option,
  none, some, List, [], ◌∷◌, ◌++◌, arith, ltb, leb, if◌then◌else◌, Bool-cases, Option-cases,
  is_none, length, length-append, All, All-append,
}
use text.Mathlib.TextPositions.{eq_refl}
use testharness.RateLimit.{
  Queues, Limiter, get, del, put, store, prune, prune_queue, keys, sweep_keys, sweep, last, staler,
  stalest_from, stalest, append_event, make_room, room_for, hit,
}

-- No key is kept with an empty queue.
abbrev pub IsFilled : Queues → Type 0
IsFilled = All (λ (e : String × List ℕ). 0 < length e.1)

del-IsFilled : (key : String) (events : Queues) → IsFilled events → IsFilled (del key events)
unfolding del
del-IsFilled key [] h = tt
del-IsFilled key ((k, q) ∷ events) h = elim (Bool-cases (k =s= key)) [
  | inl e ↦ rw e (h.1)
  | inr e ↦ rw e (h.0, del-IsFilled key events h.1)
]

put-IsFilled :
    (key : String) (q : List ℕ) (events : Queues)
    → 0 < length q
    → IsFilled events
    → IsFilled (put key q events)
unfolding put
put-IsFilled key q [] p h = tt
put-IsFilled key q ((k, x) ∷ events) p h = elim (Bool-cases (k =s= key)) [
  | inl e ↦ rw e (p, h.1)
  | inr e ↦ rw e (h.0, put-IsFilled key q events p h.1)
]

length-del : (key : String) (events : Queues) → length (del key events) ≤ length events
unfolding del
length-del key [] = omega arith
length-del key ((k, q) ∷ events) = ground (arith, length-del key events)

length-put :
    (key : String) (q : List ℕ) (events : Queues) → length (put key q events) ≡ length events
unfolding put
length-put key q [] = refl
length-put key q ((k, x) ∷ events) = ground (arith, length-put key q events)

store-IsFilled :
    (key : String) (q : List ℕ) (events : Queues) → IsFilled events → IsFilled (store key q events)
store-IsFilled key [] events h = del-IsFilled key events h
store-IsFilled key (t ∷ q) events h = put-IsFilled key (t ∷ q) events (omega arith) h

length-store :
    (key : String) (q : List ℕ) (events : Queues) → length (store key q events) ≤ length events
length-store key [] events = length-del key events
length-store key (t ∷ q) events = omega (arith, length-put key (t ∷ q) events)

prune-IsFilled :
    (key : String) (window now : ℕ) (events : Queues)
    → IsFilled events
    → IsFilled (prune key window now events).1
unfolding prune
prune-IsFilled key window now events h = elim (Option-cases (get key events)) [
  | inl e ↦ rw (e, prune_queue) h
  | inr (q, e) ↦ rw (e, prune_queue) (store-IsFilled key _ events h)
]

length-prune :
    (key : String) (window now : ℕ) (events : Queues)
    → length (prune key window now events).1 ≤ length events
unfolding prune
length-prune key window now events = elim (Option-cases (get key events)) [
  | inl e ↦ rw (e, prune_queue) (omega arith)
  | inr (q, e) ↦ rw (e, prune_queue) (length-store key _ events)
]

sweep_keys-IsFilled :
    (ks : List String) (window now : ℕ) (events : Queues)
    → IsFilled events
    → IsFilled (sweep_keys ks window now events)
unfolding sweep_keys
sweep_keys-IsFilled [] window now events h = h
sweep_keys-IsFilled (k ∷ ks) window now events h =
    sweep_keys-IsFilled ks window now _ (prune-IsFilled k window now events h)

length-sweep_keys :
    (ks : List String) (window now : ℕ) (events : Queues)
    → length (sweep_keys ks window now events) ≤ length events
unfolding sweep_keys
length-sweep_keys [] window now events = omega arith
length-sweep_keys (k ∷ ks) window now events = omega (
  arith,
  length-prune k window now events,
  length-sweep_keys ks window now (prune k window now events).1,
)

last-some : (q : List ℕ) → 0 < length q → (t : ℕ) × (last q ≡ some t)
unfolding last
last-some [] h = absurd (omega arith)
last-some (t ∷ []) h = (t, refl)
last-some (t ∷ u ∷ q) h = last-some (u ∷ q) (omega arith)

length-del_present :
    (key : String) (events : Queues)
    → is_none (get key events) ≡ false
    → length (del key events) + 1 ≡ length events
unfolding del get
length-del_present key [] h = cc
length-del_present key ((k, q) ∷ events) h = ground (arith, length-del_present key events)

-- The chosen key is the first one that was given, or a key of the dictionary.
stalest_from-some :
    (best : String × ℕ) (events : Queues)
    → IsFilled events
    → (k : String) × (stalest_from best events ≡ some k)
      × ((k ≡ best.0) ⊎ (is_none (get k events) ≡ false))
unfolding stalest_from get
stalest_from-some best [] h = (best.0, refl, inl refl)
stalest_from-some best ((j, q) ∷ events) h =
    let (u, e) = last-some q h.0 in
    let (k, f, at) = stalest_from-some (staler best (j, u)) events h.1 in
    (k, rw (e, stalest_from) f, ground (arith, at, eq_iff j k, eq_refl j))

stalest-some :
    (events : Queues)
    → IsFilled events
    → 0 < length events
    → (k : String) × (stalest events ≡ some k) × (is_none (get k events) ≡ false)
unfolding stalest get
stalest-some [] h p = absurd (omega arith)
stalest-some ((j, q) ∷ events) h p =
    let (u, e) = last-some q h.0 in
    let (k, f, at) = stalest_from-some (j, u) events h.1 in
    (k, rw (e, stalest) f, ground (arith, at, eq_iff j k, eq_refl j))

abbrev Fits : ℕ → Queues → Type 0
Fits n events = IsFilled events × (length events ≤ n)

evicted :
    (max_keys : ℕ) (swept : Queues) (chosen : Option String) (k : String)
    → 0 < max_keys
    → IsFilled swept
    → length swept ≤ max_keys
    → chosen ≡ some k
    → is_none (get k swept) ≡ false
    → (r : Queues) × ((if leb max_keys (length swept)
          then elim chosen [ none ↦ none | some j ↦ some (del j swept) ]
          else some swept)
        ≡ some r)
      × IsFilled r
      × (length r < max_keys)
evicted max_keys swept none k p h le e at = cc
evicted max_keys swept (some j) k p h le e at = elim (Bool-cases (leb max_keys (length swept))) [
  | inr free ↦ (swept, rw free, h, ground (arith, free))
  | inl full ↦
      let same : k ≡ j = cc e in
      (
        del j swept,
        rw full,
        del-IsFilled j swept h,
        ground (
          arith,
          length-del_present j swept (subst (λ x. is_none (get x swept) ≡ false) same at),
        ),
      )
]

make_room-some :
    (l : Limiter) (now : ℕ) (events : Queues)
    → 0 < l.max_keys
    → Fits l.max_keys events
    → (r : Queues) × (make_room l now events ≡ some r) × IsFilled r × (length r < l.max_keys)
unfolding make_room
make_room-some l now events p h = elim (Bool-cases (ltb 0 (length swept))) [
  | inl some_key ↦
      let (k, e, at) = stalest-some swept filled (ground (arith, some_key)) in
      evicted l.max_keys swept (stalest swept) k p filled fits e at
  | inr empty ↦ (swept, ground (arith, empty, p), filled, ground (arith, empty, p))
]
  where
    swept : Queues
    swept = sweep l.window now events

    filled : IsFilled swept
    filled = unfold sweep in sweep_keys-IsFilled (keys events) l.window now events h.0

    fits : length swept ≤ l.max_keys
    fits = unfold sweep in omega (arith, length-sweep_keys (keys events) l.window now events, h.1)

append_event-Fits :
    (n : ℕ) (key : String) (now : ℕ) (found : Option (List ℕ)) (events : Queues)
    → IsFilled events
    → length events ≤ n
    → (found ≡ none → length events < n)
    → Fits n (append_event key now found events)
append_event-Fits n key now none events h le room = (
  All-append (λ (e : String × List ℕ). 0 < length e.1) events ((key, now ∷ []) ∷ []) h
      (omega arith, tt),
  omega (arith, length-append events ((key, now ∷ []) ∷ []), room refl),
)
append_event-Fits n key now (some q) events h le room = (
  put-IsFilled key (q ++ now ∷ []) events (omega (arith, length-append q (now ∷ []))) h,
  omega (arith, length-put key (q ++ now ∷ []) events),
)

room_for-some :
    (key : String) (now : ℕ) (l : Limiter) (events : Queues)
    → 0 < l.max_keys
    → Fits l.max_keys events
    → (r : Queues) × (room_for key now l events ≡ some r)
      × Fits l.max_keys r
      × (get key r ≡ none → length r < l.max_keys)
unfolding room_for
room_for-some key now l events p h =
    let crowded = is_none (get key events) && leb l.max_keys (length events) in
    elim (Bool-cases crowded) [
      | inl e ↦
          let (r, m, filled, less) = make_room-some l now events p h in
          (r, rw e m, (filled, omega arith), (λ _. less))
      | inr e ↦ (events, rw e, h, (λ absent. not_crowded absent e))
    ]
  where
    not_crowded :
        get key events ≡ none
        → (is_none (get key events) && leb l.max_keys (length events)) ≡ false
        → length events < l.max_keys
    not_crowded absent e = ground (arith, absent, e)

-- On a limiter that may keep some key, keeps no key with an empty queue and at most `max_keys` keys,
-- a hit does not raise, and leaves such a limiter: the sweep and the eviction make the room.
pub hit_bounded :
    (key : String) (now : ℕ) (l : Limiter)
    → 0 < l.max_keys
    → IsFilled l.events
    → length l.events ≤ l.max_keys
    → (l' : Limiter) × (hit key now l ≡ some l')
      × (l'.max_keys ≡ l.max_keys)
      × IsFilled l'.events
      × (length l'.events ≤ l'.max_keys)
unfolding hit
hit_bounded key now l p h le =
    let (r, e, fits, room) = room_for-some key now l pruned p (filled, small) in
    let (filled', small') = append_event-Fits l.max_keys key now (get key r) r fits.0 fits.1 room in
    (record l { events = append_event key now (get key r) r }, rw e, refl, filled', small')
  where
    pruned : Queues
    pruned = (prune key l.window now l.events).1

    filled : IsFilled pruned
    filled = prune-IsFilled key l.window now l.events h

    small : length pruned ≤ l.max_keys
    small = omega (arith, length-prune key l.window now l.events, le)
