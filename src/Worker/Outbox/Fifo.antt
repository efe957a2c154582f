-- ===== src/Worker/Outbox/Fifo.antt =====
-- The outbox of worker/worker.py as a bounded queue that forgets its oldest entries, when nothing
-- else writes the file and the disk works.
use testharness.Prelude.{
  ℕ, zero, suc, ◌+◌, ◌-◌, ◌≤◌, ◌<◌, ◌≡◌, refl, sym, ◌∙◌, inl, inr, Bool, true, false, not, ◌&&◌,
  ◌||◌, none, some, List, [], ◌∷◌, ◌++◌, arith, ◌==◌, leb, if◌then◌else◌, Bool-cases, All,
  All-append, select_where, length, drop, length-append,
}
use testharness.Worker.Outbox.{
  Line, File, is_break, is_blank, starts_lf, push_char, splitlines, read_lines, write_lines,
  existing, drop_oldest, Disk, done, outbox_append, Answer, is_success, is_client_error,
  is_transient, flushed, flush_after, outbox_flush_one, submitted, submit_results,
}
use testharness.Worker.Outbox.Lines.{IsInline, IsEntry, read_lines-write_lines}

-- The queue that a file stands for.
abbrev pub entries : File → List Line
entries file = existing true file

-- A queue of at most `limit` entries that makes room at its front.
unfoldable pub enqueue : ℕ → List Line → Line → List Line
enqueue limit q x = drop ((length q + 1) - limit) (q ++ x ∷ [])

-- The oldest entry goes if it is sent, refused for good, or no JSON text.
unfoldable pub replay_head : (Line → Bool) → Answer → List Line → List Line
replay_head is_json answer [] = []
replay_head is_json answer (x ∷ q) =
    if not (is_json x) || (is_success answer || is_client_error answer) then q else x ∷ q

-- What a submission means for the queue.
unfoldable pub submission : (Line → Bool) → ℕ → List Line → Line → Answer → Answer → List Line
unfolding enqueue replay_head
submission is_json limit q payload answer replay =
    if is_success answer
    then replay_head is_json replay q
    else if is_transient answer
    then enqueue limit q payload
    else q

-- A disk on which everything works.
abbrev pub working : Disk
working = record { has_dir = true; readable = true; write = done }

push_char-IsInline :
    (c : ℕ) (ls : List Line)
    → IsInline c
    → All (All IsInline) ls
    → All (All IsInline) (push_char c ls)
push_char-IsInline c [] i h = ((i, tt), tt)
push_char-IsInline c (l ∷ ls) i h = ((i, h.0), h.1)

splitlines-IsInline : (s : List ℕ) → All (All IsInline) (splitlines s)
unfolding splitlines
splitlines-IsInline [] = tt
splitlines-IsInline (c ∷ s) = elim (Bool-cases (is_break c)) [
  | inr e ↦ rw e (push_char-IsInline c (splitlines s) e (splitlines-IsInline s))
  | inl e ↦ elim (Bool-cases (c == 13 && starts_lf s)) [
    | inl f ↦ rw (e, f) (splitlines-IsInline s)
    | inr f ↦ rw (e, f) (tt, splitlines-IsInline s)
  ]
]

kept-IsEntry :
    (ls : List Line) → All (All IsInline) ls → All IsEntry (select_where (λ l. not (is_blank l)) ls)
unfolding select_where
kept-IsEntry [] h = tt
kept-IsEntry (l ∷ ls) h = elim (Bool-cases (is_blank l)) [
  | inl e ↦ rw e (kept-IsEntry ls h.1)
  | inr e ↦ rw e ((h.0, e), kept-IsEntry ls h.1)
]

-- Whatever a file holds, what is read of it is entries.
pub entries-IsEntry : (file : File) → All IsEntry (entries file)
entries-IsEntry none = tt
entries-IsEntry (some s) = unfold read_lines in kept-IsEntry (splitlines s) (splitlines-IsInline s)

pub entries-written : (ls : List Line) → All IsEntry ls → entries (some (write_lines ls)) ≡ ls
entries-written ls h = read_lines-write_lines ls h

pub drop-nil : {A : Type 0} (n : ℕ) → drop {A = A} n [] ≡ []
drop-nil zero = refl
drop-nil (suc n) = refl

drop-All : {A : Type 0} (P : A → Type 0) (n : ℕ) (xs : List A) → All P xs → All P (drop n xs)
drop-All P zero xs h = h
drop-All P (suc n) [] h = tt
drop-All P (suc n) (x ∷ xs) h = drop-All P n xs h.1

drop-snoc :
    (n : ℕ) (q : List Line) (x : Line) → n ≤ length q → drop n (q ++ x ∷ []) ≡ drop n q ++ x ∷ []
drop-snoc zero q x h = refl
drop-snoc (suc n) [] x h = absurd (omega (arith, h))
drop-snoc (suc n) (y ∷ q) x h = drop-snoc n q x (omega (arith, h))

drop_oldest-drop :
    (limit : ℕ) (q : List Line)
    → 0 < limit
    → drop_oldest limit q ≡ some (drop ((length q + 1) - limit) q)
unfolding drop_oldest
drop_oldest-drop limit [] p = rw (drop-nil {A = Line} (1 - limit)) (ground (arith, p))
drop_oldest-drop limit (x ∷ q) p = elim (Bool-cases (leb limit (length (x ∷ q)))) [
  | inl e ↦
      let m : (length (x ∷ q) + 1) - limit ≡ suc ((length q + 1) - limit) = ground (arith, e) in
      rw (e, drop_oldest-drop limit q p, m)
  | inr e ↦ let m : (length (x ∷ q) + 1) - limit ≡ 0 = ground (arith, e) in rw (e, m)
]

length-drop : {A : Type 0} (n : ℕ) (xs : List A) → length (drop n xs) ≡ length xs - n
length-drop zero xs = omega arith
length-drop (suc n) [] = omega arith
length-drop (suc n) (x ∷ xs) = length-drop n xs ∙ omega arith

enqueue-IsEntry :
    (limit : ℕ) (q : List Line) (x : Line)
    → All IsEntry q
    → IsEntry x
    → All IsEntry (enqueue limit q x)
unfolding enqueue
enqueue-IsEntry limit q x h e =
    drop-All IsEntry _ (q ++ x ∷ []) (All-append IsEntry q (x ∷ []) h (e, tt))

-- On a working disk, an append to an outbox with room for some entry succeeds and enqueues.
pub append-refines :
    (limit : ℕ) (payload : Line) (file : File)
    → 0 < limit
    → IsEntry payload
    → (file' : File) × (outbox_append limit working payload file ≡ some file')
      × (entries file' ≡ enqueue limit (entries file) payload)
unfolding outbox_append
append-refines limit payload file p e = (
  some (write_lines kept),
  rw (drop_oldest-drop limit (entries file) p),
  entries-written kept (
        All-append IsEntry _ (payload ∷ [])
          (drop-All IsEntry _ (entries file) (entries-IsEntry file)) (e, tt))
      ∙ unfold enqueue in
        sym (
          drop-snoc ((length (entries file) + 1) - limit) (entries file) payload
            (omega (arith, p))),
)
  where
    kept : List Line
    kept = drop ((length (entries file) + 1) - limit) (entries file) ++ payload ∷ []

-- On a working disk, a flush that nothing disturbs replays the head of the queue.
flush-refines :
    (is_json : Line → Bool) (answer : Answer) (file : File)
    → (progress : Bool) × (file' : File) × (outbox_flush_one is_json true answer done file
        ≡ flushed progress file')
      × (entries file' ≡ replay_head is_json answer (entries file))
unfolding outbox_flush_one replay_head
flush-refines is_json answer file = by (entries file) refl (entries-IsEntry file)
  where
    by :
        (q : List Line)
        → entries file ≡ q
        → All IsEntry q
        → (progress : Bool) × (file' : File) × (flush_after is_json q answer done file
            ≡ flushed progress file')
          × (entries file' ≡ replay_head is_json answer q)
    by [] e h = (false, file, refl, e)
    by (x ∷ q) e h = elim (Bool-cases (is_json x)) [
      | inr j ↦ rw j (false, some (write_lines q), refl, entries-written q h.1)
      | inl j ↦ elim (Bool-cases (is_success answer)) [
        | inl s ↦ rw (j, s) (true, some (write_lines q), refl, entries-written q h.1)
        | inr s ↦ elim (Bool-cases (is_client_error answer)) [
          | inl c ↦ rw (j, s, c) (true, some (write_lines q), refl, entries-written q h.1)
          | inr c ↦ rw (j, s, c) (false, file, refl, e)
        ]
      ]
    ]

-- On a working disk and with room for some entry, submitting results does to the outbox what
-- `submission` does to a bounded queue: a transient failure enqueues the results, which drops the
-- oldest entries where the queue is full, a success replays the oldest entry, and any other answer
-- leaves the queue. The submission does not raise.
pub submit_results-refines :
    (is_json : Line → Bool) (limit : ℕ) (payload : Line) (answer replay : Answer) (file : File)
    → 0 < limit
    → IsEntry payload
    → (file' : File) × (submit_results is_json limit working payload answer replay file
        ≡ submitted file')
      × (entries file' ≡ submission is_json limit (entries file) payload answer replay)
unfolding submit_results submission
submit_results-refines is_json limit payload answer replay file p e =
    elim (Bool-cases (is_success answer)) [
      | inl s ↦
          let (progress, file', f, same) = flush-refines is_json replay file in
          rw (s, f) (file', refl, same)
      | inr s ↦ elim (Bool-cases (is_transient answer)) [
        | inl t ↦
            let (file', f, same) = append-refines limit payload file p e in
            rw (s, t, f) (file', refl, same)
        | inr t ↦ rw (s, t) (file, refl, refl)
      ]
    ]

enqueue_bounded :
    (limit : ℕ) (q : List Line) (x : Line) → 0 < limit → length (enqueue limit q x) ≤ limit
unfolding enqueue
enqueue_bounded limit q x p = omega (
  arith,
  length-drop ((length q + 1) - limit) (q ++ x ∷ []),
  length-append {0} {A = Line} q (x ∷ []),
  p,
)
