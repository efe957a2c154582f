-- ===== src/Worker/Outbox/Races.antt =====
-- What the outbox of worker/worker.py forgets when two jobs of one worker finish at a time.
use testharness.Prelude.{ℕ, ◌≡◌, Bool, true, false, some, List, [], ◌∷◌, arith, All, ◌<◌}
use testharness.Worker.Outbox.{
  Line, File, done, write_lines, outbox_append, drop_oldest, Answer, is_success, flushed,
  flush_lines, flush_after,
}
use testharness.Worker.Outbox.Lines.{IsEntry}
use testharness.Worker.Outbox.Fifo.{
  entries, entries-IsEntry, entries-written, working, enqueue, append-refines,
}

-- While a flush of a non-empty outbox awaits the answer to its oldest entry, another job may append its
-- results. If the answer is a success, the file afterwards holds what the flush had read, less its
-- oldest entry: the results that were appended meanwhile are gone.
pub flush_loses_append :
    (is_json : Line → Bool) (limit : ℕ) (payload head : Line) (rest : List Line) (answer : Answer)
    (file : File)
    → 0 < limit
    → IsEntry payload
    → entries file ≡ head ∷ rest
    → is_json head ≡ true
    → is_success answer ≡ true
    → (appended : File) × (after : File) × (outbox_append limit working payload file
        ≡ some appended)
      × (entries appended ≡ enqueue limit (entries file) payload)
      × (flush_after is_json (flush_lines true file) answer done appended ≡ flushed true after)
      × (entries after ≡ rest)
unfolding flush_after flush_lines
flush_loses_append is_json limit payload head rest answer file p e found j s =
    let (appended, a, same) = append-refines limit payload file p e in
    (
      appended,
      some (write_lines rest),
      a,
      same,
      rw (found, j, s),
      entries-written rest (rest-IsEntry (entries file) found (entries-IsEntry file)),
    )
  where
    rest-IsEntry : (q : List Line) → q ≡ head ∷ rest → All IsEntry q → All IsEntry rest
    rest-IsEntry [] q h = cc q
    rest-IsEntry (x ∷ q) same h = let t : q ≡ rest = cc same in rw (← t) h.1

-- An append that cannot read the file, but can write it, replaces all that it held by the new entry.
pub append_unread :
    (limit : ℕ) (payload : Line) (s : List ℕ)
    → 0 < limit
    → IsEntry payload
    → (after : File) × (outbox_append limit (record working { readable = false }) payload (some s)
        ≡ some after)
      × (entries after ≡ payload ∷ [])
unfolding outbox_append drop_oldest
append_unread limit payload s p e =
    (some (write_lines (payload ∷ [])), ground (arith, p), entries-written (payload ∷ []) (e, tt))
