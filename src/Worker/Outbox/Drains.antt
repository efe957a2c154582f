-- ===== src/Worker/Outbox/Drains.antt =====
-- How the outbox of worker/worker.py empties, when nothing else writes the file and the disk works.
use testharness.Prelude.{
  ℕ, suc, ◌<◌, ◌≡◌, refl, ap, ◌∙◌, inl, inr, Bool, true, Option, none, some, List, [], ◌∷◌, arith,
  Bool-cases, All, length, drop,
}
use testharness.Worker.Outbox.{Line, File, Answer, is_success, submitted, failed, submit_results}
use testharness.Worker.Outbox.Lines.{IsEntry}
use testharness.Worker.Outbox.Fifo.{
  entries, working, submission, replay_head, submit_results-refines, drop-nil,
}

-- A sequence of submissions, each given as its results and the two answers.
abbrev pub Attempt : Type 0
Attempt = Line × Answer × Answer

unfoldable pub submit_all : (Line → Bool) → ℕ → List Attempt → File → Option File
submit_all is_json limit [] file = some file
submit_all is_json limit ((payload, answer, replay) ∷ rest) file =
    elim (submit_results is_json limit working payload answer replay file) [
      | submitted file' ↦ submit_all is_json limit rest file'
      | failed ↦ none
    ]

abbrev pub IsAccepted : Attempt → Type 0
IsAccepted (payload, answer, replay) =
    IsEntry payload × (is_success answer ≡ true) × (is_success replay ≡ true)

abbrev pub tail : List Line → List Line
tail [] = []
tail (x ∷ q) = q

replay_head-success :
    (is_json : Line → Bool) (answer : Answer) (q : List Line)
    → is_success answer ≡ true
    → replay_head is_json answer q ≡ tail q
unfolding replay_head
replay_head-success is_json answer [] h = refl
replay_head-success is_json answer (x ∷ q) h = elim (Bool-cases (is_json x)) [
  | inl j ↦ ground (arith, j, h)
  | inr j ↦ rw j
]

drop-tail : (n : ℕ) (q : List Line) → drop n (tail q) ≡ drop (suc n) q
drop-tail n [] = drop-nil n
drop-tail n (x ∷ q) = refl

-- Once the server accepts everything, every submission takes one entry off the outbox: n of them leave
-- all but the n oldest entries, and so an outbox of n entries at most is empty after them.
pub outbox_drains :
    (is_json : Line → Bool) (limit : ℕ) (attempts : List Attempt) (file : File)
    → 0 < limit
    → All IsAccepted attempts
    → (file' : File) × (submit_all is_json limit attempts file ≡ some file')
      × (entries file' ≡ drop (length attempts) (entries file))
unfolding submit_all
outbox_drains is_json limit [] file p h = (file, refl, refl)
outbox_drains is_json limit ((payload, answer, replay) ∷ rest) file p h =
    let (middle, e, same) =
      submit_results-refines is_json limit payload answer replay file p h.0.0 in
    let (file', e', same') = outbox_drains is_json limit rest middle p h.1 in
    let after : entries middle ≡ tail (entries file) =
      same
      ∙ unfold submission in rw (h.0.1) (replay_head-success is_json replay (entries file) h.0.2) in
    (
      file',
      rw (submit_all, e) e',
      same' ∙ ap (drop (length rest)) after ∙ drop-tail (length rest) (entries file),
    )
