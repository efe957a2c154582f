-- ===== src/Tests/Outbox.antt =====
-- Runs of the outbox of a worker.
use testharness.Prelude.{◌≡◌, refl, true, some, List, [], ◌∷◌, length, drop, arith}
use testharness.Worker.Outbox.{
  Line, File, is_break, is_blank, read_lines, write_lines, status, network_error, submit_results,
  submitted,
}
use testharness.VersionSkew.{is_space}
use testharness.Worker.Outbox.Lines.{IsEntry, read_lines-write_lines}
use testharness.Worker.Outbox.Fifo.{entries, working, submission, submit_results-refines}
use testharness.Worker.Outbox.Drains.{submit_all, Attempt, outbox_drains}

-- Entries `{}` and `[]`.
abbrev oldest : Line
oldest = 123 ∷ 125 ∷ []

abbrev latest : Line
latest = 91 ∷ 93 ∷ []

abbrev one_entry : File
one_entry = some (123 ∷ 125 ∷ 10 ∷ [])

oldest-IsEntry : IsEntry oldest
oldest-IsEntry = unfold is_break is_blank is_space in ((refl, (refl, tt)), refl)

latest-IsEntry : IsEntry latest
latest-IsEntry = unfold is_break is_blank is_space in ((refl, (refl, tt)), refl)

read_lines-write_lines_example :
    read_lines (write_lines (oldest ∷ latest ∷ [])) ≡ oldest ∷ latest ∷ []
read_lines-write_lines_example =
    read_lines-write_lines (oldest ∷ latest ∷ []) (oldest-IsEntry, (latest-IsEntry, tt))

-- The connection fails while the outbox is full.
submit_results-refines_example :
    (file' : File) × (submit_results
        (λ l. true)
        1
        working
        latest
        network_error
        (status 200)
        one_entry
      ≡ submitted file')
    × (entries file'
        ≡ submission (λ l. true) 1 (entries one_entry) latest network_error (status 200))
submit_results-refines_example =
    submit_results-refines (λ l. true) 1 latest network_error (status 200) one_entry (omega arith)
      latest-IsEntry

abbrev two_attempts : List Attempt
two_attempts = (latest, status 200, status 200) ∷ (oldest, status 200, status 200) ∷ []

outbox_drains_example :
    (file' : File) × (submit_all (λ l. true) 5 two_attempts one_entry ≡ some file')
    × (entries file' ≡ drop (length two_attempts) (entries one_entry))
outbox_drains_example =
    outbox_drains (λ l. true) 5 two_attempts one_entry (omega arith)
      ((latest-IsEntry, refl, refl), ((oldest-IsEntry, refl, refl), tt))
