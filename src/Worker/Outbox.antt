-- ===== src/Worker/Outbox.antt =====
-- The outbox of worker/worker.py: the file that keeps the results whose upload failed, one JSON text
-- on a line, and `submit_results`. A file is the numbers of its characters, which are ASCII since
-- `json.dumps` escapes the others. What the disk and the server answer is an argument.
pub mod Lines
pub mod Fifo
pub mod Drains
pub mod Races
use testharness.Prelude.{
  ℕ, ◌≤◌, Bool, true, false, not, ◌&&◌, ◌||◌, Option, none, some, List, [], ◌∷◌, ◌++◌, ◌==◌, leb,
  ltb, if◌then◌else◌, length, select_where,
}
use testharness.VersionSkew.{is_space}

abbrev pub Line : Type 0
Line = List ℕ

-- The characters at which `str.splitlines` ends a line; \r\n ends one line.
unfoldable pub is_break : ℕ → Bool
is_break c = (leb 10 c && leb c 13) || (leb 28 c && leb c 30)

abbrev pub starts_lf : List ℕ → Bool
starts_lf [] = false
starts_lf (c ∷ s) = c == 10

abbrev pub push_char : ℕ → List Line → List Line
push_char c [] = (c ∷ []) ∷ []
push_char c (l ∷ ls) = (c ∷ l) ∷ ls

-- s.splitlines()
unfoldable pub splitlines : List ℕ → List Line
unfolding is_break
splitlines [] = []
splitlines (c ∷ s) =
    let ls = splitlines s in
    if is_break c then if c == 13 && starts_lf s then ls else [] ∷ ls else push_char c ls

-- not ln.strip()
unfoldable pub is_blank : Line → Bool
unfolding is_space
is_blank [] = true
is_blank (c ∷ l) = is_space c && is_blank l

-- [ln for ln in f.read().splitlines() if ln.strip()]
unfoldable pub read_lines : List ℕ → List Line
unfolding splitlines is_blank select_where
read_lines s = select_where (λ l. not (is_blank l)) (splitlines s)

-- "\n".join(lines), with "\n" behind it if there are lines
unfoldable pub write_lines : List Line → List ℕ
write_lines [] = []
write_lines (l ∷ ls) = l ++ (10 ∷ write_lines ls)

-- The file; `none` if there is none.
abbrev pub File : Type 0
File = Option (List ℕ)

-- How a write of the whole file ends: done, refused as the file is opened, or broken off with some
-- part of the text in the file.
pub data Write : Type 0 where
  done refused : Write
  broken : List ℕ → Write

abbrev pub written : Write → List Line → File → File
written done ls file = some (write_lines ls)
written refused ls file = file
written (broken part) ls file = some part

abbrev pub is_done : Write → Bool
is_done done = true
is_done _ = false

-- The entries that an append finds; where the read fails it goes on with none.
abbrev pub existing : Bool → File → List Line
existing readable none = []
existing readable (some s) = if readable then read_lines s else []

-- `while len(existing) >= outbox_max: existing.pop(0)`; `none` is the IndexError of a maximum of 0
unfoldable pub drop_oldest : ℕ → List Line → Option (List Line)
drop_oldest outbox_max [] = if leb outbox_max 0 then none else some []
drop_oldest outbox_max (l ∷ ls) =
    let rest = drop_oldest outbox_max ls in
    if leb outbox_max (length (l ∷ ls)) then rest else some (l ∷ ls)

-- The disk, as one append finds it.
pub record Disk : Type 0 where
  pub has_dir : Bool
  pub readable : Bool
  pub write : Write

abbrev pub append_to : Option (List Line) → Line → Write → File → Option File
append_to none payload write file = none
append_to (some kept) payload write file = some (written write (kept ++ payload ∷ []) file)

-- `payload` is the JSON text of the entry.
unfoldable pub outbox_append : ℕ → Disk → Line → File → Option File
unfolding drop_oldest read_lines write_lines
outbox_append outbox_max disk payload file =
    if not disk.has_dir
    then some file
    else append_to (drop_oldest outbox_max (existing disk.readable file)) payload disk.write file

-- How a POST ends: a status, or an error of the connection.
pub data Answer : Type 0 where
  status : ℕ → Answer
  network_error : Answer

-- `raise_for_status` of httpx passes the statuses 2xx alone
abbrev pub is_success : Answer → Bool
is_success (status s) = leb 200 s && ltb s 300
is_success network_error = false

-- 400 <= status_code < 500
abbrev pub is_client_error : Answer → Bool
is_client_error (status s) = leb 400 s && ltb s 500
is_client_error network_error = false

-- Whether an entry went, or the OSError of a write that is not caught; with the file.
pub data Flush : Type 0 where
  flushed : Bool → File → Flush
  raised : File → Flush

abbrev pub dropped_head : Write → Bool → List Line → File → Flush
dropped_head write progress rest file =
    if is_done write
    then flushed progress (written write rest file)
    else raised (written write rest file)

-- What follows the read of the lines, and the answer to the POST of the head. The file may be another
-- one by then: the call awaits the answer.
unfoldable pub flush_after : (Line → Bool) → List Line → Answer → Write → File → Flush
flush_after is_json [] answer write file = flushed false file
flush_after is_json (head ∷ rest) answer write file =
    if not (is_json head)
    then dropped_head write false rest file
    else if is_success answer
    then flushed true (written write rest file)
    else if is_client_error answer
    then dropped_head write true rest file
    else flushed false file

-- The lines that a flush reads; it returns at once where there are none or the read fails.
unfoldable pub flush_lines : Bool → File → List Line
unfolding read_lines
flush_lines readable file = existing readable file

-- A flush during which nothing else writes the file.
unfoldable pub outbox_flush_one : (Line → Bool) → Bool → Answer → Write → File → Flush
unfolding flush_lines flush_after write_lines
outbox_flush_one is_json readable answer write file =
    flush_after is_json (flush_lines readable file) answer write file

-- How a submission ends: with the outbox, or with the exception of an append or a flush.
pub data Submitted : Type 0 where
  submitted : File → Submitted
  failed : Submitted

abbrev pub buffered : Option File → Submitted
buffered none = failed
buffered (some file) = submitted file

abbrev pub replayed : Flush → Submitted
replayed (flushed progress file) = submitted file
replayed (raised file) = failed

-- 500 <= status_code < 600, and errors of the connection
abbrev pub is_transient : Answer → Bool
is_transient (status s) = leb 500 s && ltb s 600
is_transient network_error = true

-- `answer` is the server's to the results, `replay` to the oldest entry, which is sent after it.
unfoldable pub submit_results : (Line → Bool) → ℕ → Disk → Line → Answer → Answer → File → Submitted
unfolding outbox_append outbox_flush_one
submit_results is_json outbox_max disk payload answer replay file =
    if is_success answer
    then replayed (outbox_flush_one is_json disk.readable replay disk.write file)
    else if is_transient answer
    then buffered (outbox_append outbox_max disk payload file)
    else submitted file
