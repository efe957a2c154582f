-- ===== src/Worker/Outbox/Lines.antt =====
-- Reading back the lines that the outbox of worker/worker.py writes.
use testharness.Prelude.{ℕ, ◌≡◌, refl, ap, false, List, [], ◌∷◌, ◌++◌, All, select_where}
use testharness.Worker.Outbox.{
  Line, is_break, is_blank, splitlines, push_char, read_lines, write_lines,
}

abbrev pub IsInline : ℕ → Type 0
IsInline c = is_break c ≡ false

-- One JSON text: no line break in it, and not blank.
abbrev pub IsEntry : Line → Type 0
IsEntry l = All IsInline l × (is_blank l ≡ false)

splitlines-line :
    (l : Line) (s : List ℕ) → All IsInline l → splitlines (l ++ (10 ∷ s)) ≡ l ∷ splitlines s
unfolding splitlines
splitlines-line [] s h = refl
splitlines-line (c ∷ l) s h = rw (h.0) (ap (push_char c) (splitlines-line l s h.1))

-- The entries that are written to the outbox are the ones that are read back, in their order.
pub read_lines-write_lines : (ls : List Line) → All IsEntry ls → read_lines (write_lines ls) ≡ ls
unfolding read_lines write_lines select_where
read_lines-write_lines [] h = refl
read_lines-write_lines (l ∷ ls) h =
    rw (splitlines-line l (write_lines ls) h.0.0, h.0.1)
      (ap (λ r. l ∷ r) (read_lines-write_lines ls h.1))
