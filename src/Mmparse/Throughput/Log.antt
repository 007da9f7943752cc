-- ===== src/Mmparse/Throughput/Log.antt =====
-- What `parse_mm_throughput` makes of a whole log: its lines are read, then applied in order.
use vatic_udp.Prelude.{
  ℕ, zero, suc, ◌+◌, List, [], ◌∷◌, ◌≡◌, refl, ◌∙◌, sym, ◌==◌, length, ℤ, pos, if◌then◌else◌, ◌+ℤ◌,
  +ℤ_assoc, +ℤ-zero, zero-+ℤ, Result, ok, err, ◌>>=◌, >>=-eq-ok, >>=_assoc, range_from,
}
use vatic_udp.Py.Text.{Text}
use vatic_udp.Mmparse.Throughput.{
  TputState, tput_start, LogEvent, Column, capacity, arrival, departure, LogLine, init_line,
  base_line, event_line, comment, apply_event, apply_line, read_line, tput_loop,
}
use vatic_udp.Mmparse.Throughput.Bins.{
  IsBinned, running_bin, advance_lem, base_timestamp-count_bits, apply_event-IsBinned,
  bin_cur-apply_event, apply_line-IsBinned, tput_start-IsBinned,
}
use vatic_udp.Mmparse.Throughput.Columns.{total, bits_in, column_sum, cell_at, cell_at-apply_event}
use vatic_udp.Mmparse.Throughput.Sums.{total-apply_event, column_sum-apply_event}

-- The base timestamp behind a line.
abbrev base_after : LogLine → ℤ → ℤ
base_after (base_line t) base = t
base_after _ base = base

-- All lines of a log, read one after the other.
unfoldable pub read_log : ℤ → ℤ → List Text → Result (List LogLine)
read_log ms_per_bin base [] = ok []
read_log ms_per_bin base (line ∷ lines) = do
  l ← read_line ms_per_bin base line
  ls ← read_log ms_per_bin (base_after l base) lines
  ok (l ∷ ls)

unfoldable pub apply_lines : List LogLine → TputState → TputState
apply_lines [] s = s
apply_lines (l ∷ ls) s = apply_lines ls (apply_line l s)

-- The events among the lines.
abbrev pub events : List LogLine → List LogEvent
events [] = []
events (event_line e ∷ ls) = e ∷ events ls
events (init_line t ∷ ls) = events ls
events (base_line t ∷ ls) = events ls
events (comment ∷ ls) = events ls

-- The bits that the events count in column `c`.
abbrev pub bits_total : Column → List LogEvent → ℤ
bits_total c [] = pos 0
bits_total c (e ∷ es) = bits_in c e +ℤ bits_total c es

-- The bits that column `c` counts in bin `i`, where `cur` is the bin before the events: an event
-- belongs to its own bin, or to the current one if that is later.
abbrev pub bits_at : Column → ℕ → ℕ → List LogEvent → ℤ
bits_at c i cur [] = pos 0
bits_at c i cur (e ∷ es) =
    (if running_bin cur e.bin == i then bits_in c e else pos 0)
    +ℤ bits_at c i (running_bin cur e.bin) es

base_timestamp-apply_event :
    (e : LogEvent) (s : TputState) → (apply_event e s).base_timestamp ≡ s.base_timestamp
unfolding apply_event
base_timestamp-apply_event e s = base_timestamp-count_bits e.column e.bits _ ∙ rw advance_lem

base_timestamp-apply_line :
    (l : LogLine) (s : TputState) → (apply_line l s).base_timestamp ≡ base_after l s.base_timestamp
unfolding apply_line
base_timestamp-apply_line (init_line t) s = refl
base_timestamp-apply_line (base_line t) s = refl
base_timestamp-apply_line (event_line e) s = base_timestamp-apply_event e s
base_timestamp-apply_line comment s = refl

-- The loop reads and counts line by line. It returns what reading the whole log and then applying
-- its lines returns, and it raises the same error.
pub tput_loop-read_log :
    (m : ℤ) (lines : List Text) (s : TputState)
    → tput_loop m lines s ≡ (read_log m s.base_timestamp lines >>= λ ls. ok (apply_lines ls s))
unfolding tput_loop read_log apply_lines
tput_loop-read_log m [] s = refl
tput_loop-read_log m (line ∷ lines) s =
    go (λ l. tput_loop-read_log m lines (apply_line l s)) (read_line m s.base_timestamp line)
  where
    go :
        ((l : LogLine)
          → tput_loop m lines (apply_line l s) ≡ (
              read_log m (apply_line l s).base_timestamp lines >>= λ ls.
              ok (apply_lines ls (apply_line l s))))
        → (r : Result LogLine)
        → (r >>= λ l. tput_loop m lines (apply_line l s)) ≡ (
            (r >>= λ l. read_log m (base_after l s.base_timestamp) lines >>= λ ls. ok (l ∷ ls))
            >>= λ ls. ok (apply_lines ls s))
    go ih (err e) = refl
    go ih (ok l) =
        rw (ih l, base_timestamp-apply_line)
          (sym (>>=_assoc (read_log m (base_after l s.base_timestamp) lines) _ _))

apply_lines-IsBinned :
    (ls : List LogLine) (s : TputState) → IsBinned s → IsBinned (apply_lines ls s)
unfolding apply_lines
apply_lines-IsBinned [] s h = h
apply_lines-IsBinned (l ∷ ls) s h = apply_lines-IsBinned ls _ (apply_line-IsBinned l s h)

cell_at-apply_lines :
    (c : Column) (i : ℕ) (ls : List LogLine) (s : TputState)
    → IsBinned s
    → cell_at c i (apply_lines ls s).rows ≡ cell_at c i s.rows +ℤ bits_at c i s.bin_cur (events ls)
unfolding apply_lines apply_line
cell_at-apply_lines c i [] s h = sym (+ℤ-zero _)
cell_at-apply_lines c i (init_line t ∷ ls) s h =
    cell_at-apply_lines c i ls _ (record { index = h.index; rows = h.rows })
cell_at-apply_lines c i (base_line t ∷ ls) s h =
    cell_at-apply_lines c i ls _ (record { index = h.index; rows = h.rows })
cell_at-apply_lines c i (event_line e ∷ ls) s h =
    cell_at-apply_lines c i ls _ (apply_event-IsBinned e s h)
    ∙ rw (cell_at-apply_event c i e s h, bin_cur-apply_event, +ℤ_assoc)
cell_at-apply_lines c i (comment ∷ ls) s h = cell_at-apply_lines c i ls s h

total-apply_lines :
    (c : Column) (ls : List LogLine) (s : TputState)
    → total c (apply_lines ls s) ≡ total c s +ℤ bits_total c (events ls)
unfolding apply_lines apply_line
total-apply_lines c [] s = sym (+ℤ-zero _)
total-apply_lines capacity (init_line t ∷ ls) s = total-apply_lines capacity ls _
total-apply_lines arrival (init_line t ∷ ls) s = total-apply_lines arrival ls _
total-apply_lines departure (init_line t ∷ ls) s = total-apply_lines departure ls _
total-apply_lines capacity (base_line t ∷ ls) s = total-apply_lines capacity ls _
total-apply_lines arrival (base_line t ∷ ls) s = total-apply_lines arrival ls _
total-apply_lines departure (base_line t ∷ ls) s = total-apply_lines departure ls _
total-apply_lines c (event_line e ∷ ls) s =
    total-apply_lines c ls _ ∙ rw (total-apply_event, +ℤ_assoc)
total-apply_lines c (comment ∷ ls) s = total-apply_lines c ls s

column_sum-apply_lines :
    (c : Column) (ls : List LogLine) (s : TputState)
    → IsBinned s
    → column_sum c (apply_lines ls s).rows ≡ column_sum c s.rows +ℤ bits_total c (events ls)
unfolding apply_lines apply_line
column_sum-apply_lines c [] s h = sym (+ℤ-zero _)
column_sum-apply_lines c (init_line t ∷ ls) s h =
    column_sum-apply_lines c ls _ (record { index = h.index; rows = h.rows })
column_sum-apply_lines c (base_line t ∷ ls) s h =
    column_sum-apply_lines c ls _ (record { index = h.index; rows = h.rows })
column_sum-apply_lines c (event_line e ∷ ls) s h =
    column_sum-apply_lines c ls _ (apply_event-IsBinned e s h)
    ∙ rw (column_sum-apply_event c e s h, +ℤ_assoc)
column_sum-apply_lines c (comment ∷ ls) s h = column_sum-apply_lines c ls s h

cell_at-tput_start : (c : Column) (i : ℕ) → cell_at c i tput_start.rows ≡ pos 0
cell_at-tput_start capacity zero = refl
cell_at-tput_start arrival zero = refl
cell_at-tput_start departure zero = refl
cell_at-tput_start c (suc i) = refl

total-tput_start : (c : Column) → total c tput_start ≡ pos 0
total-tput_start capacity = refl
total-tput_start arrival = refl
total-tput_start departure = refl

column_sum-tput_start : (c : Column) → column_sum c tput_start.rows ≡ pos 0
column_sum-tput_start capacity = +ℤ-zero (pos 0)
column_sum-tput_start arrival = +ℤ-zero (pos 0)
column_sum-tput_start departure = +ℤ-zero (pos 0)

-- If a log is read to its end, then its lines are all read, the bins are numbered from 0 to the last
-- one with a row for each, and the cell of column `c` in bin `i` is the sum of the bits of exactly
-- those events that count in `c` and belong to bin `i`.
pub tput_loop-bits_at :
    (m : ℤ) (lines : List Text) (t : TputState)
    → tput_loop m lines tput_start ≡ ok t
    → (ls : List LogLine) × (read_log m (pos 0) lines ≡ ok ls)
      × (t.ms_index ≡ range_from 0 (t.bin_cur + 1))
      × (length t.rows ≡ t.bin_cur + 1)
      × ((c : Column) (i : ℕ) → cell_at c i t.rows ≡ bits_at c i 0 (events ls))
tput_loop-bits_at m lines t h =
    let (ls, read, done) =
      >>=-eq-ok (read_log m (pos 0) lines) _ (sym (tput_loop-read_log m lines tput_start) ∙ h) in
    let same : apply_lines ls tput_start ≡ t = cc done in
    let v = apply_lines-IsBinned ls tput_start tput_start-IsBinned in
    (
      ls,
      read,
      rw (← same) v.index,
      rw (← same) v.rows,
      λ c i.
          rw
            (
              ← same,
              cell_at-apply_lines c i ls tput_start tput_start-IsBinned,
              cell_at-tput_start c i,
            )
            (zero-+ℤ _),
    )

-- No bit of a log is lost or counted twice: if a log is read to its end, then for each column the
-- rows add up to the running total, and both are the bits of all events that count in the column.
pub tput_loop-bits_total :
    (m : ℤ) (lines : List Text) (t : TputState)
    → tput_loop m lines tput_start ≡ ok t
    → (ls : List LogLine) × (read_log m (pos 0) lines ≡ ok ls)
      × ((c : Column)
          → (total c t ≡ bits_total c (events ls))
            × (column_sum c t.rows ≡ bits_total c (events ls)))
tput_loop-bits_total m lines t h =
    let (ls, read, done) =
      >>=-eq-ok (read_log m (pos 0) lines) _ (sym (tput_loop-read_log m lines tput_start) ∙ h) in
    let same : apply_lines ls tput_start ≡ t = cc done in
    (
      ls,
      read,
      λ c. (
        rw (← same, total-apply_lines c ls tput_start, total-tput_start c) (zero-+ℤ _),
        rw
            (
              ← same,
              column_sum-apply_lines c ls tput_start tput_start-IsBinned,
              column_sum-tput_start c,
            )
            (zero-+ℤ _),
      ),
    )
