-- ===== src/Mmparse/Throughput/Columns.antt =====
-- What the columns of `parse_mm_throughput` add up to, and which events each bin holds.
use vatic_udp.Prelude.{
  ℕ, zero, suc, List, [], ◌∷◌, ◌++◌, ◌≡◌, refl, ◌∙◌, sym, arith, Bool, true, false, ◌==◌, length,
  replicate, none, some, Option, ℤ, pos, if◌then◌else◌, ◌+ℤ◌, update_last, +ℤ-zero,
}
use vatic_udp.Mmparse.Throughput.{
  TputState, Row, zero_row, LogEvent, Column, capacity, arrival, departure, add_to, count_bits,
  advance, apply_event,
}
use vatic_udp.Mmparse.Throughput.Bins.{IsBinned, running_bin, opened, advance_lem, advance-IsBinned}

abbrev pub cell : Column → Row → ℤ
cell capacity r = r.cap
cell arrival r = r.arr
cell departure r = r.dep

abbrev pub total : Column → TputState → ℤ
total capacity s = s.cap_total
total arrival s = s.arr_total
total departure s = s.dep_total

-- The column `c` is the one that the event counts in.
abbrev pub counts_in : Column → Option Column → Bool
counts_in capacity (some capacity) = true
counts_in arrival (some arrival) = true
counts_in departure (some departure) = true
counts_in _ _ = false

pub counts_in-none : (c : Column) → counts_in c none ≡ false
counts_in-none capacity = refl
counts_in-none _ = refl

-- The bits of the event that count in column `c`.
abbrev pub bits_in : Column → LogEvent → ℤ
bits_in c e = if counts_in c e.column then e.bits else pos 0

abbrev pub column_sum : Column → List Row → ℤ
column_sum c [] = pos 0
column_sum c (r ∷ rs) = cell c r +ℤ column_sum c rs

-- The cell of bin `i`, and 0 behind the last bin.
abbrev pub cell_at : Column → ℕ → List Row → ℤ
cell_at c i [] = pos 0
cell_at c zero (r ∷ rs) = cell c r
cell_at c (suc i) (r ∷ rs) = cell_at c i rs

pub cell-add_to :
    (c d : Column) (x : ℤ) (r : Row)
    → cell c (add_to d x r) ≡ cell c r +ℤ (if counts_in c (some d) then x else pos 0)
cell-add_to capacity capacity x r = refl
cell-add_to arrival arrival x r = refl
cell-add_to departure departure x r = refl
cell-add_to capacity arrival x r = sym (+ℤ-zero _)
cell-add_to capacity departure x r = sym (+ℤ-zero _)
cell-add_to arrival capacity x r = sym (+ℤ-zero _)
cell-add_to arrival departure x r = sym (+ℤ-zero _)
cell-add_to departure capacity x r = sym (+ℤ-zero _)
cell-add_to departure arrival x r = sym (+ℤ-zero _)

cell_at-append-replicate :
    (c : Column) (i n : ℕ) (rs : List Row)
    → cell_at c i (rs ++ replicate n zero_row) ≡ cell_at c i rs
cell_at-append-replicate c i zero [] = refl
cell_at-append-replicate capacity zero (suc n) [] = refl
cell_at-append-replicate arrival zero (suc n) [] = refl
cell_at-append-replicate departure zero (suc n) [] = refl
cell_at-append-replicate c (suc i) (suc n) [] = cell_at-append-replicate c i n []
cell_at-append-replicate c zero n (r ∷ rs) = refl
cell_at-append-replicate c (suc i) n (r ∷ rs) = cell_at-append-replicate c i n rs

-- An update of the last row, whose bin is `last`.
cell_at-update_last :
    (c : Column) (f : Row → Row) (x : ℤ) (i last : ℕ) (rs : List Row)
    → ((r : Row) → cell c (f r) ≡ cell c r +ℤ x)
    → length rs ≡ suc last
    → cell_at c i (update_last f rs) ≡ cell_at c i rs +ℤ (if last == i then x else pos 0)
cell_at-update_last c f x i last [] h e = absurd (omega arith)
cell_at-update_last c f x zero zero (r ∷ []) h e = h r
cell_at-update_last c f x zero (suc last) (r ∷ []) h e = absurd (omega arith)
cell_at-update_last c f x (suc i) zero (r ∷ []) h e = ground (arith, +ℤ-zero (pos 0))
cell_at-update_last c f x (suc i) (suc last) (r ∷ []) h e = absurd (omega arith)
cell_at-update_last c f x zero zero (r ∷ q ∷ rs) h e = absurd (omega arith)
cell_at-update_last c f x zero (suc last) (r ∷ q ∷ rs) h e = ground (arith, +ℤ-zero (cell c r))
cell_at-update_last c f x (suc i) zero (r ∷ q ∷ rs) h e = absurd (omega arith)
cell_at-update_last c f x (suc i) (suc last) (r ∷ q ∷ rs) h e =
    cell_at-update_last c f x i last (q ∷ rs) h (omega arith) ∙ ground arith

-- What `count_bits` adds to a cell.
cell_at-count_bits :
    (c : Column) (i : ℕ) (d : Option Column) (x : ℤ) (s : TputState)
    → IsBinned s
    → cell_at c i (count_bits d x s).rows
      ≡ cell_at c i s.rows
        +ℤ (if s.bin_cur == i then (if counts_in c d then x else pos 0) else pos 0)
unfolding count_bits
cell_at-count_bits c i none x s h =
    rw (counts_in-none c) (ground (arith, +ℤ-zero (cell_at c i s.rows)))
cell_at-count_bits c i (some capacity) x s h =
    cell_at-update_last c (add_to capacity x) _ i s.bin_cur s.rows (cell-add_to c capacity x)
      (omega arith)
cell_at-count_bits c i (some arrival) x s h =
    cell_at-update_last c (add_to arrival x) _ i s.bin_cur s.rows (cell-add_to c arrival x)
      (omega arith)
cell_at-count_bits c i (some departure) x s h =
    cell_at-update_last c (add_to departure x) _ i s.bin_cur s.rows (cell-add_to c departure x)
      (omega arith)

-- An event adds its bits to the bin that is current when it has been placed.
pub cell_at-apply_event :
    (c : Column) (i : ℕ) (e : LogEvent) (s : TputState)
    → IsBinned s
    → cell_at c i (apply_event e s).rows
      ≡ cell_at c i s.rows +ℤ (if running_bin s.bin_cur e.bin == i then bits_in c e else pos 0)
unfolding apply_event
cell_at-apply_event c i e s h =
    let moved : TputState = record (advance e.bin s) { ms_elapsed = some e.elapsed } in
    let v = advance-IsBinned e.bin s h in
    cell_at-count_bits c i e.column e.bits moved (record { index = v.index; rows = v.rows })
    ∙ rw (advance_lem, cell_at-append-replicate c i (opened s.bin_cur e.bin) s.rows)
