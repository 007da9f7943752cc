-- ===== src/Mmparse/Throughput/Sums.antt =====
-- The sums of the columns of `parse_mm_throughput` and its running totals.
use vatic_udp.Prelude.{
  ℕ, zero, suc, ◌<◌, List, [], ◌∷◌, ◌++◌, ◌≡◌, refl, ◌∙◌, sym, ap, arith, length, replicate, none,
  some, Option, ℤ, pos, if◌then◌else◌, ◌+ℤ◌, update_last, int_laws, +ℤ-zero, zero-+ℤ,
}
use vatic_udp.Mmparse.Throughput.{
  TputState, Row, zero_row, LogEvent, Column, capacity, arrival, departure, add_to, count_bits,
  advance, apply_event,
}
use vatic_udp.Mmparse.Throughput.Bins.{IsBinned, opened, advance_lem, advance-IsBinned}
use vatic_udp.Mmparse.Throughput.Columns.{
  cell, total, counts_in, counts_in-none, bits_in, column_sum, cell-add_to,
}

column_sum-append-replicate :
    (c : Column) (n : ℕ) (rs : List Row)
    → column_sum c (rs ++ replicate n zero_row) ≡ column_sum c rs
column_sum-append-replicate c zero [] = refl
column_sum-append-replicate capacity (suc n) [] =
    zero-+ℤ _ ∙ column_sum-append-replicate capacity n []
column_sum-append-replicate arrival (suc n) [] =
    zero-+ℤ _ ∙ column_sum-append-replicate arrival n []
column_sum-append-replicate departure (suc n) [] =
    zero-+ℤ _ ∙ column_sum-append-replicate departure n []
column_sum-append-replicate c n (r ∷ rs) =
    ap (λ x. cell c r +ℤ x) (column_sum-append-replicate c n rs)

column_sum-update_last :
    (c : Column) (f : Row → Row) (x : ℤ) (rs : List Row)
    → ((r : Row) → cell c (f r) ≡ cell c r +ℤ x)
    → 0 < length rs
    → column_sum c (update_last f rs) ≡ column_sum c rs +ℤ x
column_sum-update_last c f x [] h e = absurd (omega arith)
column_sum-update_last c f x (r ∷ []) h e = rw (h r) (omega int_laws)
column_sum-update_last c f x (r ∷ q ∷ rs) h e =
    rw (column_sum-update_last c f x (q ∷ rs) h (omega arith)) (omega int_laws)

column_sum-count_bits :
    (c : Column) (d : Option Column) (x : ℤ) (s : TputState)
    → IsBinned s
    → column_sum c (count_bits d x s).rows
      ≡ column_sum c s.rows +ℤ (if counts_in c d then x else pos 0)
unfolding count_bits
column_sum-count_bits c none x s h = rw (counts_in-none c, +ℤ-zero)
column_sum-count_bits c (some capacity) x s h =
    column_sum-update_last c (add_to capacity x) _ s.rows (cell-add_to c capacity x) (omega arith)
column_sum-count_bits c (some arrival) x s h =
    column_sum-update_last c (add_to arrival x) _ s.rows (cell-add_to c arrival x) (omega arith)
column_sum-count_bits c (some departure) x s h =
    column_sum-update_last c (add_to departure x) _ s.rows (cell-add_to c departure x) (omega arith)

total-count_bits :
    (c : Column) (d : Option Column) (x : ℤ) (s : TputState)
    → total c (count_bits d x s) ≡ total c s +ℤ (if counts_in c d then x else pos 0)
unfolding count_bits
total-count_bits c none x s = rw (counts_in-none c, +ℤ-zero)
total-count_bits capacity (some capacity) x s = refl
total-count_bits arrival (some arrival) x s = refl
total-count_bits departure (some departure) x s = refl
total-count_bits capacity (some arrival) x s = sym (+ℤ-zero _)
total-count_bits capacity (some departure) x s = sym (+ℤ-zero _)
total-count_bits arrival (some capacity) x s = sym (+ℤ-zero _)
total-count_bits arrival (some departure) x s = sym (+ℤ-zero _)
total-count_bits departure (some capacity) x s = sym (+ℤ-zero _)
total-count_bits departure (some arrival) x s = sym (+ℤ-zero _)

total-advance :
    (c : Column) (b : ℤ) (m : Option ℤ) (s : TputState)
    → total c (record (advance b s) { ms_elapsed = m }) ≡ total c s
total-advance capacity b m s = rw advance_lem
total-advance arrival b m s = rw advance_lem
total-advance departure b m s = rw advance_lem

pub total-apply_event :
    (c : Column) (e : LogEvent) (s : TputState)
    → total c (apply_event e s) ≡ total c s +ℤ bits_in c e
unfolding apply_event
total-apply_event c e s =
    total-count_bits c e.column e.bits _ ∙ rw (total-advance c e.bin (some e.elapsed) s)

pub column_sum-apply_event :
    (c : Column) (e : LogEvent) (s : TputState)
    → IsBinned s
    → column_sum c (apply_event e s).rows ≡ column_sum c s.rows +ℤ bits_in c e
unfolding apply_event
column_sum-apply_event c e s h =
    let moved : TputState = record (advance e.bin s) { ms_elapsed = some e.elapsed } in
    let v = advance-IsBinned e.bin s h in
    column_sum-count_bits c e.column e.bits moved (record { index = v.index; rows = v.rows })
    ∙ rw (advance_lem, column_sum-append-replicate c (opened s.bin_cur e.bin) s.rows)
