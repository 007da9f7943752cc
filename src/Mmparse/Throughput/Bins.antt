-- ===== src/Mmparse/Throughput/Bins.antt =====
-- The bins of `parse_mm_throughput` at every moment of the loop.
use vatic_udp.Prelude.{
  ℕ, zero, suc, ◌+◌, ◌-◌, ◌++◌, append-nil, append_assoc, ◌≡◌, refl, arith, Bool-cases, inl, inr,
  length, length-append, length-update_last, replicate, length-replicate, range_from,
  range_from_zero-append, none, some, Option, ℤ, pos, pos_part, ltb_ℤ, if◌then◌else◌,
}
use vatic_udp.Mmparse.Throughput.{
  TputState, tput_start, zero_row, LogEvent, Column, capacity, arrival, departure, LogLine,
  init_line, base_line, event_line, comment, fill_bins, advance, count_bits, apply_event,
  apply_line,
}

-- All that a run of `fill_bins` changes.
pub fill_bins_lem :
    (rounds i : ℕ) (s : TputState)
    → fill_bins rounds i s ≡ record s {
      ms_index = s.ms_index ++ range_from i rounds;
      rows = s.rows ++ replicate rounds zero_row;
    }
unfolding fill_bins
fill_bins_lem zero i s = rw (append-nil, append-nil)
fill_bins_lem (suc rounds) i s = simp (fill_bins_lem rounds, append_assoc)

-- The bins are numbered from 0 to the current one, and there is a row for each.
pub record IsBinned (s : TputState) : Type 0 where
  pub index : s.ms_index ≡ range_from 0 (s.bin_cur + 1)
  pub rows : length s.rows ≡ s.bin_cur + 1

-- The current bin after an event in bin `b`: bins do not go back.
abbrev pub running_bin : ℕ → ℤ → ℕ
running_bin cur b = if ltb_ℤ (pos cur) b then pos_part b else cur

-- How many bins an event in bin `b` opens.
abbrev pub opened : ℕ → ℤ → ℕ
opened cur b = running_bin cur b - cur

-- `advance` without its branches.
pub advance_lem :
    (b : ℤ) (s : TputState)
    → advance b s ≡ record s {
      ms_index = s.ms_index ++ range_from (s.bin_cur + 1) (opened s.bin_cur b);
      rows = s.rows ++ replicate (opened s.bin_cur b) zero_row;
      bin_cur = running_bin s.bin_cur b;
    }
unfolding advance
advance_lem b s = elim (Bool-cases (ltb_ℤ (pos s.bin_cur) b)) [
  | inl later ↦ rw (later, fill_bins_lem)
  | inr same ↦
      let none_left : s.bin_cur - s.bin_cur ≡ 0 = omega arith in
      rw (same, none_left, append-nil, append-nil)
]

-- The rows and bins that `count_bits` leaves as they are.
count_bits_shape :
    (c : Option Column) (x : ℤ) (s : TputState)
    → ((count_bits c x s).ms_index ≡ s.ms_index)
      × (length (count_bits c x s).rows ≡ length s.rows)
      × ((count_bits c x s).bin_cur ≡ s.bin_cur)
unfolding count_bits
count_bits_shape none x s = (refl, refl, refl)
count_bits_shape (some capacity) x s = (refl, length-update_last _ s.rows, refl)
count_bits_shape (some arrival) x s = (refl, length-update_last _ s.rows, refl)
count_bits_shape (some departure) x s = (refl, length-update_last _ s.rows, refl)

pub base_timestamp-count_bits :
    (c : Option Column) (x : ℤ) (s : TputState)
    → (count_bits c x s).base_timestamp ≡ s.base_timestamp
unfolding count_bits
base_timestamp-count_bits none x s = refl
base_timestamp-count_bits (some capacity) x s = refl
base_timestamp-count_bits (some arrival) x s = refl
base_timestamp-count_bits (some departure) x s = refl

pub advance-IsBinned : (b : ℤ) (s : TputState) → IsBinned s → IsBinned (advance b s)
advance-IsBinned b s h = rw advance_lem record {
  index =
      let next : running_bin s.bin_cur b + 1 ≡ s.bin_cur + 1 + opened s.bin_cur b = ground arith in
      rw (h.index, next) (range_from_zero-append (s.bin_cur + 1) (opened s.bin_cur b));
  rows = rw (length-append, length-replicate, h.rows) (ground arith);
}

pub bin_cur-apply_event :
    (e : LogEvent) (s : TputState) → (apply_event e s).bin_cur ≡ running_bin s.bin_cur e.bin
unfolding apply_event
bin_cur-apply_event e s = rw (count_bits_shape e.column e.bits _).2 (rw advance_lem)

pub apply_event-IsBinned : (e : LogEvent) (s : TputState) → IsBinned s → IsBinned (apply_event e s)
unfolding apply_event
apply_event-IsBinned e s h =
    let s' : TputState = record (advance e.bin s) { ms_elapsed = some e.elapsed } in
    let (same_index, same_length, same_bin) = count_bits_shape e.column e.bits s' in
    let v = advance-IsBinned e.bin s h in
    record { index = rw (same_index, same_bin) v.index; rows = rw (same_length, same_bin) v.rows }

pub apply_line-IsBinned : (l : LogLine) (s : TputState) → IsBinned s → IsBinned (apply_line l s)
unfolding apply_line
apply_line-IsBinned (init_line t) s h = record { index = h.index; rows = h.rows }
apply_line-IsBinned (base_line t) s h = record { index = h.index; rows = h.rows }
apply_line-IsBinned (event_line e) s h = apply_event-IsBinned e s h
apply_line-IsBinned comment s h = h

pub tput_start-IsBinned : IsBinned tput_start
tput_start-IsBinned = record { index = refl; rows = refl }
