-- ===== src/Mmparse/Throughput.antt =====
-- `parse_mm_throughput` of mmparse.py: capacity, ingress and throughput of a mahimahi log, in bins of
-- `ms_per_bin` milliseconds. The progress bar of `verbose` is left out.
pub mod Bins
pub mod Columns
pub mod Sums
pub mod Log
pub mod Order
pub mod Report
use vatic_udp.Prelude.{
  ℕ, zero, suc, ◌+◌, ◌-◌, List, [], ◌∷◌, ◌++◌, not, if◌then◌else◌, Option, none, some, get_elem?,
  last?, update_last, ℤ, pos, pos_part, ◌+ℤ◌, ◌-ℤ◌, ◌*ℤ◌, ltb_ℤ, eqb_ℤ, floor_div, Result, ok, err,
  ◌>>=◌, or_raise, index_error, zero_division_error,
}
use vatic_udp.Py.Text.{Text, codes, text_eq, starts_with, split, words}
use vatic_udp.Py.Decimal.{parse_int}

-- A row of `data` and its columns: capacity, arrivals (ingress) and departures (throughput), in bits.
pub record Row : Type 0 where
  pub cap : ℤ
  pub arr : ℤ
  pub dep : ℤ

pub data Column : Type 0 where
  capacity arrival departure : Column

abbrev pub zero_row : Row
zero_row = record { cap = pos 0; arr = pos 0; dep = pos 0 }

-- The local variables of the loop; `ms_elapsed` is unbound before the first event.
pub record TputState : Type 0 where
  pub init_timestamp : Option ℤ
  pub base_timestamp : ℤ
  pub ms_index : List ℕ
  pub rows : List Row
  pub cap_total : ℤ
  pub dep_total : ℤ
  pub arr_total : ℤ
  pub bin_cur : ℕ
  pub ms_elapsed : Option ℤ

abbrev pub tput_start : TputState
tput_start = record {
  init_timestamp = none;
  base_timestamp = pos 0;
  ms_index = 0 ∷ [];
  rows = zero_row ∷ [];
  cap_total = pos 0;
  dep_total = pos 0;
  arr_total = pos 0;
  bin_cur = 0;
  ms_elapsed = none;
}

-- What an event line says. The column is missing for an event type that is not counted.
pub record LogEvent : Type 0 where
  pub elapsed : ℤ
  pub bin : ℤ
  pub column : Option Column
  pub bits : ℤ

-- The tests of `event_type`.
unfoldable pub event_column : Text → Option Column
unfolding codes text_eq
event_column event_type =
    if text_eq event_type (codes "#")
    then some capacity
    else if text_eq event_type (codes "+")
    then some arrival
    else if text_eq event_type (codes "-")
    then some departure
    else none

-- `a // b`, which raises at 0
abbrev pub floor_quotient : ℤ → ℤ → Result ℤ
floor_quotient a b = if eqb_ℤ b (pos 0) then err zero_division_error else ok (floor_div a b)

-- The steps of an event line that can raise, in their order.
unfoldable pub read_event : ℤ → ℤ → Text → Result LogEvent
unfolding event_column split words parse_int floor_div ◌-ℤ◌ ◌*ℤ◌
read_event ms_per_bin base_timestamp line = do
  before ← or_raise index_error (get_elem? (split line b'~') 0)
  let ws = words before
  time ← or_raise index_error (get_elem? ws 0)
  ms ← parse_int time
  let ms_elapsed = ms -ℤ base_timestamp
  bin_i ← floor_quotient ms_elapsed ms_per_bin
  event_type ← or_raise index_error (get_elem? ws 1)
  size ← or_raise index_error (get_elem? ws 2)
  pkt_len ← parse_int size
  ok (record {
    elapsed = ms_elapsed;
    bin = bin_i;
    column = event_column event_type;
    bits = pkt_len *ℤ pos 8;
  })

-- `for i in range(bin_cur+1, bin_i+1)`, at the rounds left and `i`
unfoldable pub fill_bins : ℕ → ℕ → TputState → TputState
fill_bins zero i s = s
fill_bins (suc rounds) i s =
    fill_bins rounds (i + 1)
      (record s { ms_index = s.ms_index ++ i ∷ []; rows = s.rows ++ zero_row ∷ [] })

-- `if bin_i > bin_cur`: a new bin, behind empty ones for those that were jumped.
unfoldable pub advance : ℤ → TputState → TputState
unfolding fill_bins
advance bin_i s =
    if ltb_ℤ (pos s.bin_cur) bin_i
    then record (fill_bins (pos_part bin_i - s.bin_cur) (s.bin_cur + 1) s) {
      bin_cur = pos_part bin_i;
    }
    else s

abbrev pub add_to : Column → ℤ → Row → Row
add_to capacity x r = record r { cap = r.cap +ℤ x }
add_to arrival x r = record r { arr = r.arr +ℤ x }
add_to departure x r = record r { dep = r.dep +ℤ x }

-- `data[-1][…] += pkt_len_bits` and the total of the same column
unfoldable pub count_bits : Option Column → ℤ → TputState → TputState
unfolding ◌+ℤ◌
count_bits none x s = s
count_bits (some capacity) x s = record s {
  rows = update_last (add_to capacity x) s.rows;
  cap_total = s.cap_total +ℤ x;
}
count_bits (some arrival) x s = record s {
  rows = update_last (add_to arrival x) s.rows;
  arr_total = s.arr_total +ℤ x;
}
count_bits (some departure) x s = record s {
  rows = update_last (add_to departure x) s.rows;
  dep_total = s.dep_total +ℤ x;
}

unfoldable pub apply_event : LogEvent → TputState → TputState
unfolding advance count_bits
apply_event e s =
    count_bits e.column e.bits (record (advance e.bin s) { ms_elapsed = some e.elapsed })

-- The number behind the last colon of a comment line.
unfoldable pub header_number : Text → Result ℤ
unfolding split parse_int
header_number line = do number ← or_raise index_error (last? (split line b':')); parse_int number

-- What a line is for the loop.
pub data LogLine : Type 0 where
  init_line : ℤ → LogLine
  base_line : ℤ → LogLine
  event_line : LogEvent → LogLine
  comment : LogLine

-- The tests of the loop's body, and its steps that can raise.
unfoldable pub read_line : ℤ → ℤ → Text → Result LogLine
unfolding codes starts_with header_number read_event
read_line ms_per_bin base_timestamp line =
    if starts_with line (codes "# init timestamp")
    then (do t ← header_number line; ok (init_line t))
    else if starts_with line (codes "# base timestamp")
    then (do t ← header_number line; ok (base_line t))
    else if not (starts_with line (codes "#"))
    then (do e ← read_event ms_per_bin base_timestamp line; ok (event_line e))
    else ok comment

-- Its assignments.
unfoldable pub apply_line : LogLine → TputState → TputState
unfolding apply_event
apply_line (init_line t) s = record s { init_timestamp = some t }
apply_line (base_line t) s = record s { base_timestamp = t }
apply_line (event_line e) s = apply_event e s
apply_line comment s = s

-- `for line in f`
unfoldable pub tput_loop : ℤ → List Text → TputState → Result TputState
unfolding read_line apply_line
tput_loop ms_per_bin [] s = ok s
tput_loop ms_per_bin (line ∷ lines) s = do
  l ← read_line ms_per_bin s.base_timestamp line
  tput_loop ms_per_bin lines (apply_line l s)
