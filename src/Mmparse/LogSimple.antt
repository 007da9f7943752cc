-- ===== src/Mmparse/LogSimple.antt =====
-- `parse_mm_log_simple` of mmparse.py: bytes that arrived, left, were dropped and could have left in
-- every millisecond of a mahimahi log, with the size of the queue. The file imports `os` only, and the
-- loop needs `tqdm`, `re` and `np`: every call raises, and the rest of the function is written here as
-- it would run with these names bound, without the progress bar.
pub mod Conservation
pub mod Ticks
use vatic_udp.Prelude.{
  ℕ, zero, suc, List, [], ◌∷◌, ◌++◌, map, Bool, true, false, not, ◌&&◌, if◌then◌else◌, Option, none,
  some, get_elem?, last?, ℤ, pos, pos_part, ◌+ℤ◌, ◌-ℤ◌, ltb_ℤ, eqb_ℤ, Result, ok, err, ◌>>=◌,
  or_raise, index_error, name_error, type_error, attribute_error,
}
use vatic_udp.Py.Text.{Text, codes, text_eq, starts_with, contains, split, strip, words}
use vatic_udp.Py.Decimal.{parse_int}

-- What an operation counts: `+`, `-`, `d` and `#`.
pub data Count : Type 0 where
  ingress egress dropped capacity : Count

-- The bytes of one millisecond.
pub record Bytes : Type 0 where
  pub ingress_bytes : ℤ
  pub egress_bytes : ℤ
  pub dropped_bytes : ℤ
  pub capacity_bytes : ℤ

abbrev pub no_bytes : Bytes
no_bytes = record {
  ingress_bytes = pos 0;
  egress_bytes = pos 0;
  dropped_bytes = pos 0;
  capacity_bytes = pos 0;
}

-- An entry of each of `mm_times`, `mm_ingress`, `mm_egress`, `mm_dropped`, `mm_capacity` and
-- `mm_qsize`; the six lists grow together.
pub record Tick : Type 0 where
  pub time : ℤ
  pub bytes : Bytes
  pub qsize : ℤ

-- `q_type`, `qsize_unit` and `qsize_limit`
pub record Queue : Type 0 where
  pub q_type : Option Text
  pub qsize_unit : Option Text
  pub qsize_limit : Option ℤ

-- The variables of the loop. `bytes_last` is read only behind an arrival, which sets it; before the
-- first operation it is 0 here.
pub record SimpleState : Type 0 where
  pub init_timestamp : ℤ
  pub queue : Queue
  pub ticks : List Tick
  pub tick_last : ℤ
  pub bytes_ms_last : Bytes
  pub qsize_last : ℤ
  pub after_arrival : Bool
  pub bytes_last : ℤ

abbrev pub simple_start : SimpleState
simple_start = record {
  init_timestamp = pos 0;
  queue = record { q_type = none; qsize_unit = none; qsize_limit = none };
  ticks = [];
  tick_last = pos 0;
  bytes_ms_last = no_bytes;
  qsize_last = pos 0;
  after_arrival = false;
  bytes_last = pos 0;
}

-- An event line; an operation of another kind counts nothing.
pub record SimpleEvent : Type 0 where
  pub tick : ℤ
  pub queue_size : ℤ
  pub counted : Option (Count × ℤ)

-- The part of word `i` before a `~`, as a number
abbrev pub size_at : List Text → ℕ → Result ℤ
size_at ws i = do
  word ← or_raise index_error (get_elem? ws i)
  size ← or_raise index_error (get_elem? (split word b'~') 0)
  parse_int size

abbrev pub counting : Count → Result ℤ → Result (Option (Count × ℤ))
counting k (err e) = err e
counting k (ok n) = ok (some (k, n))

-- The size of what the operation counts.
unfoldable pub read_count : Text → List Text → Result (Option (Count × ℤ))
unfolding codes text_eq split parse_int
read_count op ws =
    if text_eq op (codes "#")
    then counting capacity (size_at ws 2)
    else if text_eq op (codes "+")
    then counting ingress (size_at ws 2)
    else if text_eq op (codes "-")
    then counting egress (do word ← or_raise index_error (get_elem? ws 2); parse_int word)
    else if text_eq op (codes "d")
    then counting dropped (size_at ws 3)
    else ok none

-- The steps of an event line that can raise, in their order.
unfoldable pub read_simple_event : Text → Result SimpleEvent
unfolding strip words parse_int read_count
read_simple_event line = do
  let ws = words (strip line)
  op ← or_raise index_error (get_elem? ws 1)
  time ← or_raise index_error (get_elem? ws 0)
  tick ← parse_int time
  size ← or_raise index_error (last? ws)
  queue_size ← parse_int size
  counted ← read_count op ws
  ok (record { tick = tick; queue_size = queue_size; counted = counted })

-- `if op_last == '+': qsize_ms_last += bytes_last`
abbrev pub settled : SimpleState → ℤ
settled s = if s.after_arrival then s.qsize_last +ℤ s.bytes_last else s.qsize_last

-- Milliseconds without an operation, from `t` on
unfoldable pub quiet_ticks : ℕ → ℤ → ℤ → List Tick
unfolding ◌+ℤ◌
quiet_ticks zero t q = []
quiet_ticks (suc n) t q =
    record { time = t; bytes = no_bytes; qsize = q } ∷ quiet_ticks n (t +ℤ pos 1) q

abbrev pub closed_tick : SimpleState → Tick
closed_tick s = record { time = s.tick_last; bytes = s.bytes_ms_last; qsize = settled s }

-- `if tick_ms > tick_ms_last and tick_ms_last != 0`: the last millisecond is closed, and those that
-- were jumped are filled in.
unfoldable pub close_ticks : ℤ → SimpleState → SimpleState
unfolding ◌+ℤ◌ ◌-ℤ◌ quiet_ticks
close_ticks tick s =
    if ltb_ℤ s.tick_last tick && not (eqb_ℤ s.tick_last (pos 0))
    then record s {
      ticks =
          s.ticks
          ++ closed_tick s
            ∷ quiet_ticks (pos_part (tick -ℤ (s.tick_last +ℤ pos 1))) (s.tick_last +ℤ pos 1)
                (settled s);
      bytes_ms_last = no_bytes;
    }
    else s

abbrev pub add_bytes : Count → ℤ → Bytes → Bytes
add_bytes ingress n b = record b { ingress_bytes = b.ingress_bytes +ℤ n }
add_bytes egress n b = record b { egress_bytes = b.egress_bytes +ℤ n }
add_bytes dropped n b = record b { dropped_bytes = b.dropped_bytes +ℤ n }
add_bytes capacity n b = record b { capacity_bytes = b.capacity_bytes +ℤ n }

abbrev pub is_ingress : Count → Bool
is_ingress ingress = true
is_ingress egress = false
is_ingress dropped = false
is_ingress capacity = false

-- The branch on the operation, and `op_last = op`
unfoldable pub count_bytes : Option (Count × ℤ) → SimpleState → SimpleState
unfolding ◌+ℤ◌
count_bytes none s = record s { after_arrival = false }
count_bytes (some (k, n)) s = record s {
  bytes_ms_last = add_bytes k n s.bytes_ms_last;
  after_arrival = is_ingress k;
  bytes_last = n;
}

unfoldable pub apply_simple_event : SimpleEvent → SimpleState → SimpleState
unfolding close_ticks count_bytes
apply_simple_event e s =
    count_bytes e.counted
      (record (close_ticks e.tick s) { tick_last = e.tick; qsize_last = e.queue_size })

-- What `re.match('# queue: (\w+)\s*(\[(\w+)=(\d+)\])?', line)` finds: the type, and unit and limit.
abbrev pub QueueMatch : Type 0
QueueMatch = Text → Option (Text × Option (Text × Text))

-- The limit is left as it was for a queue without one.
unfoldable pub queue_of : Option ℤ → Text → Option (Text × Text) → Result Queue
unfolding codes text_eq parse_int
queue_of limit q_type none =
    if text_eq q_type (codes "infinite")
    then ok (record { q_type = some q_type; qsize_unit = none; qsize_limit = limit })
    else err type_error
queue_of limit q_type (some (unit, number)) =
    if text_eq q_type (codes "infinite")
    then ok (record { q_type = some q_type; qsize_unit = some unit; qsize_limit = limit })
    else (do
      n ← parse_int number
      ok (record { q_type = some q_type; qsize_unit = some unit; qsize_limit = some n }))

-- What a line is for the loop.
pub data SimpleLine : Type 0 where
  timestamp_line : ℤ → SimpleLine
  queue_line : Queue → SimpleLine
  operation_line : SimpleEvent → SimpleLine
  skipped_line : SimpleLine

-- The tests of the loop's body, and its steps that can raise.
unfoldable pub read_simple_line : QueueMatch → Option ℤ → Text → Result SimpleLine
unfolding codes starts_with contains split parse_int read_simple_event queue_of
read_simple_line match_queue limit line =
    if starts_with line (codes "#")
    then (if contains line (codes "init timestamp:")
        then (do
          number ← or_raise index_error (get_elem? (split line b':') 1)
          t ← parse_int number
          ok (timestamp_line t))
        else if contains line (codes "queue:")
        then (do
          (q_type, sizes) ← or_raise attribute_error (match_queue line)
          q ← queue_of limit q_type sizes
          ok (queue_line q))
        else ok skipped_line)
    else (do e ← read_simple_event line; ok (operation_line e))

-- Its assignments.
unfoldable pub apply_simple_line : SimpleLine → SimpleState → SimpleState
unfolding apply_simple_event
apply_simple_line (timestamp_line t) s = record s { init_timestamp = t }
apply_simple_line (queue_line q) s = record s { queue = q }
apply_simple_line (operation_line e) s = apply_simple_event e s
apply_simple_line skipped_line s = s

unfoldable pub simple_loop : QueueMatch → List Text → SimpleState → Result SimpleState
unfolding read_simple_line apply_simple_line
simple_loop match_queue [] s = ok s
simple_loop match_queue (line ∷ lines) s = do
  l ← read_simple_line match_queue s.queue.qsize_limit line
  simple_loop match_queue lines (apply_simple_line l s)

-- `res`, with times in milliseconds before their division by 1000, and the queue
pub record Parsed : Type 0 where
  pub table : List Tick
  pub queue_info : Queue

-- What follows the loop: the last millisecond is closed, the time of the start is added, and the
-- printing of the table divides by the limit, which raises if there is none.
unfoldable pub finish : SimpleState → Result Parsed
unfolding ◌+ℤ◌
finish s = elim s.queue.qsize_limit [
  | none ↦ err type_error
  | some n ↦ ok (record {
    table =
        map (λ (t : Tick). record t { time = t.time +ℤ s.init_timestamp })
          (s.ticks ++ closed_tick s ∷ []);
    queue_info = s.queue;
  })
]

-- The code from the loop on, which no call reaches.
unfoldable pub parse_lines : QueueMatch → List Text → Result Parsed
parse_lines match_queue lines = do s ← simple_loop match_queue lines simple_start; finish s

-- The statement behind `open` calls `tqdm`, which the module does not import: a call for a file that
-- can be opened ends there.
unfoldable pub parse_mm_log_simple : List Text → Result Parsed
parse_mm_log_simple lines = err name_error
