-- ===== src/ChannelCapacity.antt =====
-- channelsCap.py: the bandwidth of a channel, from a file with a time and a number of packets on each
-- line.
pub mod OnePacket
use vatic_udp.Prelude.{
  ℕ, ◌+◌, List, [], ◌∷◌, ◌++◌, map, length, range_from, if◌then◌else◌, ℤ, pos, ◌+ℤ◌, ◌*ℤ◌, ltb_ℤ,
  Option, none, some, get_elem?, Result, ok, err, ◌>>=◌, or_raise, index_error, value_error,
}
use vatic_udp.Py.Text.{Text, codes, split_max}
use vatic_udp.Py.Decimal.{parse_int}
use vatic_udp.Py.Format.{path_join}
use vatic_udp.Py.Floats.{Floats}

-- `a = line.split(' ', 1)` with `currTime = a[0]` and `currPkts = a[1]`
unfoldable pub read_fields : Text → Result (Text × Text)
unfolding split_max
read_fields line = do
  curr_time ← or_raise index_error (get_elem? (split_max line b' ' 1) 0)
  curr_pkts ← or_raise index_error (get_elem? (split_max line b' ' 1) 1)
  ok (curr_time, curr_pkts)

module _ (fl : Floats) where
  open fl use {Float, of_int, div, true_div}

  -- The variables `BW`, `nextTime` and `cnt`
  pub record CapacityState : Type 0 where
    pub bw : List Float
    pub next_time : ℕ
    pub cnt : ℤ

  abbrev pub capacity_start : CapacityState
  capacity_start = record { bw = []; next_time = 1000; cnt = pos 0 }

  -- `cnt*1450*8/stepMs/1e3`
  unfoldable pub megabits : ℤ → Float
  unfolding ◌*ℤ◌
  megabits cnt = div (true_div (cnt *ℤ pos 1450 *ℤ pos 8) (pos 1000)) (of_int (pos 1000))

  -- The body of the loop: the packets of a line that closes a second are not even read.
  unfoldable pub add_line : Text → CapacityState → Result CapacityState
  unfolding read_fields parse_int megabits ◌+ℤ◌
  add_line line s = do
    (curr_time, curr_pkts) ← read_fields line
    time ← parse_int curr_time
    if ltb_ℤ (pos s.next_time) time
        then ok (record {
          bw = s.bw ++ megabits s.cnt ∷ [];
          next_time = s.next_time + 1000;
          cnt = pos 0;
        })
        else (do pkts ← parse_int curr_pkts; ok (record s { cnt = s.cnt +ℤ pkts }))

  unfoldable pub capacity_loop : List Text → CapacityState → Result CapacityState
  unfolding add_line
  capacity_loop [] s = ok s
  capacity_loop (line ∷ lines) s = do next ← add_line line s; capacity_loop lines next

  -- What the script shows of a channel: its peak, and the curve. `greatest` is `max` of a list that is
  -- not empty.
  pub record Capacity : Type 0 where
    pub peak : Float
    pub xs : List Float
    pub bws : List Float

  peak_of : (Float → List Float → Float) → List Float → Result Float
  peak_of greatest [] = err value_error
  peak_of greatest (x ∷ xs) = ok (greatest x xs)

  unfoldable pub channel_capacity : (Float → List Float → Float) → List Text → Result Capacity
  unfolding capacity_loop peak_of
  channel_capacity greatest lines = do
    s ← capacity_loop lines capacity_start
    peak ← peak_of greatest s.bw
    ok (record {
      peak = peak;
      xs = map (λ i. true_div (pos i *ℤ pos 1000) (pos 1000)) (range_from 0 (length s.bw));
      bws = s.bw;
    })
