-- ===== src/Mmparse/Delays.antt =====
-- `parse_mm_queue_delays` of mmparse.py: the delay of every packet that left the queue, and the time
-- at which that packet had come.
pub mod Departures
use vatic_udp.Prelude.{
  List, [], ◌∷◌, ◌++◌, not, if◌then◌else◌, get_elem?, last?, ℤ, pos, ◌-ℤ◌, Result, ok, ◌>>=◌,
  or_raise, index_error,
}
use vatic_udp.Py.Text.{Text, codes, text_eq, starts_with, strip, split, words}
use vatic_udp.Py.Decimal.{parse_int}
use vatic_udp.Py.Floats.{Floats}

module _ (fl : Floats) where
  open fl use {Float, of_int, parse_float, sub, div}

  -- The variables of the loop.
  pub record DelayState : Type 0 where
    pub base_timestamp : ℤ
    pub delays : List Float
    pub delaytimes : List Float

  abbrev pub delay_start : DelayState
  delay_start = record { base_timestamp = pos 0; delays = []; delaytimes = [] }

  -- `float(timestamp - delay) / 1000.0`
  unfoldable pub arrival_time : ℤ → Float → Float
  arrival_time timestamp delay = div (sub (of_int timestamp) delay) (of_int (pos 1000))

  -- A packet that left the queue: when, since the base time, and the delay that the log gives it.
  pub record Departure : Type 0 where
    pub timestamp : ℤ
    pub delay : Float

  -- What a line is for the loop.
  pub data DelayLine : Type 0 where
    base_line : ℤ → DelayLine
    departure_line : Departure → DelayLine
    other_line : DelayLine

  unfoldable pub read_departure : ℤ → List Text → Result Departure
  unfolding parse_int ◌-ℤ◌
  read_departure base_timestamp ws = do
    time ← or_raise index_error (get_elem? ws 0)
    ms ← parse_int time
    number ← or_raise index_error (get_elem? ws 3)
    x ← parse_float number
    ok (record { timestamp = ms -ℤ base_timestamp; delay = x })

  -- The tests of the loop's body, on the stripped line, and its steps that can raise.
  unfoldable pub read_delay_line : ℤ → Text → Result DelayLine
  unfolding codes text_eq starts_with split words parse_int read_departure
  read_delay_line base_timestamp line =
      if starts_with line (codes "# base timestamp")
      then (do
        number ← or_raise index_error (last? (split line b':'))
        t ← parse_int number
        ok (base_line t))
      else if not (starts_with line (codes "#"))
      then (do
        before ← or_raise index_error (get_elem? (split line b'~') 0)
        let ws = words before
        event_type ← or_raise index_error (get_elem? ws 1)
        if text_eq event_type (codes "-")
            then (do d ← read_departure base_timestamp ws; ok (departure_line d))
            else ok other_line)
      else ok other_line

  -- Its assignments.
  unfoldable pub apply_delay_line : DelayLine → DelayState → DelayState
  unfolding arrival_time
  apply_delay_line (base_line t) s = record s { base_timestamp = t }
  apply_delay_line (departure_line d) s = record s {
    delays = s.delays ++ d.delay ∷ [];
    delaytimes = s.delaytimes ++ arrival_time d.timestamp d.delay ∷ [];
  }
  apply_delay_line other_line s = s

  unfoldable pub delay_loop : List Text → DelayState → Result DelayState
  unfolding strip read_delay_line apply_delay_line
  delay_loop [] s = ok s
  delay_loop (line ∷ lines) s = do
    l ← read_delay_line s.base_timestamp (strip line)
    delay_loop lines (apply_delay_line l s)

  unfoldable pub parse_mm_queue_delays : List Text → Result (List Float × List Float)
  unfolding delay_loop
  parse_mm_queue_delays lines = do s ← delay_loop lines delay_start; ok (s.delays, s.delaytimes)
