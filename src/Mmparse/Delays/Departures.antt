-- ===== src/Mmparse/Delays/Departures.antt =====
-- The two lists of `parse_mm_queue_delays` against the departures of the log.
use vatic_udp.Prelude.{
  List, [], ◌∷◌, ◌++◌, append-nil, append_assoc, ◌≡◌, refl, sym, ◌∙◌, map, ℤ, pos, Result, ok, err,
  ◌>>=◌, >>=_assoc,
}
use vatic_udp.Py.Text.{Text, strip}
use vatic_udp.Py.Floats.{Floats}
use vatic_udp.Mmparse.Delays.{
  DelayState, delay_start, arrival_time, Departure, DelayLine, base_line, departure_line,
  other_line, read_delay_line, apply_delay_line, delay_loop, parse_mm_queue_delays,
}

module _ (fl : Floats) where
  open fl use {Float}

  -- The base timestamp behind a line.
  abbrev base_after : DelayLine fl → ℤ → ℤ
  base_after (base_line t) base = t
  base_after _ base = base

  abbrev with_departure : DelayLine fl → List (Departure fl) → List (Departure fl)
  with_departure (departure_line d) ds = d ∷ ds
  with_departure _ ds = ds

  -- All departures that a log reports, each with the base timestamp that holds where it stands.
  unfoldable pub read_departures : ℤ → List Text → Result (List (Departure fl))
  read_departures base [] = ok []
  read_departures base (line ∷ lines) = do
    l ← read_delay_line fl base (strip line)
    ds ← read_departures (base_after l base) lines
    ok (with_departure l ds)

  -- What a state holds once these departures follow.
  abbrev holding : List (Departure fl) → DelayState fl → List Float × List Float
  holding ds s = (
    s.delays ++ map (λ (d : Departure fl). d.delay) ds,
    s.delaytimes ++ map (λ (d : Departure fl). arrival_time fl d.timestamp d.delay) ds,
  )

  delay_loop-read_departures :
      (lines : List Text) (s : DelayState fl)
      → (delay_loop fl lines s >>= λ t. ok (t.delays, t.delaytimes))
        ≡ (read_departures s.base_timestamp lines >>= λ ds. ok (holding ds s))
  unfolding delay_loop read_departures apply_delay_line
  delay_loop-read_departures [] s = rw (append-nil, append-nil)
  delay_loop-read_departures (line ∷ lines) s =
      go (λ l. delay_loop-read_departures lines (apply_delay_line fl l s))
        (read_delay_line fl s.base_timestamp (strip line))
    where
      go :
          ((l : DelayLine fl)
            → (delay_loop fl lines (apply_delay_line fl l s) >>= λ t. ok (t.delays, t.delaytimes))
              ≡ (read_departures (apply_delay_line fl l s).base_timestamp lines >>= λ ds.
                  ok (holding ds (apply_delay_line fl l s))))
          → (r : Result (DelayLine fl))
          → (r >>= (λ l. delay_loop fl lines (apply_delay_line fl l s)) >>= λ t.
              ok (t.delays, t.delaytimes))
            ≡ (r
                >>= (λ l. read_departures (base_after l s.base_timestamp) lines >>= λ ds.
                    ok (with_departure l ds))
                >>= λ ds. ok (holding ds s))
      go ih (err e) = refl
      go ih (ok (base_line t)) = ih (base_line t) ∙ sym (>>=_assoc (read_departures t lines) _ _)
      go ih (ok (departure_line d)) =
          simp append_assoc at (ih (departure_line d))
          ∙ sym (>>=_assoc (read_departures s.base_timestamp lines) _ _)
      go ih (ok other_line) =
          ih other_line ∙ sym (>>=_assoc (read_departures s.base_timestamp lines) _ _)

  -- The parser returns the delays of all departures of the log, in order, and for each its arrival
  -- time; it raises exactly what reading the departures raises.
  pub parse_mm_queue_delays-read_departures :
      (lines : List Text)
      → parse_mm_queue_delays fl lines ≡ (
          read_departures (pos 0) lines >>= λ ds. ok (
            map (λ (d : Departure fl). d.delay) ds,
            map (λ (d : Departure fl). arrival_time fl d.timestamp d.delay) ds,
          ))
  unfolding parse_mm_queue_delays
  parse_mm_queue_delays-read_departures lines = delay_loop-read_departures lines (delay_start fl)
