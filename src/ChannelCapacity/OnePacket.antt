-- ===== src/ChannelCapacity/OnePacket.antt =====
-- channelsCap.py on a trace with one packet on each line, beside `parse_trace_file` of mmparse.py.
use vatic_udp.Prelude.{
  ℕ, ◌+◌, ◌*◌, ◌≡◌, refl, sym, ap, arith, List, [], ◌∷◌, map, Bool-cases, inl, inr, ℤ, pos, ◌+ℤ◌,
  ◌*ℤ◌, ltb_ℤ, ok,
}
use mathlib.Core.List.{map-append}
use vatic_udp.Py.Text.{Text, strip}
use vatic_udp.Py.Decimal.{parse_int}
use vatic_udp.Py.Floats.{Floats}
use vatic_udp.Mmparse.TraceFile.{
  TraceState, trace_start, count_packet, trace_loop, parse_trace_file,
}
use vatic_udp.ChannelCapacity.{
  read_fields, CapacityState, capacity_start, megabits, add_line, capacity_loop,
}

-- The lines of a file of channelsCap.py with one packet each, and those of a mahimahi trace with the
-- same times
abbrev pub SameTimes : List Text → List Text → Type 0
SameTimes [] [] = Unit
SameTimes [] (l ∷ ls) = ⊥
SameTimes (k ∷ ks) [] = ⊥
SameTimes (k ∷ ks) (l ∷ ls) =
    ((t : ℤ) × (first : Text) × (second : Text) × (read_fields k ≡ ok (first, second))
      × (parse_int first ≡ ok t)
      × (parse_int second ≡ ok (pos 1))
      × (parse_int (strip l) ≡ ok t))
    × SameTimes ks ls

module _ (fl : Floats) where
  open fl use {Float, of_int, div, true_div}

  -- The bits of a second in megabits
  abbrev pub in_megabits : ℕ → Float
  in_megabits bits = div (true_div (pos bits) (pos 1000)) (of_int (pos 1000))

  abbrev as_capacity : TraceState → CapacityState fl
  as_capacity s = record { bw = map in_megabits s.bw; next_time = s.next_time; cnt = pos s.cnt }

  times_pos : (n : ℕ) → pos n *ℤ pos 1450 *ℤ pos 8 ≡ pos (n * 1450 * 8)
  unfolding ◌*ℤ◌
  times_pos n = ground arith

  megabits-pos : (n : ℕ) → megabits fl (pos n) ≡ in_megabits (n * 1450 * 8)
  unfolding megabits
  megabits-pos n = ap (λ x. div (true_div x (pos 1000)) (of_int (pos 1000))) (times_pos n)

  plus-one : (n : ℕ) → pos n +ℤ pos 1 ≡ pos (n + 1)
  unfolding ◌+ℤ◌
  plus-one n = ground arith

  add_line-same :
      (k first second : Text) (t : ℤ) (s : TraceState)
      → read_fields k ≡ ok (first, second)
      → parse_int first ≡ ok t
      → parse_int second ≡ ok (pos 1)
      → add_line fl k (as_capacity s) ≡ ok (as_capacity (count_packet 1450 t s))
  unfolding add_line count_packet
  add_line-same k first second t s h i j = elim (Bool-cases (ltb_ℤ (pos s.next_time) t)) [
    | inl e ↦
        rw (h, i, e)
          (ap (λ b. ok (record { bw = b; next_time = s.next_time + 1000; cnt = pos 0 }))
            (rw (megabits-pos s.cnt) (sym (map-append in_megabits s.bw ((s.cnt * 1450 * 8) ∷ [])))))
    | inr e ↦
        rw (h, i, e, j)
          (ap (λ c. ok (record { bw = map in_megabits s.bw; next_time = s.next_time; cnt = c }))
            (plus-one s.cnt))
  ]

  capacity_loop-same :
      (ks ls : List Text) (s : TraceState)
      → SameTimes ks ls
      → (u : TraceState) × (trace_loop 1450 ls s ≡ ok u)
        × (capacity_loop fl ks (as_capacity s) ≡ ok (as_capacity u))
  unfolding capacity_loop trace_loop
  capacity_loop-same [] [] s h = (s, refl, refl)
  capacity_loop-same [] (l ∷ ls) s h = elim h [ ]
  capacity_loop-same (k ∷ ks) [] s h = elim h [ ]
  capacity_loop-same (k ∷ ks) (l ∷ ls) s ((t, first, second, split, time, one, same), h) =
      let (u, loop, capacity) = capacity_loop-same ks ls (count_packet 1450 t s) h in
      (u, rw same loop, rw (add_line-same k first second t s split time one) capacity)

  -- For a file with one packet on each line, channelsCap.py and `parse_trace_file` find the same
  -- bandwidth in each second: the one in bits, for packets of 1450 bytes, the other the same in
  -- megabits.
  pub capacity_loop-parse_trace_file :
      (ks ls : List Text)
      → SameTimes ks ls
      → (bw : List ℕ) × (s : CapacityState fl) × (parse_trace_file 1450 ls ≡ ok bw)
        × (capacity_loop fl ks (capacity_start fl) ≡ ok s)
        × (s.bw ≡ map in_megabits bw)
  unfolding parse_trace_file
  capacity_loop-parse_trace_file ks ls h =
      let (u, loop, capacity) = capacity_loop-same ks ls trace_start h in
      (u.bw, as_capacity u, rw loop refl, capacity, refl)
