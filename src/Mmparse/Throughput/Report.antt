-- ===== src/Mmparse/Throughput/Report.antt =====
-- The end of `parse_mm_throughput`: averages, and the table of the bins in Mbps.
pub mod Outcome
use vatic_udp.Prelude.{
  ℕ, List, ◌≡◌, refl, ◌↔◌, arith, map, Option, none, some, ℤ, pos, ◌*ℤ◌, eqb_ℤ, Result, ok, err,
  ◌>>=◌, or_raise, type_error, unbound_local_error, zero_division_error, false, true, length,
  >>=-eq-ok, Bool-cases, inl, inr,
}
use vatic_udp.Py.Text.{Text}
use vatic_udp.Py.Floats.{Floats, int_quotient, float_quotient}
use vatic_udp.Mmparse.Throughput.{Row, TputState, tput_start, tput_loop}

module _ (fl : Floats) where
  open fl use {Float, of_int, mul, div, true_div, is_zero, round}

  -- `result_dict`, with the table's index and columns. The division of the table by a number and
  -- the pandas frame around it are numpy's and pandas': row by row, nothing else.
  pub record Report : Type 0 where
    pub init_timestamp : ℤ
    pub duration_ms : ℤ
    pub capacity_avg : Float
    pub ingress_avg : Float
    pub throughput_avg : Float
    pub seconds : List Float
    pub capacity : List Float
    pub ingress : List Float
    pub throughput : List Float
    pub utilization : Float

  -- `(bits / ms_elapsed) / 1000.0`
  unfoldable pub average : ℤ → ℤ → Result Float
  average bits ms_elapsed = do
    per_ms ← int_quotient fl bits ms_elapsed
    ok (div per_ms (of_int (pos 1000)))

  unfoldable pub scaled : ℤ → ℤ → Float
  scaled ms_per_bin bits = div (of_int bits) (mul (of_int ms_per_bin) (of_int (pos 1000)))

  -- `result_dict`, from the state behind the loop and what the report computes before it.
  abbrev pub result_dict : ℤ → TputState → ℤ → ℤ → Float → Float → Float → Float → Report
  result_dict ms_per_bin s ms_elapsed init cap_avg ingress_avg tput_avg used = record {
    init_timestamp = round (true_div init (pos 1000));
    duration_ms = ms_elapsed;
    capacity_avg = cap_avg;
    ingress_avg = ingress_avg;
    throughput_avg = tput_avg;
    seconds = map (λ i. true_div (pos i *ℤ ms_per_bin) (pos 1000)) s.ms_index;
    capacity = map (λ r. scaled ms_per_bin r.cap) s.rows;
    ingress = map (λ r. scaled ms_per_bin r.arr) s.rows;
    throughput = map (λ r. scaled ms_per_bin r.dep) s.rows;
    utilization = mul used (of_int (pos 100));
  }

  -- What follows the loop.
  unfoldable pub report : ℤ → TputState → Result Report
  unfolding average scaled ◌*ℤ◌
  report ms_per_bin s = do
    ms_elapsed ← or_raise unbound_local_error s.ms_elapsed
    cap_avg ← average s.cap_total ms_elapsed
    ingress_avg ← average s.arr_total ms_elapsed
    tput_avg ← average s.dep_total ms_elapsed
    init ← or_raise type_error s.init_timestamp
    used ← float_quotient fl tput_avg cap_avg
    ok (result_dict ms_per_bin s ms_elapsed init cap_avg ingress_avg tput_avg used)

  -- `parse_mm_throughput(filepath, ms_per_bin)`
  unfoldable pub parse_mm_throughput : ℤ → List Text → Result Report
  unfolding tput_loop report
  parse_mm_throughput ms_per_bin lines = do
    s ← tput_loop ms_per_bin lines tput_start
    report ms_per_bin s
