-- ===== src/Tests/Plots.antt =====
-- Background traces and the plots of Vatic's logs, on small inputs with floats that are quotients.
use vatic_udp.Prelude.{
  ℕ, zero, suc, List, [], ◌∷◌, ◌≡◌, refl, Bool, true, false, not, if◌then◌else◌, Option, none, some,
  ℤ, pos, pos_part, length, map, ◌-ℤ◌, ◌*ℤ◌, ◌+ℤ◌, ltb_ℤ, floor_div, Result, ok, err,
  file_not_found_error,
}
use vatic_udp.Py.Decimal.{parse_int}
use vatic_udp.Py.Text.{Text, codes, text_eq}
use vatic_udp.BackgroundTrace.{
  Random, with_probes, cumsum_from, Trace, Entry, packet, probe, background, gen_trace,
}
use vatic_udp.BackgroundTrace.Probes.{packets, Wanted, gen_trace-Wanted}
use vatic_udp.VaticPlots.{Comparing, Curve, Files, columns, plot_thput, plot_vatic}
use vatic_udp.VaticPlots.Groups.{Group, all_sizes, total_of, rates, read_sizes, plot_thput-groups}
use vatic_udp.Tests.Samples.{fraction_floats, Fraction}

abbrev fraction_comparing : Comparing fraction_floats
fraction_comparing = record {
  add = λ x y. (x.0 *ℤ y.1 +ℤ y.0 *ℤ x.1, x.1 *ℤ y.1);
  less = λ x y. ltb_ℤ (x.0 *ℤ y.1) (y.0 *ℤ x.1);
}

abbrev take_entries : ℕ → List Entry → List Entry
take_entries zero es = []
take_entries (suc n) [] = []
take_entries (suc n) (e ∷ es) = e ∷ take_entries n es

-- Random numbers that are all 40
abbrev forties : ℕ → List ℕ
forties zero = []
forties (suc n) = 40 ∷ forties n

abbrev fixed_random : Random fraction_floats
fixed_random = record {
  add = fraction_comparing.add;
  reaches = λ n x. not (ltb_ℤ (pos n *ℤ x.1) x.0);
  trunc = λ x. ok (floor_div x.0 x.1);
  Generator = ℤ;
  seeded = λ n. ok n;
  draw = λ generator lamb n. ok (forties (pos_part n));
}

abbrev never : Text → Bool
never path = false

abbrev entries_of : Result (List Entry) → List Entry
entries_of (ok es) = es
entries_of (err e) = []

-- A second at 1 Mbps, with two probes each 50 ms
abbrev probe_options : Option (Text × Text)
probe_options = some (codes "50", codes "2")

probed : Trace
probed = record {
  makes_dir = true;
  path = codes "out/1Mbps-T50-bint2-blen1-seed0.trace";
  entries = entries_of (
      with_probes fraction_floats fixed_random (pos 50, pos 1) (pos 2) (pos 50, pos 1)
        (cumsum_from 0 (forties 83)));
}

gen_trace-probed :
    gen_trace fraction_floats fixed_random never
      (codes "1")
      (pos 1)
      probe_options
      (pos 0)
      (codes "out")
    ≡ ok probed
unfolding gen_trace probed cumsum_from parse_int floor_div ◌*ℤ◌ ◌+ℤ◌
gen_trace-probed = refl

gen_trace-Wanted_example :
    (ts : List ℕ) × (background fraction_floats fixed_random (codes "1") (pos 1) (pos 0) ≡ ok ts)
    × (packets probed.entries ≡ ts)
    × Wanted fraction_floats fixed_random probe_options ts probed.entries
gen_trace-Wanted_example =
    gen_trace-Wanted fraction_floats fixed_random never (codes "1") (pos 1) probe_options (pos 0)
      (codes "out") probed gen_trace-probed

-- The first two bursts stand before the second and the third packet.
first_entries :
    take_entries 7 probed.entries
    ≡ packet 40
      ∷ probe (pos 50)
      ∷ probe (pos 50)
      ∷ packet 80
      ∷ probe (pos 100)
      ∷ probe (pos 100)
      ∷ packet 120
      ∷ []
unfolding probed with_probes cumsum_from floor_div ◌*ℤ◌ ◌+ℤ◌
first_entries = refl

-- Two packets in the first bin of 100 ms, and one behind it
abbrev received : List Text
received = codes "1\t1000\t600\n" ∷ codes "2\t1090\t400\n" ∷ codes "3\t1150\t500\n" ∷ []

two_bins : Curve fraction_floats fraction_comparing
two_bins = record {
  xs = (pos 150, pos 1000) ∷ (pos 150, pos 1000) ∷ [];
  ys = (pos 8000, pos 100000) ∷ (pos 4000, pos 100000) ∷ [];
}

plot_thput-received :
    plot_thput fraction_floats fraction_comparing (pos 1000) (pos 100) received ≡ ok two_bins
unfolding plot_thput two_bins parse_int ◌*ℤ◌ ◌+ℤ◌ ◌-ℤ◌ codes
plot_thput-received = refl

plot_thput-groups_example :
    (sizes : List Fraction) × (groups : List (Group fraction_floats fraction_comparing))
    × (read_sizes fraction_floats fraction_comparing received ≡ ok sizes)
    × (all_sizes fraction_floats fraction_comparing groups ≡ sizes)
    × (rates fraction_floats fraction_comparing
          (pos 100)
          (map (total_of fraction_floats fraction_comparing) groups)
        ≡ ok two_bins.ys)
    × (length two_bins.xs ≡ length two_bins.ys)
plot_thput-groups_example =
    plot_thput-groups fraction_floats fraction_comparing (pos 1000) (pos 100) received two_bins
      plot_thput-received

-- The logs of a run without centroids
abbrev logs : Files
logs path =
    if text_eq path (codes "out/run_cwnd.dat")
    then ok (codes "1000\t4000\t0\t4000\n" ∷ [])
    else if text_eq path (codes "out/run_alpha.dat")
    then ok (codes "1000\t1\n" ∷ [])
    else err file_not_found_error

no_centroids :
    plot_vatic fraction_floats fraction_comparing logs (codes "out") (codes "run") (pos 0)
    ≡ err file_not_found_error
unfolding plot_vatic columns text_eq parse_int ◌*ℤ◌ ◌-ℤ◌
no_centroids = refl

-- Without the log of the window there is no figure and no error.
no_logs :
    plot_vatic fraction_floats fraction_comparing
      (λ path. err file_not_found_error)
      (codes "out")
      (codes "run")
      (pos 0)
    ≡ ok none
unfolding plot_vatic
no_logs = refl
