-- ===== src/BackgroundTrace.antt =====
-- generate_trace.py: a trace of background packets at random times, with bursts of probes.
pub mod Probes
use vatic_udp.Prelude.{
  ℕ, zero, suc, ◌+◌, List, [], ◌∷◌, ◌++◌, map, replicate, Bool, true, false, not, if◌then◌else◌,
  Option, none, some, ℤ, pos, pos_part, ◌*ℤ◌, Result, ok, err, ◌>>=◌, ◌>>◌, zero_division_error,
}
use vatic_udp.Py.Text.{Text, codes}
use vatic_udp.Py.Decimal.{parse_int, print_nat, print_int}
use vatic_udp.Py.Format.{path_join}
use vatic_udp.Py.Floats.{Floats, float_quotient}

-- What else the script does with floats, and numpy's generator of random numbers. `draw` is
-- `np.random.poisson(lamb, num_packets)`.
pub record Random (fl : Floats) : Type 1 where
  pub add : fl.Float → fl.Float → fl.Float
  -- `n >= x`
  pub reaches : ℕ → fl.Float → Bool
  -- `int(x)`
  pub trunc : fl.Float → Result ℤ
  pub Generator : Type 0
  pub seeded : ℤ → Result Generator
  pub draw : Generator → fl.Float → ℤ → Result (List ℕ)

-- A line of the trace: a packet, or a probe, which is marked with a star.
pub data Entry : Type 0 where
  packet : ℕ → Entry
  probe : ℤ → Entry

pub record Trace : Type 0 where
  pub makes_dir : Bool
  pub path : Text
  pub entries : List Entry

-- `np.cumsum`, from a sum on
unfoldable pub cumsum_from : ℕ → List ℕ → List ℕ
cumsum_from t [] = []
cumsum_from t (d ∷ ds) = (t + d) ∷ cumsum_from (t + d) ds

unfoldable pub line_of : Entry → Text
unfolding codes print_nat print_int
line_of (packet t) = print_nat t ++ codes "\n"
line_of (probe t) = print_int t ++ codes "*\n"

module _ (fl : Floats) (rand : Random fl) where
  open fl use {Float, of_int, parse_float, mul}

  -- The loop over the packets, from the next probe's time on
  unfoldable pub with_probes : Float → ℤ → Float → List ℕ → Result (List Entry)
  with_probes interval len point [] = ok []
  with_probes interval len point (t ∷ ts) = elim (rand.reaches t point) [
    | true ↦ do
      at ← rand.trunc point
      rest ← with_probes interval len (rand.add point interval) ts
      ok (replicate (pos_part len) (probe at) ++ packet t ∷ rest)
    | false ↦ do rest ← with_probes interval len point ts; ok (packet t ∷ rest)
  ]

  -- The times of the packets
  unfoldable pub background : Text → ℤ → ℤ → Result (List ℕ)
  unfolding cumsum_from
  background send_rate duration seed = do
    generator ← rand.seeded seed
    rate ← parse_float send_rate
    packets ←
        rand.trunc (fl.div (mul (mul rate (of_int (pos 5000))) (of_int duration)) (of_int (pos 60)))
    lamb ← float_quotient fl (mul (of_int (pos 1000)) (of_int duration)) (of_int packets)
    draws ← rand.draw generator lamb packets
    ok (cumsum_from 0 draws)

  -- `gen_trace`, up to the writing of the lines; `exists` answers `os.path.exists`.
  unfoldable pub gen_trace :
      (Text → Bool) → Text → ℤ → Option (Text × Text) → ℤ → Text → Result Trace
  unfolding codes print_int path_join background with_probes
  gen_trace exists send_rate duration probe_args seed savedir = do
    ts ← background send_rate duration seed
    elim probe_args [
      | none ↦ ok (record {
        makes_dir = not (exists savedir);
        path = path_join savedir (
            send_rate
            ++ codes "Mbps-T"
            ++ print_int duration
            ++ codes "-seed"
            ++ print_int seed
            ++ codes ".trace");
        entries = map packet ts;
      })
      | some (interval_text, length_text) ↦ do
        interval ← parse_float interval_text
        len ← parse_int length_text
        entries ← with_probes interval len interval ts
        ok (record {
          makes_dir = not (exists savedir);
          path = path_join savedir (
              send_rate
              ++ codes "Mbps-T"
              ++ interval_text
              ++ codes "-bint"
              ++ length_text
              ++ codes "-blen"
              ++ print_int duration
              ++ codes "-seed"
              ++ print_int seed
              ++ codes ".trace");
          entries = entries;
        })
    ]

  -- The text of the file
  unfoldable pub trace_lines : Trace → List Text
  unfolding line_of
  trace_lines trace = map line_of trace.entries
