-- ===== src/ResultsTable/RoundTrip.antt =====
-- The names that runmm2.py gives to its results, read back by make_table.py.
use vatic_udp.Prelude.{
  ℕ, Option-cases, inl, inr, [], ◌∷◌, ◌++◌, ◌≡◌, Option, none, some, ℤ, pos, Result, ok,
}
use vatic_udp.Py.Text.{Text, codes, drop}
use vatic_udp.Py.Text.Cuts.{Lacks, joined, split_max-joined}
use vatic_udp.Py.Decimal.{print_nat}
use vatic_udp.Py.Format.{splitext_root}
use vatic_udp.Simulation.Mm2.{Simulation, active_delay, save_prefix}
use vatic_udp.ResultsTable.{result_name}
use vatic_udp.ResultsTable.Names.{
  rtt_name, ending, queued, unqueued, queued-Lacks, unqueued-Lacks, read_name-parts,
  contains-queued, contains-unqueued, queue_parts, delay_parts, rtt_name-save_prefix,
}

module _ (root : Text) (seconds blk d : ℕ) (plain : Lacks b'_' root) where
  -- The name of a run with a queue, and of one without.
  result_name-queued :
      (f : Text → Result ℤ) (n : ℕ)
      → f (print_nat n) ≡ ok (pos n)
      → result_name f (joined b'_' (queued root seconds blk d plain n ++ ending ∷ []))
        ≡ ok (record {
          trace = root;
          duration = pos seconds;
          blksize = print_nat blk ++ codes "KiB";
          qsize = some (pos n);
          mmdelay = pos d;
        })
  unfolding result_name drop codes
  result_name-queued f n reads =
      rw
        (
          contains-queued root seconds blk d plain n,
          split_max-joined b'_' (queued root seconds blk d plain n) ending
              (queued-Lacks root seconds blk d plain n),
          reads,
        )
        (read_name-parts root seconds blk d plain (some (pos n)))

  result_name-unqueued :
      (f : Text → Result ℤ)
      → result_name f (joined b'_' (unqueued root seconds blk d plain ++ ending ∷ []))
        ≡ ok (record {
          trace = root;
          duration = pos seconds;
          blksize = print_nat blk ++ codes "KiB";
          qsize = none;
          mmdelay = pos d;
        })
  unfolding result_name drop codes
  result_name-unqueued f =
      rw
        (
          contains-unqueued root seconds blk d plain,
          split_max-joined b'_' (unqueued root seconds blk d plain) ending
              (unqueued-Lacks root seconds blk d plain),
        )
        (read_name-parts root seconds blk d plain none)

abbrev pub queue_size : Option ℕ → Option ℤ
queue_size none = none
queue_size (some n) = some (pos n)

-- What runmm2.py and plot.py write in the name of a timed run's file with a delay, make_table.py reads
-- back, if the trace's name holds no underscore and `int(float(text))` reads the queue's size back.
pub result_name-rtt_name :
    (float_int : Text → Result ℤ) (sim : Simulation) (seconds blk d : ℕ) (p : Text)
    → sim.mode.ttr ≡ some (print_nat seconds)
    → sim.blksize ≡ pos blk
    → active_delay sim.mm_delay ≡ some d
    → Lacks b'_' (splitext_root sim.trace)
    → ((n : ℕ) → sim.buf_len ≡ some n → float_int (print_nat n) ≡ ok (pos n))
    → save_prefix sim none ≡ ok p
    → result_name float_int (rtt_name p)
      ≡ ok (record {
        trace = splitext_root sim.trace;
        duration = pos seconds;
        blksize = print_nat blk ++ codes "KiB";
        qsize = queue_size sim.buf_len;
        mmdelay = pos d;
      })
unfolding queue_parts delay_parts
result_name-rtt_name float_int sim seconds blk d p t b w plain reads h =
    elim (Option-cases sim.buf_len) [
      | inl e ↦
          rw (rtt_name-save_prefix sim seconds blk (some d) p t b w h, e)
            (result_name-unqueued (splitext_root sim.trace) seconds blk d plain float_int)
      | inr (n, e) ↦
          rw (rtt_name-save_prefix sim seconds blk (some d) p t b w h, e)
            (result_name-queued (splitext_root sim.trace) seconds blk d plain float_int n
              (reads n e))
    ]
