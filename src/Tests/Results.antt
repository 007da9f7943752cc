-- ===== src/Tests/Results.antt =====
-- The names of results, for a run of five seconds.
use vatic_udp.Prelude.{◌≡◌, refl, none, some, pos, ok, err, value_error}
use vatic_udp.Py.Text.{Text, codes}
use vatic_udp.Py.Decimal.{parse_int, print_nat}
use vatic_udp.Py.Decimal.RoundTrip.{parse_int-print_nat}
use vatic_udp.Py.Format.{splitext_root}
use vatic_udp.Simulation.Mm2.{Simulation, save_prefix}
use vatic_udp.ResultsTable.{ResultName, result_name}
use vatic_udp.ResultsTable.Names.{rtt_name}
use vatic_udp.ResultsTable.Undelayed.{result_name-undelayed}
use vatic_udp.ResultsTable.RoundTrip.{result_name-rtt_name}

abbrev timed : Simulation
timed = record {
  trace = codes "t.trace";
  port = pos 9999;
  mode = record { ttr = some (codes "5"); n_blks = none; filepath = none };
  blksize = pos 64;
  cc_algo = none;
  buf_len = some 30;
  mm_delay = some 7;
}

abbrev timed_prefix : Text
timed_prefix = codes "t_T5_64KiB_Q30_delay07"

save_prefix-timed : save_prefix timed none ≡ ok timed_prefix
unfolding save_prefix
save_prefix-timed = refl

result_name-rtt_name_example :
    result_name parse_int (rtt_name timed_prefix)
    ≡ ok (record {
      trace = codes "t";
      duration = pos 5;
      blksize = codes "64KiB";
      qsize = some (pos 30);
      mmdelay = pos 7;
    })
unfolding splitext_root print_nat codes
result_name-rtt_name_example =
    result_name-rtt_name parse_int timed 5 64 7 timed_prefix refl refl refl (refl, tt)
      (λ n e. parse_int-print_nat n) save_prefix-timed

abbrev direct : Simulation
direct = record timed { mm_delay = none }

abbrev direct_prefix : Text
direct_prefix = codes "t_T5_64KiB_Q30"

save_prefix-direct : save_prefix direct none ≡ ok direct_prefix
unfolding save_prefix
save_prefix-direct = refl

-- The name, with the delay that it does not hold
abbrev wanted : ResultName
wanted = record {
  trace = codes "t";
  duration = pos 5;
  blksize = codes "64KiB";
  qsize = some (pos 30);
  mmdelay = pos 0;
}

-- make_table.py fails with such a name.
result_name-direct : result_name parse_int (rtt_name direct_prefix) ≡ err value_error
unfolding result_name parse_int splitext_root
result_name-direct = refl

result_name-undelayed_example : ¬ (result_name parse_int (rtt_name direct_prefix) ≡ ok wanted)
unfolding splitext_root print_nat codes
result_name-undelayed_example =
    result_name-undelayed parse_int direct 5 64 direct_prefix wanted refl refl refl (refl, tt)
      save_prefix-direct
