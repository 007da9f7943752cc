-- ===== src/LogPlots/Captures.antt =====
-- `plot_tput_delay_tcpdump` of plot.py: throughput and round-trip times from packet captures.
pub mod Ends
use vatic_udp.Prelude.{
  ℕ, List, [], ◌∷◌, ◌++◌, map, Bool, true, false, if◌then◌else◌, Option, none, some, Result, ok,
  err, ◌>>=◌, name_error, index_error, unbound_local_error, ℤ, pos,
}
use vatic_udp.Py.Text.{Text, codes}
use vatic_udp.Py.Format.{splitext_root}
use vatic_udp.Py.Floats.{Floats}
use vatic_udp.Mmparse.Throughput.Report.{Report, parse_mm_throughput}
use vatic_udp.LogPlots.{
  Skip, Series, Table, Bin, Pandas, table_of, capacities, throughputs, times, zip_with,
}
use vatic_udp.LogPlots.TputDelay.{no_skip, shown_skip, summary}

unfoldable pub receiver_tput_savepath : Text → Text
unfolding codes splitext_root
receiver_tput_savepath receiver_pcap = splitext_root receiver_pcap ++ codes "_tput.csv"

unfoldable pub rtt_savepath : Text → Text
unfolding codes splitext_root
rtt_savepath sender_pcap = splitext_root sender_pcap ++ codes "_RTT.csv"

-- `tput_cmd.format(receiver_pcap, server_ip, receiver_tput_savepath)`
unfoldable pub tput_command : Text → Text → Text
unfolding codes receiver_tput_savepath
tput_command receiver_pcap server_ip =
    codes "tshark -r "
    ++ receiver_pcap
    ++ codes " -Y \"ip.dst=="
    ++ server_ip
    ++ codes "\" -T fields -e frame.time_epoch -e frame.len -E separator=, > "
    ++ receiver_tput_savepath receiver_pcap

-- `rtt_cmd.format(sender_pcap, server_ip, rtt_savepath)`
unfoldable pub rtt_command : Text → Text → Text
unfolding codes rtt_savepath
rtt_command sender_pcap server_ip =
    codes "tshark -r "
    ++ sender_pcap
    ++ codes " -Y \"tcp.analysis.ack_rtt && ip.src=="
    ++ server_ip
    ++ codes "\" -T fields -e frame.time_epoch -e tcp.analysis.ack_rtt -E separator=, > "
    ++ rtt_savepath sender_pcap

-- The names of the figure and of the table
unfoldable pub table_name : Text → Text
unfolding codes splitext_root
table_name mmlogfilepath = splitext_root mmlogfilepath ++ codes "_mmtput.csv"

module _ (fl : Floats) (pd : Pandas fl) where
  open fl use {Float, of_int, sub, mul, div}

  -- What the figure shows; of the numbers in its titles only the utilization
  pub record CaptureFigure : Type 0 where
    pub suptitle : Text
    pub capacity : Series fl
    pub throughput : Series fl
    pub captured : Series fl
    pub rtts : Series fl
    pub util : Float

  -- The files that are written: the figure, and a table behind comment lines
  pub data Saved : Type 0 where
    figure : Text → CaptureFigure → Saved
    table : Text → List Text → Table fl → Saved

  unfoldable pub figure_name : Text → Skip fl → Text
  unfolding codes splitext_root no_skip shown_skip
  figure_name mmlogfilepath skip =
      if no_skip fl pd skip
      then splitext_root mmlogfilepath ++ codes ".png"
      else splitext_root mmlogfilepath ++ (codes "_skip" ++ shown_skip fl pd skip ++ codes ".png")

  -- The columns of the captures: round-trip times in milliseconds and megabits, by the second
  unfoldable pub rtt_series : Series fl → Series fl
  rtt_series rows = map (λ r. (r.0, mul r.1 (of_int (pos 1000)))) (pd.second_mean rows)

  unfoldable pub tput_series : Series fl → Series fl
  tput_series rows =
      map (λ r. (r.0, div (mul r.1 (of_int (pos 8))) (of_int (pos 1000000)))) (pd.second_sum rows)

  -- `df.index - df.index[0]`, which raises for an empty table
  from_first : Series fl → Result (Series fl)
  from_first [] = err index_error
  from_first (r ∷ rows) = ok (map (λ row. (sub row.0 r.0, row.1)) (r ∷ rows))

  shifted : Float → Series fl → Series fl
  shifted start = map (λ row. (sub row.0 start, row.1))

  -- The name `mmmlogfilepath`, which the default of the title reads, is bound nowhere.
  title_of : Option Text → Result Text
  title_of none = err name_error
  title_of (some t) = ok t

  unfoldable pub figure_of :
      Report fl → Series fl → Series fl → Table fl → Option Text → Result CaptureFigure
  unfolding from_first shifted title_of
  figure_of report rtts tput mm title = do
    from_start ← from_first rtts
    suptitle ← title_of title
    ok (record {
      suptitle = suptitle;
      capacity = zip_with (times fl mm) (capacities fl mm);
      throughput = zip_with (times fl mm) (throughputs fl mm);
      captured = shifted (of_int report.init_timestamp) tput;
      rtts = from_start;
      util = pd.utilization (zip_with (throughputs fl mm) (capacities fl mm));
    })

  -- `savepath` is bound only if the figure is saved, and the table is written under it in any case.
  unfoldable pub save_files :
      Text → Skip fl → Bool → CaptureFigure → Report fl → Table fl → Result (List Saved)
  unfolding figure_name table_name summary
  save_files mmlogfilepath skip true fig report mm = ok (
      figure (figure_name mmlogfilepath skip) fig
      ∷ table (table_name mmlogfilepath) (summary fl pd report) mm
      ∷ [])
  save_files mmlogfilepath skip false fig report mm = err unbound_local_error

  module _ (read_csv : Text → Result (Series fl)) (lines : List Text) where
    -- Behind the two commands: `read_csv` reads what they have written, and the lines are those of the
    -- log of mahimahi.
    unfoldable pub plot_captures :
        Text → Text → Text → Skip fl → Option Text → Bool → Result (List Saved)
    unfolding rtt_savepath receiver_tput_savepath rtt_series tput_series parse_mm_throughput
        table_of figure_of save_files
    plot_captures sender_pcap receiver_pcap mmlogfilepath skip title save = do
      rtt_rows ← read_csv (rtt_savepath sender_pcap)
      tput_rows ← read_csv (receiver_tput_savepath receiver_pcap)
      report ← parse_mm_throughput fl (pos 1000) lines
      rtts ← pd.keep_series skip (rtt_series rtt_rows)
      tput ← pd.keep_series skip (tput_series tput_rows)
      mm ← pd.keep_table skip (table_of fl report)
      fig ← figure_of report rtts tput mm title
      save_files mmlogfilepath skip save fig report mm

    -- The commands that are run, and how the call ends
    unfoldable pub plot_tput_delay_tcpdump :
        Text → Text → Text → Text → Skip fl → Option Text → Bool → List Text × Result (List Saved)
    unfolding tput_command rtt_command plot_captures
    plot_tput_delay_tcpdump sender_pcap receiver_pcap server_ip mmlogfilepath skip title save = (
      tput_command receiver_pcap server_ip ∷ rtt_command sender_pcap server_ip ∷ [],
      plot_captures sender_pcap receiver_pcap mmlogfilepath skip title save,
    )
