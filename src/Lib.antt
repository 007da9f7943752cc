-- ===== src/Lib.antt =====
-- Simulation of mahimahi links for the Vatic congestion control, and the programs around it.
--
-- The repository's Python scripts run a sender and a receiver over a link that mahimahi emulates,
-- read the log that mahimahi writes, and plot capacity, throughput and delay. This library models
-- the scripts that run simulations, the parsers of the logs, what the plots show and save, and both
-- pairs of programs that send over the link: Vatic over UDP, and the sender and receiver over TCP.
--
-- Modules, by the file they model:
-- + Prelude, Py: what the rest shares. Py has the parts of Python that the scripts use: texts as
--   lists of code points (Py.Text), int() and str() in decimal (Py.Decimal), str.format with one
--   argument and os.path (Py.Format). Py.Floats is an interface: float arithmetic is a parameter of
--   the parsers.
-- + Utils: utils.py (get_bytes_nice, frac_type, unsigned_int, positive_int).
-- + Mmparse.TraceFile, Mmparse.Delays, Mmparse.Throughput, Mmparse.LogSimple: parse_trace_file,
--   parse_mm_queue_delays, parse_mm_throughput and parse_mm_log_simple of mmparse.py. A file is the
--   list of its lines. A loop is a recursion over the lines with the local variables as a record;
--   each line is read first (the steps that can raise) and then applied (the assignments). The part
--   of parse_mm_throughput behind the loop is Mmparse.Throughput.Report.
-- + Simulation.Mode: the choice of a sending mode in the constructors of runmm.py, runmm2.py and
--   runmm_multi.py. Simulation.Effects: what a run does to the world, as a list of effects with the
--   end of the run, and the monad for it.
-- + Simulation.Multi: runmm_multi.py. Simulation.Single: runmm.py. Simulation.Mm2: runmm2.py.
--   Simulation.Vatic: runmmVatic.py, with GetBaseTime of PlotvaticTrace.py. Simulation.Batch:
--   script_runmm2.py. Multi.Main.main, Mm2.Main.main, Single.main and Batch.main are the code behind
--   the command line, from the parsed options on.
-- + ResultsTable: generate_results_table of make_table.py, from the list of files on.
--   ResultsTable.Names has the names that runmm2.py and plot.py give to results.
-- + BackgroundTrace: gen_trace of generate_trace.py; numpy's generator is the interface Random.
-- + VaticPlots: PlotThput, PlotRtts, PlotTraffic and PlotVatic of PlotvaticTrace.py, up to the curves
--   that are drawn.
-- + Vatic: the sender of vatic/src, Vatic.cpp, with the structs of Vatic.h, ConfUtils.h and
--   PacketUtils.h. Vatic has the state and the constructor, Vatic.Sending has SendPdus and
--   ReceiveSdu, Vatic.Acks has Receive and ReportAck, Vatic.Centroids has RecomputeCentroids,
--   UpdateAlpha and what ReportAck learns. Vatic.Steps is the step relation of the threads.
--   Vatic.Client is Receive of Client.cpp, and Vatic.Link has both ends on a link. A number
--   of 32 or 64 bits is a natural number with its wrap-around written out; Vatic.Floating is the
--   interface for double. The map of packets in flight is a list in the order of the ids.
-- + BatchRuns: runVerus.py and runCopa.py. RunScript: run.py, which they start.
-- + ChannelCapacity: channelsCap.py.
-- + LogPlots: plot.py. LogPlots.Channel is plot_bgtrace, LogPlots.TputDelay is plot_tput_delay,
--   LogPlots.Captures is plot_tput_delay_tcpdump, and LogPlots.Dispatch is the code behind the
--   command line. What pandas computes from a table is the interface Pandas.
-- + Tcp: the programs of sender_receiver. Tcp.Options is the command line of sender.cc, with getopt
--   and atoi as parameters that have the laws IsGetopt and IsAtoi; Tcp.Sending is send_nblocks and
--   send_ttr, and Tcp.FromTrace is send_fromtrace with strtol as a parameter. Tcp.Listening is the
--   command line of receiver.cc, with the room for the name of its log, and the loop that accepts
--   connections, and Tcp.Receiving is its log. Tcp.CommandLine and Tcp.Commands join the programs to
--   the command lines that runmm_multi.py and runmm2.py write, and Tcp.RoundTrip joins sender and
--   receiver. What mahimahi's shell makes of the command of runmm2.py is a parameter with the law
--   IsShell. An unsigned int has its wrap-around written out; the totals of 64 bits are unbounded.
-- + Tests: the theorems below at concrete inputs, and tests of the definitions.
--
-- A call that may raise returns a Result with one of Python's kinds of exception. Programs that a
-- run starts and shell commands are effects without an answer. A call of the plotting code at the
-- end of a run is an effect that may raise: how it ends depends on the files that the processes of
-- the run leave, and is the parameter PlotEnds of a run. LogPlots.Captures.Ends fills it with
-- plot_tput_delay_tcpdump of plot.py. Whether a path exists is a function from paths, and the log
-- that runmmVatic.py reads back is a function from paths to lines. Console messages and progress
-- bars are left out. White space, digits and word characters are those of ASCII, and int() reads
-- decimal digits with single underscores. Integers are unbounded, as in Python; the counts of a
-- trace and sizes in bytes are natural numbers.
--
-- All loops are structural recursions over lines or counts. The printing of a number runs on fuel:
-- Py.Decimal.digits takes one round for each digit and is given one round more than the
-- number itself, which is enough (Py.Decimal.digits-fuel). The loop of SendPdus runs for as many
-- rounds as it has bytes to send; every round sends one byte at least.
--
-- The loops of send_nblocks and send_ttr run on fuel, one round for each block and one more:
-- enough for every number of blocks below 2 ^ 32 - 1 (Tcp.Sending.Ends), and no fuel is enough for
-- 2 ^ 32 - 1 blocks.
--
-- Not modelled: the calls of matplotlib that lay out figures, and the statistics of make_table.py;
-- of vatic/src the traffic source, the programs around sender and client, and their log files; of
-- sender_receiver the socket calls. The bytes of a packet and of the application's buffer are left
-- out, and so are the times of the throughput counters. MSG_ASSERT of Vatic is empty unless the
-- build defines LOG_ENABLED, which the makefile does not: what sendto returns is ignored, and an
-- unknown acknowledgement ends the process by the exception of at(). parse_mm_log_simple raises
-- before its loop, since mmparse.py does not import tqdm; the code behind is translated as
-- parse_lines, with re.match on the line that names the queue as a parameter. What the child of
-- receiver.cc does with the name of its log is left out.
pub mod Prelude
pub mod Py
pub mod Utils
pub mod Mmparse
pub mod Simulation
pub mod Vatic
pub mod ResultsTable
pub mod BackgroundTrace
pub mod VaticPlots
mod Tests
pub mod Tcp
pub mod LogPlots
pub mod ChannelCapacity
pub mod BatchRuns
pub mod RunScript
