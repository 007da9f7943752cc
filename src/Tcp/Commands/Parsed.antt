-- ===== src/Tcp/Commands/Parsed.antt =====
-- The command line of runmm_multi.py as sender_receiver/sender.cc reads it.
use vatic_udp.Prelude.{
  ℕ, ◌≡◌, refl, ap, ◌∙◌, List, [], ◌∷◌, ◌++◌, Bool, true, false, some, ℤ, pos, Result, ok,
  Every-append,
}
use vatic_udp.Prelude.Results.{◌>>=◌}
use vatic_udp.Py.Text.{Text, codes, is_space, starts_with, words}
use vatic_udp.Py.Text.Words.{spaced, Word, words-spaced}
use vatic_udp.Py.Format.{format_one}
use vatic_udp.Py.Format.Fields.{is_brace, format_one-field}
use vatic_udp.Py.Decimal.{print_int}
use vatic_udp.Simulation.Multi.{Simulation, sender_command}
use vatic_udp.Tcp.Options.{
  Opt, defaults, Checked, goes_on, Invocation, take_options, take_operands, take_command,
  sender_main, IsGetopt, IsInt, IsAtoi,
}
use vatic_udp.Tcp.CommandLine.{
  print_int-Plain, print_nat-starts, flags, flags-Word, spaced-flags-NoBrace, getopt-flags,
  arguments, Every-of_none,
}
use vatic_udp.Tcp.Commands.{
  Wanted, wanted_mode, wanted_send, log_file, log_path, Readable, mode_opt, after_mode,
  options-flags, all_opts-Known,
}
use vatic_udp.Tcp.Commands.Taken.{take_mode_opt, take_block_opts, take_cc_opts, take_log_opts}

module _ (getopt : List Text → List Opt × List Text) (atoi : Text → ℤ)
    (can_open : Text → Bool) where
  -- The sender that a template starts with the address of the receiver.
  unfoldable pub started : Text → Text → Result (Checked Invocation)
  unfolding format_one words sender_main
  started template ip = format_one template ip >>= λ cmd.
      ok (sender_main atoi can_open getopt (arguments (words cmd)))

command_words : (sim : Simulation) (w : Wanted) (path : Text) (log : Bool) → List Text
unfolding after_mode
command_words sim w path log =
    print_int sim.port ∷ flags (mode_opt w ∷ after_mode sim.blksize sim.cc_algo (log_file log path))

sender_command-words :
    (sim : Simulation) (w : Wanted) (path : Text) (log : Bool)
    → sim.mode ≡ wanted_mode w
    → sender_command sim path log
      ≡ codes "sender_receiver/sender " ++ b'{' ∷ b'}' ∷ spaced (command_words sim w path log)
unfolding sender_command command_words codes
sender_command-words sim w path log h = rw h (
    options-flags (codes "sender_receiver/sender {} " ++ print_int sim.port) w sim.blksize
      sim.cc_algo log path)

-- The template has its field where the address goes, and no other brace.
formatted :
    (sim : Simulation) (w : Wanted) (port blksize : ℕ) (path ip : Text) (log : Bool)
    → Readable sim w port blksize path
    → format_one (sender_command sim path log) ip
      ≡ ok (codes "sender_receiver/sender " ++ ip ++ spaced (command_words sim w path log))
unfolding command_words codes
formatted sim w port blksize path ip log h = rw (sender_command-words sim w path log h.mode_is) (
    format_one-field (codes "sender_receiver/sender ") (spaced (command_words sim w path log)) ip
      (Every-of_none is_brace (codes "sender_receiver/sender ") refl)
      (
        refl,
        Every-append (λ c. is_brace c ≡ false) (print_int sim.port)
            (spaced (flags (mode_opt w ∷ after_mode sim.blksize sim.cc_algo (log_file log path))))
            (print_int-Plain sim.port).no_brace
            (spaced-flags-NoBrace
              (mode_opt w ∷ after_mode sim.blksize sim.cc_algo (log_file log path))
              (all_opts-Known w sim.blksize sim.cc_algo log path h.mode_fits h.cc_plain
                h.path_plain)),
      ))

split-command :
    (sim : Simulation) (w : Wanted) (port blksize : ℕ) (path ip : Text) (log : Bool)
    → Readable sim w port blksize path
    → Word ip
    → words (codes "sender_receiver/sender " ++ ip ++ spaced (command_words sim w path log))
      ≡ codes "sender_receiver/sender" ∷ ip ∷ command_words sim w path log
unfolding command_words codes
split-command sim w port blksize path ip log h k =
    words-spaced (codes "sender_receiver/sender") (ip ∷ command_words sim w path log)
      (record {
        not_nil = λ e. cc e;
        no_space = Every-of_none is_space (codes "sender_receiver/sender") refl;
      })
      (
        k,
        (
          (print_int-Plain sim.port).word,
          flags-Word (mode_opt w ∷ after_mode sim.blksize sim.cc_algo (log_file log path)) (
              all_opts-Known w sim.blksize sim.cc_algo log path h.mode_fits h.cc_plain
                h.path_plain),
        ),
      )

getopt-command :
    (getopt : List Text → List Opt × List Text)
    → IsGetopt getopt
    → (sim : Simulation) (w : Wanted) (port blksize : ℕ) (path ip : Text) (log : Bool)
    → Readable sim w port blksize path
    → starts_with ip (codes "-") ≡ false
    → getopt (ip ∷ command_words sim w path log) ≡ (
      mode_opt w ∷ after_mode sim.blksize sim.cc_algo (log_file log path),
      ip ∷ print_int sim.port ∷ [],
    )
unfolding command_words print_int
getopt-command getopt g sim w port blksize path ip log h k =
    let os = mode_opt w ∷ after_mode sim.blksize sim.cc_algo (log_file log path) in
    let known =
      all_opts-Known w sim.blksize sim.cc_algo log path h.mode_fits h.cc_plain h.path_plain in
    rw
      (
        g.operand ip (print_int sim.port ∷ flags os) k,
        h.port_is,
        g.operand (print_int (pos port)) (flags os) (print_nat-starts port),
        getopt-flags getopt g os known,
      )
      refl

module _ (getopt : List Text → List Opt × List Text) (atoi : Text → ℤ) (can_open : Text → Bool)
    (is_getopt : IsGetopt getopt) (is_atoi : IsAtoi atoi) where
  options-taken :
      (sim : Simulation) (w : Wanted) (port blksize : ℕ) (path : Text) (log : Bool)
      → Readable sim w port blksize path
      → can_open (log_path path) ≡ true
      → take_options atoi can_open defaults
          (mode_opt w ∷ after_mode sim.blksize sim.cc_algo (log_file log path))
        ≡ goes_on (record defaults {
          mode = some (wanted_send w);
          blksize = blksize;
          cc_algo = sim.cc_algo;
          logfile = log_file log path;
        })
  unfolding after_mode
  options-taken sim w port blksize path log h k = rw h.blksize_is (
      take_mode_opt atoi can_open is_atoi w
        (after_mode (pos blksize) sim.cc_algo (log_file log path)) h.mode_fits
      ∙ take_block_opts atoi can_open is_atoi (some (wanted_send w)) blksize _ h.blksize_positive
          h.blksize_fits
      ∙ take_cc_opts atoi can_open is_atoi (some (wanted_send w)) blksize sim.cc_algo _
      ∙ take_log_opts atoi can_open is_atoi (some (wanted_send w)) blksize sim.cc_algo log path k)

  main-command :
      (sim : Simulation) (w : Wanted) (port blksize : ℕ) (path ip : Text) (log : Bool)
      → Readable sim w port blksize path
      → can_open (log_path path) ≡ true
      → starts_with ip (codes "-") ≡ false
      → sender_main atoi can_open getopt (ip ∷ command_words sim w path log)
        ≡ goes_on (record {
          serv_ip = ip;
          serv_port = sim.port;
          settings = record defaults {
            mode = some (wanted_send w);
            blksize = blksize;
            cc_algo = sim.cc_algo;
            logfile = log_file log path;
          };
        })
  unfolding sender_main take_command take_operands
  main-command sim w port blksize path ip log h k j =
      let fits : IsInt sim.port = rw h.port_is h.port_fits in
      ap (take_command atoi can_open)
        (getopt-command getopt is_getopt sim w port blksize path ip log h j)
      ∙ rw (take_command, options-taken sim w port blksize path log h k, is_atoi sim.port fits) refl

  -- The sender that a simulation starts sends in the simulation's way, with its block size, its
  -- congestion control and its log, to the port of the receiver: for a simulation whose numbers fit
  -- in an `int` and whose names hold no white space and no braces, an address that is one word and
  -- does not begin with a dash, and a log that can be opened. A block size of 128 KiB is left out of
  -- the command, and is what the sender takes then.
  pub sender_command-started :
      (sim : Simulation) (w : Wanted) (port blksize : ℕ) (path ip : Text) (log : Bool)
      → Readable sim w port blksize path
      → can_open (log_path path) ≡ true
      → Word ip
      → starts_with ip (codes "-") ≡ false
      → started getopt atoi can_open (sender_command sim path log) ip
        ≡ ok (
            goes_on (record {
              serv_ip = ip;
              serv_port = sim.port;
              settings = record {
                mode = some (wanted_send w);
                blksize = blksize;
                cc_algo = sim.cc_algo;
                logfile = log_file log path;
                verbose = false;
              };
            }))
  unfolding started
  sender_command-started sim w port blksize path ip log h k i j =
      rw
        (
          formatted sim w port blksize path ip log h,
          split-command sim w port blksize path ip log h i,
        )
        (ap ok (main-command sim w port blksize path ip log h k j))
