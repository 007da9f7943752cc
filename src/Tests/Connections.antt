-- ===== src/Tests/Connections.antt =====
-- The TCP sender and receiver at concrete inputs, with an `atoi` and a `getopt` that have the laws.
use vatic_udp.Prelude.{
  ℕ, suc, ◌≡◌, ◌≢◌, refl, ap, ◌∙◌, arith, List, [], ◌∷◌, true, false, ◌==◌, if◌then◌else◌, none,
  some, ℤ, pos, negsuc, ◌-ℤ◌, Result, ok, err,
}
use vatic_udp.Py.Text.{Text, codes, is_space, starts_with, words}
use vatic_udp.Py.Text.Words.{Word}
use vatic_udp.Py.Format.Fields.{is_brace}
use vatic_udp.Py.Format.{format_one, path_join}
use vatic_udp.Py.Decimal.{print_nat, print_int, parse_int}
use vatic_udp.Py.Decimal.RoundTrip.{parse_int-print_nat}
use vatic_udp.Simulation.Multi
use vatic_udp.Simulation.Mm2
use vatic_udp.Tcp.Options.{Opt, to_unsigned, n_blocks, ttr, goes_on, IsGetopt, IsAtoi}
use vatic_udp.Tcp.CommandLine.{Plain, any_char, Every-of_none, print_nat-starts, arguments}
use vatic_udp.Tcp.Commands.{wanted_mode, blocks, for_seconds, Readable}
use vatic_udp.Tcp.Commands.Parsed.{started, sender_command-started}
use vatic_udp.Tcp.Commands.Default.{as_multi, quotable, shell_started, sender_command-default}
use vatic_udp.Tcp.Listening.{receiver_main, connection, interrupted, Event}
use vatic_udp.Tcp.Listening.Commands.{serves, receiver_command-one}

value : Result ℤ → ℤ
value (ok n) = n
value (err e) = pos 0

test_atoi : Text → ℤ
unfolding parse_int value
test_atoi [] = pos 0
test_atoi (c ∷ t) = if c == b'-' then pos 0 -ℤ value (parse_int t) else value (parse_int (c ∷ t))

test_atoi-unsigned :
    (t : Text) → starts_with t (codes "-") ≡ false → test_atoi t ≡ value (parse_int t)
unfolding test_atoi starts_with codes
test_atoi-unsigned [] h = refl
test_atoi-unsigned (c ∷ t) h = ground arith

test_atoi-IsAtoi : IsAtoi test_atoi
unfolding test_atoi print_int ◌-ℤ◌ value
test_atoi-IsAtoi (pos n) h =
    test_atoi-unsigned (print_nat n) (print_nat-starts n) ∙ ap value (parse_int-print_nat n)
test_atoi-IsAtoi (negsuc n) h = rw (parse_int-print_nat (suc n)) (ground arith)

letter : Text → ℕ
letter (d ∷ c ∷ t) = c
letter other = b'?'

test_getopt : List Text → List Opt × List Text
unfolding starts_with codes letter
test_getopt [] = ([], [])
test_getopt (w ∷ []) = if starts_with w (codes "-") then ((b'?', w) ∷ [], []) else ([], w ∷ [])
test_getopt (w ∷ a ∷ ws) =
    let taken = test_getopt ws in
    let kept = test_getopt (a ∷ ws) in
    if starts_with w (codes "-") then ((letter w, a) ∷ taken.0, taken.1) else (kept.0, w ∷ kept.1)

test_getopt-operand :
    (w : Text) (ws : List Text)
    → starts_with w (codes "-") ≡ false
    → test_getopt (w ∷ ws) ≡ ((test_getopt ws).0, w ∷ (test_getopt ws).1)
unfolding test_getopt
test_getopt-operand w [] h = rw h refl
test_getopt-operand w (a ∷ ws) h = rw h refl

test_getopt-IsGetopt : IsGetopt test_getopt
unfolding test_getopt codes starts_with
test_getopt-IsGetopt = record {
  at_end = refl;
  operand = test_getopt-operand;
  option = λ c arg ws h. refl;
}

text-Plain :
    (t : Text) → t ≢ [] → any_char is_space t ≡ false → any_char is_brace t ≡ false → Plain t
text-Plain t h k l = record {
  word = record { not_nil = h; no_space = Every-of_none is_space t k };
  no_brace = Every-of_none is_brace t l;
}

abbrev five_blocks : Multi.Simulation
five_blocks = record {
  trace = codes "lte";
  port = pos 9999;
  n_senders = pos 1;
  mode = wanted_mode (blocks (pos 5));
  blksize = pos 64;
  cc_algo = some (codes "cubic");
  buf_len = none;
}

five_blocks-Readable : Readable five_blocks (blocks (pos 5)) 9999 64 (codes "out/lte")
unfolding codes
five_blocks-Readable = record {
  mode_is = refl;
  mode_fits = omega arith;
  port_is = refl;
  port_fits = omega arith;
  blksize_is = refl;
  blksize_positive = omega arith;
  blksize_fits = omega arith;
  cc_plain = text-Plain (codes "cubic") (λ e. cc e) refl refl;
  path_plain = text-Plain (codes "out/lte_sender.log") (λ e. cc e) refl refl;
}

abbrev address : Text
address = codes "100.64.0.1"

address-Word : Word address
unfolding codes
address-Word = (text-Plain address (λ e. cc e) refl refl).word

address-starts : starts_with address (codes "-") ≡ false
unfolding starts_with codes
address-starts = refl

sender_command-started_example :
    started test_getopt test_atoi
      (λ p. true)
      (Multi.sender_command five_blocks (codes "out/lte") true)
      address
    ≡ ok (
        goes_on (record {
          serv_ip = address;
          serv_port = pos 9999;
          settings = record {
            mode = some (n_blocks 5);
            blksize = 64;
            cc_algo = some (codes "cubic");
            logfile = some (codes "out/lte_sender.log");
            verbose = false;
          };
        }))
unfolding codes to_unsigned
sender_command-started_example =
    sender_command-started test_getopt test_atoi (λ p. true) test_getopt-IsGetopt test_atoi-IsAtoi
      five_blocks (blocks (pos 5)) 9999 64 (codes "out/lte") address true five_blocks-Readable refl
      address-Word address-starts

abbrev default_run : Mm2.Simulation
default_run = record {
  trace = codes "lte";
  port = pos 9999;
  mode = wanted_mode (blocks (pos 5));
  blksize = pos 1000;
  cc_algo = none;
  buf_len = none;
  mm_delay = none;
}

default_run-Readable :
    Readable (as_multi default_run) (for_seconds (pos 305)) 9999 128 (codes "out/lte")
unfolding codes
default_run-Readable = record {
  mode_is = refl;
  mode_fits = omega arith;
  port_is = refl;
  port_fits = omega arith;
  blksize_is = refl;
  blksize_positive = omega arith;
  blksize_fits = omega arith;
  cc_plain = tt;
  path_plain = text-Plain (codes "out/lte_sender.log") (λ e. cc e) refl refl;
}

abbrev default_command : Text
default_command = codes "sender_receiver/sender 100.64.0.1 9999 -t 305"

default_formatted :
    format_one (Mm2.sender_command default_run (codes "out/lte") false) address ≡ ok default_command
unfolding Mm2.sender_command codes format_one print_int
default_formatted = refl

default_starts : starts_with default_command (codes "sender_receiver/") ≡ true
unfolding starts_with codes
default_starts = refl

default_safe : any_char quotable default_command ≡ false
unfolding codes
default_safe = refl

sender_command-default_example :
    shell_started test_getopt test_atoi
      (λ p. true)
      words
      (Mm2.sender_command default_run (codes "out/lte") false)
      address
    ≡ ok (
        goes_on (record {
          serv_ip = address;
          serv_port = pos 9999;
          settings = record {
            mode = some (ttr 305);
            blksize = 128;
            cc_algo = none;
            logfile = none;
            verbose = false;
          };
        }))
sender_command-default_example =
    sender_command-default test_getopt test_atoi (λ p. true) words test_getopt-IsGetopt
      test_atoi-IsAtoi (λ cmd s q. refl) default_run 9999 (codes "out/lte") address default_command
      false refl default_run-Readable refl address-Word address-starts default_formatted
      default_starts default_safe

-- Senders 7 and 8 connect, and the end of the child of the first comes between.
abbrev two_senders : List (Event ℕ)
two_senders = (false, connection 7) ∷ (false, interrupted) ∷ (false, connection 8) ∷ []

receiver_command-one_example :
    serves
      (receiver_main test_atoi
        (arguments (words (Multi.receiver_command (pos 9999) 0 (some (codes "out/lte_receiver"))))))
      two_senders
    ≡ 7 ∷ []
unfolding codes path_join
receiver_command-one_example =
    receiver_command-one test_atoi test_atoi-IsAtoi (pos 9999) 0 (some (codes "out/lte_receiver"))
      (omega arith)
      ((text-Plain (codes "out/lte_receiver/recvlog") (λ e. cc e) refl refl).word, omega arith)
      two_senders (refl, (refl, (refl, tt)))
