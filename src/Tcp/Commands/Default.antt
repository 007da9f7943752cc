-- ===== src/Tcp/Commands/Default.antt =====
-- The command line of runmm2.py as sender_receiver/sender.cc reads it, where the block size is the
-- default of the script.
use vatic_udp.Prelude.{
  ℕ, ◌≡◌, ◌∙◌, refl, List, Bool, true, false, not, ◌&&◌, ◌||◌, ◌==◌, leb, some, ℤ, pos, Result, ok,
  Option-cases, inl, inr,
}
use vatic_udp.Py.Text.{Text, codes, starts_with, words}
use vatic_udp.Py.Text.Words.{Word}
use vatic_udp.Simulation.Multi
use vatic_udp.Simulation.Mm2
use vatic_udp.Tcp.Options.{
  Checked, Invocation, sender_main, to_unsigned, ttr, Opt, goes_on, IsGetopt, IsAtoi,
}
use vatic_udp.Prelude.Results.{◌>>=◌}
use vatic_udp.Py.Format.{format_one}
use vatic_udp.Tcp.CommandLine.{arguments, any_char}
use vatic_udp.Tcp.Commands.{wanted_mode, for_seconds, log_file, log_path, Readable}
use vatic_udp.Tcp.Commands.Parsed.{started, sender_command-started}

-- The simulation of runmm_multi.py that starts the same sender
abbrev pub as_multi : Mm2.Simulation → Multi.Simulation
as_multi sim = record {
  trace = sim.trace;
  port = sim.port;
  n_senders = pos 1;
  mode = wanted_mode (for_seconds (pos 305));
  blksize = Multi.blksize_default;
  cc_algo = sim.cc_algo;
  buf_len = sim.buf_len;
}

sender_command-as_multi :
    (sim : Mm2.Simulation) (path : Text) (log : Bool)
    → sim.blksize ≡ Mm2.blksize_default
    → Mm2.sender_command sim path log ≡ Multi.sender_command (as_multi sim) path log
unfolding Mm2.sender_command Multi.sender_command Multi.mode_options codes
sender_command-as_multi sim path log h = elim (Option-cases sim.cc_algo) [
  | inl e ↦ rw (h, e) refl
  | inr (a, e) ↦ rw (h, e) refl
]

-- The characters that a shell may read as anything but themselves; a space is not one of them here.
abbrev pub quotable : ℕ → Bool
quotable c = not (
    (leb b'a' c && leb c b'z')
    || (leb b'A' c && leb c b'Z')
    || (leb b'0' c && leb c b'9')
    || (c == b'/')
    || (c == b'.')
    || (c == b'_')
    || (c == b'-')
    || (c == b' '))

-- What the shell makes of a simple command: if it names a program by its path and has none of the
-- characters above, then its words are those between the spaces.
abbrev pub IsShell : (Text → List Text) → Type 0
IsShell shell =
    (cmd : Text)
    → starts_with cmd (codes "sender_receiver/") ≡ true
    → any_char quotable cmd ≡ false
    → shell cmd ≡ words cmd

module _ (getopt : List Text → List Opt × List Text) (atoi : Text → ℤ) (can_open : Text → Bool)
    (shell : Text → List Text) where
  -- The sender that the shell starts for a template with the address of the receiver. The command
  -- stands between two `&` in what runmm2.py gives to the shell.
  unfoldable pub shell_started : Text → Text → Result (Checked Invocation)
  unfolding format_one sender_main
  shell_started template ip = format_one template ip >>= λ cmd.
      ok (sender_main atoi can_open getopt (arguments (shell cmd)))

  -- A command that the shell reads as its words starts the same sender as a list of them.
  shell_started-words :
      (template ip cmd : Text)
      → IsShell shell
      → format_one template ip ≡ ok cmd
      → starts_with cmd (codes "sender_receiver/") ≡ true
      → any_char quotable cmd ≡ false
      → shell_started template ip ≡ started getopt atoi can_open template ip
  unfolding shell_started started
  shell_started-words template ip cmd is_shell f s q = rw (f, is_shell cmd s q) refl

-- A sender that runmm2.py starts with its default block size, 1000 KiB, sends blocks of 128 KiB, and
-- it sends for 305 seconds whatever the mode is: for a port that fits in an `int`, names with no white
-- space and no braces, an address that is one word and does not begin with a dash, a log that can be
-- opened, and a command that, with the address, has only letters, digits, spaces and `/`, `.`, `_`,
-- `-`, so that the shell reads it as it is written.
pub sender_command-default :
    (getopt : List Text → List Opt × List Text) (atoi : Text → ℤ) (can_open : Text → Bool)
    (shell : Text → List Text)
    → IsGetopt getopt
    → IsAtoi atoi
    → IsShell shell
    → (sim : Mm2.Simulation) (port : ℕ) (path ip cmd : Text) (log : Bool)
    → sim.blksize ≡ Mm2.blksize_default
    → Readable (as_multi sim) (for_seconds (pos 305)) port 128 path
    → can_open (log_path path) ≡ true
    → Word ip
    → starts_with ip (codes "-") ≡ false
    → format_one (Mm2.sender_command sim path log) ip ≡ ok cmd
    → starts_with cmd (codes "sender_receiver/") ≡ true
    → any_char quotable cmd ≡ false
    → shell_started getopt atoi can_open shell (Mm2.sender_command sim path log) ip
      ≡ ok (
          goes_on (record {
            serv_ip = ip;
            serv_port = sim.port;
            settings = record {
              mode = some (ttr 305);
              blksize = 128;
              cc_algo = sim.cc_algo;
              logfile = log_file log path;
              verbose = false;
            };
          }))
unfolding to_unsigned
sender_command-default getopt atoi can_open shell g a is_shell sim port path ip cmd log h r o w d f
      s q =
    shell_started-words getopt atoi can_open shell (Mm2.sender_command sim path log) ip cmd is_shell
      f s q
    ∙ rw (sender_command-as_multi sim path log h) (
        sender_command-started getopt atoi can_open g a (as_multi sim) (for_seconds (pos 305)) port
          128 path ip log r o w d)
