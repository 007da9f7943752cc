-- ===== src/Tcp/Commands.antt =====
-- What sender_receiver/sender.cc makes of the command line that runmm_multi.py writes for it.
pub mod Taken
pub mod Parsed
pub mod Default
use vatic_udp.Prelude.{
  ℕ, ◌^◌, ◌<◌, ◌≤◌, ◌%◌, ◌≡◌, refl, sym, ap, ◌∙◌, inl, inr, arith, List, [], ◌∷◌, ◌++◌, append-nil,
  append_assoc, Bool, true, false, ◌==◌, ltb, if◌then◌else◌, Option, none, some, ℤ, pos, eqb_ℤ,
  Result, ok, err, Every, Every-append, Option-cases, Bool-cases,
}
use vatic_udp.Prelude.Results.{◌>>=◌}
use vatic_udp.Py.Text.{Text, codes, starts_with, words}
use vatic_udp.Py.Text.Words.{spaced, Word, words-spaced}
use vatic_udp.Py.Format.{format_one}
use vatic_udp.Py.Format.Fields.{is_brace, NoBrace, format_one-field}
use vatic_udp.Py.Decimal.{print_int}
use vatic_udp.Simulation.Mode.{Mode}
use vatic_udp.Simulation.Multi.{
  Simulation, blksize_default, option_text, mode_options, sender_command,
}
use vatic_udp.Tcp.Options.{
  SendMode, ttr, n_blocks, tracefile, Opt, Settings, defaults, Checked, exits, goes_on, Invocation,
  to_unsigned, take_option, take_options, sender_main, take_log, take_block, take_mode, IsGetopt,
  IsInt, IsAtoi,
}
use vatic_udp.Tcp.CommandLine.{
  Plain, print_int-Plain, flags, spaced-flags-append, Known, flags-Word, spaced-flags-NoBrace,
  getopt-flags,
}

-- The way of sending that the constructor was asked for.
pub data Wanted : Type 0 where
  for_seconds : ℤ → Wanted
  blocks : ℤ → Wanted
  from_file : Text → Wanted

-- The attributes `ttr`, `n_blks` and `filepath`
abbrev pub wanted_mode : Wanted → Mode
wanted_mode (for_seconds n) = record { ttr = some (print_int n); n_blks = none; filepath = none }
wanted_mode (blocks n) = record { ttr = none; n_blks = some (print_int n); filepath = none }
wanted_mode (from_file f) = record { ttr = none; n_blks = none; filepath = some f }

abbrev pub wanted_send : Wanted → SendMode
wanted_send (for_seconds n) = ttr (to_unsigned n)
wanted_send (blocks n) = n_blocks (to_unsigned n)
wanted_send (from_file f) = tracefile f

abbrev pub WantedFits : Wanted → Type 0
WantedFits (for_seconds n) = IsInt n
WantedFits (blocks n) = IsInt n
WantedFits (from_file f) = Plain f

abbrev pub PlainIfGiven : Option Text → Type 0
PlainIfGiven none = Unit
PlainIfGiven (some t) = Plain t

-- The path of the sender's log
abbrev pub log_path : Text → Text
log_path path = path ++ codes "_sender.log"

abbrev pub log_file : Bool → Text → Option Text
log_file log path = if log then some (log_path path) else none

-- A simulation whose command line can be read back: its numbers fit in an `int`, and its names have
-- no white space and no braces.
pub record Readable (sim : Simulation) (w : Wanted) (port blksize : ℕ) (path : Text) : Type 0 where
  pub mode_is : sim.mode ≡ wanted_mode w
  pub mode_fits : WantedFits w
  pub port_is : sim.port ≡ pos port
  pub port_fits : port < 2 ^ 31
  pub blksize_is : sim.blksize ≡ pos blksize
  pub blksize_positive : 1 ≤ blksize
  pub blksize_fits : blksize < 2 ^ 31
  pub cc_plain : PlainIfGiven sim.cc_algo
  pub path_plain : Plain (log_path path)

pub mode_opt : Wanted → Opt
mode_opt (for_seconds n) = (b't', print_int n)
mode_opt (blocks n) = (b'n', print_int n)
mode_opt (from_file f) = (b'f', f)

pub block_opts : ℤ → List Opt
block_opts b = if eqb_ℤ b blksize_default then [] else (b'b', print_int b) ∷ []

pub cc_opts : Option Text → List Opt
cc_opts none = []
cc_opts (some algo) = (b'C', algo) ∷ []

pub log_opts : Option Text → List Opt
log_opts none = []
log_opts (some path) = (b'l', path) ∷ []

after_mode : ℤ → Option Text → Option Text → List Opt
unfolding block_opts cc_opts log_opts
after_mode b algo log = block_opts b ++ (cc_opts algo ++ log_opts log)

mode_options-flags : (w : Wanted) → mode_options (wanted_mode w) ≡ spaced (flags (mode_opt w ∷ []))
unfolding mode_options mode_opt codes
mode_options-flags (for_seconds n) = rw append-nil refl
mode_options-flags (blocks n) = rw append-nil refl
mode_options-flags (from_file f) = rw append-nil refl

block_options-flags :
    (b : ℤ)
    → (if eqb_ℤ b blksize_default then [] else codes " -b " ++ print_int b)
      ≡ spaced (flags (block_opts b))
unfolding block_opts codes
block_options-flags b = elim (Bool-cases (eqb_ℤ b blksize_default)) [
  | inl e ↦ rw e refl
  | inr e ↦ rw (e, append-nil) refl
]

cc_options-flags :
    (algo : Option Text) → option_text (codes " -C ") algo ≡ spaced (flags (cc_opts algo))
unfolding cc_opts codes
cc_options-flags none = refl
cc_options-flags (some algo) = rw append-nil refl

log_options-flags :
    (log : Bool) (path : Text)
    → (if log then codes " -l " ++ log_path path else [])
      ≡ spaced (flags (log_opts (log_file log path)))
unfolding log_opts codes
log_options-flags true path = rw append-nil refl
log_options-flags false path = refl

join_options :
    (x : Text) (os ps : List Opt)
    → x ++ spaced (flags os) ++ spaced (flags ps) ≡ x ++ spaced (flags (os ++ ps))
join_options x os ps =
    append_assoc x (spaced (flags os)) (spaced (flags ps))
    ∙ ap (λ r. x ++ r) (spaced-flags-append os ps)

join_all :
    (x : Text) (os ps qs rs : List Opt)
    → x ++ spaced (flags os) ++ spaced (flags ps) ++ spaced (flags qs) ++ spaced (flags rs)
      ≡ x ++ spaced (flags (os ++ ps ++ qs ++ rs))
join_all x os ps qs rs =
    rw (join_options x os ps, join_options x (os ++ ps) qs) (join_options x (os ++ ps ++ qs) rs)

options-flags :
    (x : Text) (w : Wanted) (b : ℤ) (algo : Option Text) (log : Bool) (path : Text)
    → x
        ++ mode_options (wanted_mode w)
        ++ (if eqb_ℤ b blksize_default then [] else codes " -b " ++ print_int b)
        ++ option_text (codes " -C ") algo
        ++ (if log then codes " -l " ++ log_path path else [])
      ≡ x ++ spaced (flags (mode_opt w ∷ after_mode b algo (log_file log path)))
unfolding after_mode
options-flags x w b algo log path =
    rw
      (
        mode_options-flags w,
        block_options-flags b,
        cc_options-flags algo,
        log_options-flags log path,
      )
      (rw (append_assoc (block_opts b) (cc_opts algo) (log_opts (log_file log path))) at
        (join_all x (mode_opt w ∷ []) (block_opts b) (cc_opts algo) (log_opts (log_file log path))))

-- The options that the command line holds, all of them known to the sender.
block_opts-Known : (b : ℤ) → Every Known (block_opts b)
unfolding block_opts
block_opts-Known b = elim (Bool-cases (eqb_ℤ b blksize_default)) [
  | inl e ↦ rw e tt
  | inr e ↦ rw e (record { letter = refl; plain = print_int-Plain b }, tt)
]

cc_opts-Known : (algo : Option Text) → PlainIfGiven algo → Every Known (cc_opts algo)
unfolding cc_opts
cc_opts-Known none h = tt
cc_opts-Known (some algo) h = (record { letter = refl; plain = h }, tt)

log_opts-Known :
    (log : Bool) (path : Text) → Plain (log_path path) → Every Known (log_opts (log_file log path))
unfolding log_opts
log_opts-Known false path h = tt
log_opts-Known true path h = (record { letter = refl; plain = h }, tt)

mode_opt-Known : (w : Wanted) → WantedFits w → Known (mode_opt w)
unfolding mode_opt
mode_opt-Known (for_seconds n) h = record { letter = refl; plain = print_int-Plain n }
mode_opt-Known (blocks n) h = record { letter = refl; plain = print_int-Plain n }
mode_opt-Known (from_file f) h = record { letter = refl; plain = h }

all_opts-Known :
    (w : Wanted) (b : ℤ) (algo : Option Text) (log : Bool) (path : Text)
    → WantedFits w
    → PlainIfGiven algo
    → Plain (log_path path)
    → Every Known (mode_opt w ∷ after_mode b algo (log_file log path))
unfolding after_mode
all_opts-Known w b algo log path h k l = (
  mode_opt-Known w h,
  Every-append Known (block_opts b) (cc_opts algo ++ log_opts (log_file log path))
      (block_opts-Known b)
      (Every-append Known (cc_opts algo) (log_opts (log_file log path)) (cc_opts-Known algo k)
        (log_opts-Known log path l)),
)
