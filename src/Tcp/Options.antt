-- ===== src/Tcp/Options.antt =====
-- The command line of sender_receiver/sender.cc. `getopt`, `atoi` and `fopen` are parameters.
use vatic_udp.Prelude.{
  ℕ, ◌-◌, ◌%◌, ◌^◌, ◌<◌, ◌≡◌, List, [], ◌∷◌, Bool, true, false, ◌==◌, ltb, if◌then◌else◌, Option,
  none, some, ℤ, pos, negsuc,
}
use vatic_udp.Py.Text.{Text, codes, starts_with}
use vatic_udp.Py.Decimal.{print_int}

-- An `int` stored in an `unsigned int`
unfoldable pub to_unsigned : ℤ → ℕ
to_unsigned (pos n) = n % 2 ^ 32
to_unsigned (negsuc n) = 2 ^ 32 - 1 - n % 2 ^ 32

-- `send_mode`: which member of the union is set
pub data SendMode : Type 0 where
  ttr : ℕ → SendMode
  n_blocks : ℕ → SendMode
  tracefile : Text → SendMode

-- Why `main` exits before it connects.
pub data Exit : Type 0 where
  one_mode_only small_block no_log_file usage two_operands : Exit

pub data Checked {ℓ} (A : Type ℓ) : Type ℓ where
  exits : Exit → Checked A
  goes_on : A → Checked A

-- The variables that the options set; `mode` is `none` while `genmethod` is 0.
pub record Settings : Type 0 where
  pub mode : Option SendMode
  pub blksize : ℕ
  pub cc_algo : Option Text
  pub logfile : Option Text
  pub verbose : Bool

abbrev pub defaults : Settings
defaults = record { mode = none; blksize = 128; cc_algo = none; logfile = none; verbose = false }

-- An option of the command line: its letter, and `optarg` where it takes one.
abbrev pub Opt : Type 0
Opt = ℕ × Text

-- What `main` goes on with.
pub record Invocation : Type 0 where
  pub serv_ip : Text
  pub serv_port : ℤ
  pub settings : Settings

unfoldable pub take_mode : Settings → SendMode → Checked Settings
take_mode s m = elim s.mode [
  | none ↦ goes_on (record s { mode = some m })
  | some old ↦ exits one_mode_only
]

unfoldable pub take_block : Settings → ℕ → Checked Settings
take_block s n = if ltb n 1 then exits small_block else goes_on (record s { blksize = n })

module _ (atoi : Text → ℤ) (can_open : Text → Bool) where
  unfoldable pub take_log : Settings → Text → Checked Settings
  take_log s path =
      if can_open path then goes_on (record s { logfile = some path }) else exits no_log_file

  -- The `switch`
  unfoldable pub take_option : Settings → Opt → Checked Settings
  unfolding take_mode take_block take_log
  take_option s (c, arg) =
      if c == b't'
      then take_mode s (ttr (to_unsigned (atoi arg)))
      else if c == b'n'
      then take_mode s (n_blocks (to_unsigned (atoi arg)))
      else if c == b'f'
      then take_mode s (tracefile arg)
      else if c == b'b'
      then take_block s (to_unsigned (atoi arg))
      else if c == b'C'
      then goes_on (record s { cc_algo = some arg })
      else if c == b'l'
      then take_log s arg
      else if c == b'v'
      then goes_on (record s { verbose = true })
      else exits usage

  unfoldable pub take_options : Settings → List Opt → Checked Settings
  unfolding take_option
  take_options s [] = goes_on s
  take_options s (o ∷ os) = elim (take_option s o) [
    | exits e ↦ exits e
    | goes_on next ↦ take_options next os
  ]

  unfoldable pub take_operands : Settings → List Text → Checked Invocation
  take_operands s (ip ∷ port ∷ []) =
      goes_on (record { serv_ip = ip; serv_port = atoi port; settings = s })
  take_operands s other = exits two_operands

  unfoldable pub take_command : List Opt × List Text → Checked Invocation
  unfolding take_options take_operands
  take_command (os, operands) = elim (take_options defaults os) [
    | exits e ↦ exits e
    | goes_on s ↦ take_operands s operands
  ]

  -- `main` up to the connection; `getopt` gives the options and the operands of the arguments.
  unfoldable pub sender_main : (List Text → List Opt × List Text) → List Text → Checked Invocation
  unfolding take_command
  sender_main getopt argv = take_command (getopt argv)

-- `genmethod` chooses the sending function, and nothing chosen means ten seconds.
unfoldable pub sending_mode : Settings → SendMode
sending_mode s = elim s.mode [ none ↦ ttr 10 | some m ↦ m ]

-- The letters of `"t:n:f:b:C:l:v"` with a colon
abbrev pub takes_argument : ℕ → Bool
takes_argument c =
    if c == b't'
    then true
    else if c == b'n'
    then true
    else if c == b'f'
    then true
    else if c == b'b'
    then true
    else if c == b'C'
    then true
    else c == b'l'

-- GNU `getopt` moves the operands behind the options, and keeps both in order.
pub record IsGetopt (getopt : List Text → List Opt × List Text) : Type 0 where
  pub at_end : getopt [] ≡ ([], [])
  pub operand :
      (w : Text) (ws : List Text)
      → starts_with w (codes "-") ≡ false
      → getopt (w ∷ ws) ≡ ((getopt ws).0, w ∷ (getopt ws).1)
  pub option :
      (c : ℕ) (arg : Text) (ws : List Text)
      → takes_argument c ≡ true
      → getopt ((b'-' ∷ c ∷ []) ∷ arg ∷ ws) ≡ ((c, arg) ∷ (getopt ws).0, (getopt ws).1)

-- The numbers of an `int`
abbrev pub IsInt : ℤ → Type 0
IsInt (pos n) = n < 2 ^ 31
IsInt (negsuc n) = n < 2 ^ 31

-- `atoi` reads a printed `int` back.
abbrev pub IsAtoi : (Text → ℤ) → Type 0
IsAtoi atoi = (n : ℤ) → IsInt n → atoi (print_int n) ≡ n
