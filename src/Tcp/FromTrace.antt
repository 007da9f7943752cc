-- ===== src/Tcp/FromTrace.antt =====
-- `send_fromtrace` of sender_receiver/sender.cc. `strtol` is a parameter.
pub mod Left
use vatic_udp.Prelude.{
  ℕ, zero, suc, ◌+◌, ◌-◌, ◌%◌, ◌^◌, List, [], ◌∷◌, ◌++◌, Bool, true, false, not, ◌&&◌, ◌||◌, ◌==◌,
  ltb, if◌then◌else◌, Option, ℤ, pos, ◌-ℤ◌, eqb_ℤ,
}
use vatic_udp.Py.Text.{Text, prepend}
use vatic_udp.Tcp.Options.{to_unsigned}
use vatic_udp.Tcp.Sending.{Time, Flow, no_flow, send_block}

-- `strtol(line, &endptr, 10)`: an error in `errno`, no digits, or a number
pub data Number : Type 0 where
  range_error no_number : Number
  number : ℤ → Number

-- What `fgets(line, 10, fp)` returns, call by call; `room` characters may follow in this one.
unfoldable pub fgets_from : ℕ → Text → List Text
fgets_from room [] = []
fgets_from room (c ∷ s) =
    let fresh = (c ∷ []) ∷ fgets_from 8 s in
    let more = prepend c (fgets_from (room - 1) s) in if c == 10 || room == 0 then fresh else more

-- The text in front of an asterisk, and whether there is one
unfoldable pub cut_probe : Text → Text × Bool
cut_probe [] = ([], false)
cut_probe (c ∷ s) = if c == b'*' then ([], true) else (c ∷ (cut_probe s).0, (cut_probe s).1)

-- A line with a number: its time and whether it is a probe
abbrev pub Entry : Type 0
Entry = ℤ × Bool

abbrev pub bool_eq : Bool → Bool → Bool
bool_eq true b = b
bool_eq false b = not b

-- `!((probe != probe_prev) || (micros != micros_prev))`
abbrev pub same_entry : Entry → Entry → Bool
same_entry e f = bool_eq e.1 f.1 && eqb_ℤ e.0 f.0

-- The variables of the loop; `previous` is `micros_prev` with `probe_prev`, `slept` the calls of
-- `usleep`.
pub record TraceState : Type 0 where
  pub previous : Entry
  pub count : ℕ
  pub seq : ℕ
  pub flow : Flow
  pub slept : List ℕ
  pub ret : Bool

abbrev pub trace_start : TraceState
trace_start = record {
  previous = (pos 0, false);
  count = 0;
  seq = 0;
  flow = no_flow;
  slept = [];
  ret = false;
}

abbrev pub sleep_for : ℕ → List ℕ
sleep_for n = if ltb 0 n then n ∷ [] else []

module _ (now : ℕ → Time) (nsend : ℕ → Option ℕ) where
  -- A change: the block goes out, with the packet of this line and the probe flag of the line before.
  unfoldable pub send_change : Entry → TraceState → TraceState
  unfolding send_block to_unsigned ◌-ℤ◌
  send_change e s =
      let next = (s.seq + 1) % 2 ^ 32 in
      let sent = send_block (s.count + 1) s.previous.1 next (now next) (nsend next) s.flow in
      record {
        previous = e;
        count = 0;
        seq = next;
        flow = sent;
        slept = s.slept ++ sleep_for (to_unsigned (e.0 -ℤ s.previous.0));
        ret = s.ret || sent.fail;
      }

  unfoldable pub take_entry : Entry → TraceState → TraceState
  unfolding send_change
  take_entry e s =
      if same_entry e s.previous
      then record s { count = s.count + 1; previous = e }
      else send_change e s

  module _ (strtol : Text → Number) where
    -- The loop over what `fgets` returns
    unfoldable pub trace_loop : List Text → TraceState → TraceState
    unfolding cut_probe take_entry
    trace_loop [] s = s
    trace_loop (line ∷ lines) s = elim (strtol (cut_probe line).0) [
      | range_error ↦ record s { ret = true }
      | no_number ↦ trace_loop lines s
      | number micros ↦ trace_loop lines (take_entry (micros, (cut_probe line).1) s)
    ]

    -- `send_fromtrace` on the text of the file
    unfoldable pub send_fromtrace : Text → TraceState
    unfolding fgets_from trace_loop
    send_fromtrace text = trace_loop (fgets_from 8 text) trace_start
