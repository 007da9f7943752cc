-- ===== src/Mmparse/Throughput/Order.antt =====
-- The bins of a log whose events stand in order of time.
use vatic_udp.Prelude.{
  ℕ, ◌≤◌, List, [], ◌∷◌, ◌≡◌, refl, ◌∙◌, arith, ℤ, pos, ◌+ℤ◌, eqb_ℤ, if◌then◌else◌, ok,
}
use vatic_udp.Py.Text.{Text}
use vatic_udp.Mmparse.Throughput.{TputState, tput_start, LogEvent, Column, LogLine, tput_loop}
use vatic_udp.Mmparse.Throughput.Bins.{running_bin}
use vatic_udp.Mmparse.Throughput.Columns.{cell_at, bits_in}
use vatic_udp.Mmparse.Throughput.Log.{read_log, events, bits_at, tput_loop-bits_at}

-- Every event is in a bin that is a natural number, not before bin `cur` nor before the one of the
-- event above it. With `cur = 0`, none is before the base time.
abbrev pub InOrder : ℕ → List LogEvent → Type 0
InOrder cur [] = Unit
InOrder cur (e ∷ es) = (n : ℕ) × (e.bin ≡ pos n) × (cur ≤ n) × InOrder n es

-- The bits that column `c` counts among the events whose own bin is `i`.
abbrev pub bits_of_bin : Column → ℕ → List LogEvent → ℤ
bits_of_bin c i [] = pos 0
bits_of_bin c i (e ∷ es) =
    (if eqb_ℤ e.bin (pos i) then bits_in c e else pos 0) +ℤ bits_of_bin c i es

bits_at-InOrder :
    (c : Column) (i cur : ℕ) (es : List LogEvent)
    → InOrder cur es
    → bits_at c i cur es ≡ bits_of_bin c i es
bits_at-InOrder c i cur [] h = refl
bits_at-InOrder c i cur (e ∷ es) (n, own, later, rest) =
    let same : running_bin cur e.bin ≡ n = rw own (ground arith) in
    rw (same, own, bits_at-InOrder c i n es rest) (ground arith)

-- If the loop returns for a log whose events stand in order of their bins, none of them in a bin
-- before that of the base time, then the cell of column `c` in bin `i` is the sum of the bits of the
-- events of that column whose own bin is `i`.
pub tput_loop-InOrder :
    (m : ℤ) (lines : List Text) (t : TputState) (ls : List LogLine) (c : Column) (i : ℕ)
    → tput_loop m lines tput_start ≡ ok t
    → read_log m (pos 0) lines ≡ ok ls
    → InOrder 0 (events ls)
    → cell_at c i t.rows ≡ bits_of_bin c i (events ls)
tput_loop-InOrder m lines t ls c i h read order =
    let (ls', read', _, _, cells) = tput_loop-bits_at m lines t h in
    let same : ls' ≡ ls = cc (read, read') in
    cells c i ∙ rw same (bits_at-InOrder c i 0 (events ls) order)
