-- ===== src/Tcp/FromTrace/Left.antt =====
-- Which packets `send_fromtrace` of sender_receiver/sender.cc sends, and which it leaves behind.
use vatic_udp.Prelude.{
  ℕ, suc, ◌+◌, ◌≡◌, refl, sym, ap, ◌∙◌, arith, List, [], ◌∷◌, ◌++◌, map, Bool, true, false, ◌&&◌,
  if◌then◌else◌, Option, Bool-cases, inl, inr, length, length-replicate, sum, sum-append, pos,
  replicate,
}
use mathlib.Core.List.{map-append}
use vatic_udp.Py.Text.{Text}
use vatic_udp.Tcp.Sending.{Time, Packet, Flow, send_block, complete}
use vatic_udp.Tcp.FromTrace.{
  Number, range_error, no_number, number, cut_probe, Entry, same_entry, TraceState, trace_start,
  send_change, take_entry, trace_loop, send_fromtrace, fgets_from,
}

-- The entries up to the first line whose number is out of range
unfoldable pub entries_of : (Text → Number) → List Text → List Entry
entries_of strtol [] = []
entries_of strtol (line ∷ lines) = elim (strtol (cut_probe line).0) [
  | range_error ↦ []
  | no_number ↦ entries_of strtol lines
  | number micros ↦ (micros, (cut_probe line).1) ∷ entries_of strtol lines
]

-- All entries are like the one before them.
abbrev pub all_same : Entry → List Entry → Bool
all_same p [] = true
all_same p (e ∷ es) = same_entry e p && all_same e es

-- The number of entries behind the last change
unfoldable pub trailing : Entry → List Entry → ℕ
trailing p [] = 0
trailing p (e ∷ es) =
    let rest = trailing e es in if all_same p (e ∷ es) then suc (length es) else rest

abbrev pub packets : Flow → ℕ
packets f = sum (map length f.sends)

packets-send_block :
    (size : ℕ) (probe : Bool) (seq : ℕ) (now : Time) (nsend : Option ℕ) (f : Flow)
    → packets (send_block size probe seq now nsend f) ≡ packets f + size
unfolding send_block
packets-send_block size probe seq now nsend f =
    let packet : Packet = record { seq = seq; sent = now; probe = probe } in
    let block : List Packet = replicate size packet in
    let all : sum (map length (f.sends ++ block ∷ []))
        ≡ sum (map length f.sends) + (length block + 0) =
      rw (map-append length f.sends (block ∷ []))
        (sum-append (map length f.sends) (length block ∷ [])) in
    elim (Bool-cases (complete size nsend)) [
      | inl e ↦ rw (e, all, length-replicate size packet) (omega arith)
      | inr e ↦ rw (e, all, length-replicate size packet) (omega arith)
    ]

trailing-all : (e : Entry) (es : List Entry) → all_same e es ≡ true → trailing e es ≡ length es
unfolding trailing
trailing-all e [] h = refl
trailing-all e (f ∷ es) h = rw h refl

from_start :
    (p : Entry) (es : List Entry)
    → (if all_same p es then 0 + length es else trailing p es) ≡ trailing p es
from_start p es = elim (Bool-cases (all_same p es)) [
  | inl k ↦ rw (k, trailing-all p es k) (omega arith)
  | inr k ↦ rw k refl
]

zero_add : (n : ℕ) → 0 + 0 + n ≡ n
zero_add n = omega arith

module _ (now : ℕ → Time) (nsend : ℕ → Option ℕ) where
  take_entries : List Entry → TraceState → TraceState
  unfolding take_entry
  take_entries [] s = s
  take_entries (e ∷ es) s = take_entries es (take_entry now nsend e s)

  take_entry-packets :
      (e : Entry) (s : TraceState)
      → packets (take_entry now nsend e s).flow + (take_entry now nsend e s).count
        ≡ packets s.flow + s.count + 1
  unfolding take_entry send_change
  take_entry-packets e s = elim (Bool-cases (same_entry e s.previous)) [
    | inl h ↦ rw h (omega arith)
    | inr h ↦ rw (h, packets-send_block) (omega arith)
  ]

  take_entries-packets :
      (es : List Entry) (s : TraceState)
      → packets (take_entries es s).flow + (take_entries es s).count
        ≡ packets s.flow + s.count + length es
  unfolding take_entries
  take_entries-packets [] s = omega arith
  take_entries-packets (e ∷ es) s =
      omega (arith, take_entries-packets es (take_entry now nsend e s), take_entry-packets e s)

  take_entry-same :
      (e : Entry) (s : TraceState)
      → same_entry e s.previous ≡ true
      → take_entry now nsend e s ≡ record s { count = s.count + 1; previous = e }
  unfolding take_entry
  take_entry-same e s h = rw h refl

  take_entry-change :
      (e : Entry) (s : TraceState)
      → same_entry e s.previous ≡ false
      → take_entry now nsend e s ≡ send_change now nsend e s
  unfolding take_entry
  take_entry-change e s h = rw h refl

  take_entries-left :
      (es : List Entry) (s : TraceState)
      → (take_entries es s).count
        ≡ (if all_same s.previous es then s.count + length es else trailing s.previous es)
  unfolding take_entries trailing send_change
  take_entries-left [] s = omega arith
  take_entries-left (e ∷ es) s = elim (Bool-cases (same_entry e s.previous)) [
    | inl h ↦
        ap (λ t. (take_entries es t).count) (take_entry-same e s h)
        ∙ take_entries-left es (record s { count = s.count + 1; previous = e })
        ∙ elim (Bool-cases (all_same e es)) [
          | inl k ↦ rw (h, k) (omega arith)
          | inr k ↦ rw (h, k) refl
        ]
    | inr h ↦
        ap (λ t. (take_entries es t).count) (take_entry-change e s h)
        ∙ take_entries-left es (send_change now nsend e s)
        ∙ elim (Bool-cases (all_same e es)) [
          | inl k ↦ rw (h, k, trailing-all e es k) (omega arith)
          | inr k ↦ rw (h, k) refl
        ]
  ]

  loop_on :
      (strtol : Text → Number) (line : Text) (lines : List Text) (s : TraceState) (r : Number)
      → strtol (cut_probe line).0 ≡ r
      → ((t : TraceState)
          → ((trace_loop now nsend strtol lines t).flow
              ≡ (take_entries (entries_of strtol lines) t).flow)
            × ((trace_loop now nsend strtol lines t).count
                ≡ (take_entries (entries_of strtol lines) t).count))
      → ((trace_loop now nsend strtol (line ∷ lines) s).flow
          ≡ (take_entries (entries_of strtol (line ∷ lines)) s).flow)
        × ((trace_loop now nsend strtol (line ∷ lines) s).count
            ≡ (take_entries (entries_of strtol (line ∷ lines)) s).count)
  unfolding trace_loop entries_of take_entries
  loop_on strtol line lines s range_error h ih = rw (trace_loop, entries_of, h) (refl, refl)
  loop_on strtol line lines s no_number h ih = rw (trace_loop, entries_of, h) (ih s)
  loop_on strtol line lines s (number micros) h ih =
      rw (trace_loop, entries_of, h) (ih (take_entry now nsend (micros, (cut_probe line).1) s))

  trace_loop-entries :
      (strtol : Text → Number) (lines : List Text) (s : TraceState)
      → ((trace_loop now nsend strtol lines s).flow
          ≡ (take_entries (entries_of strtol lines) s).flow)
        × ((trace_loop now nsend strtol lines s).count
            ≡ (take_entries (entries_of strtol lines) s).count)
  unfolding trace_loop entries_of take_entries
  trace_loop-entries strtol [] s = (refl, refl)
  trace_loop-entries strtol (line ∷ lines) s =
      loop_on strtol line lines s (strtol (cut_probe line).0) refl (trace_loop-entries strtol lines)

  -- The packets that `send_fromtrace` sends, and those of the entries behind the last change of time or
  -- probe flag, are as many as the trace has entries: the last ones are never sent. A trace that never
  -- changes, from time 0 without probes on, is not sent at all. This is so whatever `send` returns;
  -- the entries end at the first number that is out of range.
  pub send_fromtrace-left :
      (strtol : Text → Number) (text : Text)
      → packets (send_fromtrace now nsend strtol text).flow
          + trailing (pos 0, false) (entries_of strtol (fgets_from 8 text))
        ≡ length (entries_of strtol (fgets_from 8 text))
  unfolding send_fromtrace
  send_fromtrace-left strtol text =
      let es = entries_of strtol (fgets_from 8 text) in
      let (flow, count) = trace_loop-entries strtol (fgets_from 8 text) trace_start in
      let all = take_entries-packets es trace_start in
      let left = take_entries-left es trace_start ∙ from_start (pos 0, false) es in
      ap (λ f. packets f + trailing (pos 0, false) es) flow
      ∙ ap (λ n. packets (take_entries es trace_start).flow + n) (sym left)
      ∙ all
      ∙ zero_add (length es)
