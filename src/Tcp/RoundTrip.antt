-- ===== src/Tcp/RoundTrip.antt =====
-- What the log of sender_receiver/receiver.cc says of the blocks that sender_receiver/sender.cc sent.
use mathlib.Core.List.{map-append}
use vatic_udp.Prelude.{
  ℕ, zero, suc, ◌+◌, ◌-◌, ◌*◌, ◌%◌, ◌^◌, ◌<◌, ◌≡◌, refl, sym, ap, ◌∙◌, arith, List, [], ◌∷◌, ◌++◌,
  append_assoc, append-nil, map, Bool, true, false, ltb, if◌then◌else◌, Option, none, some,
  replicate, range_from, Bool-cases, inl, inr, lt→ltb,
}
use vatic_udp.Tcp.Sending.{
  Time, Packet, Flow, no_flow, packet_size, complete, send_block, send_nblocks,
}
use vatic_udp.Tcp.Sending
use vatic_udp.Tcp.Sending.Ends.{send_each, send_nblocks-range}
use vatic_udp.Tcp.Receiving.{
  Arrival, Child, opened, extended, take_packet, take_packets, flow_log, started, line_of,
}
use vatic_udp.Tcp.Receiving

-- What both logs say of a block: its number, its bytes, and when it was sent.
abbrev pub Entry : Type 0
Entry = ℕ × ℕ × Option Time

abbrev pub sender_entry : Sending.Line → Entry
sender_entry l = (l.line_seq, l.bytes, some l.line_time)

abbrev pub receiver_entry : Receiving.Line → Entry
receiver_entry l = (l.seq, l.bytes, l.sent_time)

abbrev pub joined_blocks : List (List Packet) → List Packet
joined_blocks [] = []
joined_blocks (b ∷ bs) = b ++ joined_blocks bs

-- The receiver's entries from the packets alone, with the block that is open
entries : ℕ → ℕ → Option Time → List Packet → List Entry
entries k count sent [] = (k, count * packet_size, sent) ∷ []
entries k count sent (p ∷ ps) =
    let closed = (k, count * packet_size, sent) ∷ entries p.seq 1 (some p.sent) ps in
    let longer = entries k ((count + 1) % 2 ^ 32) (some p.sent) ps in
    if ltb k p.seq then closed else longer

finish : List Receiving.Line × Child → List Receiving.Line
finish (lines, last) = lines ++ line_of last last.received ∷ []

take_packets-entries :
    (s : Child) (arrivals : List Arrival)
    → map receiver_entry (finish (take_packets s arrivals))
      ≡ entries s.current s.seq_count s.sent (map (λ a. a.packet) arrivals)
unfolding take_packets take_packet finish entries
take_packets-entries s [] = refl
take_packets-entries s (a ∷ rest) = elim (Bool-cases (ltb s.current a.packet.seq)) [
  | inl e ↦
      rw (take_packet, e)
        (ap (λ r. (s.current, s.seq_count * packet_size, s.sent) ∷ r)
          (take_packets-entries (opened s a) rest))
  | inr e ↦ rw (take_packet, e) (take_packets-entries (extended s a) rest)
]

flow_log-entries :
    (arrivals : List Arrival)
    → map receiver_entry (flow_log arrivals).0 ≡ entries 1 0 none (map (λ a. a.packet) arrivals)
unfolding flow_log finish
flow_log-entries arrivals = take_packets-entries started arrivals

block : ℕ → Bool → ℕ → Time → List Packet
block size probe k t = replicate size (record { seq = k; sent = t; probe = probe })

entries-one :
    (k count : ℕ) (old : Option Time) (probe : Bool) (t : Time) (ps : List Packet)
    → count + 1 < 2 ^ 32
    → entries k count old (record { seq = k; sent = t; probe = probe } ∷ ps)
      ≡ entries k (count + 1) (some t) ps
unfolding entries
entries-one k count old probe t ps h =
    let same : ltb k k ≡ false = ground arith in
    let one : (count + 1) % 2 ^ 32 ≡ count + 1 = omega arith in rw (same, one) refl

-- Packets of the block that is open
entries-same :
    (k count m : ℕ) (old : Option Time) (probe : Bool) (t : Time) (ps : List Packet)
    → count + suc m < 2 ^ 32
    → entries k count old (block (suc m) probe k t ++ ps) ≡ entries k (count + suc m) (some t) ps
unfolding block
entries-same k count zero old probe t ps h = entries-one k count old probe t ps h
entries-same k count (suc m) old probe t ps h =
    let all : count + suc (suc m) ≡ count + 1 + suc m = omega arith in
    rw all (
      entries-one k count old probe t (block (suc m) probe k t ++ ps) (omega arith)
      ∙ entries-same k (count + 1) m (some t) probe t ps (omega arith))

-- The first packet of a later block closes the block before it.
entries-later :
    (k j count m : ℕ) (old : Option Time) (probe : Bool) (t : Time) (ps : List Packet)
    → k < j
    → suc m < 2 ^ 32
    → entries k count old (block (suc m) probe j t ++ ps)
      ≡ (k, count * packet_size, old) ∷ entries j (suc m) (some t) ps
unfolding entries block
entries-later k j count zero old probe t ps h l = rw (lt→ltb k j h) refl
entries-later k j count (suc m) old probe t ps h l =
    let all : suc (suc m) ≡ 1 + suc m = omega arith in
    rw (lt→ltb k j h, all)
      (ap (λ r. (k, count * packet_size, old) ∷ r)
        (entries-same j 1 m (some t) probe t ps (omega arith)))

module _ (now : ℕ → Time) (m : ℕ) (probe : Bool) (fits : suc m < 2 ^ 32) where
  sent_entry : ℕ → Entry
  sent_entry k = (k, suc m * packet_size, some (now k))

  entries-blocks :
      (k n : ℕ)
      → entries k
          (suc m)
          (some (now k))
          (joined_blocks (map (λ j. block (suc m) probe j (now j)) (range_from (k + 1) n)))
        ≡ sent_entry k ∷ map sent_entry (range_from (k + 1) n)
  unfolding entries sent_entry
  entries-blocks k zero = refl
  entries-blocks k (suc n) =
      entries-later k (k + 1) (suc m) m (some (now k)) probe (now (k + 1)) _ (omega arith) fits
      ∙ ap (λ r. sent_entry k ∷ r) (entries-blocks (k + 1) n)

  entries-all :
      (n : ℕ)
      → entries 1 0 none
          (joined_blocks (map (λ j. block (suc m) probe j (now j)) (range_from 1 (suc n))))
        ≡ map sent_entry (range_from 1 (suc n))
  entries-all n =
      let zero_add : 0 + suc m ≡ suc m = omega arith in
      entries-same 1 0 m none probe (now 1) _ (omega arith) ∙ rw zero_add (entries-blocks 1 n)

module _ (now : ℕ → Time) (nsend : ℕ → Option ℕ) (size : ℕ) (probe : Bool)
    (whole : (k : ℕ) → complete size (nsend k) ≡ true) where
  send_each-sends :
      (ks : List ℕ) (flow : Flow)
      → (send_each now nsend size probe ks flow).sends
        ≡ flow.sends ++ map (λ k. block size probe k (now k)) ks
  unfolding send_each send_block block
  send_each-sends [] flow = sym (append-nil flow.sends)
  send_each-sends (k ∷ ks) flow =
      rw (send_each-sends ks (send_block size probe k (now k) (nsend k) flow), send_block, whole k)
        (append_assoc flow.sends (block size probe k (now k) ∷ [])
          (map (λ j. block size probe j (now j)) ks))

  send_each-log :
      (ks : List ℕ) (flow : Flow)
      → map sender_entry (send_each now nsend size probe ks flow).log
        ≡ map sender_entry flow.log ++ map (λ k. (k, size * packet_size, some (now k))) ks
  unfolding send_each send_block
  send_each-log [] flow = sym (append-nil (map sender_entry flow.log))
  send_each-log (k ∷ ks) flow =
      rw
        (
          send_each-log ks (send_block size probe k (now k) (nsend k) flow),
          send_block,
          whole k,
          map-append sender_entry flow.log,
        )
        (append_assoc (map sender_entry flow.log) ((k, size * packet_size, some (now k)) ∷ [])
          (map (λ j. (j, size * packet_size, some (now j))) ks))

-- Where each `send` takes its whole block, `send_nblocks` ends, and the receiver's log has the same
-- lines as the sender's: the same numbers, the same bytes and the same sending times, whatever the
-- times of arrival are. This needs at least one block, fewer than 2 ^ 32 - 1 of them, at least one
-- packet and fewer than 2 ^ 32 in each, and all the packets to arrive in order.
pub logs-agree :
    (now : ℕ → Time) (nsend : ℕ → Option ℕ) (m : ℕ) (probe : Bool)
    → ((k : ℕ) → complete (suc m) (nsend k) ≡ true)
    → suc m < 2 ^ 32
    → (fuel n : ℕ) → suc n < 2 ^ 32 - 1
    → suc n < fuel
    → (flow : Flow) → flow ≡ send_each now nsend (suc m) probe (range_from 1 (suc n)) no_flow
    → (arrivals : List Arrival) → map (λ a. a.packet) arrivals ≡ joined_blocks flow.sends
    → (send_nblocks now nsend (suc m) probe fuel (suc n) ≡ some flow)
      × (map receiver_entry (flow_log arrivals).0 ≡ map sender_entry flow.log)
unfolding sent_entry
logs-agree now nsend m probe whole fits fuel n h k flow same arrivals arrived = (
  rw same (send_nblocks-range now nsend (suc m) probe fuel (suc n) h k),
  flow_log-entries arrivals
      ∙ ap (entries 1 0 none) (
          arrived
          ∙ ap joined_blocks (
              ap (λ f. f.sends) same
              ∙ send_each-sends now nsend (suc m) probe whole (range_from 1 (suc n)) no_flow))
      ∙ entries-all now m probe fits n
      ∙ sym (
          ap (λ f. map sender_entry f.log) same
          ∙ send_each-log now nsend (suc m) probe whole (range_from 1 (suc n)) no_flow),
)
