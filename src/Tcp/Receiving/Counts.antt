-- ===== src/Tcp/Receiving/Counts.antt =====
-- What the lines of the log of sender_receiver/receiver.cc add up to, and the times that they hold.
use vatic_udp.Prelude.{
  ℕ, suc, ◌+◌, ◌*◌, ◌%◌, ◌^◌, ◌≤◌, ◌<◌, ◌≡◌, refl, ap, arith, List, [], ◌∷◌, ◌++◌, map, true, sym,
  append_assoc, ltb, some, length, sum, Every, Bool-cases, inl, inr, lt→ltb,
}
use vatic_udp.Tcp.Sending.{packet_size}
use vatic_udp.Tcp.Receiving.{
  Arrival, Line, Child, started, line_of, opened, extended, take_packet, take_packets, flow_log,
}

-- The numbers of the lines, which begin at `k` and rise.
abbrev pub Rising : ℕ → List Line → Type 0
Rising k [] = Unit
Rising k (l ∷ ls) = (k ≤ l.seq) × Rising (suc l.seq) ls

finish : List Line × Child → List Line
finish (lines, last) = lines ++ line_of last last.received ∷ []

take_packets-bytes :
    (s : Child) (arrivals : List Arrival)
    → s.seq_count + length arrivals < 2 ^ 32
    → sum (map (λ l. l.bytes) (finish (take_packets s arrivals)))
      ≡ (s.seq_count + length arrivals) * packet_size
unfolding take_packets take_packet finish
take_packets-bytes s [] h = omega arith
take_packets-bytes s (a ∷ rest) h = elim (Bool-cases (ltb s.current a.packet.seq)) [
  | inl e ↦
      let more = take_packets-bytes (opened s a) rest (omega arith) in
      rw (take_packet, e) (omega (arith, more))
  | inr e ↦
      let one : (s.seq_count + 1) % 2 ^ 32 ≡ s.seq_count + 1 = omega arith in
      let more = take_packets-bytes (extended s a) rest (omega arith) in
      rw (take_packet, e) (omega (arith, more, one))
]

take_packets-total :
    (s : Child) (arrivals : List Arrival)
    → (take_packets s arrivals).1.ntotal ≡ s.ntotal + sum (map (λ a. a.nrecv) arrivals)
unfolding take_packets take_packet
take_packets-total s [] = omega arith
take_packets-total s (a ∷ rest) = elim (Bool-cases (ltb s.current a.packet.seq)) [
  | inl e ↦ rw (take_packet, e) (omega (arith, take_packets-total (opened s a) rest))
  | inr e ↦ rw (take_packet, e) (omega (arith, take_packets-total (extended s a) rest))
]

Rising-weaken : (j k : ℕ) (ls : List Line) → j ≤ k → Rising k ls → Rising j ls
Rising-weaken j k [] h r = tt
Rising-weaken j k (l ∷ ls) h (p, r) = (omega arith, r)

take_packets-Rising :
    (s : Child) (arrivals : List Arrival) → Rising s.current (finish (take_packets s arrivals))
unfolding take_packets take_packet finish
take_packets-Rising s [] = (omega arith, tt)
take_packets-Rising s (a ∷ rest) = elim (Bool-cases (ltb s.current a.packet.seq)) [
  | inl e ↦
      let later : s.current < a.packet.seq = ground arith in
      rw (take_packet, e)
        (
          omega arith,
          Rising-weaken (suc s.current) a.packet.seq (finish (take_packets (opened s a) rest))
              (omega arith) (take_packets-Rising (opened s a) rest),
        )
  | inr e ↦ rw (take_packet, e) (take_packets-Rising (extended s a) rest)
]

-- Whatever packets arrive, fewer than 2 ^ 32 of them, the bytes of the lines add up to all of them at
-- 1024 bytes each, the numbers of the lines rise from 1 on, and the total at the end is what `recv`
-- returned in all.
pub flow_log-counts :
    (arrivals : List Arrival)
    → length arrivals < 2 ^ 32
    → (sum (map (λ l. l.bytes) (flow_log arrivals).0) ≡ length arrivals * packet_size)
      × Rising 1 (flow_log arrivals).0
      × ((flow_log arrivals).1 ≡ sum (map (λ a. a.nrecv) arrivals))
unfolding flow_log finish
flow_log-counts arrivals h = (
  omega (arith, take_packets-bytes started arrivals (omega arith)),
  take_packets-Rising started arrivals,
  omega (arith, take_packets-total started arrivals),
)

take_packets-append :
    (s : Child) (xs ys : List Arrival)
    → take_packets s (xs ++ ys) ≡ (
      (take_packets s xs).0 ++ (take_packets (take_packets s xs).1 ys).0,
      (take_packets (take_packets s xs).1 ys).1,
    )
unfolding take_packets
take_packets-append s [] ys = refl
take_packets-append s (x ∷ xs) ys = rw (take_packets-append (take_packet s x).1 xs ys) (
    ap (λ ls. (ls, (take_packets (take_packets (take_packet s x).1 xs).1 ys).1))
      (sym (append_assoc (take_packet s x).0 _ _)))

current-take_packets :
    (s : Child) (n : ℕ) (xs : List Arrival)
    → s.current ≤ n
    → Every (λ x. x.packet.seq ≤ n) xs
    → (take_packets s xs).1.current ≤ n
unfolding take_packets take_packet
current-take_packets s n [] h k = h
current-take_packets s n (x ∷ xs) h (p, ps) = elim (Bool-cases (ltb s.current x.packet.seq)) [
  | inl e ↦ rw e (current-take_packets (opened s x) n xs p ps)
  | inr e ↦ rw e (current-take_packets (extended s x) n xs h ps)
]

-- The variables behind a packet of the current block or of a later one
take_packet-last :
    (s : Child) (b : Arrival)
    → s.current ≤ b.packet.seq
    → ((take_packet s b).1.current ≡ b.packet.seq) × ((take_packet s b).1.sent ≡ some b.packet.sent)
unfolding take_packet
take_packet-last s b h = elim (Bool-cases (ltb s.current b.packet.seq)) [
  | inl e ↦ rw e (refl, refl)
  | inr e ↦ rw e (ground arith, refl)
]

take_packet-opened :
    (t : Child) (a : Arrival)
    → ltb t.current a.packet.seq ≡ true
    → take_packet t a ≡ (line_of t (some a.at) ∷ [], opened t a)
unfolding take_packet
take_packet-opened t a h = rw h refl

-- The line that the first packet behind a block writes
take_packets-line :
    (s : Child) (b a : Arrival) (rest : List Arrival)
    → s.current ≤ b.packet.seq
    → b.packet.seq < a.packet.seq
    → (bytes : ℕ) × (lines : List Line) × ((take_packets s (b ∷ a ∷ rest)).0
        ≡ (take_packet s b).0
          ++ record {
            seq = b.packet.seq;
            bytes = bytes;
            recv_time = some a.at;
            sent_time = some b.packet.sent;
          }
            ∷ lines)
unfolding take_packets
take_packets-line s b a rest h k =
    let t = (take_packet s b).1 in
    let (current, sent) = take_packet-last s b h in
    let above : ltb t.current a.packet.seq ≡ true = lt→ltb t.current a.packet.seq (rw current k) in
    (
      t.seq_count * packet_size,
      (take_packets (opened t a) rest).0,
      rw (take_packet-opened t a above, current, sent) refl,
    )

-- In the log there is a line for every block that another one follows: if no packet before `b` is of a
-- later block than `b`, and the next packet `a` is, then some line has the number of the block of `b`
-- and the time at which `b` was sent, but, for the time of arrival, that of `a`, a packet of another
-- block.
pub flow_log-late :
    (before : List Arrival) (b a : Arrival) (rest : List Arrival)
    → 1 ≤ b.packet.seq
    → Every (λ x. x.packet.seq ≤ b.packet.seq) before
    → b.packet.seq < a.packet.seq
    → (lines : List Line) × (bytes : ℕ) × (more : List Line) × ((flow_log
          (before ++ b ∷ a ∷ rest)).0
        ≡ lines
          ++ record {
            seq = b.packet.seq;
            bytes = bytes;
            recv_time = some a.at;
            sent_time = some b.packet.sent;
          }
            ∷ more)
unfolding flow_log
flow_log-late before b a rest first h k =
    let s = (take_packets started before).1 in
    let low = current-take_packets started b.packet.seq before first h in
    let (bytes, lines, own) = take_packets-line s b a rest low k in
    let whole = ap (λ r. r.0) (take_packets-append started before (b ∷ a ∷ rest)) in
    let last = (take_packets started (before ++ b ∷ a ∷ rest)).1 in
    (
      (take_packets started before).0 ++ (take_packet s b).0,
      bytes,
      lines ++ line_of last last.received ∷ [],
      rw (whole, own) (simp append_assoc),
    )
