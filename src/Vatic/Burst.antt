-- ===== src/Vatic/Burst.antt =====
-- The loop of `SendPdus`: the packets that it puts in flight.
use vatic_udp.Prelude.{
  ℕ, zero, suc, ◌+◌, ◌-◌, ◌/◌, ◌%◌, ◌≤◌, ◌<◌, List, [], ◌∷◌, ◌++◌, append_assoc, append-nil, ◌≡◌,
  refl, arith, ◌==◌, length, Every, Bool-cases, inl, inr,
}
use vatic_udp.Vatic.{u64, max_payload_len, Packet, bytes_in}
use vatic_udp.Vatic.Sending.{min, send_loop}
use vatic_udp.Vatic.Inflight.{Between, Between-append, Between-mono, insert-last}

-- Numbered packets from `lo` to `hi`, each with a payload that fits, of `total` bytes in all; none but
-- the last is smaller than it could be, so that there are as few as possible.
pub record Burst (now lo hi total : ℕ) (ps : List Packet) : Type 0 where
  pub ordered : Between lo hi ps
  pub next_id : hi ≡ lo + (total + (max_payload_len - 1)) / max_payload_len
  pub count : hi ≡ lo + length ps
  pub bytes : bytes_in ps ≡ total
  pub fits : Every (λ (p : Packet). (0 < p.size) × (p.size ≤ max_payload_len)) ps
  pub stamped : Every (λ (p : Packet). p.sent ≡ now) ps

-- All the bytes are in flight, behind the packets that were there.
abbrev pub Sent : ℕ → ℕ → ℕ → List Packet → ℕ × List Packet → Type 0
Sent now total id ps result =
    (hi : ℕ) × (new : List Packet) × (result ≡ (hi, ps ++ new)) × Burst now id hi total new

module _ (now id total : ℕ) where
  first_packet : Packet
  first_packet = record { id = id; sent = now; size = min total max_payload_len }

  Burst-cons :
      (hi : ℕ) (new : List Packet)
      → 0 < total
      → Burst now (id + 1) hi (total - min total max_payload_len) new
      → Burst now id hi total (first_packet ∷ new)
  unfolding first_packet
  Burst-cons hi new pos b =
      let following : Between (suc id) hi new =
        Between-mono (suc id) (id + 1) hi new (omega arith) b.ordered in
      record {
        ordered = (omega arith, following);
        next_id = ground (arith, b.next_id);
        count = omega (arith, b.count);
        bytes = ground (arith, b.bytes);
        fits = ((ground arith, ground arith), b.fits);
        stamped = (refl, b.stamped);
      }

pub Burst-nil : (now id : ℕ) → Burst now id id 0 []
Burst-nil now id = record {
  ordered = omega arith;
  next_id = omega arith;
  count = omega arith;
  bytes = refl;
  fits = tt;
  stamped = tt;
}

nothing-Sent : (now id : ℕ) (ps : List Packet) → Sent now 0 id ps (id, ps)
nothing-Sent now id ps = (id, [], rw (append-nil {A = Packet} ps) refl, Burst-nil now id)

-- The rest of the packets behind the first one.
Sent-cons :
    (now total id : ℕ) (ps : List Packet) (r : ℕ × List Packet)
    → 0 < total
    → Sent now (total - min total max_payload_len) (id + 1) (ps ++ first_packet now id total ∷ []) r
    → Sent now total id ps r
Sent-cons now total id ps r pos (hi, new, e, b) = (
  hi,
  first_packet now id total ∷ new,
  rw (append_assoc {A = Packet} ps (first_packet now id total ∷ []) new) at e,
  Burst-cons now id total hi new pos b,
)

-- With as many rounds as bytes, the loop ends by its test, with no byte left.
pub send_loop-Sent :
    (now rounds total id lo : ℕ) (ps : List Packet)
    → total ≤ rounds
    → Between lo id ps
    → id + total < u64
    → Sent now total id ps (send_loop now rounds total id ps)
unfolding send_loop first_packet
send_loop-Sent now zero total id lo ps enough h bound =
    let e : total ≡ 0 = omega arith in rw e (nothing-Sent now id ps)
send_loop-Sent now (suc rounds) total id lo ps enough h bound = elim (Bool-cases (total == 0)) [
  | inl done ↦ let e : total ≡ 0 = ground arith in rw e (nothing-Sent now id ps)
  | inr more ↦
      let pos : 0 < total = ground arith in
      let new_id : (id + 1) % u64 ≡ id + 1 = omega arith in
      let placed = insert-last lo (first_packet now id total) ps h in
      let ordered : Between lo (id + 1) (ps ++ first_packet now id total ∷ []) =
        Between-append lo id (id + 1) ps (first_packet now id total ∷ []) h (omega arith) in
      rw (more, new_id, placed)
        (Sent-cons now total id ps _ pos (
          send_loop-Sent now rounds (total - min total max_payload_len) (id + 1) lo
            (ps ++ first_packet now id total ∷ []) (ground arith) ordered (ground arith)))
]
