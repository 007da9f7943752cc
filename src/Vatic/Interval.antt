-- ===== src/Vatic/Interval.antt =====
-- What the sender of Vatic.cpp promises of the numbers of its packets: an interval of consecutive ids.
-- A burst moves its end, and an acknowledgement in it moves its start behind the acknowledged id.
use vatic_udp.Prelude.{
  ℕ, suc, ◌+◌, ◌≤◌, ◌<◌, List, [], ◌∷◌, ◌++◌, ◌≡◌, refl, arith, Bool, true, false, ltb, some,
  length, Bool-cases, ◌⊎◌, inl, inr,
}
use vatic_udp.Vatic.{Packet, Conf, Sender, start}
use vatic_udp.Vatic.Floating.{Doubles, Lawful}
use vatic_udp.Vatic.Sending.{receive_sdu}
use vatic_udp.Vatic.Acks.{find_packet, erase, keep_from, acknowledge, report_ack}
use vatic_udp.Vatic.Limits.{Proper, Valid}
use vatic_udp.Vatic.Window.{Filled, send_pdus-Filled}
use vatic_udp.Vatic.Inflight
use vatic_udp.Vatic.Inflight.{Between, later}
use vatic_udp.Vatic.Steps.{
  Step, sends, acknowledges, reports, takes, Reach, starts, goes_on, Reach-Valid,
}

pub record Interval : Type 0 where
  pub oldest : ℕ
  pub next : ℕ

pub data Move (a b : Interval) : Type 0 where
  issue : a.oldest ≡ b.oldest → a.next ≤ b.next → Move a b
  settle : (id : ℕ) → a.oldest ≤ id → id < a.next → b.oldest ≡ suc id → b.next ≡ a.next → Move a b

pub data Moves : Interval → Type 0 where
  empty : (a : Interval) → a.oldest ≡ 1 → a.next ≡ 1 → Moves a
  moved : (a b : Interval) → Moves a → Move a b → Moves b

-- Packets that are numbered one by one
abbrev pub Numbered : ℕ → ℕ → List Packet → Type 0
Numbered lo hi [] = lo ≡ hi
Numbered lo hi (p ∷ ps) = (p.id ≡ lo) × Numbered (suc lo) hi ps

pub length-le : (lo hi : ℕ) (ps : List Packet) → Between lo hi ps → lo + length ps ≤ hi
length-le lo hi [] h = omega arith
length-le lo hi (p ∷ ps) (b, h) = omega (arith, length-le (suc p.id) hi ps h)

-- As many ids as there is room for are consecutive.
pub Between-Numbered :
    (lo hi : ℕ) (ps : List Packet) → Between lo hi ps → hi ≡ lo + length ps → Numbered lo hi ps
Between-Numbered lo hi [] h e = omega arith
Between-Numbered lo hi (p ∷ ps) (b, h) e =
    let room = length-le (suc p.id) hi ps h in
    let first : p.id ≡ lo = omega arith in
    (first, Between-Numbered (suc lo) hi ps (rw first at h) (omega arith))

pub Numbered-append :
    (lo mid hi : ℕ) (ps qs : List Packet)
    → Numbered lo mid ps
    → Numbered mid hi qs
    → Numbered lo hi (ps ++ qs)
Numbered-append lo mid hi [] qs e k = rw e k
Numbered-append lo mid hi (p ∷ ps) qs (b, h) k = (b, Numbered-append (suc lo) mid hi ps qs h k)

pub later-Numbered :
    (id lo hi : ℕ) (ps : List Packet)
    → Between lo hi ps
    → Numbered lo hi ps
    → lo ≤ id
    → id < hi
    → Numbered (suc id) hi (later id ps)
later-Numbered id lo hi [] b e l u = absurd (omega arith)
later-Numbered id lo hi (p ∷ ps) (b, rest) (e, h) l u =
    let older : ltb id p.id ≡ false = ground arith in
    elim (Bool-cases (ltb lo id)) [
      | inl more ↦ rw older (later-Numbered id (suc lo) hi ps (rw e at rest) h (ground arith) u)
      | inr last ↦
          let same : lo ≡ id = ground arith in
          rw (older, Inflight.later-all id (suc p.id) hi ps rest (ground arith)) (rw same at h)
    ]

pub Numbered-Between : (lo hi : ℕ) (ps : List Packet) → Numbered lo hi ps → Between lo hi ps
Numbered-Between lo hi [] e = omega arith
Numbered-Between lo hi (p ∷ ps) (e, h) = (omega arith, rw e (Numbered-Between (suc lo) hi ps h))

-- The interval of a state's packets
pub record Holds {fl : Doubles} (a : Interval) (s : Sender fl) : Type 0 where
  pub numbered : Numbered a.oldest a.next s.cwnd.inflight
  pub next_id : a.next ≡ s.curr_pkt_id

module _ {fl : Doubles} (law : Lawful fl) (conf : Conf fl) (proper : Proper conf) where
  -- Every step is a move of the interval, or leaves it as it is.
  abbrev pub Simulates : Interval → Sender fl → Type 0
  Simulates a s' = (b : Interval) × ((a ≡ b) ⊎ Move a b) × Holds b s'

  issue-Simulates :
      (now : ℕ) (a : Interval) (s s' : Sender fl)
      → Holds a s
      → Filled law conf proper now s s'
      → Simulates a s'
  issue-Simulates now a s s' h f =
      let b = f.burst in
      let fresh = Between-Numbered s.curr_pkt_id s'.curr_pkt_id f.new b.ordered b.count in
      let all =
        Numbered-append a.oldest s.curr_pkt_id s'.curr_pkt_id s.cwnd.inflight f.new
          (rw h.next_id at h.numbered) fresh in
      (
        record { oldest = a.oldest; next = s'.curr_pkt_id },
        inr (issue refl (omega (arith, b.count, h.next_id))),
        record { numbered = rw f.inflight_eq all; next_id = refl },
      )

  settle-Simulates :
      (now id : ℕ) (p : Packet) (a : Interval) (s : Sender fl)
      → find_packet id s.cwnd.inflight ≡ some p
      → Holds a s
      → Simulates a (acknowledge fl now p s)
  unfolding acknowledge
  settle-Simulates now id p a s e h =
      let ps = s.cwnd.inflight in
      let ordered = Numbered-Between a.oldest a.next ps h.numbered in
      let inside = Inflight.find_packet-lt id a.oldest a.next ps p ordered e in
      let same : p.id ≡ id = Inflight.find_packet-id id ps p e in
      let left : keep_from p.id (erase p.id ps) ≡ later id ps =
        rw same (Inflight.keep_from-erase id ps) in
      (
        record { oldest = suc id; next = a.next },
        inr (settle id inside.0 inside.1 refl refl),
        record {
          numbered =
              rw left (later-Numbered id a.oldest a.next ps ordered h.numbered inside.0 inside.1);
          next_id = h.next_id;
        },
      )

  -- A report and new data keep the packets and their numbers.
  report_ack-Simulates :
      (now rtt : ℕ) (loss : Bool) (a : Interval) (s : Sender fl)
      → Holds a s
      → Simulates a (report_ack fl conf now rtt loss s)
  unfolding report_ack
  report_ack-Simulates now rtt true a s h =
      (a, inl refl, record { numbered = h.numbered; next_id = h.next_id })
  report_ack-Simulates now rtt false a s h =
      (a, inl refl, record { numbered = h.numbered; next_id = h.next_id })

  receive_sdu-Simulates :
      (n : ℕ) (a : Interval) (s : Sender fl) → Holds a s → Simulates a (receive_sdu fl conf n s).1
  unfolding receive_sdu
  receive_sdu-Simulates n a s h = (
    a,
    inl refl,
    record { numbered = ground (arith, h.numbered); next_id = ground (arith, h.next_id) },
  )

  Step-Simulates :
      (a : Interval) (s s' : Sender fl)
      → Step conf s s'
      → Valid fl law conf s
      → Holds a s
      → Simulates a s'
  Step-Simulates a s s' (sends now bound e) v h =
      rw e (issue-Simulates now a s _ h (send_pdus-Filled law conf proper now s v bound))
  Step-Simulates a s s' (acknowledges now id p e d) v h = rw d (settle-Simulates now id p a s e h)
  Step-Simulates a s s' (reports now rtt loss d) v h =
      rw d (report_ack-Simulates now rtt loss a s h)
  Step-Simulates a s s' (takes n d) v h = rw d (receive_sdu-Simulates n a s h)

  extend :
      (a : Interval) (s' : Sender fl)
      → Moves a
      → Simulates a s'
      → (b : Interval) × Moves b × Holds b s'
  extend a s' m (b, inl e, h) = (b, rw e at m, h)
  extend a s' m (b, inr move, h) = (b, moved a b m move, h)

  -- With options that are `Proper`, and while the ids stay below 2 ^ 64, the sender's threads
  -- implement the interval: to every state that they reach belongs an interval that is reached by
  -- its moves, and the packets in flight are the ids in it, one by one.
  pub Reach-Moves : (s : Sender fl) → Reach conf s → (a : Interval) × Moves a × Holds a s
  unfolding start
  Reach-Moves s (starts now _ e) =
      let first : Interval = record { oldest = 1; next = 1 } in
      (first, empty first refl refl, rw e (record { numbered = refl; next_id = refl }))
  Reach-Moves s' (goes_on s _ r step) =
      let (a, m, h) = Reach-Moves s r in
      extend a s' m (Step-Simulates a s s' step (Reach-Valid law conf proper s r) h)
