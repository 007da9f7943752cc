-- ===== src/Vatic/Answers.antt =====
-- `Receive` of Vatic.cpp, whole: an acknowledgement, and the window that it leaves.
use vatic_udp.Prelude.{
  ℕ, suc, ◌+◌, ◌-◌, ◌%◌, ◌≤◌, ◌<◌, List, [], ◌∷◌, ◌≡◌, refl, ap, ◌∙◌, arith, Bool, true, false,
  none, some, inl,
}
use vatic_udp.Vatic.{u32, u64, Packet, bytes_in, Conf, Sender}
use vatic_udp.Vatic.Floating.{Doubles, Lawful}
use vatic_udp.Vatic.Sending.{send_pdus}
use vatic_udp.Vatic.Acks.{find_packet, erase, any_before, acknowledge, report_ack, receive}
use vatic_udp.Vatic.Limits.{Proper, Valid}
use vatic_udp.Vatic.Window.{Filled, send_pdus-Filled, acknowledge-Valid, report_ack-Valid}
use vatic_udp.Vatic.Inflight
use vatic_udp.Vatic.Inflight.{Between, later}

module _ {fl : Doubles} (law : Lawful fl) (conf : Conf fl) (proper : Proper conf) where
  pub report_ack-cwnd :
      (now rtt : ℕ) (loss : Bool) (s : Sender fl)
      → ((report_ack fl conf now rtt loss s).cwnd.inflight ≡ s.cwnd.inflight)
        × ((report_ack fl conf now rtt loss s).curr_pkt_id ≡ s.curr_pkt_id)
  unfolding report_ack
  report_ack-cwnd now rtt true s = (refl, refl)
  report_ack-cwnd now rtt false s = (refl, refl)

  report_ack-loss :
      (now rtt : ℕ) (s : Sender fl)
      → Valid fl law conf s
      → ((report_ack fl conf now rtt true s).cwnd.size ≤ s.cwnd.size)
        × ((report_ack fl conf now rtt true s).clusters ≡ s.clusters)
  unfolding report_ack
  report_ack-loss now rtt s v =
      (ground (arith, law.shrink-le s.clusters.alpha s.cwnd.size v.learned.unit, v.size_ge), refl)

  -- What an acknowledgement of a packet in flight leaves
  pub record Answered (id : ℕ) (s s' : Sender fl) : Type 0 where
    pub valid : Valid fl law conf s'
    pub inflight_eq : s'.cwnd.inflight ≡ later id s.cwnd.inflight
    pub next_id : s'.curr_pkt_id ≡ s.curr_pkt_id

  -- The state that `receive` gives, for a packet in flight.
  abbrev pub answer : ℕ → ℕ → Packet → Sender fl → Sender fl
  answer now id p s =
      report_ack fl conf now ((now - p.sent) % u32) (any_before id (erase id s.cwnd.inflight))
        (acknowledge fl now p s)

  receive-answer :
      (now id : ℕ) (s : Sender fl) (p : Packet)
      → find_packet id s.cwnd.inflight ≡ some p
      → receive fl conf now true id s ≡ some (answer now id p s)
  unfolding receive
  receive-answer now id s p e = rw e refl

  acknowledge-inflight :
      (now id : ℕ) (p : Packet) (s : Sender fl)
      → find_packet id s.cwnd.inflight ≡ some p
      → (acknowledge fl now p s).cwnd.inflight ≡ later id s.cwnd.inflight
  unfolding acknowledge
  acknowledge-inflight now id p s e =
      rw (Inflight.find_packet-id id s.cwnd.inflight p e)
        (Inflight.keep_from-erase id s.cwnd.inflight)

  acknowledge-curr_pkt_id :
      (now : ℕ) (p : Packet) (s : Sender fl) → (acknowledge fl now p s).curr_pkt_id ≡ s.curr_pkt_id
  unfolding acknowledge
  acknowledge-curr_pkt_id now p s = refl

  -- With options that are `Proper`, from a valid state, the acknowledgement of a packet in flight
  -- takes it and all older ones out of flight and keeps the newer ones, and the state that it
  -- leaves is valid.
  pub receive-Answered :
      (now id : ℕ) (s : Sender fl) (p : Packet)
      → Valid fl law conf s
      → find_packet id s.cwnd.inflight ≡ some p
      → (s' : Sender fl) × (receive fl conf now true id s ≡ some s') × Answered id s s'
  receive-Answered now id s p v e =
      let t = acknowledge fl now p s in
      let loss = any_before id (erase id s.cwnd.inflight) in
      let w = report_ack-cwnd now ((now - p.sent) % u32) loss t in
      (
        answer now id p s,
        receive-answer now id s p e,
        record {
          valid =
              report_ack-Valid law conf proper now _ loss t
                (acknowledge-Valid law conf proper now id p s e v);
          inflight_eq = w.0 ∙ acknowledge-inflight now id p s e;
          next_id = w.1 ∙ acknowledge-curr_pkt_id now p s;
        },
      )

  acknowledge-keeps :
      (now : ℕ) (p : Packet) (s : Sender fl)
      → ((acknowledge fl now p s).cwnd.size ≡ s.cwnd.size)
        × ((acknowledge fl now p s).clusters ≡ s.clusters)
  unfolding acknowledge
  acknowledge-keeps now p s = (refl, refl)

  -- With options that are `Proper`, from a valid state, the acknowledgement of a packet in flight
  -- while an older one is in flight does not make the window larger, and nothing is learned from
  -- its round-trip time.
  pub receive-loss :
      (now id : ℕ) (s : Sender fl) (p : Packet)
      → Valid fl law conf s
      → find_packet id s.cwnd.inflight ≡ some p
      → any_before id s.cwnd.inflight ≡ true
      → (s' : Sender fl) × (receive fl conf now true id s ≡ some s')
        × (s'.cwnd.size ≤ s.cwnd.size)
        × (s'.clusters ≡ s.clusters)
  receive-loss now id s p v e older =
      let t = acknowledge fl now p s in
      let lost : any_before id (erase id s.cwnd.inflight) ≡ true =
        Inflight.any_before-erase id s.cwnd.inflight ∙ older in
      let same = acknowledge-keeps now p s in
      let smaller =
        report_ack-loss now ((now - p.sent) % u32) t
          (acknowledge-Valid law conf proper now id p s e v) in
      (
        report_ack fl conf now ((now - p.sent) % u32) true t,
        rw lost at (receive-answer now id s p e),
        omega (arith, smaller.0, same.0),
        smaller.1 ∙ same.1,
      )

  receive-outside :
      (now id : ℕ) (s : Sender fl)
      → find_packet id s.cwnd.inflight ≡ none
      → receive fl conf now true id s ≡ none
  unfolding receive
  receive-outside now id s e = rw e refl

  -- With options that are `Proper`, from a valid state, after the acknowledgement of a packet in
  -- flight, one of the same packet or of an older one ends the process.
  pub receive-stale :
      (now now' id id' : ℕ) (s : Sender fl) (p : Packet)
      → Valid fl law conf s
      → find_packet id s.cwnd.inflight ≡ some p
      → id' ≤ id
      → (s' : Sender fl) × (receive fl conf now true id s ≡ some s')
        × (receive fl conf now' true id' s' ≡ none)
  receive-stale now now' id id' s p v e l =
      let (s', r, a) = receive-Answered now id s p v e in
      let inside = Inflight.find_packet-lt id 1 s.curr_pkt_id s.cwnd.inflight p v.ordered e in
      let newer = Inflight.later-Between id 1 s.curr_pkt_id s.cwnd.inflight v.ordered inside.1 in
      (
        s',
        r,
        receive-outside now' id' s' (
            rw a.inflight_eq (
              Inflight.find_packet-outside id' (suc id) s.curr_pkt_id (later id s.cwnd.inflight)
                newer (inl (omega arith)))),
      )

  alone : (n : ℕ) (ps : List Packet) → Between n n ps → ps ≡ []
  alone n [] h = refl
  alone n (p ∷ ps) (b, h) = absurd (omega (arith, Inflight.Between-le (suc p.id) n ps h))

  Filled-whole :
      (now : ℕ) (s s' : Sender fl)
      → s.cwnd.inflight ≡ []
      → s.cwnd.free ≡ s.cwnd.size
      → Filled law conf proper now s s'
      → bytes_in s'.cwnd.inflight ≡ s.cwnd.size
  Filled-whole now s s' none_left free f = rw (f.inflight_eq, none_left) (f.burst.bytes ∙ free)

  -- With options that are `Proper`, from a valid state, the acknowledgement of the newest packet,
  -- if that is in flight, ends the burst: the next call of `send_pdus` then puts a whole window in
  -- flight, of the initial size at least, if the ids stay below 2 ^ 64.
  pub send_pdus-receive :
      (now later_on id : ℕ) (s : Sender fl) (p : Packet)
      → Valid fl law conf s
      → s.curr_pkt_id + conf.cwnd_max < u64
      → suc id ≡ s.curr_pkt_id
      → find_packet id s.cwnd.inflight ≡ some p
      → (s' : Sender fl) × (receive fl conf now true id s ≡ some s')
        × (bytes_in (send_pdus fl later_on s').cwnd.inflight ≡ s'.cwnd.size)
        × (conf.init_cwnd ≤ bytes_in (send_pdus fl later_on s').cwnd.inflight)
  send_pdus-receive now later_on id s p v bound newest e =
      let (s', r, a) = receive-Answered now id s p v e in
      let behind =
        Inflight.later-Between id 1 s.curr_pkt_id s.cwnd.inflight v.ordered (omega arith) in
      let none_left : s'.cwnd.inflight ≡ [] =
        a.inflight_eq ∙ alone s.curr_pkt_id (later id s.cwnd.inflight) (rw newest at behind) in
      let unused : s'.cwnd.used ≡ 0 = a.valid.used_eq ∙ ap bytes_in none_left in
      let free : s'.cwnd.free ≡ s'.cwnd.size = ground (arith, a.valid.free_eq, unused) in
      let sent =
        send_pdus-Filled law conf proper later_on s' a.valid
          (omega (arith, a.next_id, free, a.valid.size_le)) in
      let whole = Filled-whole later_on s' (send_pdus fl later_on s') none_left free sent in
      (s', r, whole, omega (arith, whole, a.valid.size_ge))
