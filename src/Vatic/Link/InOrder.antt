-- ===== src/Vatic/Link/InOrder.antt =====
-- Acknowledgements on a link that keeps the order are always of packets in flight.
use mathlib.Core.List.{map-append}
use vatic_udp.Prelude.{
  ℕ, suc, List, [], ◌∷◌, ◌++◌, append_assoc, length, ◌≡◌, refl, ap, ◌∙◌, arith, true, false, some,
}
use vatic_udp.Vatic.{Packet, Conf, Sender, start}
use vatic_udp.Vatic.Floating.{Doubles, Lawful}
use vatic_udp.Vatic.Sending.{send_pdus, receive_sdu}
use vatic_udp.Vatic.Acks.{find_packet, erase, keep_from, acknowledge, receive}
use vatic_udp.Vatic.Client.{client_start, client_receive}
use vatic_udp.Vatic.Limits.{Proper, Valid}
use vatic_udp.Vatic.Inflight
use vatic_udp.Vatic.Inflight.{Between, later}
use vatic_udp.Vatic.Answers.{receive-Answered, report_ack-cwnd}
use vatic_udp.Vatic.Window.{
  Filled, start-Valid, receive_sdu-Valid, send_pdus-Filled, acknowledge-Valid, report_ack-Valid,
}
use vatic_udp.Vatic.Interval.{
  Numbered, Between-Numbered, Numbered-append, later-Numbered, Numbered-Between,
}
use vatic_udp.Vatic.Link.Climbing.{
  Climbing, Climbing-le, Climbing-append, Climbing-remove, ids, Between-Climbing,
  drop_packets-append, find_packet-Numbered,
}
use vatic_udp.Vatic.Link.{
  Link, drop_packets, sent_packets, Event, sends, delivers, loses_packet, loses_ack, acknowledges,
  reports, takes, Runs, begins, then_comes, acks_of,
}

module _ {fl : Doubles} (law : Lawful fl) (conf : Conf fl) (proper : Proper conf) where
  -- The packets in flight are the ids from `oldest` on, and the acknowledgements and the packets on
  -- the link are some of them, in order.
  record InOrder (l : Link fl) : Type 0 where
    oldest : ℕ
    valid : Valid fl law conf l.sender
    numbered : Numbered oldest l.sender.curr_pkt_id l.sender.cwnd.inflight
    climbing : Climbing oldest l.sender.curr_pkt_id (l.to_sender ++ ids l.to_client)

  head_in_flight :
      (l : Link fl) (id : ℕ) (rest : List ℕ)
      → InOrder l
      → l.to_sender ≡ id ∷ rest
      → (p : Packet) × (find_packet id l.sender.cwnd.inflight ≡ some p)
  head_in_flight l id rest o e =
      let c = rw e at o.climbing in
      find_packet-Numbered id o.oldest l.sender.curr_pkt_id l.sender.cwnd.inflight o.numbered c.0
        (Climbing-le (suc id) l.sender.curr_pkt_id (rest ++ ids l.to_client) c.1)

  sends-InOrder :
      (now : ℕ) (l : Link fl) (s' : Sender fl)
      → InOrder l
      → Filled law conf proper now l.sender s'
      → InOrder (record l { sender = s'; to_client = l.to_client ++ sent_packets l.sender s' })
  sends-InOrder now l s' o f =
      let new = f.new in
      let b = f.burst in
      let gone : sent_packets l.sender s' ≡ new =
        ap (drop_packets (length l.sender.cwnd.inflight)) f.inflight_eq
        ∙ drop_packets-append l.sender.cwnd.inflight new in
      let next = l.sender.curr_pkt_id in
      let fresh = Between-Numbered next s'.curr_pkt_id new b.ordered b.count in
      let all =
        Climbing-append o.oldest next s'.curr_pkt_id (l.to_sender ++ ids l.to_client) (ids new)
          o.climbing (Between-Climbing next s'.curr_pkt_id new b.ordered) in
      record {
        oldest = o.oldest;
        valid = f.valid;
        numbered = rw f.inflight_eq (
            Numbered-append o.oldest next s'.curr_pkt_id l.sender.cwnd.inflight new o.numbered
              fresh);
        climbing =
            rw (gone, map-append (λ (p : Packet). p.id) l.to_client new)
              (rw (append_assoc l.to_sender (ids l.to_client) (ids new)) at all);
      }

  acknowledges-InOrder :
      (now id : ℕ) (p : Packet) (rest : List ℕ) (l : Link fl)
      → l.to_sender ≡ id ∷ rest
      → find_packet id l.sender.cwnd.inflight ≡ some p
      → InOrder l
      → InOrder (record l { sender = acknowledge fl now p l.sender; to_sender = rest })
  unfolding acknowledge
  acknowledges-InOrder now id p rest l e f o =
      let ps = l.sender.cwnd.inflight in
      let next = l.sender.curr_pkt_id in
      let c = rw e at o.climbing in
      let same : p.id ≡ id = Inflight.find_packet-id id ps p f in
      let left : keep_from p.id (erase p.id ps) ≡ later id ps =
        rw same (Inflight.keep_from-erase id ps) in
      record {
        oldest = suc id;
        valid = acknowledge-Valid law conf proper now id p l.sender f o.valid;
        numbered = rw left (
            later-Numbered id o.oldest next ps (Numbered-Between o.oldest next ps o.numbered)
              o.numbered c.0 (Climbing-le (suc id) next (rest ++ ids l.to_client) c.1));
        climbing = c.1;
      }

  delivers-InOrder :
      (now : ℕ) (p : Packet) (rest : List Packet) (l : Link fl)
      → l.to_client ≡ p ∷ rest
      → InOrder l
      → InOrder (record l {
        client = (client_receive now false p l.client).1;
        to_client = rest;
        to_sender = l.to_sender ++ acks_of (client_receive now false p l.client).0;
      })
  unfolding client_receive
  delivers-InOrder now p rest l e o = record {
    oldest = o.oldest;
    valid = o.valid;
    numbered = o.numbered;
    climbing = rw (append_assoc l.to_sender (p.id ∷ []) (ids rest)) (rw e at o.climbing);
  }

  loses_packet-InOrder :
      (before : List Packet) (p : Packet) (behind : List Packet) (l : Link fl)
      → l.to_client ≡ before ++ p ∷ behind
      → InOrder l
      → InOrder (record l { to_client = before ++ behind })
  loses_packet-InOrder before p behind l e o =
      let c =
        rw
          (
            e,
            map-append (λ (q : Packet). q.id) before (p ∷ behind),
            ← append_assoc l.to_sender (ids before) (p.id ∷ ids behind),
          )
          at o.climbing in
      record {
        oldest = o.oldest;
        valid = o.valid;
        numbered = o.numbered;
        climbing =
            rw
              (
                map-append (λ (q : Packet). q.id) before behind,
                ← append_assoc l.to_sender (ids before) (ids behind),
              )
              (Climbing-remove o.oldest l.sender.curr_pkt_id (l.to_sender ++ ids before) p.id
                (ids behind) c);
      }

  loses_ack-InOrder :
      (before : List ℕ) (id : ℕ) (behind : List ℕ) (l : Link fl)
      → l.to_sender ≡ before ++ id ∷ behind
      → InOrder l
      → InOrder (record l { to_sender = before ++ behind })
  loses_ack-InOrder before id behind l e o =
      let c = rw (e, append_assoc before (id ∷ behind) (ids l.to_client)) at o.climbing in
      record {
        oldest = o.oldest;
        valid = o.valid;
        numbered = o.numbered;
        climbing =
            rw (append_assoc before behind (ids l.to_client)) (
              Climbing-remove o.oldest l.sender.curr_pkt_id before id (behind ++ ids l.to_client)
                c);
      }

  -- A step of the sender that keeps its packets
  keeps-InOrder :
      (l : Link fl) (s' : Sender fl)
      → Valid fl law conf s'
      → s'.curr_pkt_id ≡ l.sender.curr_pkt_id
      → s'.cwnd.inflight ≡ l.sender.cwnd.inflight
      → InOrder l
      → InOrder (record l { sender = s' })
  keeps-InOrder l s' v next same o = record {
    oldest = o.oldest;
    valid = v;
    numbered = rw (next, same) o.numbered;
    climbing = rw next o.climbing;
  }

  receive_sdu-keeps :
      (n : ℕ) (s : Sender fl)
      → ((receive_sdu fl conf n s).1.curr_pkt_id ≡ s.curr_pkt_id)
        × ((receive_sdu fl conf n s).1.cwnd.inflight ≡ s.cwnd.inflight)
  unfolding receive_sdu
  receive_sdu-keeps n s = (ground arith, ground arith)

  Event-InOrder : (l l' : Link fl) → Event conf l l' → InOrder l → InOrder l'
  Event-InOrder l l' (sends now bound d) o = rw d (
      sends-InOrder now l (send_pdus fl now l.sender) o
        (send_pdus-Filled law conf proper now l.sender o.valid bound))
  Event-InOrder l l' (delivers now p rest e d) o = rw d (delivers-InOrder now p rest l e o)
  Event-InOrder l l' (loses_packet before p behind e d) o =
      rw d (loses_packet-InOrder before p behind l e o)
  Event-InOrder l l' (loses_ack before id behind e d) o =
      rw d (loses_ack-InOrder before id behind l e o)
  Event-InOrder l l' (acknowledges now id p rest e f d) o =
      rw d (acknowledges-InOrder now id p rest l e f o)
  Event-InOrder l l' (reports now rtt loss d) o =
      let kept = report_ack-cwnd law conf proper now rtt loss l.sender in
      rw d (
        keeps-InOrder l _ (report_ack-Valid law conf proper now rtt loss l.sender o.valid) kept.1
          kept.0 o)
  Event-InOrder l l' (takes n d) o =
      let kept = receive_sdu-keeps n l.sender in
      rw d
        (keeps-InOrder l _ (receive_sdu-Valid law conf proper n l.sender o.valid) kept.0 kept.1 o)

  Runs-InOrder : (l : Link fl) → Runs conf l → InOrder l
  unfolding start client_start
  Runs-InOrder l (begins now _ e) = rw e (record {
    oldest = 1;
    valid = start-Valid law conf proper now;
    numbered = refl;
    climbing = omega arith;
  })
  Runs-InOrder l' (then_comes l _ r event) = Event-InOrder l l' event (Runs-InOrder l r)

  -- With options that are `Proper`, while the ids stay below 2 ^ 64, and if the link keeps the order,
  -- then, whatever it loses and however the threads take turns, an acknowledgement that arrives never
  -- ends the sender's process.
  pub receive-Runs :
      (now id : ℕ) (rest : List ℕ) (l : Link fl)
      → Runs conf l
      → l.to_sender ≡ id ∷ rest
      → (s' : Sender fl) × (receive fl conf now true id l.sender ≡ some s')
  receive-Runs now id rest l r e =
      let o = Runs-InOrder l r in
      let (p, f) = head_in_flight l id rest o e in
      let (s', d, a) = receive-Answered law conf proper now id l.sender p o.valid f in (s', d)
