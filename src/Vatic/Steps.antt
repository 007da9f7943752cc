-- ===== src/Vatic/Steps.antt =====
-- The threads of the sender in Vatic.cpp: one sends, one takes acknowledgements, and one takes data
-- from the application. Each step holds the lock of the window; `Receive` gives it up before it
-- reports, so its two halves are steps of their own, and the others may come in between.
use vatic_udp.Prelude.{ℕ, ◌+◌, ◌<◌, ◌≡◌, Bool, some}
use vatic_udp.Vatic.{u64, Packet, Conf, Sender, start}
use vatic_udp.Vatic.Floating.{Doubles, Lawful}
use vatic_udp.Vatic.Sending.{send_pdus, receive_sdu}
use vatic_udp.Vatic.Acks.{find_packet, acknowledge, report_ack}
use vatic_udp.Vatic.Limits.{Proper, Valid}
use vatic_udp.Vatic.Window.{
  start-Valid, receive_sdu-Valid, send_pdus-Filled, acknowledge-Valid, report_ack-Valid,
}

module _ {fl : Doubles} (conf : Conf fl) where
  pub data Step (s s' : Sender fl) : Type 0 where
    sends : (now : ℕ) → s.curr_pkt_id + s.cwnd.free < u64 → s' ≡ send_pdus fl now s → Step s s'
    acknowledges :
        (now id : ℕ) (p : Packet)
        → find_packet id s.cwnd.inflight ≡ some p
        → s' ≡ acknowledge fl now p s
        → Step s s'
    reports : (now rtt : ℕ) (loss : Bool) → s' ≡ report_ack fl conf now rtt loss s → Step s s'
    takes : (n : ℕ) → s' ≡ (receive_sdu fl conf n s).1 → Step s s'

  pub data Reach : Sender fl → Type 0 where
    starts : (now : ℕ) (s : Sender fl) → s ≡ start fl conf now → Reach s
    goes_on : (s s' : Sender fl) → Reach s → Step s s' → Reach s'

module _ {fl : Doubles} (law : Lawful fl) (conf : Conf fl) (proper : Proper conf) where
  pub Step-Valid : (s s' : Sender fl) → Step conf s s' → Valid fl law conf s → Valid fl law conf s'
  Step-Valid s s' (sends now bound e) v =
      rw e ((send_pdus-Filled law conf proper now s v bound).valid)
  Step-Valid s s' (acknowledges now id p e d) v =
      rw d (acknowledge-Valid law conf proper now id p s e v)
  Step-Valid s s' (reports now rtt loss d) v =
      rw d (report_ack-Valid law conf proper now rtt loss s v)
  Step-Valid s s' (takes n d) v = rw d (receive_sdu-Valid law conf proper n s v)

  -- With options that are `Proper`, in every state that the threads can reach while the ids stay
  -- below 2 ^ 64, the window's size keeps to its limits, its two counters agree with the packets in
  -- flight, of which there are no more bytes than the largest window, and the next packet's id is
  -- larger than all of theirs.
  pub Reach-Valid : (s : Sender fl) → Reach conf s → Valid fl law conf s
  Reach-Valid s (starts now _ e) = rw e (start-Valid law conf proper now)
  Reach-Valid s' (goes_on s _ r step) = Step-Valid s s' step (Reach-Valid s r)
