-- ===== src/Vatic/Link.antt =====
-- The sender of Vatic.cpp and the receiver of Client.cpp on the two ends of a link that may lose
-- packets, but keeps them in order. A packet that `sendto` did not take is in flight and never
-- arrives, which is what a loss directly behind it leaves. Of a data packet, whose type is never set, the link delivers one
-- that is not of the type `ACK`.
pub mod Climbing
pub mod InOrder
use vatic_udp.Prelude.{
  ℕ, zero, suc, ◌+◌, ◌≤◌, ◌<◌, List, [], ◌∷◌, ◌++◌, append_assoc, length, map, ◌≡◌, refl, sym, ap,
  ◌∙◌, arith, Bool, true, false, Option, none, some, Option-cases, ◌⊎◌, inl, inr,
}
use vatic_udp.Vatic.{u64, Packet, Conf, Sender, start}
use vatic_udp.Vatic.Floating.{Doubles, Lawful}
use vatic_udp.Vatic.Sending.{send_pdus, receive_sdu}
use vatic_udp.Vatic.Acks.{find_packet, acknowledge, report_ack, receive}
use vatic_udp.Vatic.Client.{Client, client_start, client_receive}
use vatic_udp.Vatic.Limits.{Proper, Valid}
use vatic_udp.Vatic.Inflight.{Between}

pub record Link (fl : Doubles) : Type 0 where
  pub sender : Sender fl
  pub client : Client
  pub to_client : List Packet
  pub to_sender : List ℕ

abbrev pub drop_packets : ℕ → List Packet → List Packet
drop_packets zero ps = ps
drop_packets (suc n) [] = []
drop_packets (suc n) (p ∷ ps) = drop_packets n ps

-- What a call of `send_pdus` has put in flight
abbrev pub sent_packets : {fl : Doubles} → Sender fl → Sender fl → List Packet
sent_packets s s' = drop_packets (length s.cwnd.inflight) s'.cwnd.inflight

abbrev pub acks_of : Option ℕ → List ℕ
acks_of none = []
acks_of (some id) = id ∷ []

module _ {fl : Doubles} (conf : Conf fl) where
  pub data Event (l l' : Link fl) : Type 0 where
    sends :
        (now : ℕ)
        → l.sender.curr_pkt_id + l.sender.cwnd.free < u64
        → l' ≡ record l {
          sender = send_pdus fl now l.sender;
          to_client = l.to_client ++ sent_packets l.sender (send_pdus fl now l.sender);
        }
        → Event l l'
    delivers :
        (now : ℕ) (p : Packet) (rest : List Packet)
        → l.to_client ≡ p ∷ rest
        → l' ≡ record l {
          client = (client_receive now false p l.client).1;
          to_client = rest;
          to_sender = l.to_sender ++ acks_of (client_receive now false p l.client).0;
        }
        → Event l l'
    loses_packet :
        (before : List Packet) (p : Packet) (behind : List Packet)
        → l.to_client ≡ before ++ p ∷ behind
        → l' ≡ record l { to_client = before ++ behind }
        → Event l l'
    loses_ack :
        (before : List ℕ) (id : ℕ) (behind : List ℕ)
        → l.to_sender ≡ before ++ id ∷ behind
        → l' ≡ record l { to_sender = before ++ behind }
        → Event l l'
    acknowledges :
        (now id : ℕ) (p : Packet) (rest : List ℕ)
        → l.to_sender ≡ id ∷ rest
        → find_packet id l.sender.cwnd.inflight ≡ some p
        → l' ≡ record l { sender = acknowledge fl now p l.sender; to_sender = rest }
        → Event l l'
    reports :
        (now rtt : ℕ) (loss : Bool)
        → l' ≡ record l { sender = report_ack fl conf now rtt loss l.sender }
        → Event l l'
    takes : (n : ℕ) → l' ≡ record l { sender = (receive_sdu fl conf n l.sender).1 } → Event l l'

  pub data Runs : Link fl → Type 0 where
    begins :
        (now : ℕ) (l : Link fl)
        → l ≡ record {
          sender = start fl conf now;
          client = client_start;
          to_client = [];
          to_sender = [];
        }
        → Runs l
    then_comes : (l l' : Link fl) → Runs l → Event l l' → Runs l'
