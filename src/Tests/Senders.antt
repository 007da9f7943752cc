-- ===== src/Tests/Senders.antt =====
-- The theorems about Vatic's sender at concrete states; a double is a count of thousandths.
use vatic_udp.Prelude.{
  false, ℕ, ◌+◌, ◌-◌, ◌*◌, ◌/◌, ◌≤◌, ◌<◌, List, [], ◌∷◌, ◌≡◌, refl, sym, arith, true, leb, ltb,
  if◌then◌else◌, none, some,
}
use vatic_udp.Vatic.{Packet, plain, Conf, Sender, start, bytes_in}
use vatic_udp.Vatic.Floating.{Doubles, Lawful}
use vatic_udp.Vatic.Sending.{send_pdus}
use vatic_udp.Vatic.Acks.{find_packet, any_before, receive}
use vatic_udp.Vatic.Centroids.{learn}
use vatic_udp.Vatic.Limits.{Proper, Valid, Learned, learn-Learned}
use vatic_udp.Vatic.Window.{Filled, start-Valid, send_pdus-Filled}
use vatic_udp.Vatic.Steps.{Reach, starts, goes_on, sends, Reach-Valid}
use vatic_udp.Vatic.Interval.{Interval, Moves, Holds, Reach-Moves}
use vatic_udp.Vatic.Answers.{
  Answered, receive-Answered, receive-loss, receive-stale, send_pdus-receive,
}
use vatic_udp.Vatic.Client.{client_start, client_receive}
use vatic_udp.Vatic.Link.{Link, Event, delivers, loses_packet, Runs, begins, then_comes}
use vatic_udp.Vatic.Link.InOrder.{receive-Runs}

abbrev pub thousandths : Doubles
thousandths = record {
  Double = ℕ;
  of_u32 = λ n. n * 1000;
  exp_u32 = λ n. n;
  tanh_u32 = λ n. if ltb 0 n then 1 else 0;
  half = 500;
  tenth_more = λ x. x * 11 / 10;
  tenth_less = λ x. x * 9 / 10;
  dist = λ x y. x - y + (y - x);
  add = λ x y. x + y;
  over = λ x n. x / n;
  ratio = λ part all. part * 1000 / all;
  lt = ltb;
  le = leb;
  shrink = λ a n. n * (2000 - a) / 2000;
}

ratio-le : (part all : ℕ) → part ≤ all → 0 < all → part * 1000 / all ≤ 1000
ratio-le part all h pos = grind arith

shrink-le : (a n : ℕ) → a ≤ 1000 → n * (2000 - a) / 2000 ≤ n
shrink-le a n h = grind arith

thousandths-Lawful : Lawful thousandths
thousandths-Lawful = record {
  IsUnit = λ a. a ≤ 1000;
  half-IsUnit = omega arith;
  ratio-IsUnit = ratio-le;
  shrink-le = shrink-le;
}

abbrev conf : Conf thousandths
conf = record {
  alpha_thres = 600;
  backlog_len = 8;
  buffer_size = 100;
  cwnd_max = 6000;
  init_cwnd = 2500;
  preprocess = plain;
}

conf-Proper : Proper conf
conf-Proper = omega arith

-- Three packets, of which the last is short, fill the first window.
abbrev first_burst : List Packet
first_burst =
    record { id = 1; sent = 10; size = 1000 }
    ∷ record { id = 2; sent = 10; size = 1000 }
    ∷ record { id = 3; sent = 10; size = 500 }
    ∷ []

-- The state behind the first burst
abbrev busy : Sender thousandths
busy = record (start thousandths conf 0) {
  cwnd = record { size = 2500; free = 0; used = 2500; inflight = first_burst };
  curr_pkt_id = 4;
  send_bytes = 2500;
  log_cwnds =
      record { time = 0; size = 2500; used = 0; free = 2500 }
      ∷ record { time = 10; size = 2500; used = 2500; free = 0 }
      ∷ [];
}

first_sends : send_pdus thousandths 10 (start thousandths conf 0) ≡ busy
unfolding send_pdus start
first_sends = refl

busy-Reach : Reach conf busy
unfolding start
busy-Reach =
    goes_on (start thousandths conf 0) busy (starts 0 (start thousandths conf 0) refl)
      (sends 10 (omega arith) (sym first_sends))

busy-Valid : Valid thousandths thousandths-Lawful conf busy
busy-Valid = Reach-Valid thousandths-Lawful conf conf-Proper busy busy-Reach

Reach-Valid_example : Valid thousandths thousandths-Lawful conf busy
Reach-Valid_example = Reach-Valid thousandths-Lawful conf conf-Proper busy busy-Reach

Reach-Moves_example : (a : Interval) × Moves a × Holds a busy
Reach-Moves_example = Reach-Moves thousandths-Lawful conf conf-Proper busy busy-Reach

send_pdus-Filled_example :
    Filled thousandths-Lawful conf conf-Proper 10
      (start thousandths conf 0)
      (send_pdus thousandths 10 (start thousandths conf 0))
unfolding start
send_pdus-Filled_example =
    send_pdus-Filled thousandths-Lawful conf conf-Proper 10 (start thousandths conf 0)
      (start-Valid thousandths-Lawful conf conf-Proper 0) (omega arith)

second : Packet
second = record { id = 2; sent = 10; size = 1000 }

third : Packet
third = record { id = 3; sent = 10; size = 500 }

find-second : find_packet 2 first_burst ≡ some second
unfolding find_packet second
find-second = refl

find-third : find_packet 3 first_burst ≡ some third
unfolding find_packet third
find-third = refl

older-second : any_before 2 first_burst ≡ true
unfolding any_before
older-second = refl

receive-Answered_example :
    (s' : Sender thousandths) × (receive thousandths conf 60 true 2 busy ≡ some s')
    × Answered thousandths-Lawful conf conf-Proper 2 busy s'
receive-Answered_example =
    receive-Answered thousandths-Lawful conf conf-Proper 60 2 busy second busy-Valid find-second

receive-loss_example :
    (s' : Sender thousandths) × (receive thousandths conf 60 true 2 busy ≡ some s')
    × (s'.cwnd.size ≤ 2500)
    × (s'.clusters ≡ busy.clusters)
receive-loss_example =
    receive-loss thousandths-Lawful conf conf-Proper 60 2 busy second busy-Valid find-second
      older-second

receive-stale_example :
    (s' : Sender thousandths) × (receive thousandths conf 60 true 2 busy ≡ some s')
    × (receive thousandths conf 61 true 1 s' ≡ none)
receive-stale_example =
    receive-stale thousandths-Lawful conf conf-Proper 60 61 2 1 busy second busy-Valid find-second
      (omega arith)

send_pdus-receive_example :
    (s' : Sender thousandths) × (receive thousandths conf 60 true 3 busy ≡ some s')
    × (bytes_in (send_pdus thousandths 70 s').cwnd.inflight ≡ s'.cwnd.size)
    × (2500 ≤ bytes_in (send_pdus thousandths 70 s').cwnd.inflight)
send_pdus-receive_example =
    send_pdus-receive thousandths-Lawful conf conf-Proper 60 70 3 busy third busy-Valid
      (omega arith) refl find-third

learn-Learned_example :
    Learned thousandths thousandths-Lawful conf (learn thousandths conf 50 busy.clusters)
learn-Learned_example =
    learn-Learned thousandths-Lawful conf conf-Proper 50 busy.clusters busy-Valid.learned

abbrev full_buffer : Sender thousandths
full_buffer = record busy { buffer_offset = 100 }

-- Without a loss the first reply is learned, and the window grows half the way to its largest size.
grown :
    (s' : Sender thousandths) × (receive thousandths conf 60 true 1 busy ≡ some s')
    × (s'.cwnd.size ≡ 4250)
unfolding receive start
grown = (_, refl, refl)

-- The first burst is sent, its first packet is lost, and the second one is answered.
abbrev quiet : Link thousandths
quiet = record {
  sender = start thousandths conf 0;
  client = client_start;
  to_client = [];
  to_sender = [];
}

abbrev sent : Link thousandths
sent = record quiet { sender = busy; to_client = first_burst }

abbrev lost : Link thousandths
lost = record sent { to_client = second ∷ third ∷ [] }

abbrev answered : Link thousandths
answered = record lost {
  client = (client_receive 40 false second client_start).1;
  to_client = third ∷ [];
  to_sender = 2 ∷ [];
}

answered-Runs : Runs conf answered
unfolding start send_pdus client_receive second third
answered-Runs =
    then_comes lost answered
      (then_comes sent lost
        (then_comes quiet sent (begins 0 quiet refl) (Event.sends 10 (omega arith) refl))
        (loses_packet [] (record { id = 1; sent = 10; size = 1000 }) (second ∷ third ∷ []) refl
          refl))
      (delivers 40 second (third ∷ []) refl refl)

receive-Runs_example :
    (s' : Sender thousandths) × (receive thousandths conf 60 true 2 answered.sender ≡ some s')
receive-Runs_example =
    receive-Runs thousandths-Lawful conf conf-Proper 60 2 [] answered answered-Runs refl
