-- ===== src/Tcp/Receiving.antt =====
-- The log that sender_receiver/receiver.cc keeps of a connection, one line for each block.
pub mod Counts
use vatic_udp.Prelude.{
  ℕ, ◌+◌, ◌*◌, ◌%◌, ◌^◌, List, [], ◌∷◌, ◌++◌, Bool, ltb, if◌then◌else◌, Option, none, some,
}
use vatic_udp.Tcp.Sending.{Time, Packet, packet_size}

-- A packet that `recv` has filled in, the bytes it returned, and the time behind it
pub record Arrival : Type 0 where
  pub packet : Packet
  pub nrecv : ℕ
  pub at : Time

-- A line of the log, under `SEQ, recv_bytes, recv_time, sent_time, delay_s`; the delay is the
-- difference of the two times. A time that was never set is `none`.
pub record Line : Type 0 where
  pub seq : ℕ
  pub bytes : ℕ
  pub recv_time : Option Time
  pub sent_time : Option Time

-- The variables of the child process.
pub record Child : Type 0 where
  pub current : ℕ
  pub seq_count : ℕ
  pub sent : Option Time
  pub received : Option Time
  pub ntotal : ℕ

abbrev pub started : Child
started = record { current = 1; seq_count = 0; sent = none; received = none; ntotal = 0 }

-- The line for the block that `seq` and `seq_count` describe
abbrev pub line_of : Child → Option Time → Line
line_of s recv_time = record {
  seq = s.current;
  bytes = s.seq_count * packet_size;
  recv_time = recv_time;
  sent_time = s.sent;
}

-- The variables behind the first packet of a later block, and behind any other packet
abbrev pub opened : Child → Arrival → Child
opened s a = record {
  current = a.packet.seq;
  seq_count = 1;
  sent = some a.packet.sent;
  received = some a.at;
  ntotal = s.ntotal + a.nrecv;
}

abbrev pub extended : Child → Arrival → Child
extended s a = record s {
  seq_count = (s.seq_count + 1) % 2 ^ 32;
  sent = some a.packet.sent;
  received = some a.at;
  ntotal = s.ntotal + a.nrecv;
}

-- The body of the loop, with `log` set: the lines that it writes, and the variables behind it.
unfoldable pub take_packet : Child → Arrival → List Line × Child
take_packet s a =
    if ltb s.current a.packet.seq
    then (line_of s (some a.at) ∷ [], opened s a)
    else ([], extended s a)

unfoldable pub take_packets : Child → List Arrival → List Line × Child
unfolding take_packet
take_packets s [] = ([], s)
take_packets s (a ∷ rest) =
    let (lines, next) = take_packet s a in
    let (more, last) = take_packets next rest in (lines ++ more, last)

-- The lines between `START FLOW` and `END FLOW`, and the bytes of the latter; the last block is
-- written behind the loop.
unfoldable pub flow_log : List Arrival → List Line × ℕ
unfolding take_packets
flow_log arrivals =
    let (lines, last) = take_packets started arrivals in
    (lines ++ line_of last last.received ∷ [], last.ntotal)
