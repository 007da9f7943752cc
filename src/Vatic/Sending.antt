-- ===== src/Vatic/Sending.antt =====
-- `SendPdus` and `ReceiveSdu` of Vatic.cpp. `MSG_ASSERT` is empty unless the build defines
-- `LOG_ENABLED`, which its makefile does not: what `sendto` returns is ignored, so that a packet that
-- it did not take is in flight like the others.
use vatic_udp.Prelude.{ℕ, zero, suc, ◌+◌, ◌-◌, ◌%◌, List, [], ◌∷◌, ◌++◌, ltb, ◌==◌, if◌then◌else◌}
use vatic_udp.Vatic.{
  u32, u64, max_payload_len, Packet, Cwnd, bytes_in, free_of, log_of, Conf, Sender,
}
use vatic_udp.Vatic.Floating.{Doubles}

abbrev pub min : ℕ → ℕ → ℕ
min a b = if ltb b a then b else a

abbrev pub max : ℕ → ℕ → ℕ
max a b = if ltb a b then b else a

-- `m_timeSentInflight.insert`: an entry that is there stays.
unfoldable pub insert : Packet → List Packet → List Packet
insert p [] = p ∷ []
insert p (q ∷ qs) =
    let later = q ∷ insert p qs in
    if ltb p.id q.id then p ∷ q ∷ qs else if p.id == q.id then q ∷ qs else later

-- `while (dataToSend > 0)`. The result is the next id and the packets in flight.
unfoldable pub send_loop : ℕ → ℕ → ℕ → ℕ → List Packet → ℕ × List Packet
unfolding insert
send_loop now zero left id ps = (id, ps)
send_loop now (suc rounds) left id ps =
    let len = min left max_payload_len in
    let rest =
      send_loop now rounds (left - len) ((id + 1) % u64)
        (insert (record { id = id; sent = now; size = len }) ps) in
    if left == 0 then (id, ps) else rest

-- The used and the free bytes, from the packets in flight.
abbrev pub refresh : List Packet → Cwnd → Cwnd
refresh ps w =
    let used = bytes_in ps % u32 in
    record w { inflight = ps; used = used; free = free_of w.size used }

module _ (fl : Doubles) where
  -- What follows the loop.
  abbrev pub filled : ℕ → Sender fl → ℕ × List Packet → Sender fl
  filled now s (id, ps) =
      let w = refresh ps s.cwnd in
      record s {
        cwnd = w;
        curr_pkt_id = id;
        send_bytes = (s.send_bytes + s.cwnd.free) % u64;
        log_cwnds = s.log_cwnds ++ log_of now w ∷ [];
      }

  -- Every round sends a byte at least, so as many rounds as bytes are enough.
  unfoldable pub send_pdus : ℕ → Sender fl → Sender fl
  unfolding send_loop
  send_pdus now s =
      let sent = send_loop now s.cwnd.free s.cwnd.free s.curr_pkt_id s.cwnd.inflight in
      if s.cwnd.free == 0 then s else filled now s sent

  -- `ReceiveSdu`: how many bytes were taken, and the state. The bytes themselves are left out.
  unfoldable pub receive_sdu : Conf fl → ℕ → Sender fl → ℕ × Sender fl
  receive_sdu conf n s =
      let remaining = (conf.buffer_size + u32 - s.buffer_offset) % u32 in
      let to_insert = min n remaining in
      if to_insert == 0 then (0, s) else (
        to_insert,
        record s {
          buffer_offset = (s.buffer_offset + to_insert) % u32;
          recv_bytes = (s.recv_bytes + n) % u64;
        },
      )
