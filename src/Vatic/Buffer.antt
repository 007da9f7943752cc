-- ===== src/Vatic/Buffer.antt =====
-- The application's buffer of Vatic.cpp: the sender never takes data out of it.
use vatic_udp.Prelude.{ℕ, ◌≡◌, refl, ap, ◌∙◌, arith, Bool, true, false, ◌==◌, Bool-cases, inl, inr}
use vatic_udp.Vatic.{Packet, Conf, Sender}
use vatic_udp.Vatic.Floating.{Doubles}
use vatic_udp.Vatic.Sending.{send_pdus, receive_sdu}
use vatic_udp.Vatic.Acks.{acknowledge, report_ack}
use vatic_udp.Vatic.Steps.{Step, sends, acknowledges, reports, takes}

-- Some steps, one after the other
pub data Steps {fl : Doubles} (conf : Conf fl) (s : Sender fl) : Sender fl → Type 0 where
  ready : (s' : Sender fl) → s' ≡ s → Steps conf s s'
  further : (s' s'' : Sender fl) → Steps conf s s' → Step conf s' s'' → Steps conf s s''

module _ {fl : Doubles} (conf : Conf fl) where
  send_pdus-buffer_offset :
      (now : ℕ) (s : Sender fl) → (send_pdus fl now s).buffer_offset ≡ s.buffer_offset
  unfolding send_pdus
  send_pdus-buffer_offset now s = elim (Bool-cases (s.cwnd.free == 0)) [
    | inl full ↦ rw full
    | inr room ↦ rw room
  ]

  report_ack-buffer_offset :
      (now rtt : ℕ) (loss : Bool) (s : Sender fl)
      → (report_ack fl conf now rtt loss s).buffer_offset ≡ s.buffer_offset
  unfolding report_ack
  report_ack-buffer_offset now rtt true s = refl
  report_ack-buffer_offset now rtt false s = refl

  acknowledge-buffer_offset :
      (now : ℕ) (p : Packet) (s : Sender fl)
      → (acknowledge fl now p s).buffer_offset ≡ s.buffer_offset
  unfolding acknowledge
  acknowledge-buffer_offset now p s = refl

  -- A full buffer takes nothing.
  receive_sdu-full :
      (n : ℕ) (s : Sender fl)
      → s.buffer_offset ≡ conf.buffer_size
      → receive_sdu fl conf n s ≡ (0, s)
  unfolding receive_sdu
  receive_sdu-full n s full = ground (arith, full)

  Step-buffer_offset :
      (s s' : Sender fl)
      → Step conf s s'
      → s.buffer_offset ≡ conf.buffer_size
      → s'.buffer_offset ≡ conf.buffer_size
  Step-buffer_offset s s' (sends now bound e) full = rw e (send_pdus-buffer_offset now s ∙ full)
  Step-buffer_offset s s' (acknowledges now id p e d) full =
      rw d (acknowledge-buffer_offset now p s ∙ full)
  Step-buffer_offset s s' (reports now rtt loss d) full =
      rw d (report_ack-buffer_offset now rtt loss s ∙ full)
  Step-buffer_offset s s' (takes n d) full =
      let same : s' ≡ s = d ∙ ap (λ (r : ℕ × Sender fl). r.1) (receive_sdu-full n s full) in
      rw same full

  -- Once the application's buffer is full, `receive_sdu` takes none of its data, whatever steps the
  -- sender makes before.
  pub receive_sdu-stuck :
      (n : ℕ) (s s' : Sender fl)
      → s.buffer_offset ≡ conf.buffer_size
      → Steps conf s s'
      → receive_sdu fl conf n s' ≡ (0, s')
  receive_sdu-stuck n s s' full steps = receive_sdu-full n s' (stays s' steps)
    where
      stays : (t : Sender fl) → Steps conf s t → t.buffer_offset ≡ conf.buffer_size
      stays t (ready _ e) = rw e full
      stays t (further r _ before step) = Step-buffer_offset r t step (stays r before)
