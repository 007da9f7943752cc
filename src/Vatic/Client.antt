-- ===== src/Vatic/Client.antt =====
-- The receiver of vatic/src, Client.cpp: it answers each packet with an acknowledgement of its id.
use vatic_udp.Prelude.{ℕ, ◌+◌, ◌%◌, List, [], ◌∷◌, ◌++◌, Bool, true, false, Option, none, some}
use vatic_udp.Vatic.{u32, u64, Packet}

-- An entry of `m_recvTimes`
pub record Reception : Type 0 where
  pub id : ℕ
  pub time : ℕ
  pub size : ℕ

-- `m_ackCount`, `m_recvTimes` and the count of `m_recvThput`
pub record Client : Type 0 where
  pub last_acked : ℕ
  pub last_nacked : ℕ
  pub recv_times : List Reception
  pub recv_bytes : ℕ

unfoldable pub client_start : Client
client_start = record { last_acked = 0; last_nacked = 0; recv_times = []; recv_bytes = 0 }

-- `Receive` and `SendWithId`: the id of the acknowledgement that is sent, and the new state.
unfoldable pub client_receive : ℕ → Bool → Packet → Client → Option ℕ × Client
client_receive now true p c = (none, c)
client_receive now false p c = (
  some p.id,
  record c {
    last_nacked = p.id % u32;
    recv_times = c.recv_times ++ record { id = p.id; time = now; size = p.size } ∷ [];
    recv_bytes = (c.recv_bytes + p.size) % u64;
  },
)
