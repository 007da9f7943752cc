-- ===== src/Vatic.antt =====
-- The sender of vatic/src: the congestion window of Vatic.h and its packets in flight.
pub mod Floating
pub mod Sending
pub mod Centroids
pub mod Acks
pub mod Inflight
pub mod Burst
pub mod Limits
pub mod Window
pub mod Steps
pub mod Interval
pub mod Answers
pub mod Buffer
pub mod Client
pub mod Link
use vatic_udp.Prelude.{
  ℕ, ◌-◌, ◌^◌, ◌%◌, List, [], ◌∷◌, ◌++◌, Bool, ltb, if◌then◌else◌, sum, map, Option, none,
}
use vatic_udp.Vatic.Floating.{Doubles}

abbrev pub u32 : ℕ
u32 = 2 ^ 32

abbrev pub u64 : ℕ
u64 = 2 ^ 64

-- `MAX_PKT_LEN` without `HDR_LEN`, the nine bytes of a packed header
abbrev pub max_payload_len : ℕ
max_payload_len = 1009 - 9

-- `m_preprocess`; any other text is as `NONE`.
pub data Preprocess : Type 0 where
  plain exponential hyperbolic : Preprocess

-- An entry of `m_timeSentInflight`
pub record Packet : Type 0 where
  pub id : ℕ
  pub sent : ℕ
  pub size : ℕ

-- `Cwnd`; the map of packets is the list of its entries, in the order of their ids.
pub record Cwnd : Type 0 where
  pub size : ℕ
  pub free : ℕ
  pub used : ℕ
  pub inflight : List Packet

-- An entry of `m_logCwnds`
pub record CwndLog : Type 0 where
  pub time : ℕ
  pub size : ℕ
  pub used : ℕ
  pub free : ℕ

-- An entry of `m_logRtts`
pub record RttLog : Type 0 where
  pub time : ℕ
  pub rtt : ℕ
  pub id : ℕ

pub data Label : Type 0 where
  low high invalid : Label

-- The bytes in flight; the source adds them up in 32 bits.
abbrev pub bytes_in : List Packet → ℕ
bytes_in ps = sum (map (λ (p : Packet). p.size) ps)

-- `m_cwndUsed < m_cwndSize ? m_cwndSize - m_cwndUsed : 0u`
abbrev pub free_of : ℕ → ℕ → ℕ
free_of size used = if ltb used size then size - used else 0

abbrev pub log_of : ℕ → Cwnd → CwndLog
log_of now w = record { time = now; size = w.size; used = w.used; free = w.free }

module _ (fl : Doubles) where
  open fl use {Double}

  -- `VaticConf`, without the paths of its logs
  pub record Conf : Type 0 where
    pub alpha_thres : Double
    pub backlog_len : ℕ
    pub buffer_size : ℕ
    pub cwnd_max : ℕ
    pub init_cwnd : ℕ
    pub preprocess : Preprocess

  -- An entry of `m_backlog`
  pub record Sample : Type 0 where
    pub feature : Double
    pub label : Label

  -- `m_backlog`, `m_centroids`, `m_maxCentDist` and `m_alpha`. A centroid that is `INVALID_CENTROID`
  -- is missing; no average of the features, which are not negative, is equal to that value.
  pub record Clusters : Type 0 where
    pub backlog : List Sample
    pub first : Option Double
    pub second : Option Double
    pub max_cent_dist : Double
    pub alpha : Double

  -- The fields of `Vatic` that change. `send_bytes` is the count of `m_sendThput`, and times are the
  -- arguments of the operations.
  pub record Sender : Type 0 where
    pub cwnd : Cwnd
    pub curr_pkt_id : ℕ
    pub buffer_offset : ℕ
    pub clusters : Clusters
    pub send_bytes : ℕ
    pub recv_bytes : ℕ
    pub log_cwnds : List CwndLog
    pub log_rtts : List RttLog
    pub log_alpha : List Double
    pub log_centroids : List (Option Double × Option Double)

  -- `Vatic::Vatic`, at its start
  unfoldable pub start : Conf → ℕ → Sender
  start conf now =
      let w : Cwnd = record {
        size = conf.init_cwnd;
        free = conf.init_cwnd;
        used = 0;
        inflight = [];
      } in
      record {
        cwnd = w;
        curr_pkt_id = 1;
        buffer_offset = 0;
        clusters = record {
          backlog = [];
          first = none;
          second = none;
          max_cent_dist = fl.of_u32 0;
          alpha = fl.half;
        };
        send_bytes = 0;
        recv_bytes = 0;
        log_cwnds = log_of now w ∷ [];
        log_rtts = [];
        log_alpha = fl.half ∷ [];
        log_centroids = [];
      }
