-- ===== src/Tcp/Sending.antt =====
-- How sender_receiver/sender.cc sends blocks of packets. The clock and what `send` returns are
-- parameters, given by the number of the block.
pub mod Ends
use vatic_udp.Prelude.{
  ℕ, zero, suc, ◌+◌, ◌*◌, ◌%◌, ◌^◌, ◌≡◌, refl, List, [], ◌∷◌, ◌++◌, Bool, true, false, leb, ltb,
  ◌==◌, if◌then◌else◌, Option, none, some, replicate,
}

abbrev pub packet_size : ℕ
packet_size = 1024

-- A `struct timeval`: seconds and microseconds
abbrev pub Time : Type 0
Time = ℕ × ℕ

-- `packet_t`, without its payload
pub record Packet : Type 0 where
  pub seq : ℕ
  pub sent : Time
  pub probe : Bool

-- A line of the log, under the heading `SEQ, sent_bytes, sent_time`
pub record Line : Type 0 where
  pub line_seq : ℕ
  pub bytes : ℕ
  pub line_time : Time

-- What a flow has done: the blocks given to `send`, the lines of the log, `ntotal` and `fail`.
pub record Flow : Type 0 where
  pub sends : List (List Packet)
  pub log : List Line
  pub ntotal : ℕ
  pub fail : Bool

abbrev pub no_flow : Flow
no_flow = record { sends = []; log = []; ntotal = 0; fail = false }

-- `nsend != blksize * PACKET_SIZE`; `none` is -1.
abbrev pub complete : ℕ → Option ℕ → Bool
complete size none = false
complete size (some n) = n == size * packet_size

-- One block of `size` packets, and what `send` returned for it
unfoldable pub send_block : ℕ → Bool → ℕ → Time → Option ℕ → Flow → Flow
send_block size probe seq now nsend flow =
    let block = replicate size (record { seq = seq; sent = now; probe = probe }) in
    if complete size nsend
    then record {
      sends = flow.sends ++ block ∷ [];
      log = flow.log ++ record { line_seq = seq; bytes = size * packet_size; line_time = now } ∷ [];
      ntotal = flow.ntotal + size * packet_size;
      fail = flow.fail;
    }
    else record flow { sends = flow.sends ++ block ∷ []; fail = true }

module _ (now : ℕ → Time) (nsend : ℕ → Option ℕ) (size : ℕ) (probe : Bool) where
  -- The loop of `send_nblocks` from block `seq` on. Both `seq` and the bound are `unsigned int` in the
  -- comparison; the fuel bounds the blocks, and `none` says that it ran out.
  unfoldable pub blocks_from : ℕ → ℕ → ℕ → Flow → Option Flow
  unfolding send_block
  blocks_from zero n seq flow = none
  blocks_from (suc fuel) n seq flow =
      let rest =
        blocks_from fuel n ((seq + 1) % 2 ^ 32)
          (send_block size probe seq (now seq) (nsend seq) flow) in
      if leb seq n then rest else some flow

  unfoldable pub send_nblocks : ℕ → ℕ → Option Flow
  unfolding blocks_from
  send_nblocks fuel n_blocks = blocks_from fuel n_blocks 1 no_flow

  -- The loop of `send_ttr`, whose body runs before its test. `later seq` is the clock behind block
  -- `seq`; `tv_sec - start_s < ttr` is a comparison of signed numbers.
  unfoldable pub rounds_from : (ℕ → Time) → ℕ → ℕ → ℕ → ℕ → Flow → Option Flow
  unfolding send_block
  rounds_from later zero start ttr seq flow = none
  rounds_from later (suc fuel) start ttr seq flow =
      let next = (seq + 1) % 2 ^ 32 in
      let sent = send_block size probe next (now next) (nsend next) flow in
      let rest = rounds_from later fuel start ttr next sent in
      if ltb (later next).0 (start + ttr) then rest else some sent

  unfoldable pub send_ttr : (ℕ → Time) → ℕ → ℕ → ℕ → Option Flow
  unfolding rounds_from
  send_ttr later fuel start ttr = rounds_from later fuel start ttr 0 no_flow
