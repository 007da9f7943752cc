-- ===== src/Tcp/Sending/Ends.antt =====
-- When the loops of sender_receiver/sender.cc end, and which blocks they have sent then.
use vatic_udp.Prelude.{
  ℕ, zero, suc, ◌+◌, ◌%◌, ◌^◌, ◌≤◌, ◌<◌, ◌≡◌, refl, arith, List, [], ◌∷◌, Bool, true, false, leb,
  ltb, Option, none, some, range_from, lt→ltb, ◌-◌,
}
use vatic_udp.Tcp.Sending.{
  Time, Flow, no_flow, send_block, blocks_from, send_nblocks, rounds_from, send_ttr,
}

module _ (now : ℕ → Time) (nsend : ℕ → Option ℕ) (size : ℕ) (probe : Bool) where
  -- The blocks of a list of numbers, one after the other
  unfoldable pub send_each : List ℕ → Flow → Flow
  unfolding send_block
  send_each [] flow = flow
  send_each (k ∷ ks) flow = send_each ks (send_block size probe k (now k) (nsend k) flow)

  next_seq : (k : ℕ) → k < 2 ^ 32 - 1 → (k + 1) % 2 ^ 32 ≡ k + 1
  next_seq k h = omega arith

  blocks_from-range :
      (fuel n seq left : ℕ) (flow : Flow)
      → seq + left ≡ n + 1
      → n < 2 ^ 32 - 1
      → left < fuel
      → blocks_from now nsend size probe fuel n seq flow
        ≡ some (send_each (range_from seq left) flow)
  unfolding blocks_from send_each
  blocks_from-range zero n seq left flow h k l = absurd (omega arith)
  blocks_from-range (suc fuel) n seq zero flow h k l =
      let over : leb seq n ≡ false = ground arith in rw over refl
  blocks_from-range (suc fuel) n seq (suc left) flow h k l =
      let within : leb seq n ≡ true = ground arith in
      rw (within, next_seq seq (omega arith))
        (blocks_from-range fuel n (seq + 1) left
          (send_block size probe seq (now seq) (nsend seq) flow) (omega arith) k (omega arith))

  -- `send_nblocks` ends with the blocks 1, ..., n sent in that order, whether `send` fails or not,
  -- for every number of blocks below 2 ^ 32 - 1; one round more than there are blocks is enough.
  pub send_nblocks-range :
      (fuel n : ℕ)
      → n < 2 ^ 32 - 1
      → n < fuel
      → send_nblocks now nsend size probe fuel n ≡ some (send_each (range_from 1 n) no_flow)
  unfolding send_nblocks
  send_nblocks-range fuel n h k = blocks_from-range fuel n 1 n no_flow (omega arith) h k

  blocks_from-endless :
      (fuel seq : ℕ) (flow : Flow)
      → seq < 2 ^ 32
      → blocks_from now nsend size probe fuel (2 ^ 32 - 1) seq flow ≡ none
  unfolding blocks_from
  blocks_from-endless zero seq flow h = refl
  blocks_from-endless (suc fuel) seq flow h =
      let within : leb seq (2 ^ 32 - 1) ≡ true = ground arith in
      rw within (
        blocks_from-endless fuel ((seq + 1) % 2 ^ 32)
          (send_block size probe seq (now seq) (nsend seq) flow) (omega arith))

  -- For 2 ^ 32 - 1 blocks, which is what `-n -1` asks for, the loop of `send_nblocks` never ends:
  -- no number of rounds is enough.
  pub send_nblocks-endless : (fuel : ℕ) → send_nblocks now nsend size probe fuel (2 ^ 32 - 1) ≡ none
  unfolding send_nblocks
  send_nblocks-endless fuel = blocks_from-endless fuel 1 no_flow (omega arith)

  module _ (later : ℕ → Time) (start ttr : ℕ) where
    rounds_from-range :
        (fuel seq left : ℕ) (flow : Flow)
        → left < fuel
        → seq + left < 2 ^ 32 - 1
        → ((j : ℕ) → seq < j → j ≤ seq + left → (later j).0 < start + ttr)
        → start + ttr ≤ (later (seq + left + 1)).0
        → rounds_from now nsend size probe later fuel start ttr seq flow
          ≡ some (send_each (range_from (seq + 1) (suc left)) flow)
    unfolding rounds_from send_each
    rounds_from-range zero seq left flow h k before after = absurd (omega arith)
    rounds_from-range (suc fuel) seq zero flow h k before after =
        let here : seq + 0 + 1 ≡ seq + 1 = omega arith in
        let reached : start + ttr ≤ (later (seq + 1)).0 = rw here at after in
        let last : ltb (later (seq + 1)).0 (start + ttr) ≡ false = ground arith in
        rw (next_seq seq (omega arith), last) refl
    rounds_from-range (suc fuel) seq (suc left) flow h k before after =
        let more : ltb (later (seq + 1)).0 (start + ttr) ≡ true =
          lt→ltb _ _ (before (seq + 1) (omega arith) (omega arith)) in
        let there : seq + suc left + 1 ≡ seq + 1 + left + 1 = omega arith in
        rw (next_seq seq (omega arith), more)
          (rounds_from-range fuel (seq + 1) left _ (omega arith) (omega arith)
            (λ j l m. before j (omega arith) (omega arith)) (rw there at after))

    -- `send_ttr` ends in the first round behind which the clock has reached `start + ttr`, and has
    -- sent what `send_nblocks` sends for that many blocks: for fewer than 2 ^ 32 - 1 rounds, and as
    -- many rounds of fuel. At least one block is sent, also in no time.
    pub send_ttr-rounds :
        (fuel left : ℕ)
        → left < fuel
        → left + 1 < 2 ^ 32 - 1
        → ((j : ℕ) → 0 < j → j ≤ left → (later j).0 < start + ttr)
        → start + ttr ≤ (later (left + 1)).0
        → send_ttr now nsend size probe later fuel start ttr
          ≡ send_nblocks now nsend size probe (left + 2) (left + 1)
    unfolding send_ttr
    send_ttr-rounds fuel left h k before after =
        let same : left + 1 ≡ suc left = omega arith in
        let there : left + 1 ≡ 0 + left + 1 = omega arith in
        rw (send_nblocks-range (left + 2) (left + 1) k (omega arith), same)
          (rounds_from-range fuel 0 left no_flow h (omega arith) (λ j l m. before j l (omega arith))
            (rw there at after))
