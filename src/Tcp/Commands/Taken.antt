-- ===== src/Tcp/Commands/Taken.antt =====
-- How the options of a simulation's command line change the settings of sender_receiver/sender.cc.
use vatic_udp.Prelude.{
  ℕ, ◌^◌, ◌<◌, ◌≤◌, ◌≡◌, refl, inl, inr, arith, List, ◌∷◌, ◌++◌, Bool, true, false, ltb, Option,
  none, some, ℤ, pos, eqb_ℤ, Bool-cases,
}
use vatic_udp.Py.Text.{Text}
use vatic_udp.Simulation.Multi.{blksize_default}
use vatic_udp.Tcp.Options.{
  SendMode, Opt, defaults, goes_on, to_unsigned, take_option, take_options, take_log, take_block,
  take_mode, IsAtoi,
}
use vatic_udp.Tcp.Commands.{
  Wanted, for_seconds, blocks, from_file, WantedFits, wanted_send, log_path, log_file, mode_opt,
  block_opts, cc_opts, log_opts,
}

to_unsigned-pos : (n : ℕ) → n < 2 ^ 31 → to_unsigned (pos n) ≡ n
unfolding to_unsigned
to_unsigned-pos n h = omega arith

module _ (atoi : Text → ℤ) (can_open : Text → Bool) (reads : IsAtoi atoi) where
  pub take_mode_opt :
      (w : Wanted) (os : List Opt)
      → WantedFits w
      → take_options atoi can_open defaults (mode_opt w ∷ os)
        ≡ take_options atoi can_open (record defaults { mode = some (wanted_send w) }) os
  unfolding take_options take_option take_mode take_block take_log mode_opt
  take_mode_opt (for_seconds n) os h = rw (reads n h) refl
  take_mode_opt (blocks n) os h = rw (reads n h) refl
  take_mode_opt (from_file f) os h = refl

  pub take_block_opts :
      (m : Option SendMode) (n : ℕ) (os : List Opt)
      → 1 ≤ n
      → n < 2 ^ 31
      → take_options atoi can_open (record defaults { mode = m }) (block_opts (pos n) ++ os)
        ≡ take_options atoi can_open (record defaults { mode = m; blksize = n }) os
  unfolding take_options take_option take_mode take_block take_log block_opts
  take_block_opts m n os h k = elim (Bool-cases (eqb_ℤ (pos n) blksize_default)) [
    | inl e ↦ let same : n ≡ 128 = ground arith in rw (e, same) refl
    | inr e ↦
        let enough : ltb n 1 ≡ false = ground arith in
        rw (e, take_options, take_option, reads (pos n) k, to_unsigned-pos n k, take_block, enough)
          refl
  ]

  pub take_cc_opts :
      (m : Option SendMode) (n : ℕ) (algo : Option Text) (os : List Opt)
      → take_options atoi can_open (record defaults { mode = m; blksize = n }) (cc_opts algo ++ os)
        ≡ take_options atoi can_open (record defaults { mode = m; blksize = n; cc_algo = algo }) os
  unfolding take_options take_option take_mode take_block take_log cc_opts
  take_cc_opts m n none os = refl
  take_cc_opts m n (some algo) os = refl

  pub take_log_opts :
      (m : Option SendMode) (n : ℕ) (algo : Option Text) (log : Bool) (path : Text)
      → can_open (log_path path) ≡ true
      → take_options atoi can_open
          (record defaults { mode = m; blksize = n; cc_algo = algo })
          (log_opts (log_file log path))
        ≡ goes_on
            (record defaults { mode = m; blksize = n; cc_algo = algo; logfile = log_file log path })
  unfolding take_options take_option take_mode take_block take_log log_opts
  take_log_opts m n algo false path h = refl
  take_log_opts m n algo true path h = rw (take_options, take_option, h) refl
