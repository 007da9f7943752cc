-- ===== src/Simulation/Mode.antt =====
-- The choice of a sending mode in the constructors of runmm.py, runmm2.py and runmm_multi.py. A value
-- that is only ever printed is held as its printed text.
use vatic_udp.Prelude.{
  ℕ, ◌+◌, ◌≡◌, ◌⊎◌, arith, ltb, if◌then◌else◌, Option, some, none, Result, ok, err, exception,
}
use vatic_udp.Py.Text.{Text}

-- `self.ttr`, `self.n_blks` and `self.filepath`
pub record Mode : Type 0 where
  pub ttr : Option Text
  pub n_blks : Option Text
  pub filepath : Option Text

-- `x is not None`, as a number
abbrev pub given : Option Text → ℕ
given none = 0
given (some t) = 1

abbrev pub set_mode : Text → Option Text → Option Text → Option Text → Mode
set_mode ttr_default ttr (some n) filepath = record { ttr = none; n_blks = some n; filepath = none }
set_mode ttr_default ttr none (some f) = record { ttr = none; n_blks = none; filepath = some f }
set_mode ttr_default (some t) none none = record { ttr = some t; n_blks = none; filepath = none }
set_mode ttr_default none none none = record {
  ttr = some ttr_default;
  n_blks = none;
  filepath = none;
}

unfoldable pub choose_mode : Text → Option Text → Option Text → Option Text → Result Mode
choose_mode ttr_default ttr n_blks filepath =
    if ltb 1 (given ttr + given n_blks + given filepath)
    then err exception
    else ok (set_mode ttr_default ttr n_blks filepath)

-- A mode that the constructor accepts holds exactly one way of sending: the one that was asked for,
-- and the default time if none was.
pub choose_mode-one :
    (d : Text) (ttr n_blks filepath : Option Text) (m : Mode)
    → choose_mode d ttr n_blks filepath ≡ ok m
    → (given m.ttr + given m.n_blks + given m.filepath ≡ 1)
      × (m.n_blks ≡ n_blks)
      × (m.filepath ≡ filepath)
      × ((m.ttr ≡ ttr) ⊎ ((ttr ≡ none) × (m.ttr ≡ some d)))
unfolding choose_mode
choose_mode-one d none none none m h = ground arith
choose_mode-one d none none (some f) m h = ground arith
choose_mode-one d none (some n) none m h = ground arith
choose_mode-one d none (some n) (some f) m h = ground arith
choose_mode-one d (some t) none none m h = ground arith
choose_mode-one d (some t) none (some f) m h = ground arith
choose_mode-one d (some t) (some n) none m h = ground arith
choose_mode-one d (some t) (some n) (some f) m h = ground arith
