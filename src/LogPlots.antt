-- ===== src/LogPlots.antt =====
-- plot.py: what its figures show and what it saves. The arithmetic of floats, and what pandas computes
-- from a table, are parameters.
pub mod TputDelay
pub mod Captures
pub mod Channel
pub mod Dispatch
use vatic_udp.Prelude.{
  ℕ, List, [], ◌∷◌, map, Bool, true, false, Option, none, some, Result, ok, err, ℤ,
}
use vatic_udp.Py.Text.{Text}
use vatic_udp.Py.Floats.{Floats}
use vatic_udp.Mmparse.Throughput.Report.{Report}

-- The pairs of two lists of one length
abbrev pub zip_with {ℓ κ} : {A : Type ℓ} {B : Type κ} → List A → List B → List (A × B)
zip_with (x ∷ xs) (y ∷ ys) = (x, y) ∷ zip_with xs ys
zip_with xs ys = []

module _ (fl : Floats) where
  open fl use {Float}

  -- The argument `skip_seconds`: a number, `None`, or a text
  pub data Skip : Type 0 where
    seconds : Float → Skip
    nothing : Skip
    words : Text → Skip

  -- A series under its index
  abbrev pub Series : Type 0
  Series = List (Float × Float)

  -- A row of the table under its index
  pub record Bin : Type 0 where
    pub time : Float
    pub ingress : Float
    pub throughput : Float
    pub capacity : Float

  abbrev pub Table : Type 0
  Table = List Bin

  -- The calls of pandas and numpy.
  pub record Pandas : Type 1 where
    -- `Series(data, index).groupby(level=0).mean()`
    pub group_mean : List Float → List Float → Series
    -- `groupby('seconds')` after the index has been rounded, with `mean()` and `sum()`
    pub second_mean : Series → Series
    pub second_sum : Series → Series
    -- `df[df.index > skip_seconds]`
    pub keep_series : Skip → Series → Result Series
    pub keep_table : Skip → Table → Result Table
    pub mean : List Float → Float
    pub min : List Float → Float
    pub max : List Float → Float
    -- `(throughput * 100.0 / capacity).mean()`
    pub utilization : List (Float × Float) → Float
    -- `'{}'.format(x)` and `'{:.3f}'.format(x)`
    pub show : Float → Text
    pub show_three : Float → Text

  zip_bins : List Float → List Float → List Float → List Float → Table
  zip_bins (t ∷ ts) (i ∷ is) (x ∷ xs) (c ∷ cs) =
      record { time = t; ingress = i; throughput = x; capacity = c } ∷ zip_bins ts is xs cs
  zip_bins ts is xs cs = []

  -- `pd.concat([ingress, throughput, capacity], axis=1)`; the three have one index.
  unfoldable pub table_of : Report fl → Table
  unfolding zip_bins
  table_of r = zip_bins r.seconds r.ingress r.throughput r.capacity

  abbrev pub capacities : Table → List Float
  capacities = map (λ row. row.capacity)

  abbrev pub throughputs : Table → List Float
  throughputs = map (λ row. row.throughput)

  abbrev pub times : Table → List Float
  times = map (λ row. row.time)
