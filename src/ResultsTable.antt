-- ===== src/ResultsTable.antt =====
-- make_table.py: the names of result files, and the table that is made of a directory of them.
pub mod Names
pub mod RoundTrip
pub mod Undelayed
use vatic_udp.Prelude.{
  ℕ, List, [], ◌∷◌, ◌++◌, Bool, true, false, ◌&&◌, if◌then◌else◌, Option, none, some, ℤ, Result, ok,
  err, ◌>>=◌, ◌>>◌, value_error,
}
use vatic_udp.Py.Text.{Text, codes, contains, split_max, drop, replace}
use vatic_udp.Py.Decimal.{parse_int}
use vatic_udp.Py.Format.{path_join, basename}

-- What the name of a result file says.
pub record ResultName : Type 0 where
  pub trace : Text
  pub duration : ℤ
  pub blksize : Text
  pub qsize : Option ℤ
  pub mmdelay : ℤ

-- `a, b, c, d, _ = parts`
abbrev pub unpack_five : List Text → Result (Text × Text × Text × Text)
unpack_five (a ∷ b ∷ c ∷ d ∷ e ∷ []) = ok (a, b, c, d)
unpack_five _ = err value_error

-- `a, b, c, d, e, _ = parts`
abbrev pub unpack_six : List Text → Result (Text × Text × Text × Text × Text)
unpack_six (a ∷ b ∷ c ∷ d ∷ e ∷ f ∷ []) = ok (a, b, c, d, e)
unpack_six _ = err value_error

-- `int(duration[1:])` and `int(mmdelay[5:])`
unfoldable pub read_name : Text → Text → Text → Option ℤ → Text → Result ResultName
unfolding drop parse_int
read_name trace duration blksize qsize mmdelay = do
  seconds ← parse_int (drop 1 duration)
  delay ← parse_int (drop 5 mmdelay)
  ok (record {
    trace = trace;
    duration = seconds;
    blksize = blksize;
    qsize = qsize;
    mmdelay = delay;
  })

-- The split of a file's name; `float_int` is `int(float(text))`.
unfoldable pub result_name : (Text → Result ℤ) → Text → Result ResultName
unfolding codes contains split_max drop read_name
result_name float_int fname =
    if contains fname (codes "_Q")
    then (do
      (trace, duration, blksize, q, mmdelay) ← unpack_six (split_max fname b'_' 5)
      qsize ← float_int (drop 1 q)
      read_name trace duration blksize (some qsize) mmdelay)
    else (do
      (trace, duration, blksize, mmdelay) ← unpack_five (split_max fname b'_' 4)
      read_name trace duration blksize none mmdelay)

-- A row of the table: the key, the name, and the statistics.
pub record Row {ℓ} (S : Type ℓ) : Type ℓ where
  pub key : Text
  pub name : ResultName
  pub stats : S

-- What `to_csv` writes, and where.
pub record Saved {ℓ} (S : Type ℓ) : Type ℓ where
  pub path : Text
  pub table : List (Row S)

-- pandas: `measure` reads the two files of a run and computes the statistics, `sorted` is
-- `sort_index`, and `existing` reads a table back.
module _ {ℓ} {S : Type ℓ} (float_int : Text → Result ℤ) (measure : Text → Text → Result S)
    (sorted : List (Row S) → List (Row S)) (exists : Text → Bool)
    (existing : Text → Result (List (Row S))) where
  -- The body of the loop, for one file.
  unfoldable pub read_run : Text → Text → Result (Row S)
  unfolding codes basename replace result_name
  read_run key fpath = do
    name ← result_name float_int (basename fpath)
    stats ← measure fpath (replace fpath (codes "sender_RTT") (codes "uplink_mmtput"))
    ok (record { key = key; name = name; stats = stats })

  unfoldable pub read_runs : Text → List Text → Result (List (Row S))
  unfolding read_run
  read_runs key [] = ok []
  read_runs key (fpath ∷ flist) = do
    row ← read_run key fpath
    rows ← read_runs key flist
    ok (row ∷ rows)

  -- `generate_results_table`, from the list of files
  unfoldable pub generate_results_table : List Text → Text → Option Text → Bool → Result (Saved S)
  unfolding codes path_join read_runs
  generate_results_table flist key savepath append = do
    rows ← read_runs key flist
    elim savepath [
      | none ↦ ok (record {
        path = path_join (codes "results") (codes "results_" ++ key ++ codes ".csv");
        table = sorted rows;
      })
      | some path ↦
          if exists path && append
          then (do old ← existing path; ok (record { path = path; table = old ++ sorted rows }))
          else ok (record { path = path; table = sorted rows })
    ]
