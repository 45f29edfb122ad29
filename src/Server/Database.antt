-- ===== src/Server/Database.antt =====
-- The writer to the database (src/SVServer/src/clickhouse_db.cpp): the ids of signals, the rows for
-- the table of signals that wait for their thread, and the rows of values. The tables are what the
-- database has taken; whether it takes an insert is an argument.
pub mod Signals
use svisual.Prelude.{
  ℕ, suc, ◌+◌, List, [], ◌∷◌, ◌++◌, Bool, true, false, not, Option, none, some, if◌then◌else◌, ◌==◌,
  ◌||◌, length, take, map,
}
use svisual.Prelude.Bytes.{Bytes}
use svisual.Prelude.Maps.{Map, lookup, has, insert}
use svisual.Base.{RecData, Value}

-- A row of `tblSignal`.
pub record SignalRow : Type 0 where
  pub id : ℕ
  pub sname : Bytes
  pub module_name : Bytes
  pub stype : ℕ

-- A row of `tblSData`; `value` is the 32 bits of the `Float32`.
pub record DataRow : Type 0 where
  pub data_id : ℕ
  pub ts : ℕ
  pub value : ℕ

-- `m_signals`, `m_signalBlock`, whether a thread waits to insert the block, and `tblSignal`.
pub record Database : Type 0 where
  pub signals : Map ℕ
  pub block : Option (List SignalRow)
  pub has_thread : Bool
  pub table : List SignalRow

abbrev pub rows_in : Option (List SignalRow) → List SignalRow
rows_in none = []
rows_in (some rows) = rows

abbrev pub is_none {ℓ} : {A : Type ℓ} → Option A → Bool
is_none none = true
is_none (some a) = false

-- `addSignal`
unfoldable pub add_signal_row : Bytes → Bytes → ℕ → Database → Database
add_signal_row sname module_name stype db =
    if has (sname ++ module_name) db.signals
    then db
    else let row : SignalRow = record {
      id = length db.signals;
      sname = sname;
      module_name = module_name;
      stype = stype;
    } in
      record db {
        signals = insert (sname ++ module_name) (length db.signals) db.signals;
        block = some (rows_in db.block ++ (row ∷ []));
        has_thread = if is_none db.block then true else db.has_thread;
      }

-- The thread of `addSignal`, if one waits. `reset` is skipped if `Insert` throws.
unfoldable pub insert_block : Bool → Database → Database
insert_block ok db =
    if db.has_thread
    then if ok
      then record db { table = db.table ++ rows_in db.block; block = none; has_thread = false }
      else record db { has_thread = false }
    else db

-- One row that the constructor's thread reads: `m_signals.insert`, which leaves a key that is there.
unfoldable pub read_signal : SignalRow → Database → Database
read_signal r db =
    if has (r.sname ++ r.module_name) db.signals
    then db
    else record db { signals = insert (r.sname ++ r.module_name) r.id db.signals }

-- The constructor's thread, with what the table has.
unfoldable pub read_signals : List SignalRow → Database → Database
read_signals [] db = db
read_signals (r ∷ rs) db = read_signals rs (read_signal r db)

-- The column has a `Float32`: how an `int` becomes one.
module _ (float_of_int : Value → ℕ) (packet_sz : ℕ) where
  unfoldable pub value_rows : ℕ → ℕ → ℕ → List Value → List DataRow
  value_rows type sid t [] = []
  value_rows type sid t (v ∷ vs) =
      record { data_id = sid; ts = t; value = if type == 2 then v else float_of_int v }
      ∷ value_rows type sid t vs

  -- The rows of the first `vcnt` records of a signal.
  unfoldable pub record_rows : ℕ → ℕ → List RecData → List DataRow
  record_rows type sid [] = []
  record_rows type sid (rd ∷ rds) =
      value_rows type sid rd.begin_time (take packet_sz rd.vals) ++ record_rows type sid rds

  -- `saveSData` up to the insert: `types` is what `getSignalData` has, `none` a signal that it has not
  -- or that has no place in `valPos`, where the program fails.
  unfoldable pub save_sdata :
      (Bytes → Option ℕ) → Map ℕ → Map ℕ → Map (List RecData) → Option (List DataRow)
  save_sdata types signals val_pos [] = some []
  save_sdata types signals val_pos ((k, recs) ∷ m) = elim (save_sdata types signals val_pos m) [
    | none ↦ none
    | some rest ↦ elim (lookup k signals) [
      | none ↦ some rest
      | some sid ↦ elim (lookup k val_pos) [
        | none ↦ none
        | some n ↦ if n == 0 then some rest else elim (types k) [
          | none ↦ none
          | some type ↦ some (record_rows type sid (take n recs) ++ rest)
        ]
      ]
    ]
  ]
