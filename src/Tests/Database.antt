-- ===== src/Tests/Database.antt =====
-- Signals and values that go through the database.
use svisual.Prelude.{ℕ, ◌≡◌, refl, arith, List, [], ◌∷◌, ◌++◌, true, false, none, some}
use svisual.Prelude.Bytes.{codes, str_eq}
use svisual.Prelude.Maps.{lookup}
use svisual.Base.{RecData}
use svisual.Server.Database.{SignalRow, Database, add_signal_row, read_signal}
use svisual.Server.Database.Signals.{
  TableEvent, added, thread_ran, run, run-failed_insert, read_signal-add_signal_row,
}
use svisual.Viewer.Database.{load_rows}
use svisual.Viewer.Database.RoundTrip.{blocks_of, row_count, load_rows-record_rows}

abbrev empty : Database
empty = record { signals = []; block = none; has_thread = false; table = [] }

abbrev valve : SignalRow
valve = record { id = 0; sname = codes "valve"; module_name = codes "pump"; stype = 0 }

abbrev waiting : Database
waiting = record empty {
  signals = (codes "valvepump", 0) ∷ [];
  block = some (valve ∷ []);
  has_thread = true;
}

abbrev later : List TableEvent
later =
    added (codes "level") (codes "tank") 1
    ∷ thread_ran true
    ∷ added (codes "flow") (codes "tank") 2
    ∷ []

run-failed_insert_example : (run (thread_ran false ∷ later) waiting).table ≡ []
run-failed_insert_example = run-failed_insert later waiting refl refl

read_signal-add_signal_row_example :
    (lookup
        (codes "level" ++ codes "tank")
        (read_signal valve (add_signal_row (codes "level") (codes "tank") 1 empty)).signals
      ≡ some 0)
    × (lookup
          (codes "valve" ++ codes "pump")
          (read_signal valve (add_signal_row (codes "level") (codes "tank") 1 empty)).signals
        ≡ some 0)
unfolding str_eq
read_signal-add_signal_row_example =
    read_signal-add_signal_row (codes "level") (codes "tank") 1 valve empty refl refl refl

-- Five records of an `int` in two blocks; a `Float32` is taken as the number.
abbrev rec_at : ℕ → ℕ → RecData
rec_at t v = record { begin_time = t; vals = v ∷ 7 ∷ [] }

abbrev groups : List (List RecData)
groups = (rec_at 1000 3 ∷ rec_at 1200 4 ∷ []) ∷ (rec_at 1400 5 ∷ []) ∷ []

load_rows-record_rows_example :
    load_rows
      (λ x. x)
      2
      1
      (row_count (λ v. v) (λ x. x) 2 1 9 (blocks_of (λ v. v) (λ x. x) 2 1 9 groups))
      (blocks_of (λ v. v) (λ x. x) 2 1 9 groups)
    ≡ rec_at 1000 3 ∷ rec_at 1200 4 ∷ rec_at 1400 5 ∷ []
load_rows-record_rows_example =
    load_rows-record_rows (λ v. v) (λ x. x) 2 1 9 groups (omega arith) (omega arith) (omega arith)
