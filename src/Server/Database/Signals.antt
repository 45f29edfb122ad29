-- ===== src/Server/Database/Signals.antt =====
-- What becomes of the rows for the table of signals (src/SVServer/src/clickhouse_db.cpp).
use svisual.Prelude.{
  ℕ, suc, ◌≡◌, refl, ap, ap₂, ◌∙◌, List, [], ◌∷◌, ◌++◌, Bool, true, false, some, zero, not, length,
  arith,
}
use svisual.Prelude.Bytes.{Bytes, str_eq, str_eq_iff, str_eq_refl}
use svisual.Prelude.Maps.{lookup, has, insert, lookup-insert, lookup-insert_self}
use svisual.Server.Database.{
  SignalRow, Database, rows_in, is_none, add_signal_row, insert_block, read_signal,
}

-- What happens to the table of signals: a signal is added, or the thread runs and the database takes
-- its rows or not.
pub data TableEvent : Type 0 where
  added : Bytes → Bytes → ℕ → TableEvent
  thread_ran : Bool → TableEvent

abbrev pub happens : TableEvent → Database → Database
happens (added sname module_name stype) db = add_signal_row sname module_name stype db
happens (thread_ran ok) db = insert_block ok db

abbrev pub run : List TableEvent → Database → Database
run [] db = db
run (e ∷ es) db = run es (happens e db)

-- Rows wait, and no thread does.
abbrev pub IsStuck : Database → Type 0
IsStuck db = (db.has_thread ≡ false) × (is_none db.block ≡ false)

happens-IsStuck :
    (e : TableEvent) (db : Database)
    → IsStuck db
    → IsStuck (happens e db) × ((happens e db).table ≡ db.table)
unfolding add_signal_row insert_block
happens-IsStuck (added sname module_name stype) db h = ground arith
happens-IsStuck (thread_ran ok) db h = ground arith

run-IsStuck : (es : List TableEvent) (db : Database) → IsStuck db → (run es db).table ≡ db.table
run-IsStuck [] db h = refl
run-IsStuck (e ∷ es) db h =
    let (h', same) = happens-IsStuck e db h in run-IsStuck es (happens e db) h' ∙ same

failed :
    (db : Database)
    → db.has_thread ≡ true
    → is_none db.block ≡ false
    → IsStuck (insert_block false db)
unfolding insert_block
failed db h some_rows = ground arith

kept : (db : Database) → db.has_thread ≡ true → (insert_block false db).table ≡ db.table
unfolding insert_block
kept db h = ground arith

-- After one insert of rows that the database does not take, no signal gets into its table any more,
-- whatever is added and whatever the database would take later.
pub run-failed_insert :
    (es : List TableEvent) (db : Database)
    → db.has_thread ≡ true
    → is_none db.block ≡ false
    → (run (thread_ran false ∷ es) db).table ≡ db.table
run-failed_insert es db h some_rows =
    run-IsStuck es (insert_block false db) (failed db h some_rows) ∙ kept db h

-- The rows that the database has or that wait for a thread.
abbrev pub all_rows : Database → List SignalRow
all_rows db = db.table ++ rows_in db.block

abbrev pub ids : List SignalRow → List ℕ
ids [] = []
ids (r ∷ rs) = r.id ∷ ids rs

abbrev pub up_to : ℕ → List ℕ
up_to zero = []
up_to (suc n) = up_to n ++ (n ∷ [])

-- A thread waits exactly if rows do, and the rows have the ids from 0 on, one for each signal.
pub record IsNumbered (db : Database) : Type 0 where
  pub tended : db.has_thread ≡ not (is_none db.block)
  pub numbered : ids (all_rows db) ≡ up_to (length db.signals)

-- The events in which the database takes what is inserted.
abbrev pub IsTaken : TableEvent → Type 0
IsTaken (added sname module_name stype) = Unit {0}
IsTaken (thread_ran ok) = ok ≡ true

first_signal :
    (sname module_name : Bytes) (stype : ℕ) (db : Database)
    → db.signals ≡ []
    → (add_signal_row sname module_name stype db).signals ≡ (sname ++ module_name, 0) ∷ []
unfolding add_signal_row has lookup insert
first_signal sname module_name stype db none_yet =
    let fresh : has (sname ++ module_name) db.signals ≡ false = rw none_yet refl in
    let count : length db.signals ≡ 0 = ap length none_yet in
    let more : insert (sname ++ module_name) (length db.signals) db.signals
        ≡ (sname ++ module_name, 0) ∷ [] =
      ap₂ (λ n m. insert (sname ++ module_name) n m) count none_yet in
    ground (arith, fresh, more)

has-one : (k j : Bytes) → str_eq j k ≡ false → has {V = ℕ} k ((j, 0) ∷ []) ≡ false
unfolding has lookup
has-one k j other = ground (arith, other)

lookup-one : (k : Bytes) → lookup {V = ℕ} k ((k, 0) ∷ []) ≡ some 0
unfolding lookup
lookup-one k = ground (arith, str_eq_refl k)

second :
    (k : Bytes) (r : SignalRow) (db : Database)
    → db.signals ≡ (k, 0) ∷ []
    → r.id ≡ 0
    → str_eq k (r.sname ++ r.module_name) ≡ false
    → (lookup k (read_signal r db).signals ≡ some 0)
      × (lookup (r.sname ++ r.module_name) (read_signal r db).signals ≡ some 0)
unfolding read_signal
second k r db one first other =
    let key = r.sname ++ r.module_name in
    let fresh : has key db.signals ≡ false = ap (has key) one ∙ has-one key k other in
    let old : lookup k db.signals ≡ some 0 = ap (lookup k) one ∙ lookup-one k in
    (
      ground (
        arith,
        fresh,
        old,
        lookup-insert key k r.id db.signals,
        str_eq_iff k key,
        str_eq_iff key k,
      ),
      ground (arith, fresh, first, lookup-insert_self key r.id db.signals),
    )

-- A signal that is added before the constructor's thread has read the table gets the id of a signal
-- that the table has: both then have the id 0.
pub read_signal-add_signal_row :
    (sname module_name : Bytes) (stype : ℕ) (r : SignalRow) (db : Database)
    → db.signals ≡ []
    → r.id ≡ 0
    → str_eq (sname ++ module_name) (r.sname ++ r.module_name) ≡ false
    → (lookup
          (sname ++ module_name)
          (read_signal r (add_signal_row sname module_name stype db)).signals
        ≡ some 0)
      × (lookup
            (r.sname ++ r.module_name)
            (read_signal r (add_signal_row sname module_name stype db)).signals
          ≡ some 0)
read_signal-add_signal_row sname module_name stype r db none_yet first other =
    let one = first_signal sname module_name stype db none_yet in
    second (sname ++ module_name) r (add_signal_row sname module_name stype db) one first other
