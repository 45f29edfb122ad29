-- ===== src/Misc/Logger.antt =====
-- `Logger` (src/SVMisc/logger.h): messages wait in a ring of 100 places until the writing thread
-- takes them under the lock and appends them to the file without it.
pub mod Laws
use svisual.Prelude.{
  ℕ, zero, suc, ◌+◌, ◌-◌, ◌%◌, ◌≤◌, ◌<◌, ◌≡◌, refl, sym, ap, ap₂, subst, ◌∙◌, inl, inr, List, [],
  ◌∷◌, ◌++◌, append_assoc, append-nil, map, Bool, true, false, ◌&&◌, ◌||◌, not, Option, none, some,
  if◌then◌else◌, ltb, leb, ◌==◌, length, get_or, set, replicate, drop, arith, length-set,
  length-replicate, Bool-cases,
}
use svisual.Prelude.Bytes.{Bytes, codes}
use svisual.Prelude.Rings.{next, wrap, window, window-set}

-- `MAX_CNT_MESS`
abbrev pub max_cnt_mess : ℕ
max_cnt_mess = 100

-- `struct Message`
pub record Message : Type 0 where
  pub c_time : Bytes
  pub mess : Bytes

pub record Logger : Type 0 where
  pub path_file : Bytes
  pub read_mess_cnt : ℕ
  pub write_mess_cnt : ℕ
  pub deq_mess : List Message
  pub f_stop : Bool

abbrev pub no_message : Message
no_message = record { c_time = []; mess = [] }

unfoldable pub new_logger : Bytes → Logger
new_logger path = record {
  path_file = path;
  read_mess_cnt = 0;
  write_mess_cnt = 0;
  deq_mess = replicate max_cnt_mess no_message;
  f_stop = false;
}

-- `setPathFile`
unfoldable pub set_path_file : Bytes → Logger → Logger
set_path_file path l = record l { path_file = path }

-- `writeLine` at the time `now`.
unfoldable pub write_line : Bytes → Bytes → Logger → Logger
write_line now mess l =
    let next_write = (l.write_mess_cnt + 1) % max_cnt_mess in
    let read =
      if next_write == l.read_mess_cnt
      then (l.read_mess_cnt + 1) % max_cnt_mess
      else l.read_mess_cnt in
    record l {
      read_mess_cnt = read;
      deq_mess = set l.deq_mess l.write_mess_cnt (record { c_time = now; mess = mess });
      write_mess_cnt = next_write;
    }

-- The loop of `drainLocked` from place `i` on, on fuel: what it takes.
unfoldable pub drain_loop : ℕ → List Message → ℕ → ℕ → Option (List Message)
drain_loop zero deq write i = none
drain_loop (suc fuel) deq write i =
    let rest = drain_loop fuel deq write ((i + 1) % max_cnt_mess) in
    if i == write
    then some []
    else elim rest [ none ↦ none | some ms ↦ some (get_or deq i no_message ∷ ms) ]

unfoldable pub drain_locked : Logger → Option (List Message × Logger)
drain_locked l = elim (drain_loop (suc max_cnt_mess) l.deq_mess l.write_mess_cnt l.read_mess_cnt) [
  | none ↦ none
  | some ms ↦ some (ms, record l { read_mess_cnt = l.write_mess_cnt })
]

-- A line of the file.
abbrev pub line_of : Message → Bytes
line_of m = codes "[" ++ (m.c_time ++ (codes "] " ++ (m.mess ++ codes "\n")))

abbrev pub non_empty : Bytes → Bool
non_empty [] = false
non_empty (b ∷ s) = true

-- `writeBatch`: what is appended to the file, which can be opened or not.
unfoldable pub write_batch : Bool → Bytes → List Message → List Bytes
write_batch opens path ms = if non_empty path && opens then map line_of ms else []

-- What other threads do between two turns of `writeCycle`, while the lock is free.
pub data Call : Type 0 where
  line : Bytes → Bytes → Call
  to_file : Bytes → Call
  stop : Call

unfoldable pub call : Call → Logger → Logger
call (line now mess) l = write_line now mess l
call (to_file path) l = set_path_file path l
call stop l = record l { f_stop = true }

unfoldable pub calls : List Call → Logger → Logger
calls [] l = l
calls (c ∷ cs) l = calls cs (call c l)

-- One turn of `writeCycle`, woken up: a drain under the lock; then `during` happens while the batch
-- is written; with a stop seen, a last drain. The logger, the lines, and whether the thread goes on.
unfoldable pub turn : Bool → List Call → Logger → Option (Logger × List Bytes × Bool)
turn opens during l = elim (drain_locked l) [
  | none ↦ none
  | some (batch, l1) ↦
      let lines = write_batch opens l1.path_file batch in
      let l2 = calls during l1 in
      if l1.f_stop
      then elim (drain_locked l2) [
        | none ↦ none
        | some (tail, l3) ↦ some (l3, lines ++ write_batch opens l3.path_file tail, false)
      ]
      else some (l2, lines, true)
]

-- The thread, for as many turns as there are, or until it stops.
unfoldable pub write_cycle : List (Bool × List Call) → Logger → Option (Logger × List Bytes)
write_cycle [] l = some (l, [])
write_cycle ((opens, during) ∷ ts) l = elim (turn opens during l) [
  | none ↦ none
  | some (l1, lines, on) ↦
      if on
      then elim (write_cycle ts l1) [ none ↦ none | some (l2, more) ↦ some (l2, lines ++ more) ]
      else some (l1, lines)
]
