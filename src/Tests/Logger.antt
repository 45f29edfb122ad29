-- ===== src/Tests/Logger.antt =====
-- The logger with two messages, of which one comes while the first is written.
use svisual.Prelude.{◌≡◌, refl, ◌++◌, map, List, [], ◌∷◌, Bool, true, some, arith}
use svisual.Prelude.Bytes.{Bytes, codes}
use svisual.Misc.Logger.{
  Logger, Call, line, stop, new_logger, write_line, line_of, write_cycle, turn, calls, call,
  drain_locked, drain_loop, write_batch,
}
use svisual.Misc.Logger.Laws.{
  IsValid, unread, said, messages, new_logger-IsValid, write_line_lem, write_cycle_lem,
  write_cycle_stop,
}

abbrev first : Logger
first = write_line (codes "10:00") (codes "on") (new_logger (codes "log"))

first-IsValid : IsValid first
first-IsValid =
    (write_line_lem (codes "10:00") (codes "on") (new_logger (codes "log"))
      (new_logger-IsValid (codes "log")).0).0

abbrev last_call : List Call
last_call = line (codes "10:01") (codes "off") ∷ stop ∷ []

abbrev turns : List (Bool × List Call)
turns = (true, last_call) ∷ (true, []) ∷ []

-- Run: both messages are in the file.
two_turns :
    write_cycle turns first
    ≡ some (
      record (write_line (codes "10:01") (codes "off") first) { f_stop = true; read_mess_cnt = 2 },
      codes "[10:00] on\n" ∷ codes "[10:01] off\n" ∷ [],
    )
unfolding write_cycle turn calls call drain_locked drain_loop write_batch write_line new_logger
two_turns = refl

write_cycle_lem_example :
    (l' : Logger) × (lines : List Bytes) × (write_cycle turns first ≡ some (l', lines))
    × (lines ++ map line_of (unread l') ≡ map line_of (unread first ++ said first.f_stop turns))
unfolding write_line new_logger
write_cycle_lem_example =
    write_cycle_lem turns first first-IsValid refl
      ((refl, tt, omega arith), ((refl, tt, omega arith), tt))

abbrev stopping : Logger
stopping = record first { f_stop = true }

stopping-IsValid : IsValid stopping
stopping-IsValid = record {
  full_sz = first-IsValid.full_sz;
  read_lt = first-IsValid.read_lt;
  write_lt = first-IsValid.write_lt;
}

write_cycle_stop_example :
    (l' : Logger) × (write_cycle ((true, last_call) ∷ []) stopping
      ≡ some (l', map line_of (unread stopping ++ messages last_call)))
    × (unread l' ≡ [])
unfolding write_line new_logger
write_cycle_stop_example =
    write_cycle_stop last_call [] stopping stopping-IsValid refl refl tt (omega arith)
