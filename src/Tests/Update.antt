-- ===== src/Tests/Update.antt =====
-- The update thread at concrete records.
use svisual.Prelude.{
  ℕ, ◌-◌, ◌≡◌, refl, ◌++◌, ◌∷◌, [], Bool, true, false, none, some, inl, inr, arith, replicate,
}
use svisual.Prelude.Bytes.{Bytes, codes, str_eq}
use svisual.Prelude.Maps.{Map, lookup, has}
use svisual.Base.{RecData, ModuleData, new_module, SignalData}
use svisual.Server.Config.{Config, default_config}
use svisual.Server.Registry.{Registry}
use svisual.Server.Archive.{init, all_written}
use svisual.Server.Update.{module_connect, module_disconnect, Thread, ring_sz, update_record}
use svisual.Server.Update.Ring.{IsBuffered, history, keep_last, push_records, push_records_lem}
use svisual.Server.Update.Links.{check_modules, all_told, settled, check_modules_lem}
use svisual.Server.Update.Restart.{update_record_restarted}
use svisual.Tests.Registry.{two_doubles, two_cells, input, signal}

-- A cycle of an hour: the ring has two places.
abbrev pub hourly : Config
hourly = record default_config { packet_sz = 2; cycle_rec_ms = 1800000 }

abbrev pub rec_at : ℕ → RecData
rec_at t = record { begin_time = t; vals = 4 ∷ 5 ∷ [] }

abbrev pub buffered : SignalData Bool
buffered = record (signal (codes "a") (codes "m")) {
  is_buff_enable = true;
  buff_data = replicate 3 (rec_at 0);
  buff_begin_pos = 1;
  buff_value_pos = 0;
}

pub buffered-IsBuffered : IsBuffered hourly buffered
buffered-IsBuffered = record {
  enabled = refl;
  has_room = omega arith;
  begin_in = omega arith;
  value_in = omega arith;
}

push_records_lem_example :
    (sd' : SignalData Bool) × (push_records two_doubles hourly (rec_at 1 ∷ rec_at 2 ∷ []) buffered
      ≡ some sd')
    × IsBuffered hourly sd'
    × (history hourly sd'
        ≡ keep_last (ring_sz hourly - 1) (history hourly buffered ++ (rec_at 1 ∷ rec_at 2 ∷ [])))
push_records_lem_example =
    push_records_lem two_doubles hourly (rec_at 1 ∷ rec_at 2 ∷ []) buffered buffered-IsBuffered

abbrev known : Registry Bool
known = record {
  signals = (codes "am", signal (codes "a") (codes "m")) ∷ [];
  modules = (codes "m", new_module (codes "m")) ∷ [];
}

abbrev modules : Map ModuleData
modules =
    (codes "m", record (new_module (codes "m")) { is_active = true })
    ∷ (codes "n", new_module (codes "n"))
    ∷ []

abbrev pointers : Map (Unit {0})
pointers = (codes "m", tt) ∷ (codes "n", tt) ∷ []

abbrev flags : Map Bool
flags = (codes "Virtual", true) ∷ (codes "m", false) ∷ (codes "n", true) ∷ []

flags_told :
    all_told modules flags ≡ module_disconnect (codes "m") ∷ module_connect (codes "n") ∷ []
unfolding all_told lookup str_eq
flags_told = refl

check_modules_lem_example :
    (ms' : Map ModuleData) × (check_modules pointers flags modules
      ≡ some (ms', all_told modules flags))
    × ((k : Bytes) → lookup k ms' ≡ settled (lookup k flags) k (lookup k modules))
unfolding has lookup str_eq
check_modules_lem_example =
    check_modules_lem pointers flags modules (refl, (refl, (refl, tt)))
      (inl refl, (inr (refl, refl), (inr (refl, refl), tt)))

-- `a` of `m` is known; a record of a signal without a name, of the module `am`, has its key.
abbrev thread : Thread Bool
thread = record {
  cng = two_cells;
  registry = known;
  archive = init two_cells;
  sref = (codes "am", tt) ∷ [];
  mref = (codes "m", tt) ∷ [];
  sign_active = (codes "am", true) ∷ [];
  module_active = (codes "m", true) ∷ [];
}

abbrev marked_thread : Thread Bool
marked_thread = record thread {
  registry = record known {
    signals =
        (
          codes "am",
          record (signal (codes "a") (codes "m")) { last_data = (input [] (codes "am") 8100).rec },
        )
        ∷ [];
  };
  module_active = (codes "am", true) ∷ (codes "m", true) ∷ [];
}

-- The server after a restart, with the archive on.
abbrev restarted : Thread Bool
restarted = record thread { cng = record two_cells { out_archive_ena = true } }

update_record_restarted_example :
    update_record two_doubles 9000 all_written (input (codes "a") (codes "m") 8100) restarted ≡ none
unfolding has lookup str_eq
update_record_restarted_example =
    update_record_restarted two_doubles 9000 all_written (input (codes "a") (codes "m") 8100)
      two_cells restarted refl refl refl refl
