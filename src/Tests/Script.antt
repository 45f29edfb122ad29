-- ===== src/Tests/Script.antt =====
-- Scripts at concrete signals.
use svisual.Prelude.{
  ℕ, ◌≡◌, refl, List, ◌∷◌, [], ◌++◌, Bool, true, false, some, arith, inl, inr, replicate, All,
}
use svisual.Prelude.Bytes.{codes, str_eq}
use svisual.Prelude.Maps.{Map, lookup, map_values}
use svisual.Base.{SignalData}
use svisual.Script.{replay, set_value}
use svisual.Script.Cycle.{Scripts, longest, refilled, fill_buffer, viewer_cycle}
use svisual.Script.Cycle.Laws.{all_run, viewer_cycle_lem}
use svisual.Script.Cycle.Room.{HasRoom, IsReady, Stores, set_value-fill_buffer}
use svisual.Tests.Registry.{two_doubles, signal}
use svisual.Tests.Update.{hourly, buffered, rec_at}

abbrev ready : SignalData Bool
ready = record buffered { last_data = rec_at 0 }

abbrev virtual : SignalData Bool
virtual = record (signal (codes "b") (codes "Virtual")) {
  last_data = rec_at 0;
  buff_data = rec_at 0 ∷ [];
  buff_begin_pos = 0;
}

-- A signal of the viewer with three places, and one of scripts with one.
abbrev scripts : Scripts Bool (List (ℕ × ℕ))
scripts = record {
  buff_c_pos = 1;
  buff_sz = 1;
  buff_sz_mem = 1;
  signals = (codes "am", buffered) ∷ (codes "bVirtual", virtual) ∷ [];
  lua = [];
}

-- A script that only notes its turns.
abbrev noting :
    ℕ → ℕ → Map (SignalData Bool) × List (ℕ × ℕ) → Bool × (Map (SignalData Bool) × List (ℕ × ℕ))
noting c_pos iter s = (false, (s.0, s.1 ++ (c_pos, iter) ∷ []))

viewer_cycle_lem_example :
    (viewer_cycle noting (λ l. []) [] 2 (buffered ∷ []) scripts
      ≡ (true, all_run noting (λ l. []) [] 2 3 scripts))
    × (viewer_cycle noting (λ l. []) [] 2 [] (all_run noting (λ l. []) [] 2 3 scripts)
        ≡ (false, all_run noting (λ l. []) [] 2 3 scripts))
unfolding longest
viewer_cycle_lem_example =
    viewer_cycle_lem noting (λ l. []) [] 2 (buffered ∷ []) [] scripts (omega arith) (omega arith)
      refl refl refl

scripts-HasRoom : All (λ e. HasRoom 2 1 (e.1)) scripts.signals
unfolding str_eq
scripts-HasRoom = (
  inl refl,
  (
    inr (record {
      at_first = refl;
      places = omega arith;
      last_packet = refl;
      packets = (refl, tt);
    }),
    tt,
  ),
)

-- The signal of scripts with room for the three places of the other.
abbrev grown_signal : SignalData Bool
grown_signal = record (virtual) {
  buff_data = rec_at 0 ∷ replicate 2 (record { begin_time = 0; vals = 4 ∷ 5 ∷ [] });
  buff_begin_pos = 0;
  buff_value_pos = 0;
  buff_min_time = 0;
  buff_max_time = 1;
}

set_value-fill_buffer_example :
    (sd' : SignalData Bool) × (set_value two_doubles hourly replay
        (4 ∷ 5 ∷ [])
        2
        3
        1
        7
        9
        grown_signal
      ≡ some sd')
    × IsReady 2 3 sd'
    × Stores 2 1 7 sd'
unfolding fill_buffer longest lookup map_values refilled str_eq
set_value-fill_buffer_example =
    set_value-fill_buffer two_doubles hourly (4 ∷ 5 ∷ []) (buffered ∷ []) scripts (codes "bVirtual")
      grown_signal 2 1 7 9 refl scripts-HasRoom refl refl (omega arith) (omega arith)
