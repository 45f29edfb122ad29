-- ===== src/Script/Packet.antt =====
-- A packet that a script sets value by value (src/SVScriptDialog/src/script_dialog_impl.cpp) leaves
-- a signal as the record does that the server gets (src/SVServer/src/thread_update.cpp).
use svisual.Prelude.{ℕ, List, ◌++◌, set}
use svisual.Base.{SignalData, Value, Doubles}
use svisual.Server.Config.{Config}

module _ {D : Type 0} (ops : Doubles D) (c : Config) where
  -- The signal in the middle of a packet: the values so far, and old ones behind them.
  abbrev midway : List Value → List Value → List Value → ℕ → SignalData D → SignalData D
  midway vals tail tail' t0 sd = record sd {
    last_data = record (sd.last_data) { vals = vals ++ tail };
    buff_data =
        set sd.buff_data sd.buff_value_pos (record { begin_time = t0; vals = vals ++ tail' });
  }
