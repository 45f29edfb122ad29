-- ===== src/Tests/Registry.antt =====
-- Signals and modules at concrete names, over a type of two values in place of `double`.
use svisual.Prelude.{ℕ, ◌∷◌, [], Bool, true, false}
use svisual.Prelude.Bytes.{Bytes, codes}
use svisual.Base.{SignalData, Doubles}
use svisual.Server.Config.{Config, default_config}
use svisual.Server.Buffer.{InputData}
use svisual.Server.Registry.{empty_registry, add_signal}
use svisual.Server.Registry.Laws.{IsConsistent, empty-IsConsistent, add_signal-IsConsistent}
use svisual.Server.Update.{new_signal}

abbrev pub two_doubles : Doubles Bool
two_doubles = record {
  zero_d = false;
  one_d = true;
  of_int = λ v. true;
  of_float = λ v. true;
  lt_d = λ a b. false;
}

abbrev pub input : Bytes → Bytes → ℕ → InputData
input n m t = record {
  name = n;
  module_name = m;
  type = 1;
  rec = record { begin_time = t; vals = 4 ∷ 5 ∷ [] };
}

abbrev pub two_cells : Config
two_cells = record default_config { packet_sz = 2 }

abbrev pub signal : Bytes → Bytes → SignalData Bool
signal n m = new_signal two_doubles two_cells 9000 (input n m 8000)

add_signal-IsConsistent_example :
    IsConsistent (add_signal (signal (codes "a") (codes "m")) empty_registry).0
add_signal-IsConsistent_example =
    add_signal-IsConsistent (signal (codes "a") (codes "m")) empty_registry empty-IsConsistent

abbrev sign : Bytes
sign = codes "am"
