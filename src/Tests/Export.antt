-- ===== src/Tests/Export.antt =====
-- The export of a signal with a ring that has gone round, and of one that the viewer has loaded.
use svisual.Prelude.{◌≡◌, refl, arith, true, false, some}
use svisual.Prelude.Rings.{window}
use svisual.Graph.Window.{no_rec}
use mathlib.Core.Option
use svisual.Prelude.Bytes.{codes}
use svisual.Export.{Choice, Texts, csv_signal, json_signal}
use svisual.Export.Laws.{signal_text, csv_signal-eq-json_signal}
use svisual.Export.Ring.{entries_of, json_signal_lem}
use svisual.Tests.Graph.{ring, ring_signal}

abbrev every : Choice
every = record {
  begin_time = 1050;
  end_time = 1250;
  all_time = false;
  every_values = true;
  every_min = false;
  every_sec = false;
}

json_signal_lem_example :
    json_signal every 2 100 9 ring_signal
    ≡ some (record {
      module_name = ring_signal.module_name;
      signal = ring_signal.name;
      entries = some (entries_of every 2 100 ring_signal.type (window no_rec ring 4 2 3));
    })
json_signal_lem_example =
    json_signal_lem every 2 100 9 3 ring_signal refl (omega arith) (omega arith) refl (omega arith)

-- Every number is written as a letter.
abbrev letters : Texts
letters = record {
  time_text = λ t. codes "t";
  bool_text = λ v. codes "b";
  int_text = λ v. codes "i";
  float_text = λ v. codes "f";
}

csv_signal-eq-json_signal_example :
    csv_signal letters every 2 100 9 ring_signal
    ≡ Option.map (signal_text letters) (json_signal every 2 100 9 ring_signal)
csv_signal-eq-json_signal_example = csv_signal-eq-json_signal letters every 2 100 9 ring_signal
