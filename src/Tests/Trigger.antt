-- ===== src/Tests/Trigger.antt =====
-- Triggers on the signal `am`.
use svisual.Prelude.{ℕ, ◌∷◌, [], Bool, true, false, none, List, Option}
use svisual.Prelude.Bytes.{Bytes, codes}
use svisual.Prelude.Maps.{Map}
use svisual.Base.{SignalData}
use svisual.Misc.Timer.{Clock, new_timer}
use svisual.Trigger.{TriggerData, Floats, Watch, more, connect_module}
use svisual.Tests.Registry.{signal}

-- Any operations would do: no test is on a `float`.
abbrev no_floats : Floats
no_floats = record { lt_f = λ a b. false; eq_f = λ a b. false; gt_f = λ a b. false }

abbrev above : TriggerData
above = record {
  is_active = true;
  name = codes "t";
  signal = codes "a";
  module_name = codes "m";
  cond_type = more;
  cond_value = 4;
  cond_tout = 0;
}

abbrev with_vals : List ℕ → Map (SignalData Bool)
with_vals vs =
    (
      codes "am",
      record (signal (codes "a") (codes "m")) { last_data = record { begin_time = 0; vals = vs } },
    )
    ∷ []

abbrev passes : List (ℕ × (Option Clock × Map (SignalData Bool)))
passes =
    (1100, (none, with_vals (3 ∷ 4 ∷ [])))
    ∷ (1200, (none, with_vals (3 ∷ 5 ∷ [])))
    ∷ (1300, (none, with_vals (6 ∷ 6 ∷ [])))
    ∷ []

abbrev watching : Option Bytes → Watch
watching ptr = record {
  trg_id = (codes "t", 1) ∷ [];
  cid = 1;
  sdata = (codes "t", ptr) ∷ [];
  tm_delay = new_timer 1000 none;
  front = [];
}

abbrev on_module : TriggerData
on_module = record above { name = codes "u"; signal = []; cond_type = connect_module }
