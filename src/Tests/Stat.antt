-- ===== src/Tests/Stat.antt =====
-- The histogram of five values, of which one is out of the limits, and a window in three records.
use svisual.Prelude.{ℕ, ◌+◌, List, [], ◌∷◌, Bool, ◌&&◌, leb}
use svisual.Base.{RecData, SignalData}
use svisual.Viewer.FileLoader.Index.{blank_signal}
use svisual.Stat.{Hist}

abbrev limits : ℕ → Bool
limits v = leb 2 v && leb v 8

abbrev vals : List ℕ
vals = 3 ∷ 5 ∷ 3 ∷ 9 ∷ 3 ∷ []

abbrev nothing_counted : Hist
nothing_counted = record { hist = []; val_data = []; prev_val = 0 }

abbrev rec_of : ℕ → ℕ → RecData
rec_of t v = record { begin_time = t; vals = v ∷ (v + 1) ∷ [] }

abbrev shown_signal : SignalData ℕ
shown_signal = record (blank_signal 0) {
  buff_data = rec_of 1000 3 ∷ rec_of 1100 5 ∷ rec_of 1200 7 ∷ [];
  buff_min_time = 1000;
  buff_max_time = 1300;
}
