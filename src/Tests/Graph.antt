-- ===== src/Tests/Graph.antt =====
-- The graph of a signal with three records, in a ring and as a viewer has it.
use svisual.Prelude.{
  ℕ, ◌+◌, ◌-◌, ◌*◌, ◌<◌, ◌≡◌, refl, List, [], ◌∷◌, some, ltb, ◌==◌, length, All, arith,
}
use svisual.Prelude.Rings.{window}
use svisual.Base.{RecData, SignalData, Doubles}
use svisual.Viewer.FileLoader.Index.{blank_signal}
use svisual.Graph.Window.{player, no_rec, Range, get_sign_max_min}
use svisual.Graph.Window.Laws.{ahead}
use svisual.Graph.Window.Shown.{typed_range, get_sign_max_min-visible}
use svisual.Graph.Points.{Pixels, get_points}
use svisual.Graph.Points.Laws.{get_points-IsSome}

abbrev rec_of : ℕ → ℕ → RecData
rec_of t v = record { begin_time = t; vals = v ∷ (v + 1) ∷ [] }

-- The ring has gone round: the oldest record is in the third place.
abbrev pub ring : List RecData
ring = rec_of 1200 7 ∷ rec_of 1300 5 ∷ rec_of 1000 3 ∷ rec_of 1100 9 ∷ []

abbrev pub ring_signal : SignalData ℕ
ring_signal = record (blank_signal 0) {
  type = 1;
  buff_data = ring;
  buff_begin_pos = 2;
  buff_value_pos = 1;
  buff_min_time = 1000;
  buff_max_time = 1300;
}

abbrev numbers : Range ℕ
numbers = record {
  sample = λ v. v;
  greatest = 1000;
  least = 0;
  lt_d = ltb;
  eq_d = λ a b. a == b;
  unit = (0, 1);
  widen = λ a. (a - 1, a + 1);
}

get_sign_max_min-visible_example :
    get_sign_max_min numbers numbers 2 100 player ring_signal 1150 1250
    ≡ some (typed_range numbers numbers 2 100 1150 1250 1 (window no_rec ring 4 3 (ahead 4 3 1)))
get_sign_max_min-visible_example =
    get_sign_max_min-visible numbers numbers 2 100 1150 1250 ring_signal 3 (omega arith)
      (omega arith) (omega arith) (omega arith) refl (omega arith) (omega arith) (omega arith)
      (omega arith)

abbrev pub doubles : Doubles ℕ
doubles = record { zero_d = 0; one_d = 1; of_int = λ v. v; of_float = λ v. v; lt_d = ltb }

abbrev pub sorted : List RecData
sorted = rec_of 1000 3 ∷ rec_of 1100 9 ∷ rec_of 1200 7 ∷ []

abbrev pub loaded : SignalData ℕ
loaded = record (blank_signal 0) {
  buff_data = sorted;
  buff_min_time = 1000;
  buff_max_time = 1300;
  buff_min_value = 2147483647;
  buff_max_value = 2147483649;
  buff_value_pos = 2;
}

abbrev pixels : Pixels ℕ
pixels = record {
  time_pnt = λ i t. t + 50 * i;
  value_pnt = λ v. v;
  wide = λ t. t;
  lt_i = ltb;
  eq_i = λ a b. a == b;
  zero_i = 0;
  minus_one = 0;
}

get_points-IsSome_example :
    (zones : List (List (ℕ × ℕ))) × (get_points pixels 2 100 1 ring 2 4 1 1000 1400 ≡ some zones)
    × All (λ z. 1 < length z) zones
get_points-IsSome_example =
    get_points-IsSome pixels 2 100 1 ring 2 4 1 1000 1400 refl (omega arith) (omega arith)
      (omega arith)
      (
        (omega arith, omega arith, omega arith),
        (
          (omega arith, omega arith, omega arith),
          ((omega arith, omega arith, omega arith), ((omega arith, omega arith, omega arith), tt)),
        ),
      )
