-- ===== src/Tests/Arduino.antt =====
-- A board with an `int` value.
use svisual.Prelude.{◌≡◌, refl, ◌∷◌, [], true, false, some, inr, arith}
use svisual.Prelude.Bytes.{codes, str_eq, str_eq_iff, str_lt, contains, find_at, starts_with}
use svisual.Base.{int, float}
use svisual.Client.{ValueRec}
use svisual.Arduino.{Board, add_value}
use svisual.Arduino.Tree.{Tree, leaf, node, find}
use svisual.Arduino.Laws.{IsValid, Keeps, add_value-Keeps}

abbrev tree : Tree
tree = node (codes "m") 0 (node (codes "c") 1 leaf leaf) leaf

-- The tree itself, run.
tree_found : find (codes "c") tree ≡ some 1
unfolding find str_eq str_lt
tree_found = refl

abbrev temp : ValueRec
temp = record {
  is_active = true;
  is_only_front = false;
  name = codes "t";
  type = int;
  vals = 20 ∷ 21 ∷ [];
}

abbrev uno : Board
uno = record {
  packet_sz = 2;
  vals_max_cnt = 4;
  int_bits = 16;
  is_connect = true;
  is_wifi = false;
  is_com = true;
  module_name = codes "uno";
  ip_server = 0 ∷ 0 ∷ 0 ∷ 0 ∷ [];
  port_serv = 1330;
  cur_cyc_cnt = 1;
  values = record { root = node (codes "t") 0 leaf leaf; nods = temp ∷ [] };
}

uno-IsValid : IsValid uno
unfolding find
uno-IsValid = record {
  cycle_in = omega arith;
  packets = (refl, tt);
  placed = λ k i e. ground arith;
  apart = λ k j i ek ej. ground (arith, str_eq_iff k (codes "t"), str_eq_iff j (codes "t"));
}

add_value-Keeps_example :
    (b : Board) × (add_value (codes "p") float 77 false uno ≡ some (b, true))
    × Keeps (codes "p") float 77 false uno b
unfolding find str_eq str_lt svisual.Client.is_name contains find_at starts_with
add_value-Keeps_example =
    add_value-Keeps (codes "p") float 77 false uno refl uno-IsValid (inr (refl, omega arith, refl))
