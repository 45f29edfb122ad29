-- ===== src/Tests/Client.antt =====
-- A client with a `bool` and an `int` value.
use svisual.Prelude.{
  ℕ, ◌+◌, ◌%◌, ◌<◌, ◌≡◌, refl, ◌++◌, ◌∷◌, [], true, false, none, some, arith, replicate,
  if◌then◌else◌, ltb, map,
}
use svisual.Prelude.Bytes.{Bytes, codes, pad, c_str, find_at, starts_with, contains}
use svisual.Prelude.Maps.{Map}
use svisual.Base.{name_sz, bool, int}
use svisual.Server.Config.{default_config}
use svisual.Server.Buffer.{BufferData, new_buffer, empty_input, update_data_signals}
use svisual.Server.Buffer.Queue.{contents, stamp}
use svisual.Server.Scan.{cut}
use svisual.Client.{
  ValueRec, Client, is_name, sv_set_param, add_value, prev_cycle, hold_all, prepare_data, cycle,
  turn,
}
use svisual.Client.Valid.{IsRec, IsValid, prepared}
use svisual.Client.Hold.{AllHeld, cycle-AllHeld}
use svisual.Client.Param.{add_value-sv_set_param}
use svisual.Client.Wire.{as_input, CanSend, client_to_server}

abbrev lamp : ValueRec
lamp = record {
  is_active = true;
  is_only_front = true;
  name = pad name_sz (codes "lamp");
  type = bool;
  vals = 1 ∷ 0 ∷ [];
}

abbrev heat : ValueRec
heat = record {
  is_active = false;
  is_only_front = false;
  name = pad name_sz (codes "heat");
  type = int;
  vals = 300 ∷ 301 ∷ [];
}

abbrev house : Client
house = record {
  cycle_rec_ms = 100;
  packet_sz = 2;
  is_connect = true;
  module_name = codes "house";
  cur_cycle = 1;
  values = (codes "heat", heat) ∷ (codes "lamp", lamp) ∷ [];
}

heat-IsRec : IsRec 2 (codes "heat") heat
unfolding c_str
heat-IsRec = record { packet = refl; words = omega arith; name_field = refl; named = refl }

lamp-IsRec : IsRec 2 (codes "lamp") lamp
unfolding c_str
lamp-IsRec = record { packet = refl; words = omega arith; name_field = refl; named = refl }

house-IsValid : IsValid house
house-IsValid = record { cycle_in = omega arith; recs = (heat-IsRec, (lamp-IsRec, tt)) }

house-CanSend : CanSend house
house-CanSend = record {
  valid = house-IsValid;
  named = omega arith;
  has_values = omega arith;
  fits = omega arith;
}

abbrev pair_ring : BufferData
pair_ring = record (new_buffer (record default_config { packet_sz = 2 })) {
  buff_sz = 30;
  buffer = replicate 30 empty_input;
}

client_to_server_example :
    (bytes : Bytes) × (p : Bytes) × (b' : BufferData) × (prepare_data house ≡ some bytes)
    × (cut bytes ≡ some (p ∷ [], []))
    × (update_data_signals pair_ring p 1000 ≡ some b')
    × (contents b'
        ≡ contents pair_ring
          ++ map (as_input house.module_name (stamp pair_ring p 1000)) house.values)
client_to_server_example =
    client_to_server house pair_ring 1000 house-CanSend (omega arith) refl refl (omega arith)
      (omega arith)

cycle-AllHeld_example :
    (prev : ℕ) × (m : Map ValueRec) × (prev < 2)
    × ((prev + 1) % 2 ≡ 1)
    × AllHeld 1 prev house.values m
    × (cycle house
        ≡ some (
            if ltb 2 2 then (record house { values = m; cur_cycle = 2 }, []) else (
              record house { values = m; cur_cycle = 0 },
              if true then prepared (record house { values = m; cur_cycle = 0 }) else [],
            )))
cycle-AllHeld_example = cycle-AllHeld house house-IsValid

abbrev fresh : Client
fresh = record house { packet_sz = 10; cur_cycle = 8; values = [] }

add_value-sv_set_param_example :
    add_value (replicate 24 7) (some (codes "x")) int 5 false (sv_set_param 100 3 fresh) ≡ none
unfolding svisual.Client.is_name contains find_at starts_with
add_value-sv_set_param_example =
    add_value-sv_set_param 100 3 (replicate 24 7) (codes "x") int 5 false fresh refl (omega arith)
      refl
