-- ===== src/Tests/Buffer.antt =====
-- The ring at concrete messages.
use svisual.Prelude.{
  ℕ, ◌+◌, ◌≤◌, ◌≡◌, refl, ◌++◌, List, [], ◌∷◌, some, arith, length, replicate, ◌∙◌,
}
use svisual.Prelude.Bytes.{Bytes, codes, pad, encode32, encode_words, c_str, decode32, decode_words}
use svisual.Base.{name_sz}
use svisual.Server.Config.{Config, default_config}
use svisual.Server.Buffer.{
  InputData, BufferData, empty_input, new_buffer, init, update_data_signals, get_data_by_read_pos,
}
use svisual.Server.Buffer.Queue.{
  IsValid, IsIdle, unread, contents, taken, decoded, update_refines, update_overrun,
  get_data_refines,
}

abbrev pub two_values : Config
two_values = record default_config { packet_sz = 2; offset_ms = 7 }

-- A ring of twenty places whose positions are about to go round.
abbrev pub small_ring : BufferData
small_ring = record (new_buffer two_values) {
  buff_sz = 20;
  buffer = replicate 20 empty_input;
  read_pos = 19;
  write_pos = 19;
  write_pos_for_reader = 19;
}

pub small_ring-IsValid : IsValid small_ring
small_ring-IsValid = omega arith

-- The same ring with eighteen records to read.
abbrev full_ring : BufferData
full_ring = record small_ring { read_pos = 1 }

full_ring-IsValid : IsValid full_ring
full_ring-IsValid = omega arith

abbrev signal : Bytes → List ℕ → Bytes
signal name vals = pad name_sz name ++ (encode32 1 ++ encode_words vals)

abbrev pub message : Bytes
message =
    pad name_sz (codes "mod")
    ++ (signal (codes "x") (1 ∷ 258 ∷ []) ++ signal (codes "yy") (3 ∷ 4 ∷ []))

abbrev received : Bytes → List ℕ → InputData
received name vals = record {
  name = name;
  module_name = codes "mod";
  type = 1;
  rec = record { begin_time = 1000; vals = vals };
}

decoded-message :
    decoded small_ring message 1000
    ≡ received (codes "x") (1 ∷ 258 ∷ []) ∷ received (codes "yy") (3 ∷ 4 ∷ []) ∷ []
unfolding decoded svisual.Server.Buffer.Ring.records_at svisual.Server.Buffer.record_at encode32
    encode_words c_str decode32 decode_words svisual.Prelude.Maps.lookup
decoded-message = refl

update_refines_example :
    (b : BufferData) × (update_data_signals small_ring message 1000 ≡ some b)
    × IsValid b
    × IsIdle b
    × (contents b ≡ contents small_ring ++ decoded small_ring message 1000)
unfolding encode32 encode_words
update_refines_example =
    update_refines small_ring message 1000 small_ring-IsValid refl (omega arith)

update_overrun_example :
    (b : BufferData) × (update_data_signals full_ring message 1000 ≡ some b)
    × (unread b + 20 ≡ unread full_ring + taken full_ring message)
unfolding encode32 encode_words
update_overrun_example = update_overrun full_ring message 1000 full_ring-IsValid refl (omega arith)

get_data_refines_example :
    (b : BufferData) × (get_data_by_read_pos full_ring ≡ some (contents full_ring, b))
    × IsValid b
    × (contents b ≡ [])
    × (b.write_pos ≡ 19)
    × (b.write_pos_for_reader ≡ 19)
get_data_refines_example = get_data_refines full_ring full_ring-IsValid

abbrev megahertz : Config
megahertz = record default_config { packet_sz = 1000000 }
