-- ===== src/Server/Buffer.antt =====
-- `BufferData` (src/SVServer/src/buffer_data.h, buffer_data.cpp): the ring between the threads that
-- receive and the one that updates the signals. A writer takes its places under one lock
-- (`reserve`), fills them with no lock (`fill`), and hands them to the reader under another
-- (`publish`). The reader copies the records out; `vals` is copied with them, where the code hands
-- out the address of the ring's own values.
pub mod Ring
pub mod Queue
pub mod Init
use svisual.Prelude.{
  ℕ, resize, zero, suc, ◌+◌, ◌-◌, ◌*◌, ◌/◌, ◌%◌, ◌^◌, min, List, [], ◌∷◌, ◌++◌, map, Bool, true,
  false, Option, none, some, if◌then◌else◌, ltb, leb, ◌==◌, length, get_elem?, set, take, drop,
  replicate,
}
use svisual.Prelude.Bytes.{Bytes, c_str, decode32, decode_words}
use svisual.Prelude.Maps.{Map, lookup, insert}
use svisual.Prelude.Rings.{next, wrap}
use svisual.Base.{RecData, name_sz, value_max_cnt}
use svisual.Server.Config.{Config}

-- `BufferData::InputData`. `type` is the `uint32_t` as it came in.
pub record InputData : Type 0 where
  pub name : Bytes
  pub module_name : Bytes
  pub type : ℕ
  pub rec : RecData

pub record BufferData : Type 0 where
  pub cng : Config
  pub buff_sz : ℕ
  pub buffer : List InputData
  pub read_pos : ℕ
  pub write_pos : ℕ
  pub write_pos_for_reader : ℕ
  pub time_offset_ms : Map ℕ

abbrev pub empty_input : InputData
empty_input = record {
  name = [];
  module_name = [];
  type = 0;
  rec = record { begin_time = 0; vals = [] };
}

-- A `BufferData` as it is constructed; the configuration is not set yet.
abbrev pub new_buffer : Config → BufferData
new_buffer c = record {
  cng = c;
  buff_sz = value_max_cnt * 10;
  buffer = [];
  read_pos = 0;
  write_pos = 0;
  write_pos_for_reader = 0;
  time_offset_ms = [];
}

-- What `init` makes of `m_buffSz`.
abbrev pub scaled_sz : ℕ → ℕ → ℕ
scaled_sz packet_sz sz =
    if ltb 100000 packet_sz then sz / 100 else if ltb 10000 packet_sz then sz / 10 else sz

-- `BufferData::init`
unfoldable pub init : Config → BufferData → BufferData
init c b =
    let sz = scaled_sz c.packet_sz b.buff_sz in
    let clear : InputData → InputData = λ d. record d {
      rec = record { begin_time = d.rec.begin_time; vals = replicate c.packet_sz 0 };
    } in
    record b { cng = c; buff_sz = sz; buffer = map clear (resize sz empty_input b.buffer) }

-- The bytes of one signal in a message: name, type, values.
abbrev pub val_sz : ℕ → ℕ
val_sz packet_sz = name_sz + 4 + 4 * packet_sz

-- The signals that are taken from a message of `dsz` bytes.
abbrev pub val_cnt : BufferData → ℕ → ℕ
val_cnt b dsz = min ((dsz - name_sz) / val_sz b.cng.packet_sz) (b.buff_sz / 10)

-- The places that a writer has taken, and the time of its message.
pub record Ticket : Type 0 where
  pub pos : ℕ
  pub count : ℕ
  pub time : ℕ

-- `m_timeOffsetMs[module]` after a message of the module: 0 at the first.
abbrev pub next_offset : Config → Bytes → Map ℕ → ℕ
next_offset c m offs = elim (lookup m offs) [ none ↦ 0 | some o ↦ (o + c.offset_ms) % 2 ^ 64 ]

-- The block under `m_mtxWrite`.
unfoldable pub reserve : BufferData → Bytes → ℕ → ℕ → Ticket × BufferData
reserve b m n b_tm =
    let b' : BufferData = record b { write_pos = wrap b.buff_sz (b.write_pos + n) } in
    let off = next_offset b.cng m b.time_offset_ms in
    if ltb 0 b.cng.offset_ms
    then (
      record { pos = b.write_pos; count = n; time = (b_tm + off) % 2 ^ 64 },
      record b' { time_offset_ms = insert m off b.time_offset_ms },
    )
    else (record { pos = b.write_pos; count = n; time = b_tm }, b')

-- The signal that stands at `c_pos` of a message.
unfoldable pub record_at : ℕ → Bytes → ℕ → Bytes → ℕ → InputData
record_at packet_sz m b_tm indata c_pos = record {
  name = c_str (take name_sz (drop c_pos indata));
  module_name = m;
  type = decode32 (drop (c_pos + name_sz) indata);
  rec = record {
    begin_time = b_tm;
    vals = decode_words packet_sz (drop (c_pos + name_sz + 4) indata);
  };
}

-- The `for` loop, over `valCnt - i`, `cPos`, `wPos` and the ring's places.
unfoldable pub fill_loop : ℕ → Bytes → ℕ → Bytes → ℕ → ℕ → ℕ → ℕ → List InputData → List InputData
fill_loop packet_sz m b_tm indata sz zero c_pos w_pos buffer = buffer
fill_loop packet_sz m b_tm indata sz (suc k) c_pos w_pos buffer =
    fill_loop packet_sz m b_tm indata sz k (c_pos + val_sz packet_sz) (next sz w_pos)
      (set buffer w_pos (record_at packet_sz m b_tm indata c_pos))

-- `moduleStr`, and the key of the time offset.
abbrev pub module_of : Bytes → Bytes
module_of indata = c_str (take name_sz indata)

unfoldable pub fill : BufferData → Ticket → Bytes → BufferData
unfolding fill_loop
fill b t indata = record b {
  buffer =
      fill_loop b.cng.packet_sz (module_of indata) t.time indata b.buff_sz t.count name_sz t.pos
        b.buffer;
}

-- The last loop: it comes through when the writers before this one have published. `none` is a
-- round that has to be tried again.
unfoldable pub publish : BufferData → Ticket → Option BufferData
publish b t =
    if t.pos == b.write_pos_for_reader
    then some
        (record b { write_pos_for_reader = wrap b.buff_sz (b.write_pos_for_reader + t.count) })
    else none

-- `BufferData::updateDataSignals` with no other writer at work. `none` is a call that waits for
-- ever.
unfoldable pub update_data_signals : BufferData → Bytes → ℕ → Option BufferData
update_data_signals b indata b_tm =
    let n = val_cnt b (length indata) in
    let (t, b') = reserve b (module_of indata) n b_tm in
    if ltb (length indata) name_sz
    then some b
    else if n == 0
    then some b
    else publish (fill b' t indata) t

-- The `while` loop of the reader, on fuel. `none` is a read outside the ring, or no fuel.
unfoldable pub read_loop : ℕ → List InputData → ℕ → ℕ → ℕ → Option (List InputData)
read_loop zero buffer sz pos stop = none
read_loop (suc fuel) buffer sz pos stop =
    let rest = read_loop fuel buffer sz (next sz pos) stop in
    if pos == stop then some [] else elim (get_elem? buffer pos) [
      | none ↦ none
      | some d ↦ elim rest [ none ↦ none | some ds ↦ some (d ∷ ds) ]
    ]

-- `BufferData::getDataByReadPos`: the records, and the buffer with `m_buffReadPos` moved. Its
-- result is whether there are any.
unfoldable pub get_data_by_read_pos : BufferData → Option (List InputData × BufferData)
get_data_by_read_pos b =
    elim (read_loop (suc b.buff_sz) b.buffer b.buff_sz b.read_pos b.write_pos_for_reader) [
      | none ↦ none
      | some ds ↦ some (ds, record b { read_pos = b.write_pos_for_reader })
    ]
