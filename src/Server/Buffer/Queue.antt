-- ===== src/Server/Buffer/Queue.antt =====
-- The ring as a queue: a message appends its signals, the reader takes all there are.
use svisual.Prelude.{
  ℕ, suc, ◌+◌, ◌-◌, ◌/◌, ◌%◌, ◌^◌, ◌≤◌, ◌<◌, ◌≡◌, refl, ap, ◌∙◌, inl, inr, List, [], ◌++◌, some,
  if◌then◌else◌, ltb, ◌==◌, length, arith, Bool-cases,
}
use svisual.Prelude.Bytes.{Bytes}
use svisual.Prelude.Rings.{wrap, window, write_all, length-write_all, window-write_all}
use svisual.Prelude.Maps.{Map, insert}
use svisual.Base.{name_sz}
use svisual.Server.Buffer.{
  InputData, BufferData, empty_input, val_cnt, next_offset, reserve, module_of, fill, publish,
  update_data_signals, get_data_by_read_pos,
}
use svisual.Server.Buffer.Ring.{
  records_at, length-records_at, fill_loop-eq-write_all, read_loop_lem,
}

pub record IsValid (b : BufferData) : Type 0 where
  pub positive : 0 < b.buff_sz
  pub places : length b.buffer ≡ b.buff_sz
  pub read_in : b.read_pos < b.buff_sz
  pub write_in : b.write_pos < b.buff_sz
  pub reader_in : b.write_pos_for_reader < b.buff_sz

-- No writer is between `reserve` and `publish`.
abbrev pub IsIdle : BufferData → Type 0
IsIdle b = b.write_pos ≡ b.write_pos_for_reader

-- How many records the reader has not taken yet, and which.
abbrev pub unread : BufferData → ℕ
unread b = wrap b.buff_sz (b.write_pos_for_reader + b.buff_sz - b.read_pos)

abbrev pub contents : BufferData → List InputData
contents b = window empty_input b.buffer b.buff_sz b.read_pos (unread b)

-- The time that the records of a message get.
abbrev pub stamp : BufferData → Bytes → ℕ → ℕ
stamp b indata b_tm =
    if ltb 0 b.cng.offset_ms
    then (b_tm + next_offset b.cng (module_of indata) b.time_offset_ms) % 2 ^ 64
    else b_tm

-- The records of a message, and how many.
abbrev pub taken : BufferData → Bytes → ℕ
taken b indata = if ltb (length indata) name_sz then 0 else val_cnt b (length indata)

unfoldable pub decoded : BufferData → Bytes → ℕ → List InputData
decoded b indata b_tm =
    records_at b.cng.packet_sz (module_of indata) (stamp b indata b_tm) indata (taken b indata)
      name_sz

pub length-decoded :
    (b : BufferData) (indata : Bytes) (b_tm : ℕ) → length (decoded b indata b_tm) ≡ taken b indata
unfolding decoded
length-decoded b indata b_tm = length-records_at _ _ _ indata (taken b indata) name_sz

-- The offsets after the message.
abbrev offsets : BufferData → Bytes → Map ℕ
offsets b indata =
    if taken b indata == 0
    then b.time_offset_ms
    else if ltb 0 b.cng.offset_ms
    then insert (module_of indata) (next_offset b.cng (module_of indata) b.time_offset_ms)
        b.time_offset_ms
    else b.time_offset_ms

-- The buffer after the message.
abbrev pub after : BufferData → Bytes → ℕ → BufferData
after b indata b_tm = record b {
  buffer = write_all b.buffer b.buff_sz b.write_pos (decoded b indata b_tm);
  write_pos = wrap b.buff_sz (b.write_pos + taken b indata);
  write_pos_for_reader = wrap b.buff_sz (b.write_pos_for_reader + taken b indata);
  time_offset_ms = offsets b indata;
}

-- A call with no other writer at work comes through, and makes just these changes.
pub update-eq-after :
    (b : BufferData) (indata : Bytes) (b_tm : ℕ)
    → IsValid b
    → IsIdle b
    → update_data_signals b indata b_tm ≡ some (after b indata b_tm)
unfolding update_data_signals reserve fill publish decoded records_at
update-eq-after b indata b_tm v idle = elim (Bool-cases (ltb (length indata) name_sz)) [
  | inl short ↦ rw short (ground arith)
  | inr long ↦ rw long (elim (Bool-cases (val_cnt b (length indata) == 0)) [
    | inl nothing ↦ ground arith
    | inr some_more ↦ ground (
      arith,
      fill_loop-eq-write_all b.cng.packet_sz (module_of indata) (stamp b indata b_tm) indata
          b.buff_sz (val_cnt b (length indata)) name_sz b.write_pos b.buffer,
    )
  ])
]

-- At most a tenth of the ring is taken by one message.
taken-le : (b : BufferData) (indata : Bytes) → taken b indata ≤ b.buff_sz / 10
taken-le b indata = ground arith

pub after-IsValid :
    (b : BufferData) (indata : Bytes) (b_tm : ℕ) → IsValid b → IsValid (after b indata b_tm)
after-IsValid b indata b_tm v = record {
  positive = v.positive;
  places = length-write_all (decoded b indata b_tm) b.buffer b.buff_sz b.write_pos ∙ v.places;
  read_in = v.read_in;
  write_in = ground (arith, taken-le b indata);
  reader_in = ground (arith, taken-le b indata);
}

-- With room for its records, a message is appended to what the reader has still to take.
pub contents-after :
    (b : BufferData) (indata : Bytes) (b_tm : ℕ)
    → IsValid b
    → IsIdle b
    → unread b + taken b indata < b.buff_sz
    → contents (after b indata b_tm) ≡ contents b ++ decoded b indata b_tm
contents-after b indata b_tm v idle room =
    ap (window empty_input (write_all b.buffer b.buff_sz b.write_pos ds) b.buff_sz b.read_pos) grown
    ∙ window-write_all empty_input ds (unread b) b.buffer b.buff_sz b.read_pos b.write_pos
        (omega (arith, v.places)) v.read_in (omega (arith, length-decoded b indata b_tm))
        (ground arith)
  where
    ds : List InputData
    ds = decoded b indata b_tm

    grown : unread (after b indata b_tm) ≡ unread b + length ds
    grown = ground (arith, length-decoded b indata b_tm)

-- With no other writer at work, a message whose records find room is taken in: the call comes
-- through, its records stand behind those that the reader has still to take, and the ring stays
-- valid.
pub update_refines :
    (b : BufferData) (indata : Bytes) (b_tm : ℕ)
    → IsValid b
    → IsIdle b
    → unread b + taken b indata < b.buff_sz
    → (b' : BufferData) × (update_data_signals b indata b_tm ≡ some b')
      × IsValid b'
      × IsIdle b'
      × (contents b' ≡ contents b ++ decoded b indata b_tm)
update_refines b indata b_tm v idle room = (
  after b indata b_tm,
  update-eq-after b indata b_tm v idle,
  after-IsValid b indata b_tm v,
  ap (λ k. wrap b.buff_sz (k + taken b indata)) idle,
  contents-after b indata b_tm v idle room,
)

-- Nothing stops a message that finds no room: a whole round of records is lost to the reader.
pub update_overrun :
    (b : BufferData) (indata : Bytes) (b_tm : ℕ)
    → IsValid b
    → IsIdle b
    → b.buff_sz ≤ unread b + taken b indata
    → (b' : BufferData) × (update_data_signals b indata b_tm ≡ some b')
      × (unread b' + b.buff_sz ≡ unread b + taken b indata)
update_overrun b indata b_tm v idle full =
    (after b indata b_tm, update-eq-after b indata b_tm v idle, ground (arith, taken-le b indata))

-- The reader's call comes to an end without a read outside the ring, gives all records that are
-- there, in order, and leaves none; the ring stays valid and the writers' positions unchanged.
pub get_data_refines :
    (b : BufferData)
    → IsValid b
    → (b' : BufferData) × (get_data_by_read_pos b ≡ some (contents b, b'))
      × IsValid b'
      × (contents b' ≡ [])
      × (b'.write_pos ≡ b.write_pos)
      × (b'.write_pos_for_reader ≡ b.write_pos_for_reader)
unfolding get_data_by_read_pos
get_data_refines b v = (
  record b { read_pos = b.write_pos_for_reader },
  rw (
    read_loop_lem (unread b) (suc b.buff_sz) b.buffer b.buff_sz b.read_pos b.write_pos_for_reader
        v.places v.read_in (ground arith) (ground arith) (ground arith),
    get_data_by_read_pos,
  ),
  ground arith,
  ap (window empty_input b.buffer b.buff_sz b.write_pos_for_reader) nothing_left,
  refl,
  refl,
)
  where
    nothing_left : wrap b.buff_sz (b.write_pos_for_reader + b.buff_sz - b.write_pos_for_reader) ≡ 0
    nothing_left = ground arith
