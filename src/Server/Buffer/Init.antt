-- ===== src/Server/Buffer/Init.antt =====
-- `BufferData::init`, at the first start of the server and at a later one.
use svisual.Prelude.{ℕ, length-resize, ◌≤◌, ◌<◌, ◌≡◌, refl, ◌∙◌, [], arith, length-map, some}
use svisual.Prelude.Bytes.{Bytes}
use svisual.Server.Config.{Config}
use svisual.Server.Buffer.{BufferData, empty_input, new_buffer, init, update_data_signals}
use svisual.Server.Buffer.Queue.{IsValid, IsIdle, unread}

-- The first start makes an idle valid ring with nothing to read, whatever the configuration.
pub init-IsValid :
    (c : Config)
    → let b = init c (new_buffer c) in IsValid b × IsIdle b × (unread b ≡ 0) × (204 ≤ b.buff_sz)
unfolding init
init-IsValid c = (
  record {
    positive = ground arith;
    places = length-map _ _ ∙ length-resize _ empty_input [];
    read_in = ground arith;
    write_in = ground arith;
    reader_in = ground arith;
  },
  refl,
  ground arith,
  ground arith,
)

-- A start with a packet size above 100000 divides the size by 100 that the start before has left:
-- from the third on the ring has no place.
pub init_shrinks :
    (c : Config)
    → 100000 < c.packet_sz
    → (init c (init c (new_buffer c))).buff_sz ≡ 2
      × ((init c (init c (init c (new_buffer c)))).buff_sz ≡ 0)
unfolding init
init_shrinks c h = ground arith

-- On such a ring every message is dropped: the call succeeds and changes nothing.
pub update_dropped :
    (b : BufferData) (indata : Bytes) (b_tm : ℕ)
    → b.buff_sz < 10
    → update_data_signals b indata b_tm ≡ some b
unfolding update_data_signals
update_dropped b indata b_tm h = ground arith
