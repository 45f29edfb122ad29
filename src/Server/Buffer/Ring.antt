-- ===== src/Server/Buffer/Ring.antt =====
-- The loops over the ring, as writes and windows.
use svisual.Prelude.{
  ℕ, zero, suc, ◌+◌, ◌<◌, ◌≡◌, refl, ap, List, [], ◌∷◌, some, length, set, arith,
  get_elem?-eq-get_or,
}
use svisual.Prelude.Bytes.{Bytes}
use svisual.Prelude.Rings.{next, wrap, window, write_all}
use svisual.Server.Buffer.{InputData, empty_input, val_sz, record_at, fill_loop, read_loop}

-- The signals of a message, in order.
unfoldable pub records_at : ℕ → Bytes → ℕ → Bytes → ℕ → ℕ → List InputData
records_at packet_sz m b_tm indata zero c_pos = []
records_at packet_sz m b_tm indata (suc k) c_pos =
    record_at packet_sz m b_tm indata c_pos
    ∷ records_at packet_sz m b_tm indata k (c_pos + val_sz packet_sz)

pub length-records_at :
    (packet_sz : ℕ) (m : Bytes) (b_tm : ℕ) (indata : Bytes) (k c_pos : ℕ)
    → length (records_at packet_sz m b_tm indata k c_pos) ≡ k
unfolding records_at
length-records_at packet_sz m b_tm indata zero c_pos = refl
length-records_at packet_sz m b_tm indata (suc k) c_pos =
    ap suc (length-records_at packet_sz m b_tm indata k (c_pos + val_sz packet_sz))

pub fill_loop-eq-write_all :
    (packet_sz : ℕ) (m : Bytes) (b_tm : ℕ) (indata : Bytes) (sz k c_pos i : ℕ)
    (buffer : List InputData)
    → fill_loop packet_sz m b_tm indata sz k c_pos i buffer
      ≡ write_all buffer sz i (records_at packet_sz m b_tm indata k c_pos)
unfolding fill_loop records_at
fill_loop-eq-write_all packet_sz m b_tm indata sz zero c_pos i buffer = refl
fill_loop-eq-write_all packet_sz m b_tm indata sz (suc k) c_pos i buffer =
    fill_loop-eq-write_all packet_sz m b_tm indata sz k (c_pos + val_sz packet_sz) (next sz i)
      (set buffer i (record_at packet_sz m b_tm indata c_pos))

-- The reader's loop gives the records up to its stop, and does not read outside the ring.
pub read_loop_lem :
    (n fuel : ℕ) (buffer : List InputData) (sz pos stop : ℕ)
    → length buffer ≡ sz
    → pos < sz
    → n < sz
    → n < fuel
    → stop ≡ wrap sz (pos + n)
    → read_loop fuel buffer sz pos stop ≡ some (window empty_input buffer sz pos n)
unfolding read_loop
read_loop_lem n zero buffer sz pos stop hb hp hn hf e = absurd (omega arith)
read_loop_lem zero (suc fuel) buffer sz pos stop hb hp hn hf e = ground arith
read_loop_lem (suc n) (suc fuel) buffer sz pos stop hb hp hn hf e = ground (
  arith,
  get_elem?-eq-get_or buffer pos empty_input,
  read_loop_lem n fuel buffer sz (next sz pos) stop hb,
)
