-- ===== src/Viewer/Database.antt =====
-- The viewer's reading of signals from the database
-- (src/SVViewer/src/db_loader/clickhouse_loader.cpp): the conditions of its requests and the loop over
-- the blocks of rows that come.
pub mod Places
pub mod RoundTrip
use svisual.Prelude.{
  ℕ, suc, ◌+◌, ◌*◌, ◌/◌, ◌<◌, List, [], ◌∷◌, ◌++◌, Bool, true, false, not, ◌&&◌, Option, none, some,
  if◌then◌else◌, ltb, ◌==◌, length, set, get_elem?, get_or, replicate,
}
use svisual.Base.{RecData, Value}
use svisual.Graph.Window.{no_rec}

-- The condition of a request: `ts BETWEEN`, `ts >=`, `ts <`, or none. Only with a condition the
-- rows come in the order of time.
pub data Condition : Type 0 where
  between : ℕ → ℕ → Condition
  from : ℕ → Condition
  before : ℕ → Condition
  anything : Condition

-- `qDataCondition`; a time that is not valid is 0.
unfoldable pub condition : ℕ → ℕ → Condition
condition time_begin time_end =
    if ltb 0 time_begin && ltb 0 time_end
    then between time_begin time_end
    else if ltb 0 time_begin
    then from time_begin
    else if ltb 0 time_end
    then before time_end
    else anything

-- `sValueCount` behind `ceil`, whose argument is the quotient of two integers.
abbrev pub packet_count : ℕ → ℕ → ℕ
packet_count packet_sz rows = rows / packet_sz

-- `buffData` with values that are 0, behind `memset`.
abbrev pub blank_records : ℕ → ℕ → List RecData
blank_records packet_sz n = replicate n (record { begin_time = 0; vals = replicate packet_sz 0 })

-- `buffData[buffPos]` gets its time and its value in place `packetPos`.
abbrev pub put_value : ℕ → ℕ → ℕ → Value → List RecData → List RecData
put_value buff_pos packet_pos t v buff =
    set buff buff_pos
      (record { begin_time = t; vals = set (get_or buff buff_pos no_rec).vals packet_pos v })

-- How a `Float32` becomes an `int`; the rows of a block are times and values.
module _ (int_of_float : ℕ → Value) (packet_sz type : ℕ) where
  -- The loop over the rows of one block: `buffData` and `buffPos`.
  unfoldable pub block_loop : List (ℕ × ℕ) → ℕ → ℕ → ℕ → List RecData → List RecData × ℕ
  block_loop [] n packet_pos buff_pos buff = (buff, buff_pos)
  block_loop ((t, x) ∷ rows) n packet_pos buff_pos buff =
      let buff' = put_value buff_pos packet_pos t (if type == 2 then x else int_of_float x) buff in
      let is_full = packet_pos + 1 == packet_sz in
      let rest =
        block_loop rows n (if is_full then 0 else packet_pos + 1)
          (if is_full then buff_pos + 1 else buff_pos) buff' in
      if ltb buff_pos n then rest else (buff, buff_pos)

  -- The blocks; `packetPos` begins anew with each.
  unfoldable pub load_db_blocks : List (List (ℕ × ℕ)) → ℕ → ℕ → List RecData → List RecData × ℕ
  load_db_blocks [] n buff_pos buff = (buff, buff_pos)
  load_db_blocks (b ∷ bs) n buff_pos buff =
      let (buff', buff_pos') = block_loop b n 0 buff_pos buff in load_db_blocks bs n buff_pos' buff'

  -- What `loadSignalData` makes of `rows` rows that come in blocks.
  unfoldable pub load_rows : ℕ → List (List (ℕ × ℕ)) → List RecData
  load_rows rows blocks =
      let n = packet_count packet_sz rows in
      (load_db_blocks blocks n 0 (blank_records packet_sz n)).0
