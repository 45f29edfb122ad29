-- ===== src/Graph/Window.antt =====
-- The search of `GraphWidget` (src/SVGraphPanel/src/graph_widget.cpp) for the first record to show
-- in the ring of a signal, and the least and greatest value of the time window. `none` is a place
-- outside of the buffer. `std::lower_bound` is written as a search from the left, which finds the
-- same in a sorted range.
pub mod Laws
pub mod Search
pub mod Shown
use svisual.Prelude.{
  ℕ, zero, suc, ◌+◌, ◌-◌, ◌*◌, ◌%◌, ◌^◌, List, [], ◌∷◌, ◌++◌, Bool, true, false, not, ◌&&◌, ◌||◌,
  Option, none, some, if◌then◌else◌, ltb, leb, ◌==◌, length, take, get_or, get_elem?,
}
use svisual.Prelude.Rings.{next}
use svisual.Base.{RecData, SignalData, Doubles}

-- `enum class ModeGr`
pub data ModeGr : Type 0 where
  viewer player distr : ModeGr

abbrev pub no_rec : RecData
no_rec = record { begin_time = 0; vals = [] }

abbrev pub time_at : List RecData → ℕ → ℕ
time_at buf i = (get_or buf i no_rec).begin_time

-- `std::lower_bound` by the time, over `n` places from `lo` on.
unfoldable pub lower_bound : List RecData → ℕ → ℕ → ℕ → ℕ
lower_bound buf t zero lo = lo
lower_bound buf t (suc n) lo =
    let rest = lower_bound buf t n (lo + 1) in if ltb (time_at buf lo) t then rest else lo

-- One back, where that is in the range.
abbrev pub one_before : ℕ → ℕ → ℕ
one_before lo it = if it == lo then it else it - 1

abbrev pub search : List RecData → ℕ → ℕ → ℕ → Option ℕ
search buf t lo hi =
    if leb lo hi && leb hi (length buf)
    then some (one_before lo (lower_bound buf t (hi - lo) lo))
    else none

-- The search in the second part of a ring that goes round.
abbrev pub search_round : List RecData → ℕ → ℕ → ℕ → Option ℕ
search_round buf t end_pos sz =
    if leb end_pos (length buf)
    then some (if lower_bound buf t end_pos 0 == 0 then sz - 1 else lower_bound buf t end_pos 0 - 1)
    else none

-- `ringIndexBeforeTime`
unfoldable pub ring_index_before_time : List RecData → ℕ → ℕ → ℕ → ℕ → Option ℕ
ring_index_before_time buf start end_pos sz t =
    if (sz == 0) || (start == end_pos)
    then some start
    else if ltb start end_pos
    then search buf t start end_pos
    else if (end_pos == 0) || leb t (time_at buf (sz - 1))
    then search buf t start sz
    else search_round buf t end_pos sz

abbrev pub is_full : ℕ → ℕ → ℕ → Bool
is_full i_buf buff_sz end_pos = not (buff_sz == 0) && ((end_pos + 1) % buff_sz == i_buf)

-- The oldest record of a full ring is left out.
abbrev pub without_oldest : ℕ → ℕ → ℕ → ℕ
without_oldest i_buf buff_sz end_pos =
    if is_full i_buf buff_sz end_pos
    then if leb buff_sz (i_buf + 1) then 0 else i_buf + 1
    else i_buf

-- `selectBufStart`
unfoldable pub select_buf_start : List RecData → ModeGr → ℕ → ℕ → ℕ → ℕ → ℕ → Option ℕ
select_buf_start buf viewer tm_zn_begin tm_min i_buf buff_sz end_pos =
    if ltb tm_zn_begin tm_min then search buf tm_min 0 (length buf) else some i_buf
select_buf_start buf player tm_zn_begin tm_min i_buf buff_sz end_pos =
    let i = without_oldest i_buf buff_sz end_pos in
    if ltb tm_zn_begin tm_min then ring_index_before_time buf i end_pos buff_sz tm_min else some i
select_buf_start buf distr tm_zn_begin tm_min i_buf buff_sz end_pos = some i_buf

-- The end of a record.
abbrev pub zn_end : ℕ → RecData → ℕ
zn_end cycle_save_ms rd = (rd.begin_time + cycle_save_ms) % 2 ^ 64

-- `double` as `minMaxInWindow` uses it: the values of a type, and what it does at the end.
pub record Range (D : Type 0) : Type 0 where
  pub sample : ℕ → D
  pub greatest : D
  pub least : D
  pub lt_d : D → D → Bool
  pub eq_d : D → D → Bool
  pub unit : D × D
  pub widen : D → D × D

module _ {D : Type 0} (rg : Range D) where
  -- The loop over the values of a record.
  unfoldable pub min_max_vals : List ℕ → D × D → D × D
  min_max_vals [] mm = mm
  min_max_vals (x ∷ xs) (lo, hi) =
      let v = rg.sample x in
      min_max_vals xs (if rg.lt_d v lo then v else lo, if rg.lt_d hi v then v else hi)

  abbrev pub min_max_rec : ℕ → ℕ → ℕ → RecData → D × D → D × D
  min_max_rec packet_sz cycle_save_ms tm_min rd mm =
      if ltb tm_min (zn_end cycle_save_ms rd) then min_max_vals (take packet_sz rd.vals) mm else mm

  -- The loop over the records, on fuel.
  unfoldable pub min_max_loop :
      ℕ → ℕ → ℕ → List RecData → ℕ → ℕ → ℕ → ℕ → ℕ → D × D → Option (D × D)
  min_max_loop zero packet_sz cycle_save_ms buf tm_min tm_max sz end_pos i mm = none
  min_max_loop (suc fuel) packet_sz cycle_save_ms buf tm_min tm_max sz end_pos i mm =
      elim (get_elem? buf i) [
        | none ↦ none
        | some rd ↦
            let mm' = min_max_rec packet_sz cycle_save_ms tm_min rd mm in
            let i' = if leb sz (i + 1) then 0 else i + 1 in
            let rest =
              min_max_loop fuel packet_sz cycle_save_ms buf tm_min tm_max sz end_pos i' mm' in
            if ltb rd.begin_time tm_max then if i' == end_pos then some mm' else rest else some mm
      ]

  abbrev pub shown_range : D × D → D × D
  shown_range (lo, hi) =
      if rg.eq_d lo rg.greatest
      then rg.unit
      else if rg.eq_d lo hi
      then ((rg.widen lo).0, (rg.widen hi).1)
      else (lo, hi)

  -- `minMaxInWindow`
  unfoldable pub min_max_in_window : ℕ → ℕ → List RecData → ℕ → ℕ → ℕ → ℕ → ℕ → Option (D × D)
  min_max_in_window packet_sz cycle_save_ms buf i_buf buff_sz end_pos tm_min tm_max =
      if (buff_sz == 0) || (i_buf == end_pos)
      then some rg.unit
      else elim (min_max_loop (suc buff_sz) packet_sz cycle_save_ms buf tm_min tm_max buff_sz
          end_pos i_buf (rg.greatest, rg.least)) [ none ↦ none | some mm ↦ some (shown_range mm) ]

-- `getSignMaxMinValue`; `ints` and `floats` are what `minMaxInWindow<int>` and `minMaxInWindow<float>`
-- use, with the same `{0, 1}`.
module _ {D : Type 0} (ints floats : Range D) where
  -- The `switch` on the type.
  abbrev pub min_max_of : ℕ → ℕ → ℕ → List RecData → ℕ → ℕ → ℕ → ℕ → ℕ → Option (D × D)
  min_max_of type packet_sz cycle_save_ms buf i_buf buff_sz end_pos tm_min tm_max =
      if type == 1
      then min_max_in_window ints packet_sz cycle_save_ms buf i_buf buff_sz end_pos tm_min tm_max
      else if type == 2
      then min_max_in_window floats packet_sz cycle_save_ms buf i_buf buff_sz end_pos tm_min tm_max
      else some ints.unit

  unfoldable pub get_sign_max_min : ℕ → ℕ → ModeGr → SignalData D → ℕ → ℕ → Option (D × D)
  get_sign_max_min packet_sz cycle_save_ms mode sign tm_min tm_max =
      if (length sign.buff_data == 0)
        || (leb tm_max sign.buff_min_time || leb sign.buff_max_time tm_min)
      then some ints.unit
      else elim (select_buf_start sign.buff_data mode sign.buff_min_time tm_min sign.buff_begin_pos
          (length sign.buff_data) sign.buff_value_pos) [
            | none ↦ none
            | some i ↦
                min_max_of sign.type packet_sz cycle_save_ms sign.buff_data i
                  (length sign.buff_data) sign.buff_value_pos tm_min tm_max
          ]
