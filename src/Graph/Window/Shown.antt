-- ===== src/Graph/Window/Shown.antt =====
-- The range of values that `GraphWidget` shows (src/SVGraphPanel/src/graph_widget.cpp): in a monitor,
-- and in a viewer for a signal as `FileLoader` leaves it
-- (src/SVViewer/src/file_loader/file_loader.cpp).
use svisual.Prelude.{
  ℕ, zero, suc, ◌+◌, ◌-◌, ◌%◌, ◌≤◌, ◌<◌, ◌≡◌, ◌≢◌, refl, sym, ap, ap₂, subst, ◌∙◌, inl, inr, List,
  [], ◌∷◌, false, ◌||◌, some, ltb, leb, ◌==◌, length, take, drop, get_or, arith, Bool-cases, dec_lt,
}
use svisual.Prelude.Rings.{next, window}
use native.Mathlib.Nat.{mod-eq_of_lt, mod_self}
use svisual.Base.{RecData, SignalData, Doubles}
use svisual.Graph.Window.{
  player, viewer, no_rec, ring_index_before_time, without_oldest, select_buf_start, Range,
  min_max_in_window, min_max_of, get_sign_max_min, shown_range,
}
use svisual.Graph.Window.Laws.{visible, ahead, min_max_all, min_max_loop-visible}
use svisual.Graph.Window.Search.{Spaced, ring_index-visible}
use svisual.Viewer.FileLoader.Signal.{finish}

round_mod : (i sz : ℕ) → i < sz → (i + 1) % sz ≡ next sz i
round_mod i sz h = elim (dec_lt (i + 1) sz) [
  | yes inside ↦ mod-eq_of_lt inside ∙ ground arith
  | no round ↦ let e : i + 1 ≡ sz = omega arith in ap (λ k. k % sz) e ∙ mod_self sz ∙ ground arith
]

-- Where the search begins, without the oldest record of a full ring.
start_lem :
    (begin_pos sz end_pos : ℕ)
    → 2 < sz
    → begin_pos < sz
    → end_pos < sz
    → begin_pos ≢ end_pos
    → (without_oldest begin_pos sz end_pos < sz) × (without_oldest begin_pos sz end_pos ≢ end_pos)
start_lem begin_pos sz end_pos big hb he ne =
    (ground (arith, round_mod end_pos sz he), ground (arith, round_mod end_pos sz he))

module _ {D : Type 0} (rg : Range D) (packet_sz cycle_save_ms tm_min tm_max : ℕ) where
  -- What is made of the records that can be seen.
  abbrev pub range_of : List RecData → D × D
  range_of rds = shown_range rg (
      min_max_all rg packet_sz cycle_save_ms (visible cycle_save_ms tm_min tm_max rds)
        (rg.greatest, rg.least))

  min_max_from :
      (buf : List RecData) (sz i end_pos : ℕ)
      → sz ≡ length buf
      → i < sz
      → end_pos < sz
      → i ≢ end_pos
      → min_max_in_window rg packet_sz cycle_save_ms buf i sz end_pos tm_min tm_max
        ≡ some (range_of (window no_rec buf sz i (ahead sz i end_pos)))
  unfolding min_max_in_window
  min_max_from buf sz i end_pos whole hi he ne =
      let n = ahead sz i end_pos - 1 in
      let all : suc n ≡ ahead sz i end_pos = ground arith in
      let loop =
        min_max_loop-visible rg packet_sz cycle_save_ms n (suc sz) buf tm_min tm_max sz end_pos i
          (rg.greatest, rg.least) whole hi (ground arith) he (ground arith) (ground arith) in
      rw (min_max_in_window, some_there, loop)
        (ap (λ m. some (range_of (window no_rec buf sz i m))) all)
    where
      some_there : ((sz == 0) || (i == end_pos)) ≡ false
      some_there = ground arith

  select_player :
      (buf : List RecData) (tm_zn_begin begin_pos end_pos start : ℕ)
      → 2 < length buf
      → begin_pos < length buf
      → end_pos < length buf
      → begin_pos ≢ end_pos
      → start ≡ without_oldest begin_pos (length buf) end_pos
      → Spaced cycle_save_ms
          (window no_rec buf (length buf) start (ahead (length buf) start end_pos))
      → tm_min ≤ tm_max
      → (i : ℕ) × (select_buf_start buf player tm_zn_begin tm_min begin_pos (length buf) end_pos
          ≡ some i)
        × ((i < length buf) × (i ≢ end_pos))
        × (visible cycle_save_ms tm_min tm_max
              (window no_rec buf (length buf) i (ahead (length buf) i end_pos))
            ≡ visible cycle_save_ms tm_min tm_max
                (window no_rec buf (length buf) start (ahead (length buf) start end_pos)))
  unfolding select_buf_start
  select_player buf tm_zn_begin begin_pos end_pos start big hb he ne e spaced le =
      let (hs, ns) = start_lem begin_pos (length buf) end_pos big hb he ne in
      let hs' : start < length buf = subst (λ k. k < length buf) (sym e) hs in
      let ns' : start ≢ end_pos = λ same. ns (sym e ∙ same) in
      elim (Bool-cases (ltb tm_zn_begin tm_min)) [
        | inl early ↦
            let (i, found, there, same) =
              ring_index-visible buf start end_pos (length buf) cycle_save_ms tm_min tm_max refl hs'
                he ns' spaced le in
            (
              i,
              rw early (
                  ap (λ k. ring_index_before_time buf k end_pos (length buf) tm_min) (sym e)
                  ∙ found),
              there,
              same,
            )
        | inr late ↦ (start, rw late (ap some (sym e)), (hs', ns'), refl)
      ]

-- What is shown for records of a signal by its type: the range of their values for an `int` or a
-- `float`, and `{0, 1}` for all else.
module _ {D : Type 0} (ints floats : Range D) (packet_sz cycle_save_ms tm_min tm_max : ℕ) where
  abbrev pub typed_range : ℕ → List RecData → D × D
  typed_range zero rds = ints.unit
  typed_range (suc zero) rds = range_of ints packet_sz cycle_save_ms tm_min tm_max rds
  typed_range (suc (suc zero)) rds = range_of floats packet_sz cycle_save_ms tm_min tm_max rds
  typed_range (suc (suc (suc n))) rds = ints.unit

  min_max_typed :
      (type : ℕ) (buf : List RecData) (sz i end_pos : ℕ)
      → sz ≡ length buf
      → i < sz
      → end_pos < sz
      → i ≢ end_pos
      → min_max_of ints floats type packet_sz cycle_save_ms buf i sz end_pos tm_min tm_max
        ≡ some (typed_range type (window no_rec buf sz i (ahead sz i end_pos)))
  min_max_typed zero buf sz i end_pos e hi he ne = refl
  min_max_typed (suc zero) buf sz i end_pos e hi he ne =
      min_max_from ints packet_sz cycle_save_ms tm_min tm_max buf sz i end_pos e hi he ne
  min_max_typed (suc (suc zero)) buf sz i end_pos e hi he ne =
      min_max_from floats packet_sz cycle_save_ms tm_min tm_max buf sz i end_pos e hi he ne
  min_max_typed (suc (suc (suc n))) buf sz i end_pos e hi he ne = ground arith

  typed_range-visible :
      (type : ℕ) (rds rds' : List RecData)
      → visible cycle_save_ms tm_min tm_max rds ≡ visible cycle_save_ms tm_min tm_max rds'
      → typed_range type rds ≡ typed_range type rds'
  typed_range-visible zero rds rds' e = refl
  typed_range-visible (suc zero) rds rds' e = rw e refl
  typed_range-visible (suc (suc zero)) rds rds' e = rw e refl
  typed_range-visible (suc (suc (suc n))) rds rds' e = refl

  -- In a monitor, the range of the values that is shown for an `int` or a `float` is that of the
  -- records of the ring that overlap the time window, and `{0, 1}` for any other type. The ring has at least three places and holds some records, one after
  -- the end of the other, and the window touches its times; of a full ring the oldest record is left
  -- out.
  pub get_sign_max_min-visible :
      (sign : SignalData D) (start : ℕ)
      → 2 < length sign.buff_data
      → sign.buff_begin_pos < length sign.buff_data
      → sign.buff_value_pos < length sign.buff_data
      → sign.buff_begin_pos ≢ sign.buff_value_pos
      → start ≡ without_oldest sign.buff_begin_pos (length sign.buff_data) sign.buff_value_pos
      → Spaced cycle_save_ms (
          window no_rec sign.buff_data
            (length sign.buff_data)
            start
            (ahead (length sign.buff_data) start sign.buff_value_pos))
      → tm_min ≤ tm_max
      → sign.buff_min_time < tm_max
      → tm_min < sign.buff_max_time
      → get_sign_max_min ints floats packet_sz cycle_save_ms player sign tm_min tm_max
        ≡ some (
            typed_range sign.type (
              window no_rec sign.buff_data
                (length sign.buff_data)
                start
                (ahead (length sign.buff_data) start sign.buff_value_pos)))
  unfolding get_sign_max_min
  get_sign_max_min-visible sign start big hb hv ne e spaced le before after =
      let (i, found, (hi, ni), same) =
        select_player ints packet_sz cycle_save_ms tm_min tm_max sign.buff_data sign.buff_min_time
          sign.buff_begin_pos sign.buff_value_pos start big hb hv ne e spaced le in
      rw (get_sign_max_min, some_data, found)
        (min_max_typed sign.type sign.buff_data (length sign.buff_data) i sign.buff_value_pos refl
            hi hv ni
          ∙ ap some (
              typed_range-visible sign.type
                (window no_rec sign.buff_data (length sign.buff_data) i
                  (ahead (length sign.buff_data) i sign.buff_value_pos))
                (window no_rec sign.buff_data (length sign.buff_data) start
                  (ahead (length sign.buff_data) start sign.buff_value_pos))
                same))
    where
      some_data :
          ((length sign.buff_data == 0)
            || (leb tm_max sign.buff_min_time || leb sign.buff_max_time tm_min))
          ≡ false
      some_data = ground arith

drop_cons :
    (i : ℕ) (buf : List RecData)
    → i < length buf
    → drop i buf ≡ get_or buf i no_rec ∷ drop (suc i) buf
drop_cons i [] h = absurd (omega arith)
drop_cons zero (rd ∷ rds) h = refl
drop_cons (suc i) (rd ∷ rds) h = drop_cons i rds (omega arith)

-- A part of a ring that does not go round.
pub window-take :
    (n i : ℕ) (buf : List RecData)
    → i + n ≤ length buf
    → window no_rec buf (length buf) i n ≡ take n (drop i buf)
window-take zero i buf h = refl
window-take (suc zero) i buf h = rw (drop_cons i buf (omega arith)) refl
window-take (suc (suc n)) i buf h = rw (drop_cons i buf (omega arith)) (
    ap (λ rds. get_or buf i no_rec ∷ rds)
      (ap (λ k. window no_rec buf (length buf) k (suc n)) along
        ∙ window-take (suc n) (suc i) buf (omega arith)))
  where
    along : next (length buf) i ≡ suc i
    along = ground arith

-- What `loadSignalData` leaves of a signal: its records, up to the last.
pub finish_lem :
    {D : Type 0} (dbl : Doubles D) (packet_sz cycle_save_ms : ℕ) (rds : List RecData)
    (sd : SignalData D) {sd' : SignalData D}
    → finish dbl packet_sz cycle_save_ms rds sd ≡ some sd'
    → (sd'.buff_data ≡ rds)
      × (suc sd'.buff_value_pos ≡ length rds)
      × (sd'.buff_begin_pos ≡ sd.buff_begin_pos)
unfolding finish
finish_lem dbl packet_sz cycle_save_ms [] sd e = cc
finish_lem dbl packet_sz cycle_save_ms (rd ∷ rds) sd e = (ground arith, ground arith, ground arith)

module _ {D : Type 0} (ints floats : Range D) (packet_sz cycle_save_ms tm_min tm_max : ℕ) where
  -- In a viewer, for a signal as `loadSignalData` leaves it and a window that begins before its first
  -- record, what is shown for its type leaves out its last record. There are at least two
  -- records, and the window touches their times.
  pub get_sign_max_min-finish :
      (dbl : Doubles D) (rds : List RecData) (sd : SignalData D) {sd' : SignalData D}
      → finish dbl packet_sz cycle_save_ms rds sd ≡ some sd'
      → sd.buff_begin_pos ≡ 0
      → 1 < length rds
      → tm_min ≤ sd'.buff_min_time
      → sd'.buff_min_time < tm_max
      → tm_min < sd'.buff_max_time
      → get_sign_max_min ints floats packet_sz cycle_save_ms viewer sd' tm_min tm_max
        ≡ some (
            typed_range ints floats packet_sz cycle_save_ms tm_min tm_max sd'.type
              (take (length rds - 1) rds))
  unfolding get_sign_max_min select_buf_start
  get_sign_max_min-finish dbl rds sd {sd'} e first some_recs early before after =
      let (same, last, begins) = finish_lem dbl packet_sz cycle_save_ms rds sd e in
      let buf = sd'.buff_data in
      let sz : length buf ≡ length rds = ap length same in
      let vp : sd'.buff_value_pos ≡ length rds - 1 = omega arith in
      let some_data : ((length buf == 0)
            || (leb tm_max sd'.buff_min_time || leb sd'.buff_max_time tm_min))
          ≡ false =
        ground arith in
      let no_search : ltb sd'.buff_min_time tm_min ≡ false = ground arith in
      let zero_pos : sd'.buff_begin_pos ≡ 0 = begins ∙ first in
      let up_to : ahead (length buf) 0 sd'.buff_value_pos ≡ sd'.buff_value_pos = ground arith in
      rw (get_sign_max_min, some_data, no_search)
        (ap
            (λ i.
              min_max_of ints floats sd'.type packet_sz cycle_save_ms buf i (length buf)
                sd'.buff_value_pos tm_min tm_max)
            zero_pos
          ∙ min_max_typed ints floats packet_sz cycle_save_ms tm_min tm_max sd'.type buf
              (length buf) 0 sd'.buff_value_pos refl (omega arith) (omega arith) (ground arith)
          ∙ ap
              (λ l. some (typed_range ints floats packet_sz cycle_save_ms tm_min tm_max sd'.type l))
              (ap (window no_rec buf (length buf) 0) up_to
                ∙ window-take sd'.buff_value_pos 0 buf (omega arith)
                ∙ ap₂ take vp same))
