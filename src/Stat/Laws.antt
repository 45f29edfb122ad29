-- ===== src/Stat/Laws.antt =====
-- The histogram (src/SVStatDialog/src/stat_dialog_impl.cpp) counts values, or the runs of them, and
-- the records that it is made of are those that overlap the time window.
use svisual.Prelude.{
  ℕ, ◌+◌, ◌<◌, ◌≡◌, ap, List, [], ◌∷◌, Bool, true, false, ◌&&◌, Option, none, some, if◌then◌else◌,
  ltb, leb, ◌==◌, length, arith,
}
use svisual.Base.{RecData, SignalData}
use svisual.Graph.Window.{zn_end}
use svisual.Graph.Window.Laws.{visible}
use svisual.Stat.{sign_data_loop, get_sign_data}

sign_data_loop-visible :
    (cycle_save_ms tm_min tm_max : ℕ) (rd : RecData) (rds : List RecData)
    → sign_data_loop cycle_save_ms tm_min tm_max rd.begin_time (rd ∷ rds)
      ≡ visible cycle_save_ms tm_min tm_max (rd ∷ rds)
unfolding sign_data_loop
sign_data_loop-visible cycle_save_ms tm_min tm_max rd [] = ground arith
sign_data_loop-visible cycle_save_ms tm_min tm_max rd (rd' ∷ rds) =
    ap
      (λ rest.
        if ltb rd.begin_time tm_max
        then if ltb tm_min (zn_end cycle_save_ms rd) then rd ∷ rest else rest
        else [])
      (sign_data_loop-visible cycle_save_ms tm_min tm_max rd' rds)

-- Of a signal with records, the first of which begins at `buffMinTime`, and whose times the window
-- touches, the statistics are made of the records that the window overlaps, up to the first that
-- begins behind it.
pub get_sign_data-visible :
    {D : Type 0} (cycle_save_ms tm_min tm_max : ℕ) (sd : SignalData D) (rd : RecData)
    (rds : List RecData)
    → sd.buff_data ≡ rd ∷ rds
    → sd.buff_min_time ≡ rd.begin_time
    → sd.buff_min_time < tm_max
    → tm_min < sd.buff_max_time
    → get_sign_data true cycle_save_ms tm_min tm_max sd
      ≡ some (visible cycle_save_ms tm_min tm_max (rd ∷ rds))
unfolding get_sign_data
get_sign_data-visible cycle_save_ms tm_min tm_max sd rd rds have begins early late =
    let before : leb tm_max sd.buff_min_time ≡ false = ground (arith, early) in
    let after : leb sd.buff_max_time tm_min ≡ false = ground (arith, late) in
    let some_data : (length (rd ∷ rds) == 0) ≡ false = ground arith in
    rw (get_sign_data, before, after, have, some_data, begins)
      (ap some (sign_data_loop-visible cycle_save_ms tm_min tm_max rd rds))

-- How often a value comes.
abbrev pub count : ℕ → (ℕ → Bool) → List ℕ → ℕ
count v in_range [] = 0
count v in_range (x ∷ xs) = (if in_range x && x == v then 1 else 0) + count v in_range xs

abbrev pub number : Option ℕ → ℕ
number none = 0
number (some n) = n
