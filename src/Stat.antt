-- ===== src/Stat.antt =====
-- The statistics of a signal (src/SVStatDialog/src/stat_dialog_impl.cpp): the records of the time
-- window and the histogram of their values, before it is turned into points. `QMap<int, ...>` is a
-- list in the order of insertion; an `int` of
-- the signal is its 32 bits and one that counts is a number, of fewer than 2^31 values.
pub mod Laws
use svisual.Prelude.{
  ℕ, zero, suc, ◌+◌, List, [], ◌∷◌, Bool, true, false, not, ◌&&◌, ◌||◌, Option, none, some,
  if◌then◌else◌, ltb, leb, ◌==◌, length,
}
use svisual.Base.{RecData, SignalData}
use svisual.Graph.Window.{zn_end}

-- The loop of `getSignData` over the records that are left, with `tmZnBegin`.
unfoldable pub sign_data_loop : ℕ → ℕ → ℕ → ℕ → List RecData → List RecData
sign_data_loop cycle_save_ms tm_min tm_max tm_zn_begin [] = []
sign_data_loop cycle_save_ms tm_min tm_max tm_zn_begin (rd ∷ []) =
    if ltb tm_zn_begin tm_max && ltb tm_min (zn_end cycle_save_ms rd) then rd ∷ [] else []
sign_data_loop cycle_save_ms tm_min tm_max tm_zn_begin (rd ∷ rd' ∷ rds) =
    let rest = sign_data_loop cycle_save_ms tm_min tm_max rd'.begin_time (rd' ∷ rds) in
    if ltb tm_zn_begin tm_max
    then if ltb tm_min (zn_end cycle_save_ms rd) then rd ∷ rest else rest
    else []

-- `getSignData`; `window` is whether only the time window is wanted. `none` is the first of no
-- records.
unfoldable pub get_sign_data :
    {D : Type 0} → Bool → ℕ → ℕ → ℕ → SignalData D → Option (List RecData)
get_sign_data window cycle_save_ms tm_min tm_max sd =
    if window
    then if leb tm_max sd.buff_min_time || leb sd.buff_max_time tm_min
      then some []
      else if length sd.buff_data == 0
      then none
      else some (sign_data_loop cycle_save_ms tm_min tm_max sd.buff_min_time sd.buff_data)
    else some sd.buff_data

-- `ValSData`
pub record ValSData : Type 0 where
  pub change_cnt : ℕ
  pub duration : ℕ
  pub duration_mean : ℕ

module _ {V : Type 0} where
  unfoldable pub at : ℕ → List (ℕ × V) → Option V
  at k [] = none
  at k ((j, v) ∷ m) = if j == k then some v else at k m

  unfoldable pub put : ℕ → V → List (ℕ × V) → List (ℕ × V)
  put k v [] = (k, v) ∷ []
  put k v ((j, w) ∷ m) = if j == k then (k, v) ∷ m else (j, w) ∷ put k v m

pub record Hist : Type 0 where
  pub hist : List (ℕ × ℕ)
  pub val_data : List (ℕ × ValSData)
  pub prev_val : ℕ

abbrev pub first_data : ValSData
first_data = record { change_cnt = 1; duration = 1; duration_mean = 0 }

abbrev pub more_data : Bool → Option ValSData → ValSData
more_data changed none = record {
  change_cnt = if changed then 1 else 0;
  duration = 1;
  duration_mean = 0;
}
more_data changed (some d) = record d {
  change_cnt = if changed then d.change_cnt + 1 else d.change_cnt;
  duration = d.duration + 1;
}

-- A value that is counted.
unfoldable pub add_val : Bool → ℕ → Hist → Hist
add_val only_front val s =
    let changed = not (val == s.prev_val) in
    elim (at val s.hist) [
      | none ↦ record s {
        hist = put val 1 s.hist;
        val_data = put val first_data s.val_data;
        prev_val = val;
      }
      | some n ↦ record s {
        hist = put val (if not only_front || changed then n + 1 else n) s.hist;
        val_data = put val (more_data changed (at val s.val_data)) s.val_data;
        prev_val = val;
      }
    ]

-- The loops of `calcHist` for `int` and `float`: `in_range` is the test of the limits, or true, on
-- the values as they are rounded.
unfoldable pub calc_hist : Bool → (ℕ → Bool) → List ℕ → Hist → Hist
calc_hist only_front in_range [] s = s
calc_hist only_front in_range (val ∷ vals) s =
    calc_hist only_front in_range vals (if in_range val then add_val only_front val s else s)

-- The same for `bool`: all is counted under 0, in `hist` and in `valData`.
unfoldable pub calc_hist_bool : Bool → List Bool → Bool → ℕ × ValSData → ℕ × ValSData
calc_hist_bool only_front [] prev s = s
calc_hist_bool only_front (val ∷ vals) prev (n, d) =
    let front = val && not prev in
    calc_hist_bool only_front vals val (
      if val && (not only_front || front) then n + 1 else n,
      record d {
        change_cnt = if front then d.change_cnt + 1 else d.change_cnt;
        duration = if val then d.duration + 1 else d.duration;
      },
    )
