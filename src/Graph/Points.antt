-- ===== src/Graph/Points.antt =====
-- `getPoints` (src/SVGraphPanel/src/graph_widget.cpp): the points of the line that is drawn for a
-- signal, in zones without a gap. `none` is a place outside of an array, or the last of no zones.
pub mod Steps
pub mod Laws
use svisual.Prelude.{
  ℕ, zero, suc, ◌+◌, ◌-◌, ◌*◌, ◌%◌, ◌^◌, List, [], ◌∷◌, ◌++◌, Bool, true, false, not, ◌&&◌, ◌||◌,
  Option, none, some, if◌then◌else◌, ltb, leb, ◌==◌, length, get_elem?, set,
}
use svisual.Base.{RecData}
use svisual.Graph.Window.{zn_end}

-- The `int`s of points, and how `double`s make them: the time and value in pixels, and the stretch
-- for a wide axis.
pub record Pixels (I : Type 0) : Type 0 where
  pub time_pnt : ℕ → ℕ → I
  pub value_pnt : ℕ → I
  pub wide : I → I
  pub lt_i : I → I → Bool
  pub eq_i : I → I → Bool
  pub zero_i : I
  pub minus_one : I

-- The variables of the loop. `back` is the last zone, or empty before the first; `closed` are the
-- zones before it.
pub record Drawn (I : Type 0) : Type 0 where
  pub closed : List (List (I × I))
  pub back : List (I × I)
  pub tm_zn_end_prev : ℕ
  pub prev_pos : I
  pub val_mem : I
  pub back_val : I
  pub prev_back_val : I
  pub back_val_ind : ℕ
  pub prev_back_val_ind : ℕ
  pub is_change : Bool

abbrev pub all_zones {ℓ} : {A : Type ℓ} → List (List A) → List A → List (List A)
all_zones closed [] = closed
all_zones closed (p ∷ back) = closed ++ ((p ∷ back) ∷ [])

-- `int64_t(tmZnBegin - tmZnEndPrev) > limit`
abbrev pub is_gap : ℕ → ℕ → ℕ → Bool
is_gap tm_zn_begin tm_zn_end_prev limit =
    let diff = (tm_zn_begin + 2 ^ 64 - tm_zn_end_prev) % 2 ^ 64 in
    ltb limit diff && ltb diff (2 ^ 63)

module _ {I : Type 0} (px : Pixels I) where
  abbrev pub nothing_drawn : Drawn I
  nothing_drawn = record {
    closed = [];
    back = [];
    tm_zn_end_prev = 0;
    prev_pos = px.minus_one;
    val_mem = px.zero_i;
    back_val = px.zero_i;
    prev_back_val = px.zero_i;
    back_val_ind = 0;
    prev_back_val_ind = 0;
    is_change = false;
  }

  -- A new zone with the first value, and the second or again the first.
  abbrev pub zone_of : ℕ → I → I → I → I → Drawn I → Drawn I
  zone_of begin_time t0 v0 t1 v1 s = record s {
    closed = all_zones s.closed s.back;
    back = (px.wide t0, v0) ∷ (px.wide t1, v1) ∷ [];
    back_val_ind = 1;
    prev_back_val_ind = 0;
    back_val = v1;
    prev_back_val = v0;
    prev_pos = t1;
    val_mem = v1;
  }

  unfoldable pub new_zone : ℕ → RecData → Drawn I → Option (Drawn I)
  new_zone packet_sz rd s = elim (get_elem? rd.vals 0) [
    | none ↦ none
    | some x ↦
        let t0 = px.time_pnt 0 rd.begin_time in
        let v0 = px.value_pnt x in
        if ltb 1 packet_sz
        then elim (get_elem? rd.vals 1) [
          | none ↦ none
          | some y ↦
              some (zone_of rd.begin_time t0 v0 (px.time_pnt 1 rd.begin_time) (px.value_pnt y) s)
        ]
        else some (zone_of rd.begin_time t0 v0 t0 v0 s)
  ]

  -- One more point.
  unfoldable pub push_point : I → I → Drawn I → Option (Drawn I)
  push_point t v s =
      let back = s.back ++ ((px.wide t, v) ∷ []) in
      if length s.back == 0 then none else elim (get_elem? back (s.back_val_ind + 1)) [
        | none ↦ none
        | some b ↦ elim (get_elem? back (s.prev_back_val_ind + 1)) [
          | none ↦ none
          | some pb ↦ some (record s {
            back = back;
            prev_pos = t;
            val_mem = v;
            is_change = not s.is_change;
            back_val_ind = s.back_val_ind + 1;
            prev_back_val_ind = s.prev_back_val_ind + 1;
            back_val = b.1;
            prev_back_val = pb.1;
          })
        ]
      ]

  -- `zonePnts.back()[ind].second = v`
  abbrev pub with_value : ℕ → I → List (I × I) → Option (List (I × I))
  with_value ind v back = elim (get_elem? back ind) [
    | none ↦ none
    | some p ↦ some (set back ind (p.0, v))
  ]

  abbrev pub lower_end : I → Drawn I → Option (Drawn I)
  lower_end v s = elim (with_value s.prev_back_val_ind v s.back) [
    | none ↦ none
    | some z ↦ some (record s { val_mem = v; prev_back_val = v; back = z })
  ]

  abbrev pub upper_end : I → Drawn I → Option (Drawn I)
  upper_end v s = elim (with_value s.back_val_ind v s.back) [
    | none ↦ none
    | some z ↦ some (record s { val_mem = v; back_val = v; back = z })
  ]

  -- A value in the pixel of the last point: the last two points keep the extremes.
  unfoldable pub widen_point : I → Drawn I → Option (Drawn I)
  widen_point v s =
      if px.lt_i s.prev_back_val s.back_val
      then if px.lt_i v s.prev_back_val
        then lower_end v s
        else if px.lt_i s.back_val v
        then upper_end v s
        else some (record s { val_mem = v })
      else if px.lt_i s.back_val s.prev_back_val
      then if px.lt_i s.prev_back_val v
        then lower_end v s
        else if px.lt_i v s.back_val
        then upper_end v s
        else some (record s { val_mem = v })
      else upper_end v s

  unfoldable pub add_point : I → I → Drawn I → Option (Drawn I)
  add_point t v s =
      if px.lt_i s.prev_pos t || s.is_change
      then push_point t v s
      else if px.eq_i v s.val_mem
      then some s
      else widen_point v s

  -- The loop over the values, of which `n` are left from `i` on.
  unfoldable pub add_values : ℕ → ℕ → RecData → Drawn I → Option (Drawn I)
  add_values zero i rd s = some s
  add_values (suc n) i rd s = elim (get_elem? rd.vals i) [
    | none ↦ none
    | some x ↦ elim (add_point (px.time_pnt i rd.begin_time) (px.value_pnt x) s) [
      | none ↦ none
      | some s' ↦ add_values n (i + 1) rd s'
    ]
  ]

  abbrev pub with_zone : ℕ → ℕ → RecData → Drawn I → Option (Drawn I)
  with_zone packet_sz limit rd s =
      if is_gap rd.begin_time s.tm_zn_end_prev limit then new_zone packet_sz rd s else some s

  -- A record that reaches into the time window; `limit` is the longest gap inside of a zone.
  unfoldable pub add_record : ℕ → ℕ → ℕ → RecData → Drawn I → Option (Drawn I)
  add_record packet_sz cycle_save_ms limit rd s = elim (with_zone packet_sz limit rd s) [
    | none ↦ none
    | some s' ↦ add_values packet_sz 0 rd (record s' { tm_zn_end_prev = zn_end cycle_save_ms rd })
  ]

  abbrev pub add_shown : ℕ → ℕ → ℕ → ℕ → RecData → Drawn I → Option (Drawn I)
  add_shown packet_sz cycle_save_ms limit tm_min rd s =
      if ltb tm_min (zn_end cycle_save_ms rd)
      then add_record packet_sz cycle_save_ms limit rd s
      else some s

  -- The loop over the records, on fuel.
  unfoldable pub points_loop :
      ℕ → ℕ → ℕ → ℕ → List RecData → ℕ → ℕ → ℕ → ℕ → ℕ → Drawn I → Option (Drawn I)
  points_loop zero packet_sz cycle_save_ms limit buf tm_min tm_max sz end_pos i s = none
  points_loop (suc fuel) packet_sz cycle_save_ms limit buf tm_min tm_max sz end_pos i s =
      elim (get_elem? buf i) [
        | none ↦ none
        | some rd ↦
            let i' = if leb sz (i + 1) then 0 else i + 1 in
            if ltb rd.begin_time tm_max
            then elim (add_shown packet_sz cycle_save_ms limit tm_min rd s) [
              | none ↦ none
              | some s' ↦
                  let rest =
                    points_loop fuel packet_sz cycle_save_ms limit buf tm_min tm_max sz end_pos i'
                      s' in
                  if i' == end_pos then some s' else rest
            ]
            else some s
      ]

  -- `getPoints`
  unfoldable pub get_points :
      ℕ → ℕ → ℕ → List RecData → ℕ → ℕ → ℕ → ℕ → ℕ → Option (List (List (I × I)))
  get_points packet_sz cycle_save_ms gap_tolerance buf i_buf buff_sz end_pos tm_min tm_max =
      elim (points_loop (suc buff_sz) packet_sz cycle_save_ms (cycle_save_ms * gap_tolerance) buf
        tm_min tm_max buff_sz end_pos i_buf nothing_drawn) [
          | none ↦ none
          | some s ↦ some (all_zones s.closed s.back)
        ]
