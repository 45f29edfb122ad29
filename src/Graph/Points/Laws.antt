-- ===== src/Graph/Points/Laws.antt =====
-- The line of a signal (src/SVGraphPanel/src/graph_widget.cpp) is made without a fault: the indices
-- of the last two points always lie in the last zone.
use svisual.Prelude.{
  ℕ, zero, suc, ◌+◌, ◌-◌, ◌*◌, ◌^◌, ◌≤◌, ◌<◌, ◌≡◌, ◌⊎◌, refl, subst, inl, inr, List, [], ◌∷◌, some,
  if◌then◌else◌, ltb, leb, ◌==◌, length, get_elem?, get_elem?_lt, All, All-append, arith,
  Bool-cases,
}
use svisual.Prelude.Rings.{next, wrap}
use svisual.Base.{RecData}
use svisual.Graph.Window.{zn_end}
use svisual.Graph.Window.Laws.{ahead}
use svisual.Graph.Points.{
  Pixels, Drawn, all_zones, is_gap, nothing_drawn, zone_of, new_zone, with_zone, add_record,
  add_shown, points_loop, get_points,
}
use svisual.Graph.Points.Steps.{IsDrawn, add_values-IsDrawn}

get_elem?-All :
    (P : RecData → Type 0) (buf : List RecData) (i : ℕ) (rd : RecData)
    → get_elem? buf i ≡ some rd
    → All P buf
    → P rd
get_elem?-All P [] i rd e all = cc
get_elem?-All P (r ∷ buf) zero rd e all = subst P (ground arith) all.0
get_elem?-All P (r ∷ buf) (suc i) rd e all = get_elem?-All P buf i rd e all.1

module _ {I : Type 0} (px : Pixels I) where
  -- What is drawn before the first zone, or with one.
  Started : Drawn I → Type 0
  Started s = ((s.closed ≡ []) × (s.back ≡ []) × (s.tm_zn_end_prev ≡ 0)) ⊎ IsDrawn px s

  -- The zones that are closed when a new one begins.
  all_zones-big : (s : Drawn I) → Started s → All (λ z. 1 < length z) (all_zones s.closed s.back)
  unfolding Started
  all_zones-big s (inl (c, b, _)) = rw (b, c) tt
  all_zones-big s (inr ok) = big s.closed s.back ok.zones_big ok.back_big
    where
      big :
          (closed : List (List (I × I))) (back : List (I × I))
          → All (λ z. 1 < length z) closed
          → 1 < length back
          → All (λ z. 1 < length z) (all_zones closed back)
      big closed [] h k = h
      big closed (p ∷ back) h k = All-append (λ z. 1 < length z) closed ((p ∷ back) ∷ []) h (k, tt)

  new_zone-IsDrawn :
      (packet_sz : ℕ) (rd : RecData) (s : Drawn I)
      → 0 < packet_sz
      → packet_sz ≤ length rd.vals
      → Started s
      → (s' : Drawn I) × (new_zone px packet_sz rd s ≡ some s') × IsDrawn px s'
  unfolding new_zone
  new_zone-IsDrawn packet_sz rd s pos full start =
      let (x, e) = get_elem?_lt rd.vals 0 (omega arith) in
      elim (Bool-cases (ltb 1 packet_sz)) [
        | inl two ↦
            let (y, e1) = get_elem?_lt rd.vals 1 (ground arith) in
            let t1 = px.time_pnt 1 rd.begin_time in
            let v1 = px.value_pnt y in
            (
              zone_of px rd.begin_time (px.time_pnt 0 rd.begin_time) (px.value_pnt x) t1 v1 s,
              rw (new_zone, e, two, e1) refl,
              zone_ok (px.time_pnt 0 rd.begin_time) (px.value_pnt x) t1 v1 start,
            )
        | inr one ↦
            let t0 = px.time_pnt 0 rd.begin_time in
            let v0 = px.value_pnt x in
            (
              zone_of px rd.begin_time t0 v0 t0 v0 s,
              rw (new_zone, e, one) refl,
              zone_ok t0 v0 t0 v0 start,
            )
      ]
    where
      zone_ok : (t0 v0 t1 v1 : I) → Started s → IsDrawn px (zone_of px rd.begin_time t0 v0 t1 v1 s)
      zone_ok t0 v0 t1 v1 h = record {
        zones_big = all_zones-big s h;
        back_big = omega arith;
        last_ind = omega arith;
        next_ind = omega arith;
      }

  -- A record as the graph expects it: all of its values, and a time that is far from 0.
  abbrev pub IsShown : ℕ → ℕ → RecData → Type 0
  IsShown packet_sz limit rd =
      (packet_sz ≤ length rd.vals) × (limit < rd.begin_time) × (rd.begin_time < 2 ^ 63)

  with_zone-IsDrawn :
      (packet_sz limit : ℕ) (rd : RecData) (s : Drawn I)
      → 0 < packet_sz
      → IsShown packet_sz limit rd
      → Started s
      → (s' : Drawn I) × (with_zone px packet_sz limit rd s ≡ some s') × IsDrawn px s'
  unfolding Started
  with_zone-IsDrawn packet_sz limit rd s pos (full, far, word) start =
      elim (Bool-cases (is_gap rd.begin_time s.tm_zn_end_prev limit)) [
        | inl gap ↦ rw gap (new_zone-IsDrawn packet_sz rd s pos full start)
        | inr near ↦ elim start [
          | inl (_, _, t) ↦ absurd (ground arith)
          | inr ok ↦ rw near (s, refl, ok)
        ]
      ]

  add_record-IsDrawn :
      (packet_sz cycle_save_ms limit : ℕ) (rd : RecData) (s : Drawn I)
      → 0 < packet_sz
      → IsShown packet_sz limit rd
      → Started s
      → (s' : Drawn I) × (add_record px packet_sz cycle_save_ms limit rd s ≡ some s')
        × IsDrawn px s'
  unfolding add_record
  add_record-IsDrawn packet_sz cycle_save_ms limit rd s pos shown start =
      let (s1, e1, ok1) = with_zone-IsDrawn packet_sz limit rd s pos shown start in
      let s1' : Drawn I = record s1 { tm_zn_end_prev = zn_end cycle_save_ms rd } in
      let ok1' : IsDrawn px s1' = record {
        zones_big = ok1.zones_big;
        back_big = ok1.back_big;
        last_ind = ok1.last_ind;
        next_ind = ok1.next_ind;
      } in
      let (s2, e2, ok2) = add_values-IsDrawn px packet_sz 0 rd s1' (omega (arith, shown.0)) ok1' in
      (s2, rw (add_record, e1) e2, ok2)

  add_shown-Started :
      (packet_sz cycle_save_ms limit tm_min : ℕ) (rd : RecData) (s : Drawn I)
      → 0 < packet_sz
      → IsShown packet_sz limit rd
      → Started s
      → (s' : Drawn I) × (add_shown px packet_sz cycle_save_ms limit tm_min rd s ≡ some s')
        × Started s'
  unfolding Started
  add_shown-Started packet_sz cycle_save_ms limit tm_min rd s pos shown start =
      elim (Bool-cases (ltb tm_min (zn_end cycle_save_ms rd))) [
        | inl over ↦
            let (s1, e1, ok1) =
              add_record-IsDrawn packet_sz cycle_save_ms limit rd s pos shown start in
            rw over (s1, e1, inr ok1)
        | inr out ↦ rw out (s, refl, start)
      ]

  points_loop-Started :
      (n fuel packet_sz cycle_save_ms limit : ℕ) (buf : List RecData)
      (tm_min tm_max sz end_pos i : ℕ) (s : Drawn I)
      → sz ≡ length buf
      → i < sz
      → n < sz
      → end_pos < sz
      → end_pos ≡ wrap sz (i + suc n)
      → n < fuel
      → 0 < packet_sz
      → All (IsShown packet_sz limit) buf
      → Started s
      → (s' : Drawn I) × (points_loop px fuel packet_sz cycle_save_ms limit buf tm_min tm_max sz
            end_pos i s
          ≡ some s')
        × Started s'
  unfolding points_loop
  points_loop-Started n zero packet_sz cycle_save_ms limit buf tm_min tm_max sz end_pos i s whole hi
        hn he e enough pos all start =
      absurd (omega arith)
  points_loop-Started n (suc fuel) packet_sz cycle_save_ms limit buf tm_min tm_max sz end_pos i s
        whole hi hn he e enough pos all start =
      let (rd, at) = get_elem?_lt buf i (omega arith) in
      elim (Bool-cases (ltb rd.begin_time tm_max)) [
        | inr past ↦ (s, rw (points_loop, at, past) refl, start)
        | inl before ↦
            let (s1, e1, start1) =
              add_shown-Started packet_sz cycle_save_ms limit tm_min rd s pos
                (get_elem?-All (IsShown packet_sz limit) buf i rd at all) start in
            elim (Bool-cases (next sz i == end_pos)) [
              | inl last ↦ (s1, rw (points_loop, at, before, e1, round, last) refl, start1)
              | inr more ↦
                  let (s2, e2, start2) =
                    points_loop-Started (n - 1) fuel packet_sz cycle_save_ms limit buf tm_min tm_max
                      sz end_pos (next sz i) s1 whole (ground arith) (omega arith) he (ground arith)
                      (ground arith) pos all start1 in
                  (s2, rw (points_loop, at, before, e1, round, more) e2, start2)
            ]
      ]
    where
      round : (if leb sz (i + 1) then 0 else i + 1) ≡ next sz i
      round = ground arith

  -- The line of a signal is made without a place outside of an array, and each of its zones has at
  -- least two points. The ring holds some records, each with a packet of values, and their times are
  -- farther from 0 than the longest gap inside of a zone.
  pub get_points-IsSome :
      (packet_sz cycle_save_ms gap_tolerance : ℕ) (buf : List RecData)
      (i_buf buff_sz end_pos tm_min tm_max : ℕ)
      → buff_sz ≡ length buf
      → i_buf < buff_sz
      → end_pos < buff_sz
      → 0 < packet_sz
      → All (IsShown packet_sz (cycle_save_ms * gap_tolerance)) buf
      → (zones : List (List (I × I))) × (get_points px packet_sz cycle_save_ms gap_tolerance buf
            i_buf buff_sz end_pos tm_min tm_max
          ≡ some zones)
        × All (λ z. 1 < length z) zones
  unfolding get_points Started
  get_points-IsSome packet_sz cycle_save_ms gap_tolerance buf i_buf buff_sz end_pos tm_min tm_max
        whole hi he pos all =
      let limit = cycle_save_ms * gap_tolerance in
      let n = ahead buff_sz i_buf end_pos - 1 in
      let (s, e, start) =
        points_loop-Started n (suc buff_sz) packet_sz cycle_save_ms limit buf tm_min tm_max buff_sz
          end_pos i_buf (nothing_drawn px) whole hi (ground arith) he (ground arith) (ground arith)
          pos all (inl (refl, refl, refl)) in
      (all_zones s.closed s.back, rw (get_points, e) refl, all_zones-big s start)
