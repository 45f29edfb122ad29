-- ===== src/Graph/Points/Steps.antt =====
-- The points that `getPoints` (src/SVGraphPanel/src/graph_widget.cpp) adds to its last zone.
use svisual.Prelude.{
  ℕ, zero, suc, ◌+◌, ◌≤◌, ◌<◌, ◌≡◌, refl, inl, inr, List, [], ◌∷◌, ◌++◌, false, not, ◌||◌, some,
  ◌==◌, length, length-append, length-set, get_elem?_lt, set, All, arith, Bool-cases,
}
use svisual.Base.{RecData}
use svisual.Graph.Points.{
  Pixels, Drawn, push_point, with_value, lower_end, upper_end, widen_point, add_point, add_values,
}

module _ {I : Type 0} (px : Pixels I) where
  -- Zones of at least two points, and the indices of the last two of the last zone.
  pub record IsDrawn (s : Drawn I) : Type 0 where
    pub zones_big : All (λ z. 1 < length z) s.closed
    pub back_big : 1 < length s.back
    pub last_ind : s.back_val_ind + 1 ≡ length s.back
    pub next_ind : s.prev_back_val_ind + 1 ≡ s.back_val_ind

  push_point-IsDrawn :
      (t v : I) (s : Drawn I)
      → IsDrawn s
      → (s' : Drawn I) × (push_point px t v s ≡ some s') × IsDrawn s'
  unfolding push_point
  push_point-IsDrawn t v s ok =
      let back = s.back ++ ((px.wide t, v) ∷ []) in
      let longer = length-append s.back ((px.wide t, v) ∷ []) in
      let (b, eb) = get_elem?_lt back (s.back_val_ind + 1) (omega (arith, longer, ok.last_ind)) in
      let (pb, ep) =
        get_elem?_lt back (s.prev_back_val_ind + 1)
          (omega (arith, longer, ok.last_ind, ok.next_ind)) in
      (
        record s {
          back = back;
          prev_pos = t;
          val_mem = v;
          is_change = not s.is_change;
          back_val_ind = s.back_val_ind + 1;
          prev_back_val_ind = s.prev_back_val_ind + 1;
          back_val = b.1;
          prev_back_val = pb.1;
        },
        rw (push_point, has_zone, eb, ep) refl,
        record {
          zones_big = ok.zones_big;
          back_big = omega (arith, longer, ok.back_big);
          last_ind = omega (arith, longer, ok.last_ind);
          next_ind = omega (arith, ok.next_ind);
        },
      )
    where
      has_zone : (length s.back == 0) ≡ false
      has_zone = ground (arith, ok.back_big)

  with_value_lem :
      (ind : ℕ) (v : I) (back : List (I × I))
      → ind < length back
      → (z : List (I × I)) × (with_value px ind v back ≡ some z) × (length z ≡ length back)
  with_value_lem ind v back h =
      let (p, e) = get_elem?_lt back ind h in
      (set back ind (p.0, v), rw (with_value, e) refl, length-set back ind (p.0, v))

  lower_end-IsDrawn :
      (v : I) (s : Drawn I) → IsDrawn s → (s' : Drawn I) × (lower_end px v s ≡ some s') × IsDrawn s'
  lower_end-IsDrawn v s ok =
      let (z, e, l) =
        with_value_lem s.prev_back_val_ind v s.back (omega (arith, ok.last_ind, ok.next_ind)) in
      (
        record s { val_mem = v; prev_back_val = v; back = z },
        rw (lower_end, e) refl,
        record {
          zones_big = ok.zones_big;
          back_big = omega (arith, l, ok.back_big);
          last_ind = omega (arith, l, ok.last_ind);
          next_ind = ok.next_ind;
        },
      )

  upper_end-IsDrawn :
      (v : I) (s : Drawn I) → IsDrawn s → (s' : Drawn I) × (upper_end px v s ≡ some s') × IsDrawn s'
  upper_end-IsDrawn v s ok =
      let (z, e, l) = with_value_lem s.back_val_ind v s.back (omega (arith, ok.last_ind)) in
      (
        record s { val_mem = v; back_val = v; back = z },
        rw (upper_end, e) refl,
        record {
          zones_big = ok.zones_big;
          back_big = omega (arith, l, ok.back_big);
          last_ind = omega (arith, l, ok.last_ind);
          next_ind = ok.next_ind;
        },
      )

  same_zone-IsDrawn : (v : I) (s : Drawn I) → IsDrawn s → IsDrawn (record s { val_mem = v })
  same_zone-IsDrawn v s ok = record {
    zones_big = ok.zones_big;
    back_big = ok.back_big;
    last_ind = ok.last_ind;
    next_ind = ok.next_ind;
  }

  widen_point-IsDrawn :
      (v : I) (s : Drawn I)
      → IsDrawn s
      → (s' : Drawn I) × (widen_point px v s ≡ some s') × IsDrawn s'
  unfolding widen_point
  widen_point-IsDrawn v s ok = elim (Bool-cases (px.lt_i s.prev_back_val s.back_val)) [
    | inl up ↦ elim (Bool-cases (px.lt_i v s.prev_back_val)) [
      | inl below ↦ rw (widen_point, up, below) (lower_end-IsDrawn v s ok)
      | inr not_below ↦ elim (Bool-cases (px.lt_i s.back_val v)) [
        | inl above ↦ rw (widen_point, up, not_below, above) (upper_end-IsDrawn v s ok)
        | inr between ↦ rw (widen_point, up, not_below, between) (_, refl, same_zone-IsDrawn v s ok)
      ]
    ]
    | inr not_up ↦ elim (Bool-cases (px.lt_i s.back_val s.prev_back_val)) [
      | inl down ↦ elim (Bool-cases (px.lt_i s.prev_back_val v)) [
        | inl above ↦ rw (widen_point, not_up, down, above) (lower_end-IsDrawn v s ok)
        | inr not_above ↦ elim (Bool-cases (px.lt_i v s.back_val)) [
          | inl below ↦ rw (widen_point, not_up, down, not_above, below) (upper_end-IsDrawn v s ok)
          | inr between ↦
              rw (widen_point, not_up, down, not_above, between) (_, refl, same_zone-IsDrawn v s ok)
        ]
      ]
      | inr level ↦ rw (widen_point, not_up, level) (upper_end-IsDrawn v s ok)
    ]
  ]

  add_point-IsDrawn :
      (t v : I) (s : Drawn I)
      → IsDrawn s
      → (s' : Drawn I) × (add_point px t v s ≡ some s') × IsDrawn s'
  unfolding add_point
  add_point-IsDrawn t v s ok = elim (Bool-cases (px.lt_i s.prev_pos t || s.is_change)) [
    | inl new ↦ rw (add_point, new) (push_point-IsDrawn t v s ok)
    | inr old ↦ elim (Bool-cases (px.eq_i v s.val_mem)) [
      | inl same ↦ rw (add_point, old, same) (s, refl, ok)
      | inr other ↦ rw (add_point, old, other) (widen_point-IsDrawn v s ok)
    ]
  ]

  pub add_values-IsDrawn :
      (n i : ℕ) (rd : RecData) (s : Drawn I)
      → i + n ≤ length rd.vals
      → IsDrawn s
      → (s' : Drawn I) × (add_values px n i rd s ≡ some s') × IsDrawn s'
  unfolding add_values
  add_values-IsDrawn zero i rd s h ok = (s, refl, ok)
  add_values-IsDrawn (suc n) i rd s h ok =
      let (x, e) = get_elem?_lt rd.vals i (omega arith) in
      let (s1, e1, ok1) = add_point-IsDrawn (px.time_pnt i rd.begin_time) (px.value_pnt x) s ok in
      let (s2, e2, ok2) = add_values-IsDrawn n (i + 1) rd s1 (omega arith) ok1 in
      (s2, rw (add_values, e, e1, e2) refl, ok2)
