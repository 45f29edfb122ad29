-- ===== src/Graph/Window/Laws.antt =====
-- What `minMaxInWindow` looks at (src/SVGraphPanel/src/graph_widget.cpp): exactly the records of the
-- ring that overlap the time window, and the search for the first of them leaves none out.
use svisual.Prelude.{
  ℕ, zero, suc, ◌+◌, ◌-◌, ◌≤◌, ◌<◌, ◌≡◌, ◌≢◌, refl, sym, ap, ◌∙◌, inl, inr, List, [], ◌∷◌, true,
  false, some, if◌then◌else◌, ltb, leb, ◌==◌, length, take, get_or, get_elem?-eq-get_or, arith,
  Bool-cases, dec_lt,
}
use svisual.Prelude.Rings.{next, wrap, window}
use svisual.Base.{RecData}
use svisual.Graph.Window.{no_rec, zn_end, Range, min_max_vals, min_max_rec, min_max_loop}

-- The records that overlap a time window, of those before the first that begins behind it.
abbrev pub visible : ℕ → ℕ → ℕ → List RecData → List RecData
visible cycle_save_ms tm_min tm_max [] = []
visible cycle_save_ms tm_min tm_max (rd ∷ rds) =
    if ltb rd.begin_time tm_max
    then if ltb tm_min (zn_end cycle_save_ms rd)
      then rd ∷ visible cycle_save_ms tm_min tm_max rds
      else visible cycle_save_ms tm_min tm_max rds
    else []

-- How many records stand from `i` up to `end_pos`; at `end_pos` itself it is a whole round.
abbrev pub ahead : ℕ → ℕ → ℕ → ℕ
ahead sz i end_pos = if ltb i end_pos then end_pos - i else end_pos + sz - i

module _ {D : Type 0} (rg : Range D) (packet_sz cycle_save_ms : ℕ) where
  unfoldable pub min_max_all : List RecData → D × D → D × D
  min_max_all [] mm = mm
  min_max_all (rd ∷ rds) mm = min_max_all rds (min_max_vals rg (take packet_sz rd.vals) mm)

  loop_step :
      (fuel : ℕ) (buf : List RecData) (tm_min tm_max sz end_pos i : ℕ) (mm : D × D)
      → i < length buf
      → i < sz
      → min_max_loop rg (suc fuel) packet_sz cycle_save_ms buf tm_min tm_max sz end_pos i mm ≡ (
          if ltb (get_or buf i no_rec).begin_time tm_max
          then if next sz i == end_pos
            then some (min_max_rec rg packet_sz cycle_save_ms tm_min (get_or buf i no_rec) mm)
            else min_max_loop rg fuel packet_sz cycle_save_ms buf tm_min tm_max sz end_pos
                (next sz i)
                (min_max_rec rg packet_sz cycle_save_ms tm_min (get_or buf i no_rec) mm)
          else some mm)
  unfolding min_max_loop
  loop_step fuel buf tm_min tm_max sz end_pos i mm h k =
      rw (min_max_loop, get_elem?-eq-get_or buf i no_rec h, round) refl
    where
      round : (if leb sz (i + 1) then 0 else i + 1) ≡ next sz i
      round = ground arith

  visible_cons :
      (tm_min tm_max : ℕ) (rd : RecData) (rds : List RecData) (mm : D × D)
      → rd.begin_time < tm_max
      → min_max_all (visible cycle_save_ms tm_min tm_max (rd ∷ rds)) mm
        ≡ min_max_all
            (visible cycle_save_ms tm_min tm_max rds)
            (min_max_rec rg packet_sz cycle_save_ms tm_min rd mm)
  unfolding min_max_all
  visible_cons tm_min tm_max rd rds mm h =
      elim (Bool-cases (ltb tm_min (zn_end cycle_save_ms rd))) [
        | inl over ↦ rw (before, over) refl
        | inr out ↦ rw (before, out) refl
      ]
    where
      before : ltb rd.begin_time tm_max ≡ true
      before = ground arith

  visible_past :
      (tm_min tm_max : ℕ) (rd : RecData) (rds : List RecData) (mm : D × D)
      → tm_max ≤ rd.begin_time
      → min_max_all (visible cycle_save_ms tm_min tm_max (rd ∷ rds)) mm ≡ mm
  unfolding min_max_all
  visible_past tm_min tm_max rd rds mm h = rw past refl
    where
      past : ltb rd.begin_time tm_max ≡ false
      past = ground arith

  module _ (fuel : ℕ) (buf : List RecData) (tm_min tm_max sz end_pos i : ℕ) (mm : D × D)
      (inside : i < length buf) (here : i < sz) where
    step_past :
        tm_max ≤ (get_or buf i no_rec).begin_time
        → min_max_loop rg (suc fuel) packet_sz cycle_save_ms buf tm_min tm_max sz end_pos i mm
          ≡ some mm
    step_past h = loop_step fuel buf tm_min tm_max sz end_pos i mm inside here ∙ rw past refl
      where
        past : ltb (get_or buf i no_rec).begin_time tm_max ≡ false
        past = ground arith

    step_last :
        (get_or buf i no_rec).begin_time < tm_max
        → next sz i ≡ end_pos
        → min_max_loop rg (suc fuel) packet_sz cycle_save_ms buf tm_min tm_max sz end_pos i mm
          ≡ some (min_max_rec rg packet_sz cycle_save_ms tm_min (get_or buf i no_rec) mm)
    step_last h k =
        loop_step fuel buf tm_min tm_max sz end_pos i mm inside here ∙ rw (before, last) refl
      where
        before : ltb (get_or buf i no_rec).begin_time tm_max ≡ true
        before = ground arith

        last : (next sz i == end_pos) ≡ true
        last = ground arith

    step_more :
        (get_or buf i no_rec).begin_time < tm_max
        → next sz i ≢ end_pos
        → min_max_loop rg (suc fuel) packet_sz cycle_save_ms buf tm_min tm_max sz end_pos i mm
          ≡ min_max_loop rg fuel packet_sz cycle_save_ms buf tm_min tm_max sz end_pos
              (next sz i)
              (min_max_rec rg packet_sz cycle_save_ms tm_min (get_or buf i no_rec) mm)
    step_more h k =
        loop_step fuel buf tm_min tm_max sz end_pos i mm inside here ∙ rw (before, more) refl
      where
        before : ltb (get_or buf i no_rec).begin_time tm_max ≡ true
        before = ground arith

        more : (next sz i == end_pos) ≡ false
        more = ground arith

  -- The loop takes in the visible records of what is ahead of it, and no others.
  pub min_max_loop-visible :
      (n fuel : ℕ) (buf : List RecData) (tm_min tm_max sz end_pos i : ℕ) (mm : D × D)
      → sz ≡ length buf
      → i < sz
      → n < sz
      → end_pos < sz
      → end_pos ≡ wrap sz (i + suc n)
      → n < fuel
      → min_max_loop rg fuel packet_sz cycle_save_ms buf tm_min tm_max sz end_pos i mm
        ≡ some
            (min_max_all (visible cycle_save_ms tm_min tm_max (window no_rec buf sz i (suc n))) mm)
  unfolding min_max_all
  min_max_loop-visible n zero buf tm_min tm_max sz end_pos i mm hs hi hn he e h =
      absurd (omega arith)
  min_max_loop-visible zero (suc fuel) buf tm_min tm_max sz end_pos i mm hs hi hn he e h =
      let rd = get_or buf i no_rec in
      elim (dec_lt rd.begin_time tm_max) [
        | yes before ↦
            step_last fuel buf tm_min tm_max sz end_pos i mm (omega arith) hi before (ground arith)
            ∙ ap some (sym (visible_cons tm_min tm_max rd [] mm before))
        | no past ↦
            step_past fuel buf tm_min tm_max sz end_pos i mm (omega arith) hi (omega arith)
            ∙ ap some (sym (visible_past tm_min tm_max rd [] mm (omega arith)))
      ]
  min_max_loop-visible (suc n) (suc fuel) buf tm_min tm_max sz end_pos i mm hs hi hn he e h =
      let rd = get_or buf i no_rec in
      let rds = window no_rec buf sz (next sz i) (suc n) in
      let mm' = min_max_rec rg packet_sz cycle_save_ms tm_min rd mm in
      elim (dec_lt rd.begin_time tm_max) [
        | yes before ↦
            step_more fuel buf tm_min tm_max sz end_pos i mm (omega arith) hi before (ground arith)
            ∙ min_max_loop-visible n fuel buf tm_min tm_max sz end_pos (next sz i) mm' hs
                (ground arith) (omega arith) he (ground arith) (omega arith)
            ∙ ap some (sym (visible_cons tm_min tm_max rd rds mm before))
        | no past ↦
            step_past fuel buf tm_min tm_max sz end_pos i mm (omega arith) hi (omega arith)
            ∙ ap some (sym (visible_past tm_min tm_max rd rds mm (omega arith)))
      ]
