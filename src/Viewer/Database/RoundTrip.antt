-- ===== src/Viewer/Database/RoundTrip.antt =====
-- What the server writes to the database (src/SVServer/src/clickhouse_db.cpp) is what the viewer
-- reads from it (src/SVViewer/src/db_loader/clickhouse_loader.cpp).
use svisual.Prelude.{
  ℕ, suc, ◌+◌, ◌*◌, ◌/◌, ◌≤◌, ◌<◌, ◌≡◌, refl, sym, ap, ap₂, ◌∙◌, List, [], ◌∷◌, ◌++◌, true,
  if◌then◌else◌, ltb, ◌==◌, length, take, replicate, map, All, arith, append_assoc, append-nil,
  length-append, length-replicate, length-map, take_all,
}
use mathlib.Core.List.{map-append}
use svisual.Base.{RecData, Value}
use svisual.Server.Database.{value_rows, record_rows}
use native.Mathlib.Nat.{mul-div_cancel_left}
use svisual.Viewer.Database.Places.{
  columns, columns-append, put_value-append, replicate-append, joined,
}
use svisual.Viewer.Database.{packet_count, blank_records, block_loop, load_db_blocks, load_rows}

module _ (float_of_int : Value → ℕ) (int_of_float : ℕ → Value) (packet_sz type sid : ℕ) where
  -- What comes back of a value.
  abbrev pub back : Value → Value
  back v =
      let x : ℕ = if type == 2 then v else float_of_int v in if type == 2 then x else int_of_float x

  abbrev pub restored : RecData → RecData
  restored rd = record { begin_time = rd.begin_time; vals = map back rd.vals }

  -- One row goes to its place, and the place moves on.
  step_row :
      (tail vals : List Value) (x v0 t0 t n p q : ℕ) (recs after : List RecData)
      (rows : List (ℕ × ℕ))
      → length recs < n
      → (if length vals + 1 == packet_sz then 0 else length vals + 1) ≡ p
      → (if length vals + 1 == packet_sz then length recs + 1 else length recs) ≡ q
      → block_loop int_of_float packet_sz type
          ((t, x) ∷ rows)
          n
          (length vals)
          (length recs)
          (recs ++ record { begin_time = t0; vals = vals ++ v0 ∷ tail } ∷ after)
        ≡ block_loop int_of_float packet_sz type rows n p q (
            recs
            ++ record {
              begin_time = t;
              vals = vals ++ (if type == 2 then x else int_of_float x) ∷ tail;
            }
              ∷ after)
  unfolding block_loop
  step_row tail vals x v0 t0 t n p q recs after rows lo hp hq =
      let inside : ltb (length recs) n ≡ true = ground arith in
      ground (
        arith,
        inside,
        put_value-append recs after t0 t vals tail v0 (if type == 2 then x else int_of_float x),
        hp,
        hq,
      )

  -- The rows of the rest of a packet fill the rest of the record.
  fill_record :
      (vs tail vals : List Value) (v v0 t0 t n : ℕ) (recs after : List RecData)
      (rows : List (ℕ × ℕ))
      → length tail ≡ length vs
      → length vals + suc (length vs) ≡ packet_sz
      → length recs < n
      → block_loop int_of_float packet_sz type
          (columns (value_rows float_of_int packet_sz type sid t (v ∷ vs)) ++ rows)
          n
          (length vals)
          (length recs)
          (recs ++ record { begin_time = t0; vals = vals ++ v0 ∷ tail } ∷ after)
        ≡ block_loop int_of_float packet_sz type rows n 0
            (suc (length recs))
            (recs ++ record { begin_time = t; vals = vals ++ back v ∷ map back vs } ∷ after)
  unfolding block_loop value_rows
  fill_record [] [] vals v v0 t0 t n recs after rows lt ps lo =
      step_row [] vals (if type == 2 then v else float_of_int v) v0 t0 t n 0 (suc (length recs))
        recs after rows lo (ground arith) (ground arith)
  fill_record (v' ∷ vs) (v1 ∷ tail) vals v v0 t0 t n recs after rows lt ps lo =
      let grown : length (vals ++ back v ∷ []) ≡ length vals + 1 =
        length-append vals (back v ∷ []) in
      step_row (v1 ∷ tail) vals (if type == 2 then v else float_of_int v) v0 t0 t n
        (length (vals ++ back v ∷ [])) (length recs) recs after
        (columns (value_rows float_of_int packet_sz type sid t (v' ∷ vs)) ++ rows) lo
        (ground (arith, grown)) (ground arith)
      ∙ ap
          (λ vs'.
            block_loop int_of_float packet_sz type
              (columns (value_rows float_of_int packet_sz type sid t (v' ∷ vs)) ++ rows) n
              (length (vals ++ back v ∷ [])) (length recs)
              (recs ++ record { begin_time = t; vals = vs' } ∷ after))
          (sym (append_assoc vals (back v ∷ []) (v1 ∷ tail)))
      ∙ fill_record vs tail (vals ++ back v ∷ []) v' v1 t t n recs after rows (omega arith)
          (omega (arith, grown)) lo
      ∙ ap
          (λ vs'.
            block_loop int_of_float packet_sz type rows n 0 (suc (length recs))
              (recs ++ record { begin_time = t; vals = vs' } ∷ after))
          (append_assoc vals (back v ∷ []) (back v' ∷ map back vs))
  fill_record [] (v1 ∷ tail) vals v v0 t0 t n recs after rows lt ps lo = absurd (omega arith)
  fill_record (v' ∷ vs) [] vals v v0 t0 t n recs after rows lt ps lo = absurd (omega arith)

  abbrev blank : RecData
  blank = record { begin_time = 0; vals = replicate packet_sz 0 }

  -- The rows of a record fill one that is blank.
  fill_one :
      (vs : List Value) (t n : ℕ) (recs after : List RecData) (rows : List (ℕ × ℕ))
      → length vs ≡ packet_sz
      → 0 < packet_sz
      → length recs < n
      → block_loop int_of_float packet_sz type
          (columns (value_rows float_of_int packet_sz type sid t vs) ++ rows)
          n
          0
          (length recs)
          (recs ++ blank ∷ after)
        ≡ block_loop int_of_float packet_sz type rows n 0
            (suc (length recs))
            (recs ++ record { begin_time = t; vals = map back vs } ∷ after)
  fill_one [] t n recs after rows ps pos lo = absurd (omega arith)
  fill_one (v ∷ vs) t n recs after rows ps pos lo =
      ap
        (λ k.
          block_loop int_of_float packet_sz type
            (columns (value_rows float_of_int packet_sz type sid t (v ∷ vs)) ++ rows) n 0
            (length recs) (recs ++ record { begin_time = 0; vals = replicate k 0 } ∷ after))
        (sym ps)
      ∙ fill_record vs (replicate (length vs) 0) [] v 0 0 t n recs after rows
          (length-replicate (length vs) 0) (omega arith) lo

  -- The records of packets of `SV_PACKETSZ` values.
  abbrev pub IsWhole : RecData → Type 0
  IsWhole rd = length rd.vals ≡ packet_sz

  fill_records :
      (rds : List RecData) (n : ℕ) (recs after : List RecData) (rows : List (ℕ × ℕ))
      → All IsWhole rds
      → 0 < packet_sz
      → length recs + length rds ≤ n
      → block_loop int_of_float packet_sz type
          (columns (record_rows float_of_int packet_sz type sid rds) ++ rows)
          n
          0
          (length recs)
          (recs ++ (replicate (length rds) blank ++ after))
        ≡ block_loop int_of_float packet_sz type rows n 0
            (length recs + length rds)
            ((recs ++ map restored rds) ++ after)
  unfolding record_rows
  fill_records [] n recs after rows ok pos lo =
      ap₂ (λ k b. block_loop int_of_float packet_sz type rows n 0 k b) (omega arith)
        (sym (ap (λ l. l ++ after) (append-nil recs)))
  fill_records (rd ∷ rds) n recs after rows ok pos lo =
      let rest = columns (record_rows float_of_int packet_sz type sid rds) in
      let one : columns (record_rows float_of_int packet_sz type sid (rd ∷ rds)) ++ rows
          ≡ columns (value_rows float_of_int packet_sz type sid rd.begin_time rd.vals)
            ++ (rest ++ rows) =
        ap
          (λ vs.
            columns (
              value_rows float_of_int packet_sz type sid rd.begin_time vs
              ++ record_rows float_of_int packet_sz type sid rds)
            ++ rows)
          (take_all packet_sz rd.vals (omega (arith, ok.0)))
        ∙ ap (λ c. c ++ rows)
            (columns-append (value_rows float_of_int packet_sz type sid rd.begin_time rd.vals)
              (record_rows float_of_int packet_sz type sid rds))
        ∙ append_assoc (columns (value_rows float_of_int packet_sz type sid rd.begin_time rd.vals))
            rest rows in
      let grown : length (recs ++ restored rd ∷ []) ≡ length recs + 1 =
        length-append recs (restored rd ∷ []) in
      ap
        (λ c.
          block_loop int_of_float packet_sz type c n 0 (length recs)
            (recs ++ (blank ∷ (replicate (length rds) blank ++ after))))
        one
      ∙ fill_one rd.vals rd.begin_time n recs (replicate (length rds) blank ++ after) (rest ++ rows)
          ok.0 pos (omega arith)
      ∙ ap₂ (λ k b. block_loop int_of_float packet_sz type (rest ++ rows) n 0 k b)
          (omega (arith, grown))
          (sym (append_assoc recs (restored rd ∷ []) (replicate (length rds) blank ++ after)))
      ∙ fill_records rds n (recs ++ restored rd ∷ []) after rows ok.1 pos (omega (arith, grown))
      ∙ ap₂ (λ k b. block_loop int_of_float packet_sz type rows n 0 k (b ++ after))
          (omega (arith, grown)) (append_assoc recs (restored rd ∷ []) (map restored rds))

  one_block :
      (g : List RecData) (n : ℕ) (recs after : List RecData)
      → All IsWhole g
      → 0 < packet_sz
      → length recs + length g ≤ n
      → block_loop int_of_float packet_sz type
          (columns (record_rows float_of_int packet_sz type sid g))
          n
          0
          (length recs)
          (recs ++ (replicate (length g) blank ++ after))
        ≡ ((recs ++ map restored g) ++ after, length recs + length g)
  unfolding block_loop
  one_block g n recs after ok pos lo =
      ap
        (λ c.
          block_loop int_of_float packet_sz type c n 0 (length recs)
            (recs ++ (replicate (length g) blank ++ after)))
        (sym (append-nil (columns (record_rows float_of_int packet_sz type sid g))))
      ∙ fill_records g n recs after [] ok pos lo

  -- The blocks of a request, which hold whole packets.
  abbrev pub blocks_of : List (List RecData) → List (List (ℕ × ℕ))
  blocks_of [] = []
  blocks_of (g ∷ gs) = columns (record_rows float_of_int packet_sz type sid g) ∷ blocks_of gs

  load_db_blocks-blocks_of :
      (gs : List (List RecData)) (n : ℕ) (recs : List RecData)
      → All (All IsWhole) gs
      → 0 < packet_sz
      → length recs + length (joined gs) ≤ n
      → (load_db_blocks int_of_float packet_sz type
          (blocks_of gs)
          n
          (length recs)
          (recs ++ replicate (length (joined gs)) blank)).0
        ≡ recs ++ map restored (joined gs)
  unfolding load_db_blocks
  load_db_blocks-blocks_of [] n recs ok pos lo = refl
  load_db_blocks-blocks_of (g ∷ gs) n recs ok pos lo =
      let total : length (g ++ joined gs) ≡ length g + length (joined gs) =
        length-append g (joined gs) in
      let more : length (recs ++ map restored g) ≡ length recs + length g =
        length-append recs (map restored g) ∙ ap (λ k. length recs + k) (length-map restored g) in
      let first =
        one_block g n recs (replicate (length (joined gs)) blank) ok.0 pos (omega (arith, total)) in
      ap (λ s. (load_db_blocks int_of_float packet_sz type (blocks_of gs) n s.1 s.0).0)
        (ap
            (λ b.
              block_loop int_of_float packet_sz type
                (columns (record_rows float_of_int packet_sz type sid g)) n 0 (length recs)
                (recs ++ b))
            (ap (λ k. replicate k blank) total
              ∙ replicate-append (length g) (length (joined gs)) blank)
          ∙ first
          ∙ ap (λ k. ((recs ++ map restored g) ++ replicate (length (joined gs)) blank, k))
              (sym more))
      ∙ load_db_blocks-blocks_of gs n (recs ++ map restored g) ok.1 pos (omega (arith, total, more))
      ∙ append_assoc recs (map restored g) (map restored (joined gs))
      ∙ ap (λ l. recs ++ l) (sym (map-append restored g (joined gs)))

  -- The values that come back as they were: those of a `float`, and those of an `int` that its
  -- `Float32` stands for.
  abbrev pub IsKept : RecData → Type 0
  IsKept rd = All (λ v. back v ≡ v) rd.vals

  map-back : (vs : List Value) → All (λ v. back v ≡ v) vs → map back vs ≡ vs
  map-back [] h = refl
  map-back (v ∷ vs) h = ap₂ ◌∷◌ h.0 (map-back vs h.1)

  map-restored : (rds : List RecData) → All IsKept rds → map restored rds ≡ rds
  map-restored [] h = refl
  map-restored (rd ∷ rds) h =
      ap₂ ◌∷◌ (ap (λ vs. record { begin_time = rd.begin_time; vals = vs }) (map-back rd.vals h.0))
        (map-restored rds h.1)

  -- What `count()` returns.
  abbrev pub row_count : List (List (ℕ × ℕ)) → ℕ
  row_count bs = length (joined bs)

  length-value_rows :
      (t : ℕ) (vs : List Value)
      → length (columns (value_rows float_of_int packet_sz type sid t vs)) ≡ length vs
  unfolding value_rows
  length-value_rows t [] = refl
  length-value_rows t (v ∷ vs) = ap suc (length-value_rows t vs)

  length-record_rows :
      (rds : List RecData)
      → All IsWhole rds
      → length (columns (record_rows float_of_int packet_sz type sid rds)) ≡ packet_sz * length rds
  unfolding record_rows
  length-record_rows [] ok = omega arith
  length-record_rows (rd ∷ rds) ok =
      let head =
        value_rows float_of_int packet_sz type sid rd.begin_time (take packet_sz rd.vals) in
      let here : length (columns head) ≡ packet_sz =
        length-value_rows rd.begin_time (take packet_sz rd.vals)
        ∙ ap length (take_all packet_sz rd.vals (omega (arith, ok.0)))
        ∙ ok.0 in
      let both : length (columns (head ++ record_rows float_of_int packet_sz type sid rds))
          ≡ packet_sz + packet_sz * length rds =
        ap length (columns-append head (record_rows float_of_int packet_sz type sid rds))
        ∙ length-append (columns head) (columns (record_rows float_of_int packet_sz type sid rds))
        ∙ ap₂ ◌+◌ here (length-record_rows rds ok.1) in
      both ∙ grind arith

  row_count-blocks_of :
      (gs : List (List RecData))
      → All (All IsWhole) gs
      → row_count (blocks_of gs) ≡ packet_sz * length (joined gs)
  row_count-blocks_of [] ok = omega arith
  row_count-blocks_of (g ∷ gs) ok = grind (
    arith,
    length-append (columns (record_rows float_of_int packet_sz type sid g)) (joined (blocks_of gs)),
    length-append g (joined gs),
    length-record_rows g ok.0,
    row_count-blocks_of gs ok.1,
  )

  -- The rows that the server writes for the records of a signal, read by the viewer in any blocks
  -- of whole packets, in order, give these records again. Packets have `SV_PACKETSZ` values, and
  -- each value is one that its `Float32` keeps.
  pub load_rows-record_rows :
      (gs : List (List RecData))
      → All (All IsWhole) gs
      → 0 < packet_sz
      → All IsKept (joined gs)
      → load_rows int_of_float packet_sz type (row_count (blocks_of gs)) (blocks_of gs) ≡ joined gs
  unfolding load_rows
  load_rows-record_rows gs ok pos kept =
      let n : packet_count packet_sz (row_count (blocks_of gs)) ≡ length (joined gs) =
        ap (λ k. k / packet_sz) (row_count-blocks_of gs ok)
        ∙ mul-div_cancel_left (length (joined gs)) pos in
      ap
        (λ k.
          (load_db_blocks int_of_float packet_sz type (blocks_of gs) k 0
            (blank_records packet_sz k)).0)
        n
      ∙ load_db_blocks-blocks_of gs (length (joined gs)) [] ok pos (omega arith)
      ∙ map-restored (joined gs) kept
