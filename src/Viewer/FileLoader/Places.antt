-- ===== src/Viewer/FileLoader/Places.antt =====
-- The places of a signal in the blocks of a file: what `FileLoader::loadFile` finds and what
-- `loadSignalData` then reads there (src/SVViewer/src/file_loader/file_loader.cpp).
use svisual.Prelude.{
  subst, ℕ, zero, suc, ◌+◌, ◌*◌, ◌≤◌, ◌<◌, ◌≡◌, refl, sym, ap, ap₂, ◌∙◌, inl, inr, List, [], ◌∷◌,
  ◌++◌, append_assoc, map, true, false, some, if◌then◌else◌, ltb, leb, ◌==◌, length, drop, All,
  arith, length-append, drop-append, drop-append_of_length, drop-append_add, Bool-cases,
}
use svisual.Prelude.Bytes.{Bytes, str_eq}
use svisual.Base.{RecData}
use svisual.Server.Archive.File.{Saved, recs_bytes, head_bytes, entry_bytes}
use svisual.Server.Archive.Blocks.{entries_bytes, length-head_bytes}
use svisual.Viewer.FileLoader.{
  ValueData, v_head_sz, val_sz, value_data, heads, recs_at, take_patches,
}
use svisual.Viewer.FileLoader.Blocks.{
  IsSaved, head_of, shifted, value_data-head_bytes, recs_at-recs_bytes, length-entry_bytes,
}

-- The heads of a block and where they stand.
abbrev pub positions : ℕ → ℕ → List Saved → List (ℕ × ValueData)
positions packet_sz pos [] = []
positions packet_sz pos (e ∷ es) =
    (pos, head_of e) ∷ positions packet_sz (pos + length (entry_bytes packet_sz e)) es

-- The places of a key among the heads of block `n`.
abbrev pub places : ℕ → Bytes → List (ℕ × ValueData) → List (ℕ × ℕ)
places n k [] = []
places n k ((pos, vr) ∷ vs) =
    if str_eq (vr.name ++ vr.module_name) k then (n, pos) ∷ places n k vs else places n k vs

-- The records of a key, as they are read.
unfoldable pub kept : ℕ → Bytes → List Saved → List RecData
kept utc k [] = []
kept utc k (e ∷ es) =
    (if str_eq (e.name ++ e.module_name) k then map (shifted utc) e.recs else []) ++ kept utc k es

pub kept-append :
    (utc : ℕ) (k : Bytes) (es fs : List Saved)
    → kept utc k (es ++ fs) ≡ kept utc k es ++ kept utc k fs
unfolding kept
kept-append utc k [] fs = refl
kept-append utc k (e ∷ es) fs =
    let here : List RecData =
      if str_eq (e.name ++ e.module_name) k then map (shifted utc) e.recs else [] in
    ap (λ rs. here ++ rs) (kept-append utc k es fs)
    ∙ sym (append_assoc here (kept utc k es) (kept utc k fs))

-- Places in later blocks, and in earlier ones.
abbrev pub Elsewhere : ℕ → List (ℕ × ℕ) → Type 0
Elsewhere n = All (λ q. n < q.0)

abbrev pub Before : ℕ → List (ℕ × ℕ) → Type 0
Before n = All (λ q. q.0 < n)

-- The places that the loop over the blocks goes on with.
abbrev pub left_of : List (ℕ × ℕ) → List (ℕ × ℕ) → List (ℕ × ℕ)
left_of start [] = start
left_of start (q ∷ qs) = q ∷ qs

module _ (packet_sz : ℕ) where
  -- The first signal of what is left of a block.
  first_head :
      (e : Saved) (es : List Saved) (pre : Bytes)
      → IsSaved packet_sz e
      → value_data (drop (length pre) (pre ++ entries_bytes packet_sz (e ∷ es))) ≡ head_of e
  unfolding entries_bytes entry_bytes
  first_head e es pre ok =
      ap value_data (
        drop-append pre (entries_bytes packet_sz (e ∷ es))
        ∙ append_assoc (head_bytes e) (recs_bytes packet_sz e.recs) (entries_bytes packet_sz es))
      ∙ value_data-head_bytes packet_sz e ok
          (recs_bytes packet_sz e.recs ++ entries_bytes packet_sz es)

  next_part :
      (e : Saved) (es : List Saved) (pre : Bytes)
      → pre ++ entries_bytes packet_sz (e ∷ es)
        ≡ (pre ++ entry_bytes packet_sz e) ++ entries_bytes packet_sz es
  unfolding entries_bytes
  next_part e es pre = sym (append_assoc pre (entry_bytes packet_sz e) (entries_bytes packet_sz es))

  entries_room :
      (e : Saved) (es : List Saved) (pre : Bytes)
      → length pre + v_head_sz ≤ length (pre ++ entries_bytes packet_sz (e ∷ es))
  unfolding entries_bytes entry_bytes
  entries_room e es pre = omega (
    arith,
    length-append pre ((head_bytes e ++ recs_bytes packet_sz e.recs) ++ entries_bytes packet_sz es),
    length-append (head_bytes e ++ recs_bytes packet_sz e.recs) (entries_bytes packet_sz es),
    length-append (head_bytes e) (recs_bytes packet_sz e.recs),
    length-head_bytes e,
  )

  heads_step :
      (fuel it : ℕ) (text : Bytes) (vr : ValueData) (rest : List (ℕ × ValueData))
      → value_data (drop it text) ≡ vr
      → it + v_head_sz ≤ length text
      → heads fuel packet_sz text (it + v_head_sz + vr.vl_cnt * val_sz packet_sz) ≡ some rest
      → heads (suc fuel) packet_sz text it ≡ some ((it, vr) ∷ rest)
  unfolding heads
  heads_step fuel it text vr rest e room h = rw (inside, within, e, h, e) refl
    where
      inside : ltb it (length text) ≡ true
      inside = ground arith

      within : leb (it + v_head_sz) (length text) ≡ true
      within = ground arith

  heads_done :
      (fuel it : ℕ) (text : Bytes) → length text ≤ it → heads (suc fuel) packet_sz text it ≡ some []
  unfolding heads
  heads_done fuel it text h = rw past refl
    where
      past : ltb it (length text) ≡ false
      past = ground arith

  -- Where the loop over a block stands after a signal.
  next_it :
      (e : Saved) (pre : Bytes)
      → IsSaved packet_sz e
      → length pre + v_head_sz + length e.recs * val_sz packet_sz
        ≡ length (pre ++ entry_bytes packet_sz e)
  next_it e pre ok =
      omega
        (arith, length-append pre (entry_bytes packet_sz e), length-entry_bytes packet_sz 0 e ok)

  -- The loop over a block finds every head that was written, and each at its place.
  pub heads-entries_bytes :
      (es : List Saved) (fuel : ℕ) (pre : Bytes)
      → length es < fuel
      → All (IsSaved packet_sz) es
      → heads fuel packet_sz (pre ++ entries_bytes packet_sz es) (length pre)
        ≡ some (positions packet_sz (length pre) es)
  unfolding entries_bytes
  heads-entries_bytes es zero pre enough oks = absurd (omega arith)
  heads-entries_bytes [] (suc fuel) pre enough oks =
      heads_done fuel (length pre) (pre ++ []) (omega (arith, length-append pre []))
  heads-entries_bytes (e ∷ es) (suc fuel) pre enough oks =
      let pre' = pre ++ entry_bytes packet_sz e in
      let text = pre ++ entries_bytes packet_sz (e ∷ es) in
      heads_step fuel (length pre) text (head_of e)
        (positions packet_sz (length pre + length (entry_bytes packet_sz e)) es)
        (first_head e es pre oks.0) (entries_room e es pre)
        (ap₂ (heads fuel packet_sz) (next_part e es pre) (next_it e pre oks.0)
          ∙ heads-entries_bytes es fuel pre' (omega arith) oks.1
          ∙ ap (λ n. some (positions packet_sz n es)) (length-append pre (entry_bytes packet_sz e)))

  module _ (utc : ℕ) (k : Bytes) where
    take_others :
        (n : ℕ) (text : Bytes) (start others : List (ℕ × ℕ))
        → Elsewhere n others
        → take_patches packet_sz utc n text start others ≡ some ([], left_of start others)
    unfolding take_patches
    take_others n text start [] h = refl
    take_others n text start ((m, offs) ∷ qs) h = rw other refl
      where
        other : (m == n) ≡ false
        other = ground (arith, h.0)

    take_step :
        (n offs : ℕ) (text : Bytes) (start ps : List (ℕ × ℕ)) (recs : List RecData)
        (left : List (ℕ × ℕ))
        → offs + v_head_sz + (value_data (drop offs text)).vl_cnt * val_sz packet_sz ≤ length text
        → take_patches packet_sz utc n text start ps ≡ some (recs, left)
        → take_patches packet_sz utc n text start ((n, offs) ∷ ps)
          ≡ some (
            recs_at packet_sz utc
                  (value_data (drop offs text)).vl_cnt
                  (drop (offs + v_head_sz) text)
                ++ recs,
            left,
          )
    unfolding take_patches
    take_step n offs text start ps recs left room h = rw (same, within, inside, h) refl
      where
        same : (n == n) ≡ true
        same = ground arith

        within : leb offs (length text) ≡ true
        within = ground (arith, room)

        inside :
            leb
              (offs + v_head_sz + (value_data (drop offs text)).vl_cnt * val_sz packet_sz)
              (length text)
            ≡ true
        inside = ground (arith, room)

    -- The records that stand at a place.
    recs_there :
        (e : Saved) (es : List Saved) (pre : Bytes)
        → IsSaved packet_sz e
        → recs_at packet_sz utc
            (value_data (drop (length pre) (pre ++ entries_bytes packet_sz (e ∷ es)))).vl_cnt
            (drop (length pre + v_head_sz) (pre ++ entries_bytes packet_sz (e ∷ es)))
          ≡ map (shifted utc) e.recs
    unfolding entries_bytes entry_bytes
    recs_there e es pre ok =
        let rest = recs_bytes packet_sz e.recs ++ entries_bytes packet_sz es in
        ap₂ (recs_at packet_sz utc) (ap (λ v. v.vl_cnt) (first_head e es pre ok)) (
          drop-append_add v_head_sz pre (entries_bytes packet_sz (e ∷ es))
          ∙ ap (drop v_head_sz) (
              append_assoc (head_bytes e) (recs_bytes packet_sz e.recs)
                (entries_bytes packet_sz es))
          ∙ drop-append_of_length v_head_sz (head_bytes e) rest (length-head_bytes e))
        ∙ recs_at-recs_bytes packet_sz utc e.recs (entries_bytes packet_sz es) ok.records

    -- A head and its records end inside of the block.
    whole_entry :
        (e : Saved) (es : List Saved) (pre : Bytes)
        → IsSaved packet_sz e
        → length pre
            + v_head_sz
            + (value_data (drop (length pre) (pre ++ entries_bytes packet_sz (e ∷ es)))).vl_cnt
              * val_sz packet_sz
          ≤ length (pre ++ entries_bytes packet_sz (e ∷ es))
    whole_entry e es pre ok =
        subst
          (λ v.
            length pre + v_head_sz + v.vl_cnt * val_sz packet_sz
            ≤ length (pre ++ entries_bytes packet_sz (e ∷ es)))
          (sym (first_head e es pre ok))
          (omega (
            arith,
            next_it e pre ok,
            ap length (next_part e es pre),
            length-append (pre ++ entry_bytes packet_sz e) (entries_bytes packet_sz es),
          ))

    -- What is read of a block: the records of the signal, in order.
    pub take_entries :
        (n : ℕ) (es : List Saved) (pre : Bytes) (start others : List (ℕ × ℕ))
        → All (IsSaved packet_sz) es
        → Elsewhere n others
        → take_patches packet_sz utc n
            (pre ++ entries_bytes packet_sz es)
            start
            (places n k (positions packet_sz (length pre) es) ++ others)
          ≡ some (kept utc k es, left_of start others)
    unfolding kept
    take_entries n [] pre start others oks h =
        take_others n (pre ++ entries_bytes packet_sz []) start others h
    take_entries n (e ∷ es) pre start others oks h =
        let pos' = length pre + length (entry_bytes packet_sz e) in
        let ih : take_patches packet_sz utc n (pre ++ entries_bytes packet_sz (e ∷ es)) start
              (places n k (positions packet_sz pos' es) ++ others)
            ≡ some (kept utc k es, left_of start others) =
          ap₂
            (λ text l.
              take_patches packet_sz utc n text start
                (places n k (positions packet_sz l es) ++ others))
            (next_part e es pre) (sym (length-append pre (entry_bytes packet_sz e)))
          ∙ take_entries n es (pre ++ entry_bytes packet_sz e) start others oks.1 h in
        elim (Bool-cases (str_eq (e.name ++ e.module_name) k)) [
          | inl hit ↦ rw hit (
              take_step n (length pre) (pre ++ entries_bytes packet_sz (e ∷ es)) start
                (places n k (positions packet_sz pos' es) ++ others) (kept utc k es)
                (left_of start others) (whole_entry e es pre oks.0) ih
              ∙ ap (λ rs. some (rs ++ kept utc k es, left_of start others))
                  (recs_there e es pre oks.0))
          | inr miss ↦ rw miss ih
        ]
