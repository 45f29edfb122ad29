-- ===== src/Viewer/FileLoader/Counts.antt =====
-- The counts in the index of a file (src/SVViewer/src/file_loader/file_loader.cpp): the room that
-- `loadSignalData` makes for the records of a signal is what they need.
use svisual.Prelude.{
  ℕ, suc, ◌+◌, ◌≡◌, refl, ap, ◌∙◌, inl, inr, List, [], ◌∷◌, ◌++◌, map, false, Option, none, some,
  if◌then◌else◌, length, All, arith, length-append, length-map, Bool-cases,
}
use svisual.Prelude.Bytes.{Bytes, str_eq, str_eq_iff}
use svisual.Prelude.Maps.{Map, lookup, insert, lookup-insert, All-insert, lookup-All}
use svisual.Server.Archive.File.{Saved, entry_bytes}
use svisual.Server.Archive.Blocks.{joined}
use svisual.Viewer.FileLoader.{ValueData, Fsd, with_patch, index_entry, index_heads}
use svisual.Viewer.FileLoader.Blocks.{shifted}
use svisual.Viewer.FileLoader.Places.{positions, kept, kept-append}
use svisual.Viewer.FileLoader.Gather.{index_batches}

abbrev pub cnt_of : Option Fsd → ℕ
cnt_of none = 0
cnt_of (some f) = f.vls_cnt

abbrev counts : Bytes → List (ℕ × ValueData) → ℕ
counts k [] = 0
counts k ((pos, vr) ∷ vs) =
    if str_eq (vr.name ++ vr.module_name) k then vr.vl_cnt + counts k vs else counts k vs

-- No signal of the index is loaded yet.
abbrev pub NotLoaded : Map Fsd → Type 0
NotLoaded = All (λ e. (e.1).is_load ≡ false)

cnt_of-with_patch :
    (n pos cnt : ℕ) (o : Option Fsd) → cnt_of (some (with_patch n pos cnt o)) ≡ cnt_of o + cnt
cnt_of-with_patch n pos cnt none = omega arith
cnt_of-with_patch n pos cnt (some f) = refl

with_patch-NotLoaded :
    (n pos cnt : ℕ) (k : Bytes) (m : Map Fsd) (o : Option Fsd)
    → lookup k m ≡ o
    → NotLoaded m
    → (with_patch n pos cnt o).is_load ≡ false
with_patch-NotLoaded n pos cnt k m none e h = refl
with_patch-NotLoaded n pos cnt k m (some f) e h = lookup-All (λ _ g. g.is_load ≡ false) k m h e

index_heads-NotLoaded :
    (n : ℕ) (vs : List (ℕ × ValueData)) (m : Map Fsd) → NotLoaded m → NotLoaded (index_heads n vs m)
unfolding index_heads index_entry
index_heads-NotLoaded n [] m h = h
index_heads-NotLoaded n ((pos, vr) ∷ vs) m h =
    let sign = vr.name ++ vr.module_name in
    let entry = with_patch n pos vr.vl_cnt (lookup sign m) in
    index_heads-NotLoaded n vs (insert sign entry m) (
      All-insert (λ e. (e.1).is_load ≡ false) sign entry m
        (with_patch-NotLoaded n pos vr.vl_cnt sign m (lookup sign m) refl h) h)

cnt_of-index_heads :
    (n : ℕ) (k : Bytes) (vs : List (ℕ × ValueData)) (m : Map Fsd)
    → cnt_of (lookup k (index_heads n vs m)) ≡ cnt_of (lookup k m) + counts k vs
unfolding index_heads index_entry
cnt_of-index_heads n k [] m = omega arith
cnt_of-index_heads n k ((pos, vr) ∷ vs) m =
    let sign = vr.name ++ vr.module_name in
    let entry = with_patch n pos vr.vl_cnt (lookup sign m) in
    cnt_of-index_heads n k vs (insert sign entry m)
    ∙ ap (λ o. cnt_of o + counts k vs) (lookup-insert sign k entry m)
    ∙ elim (Bool-cases (str_eq sign k)) [
      | inl hit ↦ rw hit (
          omega (
            arith,
            cnt_of-with_patch n pos vr.vl_cnt (lookup sign m),
            ap (λ s. cnt_of (lookup s m)) ((str_eq_iff sign k).0 hit),
          ))
      | inr miss ↦ rw miss refl
    ]

module _ (packet_sz utc : ℕ) (k : Bytes) where
  counts-positions :
      (es : List Saved) (pos : ℕ) → counts k (positions packet_sz pos es) ≡ length (kept utc k es)
  unfolding kept
  counts-positions [] pos = refl
  counts-positions (e ∷ es) pos =
      let ih = counts-positions es (pos + length (entry_bytes packet_sz e)) in
      elim (Bool-cases (str_eq (e.name ++ e.module_name) k)) [
        | inl hit ↦ rw hit (
            omega (
              arith,
              ih,
              length-append (map (shifted utc) e.recs) (kept utc k es),
              length-map (shifted utc) e.recs,
            ))
        | inr miss ↦ rw miss ih
      ]

  -- The index counts as many records of a signal as there are.
  pub cnt_of-index_batches :
      (bs : List (List Saved)) (n : ℕ) (m : Map Fsd)
      → cnt_of (lookup k (index_batches packet_sz n bs m))
        ≡ cnt_of (lookup k m) + length (kept utc k (joined bs))
  unfolding joined kept
  cnt_of-index_batches [] n m = omega arith
  cnt_of-index_batches (b ∷ bs) n m = omega (
    arith,
    cnt_of-index_batches bs (suc n) (index_heads n (positions packet_sz 0 b) m),
    cnt_of-index_heads n k (positions packet_sz 0 b) m,
    counts-positions b 0,
    ap length (kept-append utc k b (joined bs)),
    length-append (kept utc k b) (kept utc k (joined bs)),
  )

pub index_batches-NotLoaded :
    (packet_sz : ℕ) (bs : List (List Saved)) (n : ℕ) (m : Map Fsd)
    → NotLoaded m
    → NotLoaded (index_batches packet_sz n bs m)
index_batches-NotLoaded packet_sz [] n m h = h
index_batches-NotLoaded packet_sz (b ∷ bs) n m h =
    index_batches-NotLoaded packet_sz bs (suc n) (index_heads n (positions packet_sz 0 b) m)
      (index_heads-NotLoaded n (positions packet_sz 0 b) m h)
