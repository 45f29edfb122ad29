-- ===== src/Viewer/FileLoader/Gather.antt =====
-- All blocks of a file: the index that `FileLoader::loadFile` makes and what `loadSignalData` reads
-- with it (src/SVViewer/src/file_loader/file_loader.cpp).
use svisual.Prelude.{
  ℕ, suc, ◌≤◌, ◌<◌, ◌≡◌, refl, sym, ap, ◌∙◌, inl, inr, List, [], ◌∷◌, ◌++◌, append_assoc,
  append-nil, map, false, Option, none, some, ◌==◌, length, All, All-append, All-imp, arith,
  length-append, Bool-cases,
}
use svisual.Prelude.Bytes.{Bytes, str_eq, str_eq_iff}
use svisual.Prelude.Maps.{Map, lookup, insert, lookup-insert}
use svisual.Server.Archive.File.{Saved, entry_bytes}
use svisual.Server.Archive.Blocks.{entries_bytes, joined}
use svisual.Viewer.FileLoader.{
  ValueData, Fsd, take_patches, gather, with_patch, index_entry, index_heads, index_blocks,
}
use svisual.Viewer.FileLoader.Blocks.{IsSaved, length-entry_bytes}
use svisual.Viewer.FileLoader.Places.{
  positions, places, kept, kept-append, Elsewhere, Before, left_of, heads-entries_bytes,
  take_entries,
}

-- The places that an entry of the index holds.
abbrev pub apos : Option Fsd → List (ℕ × ℕ)
apos none = []
apos (some f) = f.patch_apos

-- The places of a key in blocks that are numbered from `n` on.
abbrev pub all_places : ℕ → ℕ → Bytes → List (List Saved) → List (ℕ × ℕ)
all_places packet_sz n k [] = []
all_places packet_sz n k (b ∷ bs) =
    places n k (positions packet_sz 0 b) ++ all_places packet_sz (suc n) k bs

-- The index that the heads of the blocks make.
abbrev pub index_batches : ℕ → ℕ → List (List Saved) → Map Fsd → Map Fsd
index_batches packet_sz n [] m = m
index_batches packet_sz n (b ∷ bs) m =
    index_batches packet_sz (suc n) bs (index_heads n (positions packet_sz 0 b) m)

apos-with_patch :
    (n pos cnt : ℕ) (o : Option Fsd)
    → apos (some (with_patch n pos cnt o)) ≡ apos o ++ ((n, pos) ∷ [])
apos-with_patch n pos cnt none = refl
apos-with_patch n pos cnt (some f) = refl

apos-index_heads :
    (n : ℕ) (k : Bytes) (vs : List (ℕ × ValueData)) (m : Map Fsd)
    → apos (lookup k (index_heads n vs m)) ≡ apos (lookup k m) ++ places n k vs
unfolding index_heads index_entry
apos-index_heads n k [] m = sym (append-nil (apos (lookup k m)))
apos-index_heads n k ((pos, vr) ∷ vs) m =
    let sign = vr.name ++ vr.module_name in
    let entry = with_patch n pos vr.vl_cnt (lookup sign m) in
    apos-index_heads n k vs (insert sign entry m)
    ∙ ap (λ o. apos o ++ places n k vs) (lookup-insert sign k entry m)
    ∙ elim (Bool-cases (str_eq sign k)) [
      | inl hit ↦ rw hit (
          ap (λ ps. ps ++ places n k vs) (apos-with_patch n pos vr.vl_cnt (lookup sign m))
          ∙ append_assoc (apos (lookup sign m)) ((n, pos) ∷ []) (places n k vs)
          ∙ ap (λ s. apos (lookup s m) ++ ((n, pos) ∷ places n k vs)) ((str_eq_iff sign k).0 hit))
      | inr miss ↦ rw miss refl
    ]

length-le-entries :
    (packet_sz : ℕ) (es : List Saved)
    → All (IsSaved packet_sz) es
    → length es ≤ length (entries_bytes packet_sz es)
unfolding entries_bytes
length-le-entries packet_sz [] oks = omega arith
length-le-entries packet_sz (e ∷ es) oks = omega (
  arith,
  length-append (entry_bytes packet_sz e) (entries_bytes packet_sz es),
  length-entry_bytes packet_sz 0 e oks.0,
  length-le-entries packet_sz es oks.1,
)

module _ (packet_sz : ℕ) where
  -- The index of a file of blocks.
  pub index_blocks-entries :
      (bs : List (List Saved)) (n : ℕ) (m : Map Fsd)
      → All (All (IsSaved packet_sz)) bs
      → index_blocks packet_sz n (map (entries_bytes packet_sz) bs) m
        ≡ some (index_batches packet_sz n bs m)
  unfolding index_blocks
  index_blocks-entries [] n m oks = refl
  index_blocks-entries (b ∷ bs) n m oks =
      rw
        (
          index_blocks,
          heads-entries_bytes packet_sz b (suc (length (entries_bytes packet_sz b))) []
              (omega (arith, length-le-entries packet_sz b oks.0)) oks.0,
        )
        (index_blocks-entries bs (suc n) (index_heads n (positions packet_sz 0 b) m) oks.1)

  pub apos-index_batches :
      (k : Bytes) (bs : List (List Saved)) (n : ℕ) (m : Map Fsd)
      → apos (lookup k (index_batches packet_sz n bs m))
        ≡ apos (lookup k m) ++ all_places packet_sz n k bs
  apos-index_batches k [] n m = sym (append-nil (apos (lookup k m)))
  apos-index_batches k (b ∷ bs) n m =
      apos-index_batches k bs (suc n) (index_heads n (positions packet_sz 0 b) m)
      ∙ ap (λ ps. ps ++ all_places packet_sz (suc n) k bs)
          (apos-index_heads n k (positions packet_sz 0 b) m)
      ∙ append_assoc (apos (lookup k m)) (places n k (positions packet_sz 0 b))
          (all_places packet_sz (suc n) k bs)

  places-Before : (k : Bytes) (n : ℕ) (vs : List (ℕ × ValueData)) → Before (suc n) (places n k vs)
  places-Before k n [] = tt
  places-Before k n ((pos, vr) ∷ vs) = elim (Bool-cases (str_eq (vr.name ++ vr.module_name) k)) [
    | inl hit ↦ rw hit (omega arith, places-Before k n vs)
    | inr miss ↦ rw miss (places-Before k n vs)
  ]

  places-Elsewhere :
      (k : Bytes) (n m : ℕ) (vs : List (ℕ × ValueData)) → n < m → Elsewhere n (places m k vs)
  places-Elsewhere k n m [] h = tt
  places-Elsewhere k n m ((pos, vr) ∷ vs) h =
      elim (Bool-cases (str_eq (vr.name ++ vr.module_name) k)) [
        | inl hit ↦ rw hit (h, places-Elsewhere k n m vs h)
        | inr miss ↦ rw miss (places-Elsewhere k n m vs h)
      ]

  all_places-Elsewhere :
      (k : Bytes) (bs : List (List Saved)) (n m : ℕ)
      → n < m
      → Elsewhere n (all_places packet_sz m k bs)
  all_places-Elsewhere k [] n m h = tt
  all_places-Elsewhere k (b ∷ bs) n m h =
      All-append (λ q. n < q.0) (places m k (positions packet_sz 0 b))
        (all_places packet_sz (suc m) k bs) (places-Elsewhere k n m (positions packet_sz 0 b) h)
        (all_places-Elsewhere k bs n (suc m) (omega arith))

  -- Of blocks behind all of its places nothing is read.
  gather_stale :
      (utc n : ℕ) (texts : List Bytes) (ps : List (ℕ × ℕ))
      → Before n ps
      → gather packet_sz utc n texts ps ≡ some []
  unfolding gather take_patches
  gather_stale utc n [] ps h = refl
  gather_stale utc n (t ∷ ts) [] h = rw (gather_stale utc (suc n) ts [] tt) refl
  gather_stale utc n (t ∷ ts) ((m, offs) ∷ ps) h =
      let later =
        All-imp (λ q. q.0 < n) (λ q. q.0 < suc n) ((m, offs) ∷ ps) (λ q l. omega arith) h in
      rw (gather, take_patches, other, gather_stale utc (suc n) ts ((m, offs) ∷ ps) later) refl
    where
      other : (m == n) ≡ false
      other = ground (arith, h.0)

  -- The places that are left after a block do for the rest.
  gather-left_of :
      (utc n : ℕ) (texts : List Bytes) (ps others : List (ℕ × ℕ))
      → Before n ps
      → gather packet_sz utc n texts (left_of (ps ++ others) others)
        ≡ gather packet_sz utc n texts others
  gather-left_of utc n texts ps (q ∷ qs) h = refl
  gather-left_of utc n texts ps [] h =
      ap (gather packet_sz utc n texts) (append-nil ps)
      ∙ gather_stale utc n texts ps h
      ∙ sym (gather_stale utc n texts [] tt)

  -- With all places of a signal, all of its records are read, in order.
  pub gather-entries :
      (utc : ℕ) (k : Bytes) (bs : List (List Saved)) (n : ℕ)
      → All (All (IsSaved packet_sz)) bs
      → gather packet_sz utc n (map (entries_bytes packet_sz) bs) (all_places packet_sz n k bs)
        ≡ some (kept utc k (joined bs))
  unfolding gather joined kept
  gather-entries utc k [] n oks = refl
  gather-entries utc k (b ∷ bs) n oks =
      let others = all_places packet_sz (suc n) k bs in
      let ps = places n k (positions packet_sz 0 b) in
      let texts = map (entries_bytes packet_sz) bs in
      let rest : gather packet_sz utc (suc n) texts (left_of (ps ++ others) others)
          ≡ some (kept utc k (joined bs)) =
        gather-left_of utc (suc n) texts ps others (places-Before k n (positions packet_sz 0 b))
        ∙ gather-entries utc k bs (suc n) oks.1 in
      rw
        (
          gather,
          take_entries packet_sz utc k n b [] (ps ++ others) others oks.0
              (all_places-Elsewhere k bs n (suc n) (omega arith)),
          rest,
        )
        (ap some (sym (kept-append utc k b (joined bs))))
