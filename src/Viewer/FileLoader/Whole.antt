-- ===== src/Viewer/FileLoader/Whole.antt =====
-- The archive of the server and the viewer together: what `Archive::copyToDiskImpl` writes
-- (src/SVServer/src/archive.cpp), `FileLoader` reads
-- (src/SVViewer/src/file_loader/file_loader.cpp).
use svisual.Prelude.{
  ℕ, suc, ◌+◌, ◌-◌, ◌*◌, ◌/◌, ◌≤◌, ◌≡◌, ◌≢◌, refl, sym, ap, subst, ◌∙◌, inl, inr, List, [], ◌∷◌,
  ◌++◌, append-nil, map, true, false, Option, some, length, All, All-append_parts, arith, leb,
  Option-cases,
}
use svisual.Prelude.Bytes.{Bytes, IsWord}
use svisual.Prelude.Maps.{Map, lookup, has, lookup-All}
use svisual.Base.{RecData}
use svisual.Server.Archive.File.{Saved, head_sz, s_max_cnt, head_line}
use svisual.Server.Archive.Blocks.{entries_bytes, joined, file_bytes, IsBatch, length-entries_bytes}
use svisual.Viewer.FileLoader.{Fsd, FileData, Viewer, read_blocks, skip_head, gather}
use svisual.Viewer.FileLoader.Index.{load_file}
use svisual.Viewer.FileLoader.Blocks.{IsSaved}
use svisual.Viewer.FileLoader.Places.{kept}
use svisual.Viewer.FileLoader.Gather.{
  apos, index_batches, index_blocks-entries, apos-index_batches, gather-entries,
}
use svisual.Viewer.FileLoader.RoundTrip.{
  saves, all_somes, saves_lem, read_blocks-file_bytes, skip_head-head_line, FitsBlock,
}
use svisual.Viewer.FileLoader.Signal.{Loaded, load_files, read_file, with_room, read_on, marked}
use svisual.Viewer.FileLoader.Loaded.{AllActive, load_file_lem, read_on-eq-read_blocks}
use svisual.Viewer.FileLoader.Counts.{
  cnt_of, NotLoaded, cnt_of-index_batches, index_batches-NotLoaded,
}

-- The room that `copyToDiskImpl` makes for a block.
abbrev pub in_arr_sz : ℕ → ℕ → ℕ
in_arr_sz packet_sz copy_sz =
    (8 + 4 * packet_sz) * copy_sz * s_max_cnt packet_sz + head_sz * s_max_cnt packet_sz

All-joined {κ} : (P : Saved → Type κ) (bs : List (List Saved)) → All P (joined bs) → All (All P) bs
unfolding joined
All-joined P [] h = tt
All-joined P (b ∷ bs) h =
    let (here, rest) = All-append_parts P b (joined bs) h in (here, All-joined P bs rest)

-- The blocks of a file can be measured by the words before them.
batches-FitsBlock :
    (z : Bytes → Bytes) (packet_sz copy_sz : ℕ) (bs : List (List Saved))
    → IsWord (in_arr_sz packet_sz copy_sz)
    → ((b : Bytes) → length b ≤ in_arr_sz packet_sz copy_sz → IsWord (length (z b)))
    → All (IsBatch (s_max_cnt packet_sz)) bs
    → All (All (λ e. length e.recs ≤ copy_sz)) bs
    → All (FitsBlock z packet_sz) bs
batches-FitsBlock z packet_sz copy_sz [] word small ok few = tt
batches-FitsBlock z packet_sz copy_sz (b ∷ bs) word small ok few =
    let le = length-entries_bytes packet_sz copy_sz (s_max_cnt packet_sz) b ok.0 few.0 in
    (
      (omega arith, small (entries_bytes packet_sz b) le),
      batches-FitsBlock z packet_sz copy_sz bs word small ok.1 few.1,
    )

with_room-fits :
    (packet_sz cnt : ℕ) (recs buff : List RecData)
    → length recs ≡ cnt
    → with_room packet_sz cnt recs buff ≡ some (buff ++ recs)
with_room-fits packet_sz cnt recs buff h =
    rw (enough, none_left) (ap (λ t. some (buff ++ t)) (append-nil recs))
  where
    enough : leb (length recs) cnt ≡ true
    enough = ground arith

    none_left : cnt - length recs ≡ 0
    none_left = omega arith

nil_of_length : (recs : List RecData) → length recs ≡ 0 → recs ≡ []
nil_of_length [] h = refl
nil_of_length (rd ∷ rds) h = absurd (omega arith)

read_file-whole :
    (uncompress : Bytes → ℕ → Option Bytes) (content : Bytes → Option Bytes) (packet_sz : ℕ)
    (k s : Bytes) (fd : FileData) (f : Fsd) (texts : List Bytes) (buff recs : List RecData)
    → read_on uncompress (suc (length (skip_head s))) (skip_head s) ≡ some (texts, true)
    → gather packet_sz fd.utc_offs_ms 0 texts f.patch_apos ≡ some recs
    → f.vls_cnt ≡ length recs
    → read_file uncompress content packet_sz k s fd f buff ≡ some (buff ++ recs, true)
unfolding read_file
read_file-whole uncompress content packet_sz k s fd f texts buff recs reads here count =
    rw (read_file, reads, here, with_room-fits packet_sz f.vls_cnt recs buff (sym count)) refl

-- The records that a single file gives of a signal.
load_files_one :
    (uncompress : Bytes → ℕ → Option Bytes) (content : Bytes → Option Bytes) (packet_sz utc : ℕ)
    (k path s : Bytes) (ix : Map Fsd) (texts : List Bytes) (buff recs : List RecData)
    → content path ≡ some s
    → NotLoaded ix
    → read_on uncompress (suc (length (skip_head s))) (skip_head s) ≡ some (texts, true)
    → gather packet_sz utc 0 texts (apos (lookup k ix)) ≡ some recs
    → cnt_of (lookup k ix) ≡ length recs
    → (r : Loaded) × (load_files uncompress content packet_sz k
          ((path, record { utc_offs_ms = utc; signls = ix }) ∷ [])
          buff
        ≡ some r)
      × (r.buff ≡ buff ++ recs)
      × (r.ok ≡ true)
unfolding load_files read_file
load_files_one uncompress content packet_sz utc k path s ix texts buff recs opens fresh reads here
      count =
    let fd : FileData = record { utc_offs_ms = utc; signls = ix } in
    elim (Option-cases (lookup k ix)) [
      | inl absent ↦ (
        record { files = (path, fd) ∷ []; buff = buff; ok = true; is_new = false },
        rw (load_files, absent) refl,
        sym (
            ap (λ t. buff ++ t) (nil_of_length recs (sym count ∙ ap cnt_of absent))
            ∙ append-nil buff),
        refl,
      )
      | inr (f, found) ↦
          let off : f.is_load ≡ false = lookup-All (λ _ g. g.is_load ≡ false) k ix fresh found in
          let whole =
            read_file-whole uncompress content packet_sz k s fd f texts buff recs reads
              (sym (ap (λ o. gather packet_sz utc 0 texts (apos o)) found) ∙ here)
              (sym (ap cnt_of found) ∙ count) in
          (
            record {
              files = (path, marked k fd) ∷ [];
              buff = buff ++ recs;
              ok = true;
              is_new = true;
            },
            rw (load_files, found, off, opens, whole) refl,
            refl,
            refl,
          )
    ]

-- What the program relies on of zlib: `compress` works, into at most `compressBound` bytes, and
-- `uncompress` undoes it, given room for the text.
pub record Zlib : Type 0 where
  pub compress : Bytes → Option Bytes
  pub uncompress : Bytes → ℕ → Option Bytes
  pub packed : Bytes → Bytes
  pub works : (b : Bytes) → compress b ≡ some (packed b)
  pub bound :
      (b : Bytes)
      → length (packed b) ≤ length b + length b / 4096 + length b / 16384 + length b / 33554432 + 13
  pub back : (b : Bytes) → uncompress (packed b) (length b) ≡ some b

zero_add : (n : ℕ) → 0 + n ≡ n
zero_add n = omega arith

packed_small :
    (lib : Zlib) (n : ℕ) (b : Bytes)
    → IsWord (2 * n + 13)
    → length b ≤ n
    → IsWord (length (lib.packed b))
packed_small lib n b word le = omega (arith, lib.bound b)

-- A file of saves is taken apart into the blocks that were written.
saves-blocks :
    (lib : Zlib) (packet_sz copy_sz : ℕ) (oss : List (List (Option Saved)))
    → IsWord (2 * in_arr_sz packet_sz copy_sz + 13)
    → All (λ e. length e.recs ≤ copy_sz) (all_somes oss)
    → (bs : List (List Saved)) × (read_blocks lib.uncompress
          (suc (length (saves lib.compress packet_sz oss)))
          (saves lib.compress packet_sz oss)
        ≡ some (map (entries_bytes packet_sz) bs, true))
      × (joined bs ≡ all_somes oss)
saves-blocks lib packet_sz copy_sz oss word few =
    let (bs, bytes, all, ok) = saves_lem lib.compress lib.packed packet_sz oss lib.works in
    let fits =
      batches-FitsBlock lib.packed packet_sz copy_sz bs (omega arith)
        (λ b le. packed_small lib (in_arr_sz packet_sz copy_sz) b word le) ok
        (All-joined (λ e. length e.recs ≤ copy_sz) bs
          (subst (All (λ e. length e.recs ≤ copy_sz)) (sym all) few)) in
    (
      bs,
      ap (λ f. read_blocks lib.uncompress (suc (length f)) f) bytes
          ∙ read_blocks-file_bytes lib.uncompress lib.packed lib.back packet_sz
              (suc (length (file_bytes lib.packed packet_sz bs))) bs (omega arith) fits,
      all,
    )

-- A file that the archive wrote, save by save, is loaded by the viewer without a fault, and then all
-- records of a signal that were saved are read from it, in order and with their times moved by the
-- offset of the file. The file is new to the viewer, its signals are active, and names, types and
-- counts fit the fields of a head.
pub saves-load_files :
    (lib : Zlib) (show : ℕ → Bytes) (packet_sz copy_sz cycle_rec_ms utc : ℕ) (path k : Bytes)
    (oss : List (List (Option Saved))) {D : Type 0} (zero_d : D) (w : Viewer D)
    → ((n : ℕ) → (length (show n) ≤ 20) × All (λ b. b ≢ 10) (show n))
    → IsWord (2 * in_arr_sz packet_sz copy_sz + 13)
    → All (IsSaved packet_sz) (all_somes oss)
    → All (λ e. length e.recs ≤ copy_sz) (all_somes oss)
    → has path w.file_ref ≡ false
    → AllActive w
    → (content : Bytes → Option Bytes)
    → content path
      ≡ some (head_line show packet_sz cycle_rec_ms ++ saves lib.compress packet_sz oss)
    → (w' : Viewer D) × (fd : FileData) × (r : Loaded) × (load_file zero_d lib.uncompress packet_sz
          path utc
          (content path)
          true
          w
        ≡ some (w', true))
      × (lookup path w'.file_ref ≡ some fd)
      × (load_files lib.uncompress content packet_sz k ((path, fd) ∷ []) [] ≡ some r)
      × (r.buff ≡ kept utc k (all_somes oss))
      × (r.ok ≡ true)
unfolding lookup
saves-load_files lib show packet_sz copy_sz cycle_rec_ms utc path k oss zero_d w shows word oks few
      new act content opens =
    let file = saves lib.compress packet_sz oss in
    let s = head_line show packet_sz cycle_rec_ms ++ file in
    let (bs, apart, all) = saves-blocks lib packet_sz copy_sz oss word few in
    let no_head : skip_head s ≡ file = skip_head-head_line show packet_sz cycle_rec_ms file shows in
    let texts = map (entries_bytes packet_sz) bs in
    let reads : read_blocks lib.uncompress (suc (length (skip_head s))) (skip_head s)
        ≡ some (texts, true) =
      ap (λ f. read_blocks lib.uncompress (suc (length f)) f) no_head ∙ apart in
    let oks' = All-joined (IsSaved packet_sz) bs (subst (All (IsSaved packet_sz)) (sym all) oks) in
    let ix = index_batches packet_sz 0 bs [] in
    let (w', loads, at, _) =
      load_file_lem zero_d lib.uncompress packet_sz path s utc w {bs = texts} {ix = ix} new act
        reads (index_blocks-entries packet_sz bs 0 [] oks') in
    let recs = kept utc k (all_somes oss) in
    let there : gather packet_sz utc 0 texts (apos (lookup k ix)) ≡ some recs =
      ap (gather packet_sz utc 0 texts) (apos-index_batches packet_sz k bs 0 [])
      ∙ gather-entries packet_sz utc k bs 0 oks'
      ∙ ap (λ es. some (kept utc k es)) all in
    let count : cnt_of (lookup k ix) ≡ length recs =
      cnt_of-index_batches packet_sz utc k bs 0 []
      ∙ zero_add (length (kept utc k (joined bs)))
      ∙ ap (λ es. length (kept utc k es)) all in
    let (r, e, records, ok) =
      load_files_one lib.uncompress content packet_sz utc k path s ix texts [] recs opens
        (index_batches-NotLoaded packet_sz bs 0 [] tt)
        (read_on-eq-read_blocks lib.uncompress (suc (length (skip_head s))) (skip_head s) reads)
        there count in
    (
      w',
      record { utc_offs_ms = utc; signls = ix },
      r,
      ap (λ c. load_file zero_d lib.uncompress packet_sz path utc c true w) opens ∙ loads,
      at,
      e,
      records,
      ok,
    )
