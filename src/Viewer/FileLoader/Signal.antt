-- ===== src/Viewer/FileLoader/Signal.antt =====
-- `FileLoader::loadSignalData` (src/SVViewer/src/file_loader/file_loader.cpp): the records of a
-- signal, out of all files that have it. `content` is what opening a file gives, `sort` stands for
-- `std::sort` by the time of a record.
use svisual.Prelude.{
  ℕ, zero, suc, ◌+◌, ◌-◌, ◌%◌, ◌^◌, List, [], ◌∷◌, ◌++◌, Bool, true, false, ◌&&◌, Option, none,
  some, if◌then◌else◌, leb, ◌==◌, length, take, drop, replicate,
}
use svisual.Prelude.Bytes.{Bytes, decode32}
use svisual.Prelude.Maps.{Map, lookup, insert, adjust}
use svisual.Base.{RecData, SignalData, Doubles}
use svisual.Viewer.FileLoader.{Fsd, FileData, Viewer, skip_head, gather}

-- The loop over the blocks, on fuel: those that can be uncompressed, and whether all of them can be.
unfoldable pub read_on : (Bytes → ℕ → Option Bytes) → ℕ → Bytes → Option (List Bytes × Bool)
read_on uncompress zero s = none
read_on uncompress (suc fuel) [] = some ([], true)
read_on uncompress (suc fuel) (x ∷ s) =
    let compr_sz = decode32 (x ∷ s) in
    let data_sz = decode32 (drop 4 (x ∷ s)) in
    let rest = read_on uncompress fuel (drop (8 + compr_sz) (x ∷ s)) in
    elim rest [
      | none ↦ none
      | some (bs, ok) ↦ elim (uncompress (take compr_sz (drop 8 (x ∷ s))) data_sz) [
        | none ↦ some (bs, false)
        | some text ↦ some (text ∷ bs, ok)
      ]
    ]

-- The records of a file are put behind those that there are. There is room for as many as the
-- index counts: what is not filled stays zero, and `none` is a write behind it.
abbrev pub with_room : ℕ → ℕ → List RecData → List RecData → Option (List RecData)
with_room packet_sz cnt recs buff =
    if leb (length recs) cnt
    then some (
        buff
        ++ (recs
            ++ replicate (cnt - length recs)
                (record { begin_time = 0; vals = replicate packet_sz 0 })))
    else none

-- The files after the loop over them, the records, and `ok` and `isNewFile`.
pub record Loaded : Type 0 where
  pub files : Map FileData
  pub buff : List RecData
  pub ok : Bool
  pub is_new : Bool

abbrev pub kept_file : Bytes → FileData → Bool → Option Loaded → Option Loaded
kept_file path fd ok none = none
kept_file path fd ok (some r) = some (record r { files = (path, fd) ∷ r.files; ok = ok && r.ok })

abbrev pub new_file : Bytes → FileData → Bool → Option Loaded → Option Loaded
new_file path fd ok none = none
new_file path fd ok (some r) =
    some (record r { files = (path, fd) ∷ r.files; ok = ok && r.ok; is_new = true })

abbrev pub marked : Bytes → FileData → FileData
marked k fd = record fd { signls = adjust k (λ f. record f { is_load = true }) fd.signls }

module _ (uncompress : Bytes → ℕ → Option Bytes) (content : Bytes → Option Bytes) (packet_sz : ℕ)
    (k : Bytes) where
  -- What a file gives: its records behind `buff`, and whether all of its blocks could be read.
  unfoldable pub read_file : Bytes → FileData → Fsd → List RecData → Option (List RecData × Bool)
  read_file s fd f buff = elim (read_on uncompress (suc (length (skip_head s))) (skip_head s)) [
    | none ↦ none
    | some (bs, ok) ↦ elim (gather packet_sz fd.utc_offs_ms 0 bs f.patch_apos) [
      | none ↦ none
      | some recs ↦ elim (with_room packet_sz f.vls_cnt recs buff) [
        | none ↦ none
        | some buff' ↦ some (buff', ok)
      ]
    ]
  ]

  -- The loop over the files.
  unfoldable pub load_files : Map FileData → List RecData → Option Loaded
  load_files [] buff = some (record { files = []; buff = buff; ok = true; is_new = false })
  load_files ((path, fd) ∷ fs) buff =
      let rest = load_files fs buff in
      elim (lookup k fd.signls) [
        | none ↦ kept_file path fd true rest
        | some f ↦ if f.is_load then kept_file path fd true rest else elim (content path) [
          | none ↦ kept_file path fd false rest
          | some s ↦ elim (read_file s fd f buff) [
            | none ↦ none
            | some (buff', ok) ↦ new_file path (marked k fd) ok (load_files fs buff')
          ]
        ]
      ]

module _ {D : Type 0} (dbl : Doubles D) where
  -- The loops over the values of the records: the greatest and the least so far.
  unfoldable pub max_of : (ℕ → D) → List ℕ → D → D
  max_of to_d [] m = m
  max_of to_d (v ∷ vs) m = max_of to_d vs (if dbl.lt_d m (to_d v) then to_d v else m)

  unfoldable pub min_of : (ℕ → D) → List ℕ → D → D
  min_of to_d [] m = m
  min_of to_d (v ∷ vs) m = min_of to_d vs (if dbl.lt_d (to_d v) m then to_d v else m)

  abbrev pub all_vals : ℕ → List RecData → List ℕ
  all_vals packet_sz [] = []
  all_vals packet_sz (rd ∷ rds) = take packet_sz rd.vals ++ all_vals packet_sz rds

  -- `INT32_MAX` and `-INT32_MAX`
  abbrev pub least_start : D
  least_start = dbl.of_int 2147483647

  abbrev pub greatest_start : D
  greatest_start = dbl.of_int 2147483649

  abbrev pub min_value : ℕ → ℕ → List RecData → D
  min_value packet_sz type rds =
      if type == 1
      then min_of dbl.of_int (all_vals packet_sz rds) least_start
      else if type == 2
      then min_of dbl.of_float (all_vals packet_sz rds) least_start
      else least_start

  abbrev pub max_value : ℕ → ℕ → List RecData → D
  max_value packet_sz type rds =
      if type == 1
      then max_of dbl.of_int (all_vals packet_sz rds) greatest_start
      else if type == 2
      then max_of dbl.of_float (all_vals packet_sz rds) greatest_start
      else greatest_start

  abbrev pub last_time : ℕ → List RecData → ℕ
  last_time t [] = t
  last_time t (rd ∷ rds) = last_time rd.begin_time rds

  -- The end of `loadSignalData`, on the sorted records; `none` is the first of no records.
  unfoldable pub finish : ℕ → ℕ → List RecData → SignalData D → Option (SignalData D)
  finish packet_sz cycle_save_ms [] sd = none
  finish packet_sz cycle_save_ms (rd ∷ rds) sd = some (record sd {
    buff_data = rd ∷ rds;
    buff_min_time = rd.begin_time;
    buff_max_time = (last_time rd.begin_time rds + cycle_save_ms) % 2 ^ 64;
    buff_min_value = min_value packet_sz sd.type (rd ∷ rds);
    buff_max_value = max_value packet_sz sd.type (rd ∷ rds);
    buff_value_pos = length rds;
  })

  abbrev pub non_empty_data : List RecData → Bool
  non_empty_data [] = false
  non_empty_data (rd ∷ rds) = true

  -- `loadSignalData`
  unfoldable pub load_signal :
      (Bytes → ℕ → Option Bytes)
      → (Bytes → Option Bytes)
      → (List RecData → List RecData)
      → ℕ
      → ℕ
      → Bytes
      → Viewer D
      → Option (Viewer D × Bool)
  load_signal uncompress content sort packet_sz cycle_save_ms k w = elim (lookup k w.signal_ref) [
    | none ↦ some (w, false)
    | some sd ↦ elim (load_files uncompress content packet_sz k w.file_ref sd.buff_data) [
      | none ↦ none
      | some r ↦
          if r.is_new
          then elim (finish packet_sz cycle_save_ms (sort r.buff) sd) [
            | none ↦ none
            | some sd' ↦
                some (record w { file_ref = r.files; signal_ref = insert k sd' w.signal_ref }, r.ok)
          ]
          else some (w, r.ok && non_empty_data sd.buff_data)
    ]
  ]
