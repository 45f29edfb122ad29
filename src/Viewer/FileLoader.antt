-- ===== src/Viewer/FileLoader.antt =====
-- `FileLoader` (src/SVViewer/src/file_loader/file_loader.cpp): the files of the archive read back.
-- `uncompress` stands for zlib's: from the bytes and the room there is, the text or an error. Of a file
-- that ends inside of a block it is given what there is. `none` is a place outside of an array, or a
-- null pointer, that is used.
pub mod Index
pub mod Blocks
pub mod Places
pub mod Gather
pub mod RoundTrip
pub mod Signal
pub mod Loaded
pub mod Counts
pub mod Whole
use svisual.Prelude.{
  ℕ, zero, suc, ◌+◌, ◌-◌, ◌*◌, ◌%◌, ◌^◌, List, [], ◌∷◌, ◌++◌, Bool, true, false, not, ◌&&◌, ◌||◌,
  Option, none, some, if◌then◌else◌, ltb, leb, ◌==◌, length, take, drop, map,
}
use svisual.Prelude.Bytes.{
  Bytes, codes, c_str, decode32, decode64, decode_words, find_at, starts_with,
}
use svisual.Prelude.Maps.{Map, lookup, has, insert, adjust}
use svisual.Base.{name_sz, comment_sz, RecData, ModuleData, new_module, SignalData}

-- `struct ValueData` (src/SVViewer/src/structurs.h)
pub record ValueData : Type 0 where
  pub name : Bytes
  pub module_name : Bytes
  pub group : Bytes
  pub comment : Bytes
  pub type : ℕ
  pub vl_cnt : ℕ

-- `sizeof(ValueData)`
abbrev pub v_head_sz : ℕ
v_head_sz = 128

-- `sizeof(uint64_t) + sizeof(Value) * SV_PACKETSZ`
abbrev pub val_sz : ℕ → ℕ
val_sz packet_sz = 8 + 4 * packet_sz

-- `memcpy(&vr, ..., sizeof(ValueData))`
unfoldable pub value_data : Bytes → ValueData
value_data s = record {
  name = c_str (take name_sz s);
  module_name = c_str (take name_sz (drop 24 s));
  group = c_str (take name_sz (drop 48 s));
  comment = c_str (take comment_sz (drop 72 s));
  type = decode32 (drop 120 s);
  vl_cnt = decode32 (drop 124 s);
}

-- The `while (!dataStream.atEnd())` loop, on fuel: the uncompressed blocks up to the first that
-- cannot be, and whether there is none such. `none` means that the fuel ran out.
unfoldable pub read_blocks : (Bytes → ℕ → Option Bytes) → ℕ → Bytes → Option (List Bytes × Bool)
read_blocks uncompress zero s = none
read_blocks uncompress (suc fuel) [] = some ([], true)
read_blocks uncompress (suc fuel) (x ∷ s) =
    let compr_sz = decode32 (x ∷ s) in
    let data_sz = decode32 (drop 4 (x ∷ s)) in
    let rest = read_blocks uncompress fuel (drop (8 + compr_sz) (x ∷ s)) in
    elim (uncompress (take compr_sz (drop 8 (x ∷ s))) data_sz) [
      | none ↦ some ([], false)
      | some text ↦ elim rest [ none ↦ none | some (bs, ok) ↦ some (text ∷ bs, ok) ]
    ]

-- The loop over a block in `loadFile`, on fuel: the heads and where they stand. `none` is a head
-- that is not all inside of the block, or no fuel.
unfoldable pub heads : ℕ → ℕ → Bytes → ℕ → Option (List (ℕ × ValueData))
heads zero packet_sz text it = none
heads (suc fuel) packet_sz text it =
    let vr = value_data (drop it text) in
    let rest = heads fuel packet_sz text (it + v_head_sz + vr.vl_cnt * val_sz packet_sz) in
    if ltb it (length text)
    then if leb (it + v_head_sz) (length text)
      then elim rest [ none ↦ none | some vs ↦ some ((it, vr) ∷ vs) ]
      else none
    else some []

-- `FileData::fsd`, `FileData`. The offset is the `int` as it is added to a `uint64_t`.
pub record Fsd : Type 0 where
  pub is_load : Bool
  pub vls_cnt : ℕ
  pub patch_apos : List (ℕ × ℕ)

pub record FileData : Type 0 where
  pub utc_offs_ms : ℕ
  pub signls : Map Fsd

-- `GroupData`
pub record GroupData : Type 0 where
  pub is_active : Bool
  pub group : Bytes
  pub signls : List Bytes

-- What the loader uses of the main window.
pub record Viewer (D : Type 0) : Type 0 where
  pub file_ref : Map FileData
  pub signal_ref : Map (SignalData D)
  pub module_ref : Map ModuleData
  pub group_ref : Map GroupData

abbrev pub new_fsd : Fsd
new_fsd = record { is_load = false; vls_cnt = 0; patch_apos = [] }

-- The entry of a signal in the index of its file, with one more place.
abbrev pub with_patch : ℕ → ℕ → ℕ → Option Fsd → Fsd
with_patch patch pos cnt none = record {
  is_load = false;
  vls_cnt = cnt;
  patch_apos = (patch, pos) ∷ [];
}
with_patch patch pos cnt (some f) = record f {
  vls_cnt = f.vls_cnt + cnt;
  patch_apos = f.patch_apos ++ ((patch, pos) ∷ []);
}

unfoldable pub index_entry : ℕ → ℕ → ValueData → Map Fsd → Map Fsd
index_entry patch pos vr m =
    let sign = vr.name ++ vr.module_name in
    insert sign (with_patch patch pos vr.vl_cnt (lookup sign m)) m

-- The index that a file gets from its blocks, the first of which has number `patch`.
unfoldable pub index_heads : ℕ → List (ℕ × ValueData) → Map Fsd → Map Fsd
index_heads patch [] m = m
index_heads patch ((pos, vr) ∷ vs) m = index_heads patch vs (index_entry patch pos vr m)

unfoldable pub index_blocks : ℕ → ℕ → List Bytes → Map Fsd → Option (Map Fsd)
index_blocks packet_sz patch [] m = some m
index_blocks packet_sz patch (b ∷ bs) m = elim (heads (suc (length b)) packet_sz b 0) [
  | none ↦ none
  | some vs ↦ index_blocks packet_sz (suc patch) bs (index_heads patch vs m)
]

-- One record of a block.
unfoldable pub rec_at : ℕ → ℕ → Bytes → RecData
rec_at packet_sz utc s = record {
  begin_time = (decode64 s + utc) % 2 ^ 64;
  vals = decode_words packet_sz (drop 8 s);
}

-- The loop over `j` in `loadSignalData`.
unfoldable pub recs_at : ℕ → ℕ → ℕ → Bytes → List RecData
recs_at packet_sz utc zero s = []
recs_at packet_sz utc (suc n) s =
    rec_at packet_sz utc s ∷ recs_at packet_sz utc n (drop (val_sz packet_sz) s)

-- The loop over `i` in a block with number `patch`, from the places that are left; `posMem` is the
-- front of `start`. What it reads, and the places that are left for the next block; `none` is a read
-- behind the block.
unfoldable pub take_patches :
    ℕ → ℕ → ℕ → Bytes → List (ℕ × ℕ) → List (ℕ × ℕ) → Option (List RecData × List (ℕ × ℕ))
take_patches packet_sz utc patch text start [] = some ([], start)
take_patches packet_sz utc patch text start ((n, offs) ∷ ps) =
    let rest = take_patches packet_sz utc patch text start ps in
    let cnt = (value_data (drop offs text)).vl_cnt in
    let here = recs_at packet_sz utc cnt (drop (offs + v_head_sz) text) in
    if n == patch
    then if leb offs (length text)
      then if leb (offs + v_head_sz + cnt * val_sz packet_sz) (length text)
        then elim rest [ none ↦ none | some (recs, left) ↦ some (here ++ recs, left) ]
        else none
      else some ([], start)
    else some ([], (n, offs) ∷ ps)

-- The loop over the blocks. (A block that cannot be uncompressed is left out, and not counted.)
unfoldable pub gather : ℕ → ℕ → ℕ → List Bytes → List (ℕ × ℕ) → Option (List RecData)
gather packet_sz utc patch [] ps = some []
gather packet_sz utc patch (b ∷ bs) ps = elim (take_patches packet_sz utc patch b ps ps) [
  | none ↦ none
  | some (recs, left) ↦ elim (gather packet_sz utc (suc patch) bs left) [
    | none ↦ none
    | some more ↦ some (recs ++ more)
  ]
]

-- The head line of a file is left out.
unfoldable pub skip_head : Bytes → Bytes
skip_head s = elim (find_at (10 ∷ []) (take 128 s) 0) [
  | none ↦ s
  | some end_of_line ↦ if starts_with (codes "{") s then drop (end_of_line + 1) s else s
]
