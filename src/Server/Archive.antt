-- ===== src/Server/Archive.antt =====
-- `Archive` (src/SVServer/src/archive.h, archive.cpp): two halves that collect the values of each
-- signal. When a signal's place in the active half is full, or the hour changes, the halves change
-- roles and a thread writes the other one to the disk; the next change waits for that thread first.
-- `m_archiveData[m_archiveIndex]` with `m_valPos[m_archiveIndex]` is `active`, and both maps of a half
-- are one, since they have the same keys. What is written is kept as a log, in place of the
-- compressed file. `known` is whether `SV_Srv::getSignalData` finds the key, and `ok` how the
-- writing of the file goes. The ClickHouse writer is compiled only on demand and left out.
pub mod Disk
pub mod File
pub mod Blocks
pub mod Valid
pub mod History
pub mod Failure
use svisual.Prelude.{
  ℕ, zero, suc, ◌+◌, ◌*◌, ◌/◌, max, List, [], ◌∷◌, ◌++◌, Bool, true, false, not, ◌&&◌, Option, none,
  some, if◌then◌else◌, ltb, ◌==◌, length, set, take, replicate,
}
use svisual.Prelude.Bytes.{Bytes}
use svisual.Prelude.Maps.{Map, lookup, has, insert, adjust, map_values}
use svisual.Base.{RecData}
use svisual.Server.Config.{Config, cycle_save_ms}

-- How the writing of a file goes: it cannot be opened; `compressData` fails on a block, when the
-- blocks of that many signals have been written; or all is written.
pub data FileResult : Type 0 where
  no_file all_written : FileResult
  broken : ℕ → FileResult

-- The places of one signal in a half, and how many are taken (`m_valPos`).
pub record Slot : Type 0 where
  pub pos : ℕ
  pub recs : List RecData

abbrev pub Half : Type 0
Half = Map Slot

pub record Archive : Type 0 where
  pub cng : Config
  pub copy_sz : ℕ
  pub archive_index : Bool
  pub active : Half
  pub other : Half
  -- A thread was started for the other half, and has not been waited for.
  pub saving : Bool
  pub disk : List (Bytes × List RecData)

-- `Archive::init`; the cycle of the configuration is not 0.
unfoldable pub init : Config → Archive
init c = record {
  cng = c;
  copy_sz = max 10 (600000 / cycle_save_ms c);
  archive_index = false;
  active = [];
  other = [];
  saving = false;
  disk = [];
}

-- `Archive::setConfig`
unfoldable pub set_config : Config → Archive → Archive
set_config c a = record a {
  cng = record (a.cng) {
    out_archive_path = c.out_archive_path;
    out_archive_name = c.out_archive_name;
    out_archive_hour_cnt = c.out_archive_hour_cnt;
  };
}

-- The places of a new signal.
abbrev pub new_slot : Archive → Slot
new_slot a = record {
  pos = 0;
  recs = replicate a.copy_sz (record { begin_time = 0; vals = replicate a.cng.packet_sz 0 });
}

-- `m_archiveData[0]` and `[1]`.
abbrev pub first_half : Archive → Half
first_half a = if a.archive_index then a.other else a.active

abbrev pub second_half : Archive → Half
second_half a = if a.archive_index then a.active else a.other

-- `Archive::addSignal`: the loop over the halves ends where the signal is there.
unfoldable pub add_signal : Bytes → Bytes → Archive → Archive
add_signal name module_name a =
    let sign = name ++ module_name in
    let in_first = insert sign (new_slot a) (first_half a) in
    let in_second =
      if has sign (second_half a)
      then second_half a
      else insert sign (new_slot a) (second_half a) in
    if has sign (first_half a)
    then a
    else if a.archive_index
    then record a { other = in_first; active = in_second }
    else record a { active = in_first; other = in_second }

-- The loop over the keys in `copyToDiskImpl`: what is written of each signal.
unfoldable pub entries : (Bytes → Bool) → Half → List (Bytes × List RecData)
entries known [] = []
entries known ((k, s) ∷ h) =
    let rest = entries known h in
    if known k && ltb 0 s.pos then (k, take s.pos s.recs) ∷ rest else rest

-- The last loop of `copyToDiskImpl`.
abbrev pub reset : Half → Half
reset = map_values λ s. record s { pos = 0 }

-- What a loop over the keys that has `es` to write leaves: what is written, and the half. A failure
-- behind all signals is none, since the last signal ends the last block.
abbrev pub file_loop :
    FileResult → List (Bytes × List RecData) → Half → List (Bytes × List RecData) × Half
file_loop no_file es h = ([], h)
file_loop all_written es h = (es, reset h)
file_loop (broken n) es h = if ltb n (length es) then (take n es, h) else (es, reset h)

-- `copyToDiskImpl`: what it writes, and the half after it. It returns early on an empty half, where
-- the file cannot be opened, and where a block cannot be compressed.
unfoldable pub copy_to_disk_impl :
    (Bytes → Bool) → FileResult → Config → Half → List (Bytes × List RecData) × Half
copy_to_disk_impl known ok c [] = ([], [])
copy_to_disk_impl known ok c (e ∷ h) =
    if c.out_archive_ena then file_loop ok (entries known (e ∷ h)) (e ∷ h) else ([], reset (e ∷ h))

-- `m_saveThread->join()`
unfoldable pub join : (Bytes → Bool) → FileResult → Archive → Archive
join known ok a =
    let (w, h) = copy_to_disk_impl known ok a.cng a.other in
    if a.saving then record a { saving = false; other = h; disk = a.disk ++ w } else a

-- `copyToDisk(false)`
unfoldable pub copy_to_disk : (Bytes → Bool) → FileResult → Archive → Archive
copy_to_disk known ok a =
    let a' = join known ok a in
    record a' {
      saving = true;
      archive_index = not a'.archive_index;
      active = a'.other;
      other = a'.active;
    }

-- `copyToDisk(true)`
unfoldable pub copy_to_disk_stop : (Bytes → Bool) → FileResult → Archive → Archive
copy_to_disk_stop known ok a =
    let a' = join known ok a in
    let (w, h) = copy_to_disk_impl known ok a'.cng a'.active in
    record a' { active = h; disk = a'.disk ++ w }

-- One more value in its place.
abbrev pub put : RecData → Slot → Slot
put rd s = record { pos = s.pos + 1; recs = set s.recs s.pos rd }

-- `Archive::addValue`. `none` is a write outside of the signal's places.
unfoldable pub add_value : (Bytes → Bool) → FileResult → Bytes → RecData → Archive → Option Archive
add_value known ok sign rd a =
    let a' : Archive = record a { active = adjust sign (put rd) a.active } in
    elim (lookup sign a.active) [
      | none ↦ none
      | some s ↦
          if ltb s.pos (length s.recs)
          then some (if s.pos + 1 == a.copy_sz then copy_to_disk known ok a' else a')
          else none
    ]
