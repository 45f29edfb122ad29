-- ===== src/Tests/Archive.antt =====
-- The archive with one signal, whose places in the active half are all but full.
use svisual.Prelude.{
  ℕ, ◌≡◌, refl, ◌++◌, ◌∷◌, [], Bool, true, false, none, some, inl, inr, arith, replicate,
  if◌then◌else◌,
}
use svisual.Prelude.Bytes.{Bytes, codes, str_eq}
use svisual.Prelude.Maps.{lookup, has}
use svisual.Base.{RecData}
use svisual.Server.Config.{default_config}
use svisual.Server.Archive.{
  all_written, broken, entries, Slot, Half, Archive, copy_to_disk, add_value,
}
use svisual.Server.Archive.Disk.{history}
use svisual.Server.Archive.Valid.{IsValid, CanSwap}
use svisual.Server.Archive.History.{add_value_lem}
use svisual.Server.Archive.Failure.{add_value_after_failure}

abbrev at_time : ℕ → RecData
at_time t = record { begin_time = t; vals = 4 ∷ 5 ∷ [] }

abbrev sign : Bytes
sign = codes "heathouse"

abbrev slot_at : ℕ → Slot
slot_at n = record { pos = n; recs = replicate 3 (at_time 7) }

abbrev half_at : ℕ → Half
half_at n = (sign, slot_at n) ∷ []

abbrev archive_at : ℕ → ℕ → Archive
archive_at n m = record {
  cng = record default_config { out_archive_ena = true; packet_sz = 2 };
  copy_sz = 3;
  archive_index = false;
  active = half_at n;
  other = half_at m;
  saving = true;
  disk = [];
}

abbrev all_known : Bytes → Bool
all_known k = true

archive-IsValid : IsValid all_known (archive_at 2 3)
unfolding has lookup
archive-IsValid = record {
  positive = omega arith;
  active_half = record { distinct = (refl, tt); registered = (refl, tt); fits = omega arith };
  other_half = record { distinct = (refl, tt); registered = (refl, tt); fits = omega arith };
  room = omega arith;
  same = λ k. ground arith;
  saved = inl refl;
}

archive-CanSwap : CanSwap all_known (archive_at 3 2)
unfolding has lookup
archive-CanSwap = record {
  positive = omega arith;
  active_half = record { distinct = (refl, tt); registered = (refl, tt); fits = omega arith };
  other_half = record { distinct = (refl, tt); registered = (refl, tt); fits = omega arith };
  same = λ k. ground arith;
  saved = inl refl;
}

add_value_lem_example :
    (b : Archive) × (add_value all_known all_written sign (at_time 9) (archive_at 2 3) ≡ some b)
    × IsValid all_known b
    × ((k : Bytes)
        → history k b
          ≡ history k (archive_at 2 3) ++ (if str_eq sign k then at_time 9 ∷ [] else []))
unfolding has lookup str_eq
add_value_lem_example =
    add_value_lem all_known all_written sign (at_time 9) (archive_at 2 3) archive-IsValid
      (refl, refl) refl

add_value_after_failure_example :
    add_value all_known all_written sign
      (at_time 9)
      (copy_to_disk all_known (broken 0) (archive_at 3 3))
    ≡ none
unfolding lookup str_eq entries
add_value_after_failure_example =
    add_value_after_failure all_known (broken 0) all_written sign (at_time 9) (archive_at 3 3)
      (slot_at 3) refl (inr (0, refl, omega arith)) refl (omega arith)
