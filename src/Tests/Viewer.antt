-- ===== src/Tests/Viewer.antt =====
-- A file with two saves of one signal, by a library that packs nothing.
use svisual.Prelude.{
  ℕ, ◌≡◌, refl, ◌+◌, ◌*◌, ◌++◌, ◌∷◌, List, [], true, Option, none, some, arith, length, ◌≤◌, All,
}
use svisual.Prelude.Bytes.{Bytes, codes, str_eq}
use svisual.Prelude.Maps.{lookup, has}
use svisual.Base.{RecData}
use svisual.Server.Archive.File.{Saved, save_loop, head_line}
use svisual.Server.Archive.Blocks.{
  somes, entries_bytes, joined, file_bytes, IsBatch, save_loop_lem, length-entries_bytes,
}
use svisual.Viewer.FileLoader.{FileData, Viewer}
use svisual.Viewer.FileLoader.Index.{load_file}
use svisual.Viewer.FileLoader.Blocks.{IsSaved}
use svisual.Viewer.FileLoader.Places.{kept}
use svisual.Viewer.FileLoader.RoundTrip.{saves, all_somes}
use svisual.Viewer.FileLoader.Signal.{Loaded, load_files}
use svisual.Viewer.FileLoader.Whole.{Zlib, saves-load_files}

abbrev store : Zlib
store = record {
  compress = λ b. some b;
  uncompress = λ b n. some b;
  packed = λ b. b;
  works = λ b. refl;
  bound = λ b. omega arith;
  back = λ b. refl;
}

abbrev temp : List RecData → Saved
temp rds = record {
  name = codes "temp";
  module_name = codes "hall";
  group = codes "air";
  comment = [];
  type = 1;
  recs = rds;
}

abbrev rec_of : ℕ → ℕ → RecData
rec_of t v = record { begin_time = t; vals = v ∷ [] }

abbrev two_saves : List (List (Option Saved))
two_saves =
    (none ∷ some (temp (rec_of 1000 7 ∷ rec_of 1100 8 ∷ [])) ∷ [])
    ∷ (some (temp (rec_of 1200 9 ∷ [])) ∷ [])
    ∷ []

abbrev show_zero : ℕ → Bytes
show_zero n = codes "0"

abbrev key : Bytes
key = codes "temphall"

abbrev empty_viewer : Viewer ℕ
empty_viewer = record { file_ref = []; signal_ref = []; module_ref = []; group_ref = [] }

abbrev file : Bytes
file = head_line show_zero 1 100 ++ saves store.compress 1 two_saves

two_recs-IsSaved : IsSaved 1 (temp (rec_of 1000 7 ∷ rec_of 1100 8 ∷ []))
two_recs-IsSaved = record {
  name_fits = omega arith;
  module_fits = omega arith;
  group_fits = omega arith;
  comment_fits = omega arith;
  type_fits = omega arith;
  few = omega arith;
  records = omega arith;
}

one_rec-IsSaved : IsSaved 1 (temp (rec_of 1200 9 ∷ []))
one_rec-IsSaved = record {
  name_fits = omega arith;
  module_fits = omega arith;
  group_fits = omega arith;
  comment_fits = omega arith;
  type_fits = omega arith;
  few = omega arith;
  records = omega arith;
}

saves-load_files_example :
    (w' : Viewer ℕ) × (fd : FileData) × (r : Loaded) × (load_file 0 store.uncompress 1
        (codes "f.dat")
        5
        (some file)
        true
        empty_viewer
      ≡ some (w', true))
    × (lookup (codes "f.dat") w'.file_ref ≡ some fd)
    × (load_files store.uncompress (λ _. some file) 1 key ((codes "f.dat", fd) ∷ []) [] ≡ some r)
    × (r.buff ≡ kept 5 key (all_somes two_saves))
    × (r.ok ≡ true)
unfolding all_somes somes has lookup
saves-load_files_example =
    saves-load_files store show_zero 1 2 100 5 (codes "f.dat") key two_saves 0 empty_viewer
      (λ n. (omega arith, ground arith)) (omega arith) (two_recs-IsSaved, (one_rec-IsSaved, tt))
      (omega arith) refl tt (λ _. some file) refl

kept_records : kept 5 key (all_somes two_saves) ≡ rec_of 1005 7 ∷ rec_of 1105 8 ∷ rec_of 1205 9 ∷ []
unfolding kept all_somes somes str_eq
kept_records = refl

save_loop_lem_example :
    (bs : List (List Saved)) × (save_loop store.compress 1 1 (some (temp []) ∷ none ∷ []) 0 []
      ≡ (file_bytes (λ b. b) 1 bs, true))
    × (joined bs ≡ somes (some (temp []) ∷ none ∷ []))
    × All (IsBatch 1) bs
save_loop_lem_example =
    save_loop_lem store.compress (λ b. b) 1 1 (some (temp []) ∷ none ∷ []) (λ b. refl) (omega arith)

length-entries_bytes_example :
    length (entries_bytes 1 (temp (rec_of 1200 9 ∷ []) ∷ [])) ≤ (8 + 4 * 1) * 2 * 1 + 128 * 1
length-entries_bytes_example =
    length-entries_bytes 1 2 1 (temp (rec_of 1200 9 ∷ []) ∷ []) (omega arith) (omega arith)
