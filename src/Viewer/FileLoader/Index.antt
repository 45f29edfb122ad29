-- ===== src/Viewer/FileLoader/Index.antt =====
-- `FileLoader::loadFile` (src/SVViewer/src/file_loader/file_loader.cpp) on what the main window keeps:
-- the signals, modules and groups that a file brings.
use svisual.Prelude.{
  ℕ, zero, suc, ◌+◌, List, [], ◌∷◌, ◌++◌, Bool, true, false, ◌&&◌, Option, none, some,
  if◌then◌else◌, length, ◌-◌, ◌*◌, ◌%◌, ◌^◌, take, drop,
}
use svisual.Prelude.Bytes.{Bytes, codes, starts_with}
use svisual.Prelude.Maps.{Map, lookup, has, insert, adjust}
use svisual.Base.{ModuleData, new_module, SignalData}
use svisual.Viewer.FileLoader.{
  ValueData, GroupData, Viewer, read_blocks, heads, index_entry, skip_head,
}

-- `path.lastIndexOf(p)`
unfoldable pub find_last : Bytes → Bytes → ℕ → Option ℕ
find_last p [] i = if starts_with p [] then some i else none
find_last p (x ∷ s) i = elim (find_last p s (i + 1)) [
  | some j ↦ some j
  | none ↦ if starts_with p (x ∷ s) then some i else none
]

-- The offset of a file from its name, an `int` as it is added to a `uint64_t`. `to_int` is
-- `toInt`, and `local_ms` what `offsetFromUtc` gives, in ms.
unfoldable pub utc_offs_of : (Bytes → Option ℕ) → ℕ → Bytes → ℕ
utc_offs_of to_int local_ms path = elim (find_last (codes "UTC") path 0) [
  | none ↦ 2 ^ 64 - 1
  | some zero ↦ 0
  | some (suc i) ↦ elim (to_int (drop (suc i + 3) (take (length path - 4) path))) [
    | none ↦ local_ms
    | some n ↦ (n * 3600000 + 2 ^ 64 - local_ms) % 2 ^ 64
  ]
]

abbrev pub new_group : Bytes → GroupData
new_group g = record { is_active = false; group = g; signls = [] }

-- `new SignalData()`, whose `double`s are 0.
abbrev pub blank_signal : {D : Type 0} → D → SignalData D
blank_signal zero_d = record {
  id = 0;
  is_active = false;
  is_delete = false;
  is_buff_enable = false;
  name = [];
  module_name = [];
  group = [];
  comment = [];
  type = 0;
  last_data = record { begin_time = 0; vals = [] };
  buff_data = [];
  buff_begin_pos = 0;
  buff_value_pos = 0;
  buff_min_time = 9223372036854775807;
  buff_max_time = 0;
  buff_min_value = zero_d;
  buff_max_value = zero_d;
}

abbrev pub listing_module : Bytes → Bytes → Map ModuleData → Map ModuleData
listing_module m sign ms =
    let md : ModuleData = elim (lookup m ms) [
      | none ↦ record (new_module m) { is_active = true }
      | some md ↦ md
    ] in
    insert m (record md { signls = md.signls ++ (sign ∷ []) }) ms

abbrev pub listing_group : Bytes → Bytes → Map GroupData → Map GroupData
listing_group g sign gs =
    let gd : GroupData = elim (lookup g gs) [
      | none ↦ record (new_group g) { is_active = true }
      | some gd ↦ gd
    ] in
    insert g (record gd { signls = gd.signls ++ (sign ∷ []) }) gs

abbrev pub non_empty : Bytes → Bytes → Bytes
non_empty [] new = new
non_empty (b ∷ old) new = b ∷ old

module _ {D : Type 0} (zero_d : D) where
  -- A signal that is not known yet.
  unfoldable pub add_new : ValueData → Viewer D → Viewer D
  add_new vr w =
      let sign = vr.name ++ vr.module_name in
      let sd : SignalData D = record (blank_signal zero_d) {
        name = vr.name;
        module_name = vr.module_name;
        group = vr.comment;
        comment = vr.comment;
        type = vr.type;
        is_active = true;
      } in
      record w {
        module_ref = listing_module vr.module_name sign w.module_ref;
        group_ref = listing_group vr.group sign w.group_ref;
        signal_ref = insert sign sd w.signal_ref;
      }

  -- A signal that is known, and not active yet: it, its module and its group become so. `none` is a
  -- module or a group that is not there.
  unfoldable pub activate : ValueData → SignalData D → Viewer D → Option (Viewer D)
  activate vr sd w =
      if has vr.module_name w.module_ref && has sd.group w.group_ref
      then some (record w {
        module_ref = adjust vr.module_name (λ md. record md { is_active = true }) w.module_ref;
        group_ref = adjust sd.group (λ gd. record gd { is_active = true }) w.group_ref;
        signal_ref =
            adjust (vr.name ++ vr.module_name) (λ s. record s { is_active = true; type = vr.type })
              w.signal_ref;
      })
      else none

  -- The group and the comment of a signal that has none.
  abbrev pub described : ValueData → Viewer D → Viewer D
  described vr w = record w {
    signal_ref =
        adjust (vr.name ++ vr.module_name)
          (λ s. record s {
            group = non_empty s.group vr.group;
            comment = non_empty s.comment vr.comment;
          })
          w.signal_ref;
  }

  abbrev pub known_entry : ValueData → SignalData D → Viewer D → Option (Viewer D)
  known_entry vr sd w =
      if sd.is_active
      then some (described vr w)
      else elim (activate vr sd w) [ none ↦ none | some w' ↦ some (described vr w') ]

  -- The body of the loop over a block, without the index of the file.
  unfoldable pub load_entry : ValueData → Viewer D → Option (Viewer D)
  load_entry vr w = elim (lookup (vr.name ++ vr.module_name) w.signal_ref) [
    | none ↦ some (add_new vr w)
    | some sd ↦ known_entry vr sd w
  ]

  -- Its index.
  abbrev pub indexed : Bytes → ℕ → ℕ → ValueData → Viewer D → Viewer D
  indexed path patch pos vr w = record w {
    file_ref =
        adjust path (λ f. record f { signls = index_entry patch pos vr f.signls }) w.file_ref;
  }

  unfoldable pub load_heads : Bytes → ℕ → List (ℕ × ValueData) → Viewer D → Option (Viewer D)
  load_heads path patch [] w = some w
  load_heads path patch ((pos, vr) ∷ vs) w = elim (load_entry vr (indexed path patch pos vr w)) [
    | none ↦ none
    | some w' ↦ load_heads path patch vs w'
  ]

  unfoldable pub load_blocks : ℕ → Bytes → ℕ → List Bytes → Viewer D → Option (Viewer D)
  load_blocks packet_sz path patch [] w = some w
  load_blocks packet_sz path patch (b ∷ bs) w = elim (heads (suc (length b)) packet_sz b 0) [
    | none ↦ none
    | some vs ↦ elim (load_heads path patch vs w) [
      | none ↦ none
      | some w' ↦ load_blocks packet_sz path (suc patch) bs w'
    ]
  ]

  -- `loadFile`. `content` is what opening the file gives, and `fits` whether the parameters in the
  -- head line are those of the configuration, or there are none.
  unfoldable pub load_file :
      (Bytes → ℕ → Option Bytes)
      → ℕ
      → Bytes
      → ℕ
      → Option Bytes
      → Bool
      → Viewer D
      → Option (Viewer D × Bool)
  load_file uncompress packet_sz path utc content fits w =
      let w1 : Viewer D = record w {
        file_ref = insert path (record { utc_offs_ms = utc; signls = [] }) w.file_ref;
      } in
      if has path w.file_ref then some (w, true) else elim content [
        | none ↦ some (w, false)
        | some s ↦
            if fits
            then elim (read_blocks uncompress (suc (length (skip_head s))) (skip_head s)) [
              | none ↦ none
              | some (bs, ok) ↦ elim (load_blocks packet_sz path 0 bs w1) [
                | none ↦ none
                | some w2 ↦ some (w2, ok)
              ]
            ]
            else some (w1, false)
      ]
