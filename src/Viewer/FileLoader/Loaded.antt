-- ===== src/Viewer/FileLoader/Loaded.antt =====
-- What `FileLoader` (src/SVViewer/src/file_loader/file_loader.cpp) has after a file was loaded: the
-- loops end, nothing is read that is not there, and the index of the file is the one of its blocks.
use svisual.Prelude.{
  ℕ, zero, suc, ◌+◌, ◌-◌, ◌^◌, ◌<◌, ◌≡◌, refl, ap, subst, ◌∙◌, inl, inr, List, [], ◌∷◌, ◌++◌, true,
  false, Option, none, some, length, drop, All, arith, Option-cases,
}
use svisual.Prelude.Bytes.{Bytes, codes, decode32, str_eq_refl}
use svisual.Prelude.Maps.{
  Map, lookup, has, insert, lookup-insert_self, lookup-adjust, All-insert, All-adjust, lookup-All,
}
use svisual.Base.{RecData}
use svisual.Viewer.FileLoader.{
  ValueData, Fsd, FileData, Viewer, read_blocks, heads, index_entry, index_heads, index_blocks,
  skip_head,
}
use svisual.Viewer.FileLoader.Index.{
  add_new, described, load_entry, indexed, load_heads, load_blocks, load_file, find_last,
  utc_offs_of,
}
use svisual.Viewer.FileLoader.Blocks.{shifted}
use svisual.Viewer.FileLoader.Signal.{read_on}

-- Where every block can be uncompressed, both loops read the same.
pub read_on-eq-read_blocks :
    (uncompress : Bytes → ℕ → Option Bytes) (fuel : ℕ) (s : Bytes) {bs : List Bytes}
    → read_blocks uncompress fuel s ≡ some (bs, true)
    → read_on uncompress fuel s ≡ some (bs, true)
unfolding read_blocks read_on
read_on-eq-read_blocks uncompress zero s h = cc
read_on-eq-read_blocks uncompress (suc fuel) [] h = h
read_on-eq-read_blocks uncompress (suc fuel) (x ∷ s) h =
    let rest = drop (8 + decode32 (x ∷ s)) (x ∷ s) in
    elim (Option-cases (read_blocks uncompress fuel rest)) [
      | inl out ↦ absurd (ground arith)
      | inr ((cs, ok), e) ↦
          let all_ok : ok ≡ true = ground arith in
          ground (
            arith,
            read_on-eq-read_blocks uncompress fuel rest {bs = cs}
                (e ∙ ap (λ b. some (cs, b)) all_ok),
          )
    ]

-- Every signal that the window knows is active, as after loading files only.
abbrev pub AllActive : {D : Type 0} → Viewer D → Type 0
AllActive w = All (λ e. (e.1).is_active ≡ true) w.signal_ref

module _ {D : Type 0} (zero_d : D) where
  -- An entry of a block changes nothing of the files, and with active signals it never fails.
  load_entry_lem :
      (vr : ValueData) (w : Viewer D)
      → AllActive w
      → (w' : Viewer D) × (load_entry zero_d vr w ≡ some w')
        × (w'.file_ref ≡ w.file_ref)
        × AllActive w'
  unfolding load_entry add_new
  load_entry_lem vr w act = elim (Option-cases (lookup (vr.name ++ vr.module_name) w.signal_ref)) [
    | inl fresh ↦ (
      add_new zero_d vr w,
      rw (load_entry, fresh) refl,
      refl,
      All-insert (λ e. (e.1).is_active ≡ true) (vr.name ++ vr.module_name) _ w.signal_ref refl act,
    )
    | inr (sd, known) ↦
        let on : sd.is_active ≡ true =
          lookup-All (λ _ s. s.is_active ≡ true) (vr.name ++ vr.module_name) w.signal_ref act
            known in
        (
          described zero_d vr w,
          rw (load_entry, known, on) refl,
          refl,
          All-adjust (λ s. s.is_active ≡ true) (vr.name ++ vr.module_name) _ w.signal_ref act
              (λ s e.
                lookup-All (λ _ t. t.is_active ≡ true) (vr.name ++ vr.module_name) w.signal_ref act
                  e),
        )
  ]

  -- The window after some of a file was loaded: no fault, and the file has this index.
  Indexed : Bytes → ℕ → Map Fsd → Viewer D → Type 0
  Indexed path utc m w =
      (lookup path w.file_ref ≡ some (record { utc_offs_ms = utc; signls = m })) × AllActive w

  indexed-Indexed :
      (path : Bytes) (utc patch pos : ℕ) (vr : ValueData) (m : Map Fsd) (w : Viewer D)
      → Indexed path utc m w
      → Indexed path utc (index_entry patch pos vr m) (indexed zero_d path patch pos vr w)
  unfolding Indexed
  indexed-Indexed path utc patch pos vr m w (at, act) = (
    lookup-adjust path path (λ f. record f { signls = index_entry patch pos vr f.signls })
          w.file_ref
        ∙ rw (str_eq_refl path, at) refl,
    act,
  )

  load_heads-Indexed :
      (path : Bytes) (utc patch : ℕ) (vs : List (ℕ × ValueData)) (m : Map Fsd) (w : Viewer D)
      → Indexed path utc m w
      → (w' : Viewer D) × (load_heads zero_d path patch vs w ≡ some w')
        × Indexed path utc (index_heads patch vs m) w'
  unfolding load_heads index_heads Indexed
  load_heads-Indexed path utc patch [] m w h = (w, refl, h)
  load_heads-Indexed path utc patch ((pos, vr) ∷ vs) m w h =
      let (at, act) = indexed-Indexed path utc patch pos vr m w h in
      let (w1, e, same, act1) = load_entry_lem vr (indexed zero_d path patch pos vr w) act in
      let (w2, e2, h2) =
        load_heads-Indexed path utc patch vs (index_entry patch pos vr m) w1
          (ap (lookup path) same ∙ at, act1) in
      (w2, rw (load_heads, e, e2) refl, h2)

  load_blocks-Indexed :
      (packet_sz : ℕ) (path : Bytes) (utc : ℕ) (bs : List Bytes) (patch : ℕ) (m : Map Fsd)
      (w : Viewer D) {ix : Map Fsd}
      → index_blocks packet_sz patch bs m ≡ some ix
      → Indexed path utc m w
      → (w' : Viewer D) × (load_blocks zero_d packet_sz path patch bs w ≡ some w')
        × Indexed path utc ix w'
  unfolding load_blocks index_blocks
  load_blocks-Indexed packet_sz path utc [] patch m w {ix} e h =
      (w, refl, subst (λ i. Indexed path utc i w) (ground arith) h)
  load_blocks-Indexed packet_sz path utc (b ∷ bs) patch m w {ix} e h =
      elim (Option-cases (heads (suc (length b)) packet_sz b 0)) [
        | inl cut ↦ absurd (ground arith)
        | inr (vs, found) ↦
            let (w1, e1, h1) = load_heads-Indexed path utc patch vs m w h in
            let (w2, e2, h2) =
              load_blocks-Indexed packet_sz path utc bs (suc patch) (index_heads patch vs m) w1
                {ix = ix} (ground arith) h1 in
            (w2, rw (load_blocks, found, e1, e2) refl, h2)
      ]

  -- A file that can be taken apart is loaded without a fault, and its index is that of its blocks.
  pub load_file_lem :
      (uncompress : Bytes → ℕ → Option Bytes) (packet_sz : ℕ) (path s : Bytes) (utc : ℕ)
      (w : Viewer D) {bs : List Bytes} {ix : Map Fsd}
      → has path w.file_ref ≡ false
      → AllActive w
      → read_blocks uncompress (suc (length (skip_head s))) (skip_head s) ≡ some (bs, true)
      → index_blocks packet_sz 0 bs [] ≡ some ix
      → (w' : Viewer D) × (load_file zero_d uncompress packet_sz path utc (some s) true w
          ≡ some (w', true))
        × (lookup path w'.file_ref ≡ some (record { utc_offs_ms = utc; signls = ix }))
        × AllActive w'
  unfolding load_file Indexed
  load_file_lem uncompress packet_sz path s utc w {bs} {ix} fresh act apart indexes =
      let fd : FileData = record { utc_offs_ms = utc; signls = [] } in
      let w1 : Viewer D = record w { file_ref = insert path fd w.file_ref } in
      let (w2, e, h) =
        load_blocks-Indexed packet_sz path utc bs 0 [] w1 {ix = ix} indexes
          (lookup-insert_self path fd w.file_ref, act) in
      (w2, rw (load_file, fresh, apart, e) refl, h.0, h.1)

-- The records of a file whose name has no "UTC" in it are read with times one millisecond too
-- early.
pub utc_offs_of-shifted :
    (to_int : Bytes → Option ℕ) (local_ms : ℕ) (path : Bytes) (rd : RecData)
    → find_last (codes "UTC") path 0 ≡ none
    → 0 < rd.begin_time
    → rd.begin_time < 2 ^ 64
    → (shifted (utc_offs_of to_int local_ms path) rd).begin_time ≡ rd.begin_time - 1
unfolding utc_offs_of
utc_offs_of-shifted to_int local_ms path rd no_utc pos word = rw (utc_offs_of, no_utc) (omega arith)
