-- ===== src/Viewer/FileLoader/RoundTrip.antt =====
-- A file as the archive writes it, save by save (src/SVServer/src/archive.cpp), and as `FileLoader`
-- takes it apart (src/SVViewer/src/file_loader/file_loader.cpp).
use svisual.Prelude.{
  ℕ, zero, suc, ◌+◌, ◌≤◌, ◌<◌, ◌≡◌, ◌≢◌, refl, sym, ap, ap₂, ◌∙◌, List, [], ◌∷◌, ◌++◌, append_assoc,
  map, Bool, true, Option, none, some, length, take, drop, All, All-append, arith, length-append,
  drop-append, drop-append_of_length, take-append_of_length, drop-drop,
}
use svisual.Prelude.Bytes.{
  Bytes, IsWord, codes, encode32, decode32, decode32-encode32, length-encode32, find_at,
  starts_with, starts_with-append,
}
use svisual.Server.Archive.File.{Saved, s_max_cnt, block_bytes, save_loop, head_line}
use svisual.Server.Archive.Blocks.{somes, entries_bytes, joined, file_bytes, IsBatch, save_loop_lem}
use svisual.Viewer.FileLoader.{read_blocks, skip_head}
use svisual.Viewer.FileLoader.Blocks.{drop_past}

-- What is behind the head line of a file after some saves: it is opened to append.
unfoldable pub saves : (Bytes → Option Bytes) → ℕ → List (List (Option Saved)) → Bytes
saves compress packet_sz [] = []
saves compress packet_sz (os ∷ oss) =
    (save_loop compress (s_max_cnt packet_sz) packet_sz os 0 []).0 ++ saves compress packet_sz oss

-- What was saved.
unfoldable pub all_somes : List (List (Option Saved)) → List Saved
all_somes [] = []
all_somes (os ∷ oss) = somes os ++ all_somes oss

read_blocks_step :
    (uncompress : Bytes → ℕ → Option Bytes) (fuel c n : ℕ) (s text : Bytes)
    → 0 < length s
    → decode32 s ≡ c
    → decode32 (drop 4 s) ≡ n
    → uncompress (take c (drop 8 s)) n ≡ some text
    → read_blocks uncompress (suc fuel) s ≡ elim (read_blocks uncompress fuel (drop (8 + c) s)) [
      | none ↦ none
      | some (bs, ok) ↦ some (text ∷ bs, ok)
    ]
unfolding read_blocks
read_blocks_step uncompress fuel c n [] text h ec en e = absurd (omega arith)
read_blocks_step uncompress fuel c n (x ∷ s) text h ec en e = rw (read_blocks, ec, en, e, ec) refl

block_bytes_pos : (c b : Bytes) → 0 < length (block_bytes c b)
unfolding block_bytes
block_bytes_pos c b = omega (
  arith,
  length-append (encode32 (length c)) (encode32 (length b) ++ c),
  length-encode32 (length c),
)

-- Blocks that can be written with two words before them.
abbrev pub FitsBlock : (Bytes → Bytes) → ℕ → List Saved → Type 0
FitsBlock z packet_sz es =
    IsWord (length (entries_bytes packet_sz es)) × IsWord (length (z (entries_bytes packet_sz es)))

module _ (uncompress : Bytes → ℕ → Option Bytes) (z : Bytes → Bytes)
    (back : (b : Bytes) → uncompress (z b) (length b) ≡ some b) where
  read_blocks-block :
      (fuel : ℕ) (b rest : Bytes)
      → IsWord (length b)
      → IsWord (length (z b))
      → read_blocks uncompress (suc fuel) (block_bytes (z b) b ++ rest)
        ≡ elim (read_blocks uncompress fuel rest) [
          | none ↦ none
          | some (bs, ok) ↦ some (b ∷ bs, ok)
        ]
  unfolding block_bytes
  read_blocks-block fuel b rest wb wz =
      let l1 = encode32 (length (z b)) in
      let l2 = encode32 (length b) in
      let flat : (l1 ++ (l2 ++ z b)) ++ rest ≡ l1 ++ (l2 ++ (z b ++ rest)) =
        append_assoc l1 (l2 ++ z b) rest ∙ ap (λ t. l1 ++ t) (append_assoc l2 (z b) rest) in
      let front = length-encode32 (length (z b)) in
      let past4 : drop 4 (l1 ++ (l2 ++ (z b ++ rest))) ≡ l2 ++ (z b ++ rest) =
        drop-append_of_length 4 l1 (l2 ++ (z b ++ rest)) front in
      let past8 : drop 8 (l1 ++ (l2 ++ (z b ++ rest))) ≡ z b ++ rest =
        drop_past 4 4 l1 (l2 ++ (z b ++ rest)) front
        ∙ drop-append_of_length 4 l2 (z b ++ rest) (length-encode32 (length b)) in
      let text : uncompress (take (length (z b)) (drop 8 (l1 ++ (l2 ++ (z b ++ rest))))) (length b)
          ≡ some b =
        ap (λ t. uncompress t (length b))
          (ap (take (length (z b))) past8 ∙ take-append_of_length (length (z b)) (z b) rest refl)
        ∙ back b in
      let past : drop (8 + length (z b)) (l1 ++ (l2 ++ (z b ++ rest))) ≡ rest =
        sym (drop-drop 8 (length (z b)) (l1 ++ (l2 ++ (z b ++ rest))))
        ∙ ap (drop (length (z b))) past8
        ∙ drop-append (z b) rest in
      ap (read_blocks uncompress (suc fuel)) flat
      ∙ read_blocks_step uncompress fuel (length (z b)) (length b) (l1 ++ (l2 ++ (z b ++ rest))) b
          (omega (arith, length-append l1 (l2 ++ (z b ++ rest)), front))
          (decode32-encode32 (length (z b)) (l2 ++ (z b ++ rest)) wz)
          (ap decode32 past4 ∙ decode32-encode32 (length b) (z b ++ rest) wb) text
      ∙ ap
          (λ s. elim (read_blocks uncompress fuel s) as (λ _. Option (List Bytes × Bool)) [
            | none ↦ none
            | some (bs, ok) ↦ some (b ∷ bs, ok)
          ])
          past

  pub read_blocks-file_bytes :
      (packet_sz fuel : ℕ) (bs : List (List Saved))
      → length (file_bytes z packet_sz bs) < fuel
      → All (FitsBlock z packet_sz) bs
      → read_blocks uncompress fuel (file_bytes z packet_sz bs)
        ≡ some (map (entries_bytes packet_sz) bs, true)
  unfolding file_bytes
  read_blocks-file_bytes packet_sz zero bs enough fits = absurd (omega arith)
  read_blocks-file_bytes packet_sz (suc fuel) [] enough fits = unfold read_blocks in refl
  read_blocks-file_bytes packet_sz (suc fuel) (b ∷ bs) enough fits =
      let block = block_bytes (z (entries_bytes packet_sz b)) (entries_bytes packet_sz b) in
      read_blocks-block fuel (entries_bytes packet_sz b) (file_bytes z packet_sz bs) fits.0.0
        fits.0.1
      ∙ rw
          (read_blocks-file_bytes packet_sz fuel bs
            (omega (
              arith,
              length-append block (file_bytes z packet_sz bs),
              block_bytes_pos (z (entries_bytes packet_sz b)) (entries_bytes packet_sz b),
            ))
            fits.1)
          refl

-- The line feed that ends a text without one.
find_at-line :
    (t rest : Bytes) (i : ℕ)
    → All (λ b. b ≢ 10) t
    → find_at (10 ∷ []) (t ++ (10 ∷ rest)) i ≡ some (i + length t)
unfolding find_at starts_with
find_at-line [] rest i h = ap some (omega arith)
find_at-line (b ∷ t) rest i h = ground (arith, h.0, find_at-line t rest (i + 1) h.1)

take-line :
    (n : ℕ) (t rest : Bytes)
    → length t < n
    → (r : Bytes) × (take n (t ++ (10 ∷ rest)) ≡ t ++ (10 ∷ r))
take-line zero t rest h = absurd (omega arith)
take-line (suc n) [] rest h = (take n rest, refl)
take-line (suc n) (b ∷ t) rest h =
    let (r, e) = take-line n t rest (omega arith) in (r, ap (λ s. b ∷ s) e)

skip_head_found :
    (s : Bytes) (n : ℕ)
    → find_at (10 ∷ []) (take 128 s) 0 ≡ some n
    → starts_with (codes "{") s ≡ true
    → skip_head s ≡ drop (n + 1) s
unfolding skip_head
skip_head_found s n h k = rw (skip_head, h, k) refl

-- A first line that begins with a brace and lies in the first 128 bytes is left out.
pub skip_head-line :
    (t rest : Bytes)
    → length t < 127
    → All (λ b. b ≢ 10) t
    → skip_head ((123 ∷ t) ++ (10 ∷ rest)) ≡ rest
skip_head-line t rest short no_feed =
    let (r, cut) = take-line 128 (123 ∷ t) rest (omega arith) in
    let found : find_at (10 ∷ []) (take 128 ((123 ∷ t) ++ (10 ∷ rest))) 0
        ≡ some (length (123 ∷ t)) =
      ap (λ s. find_at (10 ∷ []) s 0) cut
      ∙ find_at-line (123 ∷ t) r 0 ((λ e. absurd (omega arith)), no_feed)
      ∙ ap some (omega arith) in
    skip_head_found ((123 ∷ t) ++ (10 ∷ rest)) (length (123 ∷ t)) found
      (starts_with-append (codes "{") (t ++ (10 ∷ rest)))
    ∙ drop_past (length (123 ∷ t)) 1 (123 ∷ t) (10 ∷ rest) refl

-- The head line of the archive, where numbers are printed in at most 20 characters and none of them
-- is a line feed.
pub skip_head-head_line :
    (show : ℕ → Bytes) (packet_sz cycle_rec_ms : ℕ) (rest : Bytes)
    → ((n : ℕ) → (length (show n) ≤ 20) × All (λ b. b ≢ 10) (show n))
    → skip_head (head_line show packet_sz cycle_rec_ms ++ rest) ≡ rest
unfolding head_line
skip_head-head_line show packet_sz cycle_rec_ms rest shows =
    let inner = codes ",\"cycleRecMs\":" in
    let t =
      codes "\"packetSz\":" ++ (show packet_sz ++ (inner ++ (show cycle_rec_ms ++ codes "}"))) in
    let same : head_line show packet_sz cycle_rec_ms ++ rest ≡ (123 ∷ t) ++ (10 ∷ rest) =
      simp append_assoc in
    ap skip_head same
    ∙ skip_head-line t rest
        (omega (
          arith,
          length-append (show packet_sz) (inner ++ (show cycle_rec_ms ++ codes "}")),
          length-append (show cycle_rec_ms) (codes "}"),
          (shows packet_sz).0,
          (shows cycle_rec_ms).0,
        ))
        (ground (
          arith,
          All-append (λ b. b ≢ 10) (show packet_sz) (inner ++ (show cycle_rec_ms ++ codes "}"))
              (shows packet_sz).1
              (ground (
                arith,
                All-append (λ b. b ≢ 10) (show cycle_rec_ms) (codes "}") (shows cycle_rec_ms).1
                    (ground arith),
              )),
        ))

file_bytes-append :
    (z : Bytes → Bytes) (packet_sz : ℕ) (bs cs : List (List Saved))
    → file_bytes z packet_sz (bs ++ cs) ≡ file_bytes z packet_sz bs ++ file_bytes z packet_sz cs
unfolding file_bytes
file_bytes-append z packet_sz [] cs = refl
file_bytes-append z packet_sz (b ∷ bs) cs =
    let block = block_bytes (z (entries_bytes packet_sz b)) (entries_bytes packet_sz b) in
    ap (λ t. block ++ t) (file_bytes-append z packet_sz bs cs)
    ∙ sym (append_assoc block (file_bytes z packet_sz bs) (file_bytes z packet_sz cs))

joined-append : (bs cs : List (List Saved)) → joined (bs ++ cs) ≡ joined bs ++ joined cs
unfolding joined
joined-append [] cs = refl
joined-append (b ∷ bs) cs =
    ap (λ t. b ++ t) (joined-append bs cs) ∙ sym (append_assoc b (joined bs) (joined cs))

s_max_cnt_pos : (packet_sz : ℕ) → 0 < s_max_cnt packet_sz
s_max_cnt_pos packet_sz = ground arith

-- All saves together make a file of batches.
pub saves_lem :
    (compress : Bytes → Option Bytes) (z : Bytes → Bytes) (packet_sz : ℕ)
    (oss : List (List (Option Saved)))
    → ((b : Bytes) → compress b ≡ some (z b))
    → (bs : List (List Saved)) × (saves compress packet_sz oss ≡ file_bytes z packet_sz bs)
      × (joined bs ≡ all_somes oss)
      × All (IsBatch (s_max_cnt packet_sz)) bs
unfolding saves all_somes file_bytes joined
saves_lem compress z packet_sz [] works = ([], refl, refl, tt)
saves_lem compress z packet_sz (os ∷ oss) works =
    let (bs, e, j, ok) =
      save_loop_lem compress z (s_max_cnt packet_sz) packet_sz os works (s_max_cnt_pos packet_sz) in
    let (cs, e', j', ok') = saves_lem compress z packet_sz oss works in
    (
      bs ++ cs,
      ap₂ ◌++◌ (ap (λ r. r.0) e) e' ∙ sym (file_bytes-append z packet_sz bs cs),
      joined-append bs cs ∙ ap₂ ◌++◌ j j',
      All-append (IsBatch (s_max_cnt packet_sz)) bs cs ok ok',
    )
