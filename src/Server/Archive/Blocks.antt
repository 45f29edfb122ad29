-- ===== src/Server/Archive/Blocks.antt =====
-- The blocks of the archive's file (src/SVServer/src/archive.cpp), as batches of signals.
use svisual.Prelude.{
  ℕ, ◌+◌, ◌*◌, ◌≤◌, ◌<◌, ◌≡◌, refl, sym, ap, ◌∙◌, ◌⊎◌, inl, inr, List, [], ◌∷◌, ◌++◌, append_assoc,
  append-nil, true, false, Option, none, some, if◌then◌else◌, length, take, All, arith,
  length-append, length-take, Bool-cases,
}
use svisual.Prelude.Bytes.{
  Bytes, encode32, encode64, encode_words, length-fixed_field, fixed_field, length-encode32,
  length-encode64, length-encode_words,
}
use svisual.Base.{name_sz, comment_sz, RecData}
use svisual.Server.Archive.File.{
  Saved, head_sz, recs_bytes, head_bytes, entry_bytes, flushes, more_cnt, more_bytes, block_bytes,
  save_loop,
}

-- The signals that have something to write, in order.
unfoldable pub somes : List (Option Saved) → List Saved
somes [] = []
somes (none ∷ os) = somes os
somes (some e ∷ os) = e ∷ somes os

unfoldable pub entries_bytes : ℕ → List Saved → Bytes
entries_bytes packet_sz [] = []
entries_bytes packet_sz (e ∷ es) = entry_bytes packet_sz e ++ entries_bytes packet_sz es

unfoldable pub joined : List (List Saved) → List Saved
joined [] = []
joined (b ∷ bs) = b ++ joined bs

-- A file of batches; `z` compresses.
unfoldable pub file_bytes : (Bytes → Bytes) → ℕ → List (List Saved) → Bytes
file_bytes z packet_sz [] = []
file_bytes z packet_sz (b ∷ bs) =
    block_bytes (z (entries_bytes packet_sz b)) (entries_bytes packet_sz b)
    ++ file_bytes z packet_sz bs

abbrev more_batch : Option Saved → List Saved → List Saved
more_batch none acc = acc
more_batch (some e) acc = acc ++ (e ∷ [])

-- How the keys fall into batches.
unfoldable batches : ℕ → List (Option Saved) → ℕ → List Saved → List (List Saved)
batches s_max [] s_cnt acc = []
batches s_max (o ∷ os) s_cnt acc =
    let next = batches s_max os 0 [] in
    let kept = batches s_max os (more_cnt o s_cnt) (more_batch o acc) in
    if flushes s_max (more_cnt o s_cnt) os then more_batch o acc ∷ next else kept

entries_bytes-append :
    (packet_sz : ℕ) (es fs : List Saved)
    → entries_bytes packet_sz (es ++ fs) ≡ entries_bytes packet_sz es ++ entries_bytes packet_sz fs
unfolding entries_bytes
entries_bytes-append packet_sz [] fs = refl
entries_bytes-append packet_sz (e ∷ es) fs =
    ap (λ b. entry_bytes packet_sz e ++ b) (entries_bytes-append packet_sz es fs)
    ∙ sym (
        append_assoc (entry_bytes packet_sz e) (entries_bytes packet_sz es)
          (entries_bytes packet_sz fs))

more_bytes-entries :
    (packet_sz : ℕ) (o : Option Saved) (acc : List Saved)
    → more_bytes packet_sz o (entries_bytes packet_sz acc)
      ≡ entries_bytes packet_sz (more_batch o acc)
unfolding entries_bytes
more_bytes-entries packet_sz none acc = refl
more_bytes-entries packet_sz (some e) acc = sym (
    entries_bytes-append packet_sz acc (e ∷ [])
    ∙ ap (λ b. entries_bytes packet_sz acc ++ b) (append-nil (entry_bytes packet_sz e)))

module _ (compress : Bytes → Option Bytes) (z : Bytes → Bytes)
    (works : (b : Bytes) → compress b ≡ some (z b)) (s_max packet_sz : ℕ) where
  save_loop-batches :
      (os : List (Option Saved)) (s_cnt : ℕ) (acc : List Saved)
      → save_loop compress s_max packet_sz os s_cnt (entries_bytes packet_sz acc)
        ≡ (file_bytes z packet_sz (batches s_max os s_cnt acc), true)
  unfolding save_loop batches file_bytes entries_bytes
  save_loop-batches [] s_cnt acc = refl
  save_loop-batches (o ∷ os) s_cnt acc = elim (Bool-cases (flushes s_max (more_cnt o s_cnt) os)) [
    | inl full ↦
        rw
          (
            full,
            more_bytes-entries packet_sz o acc,
            works (entries_bytes packet_sz (more_batch o acc)),
            more_bytes-entries packet_sz o acc,
            save_loop-batches os 0 [],
          )
          refl
    | inr more ↦
        rw (more, more_bytes-entries packet_sz o acc)
          (save_loop-batches os (more_cnt o s_cnt) (more_batch o acc))
  ]

-- A batch is not empty, and no larger than allowed.
abbrev pub IsBatch : ℕ → List Saved → Type 0
IsBatch s_max b = (0 < length b) × (length b ≤ s_max)

length-more_batch :
    (o : Option Saved) (s_cnt : ℕ) (acc : List Saved)
    → length acc ≡ s_cnt
    → length (more_batch o acc) ≡ more_cnt o s_cnt
length-more_batch none s_cnt acc h = h
length-more_batch (some e) s_cnt acc h = omega (arith, length-append acc (e ∷ []))

more_cnt-le : (o : Option Saved) (s_cnt : ℕ) → more_cnt o s_cnt ≤ s_cnt + 1
more_cnt-le none s_cnt = omega arith
more_cnt-le (some e) s_cnt = omega arith

more_batch-somes :
    (o : Option Saved) (os : List (Option Saved)) (acc : List Saved)
    → more_batch o acc ++ somes os ≡ acc ++ somes (o ∷ os)
unfolding somes
more_batch-somes none os acc = refl
more_batch-somes (some e) os acc = append_assoc acc (e ∷ []) (somes os)

-- Where no batch is written at the last key, none is pending.
left_over :
    (os : List (Option Saved)) (acc : List Saved) (s_cnt s_max : ℕ)
    → length acc ≡ s_cnt
    → flushes s_max s_cnt os ≡ false
    → (0 < length os) ⊎ (acc ≡ [])
left_over (o ∷ os) acc s_cnt s_max h none_out = inl (omega arith)
left_over [] [] s_cnt s_max h none_out = inr refl
left_over [] (e ∷ acc) s_cnt s_max h none_out = absurd (ground arith)

batches-IsBatch :
    (s_max : ℕ) (os : List (Option Saved)) (s_cnt : ℕ) (acc : List Saved)
    → length acc ≡ s_cnt
    → s_cnt < s_max
    → All (IsBatch s_max) (batches s_max os s_cnt acc)
unfolding batches
batches-IsBatch s_max [] s_cnt acc h room = tt
batches-IsBatch s_max (o ∷ os) s_cnt acc h room =
    elim (Bool-cases (flushes s_max (more_cnt o s_cnt) os)) [
      | inl full ↦ rw full (
        ground (arith, length-more_batch o s_cnt acc h, more_cnt-le o s_cnt),
        batches-IsBatch s_max os 0 [] refl (omega arith),
      )
      | inr more ↦ rw more (
          batches-IsBatch s_max os (more_cnt o s_cnt) (more_batch o acc)
            (length-more_batch o s_cnt acc h) (ground (arith, more_cnt-le o s_cnt)))
    ]

joined-batches :
    (s_max : ℕ) (os : List (Option Saved)) (s_cnt : ℕ) (acc : List Saved)
    → length acc ≡ s_cnt
    → (0 < length os) ⊎ (acc ≡ [])
    → joined (batches s_max os s_cnt acc) ≡ acc ++ somes os
unfolding batches joined somes
joined-batches s_max [] s_cnt acc h (inl k) = absurd (omega arith)
joined-batches s_max [] s_cnt acc h (inr k) = rw k refl
joined-batches s_max (o ∷ os) s_cnt acc h k =
    elim (Bool-cases (flushes s_max (more_cnt o s_cnt) os)) [
      | inl full ↦ rw full (
          ap (λ es. more_batch o acc ++ es) (joined-batches s_max os 0 [] refl (inr refl))
          ∙ more_batch-somes o os acc)
      | inr more ↦ rw more (
          joined-batches s_max os (more_cnt o s_cnt) (more_batch o acc)
            (length-more_batch o s_cnt acc h)
            (left_over os (more_batch o acc) (more_cnt o s_cnt) s_max
              (length-more_batch o s_cnt acc h) more)
          ∙ more_batch-somes o os acc)
    ]

-- The loop of `copyToDiskImpl` over the keys, where compressing works: all signals that have values
-- are written, in the order of the keys, in blocks of at least one and at most `SMAXCNT` of them.
pub save_loop_lem :
    (compress : Bytes → Option Bytes) (z : Bytes → Bytes) (s_max packet_sz : ℕ)
    (os : List (Option Saved))
    → ((b : Bytes) → compress b ≡ some (z b))
    → 0 < s_max
    → (bs : List (List Saved)) × (save_loop compress s_max packet_sz os 0 []
        ≡ (file_bytes z packet_sz bs, true))
      × (joined bs ≡ somes os)
      × All (IsBatch s_max) bs
unfolding entries_bytes
save_loop_lem compress z s_max packet_sz os works positive = (
  batches s_max os 0 [],
  save_loop-batches compress z works s_max packet_sz os 0 [],
  joined-batches s_max os 0 [] refl (inr refl),
  batches-IsBatch s_max os 0 [] refl positive,
)

length-recs_bytes :
    (packet_sz : ℕ) (rds : List RecData)
    → length (recs_bytes packet_sz rds) ≤ (8 + 4 * packet_sz) * length rds
unfolding recs_bytes
length-recs_bytes packet_sz [] = omega arith
length-recs_bytes packet_sz (rd ∷ rds) =
    let words = take packet_sz rd.vals in
    omega (
      arith,
      length-append (encode64 rd.begin_time) (encode_words words ++ recs_bytes packet_sz rds),
      length-append (encode_words words) (recs_bytes packet_sz rds),
      length-encode64 rd.begin_time,
      length-encode_words words,
      length-take packet_sz rd.vals,
      length-recs_bytes packet_sz rds,
    )

pub length-head_bytes : (e : Saved) → length (head_bytes e) ≡ head_sz
unfolding head_bytes
length-head_bytes e =
    let t = encode32 e.type in
    let c = encode32 (length e.recs) in
    let comment = fixed_field comment_sz e.comment in
    let group = fixed_field name_sz e.group in
    let m = fixed_field name_sz e.module_name in
    omega (
      arith,
      length-append (fixed_field name_sz e.name) (m ++ (group ++ (comment ++ (t ++ c)))),
      length-append m (group ++ (comment ++ (t ++ c))),
      length-append group (comment ++ (t ++ c)),
      length-append comment (t ++ c),
      length-append t c,
      length-encode32 e.type,
      length-encode32 (length e.recs),
      length-fixed_field name_sz e.name,
      length-fixed_field name_sz e.module_name,
      length-fixed_field name_sz e.group,
      length-fixed_field comment_sz e.comment,
    )

length-entries_bytes_le :
    (packet_sz copy_sz : ℕ) (es : List Saved)
    → All (λ e. length e.recs ≤ copy_sz) es
    → length (entries_bytes packet_sz es) ≤ ((8 + 4 * packet_sz) * copy_sz + head_sz) * length es
unfolding entries_bytes entry_bytes
length-entries_bytes_le packet_sz copy_sz [] fits = omega arith
length-entries_bytes_le packet_sz copy_sz (e ∷ es) fits = grind (
  arith,
  length-append (head_bytes e ++ recs_bytes packet_sz e.recs) (entries_bytes packet_sz es),
  length-append (head_bytes e) (recs_bytes packet_sz e.recs),
  length-head_bytes e,
  length-recs_bytes packet_sz e.recs,
  length-entries_bytes_le packet_sz copy_sz es fits.1,
  fits.0,
)

-- What `inArr` holds for a batch is never more than was allocated for it.
pub length-entries_bytes :
    (packet_sz copy_sz s_max : ℕ) (b : List Saved)
    → IsBatch s_max b
    → All (λ e. length e.recs ≤ copy_sz) b
    → length (entries_bytes packet_sz b) ≤ (8 + 4 * packet_sz) * copy_sz * s_max + head_sz * s_max
length-entries_bytes packet_sz copy_sz s_max b ok fits =
    grind (arith, length-entries_bytes_le packet_sz copy_sz b fits)
