-- ===== src/Server/Archive/File.antt =====
-- The file of `Archive::copyToDiskImpl` (src/SVServer/src/archive.cpp): which bytes are written.
-- `compress` stands for `compressData`, which calls zlib; `none` is its failure.
use svisual.Prelude.{
  ℕ, zero, suc, ◌+◌, ◌-◌, ◌*◌, ◌≤◌, ◌<◌, ◌≡◌, refl, ap, ap₂, ◌∙◌, inl, inr, List, [], ◌∷◌, ◌++◌,
  append_assoc, append-nil, Bool, true, false, ◌&&◌, ◌||◌, Option, none, some, if◌then◌else◌, ltb,
  ◌==◌, length, take, All, arith, length-append, Bool-cases,
}
use svisual.Prelude.Bytes.{
  Bytes, encode32, encode64, encode_words, fixed_field, length-fixed_field, length-encode32,
  length-encode64, length-encode_words,
}
use svisual.Prelude.Maps.{Map, lookup}
use svisual.Base.{name_sz, comment_sz, RecData, SignalData}
use svisual.Server.Archive.{Slot, Half}

-- What is written of a signal: its head and its records.
pub record Saved : Type 0 where
  pub name : Bytes
  pub module_name : Bytes
  pub group : Bytes
  pub comment : Bytes
  pub type : ℕ
  pub recs : List RecData

-- The loop over `j`.
unfoldable pub recs_bytes : ℕ → List RecData → Bytes
recs_bytes packet_sz [] = []
recs_bytes packet_sz (rd ∷ rds) =
    encode64 rd.begin_time ++ (encode_words (take packet_sz rd.vals) ++ recs_bytes packet_sz rds)

-- The calls of `writeFixedField` and `memcpy` before it.
unfoldable pub head_bytes : Saved → Bytes
head_bytes e =
    fixed_field name_sz e.name
    ++ (fixed_field name_sz e.module_name
        ++ (fixed_field name_sz e.group
            ++ (fixed_field comment_sz e.comment ++ (encode32 e.type ++ encode32 (length e.recs)))))

abbrev pub head_sz : ℕ
head_sz = name_sz + name_sz + name_sz + comment_sz + 4 + 4

unfoldable pub entry_bytes : ℕ → Saved → Bytes
entry_bytes packet_sz e = head_bytes e ++ recs_bytes packet_sz e.recs

-- What a key stands for: nothing if the server does not know it, or it has no values.
unfoldable pub saved : {D : Type 0} → Map (SignalData D) → Bytes → Slot → Option Saved
saved ss k s = elim (lookup k ss) [
  | none ↦ none
  | some sd ↦
      if ltb 0 s.pos
      then some (record {
        name = sd.name;
        module_name = sd.module_name;
        group = sd.group;
        comment = sd.comment;
        type = sd.type;
        recs = take s.pos s.recs;
      })
      else none
]

unfoldable pub all_saved : {D : Type 0} → Map (SignalData D) → Half → List (Option Saved)
all_saved ss [] = []
all_saved ss ((k, s) ∷ h) = saved ss k s ∷ all_saved ss h

-- `SMAXCNT`
abbrev pub s_max_cnt : ℕ → ℕ
s_max_cnt packet_sz = if ltb 100000 packet_sz then 1 else if ltb 10000 packet_sz then 10 else 100

abbrev is_last : List (Option Saved) → Bool
is_last [] = true
is_last (_ ∷ _) = false

-- `sCnt > 0 && (sCnt == SMAXCNT || ix == dataSz - 1)`, before the keys that are left.
abbrev pub flushes : ℕ → ℕ → List (Option Saved) → Bool
flushes s_max s_cnt left = ltb 0 s_cnt && (s_cnt == s_max || is_last left)

abbrev pub more_cnt : Option Saved → ℕ → ℕ
more_cnt none s_cnt = s_cnt
more_cnt (some e) s_cnt = s_cnt + 1

abbrev pub more_bytes : ℕ → Option Saved → Bytes → Bytes
more_bytes packet_sz none buf = buf
more_bytes packet_sz (some e) buf = buf ++ entry_bytes packet_sz e

-- One block of the file.
unfoldable pub block_bytes : Bytes → Bytes → Bytes
block_bytes compressed buf = encode32 (length compressed) ++ (encode32 (length buf) ++ compressed)

-- The loop over the keys, with `sCnt` and the first `csize` bytes of `inArr`: what is written, and
-- whether all of it was.
unfoldable pub save_loop :
    (Bytes → Option Bytes) → ℕ → ℕ → List (Option Saved) → ℕ → Bytes → Bytes × Bool
save_loop compress s_max packet_sz [] s_cnt buf = ([], true)
save_loop compress s_max packet_sz (o ∷ os) s_cnt buf =
    let s_cnt' = more_cnt o s_cnt in
    let buf' = more_bytes packet_sz o buf in
    let next = save_loop compress s_max packet_sz os 0 [] in
    let kept = save_loop compress s_max packet_sz os s_cnt' buf' in
    if flushes s_max s_cnt' os
    then elim (compress buf') [
      | none ↦ ([], false)
      | some c ↦ (block_bytes c buf' ++ next.0, next.1)
    ]
    else kept

-- The head line, if the file is new (`file.tellp() == 0`); `show` is how a stream prints an `int`.
unfoldable pub head_line : (ℕ → Bytes) → ℕ → ℕ → Bytes
head_line show packet_sz cycle_rec_ms =
    svisual.Prelude.Bytes.codes "{\"packetSz\":"
    ++ (show packet_sz
        ++ (svisual.Prelude.Bytes.codes ",\"cycleRecMs\":"
            ++ (show cycle_rec_ms ++ svisual.Prelude.Bytes.codes "}\n")))
