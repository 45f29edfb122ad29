-- ===== src/Viewer/FileLoader/Blocks.antt =====
-- One block of an archive's file, as `Archive::copyToDiskImpl` writes it
-- (src/SVServer/src/archive.cpp) and `FileLoader` reads it
-- (src/SVViewer/src/file_loader/file_loader.cpp).
use svisual.Prelude.{
  ℕ, ◌+◌, ◌*◌, ◌%◌, ◌^◌, ◌<◌, ◌≡◌, refl, sym, ap, ap₂, ◌∙◌, List, [], ◌∷◌, ◌++◌, append_assoc, map,
  length, take, drop, All, arith, length-append, length-take, take_all, take-append_of_length,
  drop-append_of_length, drop-drop,
}
use svisual.Prelude.Bytes.{
  Bytes, NoZero, IsWord, c_str, encode32, encode64, encode_words, decode_words, fixed_field,
  length-fixed_field, c_str-fixed_field, length-encode32, length-encode64, length-encode_words,
  decode32-encode32, decode64-encode64, decode_words-encode_words,
}
use svisual.Base.{name_sz, comment_sz, RecData}
use svisual.Server.Archive.File.{Saved, head_sz, recs_bytes, head_bytes, entry_bytes}
use svisual.Server.Archive.Blocks.{length-head_bytes}
use svisual.Viewer.FileLoader.{ValueData, val_sz, value_data, rec_at, recs_at}

-- A text that a field of `n` bytes holds whole.
abbrev pub Fits : ℕ → Bytes → Type 0
Fits n s = (length s < n) × NoZero s

abbrev pub IsRecord : ℕ → RecData → Type 0
IsRecord packet_sz rd = (rd.begin_time < 2 ^ 64) × (length rd.vals ≡ packet_sz) × All IsWord rd.vals

-- What a file can hold of a signal.
pub record IsSaved (packet_sz : ℕ) (e : Saved) : Type 0 where
  pub name_fits : Fits name_sz e.name
  pub module_fits : Fits name_sz e.module_name
  pub group_fits : Fits name_sz e.group
  pub comment_fits : Fits comment_sz e.comment
  pub type_fits : IsWord e.type
  pub few : IsWord (length e.recs)
  pub records : All (IsRecord packet_sz) e.recs

-- The head that a signal is read as.
abbrev pub head_of : Saved → ValueData
head_of e = record {
  name = e.name;
  module_name = e.module_name;
  group = e.group;
  comment = e.comment;
  type = e.type;
  vl_cnt = length e.recs;
}

-- Past a part of known length.
pub drop_past :
    {A : Type 0} (n k : ℕ) (xs ys : List A) → length xs ≡ n → drop (n + k) (xs ++ ys) ≡ drop k ys
drop_past n k xs ys h =
    sym (drop-drop n k (xs ++ ys)) ∙ ap (drop k) (drop-append_of_length n xs ys h)

-- A field at the front of a text.
field_text : (n : ℕ) (t r : Bytes) → Fits n t → c_str (take n (fixed_field n t ++ r)) ≡ t
field_text n t r (short, no_zero) =
    ap c_str (take-append_of_length n (fixed_field n t) r (length-fixed_field n t))
    ∙ c_str-fixed_field n t short no_zero

text24 : (t r : Bytes) → Fits 24 t → c_str (take 24 (fixed_field 24 t ++ r)) ≡ t
text24 = field_text 24

text48 : (t r : Bytes) → Fits 48 t → c_str (take 48 (fixed_field 48 t ++ r)) ≡ t
text48 = field_text 48

module _ (packet_sz : ℕ) (e : Saved) (ok : IsSaved packet_sz e) (s : Bytes) where
  f1 : Bytes
  f1 = fixed_field name_sz e.name

  f2 : Bytes
  f2 = fixed_field name_sz e.module_name

  f3 : Bytes
  f3 = fixed_field name_sz e.group

  f4 : Bytes
  f4 = fixed_field comment_sz e.comment

  behind : Bytes
  behind = encode32 e.type ++ (encode32 (length e.recs) ++ s)

  flat : head_bytes e ++ s ≡ f1 ++ (f2 ++ (f3 ++ (f4 ++ behind)))
  unfolding head_bytes f1 f2 f3 f4 behind
  flat = rw (append_assoc, append_assoc, append_assoc, append_assoc, append_assoc) refl

  past1 : drop 24 (f1 ++ (f2 ++ (f3 ++ (f4 ++ behind)))) ≡ f2 ++ (f3 ++ (f4 ++ behind))
  unfolding f1
  past1 = drop-append_of_length 24 f1 _ (length-fixed_field name_sz e.name)

  past2 : drop 48 (f1 ++ (f2 ++ (f3 ++ (f4 ++ behind)))) ≡ f3 ++ (f4 ++ behind)
  unfolding f1 f2
  past2 =
      drop_past 24 24 f1 _ (length-fixed_field name_sz e.name)
      ∙ drop-append_of_length 24 f2 _ (length-fixed_field name_sz e.module_name)

  past3 : drop 72 (f1 ++ (f2 ++ (f3 ++ (f4 ++ behind)))) ≡ f4 ++ behind
  unfolding f1 f2 f3
  past3 =
      drop_past 24 48 f1 _ (length-fixed_field name_sz e.name)
      ∙ drop_past 24 24 f2 _ (length-fixed_field name_sz e.module_name)
      ∙ drop-append_of_length 24 f3 _ (length-fixed_field name_sz e.group)

  past4 : drop 120 (f1 ++ (f2 ++ (f3 ++ (f4 ++ behind)))) ≡ behind
  unfolding f1 f2 f3 f4
  past4 =
      drop_past 24 96 f1 _ (length-fixed_field name_sz e.name)
      ∙ drop_past 24 72 f2 _ (length-fixed_field name_sz e.module_name)
      ∙ drop_past 24 48 f3 _ (length-fixed_field name_sz e.group)
      ∙ drop-append_of_length 48 f4 behind (length-fixed_field comment_sz e.comment)

  past5 : drop 124 (f1 ++ (f2 ++ (f3 ++ (f4 ++ behind)))) ≡ encode32 (length e.recs) ++ s
  unfolding behind
  past5 =
      sym (drop-drop 120 4 (f1 ++ (f2 ++ (f3 ++ (f4 ++ behind)))))
      ∙ ap (drop 4) past4
      ∙ drop-append_of_length 4 (encode32 e.type) _ (length-encode32 e.type)

  -- The head that was written is the head that is read.
  pub value_data-head_bytes : value_data (head_bytes e ++ s) ≡ head_of e
  unfolding value_data f1 f2 f3 f4 behind
  value_data-head_bytes =
      ap value_data flat
      ∙ rw
          (
            past1,
            past2,
            past3,
            past4,
            past5,
            text24 e.name (f2 ++ (f3 ++ (f4 ++ behind))) (ok.name_fits),
            text24 e.module_name (f3 ++ (f4 ++ behind)) (ok.module_fits),
            text24 e.group (f4 ++ behind) (ok.group_fits),
            text48 e.comment behind (ok.comment_fits),
            decode32-encode32 e.type (encode32 (length e.recs) ++ s) ok.type_fits,
            decode32-encode32 (length e.recs) s ok.few,
          )
          refl

-- A record as it is read, with the offset of the file added to its time.
abbrev pub shifted : ℕ → RecData → RecData
shifted utc rd = record { begin_time = (rd.begin_time + utc) % 2 ^ 64; vals = rd.vals }

module _ (packet_sz utc : ℕ) where
  rec_bytes : RecData → Bytes
  rec_bytes rd = encode64 rd.begin_time ++ encode_words (take packet_sz rd.vals)

  length-rec_bytes :
      (rd : RecData) → IsRecord packet_sz rd → length (rec_bytes rd) ≡ val_sz packet_sz
  unfolding rec_bytes
  length-rec_bytes rd (t, sz, words) = omega (
    arith,
    length-append (encode64 rd.begin_time) (encode_words (take packet_sz rd.vals)),
    length-encode64 rd.begin_time,
    length-encode_words (take packet_sz rd.vals),
    length-take packet_sz rd.vals,
  )

  rec_at-rec_bytes :
      (rd : RecData) (s : Bytes)
      → IsRecord packet_sz rd
      → rec_at packet_sz utc (rec_bytes rd ++ s) ≡ shifted utc rd
  unfolding rec_at rec_bytes
  rec_at-rec_bytes rd s (t, sz, words) =
      ap (rec_at packet_sz utc) (append_assoc (encode64 rd.begin_time) _ s)
      ∙ rw
          (
            decode64-encode64 rd.begin_time (encode_words (take packet_sz rd.vals) ++ s) t,
            drop-append_of_length 8 (encode64 rd.begin_time)
                (encode_words (take packet_sz rd.vals) ++ s) (length-encode64 rd.begin_time),
          )
          (ap (λ v. record { begin_time = (rd.begin_time + utc) % 2 ^ 64; vals = v })
            (ap (λ v. decode_words packet_sz (encode_words v ++ s))
                (take_all packet_sz rd.vals (omega arith))
              ∙ ap (λ n. decode_words n (encode_words rd.vals ++ s)) (sym sz)
              ∙ decode_words-encode_words rd.vals s words))

  -- Records that were written are read with their times moved.
  pub recs_at-recs_bytes :
      (rds : List RecData) (s : Bytes)
      → All (IsRecord packet_sz) rds
      → recs_at packet_sz utc (length rds) (recs_bytes packet_sz rds ++ s) ≡ map (shifted utc) rds
  unfolding recs_at recs_bytes rec_bytes
  recs_at-recs_bytes [] s h = refl
  recs_at-recs_bytes (rd ∷ rds) s h =
      rw
        (
          sym (
              append_assoc (encode64 rd.begin_time) (encode_words (take packet_sz rd.vals))
                (recs_bytes packet_sz rds)),
          append_assoc (rec_bytes rd) (recs_bytes packet_sz rds) s,
        )
        (ap₂ ◌∷◌ (rec_at-rec_bytes rd (recs_bytes packet_sz rds ++ s) h.0) (
          ap (recs_at packet_sz utc (length rds)) (
            drop-append_of_length (val_sz packet_sz) (rec_bytes rd) (recs_bytes packet_sz rds ++ s)
              (length-rec_bytes rd h.0))
          ∙ recs_at-recs_bytes rds s h.1))

  pub length-recs_bytes_eq :
      (rds : List RecData)
      → All (IsRecord packet_sz) rds
      → length (recs_bytes packet_sz rds) ≡ length rds * val_sz packet_sz
  unfolding recs_bytes rec_bytes
  length-recs_bytes_eq [] h = omega arith
  length-recs_bytes_eq (rd ∷ rds) h = grind (
    arith,
    length-append (encode64 rd.begin_time)
        (encode_words (take packet_sz rd.vals) ++ recs_bytes packet_sz rds),
    length-append (encode_words (take packet_sz rd.vals)) (recs_bytes packet_sz rds),
    length-append (encode64 rd.begin_time) (encode_words (take packet_sz rd.vals)),
    length-rec_bytes rd h.0,
    length-recs_bytes_eq rds h.1,
  )

  -- The bytes that a signal takes in a block, which the loader skips.
  pub length-entry_bytes :
      (e : Saved)
      → IsSaved packet_sz e
      → length (entry_bytes packet_sz e) ≡ head_sz + length e.recs * val_sz packet_sz
  unfolding entry_bytes
  length-entry_bytes e ok = grind (
    arith,
    length-append (head_bytes e) (recs_bytes packet_sz e.recs),
    length-head_bytes e,
    length-recs_bytes_eq e.recs ok.records,
  )
