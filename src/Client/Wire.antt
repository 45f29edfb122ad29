-- ===== src/Client/Wire.antt =====
-- From the client to the server: the message that `prepareData` makes is cut out whole by
-- `receiveData`, and `updateDataSignals` reads the client's values back from it.
use svisual.Prelude.{
  ℕ, zero, suc, ◌+◌, ◌-◌, ◌*◌, ◌/◌, ◌≤◌, ◌<◌, ◌^◌, ◌≡◌, refl, sym, ap, ap₂, ◌∙◌, ◌≢◌, List, [], ◌∷◌,
  ◌++◌, Bool, true, false, Option, none, some, if◌then◌else◌, ltb, leb, length, take, drop, map,
  All, arith, append-nil, append_assoc, length-append, length-take, min, replicate, drop-append,
  drop-append_add, drop-append_of_length, take-append_of_length, drop-drop, take_all,
}
use native.Mathlib.Nat.{mul-div_cancel}
use svisual.Prelude.Bytes.{
  Bytes, NoZero, IsWord, c_str, c_str-pad, encode32, encode_words, decode32, decode_words, pad,
  length-pad, length-encode32, length-encode_words, decode32-encode32, decode_words-encode_words,
}
use svisual.Prelude.Maps.{Map}
use svisual.Base.{ValueType, bool, int, float, type_code, name_sz}
use svisual.Client.{Client, ValueRec, prepare_data, data_sz}
use svisual.Client.Valid.{IsRec, IsValid, wire, payload, prepared, prepare_data-eq-prepared}
use svisual.Server.Scan.{cut}
use svisual.Server.Scan.Frames.{frame, IsPayload}
use svisual.Server.Scan.Stream.{stream, no_mark, cut-stream}
use svisual.Server.Buffer.{InputData, BufferData, val_sz, record_at, module_of, update_data_signals}
use svisual.Server.Buffer.Ring.{records_at}
use svisual.Server.Buffer.Queue.{
  IsIdle, unread, contents, taken, stamp, decoded, length-decoded, update_refines,
}
use svisual.Server.Buffer.Queue

-- What the server is to read of one value.
abbrev pub as_input : Bytes → ℕ → Bytes × ValueRec → InputData
as_input m tm (k, vr) = record {
  name = k;
  module_name = m;
  type = type_code vr.type;
  rec = record { begin_time = tm; vals = vr.vals };
}

type_code-IsWord : (t : ValueType) → IsWord (type_code t)
type_code-IsWord bool = omega arith
type_code-IsWord int = omega arith
type_code-IsWord float = omega arith

-- One value that stands in a message behind `pre` and before `t`.
module _ (n : ℕ) (m : Bytes) (tm : ℕ) (pre k : Bytes) (vr : ValueRec) (t : Bytes)
    (r : IsRec n k vr) where
  abbrev body : Bytes
  body = encode32 (type_code vr.type) ++ (encode_words vr.vals ++ t)

  at_name : drop (length pre) (pre ++ (vr.name ++ body)) ≡ vr.name ++ body
  at_name = drop-append pre (vr.name ++ body)

  at_type : drop (length pre + name_sz) (pre ++ (vr.name ++ body)) ≡ body
  at_type =
      drop-append_add name_sz pre (vr.name ++ body)
      ∙ drop-append_of_length name_sz vr.name body r.name_field

  at_vals : drop (length pre + name_sz + 4) (pre ++ (vr.name ++ body)) ≡ encode_words vr.vals ++ t
  at_vals =
      sym (drop-drop (length pre + name_sz) 4 (pre ++ (vr.name ++ body)))
      ∙ ap (drop 4) at_type
      ∙ drop-append_of_length 4 (encode32 (type_code vr.type)) (encode_words vr.vals ++ t)
          (length-encode32 (type_code vr.type))

  record_at-value : record_at n m tm (pre ++ (vr.name ++ body)) (length pre) ≡ as_input m tm (k, vr)
  unfolding record_at
  record_at-value = λ i. record {
    name = name i;
    module_name = m;
    type = code i;
    rec = record { begin_time = tm; vals = vals i };
  }
    where
      name : c_str (take name_sz (drop (length pre) (pre ++ (vr.name ++ body)))) ≡ k
      name =
          ap (λ z. c_str (take name_sz z)) at_name
          ∙ ap c_str (take-append_of_length name_sz vr.name body r.name_field)
          ∙ r.named

      code : decode32 (drop (length pre + name_sz) (pre ++ (vr.name ++ body))) ≡ type_code vr.type
      code =
          ap decode32 at_type
          ∙ decode32-encode32 (type_code vr.type) (encode_words vr.vals ++ t)
              (type_code-IsWord vr.type)

      vals : decode_words n (drop (length pre + name_sz + 4) (pre ++ (vr.name ++ body))) ≡ vr.vals
      vals =
          ap (decode_words n) at_vals
          ∙ ap (λ j. decode_words j (encode_words vr.vals ++ t)) (sym r.packet)
          ∙ decode_words-encode_words vr.vals t r.words

length-wire :
    (n : ℕ) (m : Map ValueRec)
    → All (λ e. IsRec n (e.0) (e.1)) m
    → length (wire m) ≡ length m * val_sz n
unfolding wire
length-wire n [] h = omega arith
length-wire n ((k, vr) ∷ m) h = omega (
  arith,
  length-wire n m h.1,
  length-append vr.name (encode32 (type_code vr.type) ++ (encode_words vr.vals ++ wire m)),
  length-append (encode32 (type_code vr.type)) (encode_words vr.vals ++ wire m),
  length-append (encode_words vr.vals) (wire m),
  length-encode32 (type_code vr.type),
  length-encode_words vr.vals,
  h.0.packet,
  h.0.name_field,
)

records_at-wire :
    (n : ℕ) (m : Bytes) (tm : ℕ) (vs : Map ValueRec) (pre : Bytes)
    → All (λ e. IsRec n (e.0) (e.1)) vs
    → records_at n m tm (pre ++ wire vs) (length vs) (length pre) ≡ map (as_input m tm) vs
unfolding records_at wire
records_at-wire n m tm [] pre h = refl
records_at-wire n m tm ((k, vr) ∷ vs) pre h =
    ap₂ ◌∷◌ (record_at-value n m tm pre k vr (wire vs) h.0) (
      ap₂ (λ z i. records_at n m tm z (length vs) i) regroup (sym moved)
      ∙ records_at-wire n m tm vs (pre ++ front) h.1)
  where
    front : Bytes
    front = vr.name ++ (encode32 (type_code vr.type) ++ encode_words vr.vals)

    regroup :
        pre ++ (vr.name ++ (encode32 (type_code vr.type) ++ (encode_words vr.vals ++ wire vs)))
        ≡ (pre ++ front) ++ wire vs
    regroup = simp append_assoc

    moved : length (pre ++ front) ≡ length pre + val_sz n
    moved = omega (
      arith,
      length-append pre front,
      length-append vr.name (encode32 (type_code vr.type) ++ encode_words vr.vals),
      length-append (encode32 (type_code vr.type)) (encode_words vr.vals),
      length-encode32 (type_code vr.type),
      length-encode_words vr.vals,
      h.0.packet,
      h.0.name_field,
    )

-- The module's name is one that `svConnect` lets through.
abbrev pub IsModuleName : Bytes → Type 0
IsModuleName m = NoZero m × (length m < name_sz)

-- A client that is valid, has values, and fits a message.
pub record CanSend (c : Client) : Type 0 where
  pub valid : IsValid c
  pub named : IsModuleName c.module_name
  pub has_values : 0 < length c.values
  pub fits : data_sz c < 2 ^ 31

module _ (c : Client) (ok : CanSend c) where
  head_field : Bytes
  head_field = pad name_sz (take (name_sz - 1) c.module_name)

  head_field-eq-pad : head_field ≡ pad name_sz c.module_name
  unfolding head_field
  head_field-eq-pad =
      ap (pad name_sz) (take_all (name_sz - 1) c.module_name (omega (arith, ok.named)))

  length-head_field : length head_field ≡ name_sz
  length-head_field =
      ap length head_field-eq-pad ∙ length-pad name_sz c.module_name (omega (arith, ok.named))

  length-payload : length (payload c) ≡ name_sz + length c.values * val_sz c.packet_sz
  unfolding head_field
  length-payload = omega (
    arith,
    length-append head_field (wire c.values),
    length-head_field,
    length-wire c.packet_sz c.values ok.valid.recs,
  )

  pub prepared-eq-frame : prepared c ≡ frame (payload c)
  unfolding frame
  prepared-eq-frame = ground (arith, size, ok.has_values)
    where
      size : data_sz c ≡ length (payload c)
      size = omega (arith, length-payload)

  payload-IsPayload : IsPayload (payload c)
  payload-IsPayload = omega (arith, length-payload, ok.fits)

  -- The server cuts the payload out of the message, and keeps nothing.
  pub cut-prepared : cut (prepared c) ≡ some (payload c ∷ [], [])
  unfolding stream
  cut-prepared =
      ap cut (
        prepared-eq-frame
        ∙ sym (append-nil (frame (payload c)))
        ∙ sym (append-nil (frame (payload c) ++ [])))
      ∙ cut-stream (payload c ∷ []) [] (payload-IsPayload, tt)
          (unfold svisual.Prelude.Bytes.find_at svisual.Prelude.Bytes.starts_with in no_mark refl)

  module_of-payload : module_of (payload c) ≡ c.module_name
  unfolding head_field
  module_of-payload =
      ap c_str (take-append_of_length name_sz head_field (wire c.values) length-head_field)
      ∙ ap c_str head_field-eq-pad
      ∙ c_str-pad c.module_name (name_sz - length c.module_name) (ok.named.0)

  -- A server of the same packet size reads all values of the payload back.
  module _ (b : BufferData) (tm : ℕ) (same : b.cng.packet_sz ≡ c.packet_sz)
      (room : length c.values ≤ b.buff_sz / 10) where
    taken-payload : taken b (payload c) ≡ length c.values
    taken-payload = ground (
      arith,
      length-payload,
      same,
      mul-div_cancel (length c.values) {n = val_sz c.packet_sz} (omega arith),
    )

    pub decoded-payload :
        decoded b (payload c) tm ≡ map (as_input c.module_name (stamp b (payload c) tm)) c.values
    unfolding decoded head_field
    decoded-payload =
        ap (λ k. records_at b.cng.packet_sz (module_of p) st p k name_sz) taken-payload
        ∙ ap₂ (λ k m. records_at k m st p (length c.values) name_sz) same module_of-payload
        ∙ ap (records_at c.packet_sz c.module_name st p (length c.values)) (sym length-head_field)
        ∙ records_at-wire c.packet_sz c.module_name st c.values head_field ok.valid.recs
      where
        p : Bytes
        p = payload c

        st : ℕ
        st = stamp b p tm

-- What a client sends, the server of the same packet size keeps: `prepareData` makes a message,
-- `receiveData` cuts it out whole and keeps nothing, and `updateDataSignals` appends, with the
-- client's module, the name, type and values of each of its values, in the order of its map. The
-- client is valid and has a name and values, the message is shorter than 2^31 bytes, no other writer
-- is at work, there is room for the values in the ring, and they are no more than a tenth of it.
pub client_to_server :
    (c : Client) (b : BufferData) (tm : ℕ)
    → CanSend c
    → Queue.IsValid b
    → IsIdle b
    → b.cng.packet_sz ≡ c.packet_sz
    → length c.values ≤ b.buff_sz / 10
    → unread b + length c.values < b.buff_sz
    → (bytes : Bytes) × (p : Bytes) × (b' : BufferData) × (prepare_data c ≡ some bytes)
      × (cut bytes ≡ some (p ∷ [], []))
      × (update_data_signals b p tm ≡ some b')
      × (contents b' ≡ contents b ++ map (as_input c.module_name (stamp b p tm)) c.values)
client_to_server c b tm ok valid idle same few room =
    let fits : unread b + taken b (payload c) < b.buff_sz =
      omega (arith, taken-payload c ok b tm same few) in
    let (b', e, _, _, now) = update_refines b (payload c) tm valid idle fits in
    (
      prepared c,
      payload c,
      b',
      prepare_data-eq-prepared c ok.valid.recs,
      cut-prepared c ok,
      e,
      now ∙ ap (λ ds. contents b ++ ds) (decoded-payload c ok b tm same few),
    )
