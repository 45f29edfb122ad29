-- ===== src/Server/Update/Ring.antt =====
-- The two-hour buffer of a signal (`updateSignals`, src/SVServer/src/thread_update.cpp), as a window
-- over its records.
use svisual.Prelude.{
  ℕ, resize, length-resize, zero, suc, ◌+◌, ◌-◌, ◌%◌, ◌^◌, ◌≤◌, ◌<◌, ◌≡◌, refl, sym, ap, ap₂, ◌∙◌,
  List, [], ◌∷◌, ◌++◌, append_assoc, append-nil, true, false, Option, none, some, ltb, length,
  get_elem?, set, drop, length-append, length-drop, length-set, drop-drop, get_elem?_lt, arith,
  dec_lt,
}
use svisual.Prelude.Bytes.{Bytes}
use svisual.Prelude.Maps.{lookup, lookup-insert_self}
use svisual.Prelude.Rings.{next, wrap, window, window-set}
use svisual.Base.{RecData, Value, SignalData, Doubles}
use svisual.Server.Config.{Config, cycle_save_ms}
use svisual.Server.Registry.{Registry, ena_sz, with_memory, signal_buffer_ena}
use svisual.Server.Update.{ring_sz, bounds, update_signals_buff, next_pos, next_begin, push_record}

-- What is read outside of the buffer.
abbrev no_record : RecData
no_record = record { begin_time = 0; vals = [] }

-- The number of records from `begin_pos` up to `value_pos`.
abbrev count : ℕ → ℕ → ℕ → ℕ
count sz begin_pos value_pos = wrap sz (value_pos + sz - begin_pos)

-- The last `n` elements.
unfoldable pub keep_last {ℓ} : {A : Type ℓ} → ℕ → List A → List A
keep_last n xs = drop (length xs - n) xs

drop-append_le {ℓ} :
    {A : Type ℓ} (k : ℕ) (xs ys : List A) → k ≤ length xs → drop k (xs ++ ys) ≡ drop k xs ++ ys
drop-append_le zero xs ys h = refl
drop-append_le (suc k) [] ys h = absurd (omega arith)
drop-append_le (suc k) (x ∷ xs) ys h = drop-append_le k xs ys (omega arith)

-- The last `n` may be kept as one goes along.
keep_last-append {ℓ} :
    {A : Type ℓ} (n : ℕ) (xs ys : List A)
    → keep_last n (keep_last n xs ++ ys) ≡ keep_last n (xs ++ ys)
unfolding keep_last
keep_last-append n xs ys =
    ap (drop m) (sym (drop-append_le k xs ys (omega arith)))
    ∙ drop-drop k m (xs ++ ys)
    ∙ ap (λ j. drop j (xs ++ ys)) sum
  where
    k : ℕ
    k = length xs - n

    m : ℕ
    m = length (drop k xs ++ ys) - n

    sum : k + m ≡ length (xs ++ ys) - n
    sum = omega (arith, length-append (drop k xs) ys, length-drop k xs, length-append xs ys)

-- The positions after a record, in a full ring and in one with room.
moved_full :
    (sz b vp : ℕ)
    → b < sz
    → vp < sz
    → count sz b vp + 1 ≡ sz
    → (next_begin sz (next_pos sz vp) b ≡ next sz b)
      × (count sz (next sz b) (next_pos sz vp) ≡ count sz b vp)
moved_full sz b vp hb hv e = (ground arith, ground arith)

moved_room :
    (sz b vp : ℕ)
    → b < sz
    → vp < sz
    → count sz b vp + 1 < sz
    → (next_begin sz (next_pos sz vp) b ≡ b) × (count sz b (next_pos sz vp) ≡ suc (count sz b vp))
moved_room sz b vp hb hv e = (ground arith, ground arith)

count_lt :
    (sz b vp : ℕ) → b < sz → vp < sz → (count sz b vp < sz) × (vp ≡ wrap sz (b + count sz b vp))
count_lt sz b vp hb hv = (ground arith, ground arith)

-- A list that is short enough is kept.
keep_last_all {ℓ} : {A : Type ℓ} (n : ℕ) (xs : List A) → length xs ≤ n → keep_last n xs ≡ xs
unfolding keep_last
keep_last_all n xs h = ap (λ k. drop k xs) none_over
  where
    none_over : length xs - n ≡ 0
    none_over = omega arith

module _ {ℓ} {A : Type ℓ} (o : A) where
  length-window : (buffer : List A) (sz i n : ℕ) → length (window o buffer sz i n) ≡ n
  length-window buffer sz i zero = refl
  length-window buffer sz i (suc n) = ap suc (length-window buffer sz (next sz i) n)

  -- The window after a write at its end and the moves of both positions.
  slide :
      (buffer : List A) (sz b vp : ℕ) (d : A)
      → sz ≤ length buffer
      → b < sz
      → vp < sz
      → window o
          (set buffer vp d)
          sz
          (next_begin sz (next_pos sz vp) b)
          (count sz (next_begin sz (next_pos sz vp) b) (next_pos sz vp))
        ≡ keep_last (sz - 1) (window o buffer sz b (count sz b vp) ++ (d ∷ []))
  unfolding keep_last
  slide buffer sz b vp d hl hb hv = elim (dec_lt (count sz b vp + 1) sz) [
    | yes room ↦
        let none_over : length (old ++ (d ∷ [])) - (sz - 1) ≡ 0 = omega (arith, size) in
        ap₂ (λ i j. window o (set buffer vp d) sz i j) (moved_room sz b vp hb hv room).0
          (ap (λ i. count sz i (next_pos sz vp)) (moved_room sz b vp hb hv room).0
            ∙ (moved_room sz b vp hb hv room).1)
        ∙ longer
        ∙ sym (ap (λ j. drop j (old ++ (d ∷ []))) none_over)
    | no full ↦
        let e : count sz b vp + 1 ≡ sz = omega (arith, (count_lt sz b vp hb hv).0) in
        let one_over : length (old ++ (d ∷ [])) - (sz - 1) ≡ 1 = omega (arith, size) in
        ap₂ (λ i j. window o (set buffer vp d) sz i j) (moved_full sz b vp hb hv e).0
          (ap (λ i. count sz i (next_pos sz vp)) (moved_full sz b vp hb hv e).0
            ∙ (moved_full sz b vp hb hv e).1)
        ∙ ap (drop 1) longer
        ∙ sym (ap (λ j. drop j (old ++ (d ∷ []))) one_over)
  ]
    where
      old : List A
      old = window o buffer sz b (count sz b vp)

      size : length (old ++ (d ∷ [])) ≡ count sz b vp + 1
      size =
          length-append old (d ∷ []) ∙ ap (λ k. k + 1) (length-window buffer sz b (count sz b vp))

      longer : window o (set buffer vp d) sz b (suc (count sz b vp)) ≡ old ++ (d ∷ [])
      longer =
          window-set o (count sz b vp) buffer sz b vp d hl hb (count_lt sz b vp hb hv).0
            (count_lt sz b vp hb hv).1

module _ {D : Type 0} where
  -- What holds of a signal with its buffer enabled: the places that the code uses are in the buffer.
  pub record IsBuffered (c : Config) (sd : SignalData D) : Type 0 where
    pub enabled : sd.is_buff_enable ≡ true
    pub has_room : ring_sz c ≤ length sd.buff_data
    pub begin_in : sd.buff_begin_pos < ring_sz c
    pub value_in : sd.buff_value_pos < ring_sz c

  -- The records that a reader of the buffer finds, from `buffBeginPos` up to `buffValuePos`.
  unfoldable pub history : Config → SignalData D → List RecData
  history c sd =
      window no_record sd.buff_data (ring_sz c) sd.buff_begin_pos
        (count (ring_sz c) sd.buff_begin_pos sd.buff_value_pos)

  -- The records of a signal, one after another.
  unfoldable pub push_records :
      Doubles D → Config → List RecData → SignalData D → Option (SignalData D)
  push_records ops c [] sd = some sd
  push_records ops c (rd ∷ rds) sd = elim (push_record ops c rd sd) [
    | none ↦ none
    | some sd' ↦ push_records ops c rds sd'
  ]

module _ {D : Type 0} (ops : Doubles D) where
  -- The signal with a record at the end of its buffer, `first` being its oldest and `last` its newest.
  abbrev pushed : Config → RecData → RecData → RecData → SignalData D → SignalData D
  pushed c rd first last sd =
      let b = bounds ops sd.type last.vals sd.buff_min_value sd.buff_max_value in
      record sd {
        last_data = rd;
        buff_data = set sd.buff_data sd.buff_value_pos rd;
        buff_begin_pos =
            next_begin (ring_sz c) (next_pos (ring_sz c) sd.buff_value_pos) sd.buff_begin_pos;
        buff_value_pos = next_pos (ring_sz c) sd.buff_value_pos;
        buff_min_value = b.0;
        buff_max_value = b.1;
        buff_min_time = first.begin_time;
        buff_max_time = (last.begin_time + cycle_save_ms c) % 2 ^ 64;
      }

  push_record-eq-pushed :
      (c : Config) (rd first last : RecData) (sd : SignalData D)
      → IsBuffered c sd
      → get_elem? (set sd.buff_data sd.buff_value_pos rd) sd.buff_begin_pos ≡ some first
      → get_elem? (set sd.buff_data sd.buff_value_pos rd) sd.buff_value_pos ≡ some last
      → push_record ops c rd sd ≡ some (pushed c rd first last sd)
  unfolding push_record update_signals_buff
  push_record-eq-pushed c rd first last sd v ef el = rw (v.enabled, inside, el, ef, v.enabled) refl
    where
      inside : ltb sd.buff_value_pos (length sd.buff_data) ≡ true
      inside = ground (arith, v.has_room, v.value_in)

  pushed-IsBuffered :
      (c : Config) (rd first last : RecData) (sd : SignalData D)
      → IsBuffered c sd
      → IsBuffered c (pushed c rd first last sd)
  pushed-IsBuffered c rd first last sd v = record {
    enabled = v.enabled;
    has_room = omega (arith, v.has_room, length-set sd.buff_data sd.buff_value_pos rd);
    begin_in = ground (arith, v.begin_in);
    value_in = ground (arith, v.value_in);
  }

  -- A record goes to the end of the history, whose oldest goes if it is full.
  push_record_lem :
      (c : Config) (rd : RecData) (sd : SignalData D)
      → IsBuffered c sd
      → (sd' : SignalData D) × (push_record ops c rd sd ≡ some sd')
        × IsBuffered c sd'
        × (history c sd' ≡ keep_last (ring_sz c - 1) (history c sd ++ (rd ∷ [])))
  unfolding history
  push_record_lem c rd sd v =
      let buffer = set sd.buff_data sd.buff_value_pos rd in
      let (last, el) =
        get_elem?_lt buffer sd.buff_value_pos
          (omega (arith, v.has_room, v.value_in, length-set sd.buff_data sd.buff_value_pos rd)) in
      let (first, ef) =
        get_elem?_lt buffer sd.buff_begin_pos
          (omega (arith, v.has_room, v.begin_in, length-set sd.buff_data sd.buff_value_pos rd)) in
      (
        pushed c rd first last sd,
        push_record-eq-pushed c rd first last sd v ef el,
        pushed-IsBuffered c rd first last sd v,
        slide no_record sd.buff_data (ring_sz c) sd.buff_begin_pos sd.buff_value_pos rd v.has_room
            v.begin_in v.value_in,
      )

  length-history :
      (c : Config) (sd : SignalData D) → IsBuffered c sd → length (history c sd) < ring_sz c
  unfolding history
  length-history c sd v = omega (
    arith,
    length-window no_record sd.buff_data (ring_sz c) sd.buff_begin_pos
        (count (ring_sz c) sd.buff_begin_pos sd.buff_value_pos),
    (count_lt (ring_sz c) sd.buff_begin_pos sd.buff_value_pos v.begin_in v.value_in).0,
  )

  -- Any number of records go into the buffer of a signal without a place outside of it being used.
  -- What it then holds are the last of the records it held and of these, one less than its size.
  pub push_records_lem :
      (c : Config) (rds : List RecData) (sd : SignalData D)
      → IsBuffered c sd
      → (sd' : SignalData D) × (push_records ops c rds sd ≡ some sd')
        × IsBuffered c sd'
        × (history c sd' ≡ keep_last (ring_sz c - 1) (history c sd ++ rds))
  unfolding push_records
  push_records_lem c [] sd v = (
    sd,
    refl,
    v,
    sym (
        ap (keep_last (ring_sz c - 1)) (append-nil (history c sd))
        ∙ keep_last_all (ring_sz c - 1) (history c sd) (omega (arith, length-history c sd v))),
  )
  push_records_lem c (rd ∷ rds) sd v =
      let (sd1, e1, v1, h1) = push_record_lem c rd sd v in
      let (sd2, e2, v2, h2) = push_records_lem c rds sd1 v1 in
      (
        sd2,
        rw (push_records, e1) e2,
        v2,
        h2
            ∙ ap (λ h. keep_last (ring_sz c - 1) (h ++ rds)) h1
            ∙ keep_last-append (ring_sz c - 1) (history c sd ++ (rd ∷ [])) rds
            ∙ ap (keep_last (ring_sz c - 1)) (append_assoc (history c sd) (rd ∷ []) rds),
      )

length-with_memory :
    (junk : List Value) (rs : List RecData) → length (with_memory junk rs) ≡ length rs
length-with_memory junk [] = refl
length-with_memory junk (r ∷ rs) = ap suc (length-with_memory junk rs)

module _ {D : Type 0} where
  -- `signalBufferEna` gives a signal a buffer with all the places that the thread uses, and an empty
  -- history, if the positions of the signal are 0.
  pub signal_buffer_ena-IsBuffered :
      (c : Config) (junk : List Value) (sign : Bytes) (r : Registry D) (sd : SignalData D)
      → lookup sign r.signals ≡ some sd
      → sd.is_buff_enable ≡ false
      → sd.buff_begin_pos ≡ 0
      → sd.buff_value_pos ≡ 0
      → (sd' : SignalData D) × (lookup sign (signal_buffer_ena c junk sign r).0.signals ≡ some sd')
        × IsBuffered c sd'
        × (history c sd' ≡ [])
  unfolding signal_buffer_ena history
  signal_buffer_ena-IsBuffered c junk sign r sd found off b0 v0 = (
    enabled,
    rw (signal_buffer_ena, found, off) (lookup-insert_self sign enabled r.signals),
    record {
      enabled = refl;
      has_room = ground (arith, places);
      begin_in = ground (arith, b0);
      value_in = ground (arith, v0);
    },
    rw (b0, v0) empty_history,
  )
    where
      buffer : List RecData
      buffer =
          with_memory junk (resize (ena_sz c) (record { begin_time = 0; vals = [] }) sd.buff_data)

      enabled : SignalData D
      enabled = record sd { is_buff_enable = true; buff_data = buffer }

      places : length buffer ≡ ena_sz c
      places =
          length-with_memory junk
            (resize (ena_sz c) (record { begin_time = 0; vals = [] }) sd.buff_data)
          ∙ length-resize (ena_sz c) _ sd.buff_data

      none_yet : count (ring_sz c) 0 0 ≡ 0
      none_yet = ground arith

      empty_history : window no_record buffer (ring_sz c) 0 (count (ring_sz c) 0 0) ≡ []
      empty_history = rw none_yet refl
