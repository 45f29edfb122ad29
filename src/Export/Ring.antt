-- ===== src/Export/Ring.antt =====
-- Which records of a signal the JSON export holds
-- (src/SVExportDialog/src/export_dialog_impl.cpp, with src/SVViewer/src/file_loader/file_loader.cpp).
use svisual.Prelude.{
  ℕ, zero, suc, ◌+◌, ◌-◌, ◌≤◌, ◌<◌, ◌≡◌, refl, sym, ap, ◌∙◌, List, [], ◌∷◌, ◌++◌, true, false,
  Option, none, some, if◌then◌else◌, ◌==◌, length, get_or, take, arith, append_assoc, append-nil,
  get_elem?-eq-get_or,
}
use svisual.Prelude.Rings.{next, wrap, window}
use svisual.Base.{RecData, SignalData, Doubles}
use svisual.Graph.Window.{no_rec}
use svisual.Graph.Window.Shown.{window-take, finish_lem}
use svisual.Viewer.FileLoader.Signal.{finish}
use svisual.Export.{
  Choice, in_time, next_place, Entry, json_values, json_record, json_loop, json_signal,
}

module _ (ch : Choice) (packet_sz cycle_save_ms : ℕ) where
  -- What is exported of a record if every value is wanted.
  abbrev pub entry_of : ℕ → RecData → Entry
  entry_of type rd = record {
    time = rd.begin_time;
    items = json_values type (take packet_sz rd.vals);
  }

  abbrev pub wanted : ℕ → RecData → List Entry
  wanted type rd = if in_time ch rd.begin_time then entry_of type rd ∷ [] else []

  json_record-wanted :
      (type cp : ℕ) (rd : RecData)
      → ch.every_values ≡ true
      → json_record ch packet_sz cycle_save_ms type cp rd ≡ some (wanted type rd)
  unfolding json_record
  json_record-wanted type cp rd all = ground (arith, all)

  -- What `n` places from `i` on add.
  abbrev pub from_places : ℕ → List RecData → ℕ → ℕ → List Entry
  from_places type buf i zero = []
  from_places type buf i (suc n) =
      wanted type (get_or buf i no_rec) ++ from_places type buf (next (length buf) i) n

  abbrev pub set_if : ℕ → Option (List Entry) → List Entry → Option (List Entry)
  set_if zero field es = field
  set_if (suc n) field es = some es

  set_if-some :
      (n type i : ℕ) (buf : List RecData) (es : List Entry)
      → set_if n (some es) (es ++ from_places type buf i n) ≡ some (es ++ from_places type buf i n)
  set_if-some zero type i buf es = ap some (sym (append-nil es))
  set_if-some (suc n) type i buf es = refl

  set_if-none : (n : ℕ) (es : List Entry) → set_if n none es ≡ (if n == 0 then none else some es)
  set_if-none zero es = refl
  set_if-none (suc n) es = ground arith

  -- The loop ends, and has gone over `n` places.
  json_loop_lem :
      (n fuel type : ℕ) (buf : List RecData) (vp cp : ℕ) (vals : List Entry)
      (field : Option (List Entry))
      → ch.every_values ≡ true
      → cp < length buf
      → n < length buf
      → vp ≡ wrap (length buf) (cp + n)
      → n < fuel
      → json_loop ch packet_sz cycle_save_ms fuel type buf vp cp vals field
        ≡ some (set_if n field (vals ++ from_places type buf cp n))
  unfolding json_loop
  json_loop_lem n zero type buf vp cp vals field every hc hn e hf = absurd (omega arith)
  json_loop_lem zero (suc fuel) type buf vp cp vals field every hc hn e hf =
      let here : (cp == vp) ≡ true = ground arith in rw here refl
  json_loop_lem (suc n) (suc fuel) type buf vp cp vals field every hc hn e hf =
      let away : (cp == vp) ≡ false = ground arith in
      rw
        (
          away,
          get_elem?-eq-get_or buf cp no_rec hc,
          json_record-wanted type cp (get_or buf cp no_rec) every,
        )
        (let es = wanted type (get_or buf cp no_rec) in
          let place : next_place (length buf) cp ≡ next (length buf) cp = ground arith in
          rw place (
            json_loop_lem n fuel type buf vp (next (length buf) cp) (vals ++ es) (some (vals ++ es))
              every (ground arith) (omega arith) (ground arith) (omega arith)
            ∙ ap some (
                set_if-some n type (next (length buf) cp) buf (vals ++ es)
                ∙ ap some (append_assoc vals es (from_places type buf (next (length buf) cp) n)))))

  abbrev pub entries_of : ℕ → List RecData → List Entry
  entries_of type [] = []
  entries_of type (rd ∷ rds) =
      if in_time ch rd.begin_time
      then entry_of type rd ∷ entries_of type rds
      else entries_of type rds

  from_places-window :
      (n type i : ℕ) (buf : List RecData)
      → from_places type buf i n ≡ entries_of type (window no_rec buf (length buf) i n)
  from_places-window zero type i buf = refl
  from_places-window (suc n) type i buf =
      ground (arith, from_places-window n type (next (length buf) i) buf)

  -- With every value wanted, the export of a signal ends, and has an entry for each record of its
  -- ring from its beginning up to the place of the next value, in order, that is in the time that
  -- is wanted; if there is no record there, the field "values" is missing. The ring has at least
  -- one place more than it has records there.
  pub json_signal_lem :
      {D : Type 0} (fuel n : ℕ) (sd : SignalData D)
      → ch.every_values ≡ true
      → sd.buff_begin_pos < length sd.buff_data
      → n < length sd.buff_data
      → sd.buff_value_pos ≡ wrap (length sd.buff_data) (sd.buff_begin_pos + n)
      → n < fuel
      → json_signal ch packet_sz cycle_save_ms fuel sd
        ≡ some (record {
          module_name = sd.module_name;
          signal = sd.name;
          entries =
              if n == 0
              then none
              else some (
                  entries_of sd.type
                    (window no_rec sd.buff_data (length sd.buff_data) sd.buff_begin_pos n));
        })
  unfolding json_signal
  json_signal_lem fuel n sd all hc hn e hf =
      let ended =
        json_loop_lem n fuel sd.type sd.buff_data sd.buff_value_pos sd.buff_begin_pos [] none all hc
          hn e hf in
      ground (
        arith,
        ended,
        set_if-none n (from_places sd.type sd.buff_data sd.buff_begin_pos n),
        from_places-window n sd.type sd.buff_begin_pos sd.buff_data,
      )

  -- The export of a signal as `loadSignalData` of the viewer leaves it lacks its last record.
  pub json_signal-finish :
      {D : Type 0} (dbl : Doubles D) (fuel : ℕ) (rds : List RecData) (sd : SignalData D)
      {sd' : SignalData D}
      → ch.every_values ≡ true
      → finish dbl packet_sz cycle_save_ms rds sd ≡ some sd'
      → sd.buff_begin_pos ≡ 0
      → 1 < length rds
      → length rds ≤ fuel
      → json_signal ch packet_sz cycle_save_ms fuel sd'
        ≡ some (record {
          module_name = sd'.module_name;
          signal = sd'.name;
          entries = some (entries_of sd'.type (take (length rds - 1) rds));
        })
  json_signal-finish dbl fuel rds sd {sd'} all e first some_recs enough =
      let (same, last, begins) = finish_lem dbl packet_sz cycle_save_ms rds sd e in
      let sz : length sd'.buff_data ≡ length rds = ap length same in
      let zero_pos : sd'.buff_begin_pos ≡ 0 = begins ∙ first in
      let done =
        json_signal_lem fuel (length rds - 1) sd' all (omega arith) (omega arith) (ground arith)
          (omega arith) in
      let more : (length rds - 1 == 0) ≡ false = ground arith in
      let shown : window no_rec sd'.buff_data (length sd'.buff_data) sd'.buff_begin_pos
            (length rds - 1)
          ≡ take (length rds - 1) rds =
        ap (λ i. window no_rec sd'.buff_data (length sd'.buff_data) i (length rds - 1)) zero_pos
        ∙ window-take (length rds - 1) 0 sd'.buff_data (omega arith)
        ∙ ap (take (length rds - 1)) same in
      ground (arith, done, more, shown)
