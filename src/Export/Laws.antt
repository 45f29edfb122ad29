-- ===== src/Export/Laws.antt =====
-- The export writes the records of the ring from its beginning up to the place of the next value, and
-- both formats hold the same (src/SVExportDialog/src/export_dialog_impl.cpp).
use svisual.Prelude.{
  ℕ, zero, suc, ◌≡◌, refl, sym, ap, ap₂, ◌∙◌, inl, inr, List, [], ◌∷◌, ◌++◌, Option, none, some,
  ◌==◌, length, take, get_elem?, arith, Bool-cases, Option-cases, append_assoc, append-nil,
}
use mathlib.Core.Option
use svisual.Prelude.Bytes.{Bytes, codes}
use svisual.Base.{RecData, SignalData, Value}
use svisual.Export.{
  Choice, Texts, next_place, csv_value, csv_values, csv_record, csv_loop, csv_signal, Item,
  bool_item, int_item, float_item, is_mark, Entry, JsonSignal, json_value, json_values, json_record,
  json_loop, json_signal,
}

-- The text of JSON values as the CSV file has it.
module _ (tx : Texts) where
  abbrev pub item_text : Item → Bytes
  item_text (bool_item v) = tx.bool_text v ++ codes ";"
  item_text (int_item v) = tx.int_text v ++ codes ";"
  item_text (float_item v) = tx.float_text v ++ codes ";"

  abbrev pub items_text : List Item → Bytes
  items_text [] = []
  items_text (i ∷ is) = item_text i ++ items_text is

  abbrev pub entries_text : List Entry → Bytes
  entries_text [] = []
  entries_text (e ∷ es) =
      (tx.time_text e.time ++ (codes ";" ++ items_text e.items)) ++ entries_text es

  abbrev pub field_text : Option (List Entry) → Bytes
  field_text none = []
  field_text (some es) = entries_text es

  abbrev pub signal_text : JsonSignal → Bytes
  signal_text s =
      ((s.module_name ++ (codes ";" ++ (s.signal ++ codes ";"))) ++ field_text s.entries)
      ++ (10 ∷ [])

  items_text-append : (is js : List Item) → items_text (is ++ js) ≡ items_text is ++ items_text js
  items_text-append [] js = refl
  items_text-append (i ∷ is) js =
      ap (λ t. item_text i ++ t) (items_text-append is js)
      ∙ sym (append_assoc (item_text i) (items_text is) (items_text js))

  entries_text-append :
      (es fs : List Entry) → entries_text (es ++ fs) ≡ entries_text es ++ entries_text fs
  entries_text-append [] fs = refl
  entries_text-append (e ∷ es) fs =
      ap (λ t. (tx.time_text e.time ++ (codes ";" ++ items_text e.items)) ++ t)
        (entries_text-append es fs)
      ∙ sym (
          append_assoc (tx.time_text e.time ++ (codes ";" ++ items_text e.items)) (entries_text es)
            (entries_text fs))

  csv_value-eq : (type : ℕ) (v : Value) → csv_value tx type v ≡ items_text (json_value type v)
  unfolding csv_value json_value
  csv_value-eq type v = ground (
    arith,
    append-nil (tx.bool_text v ++ codes ";"),
    append-nil (tx.int_text v ++ codes ";"),
    append-nil (tx.float_text v ++ codes ";"),
  )

  csv_values-eq :
      (type : ℕ) (vs : List Value) → csv_values tx type vs ≡ items_text (json_values type vs)
  unfolding csv_values json_values
  csv_values-eq type [] = refl
  csv_values-eq type (v ∷ vs) =
      ap₂ ◌++◌ (csv_value-eq type v) (csv_values-eq type vs)
      ∙ sym (items_text-append (json_value type v) (json_values type vs))

  module _ (ch : Choice) (packet_sz cycle_save_ms : ℕ) where
    csv_record-eq :
        (type cp : ℕ) (rd : RecData)
        → csv_record tx ch packet_sz cycle_save_ms type cp rd
          ≡ Option.map entries_text (json_record ch packet_sz cycle_save_ms type cp rd)
    unfolding csv_record json_record
    csv_record-eq type cp rd = ground (
      arith,
      Option-cases (is_mark ch cycle_save_ms cp),
      csv_values-eq type (take packet_sz rd.vals),
      csv_values-eq type (take 1 rd.vals),
      append-nil (
          tx.time_text rd.begin_time
          ++ (codes ";" ++ items_text (json_values type (take packet_sz rd.vals)))),
      append-nil (
          tx.time_text rd.begin_time
          ++ (codes ";" ++ items_text (json_values type (take 1 rd.vals)))),
    )

    csv_loop-eq :
        (fuel type : ℕ) (buf : List RecData) (vp cp : ℕ) (head : Bytes) (vals : List Entry)
        (field : Option (List Entry))
        → field_text field ≡ entries_text vals
        → csv_loop tx ch packet_sz cycle_save_ms fuel type buf vp cp (head ++ entries_text vals)
          ≡ Option.map
              (λ f. head ++ field_text f)
              (json_loop ch packet_sz cycle_save_ms fuel type buf vp cp vals field)
    unfolding csv_loop json_loop
    csv_loop-eq zero type buf vp cp head vals field h = refl
    csv_loop-eq (suc fuel) type buf vp cp head vals field h = elim (Bool-cases (cp == vp)) [
      | inl done ↦ rw done (ap (λ t. some (head ++ t)) (sym h))
      | inr more ↦ elim (Option-cases (get_elem? buf cp)) [
        | inl outside ↦ rw (more, outside) refl
        | inr (rd, inside) ↦
            elim (Option-cases (json_record ch packet_sz cycle_save_ms type cp rd)) [
              | inl fault ↦ rw (more, inside, csv_record-eq type cp rd, fault) refl
              | inr (es, made) ↦
                  let grown : (head ++ entries_text vals) ++ entries_text es
                      ≡ head ++ entries_text (vals ++ es) =
                    append_assoc head (entries_text vals) (entries_text es)
                    ∙ ap (λ t. head ++ t) (sym (entries_text-append vals es)) in
                  rw (more, inside, csv_record-eq type cp rd, made)
                    (ap
                        (csv_loop tx ch packet_sz cycle_save_ms fuel type buf vp
                          (next_place (length buf) cp))
                        grown
                      ∙ csv_loop-eq fuel type buf vp (next_place (length buf) cp) head (vals ++ es)
                          (some (vals ++ es)) refl)
            ]
      ]
    ]

    -- What the CSV file has of a signal is the text of what the JSON file has of it, for every
    -- choice, cycle and state of the ring; where one export reads outside of the ring, divides by
    -- zero or does not end, so does the other.
    pub csv_signal-eq-json_signal :
        {D : Type 0} (fuel : ℕ) (sd : SignalData D)
        → csv_signal tx ch packet_sz cycle_save_ms fuel sd
          ≡ Option.map signal_text (json_signal ch packet_sz cycle_save_ms fuel sd)
    unfolding csv_signal json_signal
    csv_signal-eq-json_signal fuel sd =
        let head = sd.module_name ++ (codes ";" ++ (sd.name ++ codes ";")) in
        let same =
          ap
            (csv_loop tx ch packet_sz cycle_save_ms fuel sd.type sd.buff_data sd.buff_value_pos
              sd.buff_begin_pos)
            (sym (append-nil head))
          ∙ csv_loop-eq fuel sd.type sd.buff_data sd.buff_value_pos sd.buff_begin_pos head [] none
              refl in
        elim (Option-cases (
          json_loop ch packet_sz cycle_save_ms fuel sd.type sd.buff_data sd.buff_value_pos
            sd.buff_begin_pos [] none)) [
              | inl waits ↦ ground (arith, same, waits)
              | inr (field, ends) ↦ ground (arith, same, ends)
            ]
