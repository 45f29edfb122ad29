-- ===== src/Export.antt =====
-- The export of signals (src/SVExportDialog/src/export_dialog_impl.cpp): the loops over the ring of a
-- signal that make the CSV text and the JSON values of it. The texts of numbers, and what the user
-- has chosen, are arguments; a loop takes fuel, and `none` is also a read outside of the ring and a
-- division by zero. The
-- times stand for their `double`, which is exact below 2^53.
pub mod Laws
pub mod Ring
use svisual.Prelude.{
  ℕ, zero, suc, ◌+◌, ◌-◌, ◌*◌, ◌/◌, ◌%◌, ◌<◌, List, [], ◌∷◌, ◌++◌, Bool, true, false, not, ◌&&◌,
  ◌||◌, Option, none, some, if◌then◌else◌, ltb, leb, ◌==◌, length, take, get_elem?, map,
}
use svisual.Prelude.Bytes.{Bytes, codes}
use svisual.Base.{RecData, SignalData, Value}

-- The fields of the dialog.
pub record Choice : Type 0 where
  pub begin_time : ℕ
  pub end_time : ℕ
  pub all_time : Bool
  pub every_values : Bool
  pub every_min : Bool
  pub every_sec : Bool

-- How a `QTextStream` writes a `uint64_t`, and a value as a `bool`, an `int` and a `float`.
pub record Texts : Type 0 where
  pub time_text : ℕ → Bytes
  pub bool_text : Value → Bytes
  pub int_text : Value → Bytes
  pub float_text : Value → Bytes

-- `allTime || (beginTime < dt && dt < endTime)`
abbrev pub in_time : Choice → ℕ → Bool
in_time ch dt = ch.all_time || (ltb ch.begin_time dt && ltb dt ch.end_time)

-- `cp % (period / SV_CYCLESAVE_MS) == 0`; `none` is a division by zero.
unfoldable pub divides : ℕ → ℕ → ℕ → Option Bool
divides period cycle_save_ms cp =
    if (cycle_save_ms == 0) || (period / cycle_save_ms == 0)
    then none
    else some (cp % (period / cycle_save_ms) == 0)

-- `everySec && ...`, on the right of `||`.
unfoldable pub is_second : Choice → ℕ → ℕ → Option Bool
is_second ch cycle_save_ms cp = if ch.every_sec then divides 1000 cycle_save_ms cp else some false

-- Whether place `cp` begins a minute or a second, as far as the user wants these.
unfoldable pub is_mark : Choice → ℕ → ℕ → Option Bool
is_mark ch cycle_save_ms cp =
    if ch.every_min
    then elim (divides 60000 cycle_save_ms cp) [
      | none ↦ none
      | some true ↦ some true
      | some false ↦ is_second ch cycle_save_ms cp
    ]
    else is_second ch cycle_save_ms cp

-- What one record adds to a text or an array, where the test of its place has an answer.
abbrev pub if_mark {ℓ} : {A : Type ℓ} → Option Bool → List A → Option (List A)
if_mark none xs = none
if_mark (some true) xs = some xs
if_mark (some false) xs = some []

abbrev pub next_place : ℕ → ℕ → ℕ
next_place bsz cp = if leb bsz (cp + 1) then 0 else cp + 1

module _ (tx : Texts) where
  -- The `switch` on the type, which writes nothing for a type that is none.
  unfoldable pub csv_value : ℕ → Value → Bytes
  csv_value type v =
      if type == 0
      then tx.bool_text v ++ codes ";"
      else if type == 1
      then tx.int_text v ++ codes ";"
      else if type == 2
      then tx.float_text v ++ codes ";"
      else []

  unfoldable pub csv_values : ℕ → List Value → Bytes
  csv_values type [] = []
  csv_values type (v ∷ vs) = csv_value type v ++ csv_values type vs

module _ (tx : Texts) (ch : Choice) (packet_sz cycle_save_ms : ℕ) where
  -- The body of the loop of `exportToCSV`: what it adds.
  unfoldable pub csv_record : ℕ → ℕ → RecData → Option Bytes
  unfolding csv_values csv_value
  csv_record type cp rd =
      if in_time ch rd.begin_time
      then if ch.every_values
        then some (
            tx.time_text rd.begin_time
            ++ (codes ";" ++ csv_values tx type (take packet_sz rd.vals)))
        else if_mark (is_mark ch cycle_save_ms cp)
            (tx.time_text rd.begin_time ++ (codes ";" ++ csv_values tx type (take 1 rd.vals)))
      else some []

  -- `while (cp != vp)` of `exportToCSV`.
  unfoldable pub csv_loop : ℕ → ℕ → List RecData → ℕ → ℕ → Bytes → Option Bytes
  csv_loop zero type buf vp cp out = none
  csv_loop (suc fuel) type buf vp cp out =
      let rest : Option Bytes = elim (get_elem? buf cp) [
        | none ↦ none
        | some rd ↦ elim (csv_record type cp rd) [
          | none ↦ none
          | some text ↦ csv_loop fuel type buf vp (next_place (length buf) cp) (out ++ text)
        ]
      ] in
      if cp == vp then some out else rest

  -- One turn of `for (auto& s : expSignals_)` of `exportToCSV`.
  unfoldable pub csv_signal : {D : Type 0} → ℕ → SignalData D → Option Bytes
  csv_signal fuel sd =
      elim (csv_loop fuel sd.type sd.buff_data sd.buff_value_pos sd.buff_begin_pos
        (sd.module_name ++ (codes ";" ++ (sd.name ++ codes ";")))) [
          | none ↦ none
          | some out ↦ some (out ++ (10 ∷ []))
        ]

-- A value in a JSON array.
pub data Item : Type 0 where
  bool_item int_item float_item : Value → Item

-- `jsValue`: the fields "time" and "values".
pub record Entry : Type 0 where
  pub time : ℕ
  pub items : List Item

-- `jsSignal`; its field "values" is set only in the loop.
pub record JsonSignal : Type 0 where
  pub module_name : Bytes
  pub signal : Bytes
  pub entries : Option (List Entry)

unfoldable pub json_value : ℕ → Value → List Item
json_value type v =
    if type == 0
    then bool_item v ∷ []
    else if type == 1
    then int_item v ∷ []
    else if type == 2
    then float_item v ∷ []
    else []

unfoldable pub json_values : ℕ → List Value → List Item
json_values type [] = []
json_values type (v ∷ vs) = json_value type v ++ json_values type vs

module _ (ch : Choice) (packet_sz cycle_save_ms : ℕ) where
  -- The body of the loop of `exportToJSON`: what it appends to `jsSignalVals`.
  unfoldable pub json_record : ℕ → ℕ → RecData → Option (List Entry)
  unfolding json_values json_value
  json_record type cp rd =
      if in_time ch rd.begin_time
      then if ch.every_values
        then some (
            record { time = rd.begin_time; items = json_values type (take packet_sz rd.vals) } ∷ [])
        else if_mark (is_mark ch cycle_save_ms cp)
            (record { time = rd.begin_time; items = json_values type (take 1 rd.vals) } ∷ [])
      else some []

  -- `while (cp != vp)` of `exportToJSON`, with `jsSignalVals` and the field "values".
  unfoldable pub json_loop :
      ℕ → ℕ → List RecData → ℕ → ℕ → List Entry → Option (List Entry) → Option (Option (List Entry))
  json_loop zero type buf vp cp vals field = none
  json_loop (suc fuel) type buf vp cp vals field =
      let rest : Option (Option (List Entry)) = elim (get_elem? buf cp) [
        | none ↦ none
        | some rd ↦ elim (json_record type cp rd) [
          | none ↦ none
          | some es ↦
              let vals' = vals ++ es in
              json_loop fuel type buf vp (next_place (length buf) cp) vals' (some vals')
        ]
      ] in
      if cp == vp then some field else rest

  -- One turn of `for (auto& s : expSignals_)` of `exportToJSON`.
  unfoldable pub json_signal : {D : Type 0} → ℕ → SignalData D → Option JsonSignal
  json_signal fuel sd =
      elim (json_loop fuel sd.type sd.buff_data sd.buff_value_pos sd.buff_begin_pos [] none) [
        | none ↦ none
        | some field ↦
            some (record { module_name = sd.module_name; signal = sd.name; entries = field })
      ]
