-- ===== src/Script.antt =====
-- The signals of scripts (src/SVScriptDialog/src/script_dialog_impl.cpp): what a script's calls read
-- and write. A script runs once for each value of a packet, `iterValue_`; Lua itself is outside.
-- `none` is a place outside of an array.
pub mod Packet
pub mod Cycle
use svisual.Prelude.{
  ℕ, suc, ◌+◌, ◌-◌, ◌*◌, ◌/◌, ◌%◌, ◌^◌, List, [], ◌∷◌, ◌++◌, Bool, true, false, ◌&&◌, Option, none,
  some, if◌then◌else◌, ltb, ◌==◌, length, set, get_elem?, min, replicate,
}
use svisual.Base.{RecData, SignalData, Value, Doubles}
use svisual.Server.Config.{Config, cycle_save_ms}
use svisual.Server.Update.{bounds, next_pos}

-- `SV_Script::ModeGr`
pub data ScriptMode : Type 0 where
  live replay : ScriptMode

-- `buffSz` of `setValue`; the cycle of the configuration is not 0.
abbrev pub script_sz : Config → ℕ
script_sz c = 2 * 3600000 / cycle_save_ms c

module _ {D : Type 0} (ops : Doubles D) (c : Config) where
  -- `updateSign`
  unfoldable pub update_sign : ℕ → ℕ → SignalData D → Option (SignalData D)
  update_sign begin_pos value_pos sd = elim (get_elem? sd.buff_data value_pos) [
    | none ↦ none
    | some last ↦ elim (get_elem? sd.buff_data begin_pos) [
      | none ↦ none
      | some first ↦
          let (lo, hi) = bounds ops sd.type last.vals sd.buff_min_value sd.buff_max_value in
          some (record sd {
            buff_min_time = first.begin_time;
            buff_max_time = (last.begin_time + cycle_save_ms c) % 2 ^ 64;
            buff_min_value = lo;
            buff_max_value = hi;
          })
    ]
  ]

  -- The positions behind a packet with `Player`.
  abbrev pub moved_live : ℕ → SignalData D → SignalData D
  moved_live vp sd =
      let next_vp = next_pos (script_sz c) vp in
      record sd {
        buff_value_pos = next_vp;
        buff_begin_pos =
            if next_vp == sd.buff_begin_pos
            then next_pos (script_sz c) sd.buff_begin_pos
            else sd.buff_begin_pos;
      }

  -- The positions and the buffer behind a packet with `Viewer`; `new Value[]` has some values.
  abbrev pub moved_replay : List Value → ℕ → ℕ → SignalData D → SignalData D
  moved_replay junk buff_sz vp sd = record sd {
    buff_value_pos = if vp + 1 == buff_sz then buff_sz - 1 else vp + 1;
    buff_data =
        if ltb (length sd.buff_data) buff_sz
        then sd.buff_data
          ++ replicate (buff_sz - length sd.buff_data) (record { begin_time = 0; vals = junk })
        else sd.buff_data;
  }

  abbrev pub moved : ScriptMode → List Value → ℕ → ℕ → SignalData D → SignalData D
  moved live junk buff_sz vp sd = moved_live vp sd
  moved replay junk buff_sz vp sd = moved_replay junk buff_sz vp sd

  abbrev pub place : ScriptMode → ℕ → SignalData D → ℕ
  place live c_pos sd = sd.buff_value_pos
  place replay c_pos sd = c_pos

  -- The end of `setValue` with the last value of a packet; `now` is the record in place `vp`.
  unfoldable pub end_packet :
      ScriptMode → List Value → ℕ → ℕ → RecData → ℕ → SignalData D → Option (SignalData D)
  unfolding update_sign
  end_packet mode junk buff_sz vp now time sd =
      elim (update_sign sd.buff_begin_pos vp (record sd {
        last_data = record (sd.last_data) { begin_time = time };
        buff_data = set sd.buff_data vp (record now { begin_time = time });
      })) [ none ↦ none | some sd' ↦ some (moved mode junk buff_sz vp sd') ]

  -- `setValue` with `mode_`, `buffCPos_`, `buffSz_` and `iterValue_`.
  unfoldable pub set_value :
      ScriptMode → List Value → ℕ → ℕ → ℕ → Value → ℕ → SignalData D → Option (SignalData D)
  unfolding end_packet
  set_value mode junk c_pos buff_sz iter v time sd =
      let vp = place mode c_pos sd in
      elim (get_elem? sd.buff_data vp) [
        | none ↦ none
        | some rd ↦
            let last : RecData = record (sd.last_data) { vals = set sd.last_data.vals iter v } in
            let now : RecData = record rd { vals = set rd.vals iter v } in
            let sd1 : SignalData D = record sd {
              last_data = last;
              buff_data = set sd.buff_data vp now;
            } in
            if ltb iter (length sd.last_data.vals) && ltb iter (length rd.vals)
            then if iter == c.packet_sz - 1
              then end_packet mode junk buff_sz vp now time sd1
              else some sd1
            else none
      ]

  -- The values that a script sets one after another, in the turns of a packet from `iter` on.
  unfoldable pub set_packet :
      ScriptMode → List Value → ℕ → ℕ → ℕ → List Value → ℕ → SignalData D → Option (SignalData D)
  set_packet mode junk c_pos buff_sz iter [] time sd = some sd
  set_packet mode junk c_pos buff_sz iter (v ∷ vs) time sd =
      elim (set_value mode junk c_pos buff_sz iter v time sd) [
        | none ↦ none
        | some sd' ↦ set_packet mode junk c_pos buff_sz (iter + 1) vs time sd'
      ]

  -- `getTimeValue`, and `getBoolValue`, `getIntValue` and `getFloatValue` by their 32 bits.
  unfoldable pub get_time_value : ScriptMode → ℕ → SignalData D → Option ℕ
  get_time_value live c_pos sd = some sd.last_data.begin_time
  get_time_value replay c_pos sd =
      elim (get_elem? sd.buff_data (min c_pos (length sd.buff_data - 1))) [
        | none ↦ none
        | some rd ↦ some rd.begin_time
      ]

  unfoldable pub get_value : ScriptMode → ℕ → ℕ → SignalData D → Option Value
  get_value live c_pos iter sd = get_elem? sd.last_data.vals iter
  get_value replay c_pos iter sd =
      elim (get_elem? sd.buff_data (min c_pos (length sd.buff_data - 1))) [
        | none ↦ none
        | some rd ↦ get_elem? rd.vals iter
      ]
