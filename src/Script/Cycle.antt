-- ===== src/Script/Cycle.antt =====
-- The cycle of the scripts in the viewer (`fillBuffer` and `workCycle` of
-- src/SVScriptDialog/src/script_dialog_impl.cpp). Lua and the scripts are `run`, one turn of them at
-- a place and a value, with whether it ends with a message, and `load`.
pub mod Laws
pub mod Room
use svisual.Prelude.{
  ℕ, zero, suc, ◌+◌, ◌-◌, ◌*◌, ◌≤◌, ◌<◌, ◌≡◌, refl, sym, ap, ◌∙◌, List, [], ◌∷◌, ◌++◌, Bool, true,
  false, not, ◌&&◌, if◌then◌else◌, ltb, ◌==◌, length, max, replicate,
}
use svisual.Prelude.Maps.{Map, map_values}
use svisual.Base.{SignalData, Value}
use svisual.Prelude.Bytes.{codes, str_eq}

-- `buffCPos_`, `buffSz_`, `buffSzMem_` and `signBuff_` of `ScriptDialog`, and what Lua keeps.
pub record Scripts (D : Type 0) (L : Type 0) : Type 0 where
  pub buff_c_pos : ℕ
  pub buff_sz : ℕ
  pub buff_sz_mem : ℕ
  pub signals : Map (SignalData D)
  pub lua : L

module _ {D : Type 0} where
  -- `fillBuffer`: the longest buffer, and a signal of scripts with room for as much.
  unfoldable pub longest : ℕ → List (SignalData D) → ℕ
  longest buff_sz [] = buff_sz
  longest buff_sz (sd ∷ sds) = longest (max buff_sz (length sd.buff_data)) sds

  unfoldable pub refilled : List Value → ℕ → SignalData D → SignalData D
  refilled junk buff_sz sd =
      if str_eq sd.module_name (codes "Virtual")
      then record sd {
        buff_begin_pos = 0;
        buff_value_pos = 0;
        buff_min_time = 0;
        buff_max_time = 1;
        buff_data =
            if ltb (length sd.buff_data) buff_sz
            then sd.buff_data
              ++ replicate (buff_sz - length sd.buff_data) (record { begin_time = 0; vals = junk })
            else sd.buff_data;
      }
      else sd

module _ {D L : Type 0} where
  -- `fillBuffer`; `sources` are the signals of `pfGetCopySignalRef` if a script is selected.
  unfoldable pub fill_buffer : List Value → List (SignalData D) → Scripts D L → Bool × Scripts D L
  fill_buffer junk sources st =
      let buff_sz = longest st.buff_sz sources in
      if st.buff_sz_mem == buff_sz then (false, record st { buff_sz = buff_sz }) else (
        true,
        record st {
          buff_sz = buff_sz;
          buff_sz_mem = buff_sz;
          signals = map_values (refilled junk buff_sz) st.signals;
        },
      )

module _ {S : Type 0} (run : ℕ → ℕ → S → Bool × S) where
  -- The inner loop: the turns that are left of a packet, with `isNoError`.
  unfoldable pub run_packet : ℕ → ℕ → ℕ → Bool → S → Bool × S
  run_packet zero c_pos iter ok s = (ok, s)
  run_packet (suc left) c_pos iter ok s =
      let (err, s') = run c_pos iter s in
      elim (not ok && err) [ true ↦ (false, s') | false ↦ run_packet left c_pos (iter + 1) true s' ]

  -- The outer loop, with fuel: the place behind, `isNoError`.
  unfoldable pub run_places : ℕ → ℕ → ℕ → ℕ → Bool → S → ℕ × (Bool × S)
  run_places zero packet_sz buff_sz c_pos ok s = (c_pos, (ok, s))
  run_places (suc fuel) packet_sz buff_sz c_pos ok s = elim (ltb c_pos buff_sz) [
    | false ↦ (c_pos, (ok, s))
    | true ↦
        let (ok', s') = run_packet packet_sz c_pos 0 ok s in
        elim ok' [
          | false ↦ (c_pos + 1, (false, s'))
          | true ↦ run_places fuel packet_sz buff_sz (c_pos + 1) true s'
        ]
  ]

  -- The turns of a list, one after another.
  unfoldable pub run_all : List (ℕ × ℕ) → S → S
  run_all [] s = s
  run_all ((c_pos, iter) ∷ ts) s = run_all ts (run c_pos iter s).1

-- The branch of `workCycle` for the viewer; the first result is whether it calls for new signals.
module _ {D L : Type 0} (run : ℕ → ℕ → Map (SignalData D) × L → Bool × (Map (SignalData D) × L))
    (load : L → L) where
  unfoldable pub viewer_cycle :
      List Value → ℕ → List (SignalData D) → Scripts D L → Bool × Scripts D L
  viewer_cycle junk packet_sz sources st =
      let (grown, st1) = fill_buffer junk sources st in
      let c_pos = if grown then 0 else st1.buff_c_pos in
      let is_new = c_pos == 0 in
      let lua1 = if is_new then load st1.lua else st1.lua in
      let (c_pos', (ok, (signals', lua'))) =
        run_places run (st1.buff_sz - c_pos) packet_sz st1.buff_sz c_pos false
          (st1.signals, lua1) in
      (is_new, record st1 { buff_c_pos = c_pos'; signals = signals'; lua = lua' })
