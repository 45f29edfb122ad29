-- ===== src/Server/Registry.antt =====
-- The signals and modules that the server knows (src/SVServer/src/server.cpp): two maps, guarded by
-- `m_mtxCommon`. The code keeps pointers; every holder of a pointer finds it under the signal's key,
-- so here the objects stand in the maps themselves.
pub mod Laws
use svisual.Prelude.{
  ℕ, resize, zero, suc, ◌+◌, ◌-◌, ◌*◌, ◌/◌, max, List, [], ◌∷◌, ◌++◌, map, Bool, true, false,
  Option, none, some, if◌then◌else◌, length, take,
}
use svisual.Prelude.Bytes.{Bytes}
use svisual.Prelude.Maps.{Map, lookup, has, insert}
use svisual.Base.{RecData, Value, ModuleData, new_module, SignalData, sign_of}
use svisual.Server.Config.{Config, cycle_save_ms}

-- `m_signalData`, `m_moduleData`
pub record Registry (D : Type 0) : Type 0 where
  pub signals : Map (SignalData D)
  pub modules : Map ModuleData

-- The size of a signal's buffer that `signalBufferEna` sets: two hours, at least 10.
abbrev pub ena_sz : Config → ℕ
ena_sz c = max 10 (2 * 3600000 / cycle_save_ms c)

-- The records of a buffer with values in new memory. `junk` is what the memory holds, which the
-- code does not clear.
abbrev pub with_memory : List Value → List RecData → List RecData
with_memory junk [] = []
with_memory junk (r ∷ rs) = record r { vals = junk } ∷ with_memory junk rs

module _ {D : Type 0} where
  abbrev pub empty_registry : Registry D
  empty_registry = record { signals = []; modules = [] }

  -- `getSignalData`, `getModuleData`; `none` is the null pointer.
  abbrev pub get_signal_data : Bytes → Registry D → Option (SignalData D)
  get_signal_data sign r = lookup sign r.signals

  abbrev pub get_module_data : Bytes → Registry D → Option ModuleData
  get_module_data m r = lookup m r.modules

  -- `getModuleSignals`
  abbrev pub get_module_signals : Bytes → Registry D → List Bytes
  get_module_signals m r = elim (lookup m r.modules) [ none ↦ [] | some md ↦ md.signls ]

  -- The module of a signal that is added, made if it is not there.
  abbrev pub module_for : Bytes → Registry D → ModuleData
  module_for m r = elim (lookup m r.modules) [
    | none ↦ record (new_module m) { is_enable = true }
    | some md ↦ md
  ]

  -- The module with the signal at the end of its list.
  abbrev pub listing : SignalData D → Registry D → ModuleData
  listing sd r =
      let md = module_for sd.module_name r in record md { signls = md.signls ++ (sign_of sd ∷ []) }

  abbrev pub with_signal : SignalData D → Registry D → Registry D
  with_signal sd r = record {
    signals = insert (sign_of sd) sd r.signals;
    modules = insert sd.module_name (listing sd r) r.modules;
  }

  -- `addSignal`
  unfoldable pub add_signal : SignalData D → Registry D → Registry D × Bool
  add_signal sd r = if has (sign_of sd) r.signals then (r, false) else (with_signal sd r, true)

  -- `addModule`
  unfoldable pub add_module : ModuleData → Registry D → Registry D × Bool
  add_module md r =
      if has md.module_name r.modules
      then (r, false)
      else (record r { modules = insert md.module_name md r.modules }, true)

  -- `signalBufferEna`; the cycle of the configuration is not 0.
  unfoldable pub signal_buffer_ena : Config → List Value → Bytes → Registry D → Registry D × Bool
  signal_buffer_ena c junk sign r = elim (lookup sign r.signals) [
    | none ↦ (r, false)
    | some sd ↦ if sd.is_buff_enable then (r, true) else (
      record r {
        signals =
            insert sign
              (record sd {
                is_buff_enable = true;
                buff_data =
                    with_memory junk
                      (resize (ena_sz c) (record { begin_time = 0; vals = [] }) sd.buff_data);
              })
              r.signals;
      },
      true,
    )
  ]
