-- ===== src/Server/Update.antt =====
-- `ThreadUpdate` (src/SVServer/src/thread_update.h, thread_update.cpp): the thread that takes the
-- records out of the ring, keeps the last packet and the two-hour buffer of each signal, hands the
-- values to the archive, and notices modules that come and go. `none` is a null pointer or an array
-- used outside of its places. `sref` and `mref` hold, of the pointers, only their keys.
pub mod Ring
pub mod Links
pub mod Restart
use svisual.Prelude.{
  ℕ, zero, suc, ◌+◌, ◌-◌, ◌*◌, ◌/◌, ◌%◌, ◌^◌, List, [], ◌∷◌, ◌++◌, Bool, true, false, not, ◌&&◌,
  ◌||◌, Option, none, some, if◌then◌else◌, ltb, leb, ◌==◌, length, get_elem?, set, replicate,
}
use svisual.Prelude.Bytes.{Bytes, codes, str_eq}
use svisual.Prelude.Maps.{Map, lookup, has, insert, adjust}
use svisual.Base.{RecData, Value, ModuleData, new_module, SignalData, Doubles}
use svisual.Server.Config.{Config, cycle_save_ms}
use svisual.Server.Buffer.{InputData}
use svisual.Server.Registry.{Registry, get_signal_data, get_module_data, add_signal, add_module}
use svisual.Server.Archive
use svisual.Server.Archive.{Archive, FileResult}

-- What the callbacks are told.
pub data Event : Type 0 where
  update_signals add_signals : Event
  module_connect module_disconnect : Bytes → Event

-- The state that `updateCycle` keeps between its turns, and what it shares.
pub record Thread (D : Type 0) : Type 0 where
  pub cng : Config
  pub registry : Registry D
  pub archive : Archive
  pub sref : Map (Unit {0})
  pub mref : Map (Unit {0})
  pub sign_active : Map Bool
  pub module_active : Map Bool

-- `buffSz` in `updateSignals`: two hours, at least 1; the cycle of the configuration is not 0.
abbrev pub ring_sz : Config → ℕ
ring_sz c = let n = 2 * 3600000 / cycle_save_ms c in if n == 0 then 1 else n

-- `uint64_t` t - 5000
abbrev pub before : ℕ → ℕ
before t = (t + 2 ^ 64 - 5000) % 2 ^ 64

-- The positions of the ring after a record at `vp`.
abbrev pub next_pos : ℕ → ℕ → ℕ
next_pos sz vp = if vp + 1 == sz then 0 else vp + 1

abbrev pub next_begin : ℕ → ℕ → ℕ → ℕ
next_begin sz vp begin_pos =
    if vp == begin_pos then (if leb sz (begin_pos + 1) then 0 else begin_pos + 1) else begin_pos

-- The callbacks at the end of `updateSignals`.
abbrev pub notices : List InputData → Bool → List Event
notices [] is_new = []
notices (_ ∷ _) true = update_signals ∷ add_signals ∷ []
notices (_ ∷ _) false = update_signals ∷ []

module _ {D : Type 0} where
  -- The module that it makes if there is none.
  abbrev pub with_module : Bytes → Registry D → Registry D
  with_module m r =
      if has m r.modules then r else (add_module (record (new_module m) { is_enable = true }) r).0

  -- What a record leaves: the signal, the archive, and the flags of the signal and its module.
  abbrev pub marked : Bytes → Bytes → SignalData D → Archive → Thread D → Thread D
  marked sign m sd a t = record t {
    registry = record (t.registry) { signals = adjust sign (λ _. sd) t.registry.signals };
    archive = a;
    sign_active = insert sign true t.sign_active;
    module_active = insert m true t.module_active;
  }

  -- The archive's part of a record.
  abbrev pub archived : (Bytes → Bool) → FileResult → Bytes → RecData → Thread D → Option Archive
  archived known ok sign rd t =
      if t.cng.out_archive_ena || t.cng.out_data_base_ena
      then Archive.add_value known ok sign rd t.archive
      else some t.archive

module _ {D : Type 0} (ops : Doubles D) where
  open ops use {zero_d, one_d, of_int, of_float, lt_d}

  -- The loop of `updateSignalsBuff` over the values of a packet: `minValue`, `maxValue`.
  unfoldable pub extend : (Value → D) → List Value → D → D → D × D
  extend of_value [] lo hi = (lo, hi)
  extend of_value (v ∷ vs) lo hi =
      extend of_value vs (if lt_d (of_value v) lo then of_value v else lo)
        (if lt_d hi (of_value v) then of_value v else hi)

  -- The bounds of a signal's values after a packet; those of a `bool`, and of a type that is none,
  -- stay as they are.
  abbrev pub bounds : ℕ → List Value → D → D → D × D
  bounds type vs lo hi =
      if type == 1
      then extend of_int vs lo hi
      else if type == 2
      then extend of_float vs lo hi
      else (lo, hi)

  -- `updateSignalsBuff`
  unfoldable pub update_signals_buff : Config → ℕ → ℕ → SignalData D → Option (SignalData D)
  update_signals_buff c begin_pos value_pos sd = elim (get_elem? sd.buff_data value_pos) [
    | none ↦ none
    | some last ↦ elim (get_elem? sd.buff_data begin_pos) [
      | none ↦ none
      | some first ↦
          let (lo, hi) = bounds sd.type last.vals sd.buff_min_value sd.buff_max_value in
          some (record sd {
            buff_min_value = lo;
            buff_max_value = hi;
            buff_min_time = first.begin_time;
            buff_max_time = (last.begin_time + cycle_save_ms c) % 2 ^ 64;
          })
    ]
  ]

  -- The block of `updateSignals` under the lock, for the signal of a record.
  unfoldable pub push_record : Config → RecData → SignalData D → Option (SignalData D)
  unfolding update_signals_buff
  push_record c rd sd =
      let sd1 : SignalData D = record sd { last_data = rd } in
      let sd2 : SignalData D = record sd1 { buff_data = set sd.buff_data sd.buff_value_pos rd } in
      if sd.is_buff_enable
      then if ltb sd.buff_value_pos (length sd.buff_data)
        then elim (update_signals_buff c sd.buff_begin_pos sd.buff_value_pos sd2) [
          | none ↦ none
          | some sd3 ↦
              let vp = next_pos (ring_sz c) sd.buff_value_pos in
              some (record sd3 {
                buff_value_pos = vp;
                buff_begin_pos = next_begin (ring_sz c) vp sd.buff_begin_pos;
              })
        ]
        else none
      else some sd1

  -- The signal that `ThreadUpdate::addSignal` makes at time `now`.
  abbrev pub new_signal : Config → ℕ → InputData → SignalData D
  new_signal c now bp = record {
    id = 0;
    is_active = true;
    is_delete = false;
    is_buff_enable = false;
    name = bp.name;
    module_name = bp.module_name;
    group = [];
    comment = [];
    type = bp.type;
    last_data = record { begin_time = now; vals = replicate c.packet_sz 0 };
    buff_data = [];
    buff_begin_pos = 0;
    buff_value_pos = 0;
    buff_min_time = before now;
    buff_max_time = (now + 5000) % 2 ^ 64;
    buff_min_value = zero_d;
    buff_max_value = one_d;
  }

  -- `ThreadUpdate::addSignal`, and the pointers that `updateSignals` takes of the signal and its
  -- module.
  unfoldable pub take_signal : ℕ → InputData → Thread D → Thread D
  take_signal now bp t = record t {
    registry = (add_signal (new_signal t.cng now bp) (with_module bp.module_name t.registry)).0;
    archive = Archive.add_signal bp.name bp.module_name t.archive;
    sref = insert (bp.name ++ bp.module_name) tt t.sref;
    mref = insert bp.module_name tt t.mref;
  }

  -- The body of the loop over the records in `updateSignals`; the `Bool` is `isNewSign`. `now` is
  -- the clock, and `ok` how the writing of the archive goes.
  unfoldable pub update_record : ℕ → FileResult → InputData → Thread D → Option (Thread D × Bool)
  update_record now ok bp t =
      let sign = bp.name ++ bp.module_name in
      let is_new = not (has sign t.sref) in
      let t' : Thread D = if is_new then take_signal now bp t else t in
      elim (lookup sign t'.registry.signals) [
        | none ↦ some (t', is_new)
        | some sd ↦ elim (push_record t.cng bp.rec sd) [
          | none ↦ none
          | some sd' ↦ elim (archived (λ k. has k t'.registry.signals) ok sign bp.rec t') [
            | none ↦ none
            | some a ↦ some (marked sign bp.module_name sd' a t', is_new)
          ]
        ]
      ]

  -- The loop over what `getDataByReadPos` gave; the `Bool` is `isNewSign`.
  unfoldable pub update_records :
      ℕ → FileResult → List InputData → Thread D → Option (Thread D × Bool)
  update_records now ok [] t = some (t, false)
  update_records now ok (bp ∷ bps) t = elim (update_record now ok bp t) [
    | none ↦ none
    | some (t', new) ↦ elim (update_records now ok bps t') [
      | none ↦ none
      | some (t'', more) ↦ some (t'', new || more)
    ]
  ]
