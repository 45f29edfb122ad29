-- ===== src/Trigger/Laws.antt =====
-- What the triggers do over the passes of `workCycle`.
use svisual.Prelude.{
  ℕ, ◌++◌, ◌||◌, ◌^◌, ◌<◌, ◌≡◌, List, [], ◌∷◌, Bool, true, false, not, Option, none, some, ◌==◌,
  length, All, arith,
}
use svisual.Prelude.Bytes.{Bytes}
use svisual.Prelude.Maps.{Map, lookup, has, lookup-insert_self}
use svisual.Base.{Value, SignalData}
use svisual.Misc.Timer.{Clock, update}
use svisual.Trigger.{
  EventType, TriggerData, Floats, Watch, some_of, none_of, lt_int, cond_holds, check_condition,
  enlist, of_module, watch_trigger, less, equals, more, none_type, connect_module,
  disconnect_module, on_pos_front, on_neg_front, v_bool,
}

-- The trigger has its number and its pointer.
pub record IsWatched (t : TriggerData) (k : Bytes) (w : Watch) : Type 0 where
  pub numbered : has t.name w.trg_id ≡ true
  pub points : lookup t.name w.sdata ≡ some (some k)

module _ {D : Type 0} (fl : Floats) where
  -- The passes of `workCycle` at the given times, over one trigger: whether it is reported.
  unfoldable pub watch_run :
      TriggerData → List (ℕ × (Option Clock × Map (SignalData D))) → Watch → Option (List Bool)
  watch_run t [] w = some []
  watch_run t ((now, (lct, ss)) ∷ ps) w =
      elim (watch_trigger fl ss t (record w { tm_delay = update now lct w.tm_delay })) [
        | none ↦ none
        | some (fired, w') ↦ elim (watch_run t ps w') [
          | none ↦ none
          | some rest ↦ some (fired ∷ rest)
        ]
      ]

  -- Whether the condition of a trigger on the signal `k` holds.
  unfoldable pub holds_now : TriggerData → Bytes → Map (SignalData D) → Bool
  holds_now t k ss = elim (lookup k ss) [
    | none ↦ false
    | some sd ↦ cond_holds fl t.cond_type (t.cond_tout == 0) sd.type t.cond_value sd.last_data.vals
  ]

  -- The signal is there at every pass.
  abbrev pub AtAll : Bytes → List (ℕ × (Option Clock × Map (SignalData D))) → Type 0
  AtAll k [] = Unit {0}
  AtAll k ((now, (lct, ss)) ∷ ps) = (has k ss ≡ true) × AtAll k ps

  -- A trigger whose signal was not there when it was first seen keeps the null pointer: it is never
  -- reported, also when the signal comes. Triggers on modules are apart.
  pub watch_trigger_stale :
      (t : TriggerData) (ss : Map (SignalData D)) (w : Watch)
      → has t.name w.trg_id ≡ true
      → lookup t.name w.sdata ≡ some none
      → of_module t.cond_type ≡ false
      → watch_trigger fl ss t w ≡ some (false, w)
  unfolding watch_trigger enlist
  watch_trigger_stale t ss w numbered null other = ground arith

  -- A trigger on a module has no signal; when it is on, its null pointer is used.
  pub watch_trigger_null :
      (t : TriggerData) (ss : Map (SignalData D)) (w : Watch)
      → t.is_active ≡ true
      → of_module t.cond_type ≡ true
      → has (t.signal ++ t.module_name) ss ≡ false
      → has t.name w.trg_id ≡ false
      → watch_trigger fl ss t w ≡ none
  unfolding watch_trigger enlist check_condition
  watch_trigger_null t ss w on apart none_there new =
      ground (arith, lookup-insert_self t.name no_key w.sdata)
    where
      no_key : Option Bytes
      no_key = none

-- A steady condition over a packet that is not empty holds at one of its values too.
none_of-some_of :
    (hit miss : Value → Bool) (vs : List Value)
    → ((v : Value) → v < 2 ^ 32 → miss v ≡ false → hit v ≡ true)
    → 0 < length vs
    → All (λ v. v < 2 ^ 32) vs
    → none_of miss vs ≡ true
    → some_of hit vs ≡ true
unfolding none_of some_of
none_of-some_of hit miss [] h long words steady = absurd (omega arith)
none_of-some_of hit miss (v ∷ vs) h long words steady = ground (arith, h v)

-- On an `int` signal, what a trigger takes for steady over a packet also counts as an impulse,
-- whatever the type of the trigger. (On a `float` signal a NaN is steady, and no impulse.)
pub cond_holds_steady :
    (fl : Floats) (et : EventType) (c : Value) (vs : List Value)
    → 0 < length vs
    → c < 2 ^ 32
    → All (λ v. v < 2 ^ 32) vs
    → cond_holds fl et false 1 c vs ≡ true
    → cond_holds fl et true 1 c vs ≡ true
unfolding cond_holds
cond_holds_steady fl none_type c vs long small words h = h
cond_holds_steady fl connect_module c vs long small words h = h
cond_holds_steady fl disconnect_module c vs long small words h = h
cond_holds_steady fl less c vs long small words h =
    none_of-some_of (λ v. lt_int v c) (λ v. lt_int c v || v == c) vs (λ v k e. ground arith) long
      words h
cond_holds_steady fl equals c vs long small words h =
    none_of-some_of (λ v. v == c) (λ v. not (v == c)) vs (λ v k e. ground arith) long words h
cond_holds_steady fl more c vs long small words h =
    none_of-some_of (λ v. lt_int c v) (λ v. lt_int v c || v == c) vs (λ v k e. ground arith) long
      words h
cond_holds_steady fl on_pos_front c vs long small words h =
    none_of-some_of v_bool (λ v. not (v_bool v)) vs (λ v k e. ground arith) long words h
cond_holds_steady fl on_neg_front c vs long small words h =
    none_of-some_of (λ v. not (v_bool v)) v_bool vs (λ v k e. ground arith) long words h
