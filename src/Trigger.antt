-- ===== src/Trigger.antt =====
-- The triggers (src/SVTriggerDialog/trigger_dialog.h, src/trigger_dialog_impl.cpp): `checkCondition`
-- and the pass of `workCycle` over the triggers. `none` is a null pointer that is used. Timeouts are
-- not negative.
pub mod Laws
use svisual.Prelude.{
  ℕ, ◌+◌, ◌%◌, ◌^◌, List, [], ◌∷◌, ◌++◌, Bool, true, false, not, ◌&&◌, ◌||◌, Option, none, some,
  if◌then◌else◌, ltb, ◌==◌,
}
use svisual.Prelude.Bytes.{Bytes}
use svisual.Prelude.Maps.{Map, lookup, has, insert}
use svisual.Base.{Value, SignalData}
use svisual.Misc.Front.{Front, pos_front}
use svisual.Misc.Timer.{TimerDelay, on_delay_sec}

-- `SV_Trigger::EventType`
pub data EventType : Type 0 where
  none_type connect_module disconnect_module less equals more on_pos_front on_neg_front : EventType

-- `SV_Trigger::TriggerData`, without what only the dialog and the started process use. `cond_value`
-- is the word of the `int`.
pub record TriggerData : Type 0 where
  pub is_active : Bool
  pub name : Bytes
  pub signal : Bytes
  pub module_name : Bytes
  pub cond_type : EventType
  pub cond_value : Value
  pub cond_tout : ℕ

-- `<` and `==` of a `float` and an `int` that is converted to it, and `>`; all are false on a NaN.
pub record Floats : Type 0 where
  pub lt_f : Value → Value → Bool
  pub eq_f : Value → Value → Bool
  pub gt_f : Value → Value → Bool

-- `<` of `int`.
abbrev pub lt_int : Value → Value → Bool
lt_int a b = ltb ((a + 2 ^ 31) % 2 ^ 32) ((b + 2 ^ 31) % 2 ^ 32)

-- `vBool`, the lowest byte.
abbrev pub v_bool : Value → Bool
v_bool v = not (v % 256 == 0)

-- `ena = false; for (...) if (p) { ena = true; break; }`
unfoldable pub some_of : (Value → Bool) → List Value → Bool
some_of p [] = false
some_of p (v ∷ vs) = if p v then true else some_of p vs

-- `ena = true; for (...) if (p) { ena = false; break; }`
unfoldable pub none_of : (Value → Bool) → List Value → Bool
none_of p [] = true
none_of p (v ∷ vs) = if p v then false else none_of p vs

-- One case of the `switch`: the test of an impulse, and the test that ends a steady state.
abbrev pub loops : Bool → (Value → Bool) → (Value → Bool) → List Value → Bool
loops is_impulse hit miss vs = if is_impulse then some_of hit vs else none_of miss vs

module _ (fl : Floats) where
  open fl use {lt_f, eq_f, gt_f}

  -- The `switch`; the `ℕ` is the type of the signal.
  unfoldable pub cond_holds : EventType → Bool → ℕ → Value → List Value → Bool
  cond_holds none_type imp type c vs = false
  cond_holds connect_module imp type c vs = c == 1
  cond_holds disconnect_module imp type c vs = c == 1
  cond_holds less imp type c vs =
      if type == 1
      then loops imp (λ v. lt_int v c) (λ v. lt_int c v || v == c) vs
      else loops imp (λ v. lt_f v c) (λ v. gt_f v c || eq_f v c) vs
  cond_holds equals imp type c vs =
      if type == 1
      then loops imp (λ v. v == c) (λ v. not (v == c)) vs
      else loops imp (λ v. eq_f v c) (λ v. not (eq_f v c)) vs
  cond_holds more imp type c vs =
      if type == 1
      then loops imp (λ v. lt_int c v) (λ v. lt_int v c || v == c) vs
      else loops imp (λ v. gt_f v c) (λ v. lt_f v c || eq_f v c) vs
  cond_holds on_pos_front imp type c vs = loops imp v_bool (λ v. not (v_bool v)) vs
  cond_holds on_neg_front imp type c vs = loops imp (λ v. not (v_bool v)) v_bool vs

  -- `checkCondition`. It reads the signal first, whatever the type of the trigger.
  unfoldable pub check_condition : {D : Type 0} → TriggerData → Option (SignalData D) → Option Bool
  check_condition tr none = none
  check_condition tr (some sd) =
      some (cond_holds tr.cond_type (tr.cond_tout == 0) sd.type tr.cond_value sd.last_data.vals)

-- What `workCycle` keeps. A pointer of `sdata` stands as the key of its signal.
pub record Watch : Type 0 where
  pub trg_id : Map ℕ
  pub cid : ℕ
  pub sdata : Map (Option Bytes)
  pub tm_delay : TimerDelay
  pub front : Front

-- The types that go on without a signal.
abbrev pub of_module : EventType → Bool
of_module connect_module = true
of_module disconnect_module = true
of_module t = false

-- `trgId[t->name]`
abbrev pub id_of : TriggerData → Watch → ℕ
id_of t w = elim (lookup t.name w.trg_id) [ none ↦ 0 | some i ↦ i ]

-- The timer and the edge detector, asked with the condition.
unfoldable pub ask : Bool → TriggerData → Watch → Bool × Watch
ask cond t w =
    let (late, d) = on_delay_sec cond t.cond_tout (id_of t w) w.tm_delay in
    let (rise, f) = pos_front late (id_of t w) w.front in
    (rise, record w { tm_delay = d; front = f })

module _ {D : Type 0} (fl : Floats) where
  -- The pointer that `pfGetSignalData` returns.
  abbrev pub found_key : Bytes → Map (SignalData D) → Option Bytes
  found_key k ss = if has k ss then some k else none

  -- A trigger that is seen for the first time.
  unfoldable pub enlist : Map (SignalData D) → TriggerData → Watch → Watch
  enlist ss t w = if has t.name w.trg_id then w else record w {
    cid = w.cid + 1;
    trg_id = insert t.name (w.cid + 1) w.trg_id;
    sdata = insert t.name (found_key (t.signal ++ t.module_name) ss) w.sdata;
  }

  -- `sdata[t->name]` as it points now.
  abbrev pub pointed : Map (SignalData D) → TriggerData → Watch → Option (SignalData D)
  pointed ss t w = elim (lookup t.name w.sdata) [
    | none ↦ none
    | some none ↦ none
    | some (some k) ↦ lookup k ss
  ]

  -- `t->isActive && checkCondition(...)`
  abbrev pub active_condition : Map (SignalData D) → TriggerData → Watch → Option Bool
  active_condition ss t w =
      if t.is_active then check_condition fl t (pointed ss t w) else some false

  abbrev pub missing : Map (SignalData D) → TriggerData → Watch → Bool
  missing ss t w = elim (pointed ss t w) [ none ↦ true | some _ ↦ false ]

  -- The body of the loop: whether the trigger's callback is called.
  unfoldable pub watch_trigger : Map (SignalData D) → TriggerData → Watch → Option (Bool × Watch)
  watch_trigger ss t w =
      let w' = enlist ss t w in
      if missing ss t w' && not (of_module t.cond_type)
      then some (false, w')
      else elim (active_condition ss t w') [ none ↦ none | some c ↦ some (ask c t w') ]

  -- The loop over the triggers: the names that are reported.
  unfoldable pub watch_triggers :
      Map (SignalData D) → List TriggerData → Watch → Option (List Bytes × Watch)
  watch_triggers ss [] w = some ([], w)
  watch_triggers ss (t ∷ ts) w = elim (watch_trigger ss t w) [
    | none ↦ none
    | some (fired, w1) ↦ elim (watch_triggers ss ts w1) [
      | none ↦ none
      | some (names, w2) ↦ some (if fired then t.name ∷ names else names, w2)
    ]
  ]
