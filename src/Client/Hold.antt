-- ===== src/Client/Hold.antt =====
-- What a cycle of the client (src/SVClient/src/client.cpp) leaves in the arrays of its values.
use svisual.Prelude.{
  ℕ, ◌+◌, ◌/◌, ◌%◌, ◌<◌, ◌≡◌, ◌≢◌, refl, sym, ◌∙◌, inl, inr, [], ◌∷◌, Bool, true, false, some,
  if◌then◌else◌, ltb, length, get_elem?, set, All, arith, length-set, get_elem?_lt,
  get_elem?-set_self, get_elem?-set_ne, Bool-cases, dec_lt, subst, ap,
}
use native.Mathlib.Nat.{mod-eq_of_lt, mod_self}
use svisual.Prelude.Bytes.{Bytes}
use svisual.Prelude.Maps.{Map}
use svisual.Base.{ValueType, bool, int, float, Value}
use svisual.Client.{Client, ValueRec, hold, hold_all, held, prev_cycle, cycle}
use svisual.Client.Valid.{IsRec, IsValid, prepared, cycle_lem}

-- `new` is what is kept of `old` for a cycle without a value: of a `bool` of which only the front
-- counts the byte of the `bool` is 0 and the others stay; else all of it stays.
abbrev pub IsKept : ValueType → Bool → Value → Value → Type 0
IsKept bool true old new = (new % 256 ≡ 0) × (new / 256 ≡ old / 256)
IsKept bool false old new = new ≡ old
IsKept int only_front old new = new ≡ old
IsKept float only_front old new = new ≡ old

-- The record of a value behind the cycle `cur`; `prev` is the place of the cycle before. Only the
-- place of the cycle may change, and it stays if a value was added in the cycle.
pub record IsHeld (cur prev : ℕ) (vr vr' : ValueRec) : Type 0 where
  pub idle : vr'.is_active ≡ false
  pub name_same : vr'.name ≡ vr.name
  pub type_same : vr'.type ≡ vr.type
  pub front_same : vr'.is_only_front ≡ vr.is_only_front
  pub length_same : length vr'.vals ≡ length vr.vals
  pub others_same : (i : ℕ) → i ≢ cur → get_elem? vr'.vals i ≡ get_elem? vr.vals i
  pub added : vr.is_active ≡ true → get_elem? vr'.vals cur ≡ get_elem? vr.vals cur
  pub missing :
      vr.is_active ≡ false
      → (old : Value) × (new : Value) × (get_elem? vr.vals prev ≡ some old)
        × (get_elem? vr'.vals cur ≡ some new)
        × IsKept vr.type vr.is_only_front old new

held-IsKept : (t : ValueType) (f : Bool) (old : Value) → IsKept t f old (held t f old)
held-IsKept bool true old = (omega arith, omega arith)
held-IsKept bool false old = refl
held-IsKept int f old = refl
held-IsKept float f old = refl

hold-IsHeld :
    (n cur prev : ℕ) (k : Bytes) (vr : ValueRec)
    → cur < n
    → prev < n
    → IsRec n k vr
    → (vr' : ValueRec) × (hold cur prev vr ≡ some vr') × IsHeld cur prev vr vr'
unfolding hold
hold-IsHeld n cur prev k vr hc hp hr = elim (Bool-cases vr.is_active) [
  | inl active ↦ (
    record vr { is_active = false },
    rw active refl,
    record {
      idle = refl;
      name_same = refl;
      type_same = refl;
      front_same = refl;
      length_same = refl;
      others_same = λ i ne. refl;
      added = λ e. refl;
      missing = λ e. absurd (ground (arith, e, active));
    },
  )
  | inr still ↦
      let (old, found) = get_elem?_lt vr.vals prev (omega (arith, hr.packet)) in
      let new = held vr.type vr.is_only_front old in
      (
        record vr { is_active = false; vals = set vr.vals cur new },
        ground (arith, found, hr.packet),
        record {
          idle = refl;
          name_same = refl;
          type_same = refl;
          front_same = refl;
          length_same = length-set vr.vals cur new;
          others_same = λ i ne. get_elem?-set_ne vr.vals cur i new (λ e. ne (sym e));
          added = λ e. absurd (ground (arith, e, still));
          missing = λ e. (
            old,
            new,
            found,
            get_elem?-set_self vr.vals cur new (omega (arith, hr.packet)),
            held-IsKept vr.type vr.is_only_front old,
          );
        },
      )
]

-- The same for all values, each under its key.
pub data AllHeld (cur prev : ℕ) : Map ValueRec → Map ValueRec → Type 0 where
  nothing_held : AllHeld cur prev [] []
  held_too :
      {k : Bytes} {vr vr' : ValueRec} {m m' : Map ValueRec}
      → IsHeld cur prev vr vr'
      → AllHeld cur prev m m'
      → AllHeld cur prev ((k, vr) ∷ m) ((k, vr') ∷ m')

hold_all-AllHeld :
    (n cur prev : ℕ) (m : Map ValueRec)
    → cur < n
    → prev < n
    → All (λ e. IsRec n (e.0) (e.1)) m
    → (m' : Map ValueRec) × (hold_all cur prev m ≡ some m') × AllHeld cur prev m m'
unfolding hold_all
hold_all-AllHeld n cur prev [] hc hp h = ([], refl, nothing_held)
hold_all-AllHeld n cur prev ((k, vr) ∷ m) hc hp h =
    let (vr', e, one) = hold-IsHeld n cur prev k vr hc hp h.0 in
    let (m', es, rest) = hold_all-AllHeld n cur prev m hc hp h.1 in
    ((k, vr') ∷ m', rw (e, es, hold_all) refl, held_too one rest)

prev_cycle_lem :
    (c : Client)
    → c.cur_cycle < c.packet_sz
    → (prev_cycle c < c.packet_sz) × ((prev_cycle c + 1) % c.packet_sz ≡ c.cur_cycle)
prev_cycle_lem c h = elim (dec_lt 0 c.cur_cycle) [
  | yes later ↦
      let back : prev_cycle c + 1 ≡ c.cur_cycle = ground arith in
      (ground arith, ap (λ k. k % c.packet_sz) back ∙ mod-eq_of_lt h)
  | no first ↦
      let back : prev_cycle c + 1 ≡ c.packet_sz = ground arith in
      (ground arith, ap (λ k. k % c.packet_sz) back ∙ mod_self c.packet_sz ∙ omega arith)
]

-- A cycle of a valid client. In the record of each value only the place of the cycle may change: a
-- value that was added stays, and one that was not is as in the cycle before, around the packet, but
-- for the byte of a `bool` of which only the front counts, which is 0. The cycle moves on, and at
-- the end of the packet it begins again and, with a connection, the message of all values goes out.
pub cycle-AllHeld :
    (c : Client)
    → IsValid c
    → (prev : ℕ) × (m : Map ValueRec) × (prev < c.packet_sz)
      × ((prev + 1) % c.packet_sz ≡ c.cur_cycle)
      × AllHeld c.cur_cycle prev c.values m
      × (cycle c
          ≡ some (
              if ltb (c.cur_cycle + 1) c.packet_sz
              then (record c { values = m; cur_cycle = c.cur_cycle + 1 }, [])
              else (
                record c { values = m; cur_cycle = 0 },
                if c.is_connect then prepared (record c { values = m; cur_cycle = 0 }) else [],
              )))
cycle-AllHeld c valid =
    let (in_packet, along) = prev_cycle_lem c valid.cycle_in in
    let (m, e, held_m) =
      hold_all-AllHeld c.packet_sz c.cur_cycle (prev_cycle c) c.values valid.cycle_in in_packet
        valid.recs in
    let (m1, e1, _, done) = cycle_lem c valid in
    let same : m1 ≡ m = ground (arith, e, e1) in
    (
      prev_cycle c,
      m1,
      in_packet,
      along,
      subst (AllHeld c.cur_cycle (prev_cycle c) c.values) (sym same) held_m,
      done,
    )
