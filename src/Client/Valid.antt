-- ===== src/Client/Valid.antt =====
-- The client's arrays are as long as the packet, and no turn or call reads or writes outside them.
use svisual.Prelude.{
  ◌∙◌, take, ℕ, zero, suc, ◌+◌, ◌-◌, ◌<◌, ◌≡◌, refl, inl, inr, List, [], ◌∷◌, ◌++◌, Bool, true,
  false, Option, none, some, if◌then◌else◌, ltb, leb, length, get_elem?, set, All, arith,
  length-set, length-replicate, All-set, get_elem?_lt, drop, length-append, length-drop, replicate,
  take_all, ◌||◌, append_assoc, Bool-cases, Option-cases,
}
use svisual.Prelude.Bytes.{
  Bytes, IsWord, NoZero, c_str, c_str-terminated, encode32, encode_words, pad,
}
use svisual.Prelude.Maps.{Map, lookup, insert, All-insert, lookup-All}
use svisual.Base.{ValueType, bool, int, float, Value, name_sz, type_code}
use svisual.Client.{
  Client, ValueRec, is_name, add_value, store, new_value, hold, hold_all, prev_cycle, cycle, turn,
  value_bytes, prepare_data, held, data_sz, mess_begin, mess_end,
}

-- The array of a value holds a packet of words, and its name field the name that it is kept under.
pub record IsRec (packet_sz : ℕ) (k : Bytes) (vr : ValueRec) : Type 0 where
  pub packet : length vr.vals ≡ packet_sz
  pub words : All IsWord vr.vals
  pub name_field : length vr.name ≡ name_sz
  pub named : c_str vr.name ≡ k

pub record IsValid (c : Client) : Type 0 where
  pub cycle_in : c.cur_cycle < c.packet_sz
  pub recs : All (λ e. IsRec c.packet_sz (e.0) (e.1)) c.values

All-replicate : (n : ℕ) → All IsWord (replicate n 0)
All-replicate zero = tt
All-replicate (suc n) = (omega arith, All-replicate n)

get_elem?-All :
    (xs : List Value) (i : ℕ) {x : Value} → All IsWord xs → get_elem? xs i ≡ some x → IsWord x
get_elem?-All [] i h e = cc
get_elem?-All (x ∷ xs) zero h e = ground arith
get_elem?-All (x ∷ xs) (suc i) h e = get_elem?-All xs i h.1 e

new_value-IsRec :
    (junk : Bytes) (n : ℕ) (nm : Bytes) (t : ValueType) (f : Bool)
    → length junk ≡ name_sz
    → NoZero nm
    → length nm < name_sz
    → IsRec n nm (new_value junk n nm t f)
new_value-IsRec junk n nm t f hj hz hn = record {
  named = c_str-terminated nm (drop (suc (length nm)) junk) hz;
  packet = length-replicate n 0;
  words = All-replicate n;
  name_field = omega (
    arith,
    length-append nm (0 ∷ drop (suc (length nm)) junk),
    length-drop (suc (length nm)) junk,
  );
}

store_lem :
    (c : Client) (nm : Bytes) (v : Value) (vr : ValueRec)
    → IsValid c
    → IsWord v
    → IsRec c.packet_sz nm vr
    → (c' : Client) × (store c nm v vr ≡ some (c', true)) × IsValid c'
store_lem c nm v vr valid hv hr = (
  record c { values = insert nm vr' c.values },
  ground arith,
  record {
    cycle_in = valid.cycle_in;
    recs = All-insert (λ e. IsRec c.packet_sz (e.0) (e.1)) nm vr' c.values kept valid.recs;
  },
)
  where
    vr' : ValueRec
    vr' = record vr { vals = set vr.vals c.cur_cycle v; is_active = true }

    kept : IsRec c.packet_sz nm vr'
    kept = record {
      packet = ground (arith, length-set vr.vals c.cur_cycle v);
      words = All-set IsWord vr.vals c.cur_cycle v hr.words hv;
      name_field = hr.name_field;
      named = hr.named;
    }

-- The name that a call gives, if it is not null.
abbrev given : Option Bytes → List Bytes
given none = []
given (some nm) = nm ∷ []

is_name-lt : (s : Bytes) → is_name s ≡ true → length s < name_sz
unfolding is_name
is_name-lt s h = ground arith

-- A call of `addValue` on a valid client never writes outside an array, and the client stays
-- valid.
pub add_value-IsValid :
    (junk : Bytes) (nm : Option Bytes) (t : ValueType) (v : Value) (f : Bool) (c : Client)
    → length junk ≡ name_sz
    → All NoZero (given nm)
    → IsWord v
    → IsValid c
    → (r : Client × Bool) × (add_value junk nm t v f c ≡ some r) × IsValid (r.0)
unfolding add_value
add_value-IsValid junk none t v f c hj hz hv valid = ((c, false), refl, valid)
add_value-IsValid junk (some nm) t v f c hj hz hv valid = elim (Option-cases (lookup nm c.values)) [
  | inr (vr, e) ↦
      rw (e, add_value) (stored vr (lookup-All (IsRec c.packet_sz) nm c.values valid.recs e))
  | inl e ↦ elim (Bool-cases (is_name nm)) [
    | inl ok ↦
        rw (e, ok, add_value)
          (stored (new_value junk c.packet_sz nm t f)
            (new_value-IsRec junk c.packet_sz nm t f hj hz.0 (is_name-lt nm ok)))
    | inr bad ↦ rw (e, bad, add_value) ((c, false), refl, valid)
  ]
]
  where
    stored :
        (vr : ValueRec)
        → IsRec c.packet_sz nm vr
        → (r : Client × Bool) × (store c nm v vr ≡ some r) × IsValid (r.0)
    stored vr hr = let s = store_lem c nm v vr valid hv hr in ((s.0, true), s.1, s.2)

held-IsWord : (t : ValueType) (f : Bool) (w : Value) → IsWord w → IsWord (held t f w)
held-IsWord bool true w h = omega arith
held-IsWord bool false w h = h
held-IsWord int f w h = h
held-IsWord float f w h = h

hold_lem :
    (n cur prev : ℕ) (k : Bytes) (vr : ValueRec)
    → cur < n
    → prev < n
    → IsRec n k vr
    → (vr' : ValueRec) × (hold cur prev vr ≡ some vr') × IsRec n k vr'
unfolding hold
hold_lem n cur prev k vr hc hp hr = elim (Bool-cases vr.is_active) [
  | inl active ↦ (record vr { is_active = false }, ground arith, ground arith)
  | inr still ↦ (
    record vr { is_active = false; vals = set vr.vals cur kept },
    ground (arith, found.1),
    record {
      packet = length-set vr.vals cur kept ∙ hr.packet;
      words = All-set IsWord vr.vals cur kept hr.words (
          held-IsWord vr.type vr.is_only_front found.0
            (get_elem?-All vr.vals prev hr.words found.1));
      name_field = hr.name_field;
      named = hr.named;
    },
  )
]
  where
    found : (w : Value) × (get_elem? vr.vals prev ≡ some w)
    found = get_elem?_lt vr.vals prev (omega arith)

    kept : Value
    kept = held vr.type vr.is_only_front found.0

hold_all_lem :
    (n cur prev : ℕ) (m : Map ValueRec)
    → cur < n
    → prev < n
    → All (λ e. IsRec n (e.0) (e.1)) m
    → (m' : Map ValueRec) × (hold_all cur prev m ≡ some m') × All (λ e. IsRec n (e.0) (e.1)) m'
unfolding hold_all
hold_all_lem n cur prev [] hc hp h = ([], refl, tt)
hold_all_lem n cur prev ((k, vr) ∷ m) hc hp h =
    let first = hold_lem n cur prev k vr hc hp h.0 in
    let rest = hold_all_lem n cur prev m hc hp h.1 in
    ((k, first.0) ∷ rest.0, rw (first.1, rest.1, hold_all), (first.2, rest.2))

-- The bytes of the values, from arrays that are as long as the packet.
unfoldable pub wire : Map ValueRec → Bytes
wire [] = []
wire ((k, vr) ∷ m) = vr.name ++ (encode32 (type_code vr.type) ++ (encode_words vr.vals ++ wire m))

pub value_bytes-eq-wire :
    (n : ℕ) (m : Map ValueRec) → All (λ e. IsRec n (e.0) (e.1)) m → value_bytes n m ≡ some (wire m)
unfolding value_bytes wire
value_bytes-eq-wire n [] h = refl
value_bytes-eq-wire n ((k, vr) ∷ m) h = rw (value_bytes-eq-wire n m h.1, all, enough)
  where
    all : take n vr.vals ≡ vr.vals
    all = take_all n vr.vals (omega arith)

    enough : leb n (length vr.vals) ≡ true
    enough = ground arith

-- What stands between the marks of a message, behind the size.
abbrev pub payload : Client → Bytes
payload c = pad name_sz (take (name_sz - 1) c.module_name) ++ wire c.values

-- The message of a client whose arrays are as long as the packet.
abbrev pub prepared : Client → Bytes
prepared c = elim c.values [
  | [] ↦ []
  | _ ∷ _ ↦ mess_begin ++ (encode32 (data_sz c) ++ (payload c ++ mess_end))
]

pub prepare_data-eq-prepared :
    (c : Client)
    → All (λ e. IsRec c.packet_sz (e.0) (e.1)) c.values
    → prepare_data c ≡ some (prepared c)
unfolding prepare_data
prepare_data-eq-prepared c recs = ground (
  arith,
  value_bytes-eq-wire c.packet_sz c.values recs,
  append_assoc (pad name_sz (take (name_sz - 1) c.module_name)) (wire c.values) mess_end,
)

-- A cycle of a valid client: the values are held, and the message goes out at the packet's end.
pub cycle_lem :
    (c : Client)
    → IsValid c
    → (m : Map ValueRec) × (hold_all c.cur_cycle (prev_cycle c) c.values ≡ some m)
      × All (λ e. IsRec c.packet_sz (e.0) (e.1)) m
      × (cycle c
          ≡ some (
              if ltb (c.cur_cycle + 1) c.packet_sz
              then (record c { values = m; cur_cycle = c.cur_cycle + 1 }, [])
              else (
                record c { values = m; cur_cycle = 0 },
                if c.is_connect then prepared (record c { values = m; cur_cycle = 0 }) else [],
              )))
unfolding cycle
cycle_lem c valid =
    let h =
      hold_all_lem c.packet_sz c.cur_cycle (prev_cycle c) c.values valid.cycle_in (ground arith)
        valid.recs in
    (
      h.0,
      h.1,
      h.2,
      rw (h.1, cycle)
          (rw (prepare_data-eq-prepared (record c { values = h.0; cur_cycle = 0 }) h.2)
            (ground arith)),
    )

cycle-IsValid : (c : Client) → IsValid c → (r : Client × Bytes) × (cycle c ≡ some r) × IsValid (r.0)
cycle-IsValid c valid =
    let (m, _, recs, e) = cycle_lem c valid in
    elim (Bool-cases (ltb (c.cur_cycle + 1) c.packet_sz)) [
      | inl more ↦ (
        (record c { values = m; cur_cycle = c.cur_cycle + 1 }, []),
        e ∙ rw more,
        record { cycle_in = ground arith; recs = recs },
      )
      | inr full ↦ (
        (
          record c { values = m; cur_cycle = 0 },
          if c.is_connect then prepared (record c { values = m; cur_cycle = 0 }) else [],
        ),
        e ∙ rw full,
        record { cycle_in = omega (arith, valid.cycle_in); recs = recs },
      )
    ]

-- A turn of the sending loop on a valid client never reads or writes outside an array, and the
-- client stays valid.
pub turn-IsValid :
    (connected sent : Bool) (c : Client)
    → IsValid c
    → (r : Client × Bytes) × (turn connected sent c ≡ some r) × IsValid (r.0)
unfolding turn
turn-IsValid connected sent c valid =
    finish (cycle-IsValid c' (record { cycle_in = valid.cycle_in; recs = valid.recs }))
  where
    c' : Client
    c' = record c { is_connect = c.is_connect || connected }

    finish :
        ((r : Client × Bytes) × (cycle c' ≡ some r) × IsValid (r.0))
        → (r : Client × Bytes) × (turn connected sent c ≡ some r) × IsValid (r.0)
    finish ((d, []), e, v) = ((d, []), rw (e, turn), v)
    finish ((d, b ∷ bs), e, v) = (
      (record d { is_connect = sent }, b ∷ bs),
      rw (e, turn),
      record { cycle_in = v.cycle_in; recs = v.recs },
    )
