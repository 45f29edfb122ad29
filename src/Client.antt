-- ===== src/Client.antt =====
-- SVClient (src/SVClient/src/client.cpp): the values that a program adds in a cycle, the packet of
-- cycles, and the message that is sent when the packet is full. `none` is a read or a write outside
-- of an array. Connecting and sending are the caller's: their results are arguments.
pub mod Valid
pub mod Hold
pub mod Param
pub mod Wire
use svisual.Prelude.{
  ℕ, zero, suc, ◌+◌, ◌-◌, ◌*◌, ◌/◌, List, [], ◌∷◌, ◌++◌, Bool, true, false, not, ◌&&◌, ◌||◌, Option,
  none, some, if◌then◌else◌, ltb, leb, ◌==◌, length, get_elem?, set, take, drop, replicate,
}
use svisual.Prelude.Bytes.{Bytes, codes, contains, encode32, encode_words, pad}
use svisual.Prelude.Maps.{Map, lookup, insert}
use svisual.Base.{ValueType, bool, int, float, type_code, Value, name_sz}

-- `messBegin`, `messEnd`
abbrev pub mess_begin : Bytes
mess_begin = codes "=begin="

abbrev pub mess_end : Bytes
mess_end = codes "=end="

-- `struct ValueRec`. `name` is all of the `char[SV_NAMESZ]`.
pub record ValueRec : Type 0 where
  pub is_active : Bool
  pub is_only_front : Bool
  pub name : Bytes
  pub type : ValueType
  pub vals : List Value

-- The global state of the client.
pub record Client : Type 0 where
  pub cycle_rec_ms : ℕ
  pub packet_sz : ℕ
  pub is_connect : Bool
  pub module_name : Bytes
  pub cur_cycle : ℕ
  pub values : Map ValueRec

-- What `svConnect` asks of a module's name, and `addValue` of a new value's.
unfoldable pub is_name : Bytes → Bool
is_name s =
    not
      (length s == 0 || (leb name_sz (length s) || (contains mess_end s || contains mess_begin s)))

-- `svConnect`. A null pointer is `none`; `connected` is what `TCPClient::connect` returns.
unfoldable pub sv_connect : Option Bytes → Option Bytes → Bool → Client → Client × Bool
sv_connect none addr connected c = (c, c.is_connect)
sv_connect (some m) none connected c = (c, c.is_connect)
sv_connect (some m) (some addr) connected c =
    if c.is_connect
    then (c, true)
    else if is_name m
    then (record c { module_name = m; is_connect = connected }, connected)
    else (c, false)

-- The packet size after `svSetParam`: the new one only while there are no values.
abbrev pub packet_after : ℕ → ℕ → Map ValueRec → ℕ
packet_after sz old [] = sz
packet_after sz old (_ ∷ _) = old

-- `svSetParam`
unfoldable pub sv_set_param : ℕ → ℕ → Client → Client
sv_set_param rec_ms sz c = record c {
  cycle_rec_ms = rec_ms;
  packet_sz = packet_after sz c.packet_sz c.values;
}

-- `strcpy(dst, s)` into an array that holds `junk`.
abbrev pub str_cpy : Bytes → Bytes → Bytes
str_cpy junk s = s ++ (0 ∷ drop (suc (length s)) junk)

-- The record of a new value. `junk` is what its `name` holds before, which the code does not clear.
abbrev pub new_value : Bytes → ℕ → Bytes → ValueType → Bool → ValueRec
new_value junk packet_sz nm t only_front = record {
  is_active = false;
  is_only_front = only_front;
  name = str_cpy junk nm;
  type = t;
  vals = replicate packet_sz 0;
}

-- `vr.vals[_curCycle] = val; vr.isActive = true`
abbrev pub store : Client → Bytes → Value → ValueRec → Option (Client × Bool)
store c nm v vr =
    let vr' : ValueRec = record vr { vals = set vr.vals c.cur_cycle v; is_active = true } in
    if ltb c.cur_cycle (length vr.vals)
    then some (record c { values = insert nm vr' c.values }, true)
    else none

-- `addValue`. A null name is `none`.
unfoldable pub add_value :
    Bytes → Option Bytes → ValueType → Value → Bool → Client → Option (Client × Bool)
add_value junk none t v only_front c = some (c, false)
add_value junk (some nm) t v only_front c = elim (lookup nm c.values) [
  | some vr ↦ store c nm v vr
  | none ↦
      if is_name nm
      then store c nm v (new_value junk c.packet_sz nm t only_front)
      else some (c, false)
]

-- `vals[i].vBool = false`: the byte of the `bool` is cleared.
abbrev pub clear_bool : Value → Value
clear_bool w = w / 256 * 256

-- The cycle before, in the packet.
abbrev pub prev_cycle : Client → ℕ
prev_cycle c = if c.cur_cycle == 0 then c.packet_sz - 1 else c.cur_cycle - 1

-- What the place of the cycle gets from that of the cycle before: the same value, but `false` for
-- a `bool` of which only the front counts.
abbrev pub held : ValueType → Bool → Value → Value
held bool true old = clear_bool old
held bool false old = old
held int only_front old = old
held float only_front old = old

-- A value that was not added in this cycle keeps that of the cycle before.
unfoldable pub hold : ℕ → ℕ → ValueRec → Option ValueRec
hold cur prev vr =
    if vr.is_active then some (record vr { is_active = false }) else elim (get_elem? vr.vals prev) [
      | none ↦ none
      | some old ↦
          if ltb cur (length vr.vals)
          then some (record vr {
            is_active = false;
            vals = set vr.vals cur (held vr.type vr.is_only_front old);
          })
          else none
    ]

unfoldable pub hold_all : ℕ → ℕ → Map ValueRec → Option (Map ValueRec)
hold_all cur prev [] = some []
hold_all cur prev ((k, vr) ∷ m) = elim (hold cur prev vr) [
  | none ↦ none
  | some vr' ↦ elim (hold_all cur prev m) [ none ↦ none | some m' ↦ some ((k, vr') ∷ m') ]
]

-- The bytes of the values in a message.
unfoldable pub value_bytes : ℕ → Map ValueRec → Option Bytes
value_bytes packet_sz [] = some []
value_bytes packet_sz ((k, vr) ∷ m) =
    if leb packet_sz (length vr.vals)
    then elim (value_bytes packet_sz m) [
      | none ↦ none
      | some rest ↦ some (
          vr.name
          ++ (encode32 (type_code vr.type) ++ (encode_words (take packet_sz vr.vals) ++ rest)))
    ]
    else none

-- `dataSz`
abbrev pub data_sz : Client → ℕ
data_sz c = name_sz + (name_sz + 4 + 4 * c.packet_sz) * length c.values

-- `prepareData`
unfoldable pub prepare_data : Client → Option Bytes
prepare_data c = elim c.values [
  | [] ↦ some []
  | _ ∷ _ ↦ elim (value_bytes c.packet_sz c.values) [
    | none ↦ none
    | some vs ↦ some (
        mess_begin
        ++ (encode32 (data_sz c)
            ++ (pad name_sz (take (name_sz - 1) c.module_name) ++ (vs ++ mess_end))))
  ]
]

-- The block of `sendCycle` under the lock: the state after the cycle, and what is to be sent.
unfoldable pub cycle : Client → Option (Client × Bytes)
cycle c = elim (hold_all c.cur_cycle (prev_cycle c) c.values) [
  | none ↦ none
  | some m ↦
      let c' : Client = record c { values = m; cur_cycle = 0 } in
      if ltb (c.cur_cycle + 1) c.packet_sz
      then some (record c { values = m; cur_cycle = c.cur_cycle + 1 }, [])
      else if c.is_connect
      then elim (prepare_data c') [ none ↦ none | some bytes ↦ some (c', bytes) ]
      else some (c', [])
]

-- One turn of `sendCycle`. `connected` and `sent` are what `TCPClient::connect` and `sendData`
-- return if the turn calls them.
unfoldable pub turn : Bool → Bool → Client → Option (Client × Bytes)
turn connected sent c = elim (cycle (record c { is_connect = c.is_connect || connected })) [
  | none ↦ none
  | some (c', []) ↦ some (c', [])
  | some (c', b ∷ bs) ↦ some (record c' { is_connect = sent }, b ∷ bs)
]
