-- ===== src/Arduino.antt =====
-- The client for Arduino boards (src/SVArduino/sv_client.cpp). The boards' network classes are
-- arguments: what `connect` and `begin` return, call by call. `none` is an access outside of an
-- array.
pub mod Tree
pub mod Laws
use svisual.Prelude.{
  ℕ, zero, suc, ◌+◌, ◌-◌, ◌*◌, ◌/◌, ◌%◌, ◌^◌, List, [], ◌∷◌, ◌++◌, Bool, true, false, not, ◌&&◌,
  ◌||◌, Option, none, some, if◌then◌else◌, ltb, leb, ◌==◌, length, get_elem?, set, take, drop,
  replicate,
}
use svisual.Prelude.Bytes.{Bytes, codes, encode32, encode_words}
use svisual.Base.{name_sz, ValueType, bool, int, float, Value, type_code}
use svisual.Client.{ValueRec, is_name, str_cpy, hold}
use svisual.Arduino.Tree.{ValueMap, find, map_insert}

-- The globals. `packet_sz` and `vals_max_cnt` are `SV_PACKETSZ` and `SV_VALS_MAX_CNT`; `int_bits` is
-- the width of the board's `int`, 16 or 32.
pub record Board : Type 0 where
  pub packet_sz : ℕ
  pub vals_max_cnt : ℕ
  pub int_bits : ℕ
  pub is_connect : Bool
  pub is_wifi : Bool
  pub is_com : Bool
  pub module_name : Bytes
  pub ip_server : List ℕ
  pub port_serv : ℕ
  pub cur_cyc_cnt : ℕ
  pub values : ValueMap

-- `strchr`, and one place on: what stands behind the first `sep`.
unfoldable pub behind : ℕ → Bytes → Option Bytes
behind sep [] = none
behind sep (c ∷ cs) = if c == sep then some cs else behind sep cs

-- `parseBytes`, over `maxBytes - i` and the bytes from `i` on. `num` is `strtoul` with its base; what
-- it returns goes into a byte.
unfoldable pub parse_bytes : (Bytes → ℕ) → ℕ → Bytes → List ℕ → List ℕ
parse_bytes num sep str [] = []
parse_bytes num sep str (old ∷ olds) = elim (behind sep str) [
  | none ↦ num str % 256 ∷ olds
  | some rest ↦ num str % 256 ∷ parse_bytes num sep rest olds
]

-- The loop that tries `connect` up to `n` times, by what the calls return.
unfoldable pub tries : ℕ → List Bool → Bool
tries zero rs = false
tries (suc n) [] = false
tries (suc n) (r ∷ rs) = if r then true else tries n rs

-- `connectOfEthernet`
unfoldable pub connect_of_ethernet :
    (Bytes → ℕ) → Bytes → Bytes → ℕ → List Bool → Board → Board × Bool
connect_of_ethernet num m ip_addr port rs b =
    let b' : Board = record b {
      module_name = m;
      ip_server = parse_bytes num 46 ip_addr b.ip_server;
      port_serv = port;
      is_connect = tries 10 rs;
    } in
    if b.is_connect then (b, true) else if is_name m then (b', tries 10 rs) else (b, false)

-- `connectOfWiFi`; `joins` is what `WiFi.begin` returns.
unfoldable pub connect_of_wifi :
    (Bytes → ℕ) → Bytes → Bytes → ℕ → List Bool → List Bool → Board → Board × Bool
connect_of_wifi num m ip_addr port joins rs b =
    let b1 : Board = record b {
      module_name = m;
      ip_server = parse_bytes num 46 ip_addr b.ip_server;
      port_serv = port;
    } in
    let b2 : Board = record b1 { is_wifi = true; is_connect = tries 10 rs } in
    if b.is_connect
    then (b, true)
    else if is_name m
    then if tries 3 joins then (b2, tries 10 rs) else (b1, false)
    else (b, false)

-- `connectOfCOM`
unfoldable pub connect_of_com : Bytes → Board → Board × Bool
connect_of_com m b =
    if b.is_connect
    then (b, true)
    else if is_name m
    then (record b { module_name = m; is_connect = true; is_com = true }, true)
    else (b, false)

-- The record of a new value.
abbrev pub new_rec : ℕ → Bytes → ValueType → ValueRec
new_rec packet_sz nm t = record {
  is_active = false;
  is_only_front = false;
  name = nm ++ (0 ∷ []);
  type = t;
  vals = replicate packet_sz 0;
}

-- The last lines of `addValue`, through the pointer `vr`.
unfoldable pub write_value : ℕ → Value → Bool → Board → Option (Board × Bool)
write_value i v f b = elim (get_elem? b.values.nods i) [
  | none ↦ none
  | some vr ↦
      if ltb b.cur_cyc_cnt (length vr.vals)
      then some (
        record b {
          values = record (b.values) {
            nods = set b.values.nods i (record vr {
              vals = set vr.vals b.cur_cyc_cnt v;
              is_only_front = f;
              is_active = true;
            });
          };
        },
        true,
      )
      else none
]

-- `addValue`, which `addBoolValue`, `addIntValue` and `addFloatValue` call.
unfoldable pub add_value : Bytes → ValueType → Value → Bool → Board → Option (Board × Bool)
add_value nm t v f b =
    let b' : Board = record b { values = map_insert nm (new_rec b.packet_sz nm t) b.values } in
    if b.is_connect
    then elim (find nm b.values.root) [
      | some i ↦ write_value i v f b
      | none ↦
          if ltb b.vals_max_cnt (length b.values.nods + 1)
          then some (b, false)
          else if is_name nm
          then write_value (length b.values.nods) v f b'
          else some (b, false)
    ]
    else some (b, false)

-- `auxSD.vals[j].tInt = ...` or `tFloat`: an `int` leaves the higher bits of the union as they are.
abbrev pub copy_value : ℕ → ValueType → Value → Value → Value
copy_value bits float new old = new
copy_value bits bool new old = old / 2 ^ bits * 2 ^ bits + new % 2 ^ bits
copy_value bits int new old = old / 2 ^ bits * 2 ^ bits + new % 2 ^ bits

-- The loop over `j`, from a value's places to those of `auxSD`.
unfoldable pub copy_values : ℕ → ValueType → List Value → List Value → List Value
copy_values bits t (v ∷ vs) (o ∷ os) = copy_value bits t v o ∷ copy_values bits t vs os
copy_values bits t [] os = os
copy_values bits t (v ∷ vs) [] = []

-- The loop over the values: `aux_name` and `aux_vals` are `auxSD`, which the turns share.
unfoldable pub data_refs : ℕ → Bytes → List Value → List ValueRec → Bytes
data_refs bits aux_name aux_vals [] = []
data_refs bits aux_name aux_vals (vr ∷ vrs) =
    let nm = take name_sz (str_cpy aux_name (take (length vr.name - 1) vr.name)) in
    let vs = copy_values bits vr.type vr.vals aux_vals in
    nm ++ (encode32 (type_code vr.type) ++ (encode_words vs ++ data_refs bits nm vs vrs))

-- What `sendDataOfEthernet` and `sendDataOfCom` write. `junk` is the name of `auxSD` at first.
unfoldable pub data_bytes : Bytes → Board → Bytes
data_bytes junk b =
    let body = data_refs b.int_bits junk (replicate b.packet_sz 0) b.values.nods in
    elim b.values.nods [
      | [] ↦ []
      | _ ∷ _ ↦
          codes "=begin="
          ++ (encode32 (name_sz + (name_sz + 4 + 4 * b.packet_sz) * length b.values.nods)
              ++ (take name_sz (b.module_name ++ replicate name_sz 0) ++ (body ++ codes "=end=")))
    ]

-- `sendData`: what is written, and whether it goes well. A serial line always does; `connected` is
-- that of the network client.
unfoldable pub send_data : Bytes → Bool → Board → Bytes × Bool
send_data junk connected b =
    if b.is_com || connected then (data_bytes junk b, true) else ([], false)

-- The loop of `doSendCyc` over the values.
unfoldable pub hold_recs : ℕ → ℕ → List ValueRec → Option (List ValueRec)
hold_recs cur prev [] = some []
hold_recs cur prev (vr ∷ vrs) = elim (hold cur prev vr) [
  | none ↦ none
  | some vr' ↦ elim (hold_recs cur prev vrs) [ none ↦ none | some vrs' ↦ some (vr' ∷ vrs') ]
]

-- What follows that loop: the message at the end of the packet.
unfoldable pub finish_cyc : Bytes → Bool → Bool → List ValueRec → Board → Board × Bytes
finish_cyc junk on connected vrs b =
    let b1 : Board = record b { is_connect = on; values = record (b.values) { nods = vrs } } in
    let (bytes, ok) = send_data junk connected b1 in
    if leb b.packet_sz (b.cur_cyc_cnt + 1)
    then if on
      then (record b1 { is_connect = ok; cur_cyc_cnt = 0 }, bytes)
      else (record b1 { cur_cyc_cnt = 0 }, [])
    else (record b1 { cur_cyc_cnt = b.cur_cyc_cnt + 1 }, [])

abbrev pub prev_cyc : Board → ℕ
prev_cyc b = if b.cur_cyc_cnt == 0 then b.packet_sz - 1 else b.cur_cyc_cnt - 1

-- `doSendCyc`. `again` is what `tcpConnect` returns.
unfoldable pub do_send_cyc : Bytes → Bool → Bool → Board → Option (Board × Bytes)
do_send_cyc junk again connected b = elim (hold_recs b.cur_cyc_cnt (prev_cyc b) b.values.nods) [
  | none ↦ none
  | some vrs ↦ some (finish_cyc junk (b.is_connect || again) connected vrs b)
]
