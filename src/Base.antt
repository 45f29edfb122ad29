-- ===== src/Base.antt =====
-- SVBase (src/SVBase/base.h, src/SVBase/src/base.cpp, src/SVBase/sv_limits.h): the value types, a
-- signal, a module, and the limits that all parts of the program share.
use svisual.Prelude.{ℕ, ◌++◌, List, [], Bool, false, if◌then◌else◌}
use svisual.Prelude.Bytes.{Bytes, codes, str_eq}

-- `SV_NAMESZ`, `SV_COMMENTSZ`, `SV_VALUE_MAX_CNT`
abbrev pub name_sz : ℕ
name_sz = 24

abbrev pub comment_sz : ℕ
comment_sz = 48

abbrev pub value_max_cnt : ℕ
value_max_cnt = 2048

-- `enum class ValueType : uint32_t`
pub data ValueType : Type 0 where
  bool int float : ValueType

-- The `uint32_t` of the enumeration.
abbrev pub type_code : ValueType → ℕ
type_code bool = 0
type_code int = 1
type_code float = 2

-- `union Value`: the 32 bits of the `bool`, `int` or `float`.
abbrev pub Value : Type 0
Value = ℕ

-- `struct RecData`: a time in ms and a packet of values.
pub record RecData : Type 0 where
  pub begin_time : ℕ
  pub vals : List Value

-- `struct ModuleData`
pub record ModuleData : Type 0 where
  pub is_active : Bool
  pub is_enable : Bool
  pub is_delete : Bool
  pub module_name : Bytes
  pub signls : List Bytes

-- The constructor `ModuleData(const std::string&)`.
abbrev pub new_module : Bytes → ModuleData
new_module m = record {
  is_active = false;
  is_enable = false;
  is_delete = false;
  module_name = m;
  signls = [];
}

-- `getSVType`: a text that is no type is read as `int`.
unfoldable pub get_sv_type : Bytes → ValueType
unfolding str_eq
get_sv_type s =
    if str_eq s (codes "bool") then bool else if str_eq s (codes "float") then float else int

-- `getSVTypeStr`
unfoldable pub get_sv_type_str : ValueType → Bytes
get_sv_type_str bool = codes "bool"
get_sv_type_str float = codes "float"
get_sv_type_str int = codes "int"

-- `struct SignalData`; `D` is `double`. `type` is the `uint32_t` of the `ValueType`, which comes off the wire
-- unchecked.
pub record SignalData (D : Type 0) : Type 0 where
  pub id : ℕ
  pub is_active : Bool
  pub is_delete : Bool
  pub is_buff_enable : Bool
  pub name : Bytes
  pub module_name : Bytes
  pub group : Bytes
  pub comment : Bytes
  pub type : ℕ
  pub last_data : RecData
  pub buff_data : List RecData
  pub buff_begin_pos : ℕ
  pub buff_value_pos : ℕ
  pub buff_min_time : ℕ
  pub buff_max_time : ℕ
  pub buff_min_value : D
  pub buff_max_value : D

-- The key of a signal: `name + module`.
abbrev pub sign_of : {D : Type 0} → SignalData D → Bytes
sign_of sd = sd.name ++ sd.module_name

-- `double` as far as the program uses it: its zero and one, the values that an `int` and a `float`
-- of a `Value` stand for, and its order.
pub record Doubles (D : Type 0) : Type 0 where
  pub zero_d : D
  pub one_d : D
  pub of_int : Value → D
  pub of_float : Value → D
  pub lt_d : D → D → Bool
