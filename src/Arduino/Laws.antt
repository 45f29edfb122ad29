-- ===== src/Arduino/Laws.antt =====
-- The Arduino client (src/SVArduino/sv_client.cpp): its arrays, and what it keeps and sends.
use svisual.Prelude.{
  ℕ, ◌⊎◌, ◌||◌, zero, suc, ◌+◌, ◌^◌, ◌<◌, ◌≡◌, refl, sym, ap, ap₂, subst, ◌∙◌, ◌↔◌, inl, inr, List,
  [], ◌∷◌, ◌++◌, Bool, true, false, Option, none, some, if◌then◌else◌, leb, length, get_elem?, set,
  All, All-append, All-set, length-append, length-set, length-replicate, get_elem?_lt,
  get_elem?-set_self, get_elem?-set_ne, arith, Bool-cases, Option-cases,
}
use svisual.Prelude.Bytes.{Bytes, str_eq, str_eq_iff, str_eq_refl}
use svisual.Base.{ValueType, bool, int, float, Value}
use svisual.Client.{ValueRec, is_name, hold, held}
use svisual.Arduino.{
  Board, new_rec, write_value, add_value, copy_values, hold_recs, prev_cyc, finish_cyc, do_send_cyc,
}
use svisual.Arduino.Tree.{ValueMap, find, map_insert, find-insert}

abbrev Packet : ℕ → ValueRec → Type 0
Packet n vr = length vr.vals ≡ n

-- The cycle is in the packet, every value has a packet, and every name has a place of its own.
pub record IsValid (b : Board) : Type 0 where
  pub cycle_in : b.cur_cyc_cnt < b.packet_sz
  pub packets : All (Packet b.packet_sz) b.values.nods
  pub placed : (k : Bytes) (i : ℕ) → find k b.values.root ≡ some i → i < length b.values.nods
  pub apart :
      (k j : Bytes) (i : ℕ) → find k b.values.root ≡ some i → find j b.values.root ≡ some i → k ≡ j

-- The record that stands under a name.
unfoldable pub entry : Bytes → ValueMap → Option ValueRec
entry k m = elim (find k m.root) [ none ↦ none | some i ↦ get_elem? m.nods i ]

-- A record with a value in the place of the cycle.
abbrev pub with_value : ℕ → Value → Bool → ValueRec → ValueRec
with_value cur v f vr = record vr { vals = set vr.vals cur v; is_only_front = f; is_active = true }

abbrev written : ℕ → ValueRec → Board → Board
written i vr b = record b { values = record (b.values) { nods = set b.values.nods i vr } }

All-get_elem? :
    (n : ℕ) (vrs : List ValueRec) (i : ℕ) (vr : ValueRec)
    → All (Packet n) vrs
    → get_elem? vrs i ≡ some vr
    → length vr.vals ≡ n
All-get_elem? n [] i vr a e = cc
All-get_elem? n (x ∷ vrs) zero vr a e = ground arith
All-get_elem? n (x ∷ vrs) (suc i) vr a e = All-get_elem? n vrs i vr a.1 e

write_value_lem :
    (i : ℕ) (v : Value) (f : Bool) (b : Board) (vr : ValueRec)
    → IsValid b
    → get_elem? b.values.nods i ≡ some vr
    → write_value i v f b ≡ some (written i (with_value b.cur_cyc_cnt v f vr) b, true)
unfolding write_value
write_value_lem i v f b vr ok e =
    let size = All-get_elem? b.packet_sz b.values.nods i vr ok.packets e in
    ground (arith, ok.cycle_in)

written-IsValid :
    (i : ℕ) (vr : ValueRec) (b : Board)
    → IsValid b
    → length vr.vals ≡ b.packet_sz
    → IsValid (written i vr b)
written-IsValid i vr b ok size = record {
  cycle_in = ok.cycle_in;
  packets = All-set (Packet b.packet_sz) b.values.nods i vr ok.packets size;
  placed = λ k j e. omega (arith, ok.placed k j e, length-set b.values.nods i vr);
  apart = ok.apart;
}

entry-written :
    (nm k : Bytes) (i : ℕ) (vr : ValueRec) (b : Board)
    → IsValid b
    → find nm b.values.root ≡ some i
    → entry k (written i vr b).values ≡ (if str_eq nm k then some vr else entry k b.values)
unfolding entry
entry-written nm k i vr b ok e = elim (Bool-cases (str_eq nm k)) [
  | inl hit ↦
      subst
        (λ j. entry j (written i vr b).values ≡ (if str_eq nm j then some vr else entry j b.values))
        ((str_eq_iff nm k).0 hit)
        (rw (entry, e, str_eq_refl nm) (get_elem?-set_self b.values.nods i vr (ok.placed nm i e)))
  | inr miss ↦ rw miss (elim (Option-cases (find k b.values.root)) [
    | inl gone ↦ rw (entry, gone) refl
    | inr (j, there) ↦
        rw (entry, there)
          (get_elem?-set_ne b.values.nods i j vr
            (λ same. ground (arith, ok.apart nm k i, str_eq_iff nm k)))
  ])
]

-- The board with a name that is new.
abbrev inserted : Bytes → ValueRec → Board → Board
inserted nm vr b = record b { values = map_insert nm vr b.values }

inserted-IsValid :
    (nm : Bytes) (vr : ValueRec) (b : Board)
    → IsValid b
    → find nm b.values.root ≡ none
    → length vr.vals ≡ b.packet_sz
    → IsValid (inserted nm vr b)
unfolding map_insert
inserted-IsValid nm vr b ok new size = record {
  cycle_in = ok.cycle_in;
  packets = All-append (Packet b.packet_sz) b.values.nods (vr ∷ []) ok.packets (size, tt);
  placed = λ k j e. ground (
    arith,
    find-insert nm k (length b.values.nods) b.values.root new,
    ok.placed k j,
    length-append b.values.nods (vr ∷ []),
  );
  apart = λ k j i ek ej. ground (
    arith,
    find-insert nm k (length b.values.nods) b.values.root new,
    find-insert nm j (length b.values.nods) b.values.root new,
    str_eq_iff nm k,
    str_eq_iff nm j,
    ok.placed k i,
    ok.placed j i,
    ok.apart k j i,
  );
}

get_elem?-last :
    (vrs : List ValueRec) (vr : ValueRec) → get_elem? (vrs ++ (vr ∷ [])) (length vrs) ≡ some vr
get_elem?-last [] vr = refl
get_elem?-last (x ∷ vrs) vr = get_elem?-last vrs vr

get_elem?-before :
    (vrs : List ValueRec) (vr : ValueRec) (i : ℕ)
    → i < length vrs
    → get_elem? (vrs ++ (vr ∷ [])) i ≡ get_elem? vrs i
get_elem?-before [] vr i h = absurd (omega arith)
get_elem?-before (x ∷ vrs) vr zero h = refl
get_elem?-before (x ∷ vrs) vr (suc i) h = get_elem?-before vrs vr i (omega arith)

entry-inserted :
    (nm k : Bytes) (vr : ValueRec) (b : Board)
    → IsValid b
    → find nm b.values.root ≡ none
    → str_eq nm k ≡ false
    → entry k (inserted nm vr b).values ≡ entry k b.values
unfolding entry map_insert
entry-inserted nm k vr b ok new other = elim (Option-cases (find k b.values.root)) [
  | inl gone ↦ ground (arith, find-insert nm k (length b.values.nods) b.values.root new)
  | inr (j, there) ↦ ground (
    arith,
    find-insert nm k (length b.values.nods) b.values.root new,
    get_elem?-before b.values.nods vr j (ok.placed k j there),
  )
]

nods_last :
    (nm : Bytes) (vr : ValueRec) (b : Board)
    → get_elem? (inserted nm vr b).values.nods (length b.values.nods) ≡ some vr
unfolding map_insert
nods_last nm vr b = get_elem?-last b.values.nods vr

found_new :
    (nm : Bytes) (vr : ValueRec) (b : Board)
    → find nm b.values.root ≡ none
    → find nm (inserted nm vr b).values.root ≡ some (length b.values.nods)
unfolding map_insert
found_new nm vr b new =
    find-insert nm nm (length b.values.nods) b.values.root new ∙ rw (str_eq_refl nm) refl

-- `addValue` takes the value: its name is known, or is a name and there is room for one more.
abbrev pub Accepts : Bytes → Board → Type 0
Accepts nm b =
    ((i : ℕ) × (find nm b.values.root ≡ some i))
    ⊎ ((find nm b.values.root ≡ none)
        × (length b.values.nods < b.vals_max_cnt)
        × (is_name nm ≡ true))

-- The record of a name before a value is added: the one that stands there, or else a new one.
abbrev pub before : Bytes → ValueType → Board → ValueRec
before nm t b = elim (entry nm b.values) [ none ↦ new_rec b.packet_sz nm t | some vr ↦ vr ]

-- What `addValue` promises of the board after it: the record of the name is as before but for the
-- place of the cycle, which has the value, and its flags.
pub record Keeps (nm : Bytes) (t : ValueType) (v : Value) (f : Bool) (b b' : Board) : Type 0 where
  pub valid : IsValid b'
  pub stored : entry nm b'.values ≡ some (with_value b.cur_cyc_cnt v f (before nm t b))
  pub others : (k : Bytes) → str_eq nm k ≡ false → entry k b'.values ≡ entry k b.values

before-there :
    (nm : Bytes) (t : ValueType) (i : ℕ) (vr : ValueRec) (b : Board)
    → find nm b.values.root ≡ some i
    → get_elem? b.values.nods i ≡ some vr
    → before nm t b ≡ vr
unfolding entry
before-there nm t i vr b e there =
    let found : entry nm b.values ≡ some vr = rw (entry, e) there in rw (before, found) refl

before-new :
    (nm : Bytes) (t : ValueType) (b : Board)
    → find nm b.values.root ≡ none
    → before nm t b ≡ new_rec b.packet_sz nm t
unfolding entry
before-new nm t b e =
    let missing : entry nm b.values ≡ none = rw (entry, e) refl in rw (before, missing) refl

written-Keeps :
    (nm : Bytes) (t : ValueType) (v : Value) (f : Bool) (i : ℕ) (vr : ValueRec) (b : Board)
    → IsValid b
    → find nm b.values.root ≡ some i
    → get_elem? b.values.nods i ≡ some vr
    → length vr.vals ≡ b.packet_sz
    → Keeps nm t v f b (written i (with_value b.cur_cyc_cnt v f vr) b)
written-Keeps nm t v f i vr b ok e there size = record {
  valid = written-IsValid i new b ok (length-set vr.vals b.cur_cyc_cnt v ∙ size);
  stored =
      entry-written nm nm i new b ok e
      ∙ rw (str_eq_refl nm) refl
      ∙ ap (λ r. some (with_value b.cur_cyc_cnt v f r)) (sym (before-there nm t i vr b e there));
  others = λ k other. entry-written nm k i new b ok e ∙ rw other refl;
}
  where
    new : ValueRec
    new = with_value b.cur_cyc_cnt v f vr

add_value_old :
    (nm : Bytes) (t : ValueType) (v : Value) (f : Bool) (b : Board) (i : ℕ)
    → b.is_connect ≡ true
    → find nm b.values.root ≡ some i
    → add_value nm t v f b ≡ write_value i v f b
unfolding add_value
add_value_old nm t v f b i on e = ground arith

add_value_new :
    (nm : Bytes) (t : ValueType) (v : Value) (f : Bool) (b : Board)
    → b.is_connect ≡ true
    → find nm b.values.root ≡ none
    → length b.values.nods < b.vals_max_cnt
    → is_name nm ≡ true
    → add_value nm t v f b
      ≡ write_value (length b.values.nods) v f (inserted nm (new_rec b.packet_sz nm t) b)
unfolding add_value
add_value_new nm t v f b on new room named = ground arith

-- On a valid board that is connected, `addValue` takes an accepted value and keeps the board valid.
-- The record under its name is the one from before, or else a new one of the type, with the value in
-- the place of the cycle and with its flags; no other place of it changes, and no other record.
pub add_value-Keeps :
    (nm : Bytes) (t : ValueType) (v : Value) (f : Bool) (b : Board)
    → b.is_connect ≡ true
    → IsValid b
    → Accepts nm b
    → (b' : Board) × (add_value nm t v f b ≡ some (b', true)) × Keeps nm t v f b b'
add_value-Keeps nm t v f b on ok (inl (i, e)) =
    let (vr, there) = get_elem?_lt b.values.nods i (ok.placed nm i e) in
    (
      written i (with_value b.cur_cyc_cnt v f vr) b,
      add_value_old nm t v f b i on e ∙ write_value_lem i v f b vr ok there,
      written-Keeps nm t v f i vr b ok e there
          (All-get_elem? b.packet_sz b.values.nods i vr ok.packets there),
    )
add_value-Keeps nm t v f b on ok (inr (new, room, named)) = (
  written (length b.values.nods) (with_value b.cur_cyc_cnt v f fresh) b1,
  add_value_new nm t v f b on new room named
      ∙ write_value_lem (length b.values.nods) v f b1 fresh ok1 last,
  record {
    valid = kept.valid;
    stored =
        kept.stored
        ∙ ap (λ r. some (with_value b.cur_cyc_cnt v f r))
            (before-there nm t (length b.values.nods) fresh b1 (found_new nm fresh b new) last
              ∙ sym (before-new nm t b new));
    others = λ k other. kept.others k other ∙ entry-inserted nm k fresh b ok new other;
  },
)
  where
    fresh : ValueRec
    fresh = new_rec b.packet_sz nm t

    b1 : Board
    b1 = inserted nm fresh b

    ok1 : IsValid b1
    ok1 = inserted-IsValid nm fresh b ok new (length-replicate b.packet_sz 0)

    last : get_elem? b1.values.nods (length b.values.nods) ≡ some fresh
    last = nods_last nm fresh b

    kept :
        Keeps nm t v f b1 (written (length b.values.nods) (with_value b.cur_cyc_cnt v f fresh) b1)
    kept =
        written-Keeps nm t v f (length b.values.nods) fresh b1 ok1 (found_new nm fresh b new) last
          (length-replicate b.packet_sz 0)

hold_lem :
    (n cur prev : ℕ) (vr : ValueRec)
    → length vr.vals ≡ n
    → cur < n
    → prev < n
    → (vr' : ValueRec) × (hold cur prev vr ≡ some vr') × (length vr'.vals ≡ n)
unfolding hold
hold_lem n cur prev vr size hc hp = elim (Bool-cases vr.is_active) [
  | inl yes_active ↦ (record vr { is_active = false }, ground arith, size)
  | inr idle ↦
      let (old, e) = get_elem?_lt vr.vals prev (omega arith) in
      (
        record vr { is_active = false; vals = set vr.vals cur (held vr.type vr.is_only_front old) },
        ground arith,
        length-set vr.vals cur (held vr.type vr.is_only_front old) ∙ size,
      )
]

hold_recs_lem :
    (n cur prev : ℕ) (vrs : List ValueRec)
    → All (Packet n) vrs
    → cur < n
    → prev < n
    → (vrs' : List ValueRec) × (hold_recs cur prev vrs ≡ some vrs')
      × All (Packet n) vrs'
      × (length vrs' ≡ length vrs)
unfolding hold_recs
hold_recs_lem n cur prev [] a hc hp = ([], refl, tt, refl)
hold_recs_lem n cur prev (vr ∷ vrs) a hc hp =
    let (vr', e, size) = hold_lem n cur prev vr a.0 hc hp in
    let (vrs', es, sizes, same) = hold_recs_lem n cur prev vrs a.1 hc hp in
    (vr' ∷ vrs', rw (hold_recs, e, es) refl, (size, sizes), ap suc same)

finish_cyc-IsValid :
    (junk : Bytes) (on connected : Bool) (vrs : List ValueRec) (b : Board)
    → IsValid b
    → All (Packet b.packet_sz) vrs
    → length vrs ≡ length b.values.nods
    → IsValid (finish_cyc junk on connected vrs b).0
unfolding finish_cyc
finish_cyc-IsValid junk on connected vrs b ok sizes same =
    elim (Bool-cases (leb b.packet_sz (b.cur_cyc_cnt + 1))) [
      | inl last ↦ elim (Bool-cases on) [
        | inl up ↦ rw (last, up) (at_cycle 0 (ground arith))
        | inr down ↦ rw (last, down) (at_cycle 0 (ground arith))
      ]
      | inr more ↦ rw more (at_cycle (b.cur_cyc_cnt + 1) (ground arith))
    ]
  where
    at_cycle :
        (cur : ℕ) {on : Bool}
        → cur < b.packet_sz
        → IsValid (record b {
          is_connect = on;
          cur_cyc_cnt = cur;
          values = record (b.values) { nods = vrs };
        })
    at_cycle cur h = record {
      cycle_in = h;
      packets = sizes;
      placed = λ k i e. omega (arith, ok.placed k i e);
      apart = ok.apart;
    }

-- A tick of the timer on a valid board uses no place outside of an array, and keeps the board valid.
pub do_send_cyc-IsValid :
    (junk : Bytes) (again connected : Bool) (b : Board)
    → IsValid b
    → (r : Board × Bytes) × (do_send_cyc junk again connected b ≡ some r) × IsValid (r.0)
unfolding do_send_cyc
do_send_cyc-IsValid junk again connected b ok =
    let (vrs, e, sizes, same) =
      hold_recs_lem b.packet_sz b.cur_cyc_cnt (prev_cyc b) b.values.nods ok.packets ok.cycle_in
        (ground (arith, ok.cycle_in)) in
    (
      finish_cyc junk (b.is_connect || again) connected vrs b,
      rw (do_send_cyc, e) refl,
      finish_cyc-IsValid junk (b.is_connect || again) connected vrs b ok sizes same,
    )

-- On a board whose `int` has 32 bits, the places of `auxSD` are the values themselves, whatever they
-- held before.
pub copy_values_wide :
    (t : ValueType) (vs os : List Value)
    → All (λ v. v < 2 ^ 32) vs
    → All (λ v. v < 2 ^ 32) os
    → length vs ≡ length os
    → copy_values 32 t vs os ≡ vs
unfolding copy_values
copy_values_wide t [] [] hv ho e = refl
copy_values_wide t [] (o ∷ os) hv ho e = absurd (omega arith)
copy_values_wide t (v ∷ vs) [] hv ho e = absurd (omega arith)
copy_values_wide float (v ∷ vs) (o ∷ os) hv ho e =
    ap (λ w. v ∷ w) (copy_values_wide float vs os hv.1 ho.1 (omega arith))
copy_values_wide bool (v ∷ vs) (o ∷ os) hv ho e =
    ap₂ ◌∷◌ (omega (arith, hv.0, ho.0)) (copy_values_wide bool vs os hv.1 ho.1 (omega arith))
copy_values_wide int (v ∷ vs) (o ∷ os) hv ho e =
    ap₂ ◌∷◌ (omega (arith, hv.0, ho.0)) (copy_values_wide int vs os hv.1 ho.1 (omega arith))

-- On a board whose `int` has 16 bits, an `int` that is sent behind a `float` arrives as itself only
-- if the upper half of the `float` is zero: the half stays in `auxSD`.
pub copy_values_narrow :
    (v w o : Value)
    → v < 2 ^ 16
    → (copy_values 16 int (v ∷ []) (copy_values 16 float (w ∷ []) (o ∷ [])) ≡ v ∷ []) ↔ (w < 2 ^ 16)
unfolding copy_values
copy_values_narrow v w o small = (λ e. ground (arith, small), λ h. ground (arith, small))
