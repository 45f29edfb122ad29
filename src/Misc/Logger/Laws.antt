-- ===== src/Misc/Logger/Laws.antt =====
-- The ring of `Logger` (src/SVMisc/logger.h) as a queue that forgets its oldest message when it is
-- full, and the writing thread with other threads at work between its turns.
use svisual.Prelude.{
  ℕ, zero, suc, ◌+◌, ◌-◌, ◌%◌, ◌≤◌, ◌<◌, ◌≡◌, refl, sym, ap, ap₂, ◌∙◌, inl, inr, List, [], ◌∷◌,
  ◌++◌, append_assoc, append-nil, map, Bool, true, false, not, some, if◌then◌else◌, leb, ◌==◌,
  length, get_or, set, drop, All, arith, length-set, Bool-cases, length-append,
}
use svisual.Prelude.Bytes.{Bytes}
use svisual.Prelude.Rings.{next, window, window-set}
use svisual.Misc.Logger.{
  max_cnt_mess, Message, Logger, no_message, new_logger, write_line, drain_loop, drain_locked,
  line_of, non_empty, write_batch, Call, line, to_file, stop, call, calls, turn, write_cycle,
}

-- The counts are places of the ring.
pub record IsValid (l : Logger) : Type 0 where
  pub full_sz : length l.deq_mess ≡ max_cnt_mess
  pub read_lt : l.read_mess_cnt < max_cnt_mess
  pub write_lt : l.write_mess_cnt < max_cnt_mess

-- How many messages wait, and which.
abbrev pub waiting : ℕ → ℕ → ℕ
waiting read write = if leb read write then write - read else write + max_cnt_mess - read

unfoldable pub unread : Logger → List Message
unread l =
    window no_message l.deq_mess max_cnt_mess l.read_mess_cnt
      (waiting l.read_mess_cnt l.write_mess_cnt)

next_mod : (i : ℕ) → i < max_cnt_mess → (i + 1) % max_cnt_mess ≡ next max_cnt_mess i
next_mod i h = ground arith

pub new_logger-IsValid :
    (path : Bytes) → IsValid (new_logger path) × (unread (new_logger path) ≡ [])
unfolding new_logger unread
new_logger-IsValid path =
    (record { full_sz = refl; read_lt = omega arith; write_lt = omega arith }, refl)

-- With room, a message is put behind those that wait.
write_line_room :
    (now mess : Bytes) (l : Logger)
    → IsValid l
    → waiting l.read_mess_cnt l.write_mess_cnt < 99
    → unread (write_line now mess l) ≡ unread l ++ (record { c_time = now; mess = mess } ∷ [])
unfolding write_line unread
write_line_room now mess l v room =
    let r = l.read_mess_cnt in
    let w = l.write_mess_cnt in
    let m : Message = record { c_time = now; mess = mess } in
    rw not_full (
      ap (window no_message (set l.deq_mess w m) max_cnt_mess r) more
      ∙ window-set no_message (waiting r w) l.deq_mess max_cnt_mess r w m (omega (arith, v.full_sz))
          v.read_lt (omega arith) (ground (arith, v.read_lt, v.write_lt)))
  where
    not_full : ((l.write_mess_cnt + 1) % max_cnt_mess == l.read_mess_cnt) ≡ false
    not_full = ground (arith, v.read_lt, v.write_lt)

    more :
        waiting l.read_mess_cnt ((l.write_mess_cnt + 1) % max_cnt_mess)
        ≡ suc (waiting l.read_mess_cnt l.write_mess_cnt)
    more = ground (arith, v.read_lt, v.write_lt)

-- Without, it takes the place of the oldest.
write_line_full :
    (now mess : Bytes) (l : Logger)
    → IsValid l
    → waiting l.read_mess_cnt l.write_mess_cnt ≡ 99
    → unread (write_line now mess l)
      ≡ drop 1 (unread l) ++ (record { c_time = now; mess = mess } ∷ [])
unfolding write_line unread
write_line_full now mess l v full =
    let r = l.read_mess_cnt in
    let w = l.write_mess_cnt in
    let m : Message = record { c_time = now; mess = mess } in
    rw (is_full, full)
      (ap₂ (window no_message (set l.deq_mess w m) max_cnt_mess) (next_mod r v.read_lt) same
        ∙ window-set no_message 98 l.deq_mess max_cnt_mess (next max_cnt_mess r) w m
            (omega (arith, v.full_sz)) (ground (arith, v.read_lt)) (omega arith)
            (ground (arith, v.read_lt, v.write_lt)))
  where
    is_full : ((l.write_mess_cnt + 1) % max_cnt_mess == l.read_mess_cnt) ≡ true
    is_full = ground (arith, v.read_lt, v.write_lt)

    same :
        waiting ((l.read_mess_cnt + 1) % max_cnt_mess) ((l.write_mess_cnt + 1) % max_cnt_mess) ≡ 99
    same = ground (arith, v.read_lt, v.write_lt)

waiting_le : (l : Logger) → IsValid l → waiting l.read_mess_cnt l.write_mess_cnt ≤ 99
waiting_le l v = ground (arith, v.read_lt, v.write_lt)

write_line-IsValid : (now mess : Bytes) (l : Logger) → IsValid l → IsValid (write_line now mess l)
unfolding write_line
write_line-IsValid now mess l v = record {
  full_sz = length-set l.deq_mess l.write_mess_cnt _ ∙ v.full_sz;
  read_lt = ground (arith, v.read_lt);
  write_lt = omega arith;
}

-- A message is put behind those that wait, of which at most the newest 98 are kept then.
pub write_line_lem :
    (now mess : Bytes) (l : Logger)
    → IsValid l
    → IsValid (write_line now mess l)
      × (unread (write_line now mess l)
          ≡ (if waiting l.read_mess_cnt l.write_mess_cnt == 99 then drop 1 (unread l) else unread l)
            ++ (record { c_time = now; mess = mess } ∷ []))
write_line_lem now mess l v = (
  write_line-IsValid now mess l v,
  elim (Bool-cases (waiting l.read_mess_cnt l.write_mess_cnt == 99)) [
    | inl full ↦ rw full (write_line_full now mess l v (ground arith))
    | inr room ↦ rw room (write_line_room now mess l v (ground (arith, waiting_le l v)))
  ],
)

drain_loop-window :
    (n fuel : ℕ) (deq : List Message) (write i : ℕ)
    → i < max_cnt_mess
    → write < max_cnt_mess
    → waiting i write ≡ n
    → n < fuel
    → drain_loop fuel deq write i ≡ some (window no_message deq max_cnt_mess i n)
unfolding drain_loop
drain_loop-window n zero deq write i hi hw e h = absurd (omega arith)
drain_loop-window zero (suc fuel) deq write i hi hw e h = rw there refl
  where
    there : (i == write) ≡ true
    there = ground arith
drain_loop-window (suc n) (suc fuel) deq write i hi hw e h =
    rw
      (
        more,
        drain_loop-window n fuel deq write ((i + 1) % max_cnt_mess) (omega arith) hw (ground arith)
            (omega arith),
      )
      (ap (λ j. some (get_or deq i no_message ∷ window no_message deq max_cnt_mess j n))
        (next_mod i hi))
  where
    more : (i == write) ≡ false
    more = ground arith

-- A drain takes all messages that wait, in order.
pub drain_locked_lem :
    (l : Logger)
    → IsValid l
    → (drain_locked l ≡ some (unread l, record l { read_mess_cnt = l.write_mess_cnt }))
      × (unread (record l { read_mess_cnt = l.write_mess_cnt }) ≡ [])
unfolding drain_locked unread
drain_locked_lem l v = (
  rw
      (
        drain_locked,
        drain_loop-window (waiting l.read_mess_cnt l.write_mess_cnt) (suc max_cnt_mess) l.deq_mess
            l.write_mess_cnt l.read_mess_cnt v.read_lt v.write_lt refl
            (omega (arith, waiting_le l v)),
      )
      refl,
  ap (window no_message l.deq_mess max_cnt_mess l.write_mess_cnt) none_wait,
)
  where
    none_wait : waiting l.write_mess_cnt l.write_mess_cnt ≡ 0
    none_wait = ground arith

-- What was logged by calls, and how much.
abbrev pub messages : List Call → List Message
messages [] = []
messages (line now mess ∷ cs) = record { c_time = now; mess = mess } ∷ messages cs
messages (to_file path ∷ cs) = messages cs
messages (stop ∷ cs) = messages cs

-- The file stays the same.
abbrev pub SameFile : List Call → Type 0
SameFile [] = Unit {0}
SameFile (line now mess ∷ cs) = SameFile cs
SameFile (to_file path ∷ cs) = ⊥
SameFile (stop ∷ cs) = SameFile cs

abbrev pub stopped : Bool → List Call → Bool
stopped b [] = b
stopped b (line now mess ∷ cs) = stopped b cs
stopped b (to_file path ∷ cs) = stopped b cs
stopped b (stop ∷ cs) = stopped true cs

length-unread : (n i : ℕ) (deq : List Message) → length (window no_message deq max_cnt_mess i n) ≡ n
length-unread zero i deq = refl
length-unread (suc n) i deq = ap suc (length-unread n (next max_cnt_mess i) deq)

waiting-unread : (l : Logger) → waiting l.read_mess_cnt l.write_mess_cnt ≡ length (unread l)
unfolding unread
waiting-unread l =
    sym (length-unread (waiting l.read_mess_cnt l.write_mess_cnt) l.read_mess_cnt l.deq_mess)

-- Calls that leave room lose nothing.
calls_lem :
    (cs : List Call) (l : Logger)
    → IsValid l
    → SameFile cs
    → length (unread l) + length (messages cs) ≤ 99
    → IsValid (calls cs l)
      × (unread (calls cs l) ≡ unread l ++ messages cs)
      × ((calls cs l).path_file ≡ l.path_file)
      × ((calls cs l).f_stop ≡ stopped l.f_stop cs)
unfolding calls call unread
calls_lem [] l v same room = (v, sym (append-nil (unread l)), refl, refl)
calls_lem (line now mess ∷ cs) l v same room =
    let m : Message = record { c_time = now; mess = mess } in
    let l1 = write_line now mess l in
    let e = write_line_room now mess l v (omega (arith, waiting-unread l)) in
    let (v1, e1, p1, s1) =
      calls_lem cs l1 (write_line-IsValid now mess l v) same
        (omega (arith, ap length e, length-append (unread l) (m ∷ []))) in
    (
      v1,
      e1 ∙ ap (λ ms. ms ++ messages cs) e ∙ append_assoc (unread l) (m ∷ []) (messages cs),
      p1 ∙ unfold write_line in refl,
      s1 ∙ unfold write_line in refl,
    )
calls_lem (to_file path ∷ cs) l v same room = absurd same
calls_lem (stop ∷ cs) l v same room =
    calls_lem cs (record l { f_stop = true })
      (record { full_sz = v.full_sz; read_lt = v.read_lt; write_lt = v.write_lt }) same room

abbrev pub HasPath : Logger → Type 0
HasPath l = non_empty l.path_file ≡ true

map-append_lines :
    (ms ns : List Message) → map line_of ms ++ map line_of ns ≡ map line_of (ms ++ ns)
map-append_lines [] ns = refl
map-append_lines (m ∷ ms) ns = ap (λ t. line_of m ∷ t) (map-append_lines ms ns)

drained : Logger → Logger
drained l = record l { read_mess_cnt = l.write_mess_cnt }

drained-IsValid : (l : Logger) → IsValid l → IsValid (drained l)
unfolding drained
drained-IsValid l v = record { full_sz = v.full_sz; read_lt = v.write_lt; write_lt = v.write_lt }

written :
    (l : Logger) (ms : List Message) → HasPath l → write_batch true l.path_file ms ≡ map line_of ms
unfolding write_batch
written l ms path = ground (arith, path)

turn_on :
    (during : List Call) (l l1 l3 : Logger) (batch tail : List Message)
    → drain_locked l ≡ some (batch, l1)
    → l1.f_stop ≡ true
    → drain_locked (calls during l1) ≡ some (tail, l3)
    → turn true during l
      ≡ some (l3, write_batch true l1.path_file batch ++ write_batch true l3.path_file tail, false)
unfolding turn
turn_on during l l1 l3 batch tail e1 on e3 = ground (arith, e1, on, e3)

turn_off :
    (during : List Call) (l l1 : Logger) (batch : List Message)
    → drain_locked l ≡ some (batch, l1)
    → l1.f_stop ≡ false
    → turn true during l ≡ some (calls during l1, write_batch true l1.path_file batch, true)
unfolding turn
turn_off during l l1 batch e1 off = ground (arith, e1, off)

-- A turn in which the file opens writes what waits; what is logged meanwhile waits for the next
-- turn, or is written at once where the thread ends.
turn_lem :
    (during : List Call) (l : Logger)
    → IsValid l
    → HasPath l
    → SameFile during
    → length (messages during) ≤ 99
    → (l' : Logger) × (lines : List Bytes) × (turn true during l ≡ some (l', lines, not l.f_stop))
      × (lines ++ map line_of (unread l') ≡ map line_of (unread l ++ messages during))
      × IsValid l'
      × HasPath l'
      × (l'.f_stop ≡ stopped l.f_stop during)
      × (l.f_stop ≡ true → unread l' ≡ [])
unfolding drained
turn_lem during l v path same room =
    let (e1, empty1) = drain_locked_lem l v in
    let l1 = drained l in
    let (v2, e2, p2, s2) =
      calls_lem during l1 (drained-IsValid l v) same (omega (arith, ap length empty1)) in
    let l2 = calls during l1 in
    let (e3, empty3) = drain_locked_lem l2 v2 in
    let path2 : non_empty l2.path_file ≡ true = ap non_empty p2 ∙ path in
    let waits : unread l2 ≡ messages during = e2 ∙ ap (λ ms. ms ++ messages during) empty1 in
    let all : map line_of (unread l) ++ map line_of (unread l2)
        ≡ map line_of (unread l ++ messages during) =
      map-append_lines (unread l) (unread l2) ∙ ap (λ ms. map line_of (unread l ++ ms)) waits in
    elim (Bool-cases l.f_stop) [
      | inl on ↦ (
        drained l2,
        map line_of (unread l) ++ map line_of (unread l2),
        turn_on during l l1 (drained l2) (unread l) (unread l2) e1 on e3
            ∙ ap₂ (λ b c. some (drained l2, b ++ c, false)) (written l1 (unread l) path)
                (written (drained l2) (unread l2) path2)
            ∙ ap (λ b. some (drained l2, map line_of (unread l) ++ map line_of (unread l2), not b))
                (sym on),
        ap (λ ms. (map line_of (unread l) ++ map line_of (unread l2)) ++ map line_of ms) empty3
            ∙ append-nil (map line_of (unread l) ++ map line_of (unread l2))
            ∙ all,
        drained-IsValid l2 v2,
        path2,
        s2,
        λ _. empty3,
      )
      | inr off ↦ (
        l2,
        map line_of (unread l),
        turn_off during l l1 (unread l) e1 off
            ∙ ap₂ (λ b c. some (l2, b, not c)) (written l1 (unread l) path) (sym off),
        all,
        v2,
        path2,
        s2,
        λ h. absurd (ground arith),
      )
    ]

-- Whenever the thread wakes up, the file opens, and less than a hundred messages come until then.
abbrev pub Calm : Bool × List Call → Type 0
Calm t = (t.0 ≡ true) × SameFile (t.1) × (length (messages (t.1)) ≤ 99)

-- What is logged while the thread goes on.
unfoldable pub said : Bool → List (Bool × List Call) → List Message
said ends [] = []
said ends ((opens, during) ∷ ts) =
    messages during ++ (if ends then [] else said (stopped ends during) ts)

cycle_last :
    (opens : Bool) (during : List Call) (ts : List (Bool × List Call)) (l l1 : Logger)
    (lines : List Bytes)
    → turn opens during l ≡ some (l1, lines, false)
    → write_cycle ((opens, during) ∷ ts) l ≡ some (l1, lines)
unfolding write_cycle
cycle_last opens during ts l l1 lines e = ground (arith, e)

cycle_more :
    (opens : Bool) (during : List Call) (ts : List (Bool × List Call)) (l l1 l2 : Logger)
    (lines more : List Bytes)
    → turn opens during l ≡ some (l1, lines, true)
    → write_cycle ts l1 ≡ some (l2, more)
    → write_cycle ((opens, during) ∷ ts) l ≡ some (l2, lines ++ more)
unfolding write_cycle
cycle_more opens during ts l l1 l2 lines more e e2 = ground (arith, e, e2)

-- Nothing that is logged is lost or written twice: what is in the file and what waits is what
-- waited and was logged until the thread ended, in order. The path is not empty, the file opens at
-- every turn, and at most 99 messages come until the next.
pub write_cycle_lem :
    (ts : List (Bool × List Call)) (l : Logger)
    → IsValid l
    → HasPath l
    → All Calm ts
    → (l' : Logger) × (lines : List Bytes) × (write_cycle ts l ≡ some (l', lines))
      × (lines ++ map line_of (unread l') ≡ map line_of (unread l ++ said l.f_stop ts))
unfolding said
write_cycle_lem [] l v path calm =
    (l, [], unfold write_cycle in refl, ap (map line_of) (sym (append-nil (unread l))))
write_cycle_lem ((opens, during) ∷ ts) l v path calm =
    let (l1, lines, e, all, v1, path1, s1, ended) = turn_lem during l v path calm.0.1 calm.0.2 in
    let e' : turn opens during l ≡ some (l1, lines, not l.f_stop) =
      ap (λ b. turn b during l) calm.0.0 ∙ e in
    elim (Bool-cases l.f_stop) [
      | inl on ↦ (
        l1,
        lines,
        cycle_last opens during ts l l1 lines (e' ∙ ap (λ b. some (l1, lines, not b)) on),
        all
            ∙ ap (λ ms. map line_of (unread l ++ ms))
                (sym (append-nil (messages during))
                  ∙ ap (λ b. messages during ++ (if b then [] else said (stopped b during) ts))
                      (sym on)),
      )
      | inr off ↦
          let (l2, more, e2, all2) = write_cycle_lem ts l1 v1 path1 calm.1 in
          (
            l2,
            lines ++ more,
            cycle_more opens during ts l l1 l2 lines more
                (e' ∙ ap (λ b. some (l1, lines, not b)) off) e2,
            append_assoc lines more (map line_of (unread l2))
                ∙ ap (λ t. lines ++ t)
                    (all2 ∙ sym (map-append_lines (unread l1) (said l1.f_stop ts)))
                ∙ sym
                    (append_assoc lines (map line_of (unread l1)) (map line_of (said l1.f_stop ts)))
                ∙ ap (λ t. t ++ map line_of (said l1.f_stop ts)) all
                ∙ map-append_lines (unread l ++ messages during) (said l1.f_stop ts)
                ∙ ap (map line_of) (
                    append_assoc (unread l) (messages during) (said l1.f_stop ts)
                    ∙ ap (λ b. unread l ++ (messages during ++ said b ts)) s1
                    ∙ ap
                        (λ b.
                          unread l
                          ++ (messages during
                              ++ (if b then [] else said (stopped l.f_stop during) ts)))
                        (sym off)),
          )
    ]

-- When a stop is asked for, the next turn writes what waits and what is logged meanwhile, leaves
-- nothing, and is the last. The path is not empty, the file opens, and at most 99 messages come.
pub write_cycle_stop :
    (during : List Call) (ts : List (Bool × List Call)) (l : Logger)
    → IsValid l
    → HasPath l
    → l.f_stop ≡ true
    → SameFile during
    → length (messages during) ≤ 99
    → (l' : Logger) × (write_cycle ((true, during) ∷ ts) l
        ≡ some (l', map line_of (unread l ++ messages during)))
      × (unread l' ≡ [])
write_cycle_stop during ts l v path on same room =
    let (l1, lines, e, all, _, _, _, ended) = turn_lem during l v path same room in
    let all_written : lines ≡ map line_of (unread l ++ messages during) =
      sym (append-nil lines) ∙ ap (λ ms. lines ++ map line_of ms) (sym (ended on)) ∙ all in
    (
      l1,
      cycle_last true during ts l l1 lines (e ∙ ap (λ b. some (l1, lines, not b)) on)
          ∙ ap (λ t. some (l1, t)) all_written,
      ended on,
    )
